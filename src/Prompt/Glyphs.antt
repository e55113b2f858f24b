-- ===== src/Prompt/Glyphs.antt =====
-- The letters of polkit-agent/zero-polkit-prompt-wayland.cpp: `kGlyphs` and `glyph_rows`. A letter is
-- seven rows of five bits.
pub mod Shape
use cardputer_zero_os.Base.{ℕ, List, [], ◌∷◌}
use cardputer_zero_os.Greeter.Text.{to_upper}
use cardputer_zero_os.Greeter.Glyphs.{find_glyph, or_rows}

abbrev glyph : ℕ → ℕ → ℕ → ℕ → ℕ → ℕ → ℕ → ℕ → ℕ × List ℕ
glyph ch a b c d e f g = (ch, a ∷ b ∷ c ∷ d ∷ e ∷ f ∷ g ∷ [])

unfoldable pub glyphs : List (ℕ × List ℕ)
glyphs =
    glyph 0x20 0x00 0x00 0x00 0x00 0x00 0x00 0x00
    ∷ glyph b'!' 0x04 0x04 0x04 0x04 0x00 0x04 0x00
    ∷ glyph 0x22 0x0A 0x0A 0x00 0x00 0x00 0x00 0x00
    ∷ glyph b'#' 0x0A 0x1F 0x0A 0x0A 0x1F 0x0A 0x00
    ∷ glyph b'$' 0x04 0x0F 0x14 0x0E 0x05 0x1E 0x04
    ∷ glyph b'%' 0x11 0x02 0x04 0x08 0x11 0x00 0x00
    ∷ glyph b'&' 0x0C 0x12 0x14 0x08 0x15 0x12 0x0D
    ∷ glyph 0x27 0x04 0x04 0x00 0x00 0x00 0x00 0x00
    ∷ glyph b'(' 0x02 0x04 0x08 0x08 0x08 0x04 0x02
    ∷ glyph b')' 0x08 0x04 0x02 0x02 0x02 0x04 0x08
    ∷ glyph b'*' 0x00 0x0A 0x04 0x1F 0x04 0x0A 0x00
    ∷ glyph b'+' 0x00 0x04 0x04 0x1F 0x04 0x04 0x00
    ∷ glyph b',' 0x00 0x00 0x00 0x00 0x04 0x04 0x08
    ∷ glyph b'-' 0x00 0x00 0x00 0x0E 0x00 0x00 0x00
    ∷ glyph b'.' 0x00 0x00 0x00 0x00 0x00 0x04 0x00
    ∷ glyph b'/' 0x01 0x02 0x04 0x08 0x10 0x00 0x00
    ∷ glyph b':' 0x00 0x04 0x00 0x00 0x04 0x00 0x00
    ∷ glyph b';' 0x00 0x04 0x00 0x00 0x04 0x04 0x08
    ∷ glyph b'<' 0x02 0x04 0x08 0x10 0x08 0x04 0x02
    ∷ glyph b'=' 0x00 0x00 0x1F 0x00 0x1F 0x00 0x00
    ∷ glyph b'>' 0x08 0x04 0x02 0x01 0x02 0x04 0x08
    ∷ glyph b'?' 0x0E 0x11 0x01 0x02 0x04 0x00 0x04
    ∷ glyph b'@' 0x0E 0x11 0x17 0x15 0x17 0x10 0x0E
    ∷ glyph b'0' 0x0E 0x11 0x13 0x15 0x19 0x11 0x0E
    ∷ glyph b'1' 0x04 0x0C 0x04 0x04 0x04 0x04 0x0E
    ∷ glyph b'2' 0x0E 0x11 0x01 0x02 0x04 0x08 0x1F
    ∷ glyph b'3' 0x1F 0x02 0x04 0x02 0x01 0x11 0x0E
    ∷ glyph b'4' 0x02 0x06 0x0A 0x12 0x1F 0x02 0x02
    ∷ glyph b'5' 0x1F 0x10 0x1E 0x01 0x01 0x11 0x0E
    ∷ glyph b'6' 0x06 0x08 0x10 0x1E 0x11 0x11 0x0E
    ∷ glyph b'7' 0x1F 0x01 0x02 0x04 0x08 0x08 0x08
    ∷ glyph b'8' 0x0E 0x11 0x11 0x0E 0x11 0x11 0x0E
    ∷ glyph b'9' 0x0E 0x11 0x11 0x0F 0x01 0x02 0x0C
    ∷ glyph b'A' 0x0E 0x11 0x11 0x1F 0x11 0x11 0x11
    ∷ glyph b'B' 0x1E 0x11 0x11 0x1E 0x11 0x11 0x1E
    ∷ glyph b'C' 0x0E 0x11 0x10 0x10 0x10 0x11 0x0E
    ∷ glyph b'D' 0x1E 0x11 0x11 0x11 0x11 0x11 0x1E
    ∷ glyph b'E' 0x1F 0x10 0x10 0x1E 0x10 0x10 0x1F
    ∷ glyph b'F' 0x1F 0x10 0x10 0x1E 0x10 0x10 0x10
    ∷ glyph b'G' 0x0E 0x11 0x10 0x17 0x11 0x11 0x0E
    ∷ glyph b'H' 0x11 0x11 0x11 0x1F 0x11 0x11 0x11
    ∷ glyph b'I' 0x0E 0x04 0x04 0x04 0x04 0x04 0x0E
    ∷ glyph b'J' 0x01 0x01 0x01 0x01 0x11 0x11 0x0E
    ∷ glyph b'K' 0x11 0x12 0x14 0x18 0x14 0x12 0x11
    ∷ glyph b'L' 0x10 0x10 0x10 0x10 0x10 0x10 0x1F
    ∷ glyph b'M' 0x11 0x1B 0x15 0x15 0x11 0x11 0x11
    ∷ glyph b'N' 0x11 0x19 0x15 0x13 0x11 0x11 0x11
    ∷ glyph b'O' 0x0E 0x11 0x11 0x11 0x11 0x11 0x0E
    ∷ glyph b'P' 0x1E 0x11 0x11 0x1E 0x10 0x10 0x10
    ∷ glyph b'Q' 0x0E 0x11 0x11 0x11 0x15 0x12 0x0D
    ∷ glyph b'R' 0x1E 0x11 0x11 0x1E 0x14 0x12 0x11
    ∷ glyph b'S' 0x0F 0x10 0x10 0x0E 0x01 0x01 0x1E
    ∷ glyph b'T' 0x1F 0x04 0x04 0x04 0x04 0x04 0x04
    ∷ glyph b'U' 0x11 0x11 0x11 0x11 0x11 0x11 0x0E
    ∷ glyph b'V' 0x11 0x11 0x11 0x11 0x11 0x0A 0x04
    ∷ glyph b'W' 0x11 0x11 0x11 0x15 0x15 0x15 0x0A
    ∷ glyph b'X' 0x11 0x11 0x0A 0x04 0x0A 0x11 0x11
    ∷ glyph b'Y' 0x11 0x11 0x0A 0x04 0x04 0x04 0x04
    ∷ glyph b'Z' 0x1F 0x01 0x02 0x04 0x08 0x10 0x1F
    ∷ glyph b'[' 0x0E 0x08 0x08 0x08 0x08 0x08 0x0E
    ∷ glyph 0x5C 0x10 0x08 0x04 0x02 0x01 0x00 0x00
    ∷ glyph b']' 0x0E 0x02 0x02 0x02 0x02 0x02 0x0E
    ∷ glyph b'_' 0x00 0x00 0x00 0x00 0x00 0x00 0x1F
    ∷ []

unfoldable pub question_rows : List ℕ
question_rows = 0x0E ∷ 0x11 ∷ 0x01 ∷ 0x02 ∷ 0x04 ∷ 0x00 ∷ 0x04 ∷ []

unfoldable pub glyph_rows : ℕ → List ℕ
glyph_rows ch = or_rows (find_glyph glyphs (to_upper ch)) question_rows
