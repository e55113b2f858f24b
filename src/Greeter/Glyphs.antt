-- ===== src/Greeter/Glyphs.antt =====
-- The letters of greeter/zero-greeter-wayland.cpp: `kGlyphs` and `glyph_rows`. A letter is
-- seven rows of five bits.
pub mod Distinct
use cardputer_zero_os.Base.{ℕ, Option, none, some, List, [], ◌∷◌, ◌==◌, if◌then◌else◌}
use cardputer_zero_os.Greeter.Text.{to_upper}

abbrev glyph : ℕ → ℕ → ℕ → ℕ → ℕ → ℕ → ℕ → ℕ → ℕ × List ℕ
glyph ch a b c d e f g = (ch, a ∷ b ∷ c ∷ d ∷ e ∷ f ∷ g ∷ [])

unfoldable pub glyphs : List (ℕ × List ℕ)
glyphs =
    glyph 0x20 0x00 0x00 0x00 0x00 0x00 0x00 0x00
    ∷ glyph b'!' 0x04 0x04 0x04 0x04 0x00 0x04 0x00
    ∷ glyph b'%' 0x11 0x02 0x04 0x08 0x11 0x00 0x00
    ∷ glyph b'-' 0x00 0x00 0x00 0x0E 0x00 0x00 0x00
    ∷ glyph b'_' 0x00 0x00 0x00 0x00 0x00 0x00 0x1F
    ∷ glyph b'.' 0x00 0x00 0x00 0x00 0x00 0x04 0x00
    ∷ glyph b'/' 0x01 0x02 0x04 0x08 0x10 0x00 0x00
    ∷ glyph b':' 0x00 0x04 0x00 0x00 0x04 0x00 0x00
    ∷ glyph b'<' 0x02 0x04 0x08 0x10 0x08 0x04 0x02
    ∷ glyph b'>' 0x08 0x04 0x02 0x01 0x02 0x04 0x08
    ∷ glyph b'0' 0x0E 0x11 0x13 0x15 0x19 0x11 0x0E
    ∷ glyph b'1' 0x04 0x0C 0x04 0x04 0x04 0x04 0x0E
    ∷ glyph b'2' 0x0E 0x11 0x01 0x02 0x04 0x08 0x1F
    ∷ glyph b'3' 0x1F 0x02 0x04 0x02 0x01 0x11 0x0E
    ∷ glyph b'4' 0x02 0x06 0x0A 0x12 0x1F 0x02 0x02
    ∷ glyph b'5' 0x1F 0x10 0x1E 0x01 0x01 0x11 0x0E
    ∷ glyph b'6' 0x06 0x08 0x10 0x1E 0x11 0x11 0x0E
    ∷ glyph b'7' 0x1F 0x01 0x02 0x04 0x08 0x08 0x08
    ∷ glyph b'8' 0x0E 0x11 0x11 0x0E 0x11 0x11 0x0E
    ∷ glyph b'9' 0x0E 0x11 0x11 0x0F 0x01 0x02 0x0C
    ∷ glyph b'A' 0x0E 0x11 0x11 0x1F 0x11 0x11 0x11
    ∷ glyph b'B' 0x1E 0x11 0x11 0x1E 0x11 0x11 0x1E
    ∷ glyph b'C' 0x0E 0x11 0x10 0x10 0x10 0x11 0x0E
    ∷ glyph b'D' 0x1E 0x11 0x11 0x11 0x11 0x11 0x1E
    ∷ glyph b'E' 0x1F 0x10 0x10 0x1E 0x10 0x10 0x1F
    ∷ glyph b'F' 0x1F 0x10 0x10 0x1E 0x10 0x10 0x10
    ∷ glyph b'G' 0x0E 0x11 0x10 0x17 0x11 0x11 0x0E
    ∷ glyph b'H' 0x11 0x11 0x11 0x1F 0x11 0x11 0x11
    ∷ glyph b'I' 0x0E 0x04 0x04 0x04 0x04 0x04 0x0E
    ∷ glyph b'J' 0x01 0x01 0x01 0x01 0x11 0x11 0x0E
    ∷ glyph b'K' 0x11 0x12 0x14 0x18 0x14 0x12 0x11
    ∷ glyph b'L' 0x10 0x10 0x10 0x10 0x10 0x10 0x1F
    ∷ glyph b'M' 0x11 0x1B 0x15 0x15 0x11 0x11 0x11
    ∷ glyph b'N' 0x11 0x19 0x15 0x13 0x11 0x11 0x11
    ∷ glyph b'O' 0x0E 0x11 0x11 0x11 0x11 0x11 0x0E
    ∷ glyph b'P' 0x1E 0x11 0x11 0x1E 0x10 0x10 0x10
    ∷ glyph b'Q' 0x0E 0x11 0x11 0x11 0x15 0x12 0x0D
    ∷ glyph b'R' 0x1E 0x11 0x11 0x1E 0x14 0x12 0x11
    ∷ glyph b'S' 0x0F 0x10 0x10 0x0E 0x01 0x01 0x1E
    ∷ glyph b'T' 0x1F 0x04 0x04 0x04 0x04 0x04 0x04
    ∷ glyph b'U' 0x11 0x11 0x11 0x11 0x11 0x11 0x0E
    ∷ glyph b'V' 0x11 0x11 0x11 0x11 0x11 0x0A 0x04
    ∷ glyph b'W' 0x11 0x11 0x11 0x15 0x15 0x15 0x0A
    ∷ glyph b'X' 0x11 0x11 0x0A 0x04 0x0A 0x11 0x11
    ∷ glyph b'Y' 0x11 0x11 0x0A 0x04 0x04 0x04 0x04
    ∷ glyph b'Z' 0x1F 0x01 0x02 0x04 0x08 0x10 0x1F
    ∷ glyph b'a' 0x00 0x00 0x0E 0x01 0x0F 0x11 0x0F
    ∷ glyph b'b' 0x10 0x10 0x1E 0x11 0x11 0x11 0x1E
    ∷ glyph b'c' 0x00 0x00 0x0E 0x10 0x10 0x11 0x0E
    ∷ glyph b'd' 0x01 0x01 0x0F 0x11 0x11 0x11 0x0F
    ∷ glyph b'e' 0x00 0x00 0x0E 0x11 0x1F 0x10 0x0E
    ∷ glyph b'f' 0x06 0x08 0x08 0x1E 0x08 0x08 0x08
    ∷ glyph b'g' 0x00 0x00 0x0F 0x11 0x0F 0x01 0x0E
    ∷ glyph b'h' 0x10 0x10 0x1E 0x11 0x11 0x11 0x11
    ∷ glyph b'i' 0x04 0x00 0x0C 0x04 0x04 0x04 0x0E
    ∷ glyph b'j' 0x02 0x00 0x06 0x02 0x02 0x12 0x0C
    ∷ glyph b'k' 0x10 0x10 0x12 0x14 0x18 0x14 0x12
    ∷ glyph b'l' 0x0C 0x04 0x04 0x04 0x04 0x04 0x0E
    ∷ glyph b'm' 0x00 0x00 0x1A 0x15 0x15 0x15 0x15
    ∷ glyph b'n' 0x00 0x00 0x1E 0x11 0x11 0x11 0x11
    ∷ glyph b'o' 0x00 0x00 0x0E 0x11 0x11 0x11 0x0E
    ∷ glyph b'p' 0x00 0x00 0x1E 0x11 0x1E 0x10 0x10
    ∷ glyph b'q' 0x00 0x00 0x0F 0x11 0x0F 0x01 0x01
    ∷ glyph b'r' 0x00 0x00 0x16 0x19 0x10 0x10 0x10
    ∷ glyph b's' 0x00 0x00 0x0F 0x10 0x0E 0x01 0x1E
    ∷ glyph b't' 0x08 0x08 0x1E 0x08 0x08 0x09 0x06
    ∷ glyph b'u' 0x00 0x00 0x11 0x11 0x11 0x13 0x0D
    ∷ glyph b'v' 0x00 0x00 0x11 0x11 0x11 0x0A 0x04
    ∷ glyph b'w' 0x00 0x00 0x11 0x11 0x15 0x15 0x0A
    ∷ glyph b'x' 0x00 0x00 0x11 0x0A 0x04 0x0A 0x11
    ∷ glyph b'y' 0x00 0x00 0x11 0x11 0x0F 0x01 0x0E
    ∷ glyph b'z' 0x00 0x00 0x1F 0x02 0x04 0x08 0x1F
    ∷ []

unfoldable pub question_rows : List ℕ
question_rows = 0x0E ∷ 0x11 ∷ 0x01 ∷ 0x02 ∷ 0x04 ∷ 0x00 ∷ 0x04 ∷ []

-- The loop over `kGlyphs`.
unfoldable pub find_glyph : List (ℕ × List ℕ) → ℕ → Option (List ℕ)
find_glyph [] ch = none
find_glyph ((c, rows) ∷ more) ch = if c == ch then some rows else find_glyph more ch

-- What is returned where the loop falls through.
unfoldable pub or_rows : Option (List ℕ) → List ℕ → List ℕ
or_rows none otherwise = otherwise
or_rows (some rows) otherwise = rows

-- The second search, for the capital letter.
unfoldable pub find_upper : ℕ → List ℕ
find_upper ch =
    if to_upper ch == ch
    then question_rows
    else or_rows (find_glyph glyphs (to_upper ch)) question_rows

unfoldable pub glyph_rows : ℕ → List ℕ
glyph_rows ch = or_rows (find_glyph glyphs ch) (find_upper ch)
