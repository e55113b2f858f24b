-- ===== src/Prompt/Glyphs/Shape.antt =====
-- The rows that `draw_text` reads of a letter, in polkit-agent/zero-polkit-prompt-wayland.cpp and in
-- greeter/zero-greeter-wayland.cpp.
use cardputer_zero_os.Base.{
  ℕ, ◌≡◌, refl, Bool, true, ◌&&◌, Option, none, some, List, [], ◌∷◌, ltb, ◌==◌, if_both, length,
  arith,
}
use cardputer_zero_os.Greeter.Text.{to_upper}
use cardputer_zero_os.Greeter.Glyphs
use cardputer_zero_os.Greeter.Glyphs.{find_glyph, or_rows, find_upper}
use cardputer_zero_os.Prompt.Glyphs.{glyphs, question_rows, glyph_rows}

-- Seven rows of five bits.
abbrev pub narrow : List ℕ → Bool
narrow [] = true
narrow (r ∷ rows) = ltb r 32 && narrow rows

abbrev pub has_shape : List ℕ → Bool
has_shape rows = length rows == 7 && narrow rows

abbrev all_shaped : List (ℕ × List ℕ) → Bool
all_shaped [] = true
all_shaped ((c, rows) ∷ more) = has_shape rows && all_shaped more

abbrev FoundShaped : Option (List ℕ) → Type 0
FoundShaped none = Unit {0}
FoundShaped (some rows) = has_shape rows ≡ true

find_glyph-has_shape :
    (table : List (ℕ × List ℕ)) (ch : ℕ)
    → all_shaped table ≡ true
    → FoundShaped (find_glyph table ch)
unfolding find_glyph
find_glyph-has_shape [] ch h = tt
find_glyph-has_shape ((c, rows) ∷ more) ch h =
    let parts : (has_shape rows ≡ true) × (all_shaped more ≡ true) =
      and_parts (has_shape rows) (all_shaped more) h in
    if_both FoundShaped (c == ch) (some rows) (find_glyph more ch) parts.0
      (find_glyph-has_shape more ch parts.1)
  where
    and_parts : (a b : Bool) → a && b ≡ true → (a ≡ true) × (b ≡ true)
    and_parts a b p = ground arith

or_rows-has_shape :
    (o : Option (List ℕ)) (otherwise : List ℕ)
    → FoundShaped o
    → has_shape otherwise ≡ true
    → has_shape (or_rows o otherwise) ≡ true
unfolding or_rows
or_rows-has_shape none otherwise h k = k
or_rows-has_shape (some rows) otherwise h k = h

prompt_table : all_shaped glyphs ≡ true
unfolding glyphs
prompt_table = refl

greeter_table : all_shaped Glyphs.glyphs ≡ true
unfolding Glyphs.glyphs
greeter_table = refl

prompt_question : has_shape question_rows ≡ true
unfolding question_rows
prompt_question = refl

find_upper-has_shape : (ch : ℕ) → has_shape (find_upper ch) ≡ true
unfolding find_upper Glyphs.question_rows
find_upper-has_shape ch =
    if_both (λ rows. has_shape rows ≡ true) (to_upper ch == ch) Glyphs.question_rows _ refl
      (or_rows-has_shape (find_glyph Glyphs.glyphs (to_upper ch)) Glyphs.question_rows
        (find_glyph-has_shape Glyphs.glyphs (to_upper ch) greeter_table) refl)

-- Every byte has a letter of seven rows of five bits in both programs, the question mark at least: no
-- row that `draw_text` reads is out of the array, and none has a bit that it does not look at.
glyph_rows_lem :
    (ch : ℕ) → (has_shape (glyph_rows ch) ≡ true) × (has_shape (Glyphs.glyph_rows ch) ≡ true)
unfolding glyph_rows Glyphs.glyph_rows
glyph_rows_lem ch = (
  or_rows-has_shape (find_glyph glyphs (to_upper ch)) question_rows
      (find_glyph-has_shape glyphs (to_upper ch) prompt_table) prompt_question,
  or_rows-has_shape (find_glyph Glyphs.glyphs ch) (find_upper ch)
      (find_glyph-has_shape Glyphs.glyphs ch greeter_table) (find_upper-has_shape ch),
)
