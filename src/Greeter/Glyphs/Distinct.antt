-- ===== src/Greeter/Glyphs/Distinct.antt =====
-- The letters of greeter/zero-greeter-wayland.cpp can be told apart.
use cardputer_zero_os.Base.{
  ℕ, ◌<◌, ◌≤◌, ◌≡◌, ◌∙◌, refl, ap, sym, Bool, true, not, ◌||◌, List, [], ◌∷◌, Bytes, ◌==◌, ==_iff,
  if◌then◌else◌, map, All, str_eq, all_below, all_below_sound, arith,
}
use cardputer_zero_os.Greeter.Text.{is_alnum, fit_identifier}
use cardputer_zero_os.Greeter.Text.Fit.{IsIdentifier, fit_identifier_lem}
use cardputer_zero_os.Greeter.Glyphs.{
  glyphs, glyph_rows, find_glyph, or_rows, find_upper, question_rows,
}

-- The character of a table that looks like these rows.
read_rows : List (ℕ × List ℕ) → List ℕ → ℕ
read_rows [] rows = b'?'
read_rows ((c, r) ∷ more) rows = if str_eq r rows then c else read_rows more rows

abbrev is_identifier : ℕ → Bool
is_identifier ch = is_alnum ch || ch == b'-' || ch == b'_' || ch == b'.' || ch == b'?'

reads_back :
    all_below 128 (λ ch. not (is_identifier ch) || read_rows glyphs (glyph_rows ch) == ch) ≡ true
unfolding all_below read_rows glyph_rows glyphs find_glyph or_rows find_upper question_rows str_eq
reads_back = refl

read_glyph : (ch : ℕ) → IsIdentifier ch → read_rows glyphs (glyph_rows ch) ≡ ch
read_glyph ch h =
    let below : ch < 128 = ground arith in
    let checked =
      all_below_sound 128 (λ c. not (is_identifier c) || read_rows glyphs (glyph_rows c) == c) ch
        reads_back below in
    (==_iff (read_rows glyphs (glyph_rows ch)) ch).0 (implied (is_identifier ch) _ h checked)
  where
    implied : (b c : Bool) → b ≡ true → not b || c ≡ true → c ≡ true
    implied b c p q = ground arith

-- The glyphs of a text of such characters spell it.
read_glyphs : (s : Bytes) → All IsIdentifier s → map (read_rows glyphs) (map glyph_rows s) ≡ s
read_glyphs [] h = refl
read_glyphs (ch ∷ s) (p, h) = rw (read_glyph ch p, read_glyphs s h)

-- Two user names that are shown with the same letters are the same shown text: no two characters of a
-- shown name have one glyph.
pub glyph_rows-distinct :
    (a b : Bytes) (max_chars : ℕ)
    → 1 ≤ max_chars
    → map glyph_rows (fit_identifier a max_chars) ≡ map glyph_rows (fit_identifier b max_chars)
    → fit_identifier a max_chars ≡ fit_identifier b max_chars
glyph_rows-distinct a b n one same =
    sym (read_glyphs (fit_identifier a n) (fit_identifier_lem a n one).2)
    ∙ ap (map (read_rows glyphs)) same
    ∙ read_glyphs (fit_identifier b n) (fit_identifier_lem b n one).2
