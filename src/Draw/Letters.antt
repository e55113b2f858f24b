-- ===== src/Draw/Letters.antt =====
-- What `draw_text` of greeter/zero-greeter-wayland.cpp and polkit-agent/zero-polkit-prompt-wayland.cpp
-- shows at the scale 1, the only one that the programs use.
use mathlib.Core.Path.{ap₂}
use cardputer_zero_os.Base.{
  ℕ, zero, suc, ◌+◌, ◌-◌, ◌*◌, ◌/◌, ◌%◌, ◌≡◌, ◌∙◌, refl, inl, inr, ap, Bool, true, false, ◌&&◌,
  Option, none, some, List, [], ◌∷◌, Bytes, ltb, leb, ◌==◌, if◌then◌else◌, get_elem?, get_or,
  Bool-cases, arith,
}
use cardputer_zero_os.Base.Int.{ℤ, pos, negsuc, ◌+ℤ◌, le_ℤ, lt_ℤ}
use cardputer_zero_os.Draw.{
  Color, pixel, Call, fill_call, when, is_lit, draw_columns, draw_glyph_rows, draw_chars,
}
use cardputer_zero_os.Draw.Picture.{Picture, paint, paint_all, paint_all-append}

-- How far a coordinate lies behind an edge; none before it.
abbrev pub offset : ℤ → ℕ → Option ℕ
offset (pos a) i = if leb a i then some (i - a) else none
offset (negsuc a) i = some (i + suc a)

abbrev is_at : Option ℕ → ℕ → Bool
is_at none c = false
is_at (some n) c = n == c

-- The five low bits of a row, from the left: the highest of them is column 0.
abbrev pub bit_of : ℕ → ℕ → Bool
bit_of row zero = row / 16 % 2 == 1
bit_of row (suc zero) = row / 8 % 2 == 1
bit_of row (suc (suc zero)) = row / 4 % 2 == 1
bit_of row (suc (suc (suc zero))) = row / 2 % 2 == 1
bit_of row (suc (suc (suc (suc zero)))) = row % 2 == 1
bit_of row _ = false

-- A pixel of a text, by its offsets from the text's corner: characters are 6 pixels apart, and the
-- glyph's 5 columns and 7 rows of bits say what is lit.
abbrev pub lit_char : (ℕ → List ℕ) → Option ℕ → ℕ → ℕ → Bool
lit_char glyph_rows none column m = false
lit_char glyph_rows (some ch) column m = ltb m 7 && bit_of (get_or (glyph_rows ch) m 0) column

abbrev pub lit_text : (ℕ → List ℕ) → Bytes → Option ℕ → Option ℕ → Bool
lit_text glyph_rows text (some n) (some m) = lit_char glyph_rows (get_elem? text (n / 6)) (n % 6) m
lit_text glyph_rows text _ _ = false

-- One pixel of scale 1 on one axis.
unit_cell :
    (a : ℤ) (c i : ℕ)
    → (le_ℤ (a +ℤ pos (c * 1)) (pos i) && lt_ℤ (pos i) (a +ℤ pos (c * 1) +ℤ pos 1))
      ≡ is_at (offset a i) c
unfolding ◌+ℤ◌
unit_cell (pos a) c i = ground arith
unit_cell (negsuc a) c i = ground arith

offset_step :
    (a : ℤ) (i : ℕ)
    → offset (a +ℤ pos (6 * 1)) i ≡ elim (offset a i) as (λ _. Option ℕ) [
      | none ↦ none
      | some n ↦ if ltb n 6 then none else some (n - 6)
    ]
unfolding ◌+ℤ◌
offset_step (pos a) i = ground arith
offset_step (negsuc a) i = ground arith

abbrev column_lit : List ℕ → ℕ → ℕ → ℕ → Option ℕ → Bool
column_lit rows row col left none = false
column_lit rows row col left (some n) = leb col n && (ltb n (col + left) && is_lit rows row n)

abbrev rows_lit : List ℕ → ℕ → ℕ → Option ℕ → Option ℕ → Bool
rows_lit rows row left (some n) (some m) =
    ltb n 5 && (leb row m && (ltb m (row + left) && is_lit rows m n))
rows_lit rows row left _ _ = false

paint-when :
    (b : Bool) (call : Call) (calls : List Call) (f : Picture) (i j : ℕ)
    → paint_all (when b call calls) f i j ≡ paint_all calls (if b then paint call f else f) i j
unfolding paint_all
paint-when true call calls f i j = refl
paint-when false call calls f i j = refl

module _ (rows : List ℕ) where
  one_column_none :
      (row col : ℕ) (o : Option ℕ) (r : Bool) (v old : ℕ)
      → old ≡ (if column_lit rows row col 0 o && r then v else old)
  one_column_none row col none r v old = refl
  one_column_none row col (some n) r v old = ground arith

  one_column :
      (row col left : ℕ) (o : Option ℕ) (r : Bool) (v old : ℕ)
      → (if column_lit rows row (col + 1) left o && r
          then v
          else if is_lit rows row col
          then (if is_at o col && r then v else old)
          else old)
        ≡ (if column_lit rows row col (suc left) o && r then v else old)
  one_column row col left none r v old = ground arith
  one_column row col left (some n) r v old = elim (Bool-cases (n == col)) [
    | inl e ↦ let same : n ≡ col = ground arith in rw same (ground arith)
    | inr e ↦ ground arith
  ]

  one_row :
      (row left : ℕ) (o u : Option ℕ) (v old : ℕ)
      → (if rows_lit rows (row + 1) left o u
          then v
          else if column_lit rows row 0 5 o && is_at u row
          then v
          else old)
        ≡ (if rows_lit rows row (suc left) o u then v else old)
  one_row row left none none v old = refl
  one_row row left none (some m) v old = refl
  one_row row left (some n) none v old = ground arith
  one_row row left (some n) (some m) v old = elim (Bool-cases (m == row)) [
    | inl e ↦ let same : m ≡ row = ground arith in rw same (ground arith)
    | inr e ↦ ground arith
  ]

  no_row :
      (row : ℕ) (o u : Option ℕ) (v old : ℕ) → old ≡ (if rows_lit rows row 0 o u then v else old)
  no_row row none none v old = refl
  no_row row none (some m) v old = refl
  no_row row (some n) none v old = refl
  no_row row (some n) (some m) v old = ground arith

module _ (rows : List ℕ) (cursor y : ℤ) (color : Color) (i j : ℕ) where
  painted_cell :
      (b : Bool) (row col : ℕ) (f : Picture)
      → (if b
            then paint
                (fill_call (cursor +ℤ pos (col * 1)) (y +ℤ pos (row * 1)) (pos 1) (pos 1) color)
                f
            else f)
          i j
        ≡ (if b
            then (if is_at (offset cursor i) col && is_at (offset y j) row
                then pixel color
                else f i j)
            else f i j)
  painted_cell true row col f =
      ap (λ (t : Bool). if t then pixel color else f i j)
        (ap₂ ◌&&◌ (unit_cell cursor col i) (unit_cell y row j))
  painted_cell false row col f = refl

  draw_columns_shows :
      (row col left : ℕ) (f : Picture)
      → paint_all (draw_columns rows row cursor y 1 color col left) f i j ≡ (
          if column_lit rows row col left (offset cursor i) && is_at (offset y j) row
          then pixel color
          else f i j)
  unfolding draw_columns paint_all
  draw_columns_shows row col zero f =
      one_column_none rows row col (offset cursor i) (is_at (offset y j) row) (pixel color) (f i j)
  draw_columns_shows row col (suc left) f =
      let call = fill_call (cursor +ℤ pos (col * 1)) (y +ℤ pos (row * 1)) (pos 1) (pos 1) color in
      let rest = draw_columns rows row cursor y 1 color (col + 1) left in
      paint-when (is_lit rows row col) call rest f i j
      ∙ draw_columns_shows row (col + 1) left (if is_lit rows row col then paint call f else f)
      ∙ rw (painted_cell (is_lit rows row col) row col f) (
          one_column rows row col left (offset cursor i) (is_at (offset y j) row) (pixel color)
            (f i j))

  draw_glyph_rows_shows :
      (row left : ℕ) (f : Picture)
      → paint_all (draw_glyph_rows rows cursor y 1 color row left) f i j
        ≡ (if rows_lit rows row left (offset cursor i) (offset y j) then pixel color else f i j)
  unfolding draw_glyph_rows paint_all
  draw_glyph_rows_shows row zero f =
      no_row rows row (offset cursor i) (offset y j) (pixel color) (f i j)
  draw_glyph_rows_shows row (suc left) f =
      let here = draw_columns rows row cursor y 1 color 0 5 in
      ap (λ (g : Picture). g i j)
        (paint_all-append here (draw_glyph_rows rows cursor y 1 color (row + 1) left) f)
      ∙ draw_glyph_rows_shows (row + 1) left (paint_all here f)
      ∙ rw (draw_columns_shows row 0 5 f)
          (one_row rows row left (offset cursor i) (offset y j) (pixel color) (f i j))

is_lit_bit : (rows : List ℕ) (m n : ℕ) → (ltb n 5 && is_lit rows m n) ≡ bit_of (get_or rows m 0) n
unfolding is_lit
is_lit_bit rows m zero = refl
is_lit_bit rows m (suc zero) = refl
is_lit_bit rows m (suc (suc zero)) = refl
is_lit_bit rows m (suc (suc (suc zero))) = refl
is_lit_bit rows m (suc (suc (suc (suc zero)))) = ap (λ (b : ℕ). b % 2 == 1) (omega arith)
is_lit_bit rows m (suc (suc (suc (suc (suc n))))) =
    let far : ltb (suc (suc (suc (suc (suc n))))) 5 ≡ false = ground arith in rw far refl

one_char :
    (glyph_rows : ℕ → List ℕ) (ch : ℕ) (text : Bytes) (o u : Option ℕ) (v old : ℕ)
    → (if lit_text glyph_rows text
          (elim o as (λ _. Option ℕ) [
            | none ↦ none
            | some n ↦ if ltb n 6 then none else some (n - 6)
          ])
          u
        then v
        else if rows_lit (glyph_rows ch) 0 7 o u
        then v
        else old)
      ≡ (if lit_text glyph_rows (ch ∷ text) o u then v else old)
one_char glyph_rows ch text none none v old = refl
one_char glyph_rows ch text none (some m) v old = refl
one_char glyph_rows ch text (some n) none v old = ground arith
one_char glyph_rows ch text (some n) (some m) v old = elim (Bool-cases (ltb n 6)) [
  | inl e ↦
      let first : n / 6 ≡ 0 = ground arith in
      let column : n % 6 ≡ n = ground arith in
      rw (e, first, column) (ground (arith, is_lit_bit (glyph_rows ch) m n))
  | inr e ↦
      let later : n / 6 ≡ suc ((n - 6) / 6) = ground arith in
      let column : n % 6 ≡ (n - 6) % 6 = ground arith in
      let far : ltb n 5 ≡ false = ground arith in rw (e, later, column, far)
]

no_char :
    (glyph_rows : ℕ → List ℕ) (o u : Option ℕ) (v old : ℕ)
    → old ≡ (if lit_text glyph_rows [] o u then v else old)
no_char glyph_rows none none v old = refl
no_char glyph_rows none (some m) v old = refl
no_char glyph_rows (some n) none v old = refl
no_char glyph_rows (some n) (some m) v old = refl

-- A text at the scale 1 shows each character's glyph in its own cell of 6 columns, from the text's
-- corner on, and changes nothing else, also where it runs over an edge of the buffer.
pub draw_chars_lem :
    (glyph_rows : ℕ → List ℕ) (x y : ℤ) (text : Bytes) (color : Color) (f : Picture) (i j : ℕ)
    → paint_all (draw_chars glyph_rows x y text color 1) f i j
      ≡ (if lit_text glyph_rows text (offset x i) (offset y j) then pixel color else f i j)
unfolding draw_chars paint_all
draw_chars_lem glyph_rows x y [] color f i j =
    no_char glyph_rows (offset x i) (offset y j) (pixel color) (f i j)
draw_chars_lem glyph_rows x y (ch ∷ text) color f i j =
    let here = draw_glyph_rows (glyph_rows ch) x y 1 color 0 7 in
    let rest = draw_chars glyph_rows (x +ℤ pos (6 * 1)) y text color 1 in
    ap (λ (g : Picture). g i j) (paint_all-append here rest f)
    ∙ draw_chars_lem glyph_rows (x +ℤ pos (6 * 1)) y text color (paint_all here f) i j
    ∙ rw (offset_step x i, draw_glyph_rows_shows (glyph_rows ch) x y color i j 0 7 f)
        (one_char glyph_rows ch text (offset x i) (offset y j) (pixel color) (f i j))
