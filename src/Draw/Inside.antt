-- ===== src/Draw/Inside.antt =====
-- Calls that stay on the screen of greeter/zero-greeter-wayland.cpp and
-- polkit-agent/zero-polkit-prompt-wayland.cpp without being clipped.
use cardputer_zero_os.Base.{
  ℕ, zero, suc, ◌+◌, ◌*◌, ◌≤◌, ◌<◌, ◌≡◌, sym, subst, Bool, true, ◌&&◌, List, [], ◌∷◌, ◌++◌, Bytes,
  leb, ◌==◌, if_both, length, All, All-append, arith,
}
use cardputer_zero_os.Base.Int.{ℤ, pos, pos_part, neg_part, ◌+ℤ◌}
use cardputer_zero_os.Draw.{
  width, height, Color, Call, is_lit, draw_columns, draw_glyph_rows, draw_chars,
}

-- From `from` on, `size` pixels below `most`.
abbrev pub spans : ℤ → ℤ → ℕ → Bool
spans from size most =
    neg_part from == 0 && neg_part size == 0 && leb (pos_part from + pos_part size) most

-- The whole rectangle lies on the screen.
abbrev pub inside : Call → Bool
inside (Call.clear_to color) = true
inside (Call.fill r color) = spans r.x r.w width && spans r.y r.h height

abbrev pub IsInside : Call → Type 0
IsInside call = inside call ≡ true

abbrev pub all_inside : List Call → Bool
all_inside [] = true
all_inside (c ∷ cs) = inside c && all_inside cs

-- Calls that are known are tested.
pub tested : (cs : List Call) → all_inside cs ≡ true → All IsInside cs
tested [] e = tt
tested (c ∷ cs) e = (ground arith, tested cs (ground arith))

module _ (rows : List ℕ) (color : Color) where
  draw_columns-IsInside :
      (row x y col left : ℕ)
      → x + col + left ≤ width
      → y + row < height
      → All IsInside (draw_columns rows row (pos x) (pos y) 1 color col left)
  unfolding draw_columns ◌+ℤ◌
  draw_columns-IsInside row x y col zero h v = tt
  draw_columns-IsInside row x y col (suc left) h v =
      let rest = draw_columns-IsInside row x y (col + 1) left (omega arith) v in
      if_both (All IsInside) (is_lit rows row col) _
        (draw_columns rows row (pos x) (pos y) 1 color (col + 1) left) (ground arith, rest) rest

  draw_glyph_rows-IsInside :
      (x y row left : ℕ)
      → x + 5 ≤ width
      → y + row + left ≤ height
      → All IsInside (draw_glyph_rows rows (pos x) (pos y) 1 color row left)
  unfolding draw_glyph_rows
  draw_glyph_rows-IsInside x y row zero h v = tt
  draw_glyph_rows-IsInside x y row (suc left) h v =
      All-append IsInside (draw_columns rows row (pos x) (pos y) 1 color 0 5) _
        (draw_columns-IsInside row x y 0 5 (omega arith) (omega arith))
        (draw_glyph_rows-IsInside x y (row + 1) left h (omega arith))

pos-+ℤ : (a b : ℕ) → pos a +ℤ pos b ≡ pos (a + b)
unfolding ◌+ℤ◌
pos-+ℤ a b = ground arith

-- Of a text, each character takes 6 columns and 7 rows.
pub draw_chars-IsInside :
    (glyph_rows : ℕ → List ℕ) (x y : ℕ) (text : Bytes) (color : Color)
    → x + 6 * length text ≤ width
    → y + 7 ≤ height
    → All IsInside (draw_chars glyph_rows (pos x) (pos y) text color 1)
unfolding draw_chars
draw_chars-IsInside glyph_rows x y [] color h v = tt
draw_chars-IsInside glyph_rows x y (ch ∷ text) color h v =
    All-append IsInside (draw_glyph_rows (glyph_rows ch) (pos x) (pos y) 1 color 0 7) _
      (draw_glyph_rows-IsInside (glyph_rows ch) color x y 0 7 (omega arith) (omega arith))
      (subst (λ c. All IsInside (draw_chars glyph_rows c (pos y) text color 1)) (sym (pos-+ℤ x 6))
        (draw_chars-IsInside glyph_rows (x + 6) y text color (omega arith) v))

-- The same of a whole drawing.
pub record StaysInside (calls : List Call) : Type 0 where
  pub each : All IsInside calls

pub none-StaysInside : StaysInside []
none-StaysInside = record { each = tt }

pub one-StaysInside :
    {call : Call} {calls : List Call}
    → IsInside call
    → StaysInside calls
    → StaysInside (call ∷ calls)
one-StaysInside c cs = record { each = (c, cs.each) }

infixl 60 ◌and◌
pub ◌and◌ :
    {calls more : List Call} → StaysInside calls → StaysInside more → StaysInside (calls ++ more)
◌and◌ {calls = calls} {more = more} a b = record {
  each = All-append IsInside calls more a.each b.each;
}

pub tested-StaysInside : (calls : List Call) → all_inside calls ≡ true → StaysInside calls
tested-StaysInside calls e = record { each = tested calls e }
