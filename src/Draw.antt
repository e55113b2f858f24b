-- ===== src/Draw.antt =====
-- A pixel buffer and what draws on it, as greeter/zero-greeter-wayland.cpp and
-- polkit-agent/zero-polkit-prompt-wayland.cpp share it: `pixel`, `clear`, the loops of `fill_rect`,
-- `draw_rect` and `draw_text`. A drawing is the list of its calls of `clear` and `fill_rect`.
pub mod Fill
pub mod Picture
pub mod Letters
pub mod Inside
use cardputer_zero_os.Base.{
  ℕ, zero, suc, ◌+◌, ◌-◌, ◌*◌, ◌/◌, ◌%◌, ◌^◌, bit_or, Bool, true, false, Option, none, some, List,
  [], ◌∷◌, ◌++◌, Bytes, ltb, ◌==◌, if◌then◌else◌, get_or, ◌>>=◌,
}
use cardputer_zero_os.Base.Int.{ℤ, pos, ◌+ℤ◌, ◌-ℤ◌}

abbrev pub width : ℕ
width = 320

abbrev pub height : ℕ
height = 170

pub record Color : Type 0 where
  pub r : ℕ
  pub g : ℕ
  pub b : ℕ

unfoldable pub pixel : Color → ℕ
pixel c = bit_or 0xFF000000 (bit_or (c.r * 2 ^ 16) (bit_or (c.g * 2 ^ 8) c.b))

-- The `uint32_t` at each index of a buffer of `width * height` of them.
abbrev pub Pixels : Type 0
Pixels = ℕ → ℕ

-- `pixels[index] = value`; a write out of the buffer is none.
pub poke : ℕ → ℕ → Pixels → Option Pixels
poke index value p =
    if ltb index (width * height) then some (λ n. if n == index then value else p n) else none

-- `std::fill` of `rounds` pixels from `index` on.
pub fill_from : ℕ → ℕ → ℕ → Pixels → Option Pixels
unfolding poke
fill_from value index zero p = some p
fill_from value index (suc rounds) p = poke index value p >>= fill_from value (index + 1) rounds

unfoldable pub clear : Color → Pixels → Option Pixels
unfolding fill_from pixel
clear color p = fill_from (pixel color) 0 (width * height) p

-- The inner loop of `fill_rect` with `rounds` values of `xx` to go, and the outer one.
pub fill_row : ℕ → ℕ → ℕ → ℕ → Pixels → Option Pixels
unfolding poke
fill_row value yy xx zero p = some p
fill_row value yy xx (suc rounds) p =
    poke (yy * width + xx) value p >>= fill_row value yy (xx + 1) rounds

unfoldable pub fill_rows : ℕ → ℕ → ℕ → ℕ → ℕ → Pixels → Option Pixels
unfolding fill_row
fill_rows value x0 columns yy zero p = some p
fill_rows value x0 columns yy (suc rounds) p =
    fill_row value yy x0 columns p >>= fill_rows value x0 columns (yy + 1) rounds

-- A rectangle as `fill_rect` is given it.
pub record Rect : Type 0 where
  pub x : ℤ
  pub y : ℤ
  pub w : ℤ
  pub h : ℤ

pub data Call : Type 0 where
  clear_to : Color → Call
  fill : Rect → Color → Call

abbrev pub fill_call : ℤ → ℤ → ℤ → ℤ → Color → Call
fill_call x y w h color = Call.fill (record { x = x; y = y; w = w; h = h }) color

unfoldable pub draw_rect : ℤ → ℤ → ℤ → ℤ → Color → List Call
draw_rect x y w h color =
    fill_call x y w (pos 1) color
    ∷ fill_call x (y +ℤ h -ℤ pos 1) w (pos 1) color
    ∷ fill_call x y (pos 1) h color
    ∷ fill_call (x +ℤ w -ℤ pos 1) y (pos 1) h color
    ∷ []

-- `(rows[row] >> (4 - col)) & 1u`
unfoldable pub is_lit : List ℕ → ℕ → ℕ → Bool
is_lit rows row col = get_or rows row 0 / 2 ^ (4 - col) % 2 == 1

abbrev pub when : Bool → Call → List Call → List Call
when test call calls = if test then call ∷ calls else calls

-- The loops of `draw_text` over the columns of a row and the rows of a glyph, with how many are left.
pub draw_columns : List ℕ → ℕ → ℤ → ℤ → ℕ → Color → ℕ → ℕ → List Call
draw_columns rows row cursor y scale color col zero = []
draw_columns rows row cursor y scale color col (suc left) =
    when (is_lit rows row col)
      (fill_call (cursor +ℤ pos (col * scale)) (y +ℤ pos (row * scale)) (pos scale) (pos scale)
        color)
      (draw_columns rows row cursor y scale color (col + 1) left)

pub draw_glyph_rows : List ℕ → ℤ → ℤ → ℕ → Color → ℕ → ℕ → List Call
unfolding draw_columns
draw_glyph_rows rows cursor y scale color row zero = []
draw_glyph_rows rows cursor y scale color row (suc left) =
    draw_columns rows row cursor y scale color 0 5
    ++ draw_glyph_rows rows cursor y scale color (row + 1) left

-- `draw_text` over the characters from `cursor` on, with the program's `glyph_rows`.
unfoldable pub draw_chars : (ℕ → List ℕ) → ℤ → ℤ → Bytes → Color → ℕ → List Call
unfolding draw_glyph_rows
draw_chars glyph_rows cursor y [] color scale = []
draw_chars glyph_rows cursor y (ch ∷ text) color scale =
    draw_glyph_rows (glyph_rows ch) cursor y scale color 0 7
    ++ draw_chars glyph_rows (cursor +ℤ pos (6 * scale)) y text color scale
