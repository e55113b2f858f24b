-- ===== src/Greeter/Canvas.antt =====
-- The drawing primitives of greeter/zero-greeter-wayland.cpp: `fill_rect`, `draw_rect`, `draw_text` and
-- its two variants.
pub mod Bounds
use cardputer_zero_os.Base.{ℕ, ◌+◌, ◌-◌, Bool, Option, ltb, if◌then◌else◌}
use cardputer_zero_os.Base.Int.{ℤ, pos, pos_part, ◌+ℤ◌, lt_ℤ}
use cardputer_zero_os.Draw.{width, height, Color, pixel, Pixels, fill_rows, Rect}

-- `std::clamp(v, 0, hi)`, which is not negative.
abbrev pub clamp : ℤ → ℕ → ℕ
clamp v hi = if lt_ℤ v (pos 0) then 0 else if lt_ℤ (pos hi) v then hi else pos_part v

unfoldable pub fill_rect : Rect → Color → Pixels → Option Pixels
unfolding fill_rows pixel
fill_rect r color p =
    let x0 = clamp r.x width in
    let y0 = clamp r.y height in
    let x1 = clamp (r.x +ℤ r.w) width in
    let y1 = clamp (r.y +ℤ r.h) height in fill_rows (pixel color) x0 (x1 - x0) y0 (y1 - y0) p
