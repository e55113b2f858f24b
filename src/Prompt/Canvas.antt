-- ===== src/Prompt/Canvas.antt =====
-- The drawing primitives of polkit-agent/zero-polkit-prompt-wayland.cpp: `fill_rect`, `draw_rect` and
-- `draw_text`.
pub mod Bounds
use cardputer_zero_os.Base.{ℕ, ◌-◌, min, Option}
use cardputer_zero_os.Base.Int.{pos_part, ◌+ℤ◌}
use cardputer_zero_os.Draw.{width, height, Color, pixel, Pixels, fill_rows, Rect}

-- `std::max(0, v)` is the positive part. A bound `std::min(kWidth, v)` below 0 runs no round, as 0 runs
-- none.
unfoldable pub fill_rect : Rect → Color → Pixels → Option Pixels
unfolding fill_rows pixel
fill_rect r color p =
    let x0 = pos_part r.x in
    let y0 = pos_part r.y in
    let x1 = min width (pos_part (r.x +ℤ r.w)) in
    let y1 = min height (pos_part (r.y +ℤ r.h)) in
    fill_rows (pixel color) x0 (x1 - x0) y0 (y1 - y0) p
