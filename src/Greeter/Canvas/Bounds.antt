-- ===== src/Greeter/Canvas/Bounds.antt =====
-- `fill_rect` of greeter/zero-greeter-wayland.cpp against the rectangle that it is given.
use mathlib.Core.Path.{ap₂}
use cardputer_zero_os.Base.{
  ℕ, ◌+◌, ◌-◌, ◌≡◌, ◌∙◌, ◌≤◌, ◌<◌, Bool, ◌&&◌, ltb, leb, if◌then◌else◌, ap, arith,
}
use cardputer_zero_os.Base.Int.{ℤ, pos, ◌+ℤ◌, le_ℤ, lt_ℤ}
use cardputer_zero_os.Draw.{width, height, pixel}
use cardputer_zero_os.Draw.Fill.{at, fill_rows-Painted, IsPainter}
use cardputer_zero_os.Greeter.Canvas.{clamp, fill_rect}

-- One axis: the clamped bounds select the same coordinates.
clamped :
    (a b : ℤ) (hi i : ℕ)
    → i < hi
    → (leb (clamp a hi) i && ltb i (clamp a hi + (clamp b hi - clamp a hi)))
      ≡ (le_ℤ a (pos i) && lt_ℤ (pos i) b)
clamped a b hi i h = ground arith

clamp-le : (a : ℤ) (hi : ℕ) → clamp a hi ≤ hi
clamp-le a hi = ground arith

-- `fill_rect` writes only inside the buffer, and sets exactly the pixels of its rectangle.
pub fill_rect-IsPainter : IsPainter fill_rect
unfolding fill_rect
fill_rect-IsPainter = record {
  fills = λ r color p.
      let x0 = clamp r.x width in
      let y0 = clamp r.y height in
      let x1 = clamp (r.x +ℤ r.w) width in
      let y1 = clamp (r.y +ℤ r.h) height in
      let (q, e, painted) =
        fill_rows-Painted (pixel color) x0 (x1 - x0) y0 (y1 - y0) p
          (omega (arith, clamp-le r.x width, clamp-le (r.x +ℤ r.w) width))
          (omega (arith, clamp-le r.y height, clamp-le (r.y +ℤ r.h) height)) in
      (
        q,
        e,
        λ i j hi hj.
            painted i j hi hj
            ∙ ap (λ (b : Bool). if b then pixel color else at p i j)
                (ap₂ ◌&&◌ (clamped r.x (r.x +ℤ r.w) width i hi)
                  (clamped r.y (r.y +ℤ r.h) height j hj)),
      );
}
