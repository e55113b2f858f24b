-- ===== src/Prompt/Canvas/Bounds.antt =====
-- `fill_rect` of polkit-agent/zero-polkit-prompt-wayland.cpp against the rectangle that it is given, and
-- against the greeter's.
use mathlib.Core.Path.{ap₂}
use cardputer_zero_os.Base.{
  ℕ, ◌+◌, ◌-◌, ◌≡◌, ◌∙◌, sym, ◌<◌, min, Bool, ◌&&◌, List, ltb, leb, if◌then◌else◌, ap, arith,
}
use cardputer_zero_os.Base.Int.{ℤ, pos, pos_part, ◌+ℤ◌, le_ℤ, lt_ℤ}
use cardputer_zero_os.Draw.{width, height, pixel, Pixels, Call}
use cardputer_zero_os.Draw.Fill.{Gives, at, fill_rows-Painted, IsPainter}
use cardputer_zero_os.Draw.Picture.{Shows, paint_all, run_calls, run_calls_lem}
use cardputer_zero_os.Greeter.Canvas
use cardputer_zero_os.Greeter.Canvas.Bounds
use cardputer_zero_os.Prompt.Canvas.{fill_rect}

-- One axis: the bounds select the same coordinates.
cut_off :
    (a b : ℤ) (hi i : ℕ)
    → i < hi
    → (leb (pos_part a) i && ltb i (pos_part a + (min hi (pos_part b) - pos_part a)))
      ≡ (le_ℤ a (pos i) && lt_ℤ (pos i) b)
cut_off a b hi i h = ground arith

-- `fill_rect` writes only inside the buffer, and sets exactly the pixels of its rectangle.
pub fill_rect-IsPainter : IsPainter fill_rect
unfolding fill_rect
fill_rect-IsPainter = record {
  fills = λ r color p.
      let x0 = pos_part r.x in
      let y0 = pos_part r.y in
      let x1 = min width (pos_part (r.x +ℤ r.w)) in
      let y1 = min height (pos_part (r.y +ℤ r.h)) in
      let (q, e, painted) =
        fill_rows-Painted (pixel color) x0 (x1 - x0) y0 (y1 - y0) p (omega arith) (omega arith) in
      (
        q,
        e,
        λ i j hi hj.
            painted i j hi hj
            ∙ ap (λ (b : Bool). if b then pixel color else at p i j)
                (ap₂ ◌&&◌ (cut_off r.x (r.x +ℤ r.w) width i hi)
                  (cut_off r.y (r.y +ℤ r.h) height j hj)),
      );
}

-- The greeter and the prompt, which clamp in different ways, draw the same: any list of calls leaves
-- both buffers alike in every pixel, and neither writes outside of its buffer.
pub fill_rects_agree :
    (calls : List Call) (p : Pixels)
    → Gives
        (λ q.
          Gives
            (λ r. (i j : ℕ) → i < width → j < height → at q i j ≡ at r i j)
            (run_calls Canvas.fill_rect calls p))
        (run_calls fill_rect calls p)
fill_rects_agree calls p =
    let (q, e, shown) = run_calls_lem fill_rect-IsPainter calls p in
    let (r, f, shown') = run_calls_lem Bounds.fill_rect-IsPainter calls p in
    (q, e, (r, f, λ i j hi hj. shown i j hi hj ∙ sym (shown' i j hi hj)))

-- A drawing, as the greeter and the prompt each carry it out with their own `fill_rect` and `clear`:
-- whatever its coordinates are, nothing is written outside of the buffer, and in the end the buffer
-- shows the picture that the calls paint over what was there, each over the ones before it.
pub run_calls-Shows :
    (calls : List Call) (p : Pixels)
    → Gives (Shows (paint_all calls (at p))) (run_calls Canvas.fill_rect calls p)
      × Gives (Shows (paint_all calls (at p))) (run_calls fill_rect calls p)
run_calls-Shows calls p =
    (run_calls_lem Bounds.fill_rect-IsPainter calls p, run_calls_lem fill_rect-IsPainter calls p)
