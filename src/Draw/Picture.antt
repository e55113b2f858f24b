-- ===== src/Draw/Picture.antt =====
-- A drawing as a function of the coordinates: what a list of calls of `clear` and `fill_rect` shows,
-- with no buffer, no index and no clamping.
use cardputer_zero_os.Base.{
  ◌>>=◌, ℕ, ◌<◌, ◌≡◌, ◌∙◌, refl, sym, Option, some, List, [], ◌∷◌, ◌++◌, if◌then◌else◌,
}
use cardputer_zero_os.Draw.{width, height, Color, pixel, clear, Pixels, Rect, Call}
use cardputer_zero_os.Draw.Fill.{Gives, at, clear-Painted, covers, IsPainter}

-- A call is one of the program's own `fill_rect` or of `clear`.
unfoldable pub run_call : (Rect → Color → Pixels → Option Pixels) → Call → Pixels → Option Pixels
run_call fill_rect (Call.clear_to color) p = clear color p
run_call fill_rect (Call.fill r color) p = fill_rect r color p

unfoldable pub run_calls :
    (Rect → Color → Pixels → Option Pixels) → List Call → Pixels → Option Pixels
unfolding run_call
run_calls fill_rect [] p = some p
run_calls fill_rect (call ∷ calls) p = run_call fill_rect call p >>= run_calls fill_rect calls

-- The colour value at each column and row.
abbrev pub Picture : Type 0
Picture = ℕ → ℕ → ℕ

abbrev pub paint : Call → Picture → Picture
paint (Call.clear_to color) f i j = pixel color
paint (Call.fill r color) f i j = if covers r i j then pixel color else f i j

unfoldable pub paint_all : List Call → Picture → Picture
paint_all [] f = f
paint_all (call ∷ calls) f = paint_all calls (paint call f)

pub paint_all-append :
    (calls more : List Call) (f : Picture)
    → paint_all (calls ++ more) f ≡ paint_all more (paint_all calls f)
unfolding paint_all
paint_all-append [] more f = refl
paint_all-append (call ∷ calls) more f = paint_all-append calls more (paint call f)

-- A buffer shows a picture.
abbrev pub Shows : Picture → Pixels → Type 0
Shows f p = (i j : ℕ) → i < width → j < height → at p i j ≡ f i j

module _ {fill_rect : Rect → Color → Pixels → Option Pixels} (painter : IsPainter fill_rect) where
  run_call-Shows :
      (call : Call) (p : Pixels) (f : Picture)
      → Shows f p
      → Gives (Shows (paint call f)) (run_call fill_rect call p)
  unfolding run_call
  run_call-Shows (Call.clear_to color) p f s = clear-Painted color p
  run_call-Shows (Call.fill r color) p f s =
      let (q, e, painted) = painter.fills r color p in
      (q, e, λ i j hi hj. painted i j hi hj ∙ rw (s i j hi hj))

  run_calls-Shows :
      (calls : List Call) (p : Pixels) (f : Picture)
      → Shows f p
      → Gives (Shows (paint_all calls f)) (run_calls fill_rect calls p)
  unfolding run_calls paint_all
  run_calls-Shows [] p f s = (p, refl, s)
  run_calls-Shows (call ∷ calls) p f s =
      let (q, e, shown) = run_call-Shows call p f s in
      rw e (run_calls-Shows calls q (paint call f) shown)

  -- With a `fill_rect` that sets the pixels of its rectangle that the buffer has, and no other: any
  -- drawing stays inside the buffer, whatever its coordinates are, and leaves it showing the picture
  -- that its calls paint over what was there, each over the ones before it.
  pub run_calls_lem :
      (calls : List Call) (p : Pixels)
      → Gives (Shows (paint_all calls (at p))) (run_calls fill_rect calls p)
  run_calls_lem calls p = run_calls-Shows calls p (at p) (λ i j hi hj. refl)

  -- A drawing that clears the buffer first shows the same over any two buffers.
  pub run_calls-clear :
      (color : Color) (calls : List Call) (p q : Pixels)
      → Gives
          (λ a.
            Gives
              (λ b. (i j : ℕ) → i < width → j < height → at a i j ≡ at b i j)
              (run_calls fill_rect (Call.clear_to color ∷ calls) q))
          (run_calls fill_rect (Call.clear_to color ∷ calls) p)
  unfolding paint_all
  run_calls-clear color calls p q =
      let (a, e, shown) = run_calls_lem (Call.clear_to color ∷ calls) p in
      let (b, f, seen) = run_calls_lem (Call.clear_to color ∷ calls) q in
      (a, e, (b, f, λ i j hi hj. shown i j hi hj ∙ sym (seen i j hi hj)))
