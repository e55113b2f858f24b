-- ===== src/Draw/Fill.antt =====
-- What the loops of `fill_rect` of greeter/zero-greeter-wayland.cpp and
-- polkit-agent/zero-polkit-prompt-wayland.cpp write, and where.
use cardputer_zero_os.Base.{
  ◌>>=◌, ℕ, zero, suc, ◌+◌, ◌-◌, ◌*◌, ◌≤◌, ◌<◌, ◌≡◌, ◌∙◌, refl, inl, inr, Bool, true, ◌&&◌, Option,
  some, ltb, leb, ◌==◌, if◌then◌else◌, Bool-cases, lt→ltb, arith,
}
use cardputer_zero_os.Base.Int.{pos, ◌+ℤ◌, le_ℤ, lt_ℤ}
use cardputer_zero_os.Draw.{
  width, height, Color, pixel, Pixels, poke, fill_from, clear, fill_row, fill_rows, Rect,
}

-- The result is there, and has a property.
abbrev pub Gives {ℓ κ} : {A : Type ℓ} → (A → Type κ) → Option A → Type (ℓ ⊔ κ)
Gives {A} P r = (a : A) × (r ≡ some a) × P a

Gives-bind {ℓ κ μ} :
    {A : Type ℓ} {P : A → Type κ} {Q : A → Type μ} (r : Option A) (f : A → Option A)
    → Gives P r
    → ((a : A) → P a → Gives Q (f a))
    → Gives Q (r >>= f)
Gives-bind r f (a, e, p) k = rw e (k a p)

-- The pixel in column `i` and row `j`.
abbrev pub at : Pixels → ℕ → ℕ → ℕ
at p i j = p (j * width + i)

-- What a buffer shows after the pixels of a region were set.
abbrev pub Painted : (ℕ → ℕ → Bool) → ℕ → Pixels → Pixels → Type 0
Painted region value p q =
    (i j : ℕ) → i < width → j < height → at q i j ≡ (if region i j then value else at p i j)

abbrev pub row_region : ℕ → ℕ → ℕ → ℕ → ℕ → Bool
row_region yy xx columns i j = j == yy && (leb xx i && ltb i (xx + columns))

abbrev pub region_of : ℕ → ℕ → ℕ → ℕ → ℕ → ℕ → Bool
region_of x0 columns y0 rows i j =
    (leb x0 i && ltb i (x0 + columns)) && (leb y0 j && ltb j (y0 + rows))

poke_in :
    (yy xx value : ℕ) (p : Pixels)
    → xx < width
    → yy < height
    → Gives (Painted (row_region yy xx 1) value p) (poke (yy * width + xx) value p)
unfolding poke
poke_in yy xx value p hx hy = (
  (λ n. if n == yy * width + xx then value else p n),
  rw (lt→ltb (yy * width + xx) (width * height) (omega arith)),
  λ i j hi hj. ground arith,
)

fill_row-Painted :
    (value yy xx columns : ℕ) (p : Pixels)
    → columns ≤ width - xx
    → yy < height
    → Gives (Painted (row_region yy xx columns) value p) (fill_row value yy xx columns p)
unfolding fill_row
fill_row-Painted value yy xx zero p hx hy = (p, refl, λ i j hi hj. ground arith)
fill_row-Painted value yy xx (suc columns) p hx hy =
    Gives-bind (poke (yy * width + xx) value p) (fill_row value yy (xx + 1) columns)
      (poke_in yy xx value p (omega arith) hy)
      (λ q painted.
        let (r, e, rest) = fill_row-Painted value yy (xx + 1) columns q (omega arith) hy in
        (r, e, λ i j hi hj. ground (arith, rest i j, painted i j)))

pub fill_rows-Painted :
    (value x0 columns y0 rows : ℕ) (p : Pixels)
    → columns ≤ width - x0
    → rows ≤ height - y0
    → Gives (Painted (region_of x0 columns y0 rows) value p) (fill_rows value x0 columns y0 rows p)
unfolding fill_rows
fill_rows-Painted value x0 columns y0 zero p hx hy = (p, refl, λ i j hi hj. ground arith)
fill_rows-Painted value x0 columns y0 (suc rows) p hx hy =
    Gives-bind (fill_row value y0 x0 columns p) (fill_rows value x0 columns (y0 + 1) rows)
      (fill_row-Painted value y0 x0 columns p hx (omega arith))
      (λ q painted.
        let (r, e, rest) = fill_rows-Painted value x0 columns (y0 + 1) rows q hx (omega arith) in
        (r, e, λ i j hi hj. ground (arith, rest i j, painted i j)))

fill_from_painted :
    (value index rounds : ℕ) (p : Pixels)
    → index + rounds ≤ width * height
    → Gives
        (λ q.
          ((n : ℕ) → index ≤ n → n < index + rounds → q n ≡ value)
          × ((n : ℕ) → n < index → q n ≡ p n))
        (fill_from value index rounds p)
unfolding fill_from poke
fill_from_painted value index zero p h =
    (p, refl, ((λ n lo hi. absurd (omega arith)), λ n lt. refl))
fill_from_painted value index (suc rounds) p h =
    let q : Pixels = λ n. if n == index then value else p n in
    let (r, e, (inside, before)) = fill_from_painted value (index + 1) rounds q (omega arith) in
    (
      r,
      rw (lt→ltb index (width * height) (omega arith)) e,
      (
        (λ n lo hi. elim (Bool-cases (n == index)) [
          | inl same ↦ before n (ground arith) ∙ rw same
          | inr other ↦ inside n (ground arith) (omega arith)
        ]),
        (λ n lt. before n (omega arith) ∙ ground arith),
      ),
    )

pub clear-Painted :
    (color : Color) (p : Pixels) → Gives (Painted (λ i j. true) (pixel color) p) (clear color p)
unfolding clear
clear-Painted color p =
    let (q, e, (inside, before)) =
      fill_from_painted (pixel color) 0 (width * height) p (omega arith) in
    (q, e, λ i j hi hj. inside (j * width + i) (omega arith) (omega arith))

-- The pixels of a rectangle, by the coordinates that `fill_rect` is given.
abbrev pub covers : Rect → ℕ → ℕ → Bool
covers r i j =
    (le_ℤ r.x (pos i) && lt_ℤ (pos i) (r.x +ℤ r.w))
    && (le_ℤ r.y (pos j) && lt_ℤ (pos j) (r.y +ℤ r.h))

-- A `fill_rect` that sets the pixels of its rectangle that the buffer has, and no other.
pub record IsPainter (fill_rect : Rect → Color → Pixels → Option Pixels) : Type 0 where
  pub fills :
      (r : Rect) (color : Color) (p : Pixels)
      → Gives (Painted (covers r) (pixel color) p) (fill_rect r color p)
