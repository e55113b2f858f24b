-- ===== src/Greeter/Menu/Rows.antt =====
-- Which users the menu of greeter/zero-greeter-wayland.cpp shows.
use cardputer_zero_os.Base.{
  ℕ, zero, suc, ◌+◌, ◌≤◌, ◌<◌, ◌≡◌, ◌≢◌, refl, none, List, [], ◌∷◌, if◌then◌else◌, length,
  get_elem?, All, arith,
}
use cardputer_zero_os.Greeter.Users.{UserEntry}
use cardputer_zero_os.Greeter.Screen.{Greeter}
use cardputer_zero_os.Greeter.Screen.Valid.{InRange}
use cardputer_zero_os.Greeter.Menu.{Row, visible, menu_start, rows_from, menu_rows}

-- How many rows are drawn as the selected one.
abbrev pub selections : List Row → ℕ
selections [] = 0
selections (r ∷ rs) = (if r.selected then 1 else 0) + selections rs

get_elem?-ne-none {ℓ} : {A : Type ℓ} (xs : List A) (i : ℕ) → i < length xs → get_elem? xs i ≢ none
get_elem?-ne-none [] i h = absurd (omega arith)
get_elem?-ne-none (x ∷ xs) zero h = λ p. cc
get_elem?-ne-none (x ∷ xs) (suc i) h = get_elem?-ne-none xs i (omega arith)

rows_from-users :
    (g : Greeter) (i n : ℕ) → i + n ≤ length g.users → All (λ r. r.user ≢ none) (rows_from g i n)
unfolding rows_from
rows_from-users g i zero h = tt
rows_from-users g i (suc n) h =
    (get_elem?-ne-none g.users i (omega arith), rows_from-users g (i + 1) n (omega arith))

rows_from-after : (g : Greeter) (i n : ℕ) → g.menu_selected < i → selections (rows_from g i n) ≡ 0
unfolding rows_from
rows_from-after g i zero h = refl
rows_from-after g i (suc n) h = ground (arith, rows_from-after g (i + 1) n)

rows_from-selections :
    (g : Greeter) (i n : ℕ)
    → i ≤ g.menu_selected
    → g.menu_selected < i + n
    → selections (rows_from g i n) ≡ 1
unfolding rows_from
rows_from-selections g i zero low high = absurd (omega arith)
rows_from-selections g i (suc n) low high =
    ground (arith, rows_from-after g (i + 1) n, rows_from-selections g (i + 1) n)

window_at :
    (us : List UserEntry) (g : Greeter)
    → us ≢ []
    → InRange us g.menu_selected
    → let h = record g { users = us } in
      (menu_start h ≤ g.menu_selected)
      × (g.menu_selected < menu_start h + visible h)
      × (menu_start h + visible h ≤ length us)
unfolding menu_start visible
window_at [] g ne s = absurd (ne refl)
window_at (u ∷ us) g ne s = ground arith

-- With any user at all and the selection in range, every row of the menu shows a user of the list, and
-- exactly one row is drawn as the selected one.
menu_rows_lem :
    (g : Greeter)
    → g.users ≢ []
    → InRange g.users g.menu_selected
    → All (λ r. r.user ≢ none) (menu_rows g) × (selections (menu_rows g) ≡ 1)
unfolding menu_rows
menu_rows_lem g ne s =
    let (low, high, fits) = window_at g.users g ne s in
    (
      rows_from-users g (menu_start g) (visible g) fits,
      rows_from-selections g (menu_start g) (visible g) low high,
    )
