-- ===== src/Greeter/Screen/Valid.antt =====
-- The invariant of the greeter's state between key events, and what drawing and reloading keep of it:
-- greeter/zero-greeter-wayland.cpp.
use native.Mathlib.Nat.{mod-lt}
use cardputer_zero_os.Base.{
  ℕ, ◌%◌, ◌≤◌, ◌<◌, ◌≡◌, refl, Bool, true, false, Option, none, some, List, [], ◌∷◌, Bytes, if_both,
  length, All, arith,
}
use cardputer_zero_os.Greeter.Users.{UserEntry}
use cardputer_zero_os.Greeter.Screen.{
  is_print, UiMode, Greeter, clamp_selection, next_buffer, render, render_into,
}

-- A selection is an index of the list, and 0 in an empty list.
abbrev pub InRange {ℓ} : {A : Type ℓ} → List A → ℕ → Type 0
InRange [] i = i ≡ 0
InRange (x ∷ xs) i = i < length (x ∷ xs)

-- A password that was typed: at most 128 printable characters.
abbrev pub IsTyped : Bytes → Type 0
IsTyped password = (length password ≤ 128) × All (λ c. is_print c ≡ true) password

-- Between events no login is under way; a session was started exactly in the mode for it, and then the
-- greeter no longer runs.
abbrev pub IsSettled : UiMode → Bool → Bool → Type 0
IsSettled UiMode.authenticating running started = true ≡ false
IsSettled UiMode.starting_session running started = (running ≡ false) × (started ≡ true)
IsSettled _ running started = started ≡ false

abbrev pub IsValid : Greeter → Type 0
IsValid g =
    InRange g.users g.selected
    × InRange g.users g.menu_selected
    × (g.power_selection < 3)
    × IsTyped g.password
    × IsSettled g.mode g.running g.session_started

pub mod-InRange {ℓ} :
    {A : Type ℓ} (xs : List A) (x : A) (i : ℕ) → InRange (x ∷ xs) (i % length (x ∷ xs))
mod-InRange xs x i = mod-lt i (omega arith)

-- The functions that look at the list of users are followed at each list, put in its place.
pub clamp-IsValid :
    (us : List UserEntry) (g : Greeter)
    → g.power_selection < 3
    → IsTyped g.password
    → IsSettled g.mode g.running g.session_started
    → IsValid (clamp_selection (record g { users = us }))
unfolding clamp_selection
clamp-IsValid [] g h t s = (refl, refl, h, t, s)
clamp-IsValid (u ∷ us) g h t s =
    (mod-InRange us u g.selected, mod-InRange us u g.menu_selected, h, t, s)

pub no_password : IsTyped []
no_password = (omega arith, tt)

-- What holds while a login is under way.
abbrev pub IsIdle : Greeter → Type 0
IsIdle g =
    InRange g.users g.selected
    × InRange g.users g.menu_selected
    × (g.power_selection < 3)
    × (g.session_started ≡ false)

-- Drawing changes nothing but a buffer and `dirty`.
pub render_into-IsIdle :
    (g : Greeter) (o : Option (List Bool)) → IsIdle g → IsIdle (render_into g o)
unfolding render_into
render_into-IsIdle g none v = v
render_into-IsIdle g (some bs) v =
    if_both IsIdle g.configured (record g { buffers = bs; dirty = false }) g v v

render_into-IsValid : (g : Greeter) (o : Option (List Bool)) → IsValid g → IsValid (render_into g o)
unfolding render_into
render_into-IsValid g none v = v
render_into-IsValid g (some bs) v =
    if_both IsValid g.configured (record g { buffers = bs; dirty = false }) g v v

pub render-IsValid : (g : Greeter) → IsValid g → IsValid (render g)
unfolding render
render-IsValid g v = render_into-IsValid g (next_buffer g.buffers) v
