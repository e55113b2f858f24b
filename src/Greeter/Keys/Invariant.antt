-- ===== src/Greeter/Keys/Invariant.antt =====
-- What holds of the greeter's state between key events: `keyboard_key` of
-- greeter/zero-greeter-wayland.cpp.
use native.Mathlib.Nat.{mod-lt}
use cardputer_zero_os.Base.{
  ℕ, zero, suc, ◌+◌, ◌-◌, ◌≤◌, ◌<◌, ◌≡◌, refl, Bool, true, false, not, ◌&&◌, ◌||◌, some, List, [],
  ◌∷◌, ◌++◌, Bytes, ltb, if_both, if_when, length, length-append, get_elem?, All, All-append, arith,
}
use cardputer_zero_os.Greeter.Users.{UserEntry}
use cardputer_zero_os.Greeter.Screen.{
  is_print, UiMode, Action, Greeter, Outside, Keysym, clamp_selection, reload_users, render,
}
use cardputer_zero_os.Greeter.Keys.{
  Key, after_login, start_login, login_as, attempt_login, run_power_action, to_login, move_menu,
  choose_user, user_menu_key, move_power, power_menu_key, pop_back, open_user_menu, open_power_menu,
  erase, login_key, key_in_mode, handle_keysym, is_login, handle_text, keyboard_key,
}
use cardputer_zero_os.Greeter.Screen.Valid.{
  IsValid, mod-InRange, no_password, IsIdle, render_into-IsIdle,
}

move_menu-IsValid :
    (step : ℕ) (us : List UserEntry) (g : Greeter)
    → IsValid (record g { users = us })
    → IsValid (move_menu step (record g { users = us }))
unfolding move_menu
move_menu-IsValid step [] g v = v
move_menu-IsValid step (u ∷ us) g (s, m, h, t, k) =
    (s, mod-InRange us u (g.menu_selected + step), h, t, k)

-- The mode may become one of the login and the menus as long as no session was started.
choose_user-IsValid :
    (us : List UserEntry) (g : Greeter)
    → g.session_started ≡ false
    → IsValid (record g { users = us })
    → IsValid (choose_user (record g { users = us }))
unfolding choose_user
choose_user-IsValid [] g k v = v
choose_user-IsValid (u ∷ us) g k (s, m, h, t, _) = (m, m, h, no_password, k)

to_login-IsValid : (g : Greeter) → g.session_started ≡ false → IsValid g → IsValid (to_login g)
unfolding to_login
to_login-IsValid g k (s, m, h, t, _) = (s, m, h, t, k)

run_power_action-IsValid :
    (p : ℕ) (g : Greeter)
    → g.session_started ≡ false
    → IsValid (record g { power_selection = p })
    → IsValid (run_power_action (record g { power_selection = p }))
unfolding run_power_action
run_power_action-IsValid zero g k (s, m, h, t, _) = (s, m, h, t, k)
run_power_action-IsValid (suc zero) g k (s, m, h, t, _) = (s, m, h, t, k)
run_power_action-IsValid (suc (suc zero)) g k (s, m, h, t, _) = (s, m, h, t, k)
run_power_action-IsValid (suc (suc (suc p))) g k (s, m, h, t, _) = absurd (omega arith)

module _ (g : Greeter) (k : g.session_started ≡ false) (v : IsValid g) where
  user_menu_key-IsValid : (sym : Keysym) → IsValid (user_menu_key g sym)
  unfolding user_menu_key
  user_menu_key-IsValid Keysym.escape = to_login-IsValid g k v
  user_menu_key-IsValid Keysym.tab = move_menu-IsValid 1 g.users g v
  user_menu_key-IsValid Keysym.down = move_menu-IsValid 1 g.users g v
  user_menu_key-IsValid Keysym.right = move_menu-IsValid 1 g.users g v
  user_menu_key-IsValid Keysym.up = move_menu-IsValid (length g.users - 1) g.users g v
  user_menu_key-IsValid Keysym.left = move_menu-IsValid (length g.users - 1) g.users g v
  user_menu_key-IsValid Keysym.return = choose_user-IsValid g.users g k v
  user_menu_key-IsValid Keysym.kp_enter = choose_user-IsValid g.users g k v
  user_menu_key-IsValid Keysym.backspace = v
  user_menu_key-IsValid Keysym.delete = v
  user_menu_key-IsValid (Keysym.other n) = v

  move_power-IsValid : (step : ℕ) → IsValid (move_power step g)
  unfolding move_power
  move_power-IsValid step =
      let (s, m, h, t, c) = v in (s, m, mod-lt (g.power_selection + step) (omega arith), t, c)

  power_menu_key-IsValid : (sym : Keysym) → IsValid (power_menu_key g sym)
  unfolding power_menu_key
  power_menu_key-IsValid Keysym.escape = to_login-IsValid g k v
  power_menu_key-IsValid Keysym.tab = move_power-IsValid 1
  power_menu_key-IsValid Keysym.down = move_power-IsValid 1
  power_menu_key-IsValid Keysym.right = move_power-IsValid 1
  power_menu_key-IsValid Keysym.up = move_power-IsValid 2
  power_menu_key-IsValid Keysym.left = move_power-IsValid 2
  power_menu_key-IsValid Keysym.return = run_power_action-IsValid g.power_selection g k v
  power_menu_key-IsValid Keysym.kp_enter = run_power_action-IsValid g.power_selection g k v
  power_menu_key-IsValid Keysym.backspace = v
  power_menu_key-IsValid Keysym.delete = v
  power_menu_key-IsValid (Keysym.other n) = v

pub pop_back-IsTyped :
    (p : Bytes) (n : ℕ)
    → (length p ≤ n) × All (λ c. is_print c ≡ true) p
    → (length (pop_back p) ≤ n) × All (λ c. is_print c ≡ true) (pop_back p)
unfolding pop_back
pop_back-IsTyped [] n h = h
pop_back-IsTyped (c ∷ []) n h = (omega arith, tt)
pop_back-IsTyped (c ∷ d ∷ s) zero (short, h) = absurd (omega arith)
pop_back-IsTyped (c ∷ d ∷ s) (suc n) (short, (hc, h)) =
    let (short', h') = pop_back-IsTyped (d ∷ s) n (omega arith, h) in (omega arith, (hc, h'))

after_login-IsValid :
    (g : Greeter) (answer : Bool × Bytes) → IsIdle g → IsValid (after_login g answer)
unfolding after_login
after_login-IsValid g (true, message) (s, m, h, k) = (s, m, h, no_password, (refl, refl))
after_login-IsValid g (false, message) (s, m, h, k) = (s, m, h, no_password, k)

login_as-IsValid :
    (o : Outside) (g : Greeter) (user : UserEntry)
    → IsIdle g
    → IsValid (login_as o (start_login g) user)
unfolding login_as start_login render
login_as-IsValid o g user v =
    let h = start_login g in
    let idle : IsIdle h = render_into-IsIdle _ _ v in
    after_login-IsValid
      (record h { actions = h.actions ++ Action.log_in user.name h.password ∷ [] }) _ idle

pub get_elem?-some {ℓ} :
    {A : Type ℓ} (xs : List A) (i : ℕ) → i < length xs → (x : A) × (get_elem? xs i ≡ some x)
get_elem?-some [] i h = absurd (omega arith)
get_elem?-some (x ∷ xs) zero h = (x, refl)
get_elem?-some (x ∷ xs) (suc i) h = get_elem?-some xs i (omega arith)

attempt_login-IsValid :
    (us : List UserEntry) (o : Outside) (g : Greeter)
    → g.session_started ≡ false
    → IsValid (record g { users = us })
    → IsValid (attempt_login o (record g { users = us }))
unfolding attempt_login
attempt_login-IsValid [] o g k v = v
attempt_login-IsValid (u ∷ us) o g k (s, m, h, t, _) =
    let (user, e) = get_elem?-some (u ∷ us) g.selected s in
    rw e (login_as-IsValid o (record g { users = u ∷ us }) user (s, m, h, k))

open_user_menu-IsValid :
    (us : List UserEntry) (o : Outside) (g : Greeter)
    → g.session_started ≡ false
    → IsValid g
    → IsValid (open_user_menu (record o { load_users = us }) g)
unfolding open_user_menu reload_users clamp_selection
open_user_menu-IsValid [] o g k (_, _, h, t, _) = (refl, refl, h, t, k)
open_user_menu-IsValid (u ∷ us) o g k (_, _, h, t, _) =
    let s = mod-InRange us u g.selected in (s, s, h, t, k)

module _ (o : Outside) (g : Greeter) (k : g.session_started ≡ false) (v : IsValid g) where
  login_key-IsValid : (sym : Keysym) → IsValid (login_key o g sym).0
  unfolding login_key open_power_menu erase
  login_key-IsValid Keysym.tab = open_user_menu-IsValid o.load_users o g k v
  login_key-IsValid Keysym.escape = let (s, m, h, t, _) = v in (s, m, omega arith, t, k)
  login_key-IsValid Keysym.return = attempt_login-IsValid g.users o g k v
  login_key-IsValid Keysym.kp_enter = attempt_login-IsValid g.users o g k v
  login_key-IsValid Keysym.backspace =
      let (s, m, h, t, c) = v in (s, m, h, pop_back-IsTyped g.password 128 t, c)
  login_key-IsValid Keysym.delete =
      let (s, m, h, t, c) = v in (s, m, h, pop_back-IsTyped g.password 128 t, c)
  login_key-IsValid Keysym.down = v
  login_key-IsValid Keysym.right = v
  login_key-IsValid Keysym.up = v
  login_key-IsValid Keysym.left = v
  login_key-IsValid (Keysym.other n) = v

key_in_mode-IsValid :
    (mode : UiMode) (o : Outside) (g : Greeter) (sym : Keysym)
    → IsValid (record g { mode = mode })
    → IsValid (key_in_mode mode o (record g { mode = mode }) sym).0
unfolding key_in_mode
key_in_mode-IsValid UiMode.login o g sym v = login_key-IsValid o _ v.4 v sym
key_in_mode-IsValid UiMode.user_menu o g sym v = user_menu_key-IsValid _ v.4 v sym
key_in_mode-IsValid UiMode.power_menu o g sym v = power_menu_key-IsValid _ v.4 v sym
key_in_mode-IsValid UiMode.authenticating o g sym v = v
key_in_mode-IsValid UiMode.starting_session o g sym v = v

handle_text-IsValid : (g : Greeter) (utf8 : Bytes) → IsValid g → IsValid (handle_text g utf8)
unfolding handle_text
handle_text-IsValid g [] v = v
handle_text-IsValid g (c ∷ d ∷ s) v = v
handle_text-IsValid g (c ∷ []) (s, m, h, (n, t), k) =
    if_when IsValid (is_login g.mode && is_print c && ltb (length g.password) 128) _ _
      (λ e. (
        s,
        m,
        h,
        (
          ground (arith, length-append g.password (c ∷ [])),
          All-append _ g.password (c ∷ []) t (ground arith, tt),
        ),
        k,
      ))
      (s, m, h, (n, t), k)

-- Every key event preserves the invariant, whatever the event is, the user database holds and a login
-- comes to.
pub keyboard_key-IsValid :
    (o : Outside) (g : Greeter) (key : Key) → IsValid g → IsValid (keyboard_key o g key)
unfolding keyboard_key handle_keysym
keyboard_key-IsValid o g key v =
    let after = key_in_mode-IsValid g.mode o g key.sym v in
    let (h, handled) = handle_keysym o g key.sym in
    if_both IsValid (not key.pressed || not key.mapped) g _ v (
      if_both IsValid (not h.running || handled) h (handle_text h key.utf8) after
        (handle_text-IsValid h key.utf8 after))
