-- ===== src/Greeter/Keys/Requests.antt =====
-- What a key event asks of the rest of the system: `keyboard_key`, `attempt_login` and
-- `run_power_action` of greeter/zero-greeter-wayland.cpp.
use cardputer_zero_os.Base.{
  ℕ, zero, suc, ◌≡◌, refl, ◌∙◌, ◌⊎◌, inl, inr, Bool, true, false, not, ◌||◌, some, [], ◌∷◌, ◌++◌,
  Bytes, codes, if_both, get_elem?, Option-cases, arith,
}
use cardputer_zero_os.Greeter.Users.{UserEntry}
use cardputer_zero_os.Greeter.Screen.{
  UiMode, Action, Greeter, Outside, Keysym, clamp_selection, reload_users,
}
use cardputer_zero_os.Greeter.Keys.{
  Key, attempt_login, run_power_action, to_login, move_menu, choose_user, user_menu_key, move_power,
  power_menu_key, open_user_menu, open_power_menu, erase, login_key, key_in_mode, handle_keysym,
  handle_text, keyboard_key,
}
use cardputer_zero_os.Greeter.Keys.Attempt.{attempt_login-IsAttempt, attempt_login-nobody}

abbrev pub is_enter : Keysym → Bool
is_enter Keysym.return = true
is_enter Keysym.kp_enter = true
is_enter _ = false

-- What the greeter may ask for in a state when a key is pressed.
pub data IsAsked (g : Greeter) (key : Keysym) : Action → Type 0 where
  login :
      g.mode ≡ UiMode.login
      → is_enter key ≡ true
      → (user : UserEntry) → get_elem? g.users g.selected ≡ some user
      → IsAsked g key (Action.log_in user.name g.password)
  shutdown :
      g.mode ≡ UiMode.power_menu
      → is_enter key ≡ true
      → g.power_selection ≡ 0
      → IsAsked g key (Action.zero_helper (codes "shutdown"))
  reboot :
      g.mode ≡ UiMode.power_menu
      → is_enter key ≡ true
      → g.power_selection ≡ 1
      → IsAsked g key (Action.zero_helper (codes "reboot"))

-- Nothing new is asked for, or one action that may be asked for.
abbrev pub IsRequest : Greeter → Keysym → Greeter → Type 0
IsRequest g key h =
    (h.actions ≡ g.actions) ⊎ ((a : Action) × (h.actions ≡ g.actions ++ a ∷ []) × IsAsked g key a)

user_menu_key-actions : (g : Greeter) (key : Keysym) → (user_menu_key g key).actions ≡ g.actions
unfolding user_menu_key to_login move_menu choose_user
user_menu_key-actions g Keysym.escape = refl
user_menu_key-actions g Keysym.tab = ground arith
user_menu_key-actions g Keysym.down = ground arith
user_menu_key-actions g Keysym.right = ground arith
user_menu_key-actions g Keysym.up = ground arith
user_menu_key-actions g Keysym.left = ground arith
user_menu_key-actions g Keysym.return = ground arith
user_menu_key-actions g Keysym.kp_enter = ground arith
user_menu_key-actions g Keysym.backspace = refl
user_menu_key-actions g Keysym.delete = refl
user_menu_key-actions g (Keysym.other n) = refl

run_power_action-IsRequest :
    (p : ℕ) (g : Greeter) (key : Keysym)
    → g.mode ≡ UiMode.power_menu
    → is_enter key ≡ true
    → IsRequest
        (record g { power_selection = p })
        key
        (run_power_action (record g { power_selection = p }))
unfolding run_power_action
run_power_action-IsRequest zero g key m e = inr (_, refl, IsAsked.shutdown m e refl)
run_power_action-IsRequest (suc zero) g key m e = inr (_, refl, IsAsked.reboot m e refl)
run_power_action-IsRequest (suc (suc p)) g key m e = inl (ground arith)

module _ (g : Greeter) (m : g.mode ≡ UiMode.power_menu) where
  power_menu_key-IsRequest : (key : Keysym) → IsRequest g key (power_menu_key g key)
  unfolding power_menu_key to_login move_power
  power_menu_key-IsRequest Keysym.return =
      run_power_action-IsRequest g.power_selection g Keysym.return m refl
  power_menu_key-IsRequest Keysym.kp_enter =
      run_power_action-IsRequest g.power_selection g Keysym.kp_enter m refl
  power_menu_key-IsRequest Keysym.escape = inl refl
  power_menu_key-IsRequest Keysym.tab = inl refl
  power_menu_key-IsRequest Keysym.down = inl refl
  power_menu_key-IsRequest Keysym.right = inl refl
  power_menu_key-IsRequest Keysym.up = inl refl
  power_menu_key-IsRequest Keysym.left = inl refl
  power_menu_key-IsRequest Keysym.backspace = inl refl
  power_menu_key-IsRequest Keysym.delete = inl refl
  power_menu_key-IsRequest (Keysym.other n) = inl refl

module _ (o : Outside) (g : Greeter) (m : g.mode ≡ UiMode.login) where
  attempt_login-IsRequest :
      (key : Keysym) → is_enter key ≡ true → IsRequest g key (attempt_login o g)
  attempt_login-IsRequest key e = elim (Option-cases (get_elem? g.users g.selected)) [
    | inl f ↦ inl (attempt_login-nobody g.users o g f)
    | inr (user, f) ↦ inr (_, (attempt_login-IsAttempt o g user f).asked, IsAsked.login m e user f)
  ]

  login_key-IsRequest : (key : Keysym) → IsRequest g key (login_key o g key).0
  unfolding login_key open_user_menu open_power_menu erase reload_users clamp_selection
  login_key-IsRequest Keysym.return = attempt_login-IsRequest Keysym.return refl
  login_key-IsRequest Keysym.kp_enter = attempt_login-IsRequest Keysym.kp_enter refl
  login_key-IsRequest Keysym.tab = inl (ground arith)
  login_key-IsRequest Keysym.escape = inl refl
  login_key-IsRequest Keysym.backspace = inl refl
  login_key-IsRequest Keysym.delete = inl refl
  login_key-IsRequest Keysym.down = inl refl
  login_key-IsRequest Keysym.right = inl refl
  login_key-IsRequest Keysym.up = inl refl
  login_key-IsRequest Keysym.left = inl refl
  login_key-IsRequest (Keysym.other n) = inl refl

key_in_mode-IsRequest :
    (mode : UiMode) (o : Outside) (g : Greeter) (key : Keysym)
    → IsRequest (record g { mode = mode }) key (key_in_mode mode o (record g { mode = mode }) key).0
unfolding key_in_mode
key_in_mode-IsRequest UiMode.login o g key = login_key-IsRequest o _ refl key
key_in_mode-IsRequest UiMode.user_menu o g key = inl (user_menu_key-actions _ key)
key_in_mode-IsRequest UiMode.power_menu o g key = power_menu_key-IsRequest _ refl key
key_in_mode-IsRequest UiMode.authenticating o g key = inl refl
key_in_mode-IsRequest UiMode.starting_session o g key = inl refl

handle_text-actions : (g : Greeter) (utf8 : Bytes) → (handle_text g utf8).actions ≡ g.actions
unfolding handle_text
handle_text-actions g [] = refl
handle_text-actions g (c ∷ []) = ground arith
handle_text-actions g (c ∷ d ∷ s) = refl

with_text :
    (g h : Greeter) (key : Keysym) (utf8 : Bytes)
    → IsRequest g key h
    → IsRequest g key (handle_text h utf8)
with_text g h key utf8 (inl e) = inl (handle_text-actions h utf8 ∙ e)
with_text g h key utf8 (inr (a, e, x)) = inr (a, handle_text-actions h utf8 ∙ e, x)

-- A key event asks for nothing, or for one action: the login of the selected user with the typed
-- password, by Return on the login screen, or the power action that the power menu has selected, by
-- Return in that menu.
pub keyboard_key-IsRequest :
    (o : Outside) (g : Greeter) (key : Key) → IsRequest g key.sym (keyboard_key o g key)
unfolding keyboard_key handle_keysym
keyboard_key-IsRequest o g key =
    let after = key_in_mode-IsRequest g.mode o g key.sym in
    let (h, handled) = handle_keysym o g key.sym in
    let P = IsRequest g key.sym in
    if_both P (not key.pressed || not key.mapped) g _ (inl refl) (
      if_both P (not h.running || handled) h (handle_text h key.utf8) after
        (with_text g h key.sym key.utf8 after))

abbrev pub press : Keysym → Bytes → Key
press key utf8 = record { pressed = true; mapped = true; sym = key; utf8 = utf8 }

-- From the login screen the power menu opens on its last row: Escape and then Return ask for nothing,
-- keep the typed password, and lead back to the login screen.
power_menu-cancel :
    (o : Outside) (g : Greeter) (a b : Bytes)
    → let start = record g { mode = UiMode.login } in
      let h =
        keyboard_key o (keyboard_key o start (press Keysym.escape a)) (press Keysym.return b) in
      (h.actions ≡ g.actions) × (h.mode ≡ UiMode.login) × (h.password ≡ g.password)
unfolding keyboard_key handle_keysym key_in_mode login_key open_power_menu power_menu_key
    run_power_action
power_menu-cancel o g a b = ground arith
