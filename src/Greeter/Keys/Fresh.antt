-- ===== src/Greeter/Keys/Fresh.antt =====
-- That a key of greeter/zero-greeter-wayland.cpp that changes what is drawn also has it drawn.
use cardputer_zero_os.Base.{
  ℕ, ◌-◌, ◌≡◌, refl, ◌⊎◌, inl, inr, Bool, true, false, not, ◌&&◌, ◌||◌, List, [], ◌∷◌, ◌++◌, Bytes,
  ltb, if_both, length,
}
use cardputer_zero_os.Draw.{Call}
use cardputer_zero_os.Greeter.Users.{UserEntry}
use cardputer_zero_os.Greeter.Screen.{is_print, UiMode, Action, Greeter, Outside, Keysym}
use cardputer_zero_os.Greeter.Screen.Valid.{IsValid, InRange}
use cardputer_zero_os.Greeter.Keys.Invariant.{get_elem?-some}
use cardputer_zero_os.Greeter.Frame.{draw_frame}
use cardputer_zero_os.Greeter.Keys.{
  Key, after_login, start_login, login_as, attempt_login, run_power_action, to_login, move_menu,
  choose_user, user_menu_key, move_power, power_menu_key, open_user_menu, open_power_menu, erase,
  login_key, key_in_mode, handle_keysym, is_login, handle_text, keyboard_key,
}

-- The window shows this drawing, or is marked to be drawn, or the loop is about to end.
abbrev pub IsFresh : Bytes → List Call → Greeter → Type 0
IsFresh clock shown g = (g.dirty ≡ true) ⊎ ((g.running ≡ false) ⊎ (draw_frame clock g ≡ shown))

module _ (clock : Bytes) (shown : List Call) where
  choose_user-IsFresh :
      (us : List UserEntry) (g : Greeter)
      → IsFresh clock shown (record g { users = us })
      → IsFresh clock shown (choose_user (record g { users = us }))
  unfolding choose_user
  choose_user-IsFresh [] g f = f
  choose_user-IsFresh (u ∷ us) g f = inl refl

  move_menu-IsFresh : (step : ℕ) (g : Greeter) → IsFresh clock shown (move_menu step g)
  unfolding move_menu
  move_menu-IsFresh step g = if_both (IsFresh clock shown) _ _ _ (inl refl) (inl refl)

  user_menu_key-IsFresh :
      (g : Greeter) (sym : Keysym)
      → IsFresh clock shown g
      → IsFresh clock shown (user_menu_key g sym)
  unfolding user_menu_key to_login
  user_menu_key-IsFresh g Keysym.escape f = inl refl
  user_menu_key-IsFresh g Keysym.tab f = move_menu-IsFresh 1 g
  user_menu_key-IsFresh g Keysym.down f = move_menu-IsFresh 1 g
  user_menu_key-IsFresh g Keysym.right f = move_menu-IsFresh 1 g
  user_menu_key-IsFresh g Keysym.up f = move_menu-IsFresh (length g.users - 1) g
  user_menu_key-IsFresh g Keysym.left f = move_menu-IsFresh (length g.users - 1) g
  user_menu_key-IsFresh g Keysym.return f = choose_user-IsFresh g.users g f
  user_menu_key-IsFresh g Keysym.kp_enter f = choose_user-IsFresh g.users g f
  user_menu_key-IsFresh g Keysym.backspace f = f
  user_menu_key-IsFresh g Keysym.delete f = f
  user_menu_key-IsFresh g (Keysym.other n) f = f

  run_power_action-IsFresh : (g : Greeter) → IsFresh clock shown (run_power_action g)
  unfolding run_power_action
  run_power_action-IsFresh g = if_both (IsFresh clock shown) _ _ _ (inl refl) (inl refl)

  power_menu_key-IsFresh :
      (g : Greeter) (sym : Keysym)
      → IsFresh clock shown g
      → IsFresh clock shown (power_menu_key g sym)
  unfolding power_menu_key to_login move_power
  power_menu_key-IsFresh g Keysym.escape f = inl refl
  power_menu_key-IsFresh g Keysym.tab f = inl refl
  power_menu_key-IsFresh g Keysym.down f = inl refl
  power_menu_key-IsFresh g Keysym.right f = inl refl
  power_menu_key-IsFresh g Keysym.up f = inl refl
  power_menu_key-IsFresh g Keysym.left f = inl refl
  power_menu_key-IsFresh g Keysym.return f = run_power_action-IsFresh g
  power_menu_key-IsFresh g Keysym.kp_enter f = run_power_action-IsFresh g
  power_menu_key-IsFresh g Keysym.backspace f = f
  power_menu_key-IsFresh g Keysym.delete f = f
  power_menu_key-IsFresh g (Keysym.other n) f = f

  -- A login that fails has its message drawn, one that works ends the greeter.
  after_login-IsFresh :
      (g : Greeter) (answer : Bool × Bytes) → IsFresh clock shown (after_login g answer)
  unfolding after_login
  after_login-IsFresh g (true, message) = inr (inl refl)
  after_login-IsFresh g (false, message) = inl refl

  login_as-IsFresh :
      (o : Outside) (g : Greeter) (user : UserEntry) → IsFresh clock shown (login_as o g user)
  unfolding login_as
  login_as-IsFresh o g user =
      let asked = record g { actions = g.actions ++ Action.log_in user.name g.password ∷ [] } in
      after_login-IsFresh asked (o.log_in user.name g.password)

  attempt_login-IsFresh :
      (us : List UserEntry) (o : Outside) (g : Greeter)
      → InRange us g.selected
      → IsFresh clock shown (attempt_login o (record g { users = us }))
  unfolding attempt_login
  attempt_login-IsFresh [] o g s = inl refl
  attempt_login-IsFresh (u ∷ us) o g s =
      let (user, e) = get_elem?-some (u ∷ us) g.selected s in
      rw e (login_as-IsFresh o (start_login (record g { users = u ∷ us })) user)

  login_key-IsFresh :
      (o : Outside) (g : Greeter) (sym : Keysym)
      → IsValid g
      → IsFresh clock shown g
      → IsFresh clock shown (login_key o g sym).0
  unfolding login_key open_user_menu open_power_menu erase
  login_key-IsFresh o g Keysym.tab v f = inl refl
  login_key-IsFresh o g Keysym.escape v f = inl refl
  login_key-IsFresh o g Keysym.return v f = attempt_login-IsFresh g.users o g v.0
  login_key-IsFresh o g Keysym.kp_enter v f = attempt_login-IsFresh g.users o g v.0
  login_key-IsFresh o g Keysym.backspace v f = inl refl
  login_key-IsFresh o g Keysym.delete v f = inl refl
  login_key-IsFresh o g Keysym.down v f = f
  login_key-IsFresh o g Keysym.right v f = f
  login_key-IsFresh o g Keysym.up v f = f
  login_key-IsFresh o g Keysym.left v f = f
  login_key-IsFresh o g (Keysym.other n) v f = f

  key_in_mode-IsFresh :
      (mode : UiMode) (o : Outside) (g : Greeter) (sym : Keysym)
      → IsValid g
      → IsFresh clock shown g
      → IsFresh clock shown (key_in_mode mode o g sym).0
  unfolding key_in_mode
  key_in_mode-IsFresh UiMode.login o g sym v f = login_key-IsFresh o g sym v f
  key_in_mode-IsFresh UiMode.user_menu o g sym v f = user_menu_key-IsFresh g sym f
  key_in_mode-IsFresh UiMode.power_menu o g sym v f = power_menu_key-IsFresh g sym f
  key_in_mode-IsFresh UiMode.authenticating o g sym v f = f
  key_in_mode-IsFresh UiMode.starting_session o g sym v f = f

  handle_text-IsFresh :
      (g : Greeter) (utf8 : Bytes)
      → IsFresh clock shown g
      → IsFresh clock shown (handle_text g utf8)
  unfolding handle_text
  handle_text-IsFresh g [] f = f
  handle_text-IsFresh g (c ∷ d ∷ s) f = f
  handle_text-IsFresh g (c ∷ []) f =
      if_both (IsFresh clock shown) (is_login g.mode && is_print c && ltb (length g.password) 128) _
        g (inl refl) f

  pub keyboard_key-IsFresh :
      (o : Outside) (g : Greeter) (key : Key)
      → IsValid g
      → IsFresh clock shown g
      → IsFresh clock shown (keyboard_key o g key)
  unfolding keyboard_key handle_keysym
  keyboard_key-IsFresh o g key v f =
      let after = key_in_mode-IsFresh g.mode o g key.sym v f in
      let (h, handled) = handle_keysym o g key.sym in
      if_both (IsFresh clock shown) (not key.pressed || not key.mapped) g _ f (
        if_both (IsFresh clock shown) (not h.running || handled) h (handle_text h key.utf8) after
          (handle_text-IsFresh h key.utf8 after))
