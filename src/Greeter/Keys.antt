-- ===== src/Greeter/Keys.antt =====
-- The key handlers of `GreeterWindow` of greeter/zero-greeter-wayland.cpp, `attempt_login` and
-- `run_power_action`. The account database, the helper and the keyboard map are given.
pub mod Invariant
pub mod Attempt
pub mod Requests
pub mod Fresh
use cardputer_zero_os.Base.{
  ℕ, zero, suc, ◌+◌, ◌-◌, ◌%◌, ◌<◌, Bool, true, false, not, ◌&&◌, ◌||◌, Option, none, some, List,
  [], ◌∷◌, ◌++◌, Bytes, codes, ltb, leb, ◌==◌, if◌then◌else◌, is_empty, length, get_elem?,
}
use cardputer_zero_os.Greeter.Users.{UserEntry}
use cardputer_zero_os.Greeter.Screen.{
  UiMode, Action, Greeter, Outside, Keysym, is_nil, prompt, clamp_selection, reload_users,
  next_buffer, render_into, render, is_print,
}

-- The state after `authenticate_and_start_session` returned.
unfoldable pub after_login : Greeter → Bool × Bytes → Greeter
after_login g (ok, message) =
    if ok
    then record g {
      password = [];
      message = message;
      error = false;
      mode = UiMode.starting_session;
      session_started = true;
      running = false;
    }
    else record g {
      password = [];
      message = message;
      error = true;
      mode = UiMode.login;
      dirty = true;
    }

-- What stands before the helper is called.
unfoldable pub start_login : Greeter → Greeter
unfolding render
start_login g = render (record g {
  mode = UiMode.authenticating;
  message = codes "AUTHENTICATING";
  error = false;
  dirty = true;
})

login_as : Outside → Greeter → UserEntry → Greeter
unfolding after_login
login_as o g user =
    after_login (record g { actions = g.actions ++ Action.log_in user.name g.password ∷ [] })
      (o.log_in user.name g.password)

-- `users_[selected_]` out of range is no behaviour of the program: there nobody is logged in.
unfoldable pub attempt_login : Outside → Greeter → Greeter
unfolding start_login login_as
attempt_login o g =
    if is_nil g.users
    then record g { message = codes "CREATE A USER FIRST"; error = true; dirty = true }
    else elim (get_elem? g.users g.selected) [
      | none ↦ start_login g
      | some user ↦ login_as o (start_login g) user
    ]

unfoldable pub run_power_action : Greeter → Greeter
run_power_action g =
    let action =
      if g.power_selection == 0
      then codes "shutdown"
      else if g.power_selection == 1
      then codes "reboot"
      else [] in
    if is_empty action then record g { mode = UiMode.login; dirty = true } else record g {
      mode = UiMode.login;
      dirty = true;
      actions = g.actions ++ Action.zero_helper action ∷ [];
    }

to_login : Greeter → Greeter
to_login g = record g { mode = UiMode.login; dirty = true }

move_menu : ℕ → Greeter → Greeter
move_menu step g =
    if is_nil g.users
    then record g { dirty = true }
    else record g { menu_selected = (g.menu_selected + step) % length g.users; dirty = true }

choose_user : Greeter → Greeter
choose_user g = if is_nil g.users then g else record g {
  selected = g.menu_selected;
  password = [];
  message = prompt;
  error = false;
  mode = UiMode.login;
  dirty = true;
}

unfoldable pub user_menu_key : Greeter → Keysym → Greeter
unfolding to_login move_menu choose_user
user_menu_key g Keysym.escape = to_login g
user_menu_key g Keysym.tab = move_menu 1 g
user_menu_key g Keysym.down = move_menu 1 g
user_menu_key g Keysym.right = move_menu 1 g
user_menu_key g Keysym.up = move_menu (length g.users - 1) g
user_menu_key g Keysym.left = move_menu (length g.users - 1) g
user_menu_key g Keysym.return = choose_user g
user_menu_key g Keysym.kp_enter = choose_user g
user_menu_key g _ = g

move_power : ℕ → Greeter → Greeter
move_power step g = record g { power_selection = (g.power_selection + step) % 3; dirty = true }

unfoldable pub power_menu_key : Greeter → Keysym → Greeter
unfolding to_login move_power run_power_action
power_menu_key g Keysym.escape = to_login g
power_menu_key g Keysym.tab = move_power 1 g
power_menu_key g Keysym.down = move_power 1 g
power_menu_key g Keysym.right = move_power 1 g
power_menu_key g Keysym.up = move_power 2 g
power_menu_key g Keysym.left = move_power 2 g
power_menu_key g Keysym.return = run_power_action g
power_menu_key g Keysym.kp_enter = run_power_action g
power_menu_key g _ = g

-- Every byte but the last.
unfoldable pub pop_back : Bytes → Bytes
pop_back [] = []
pop_back (c ∷ []) = []
pop_back (c ∷ d ∷ s) = c ∷ pop_back (d ∷ s)

open_user_menu : Outside → Greeter → Greeter
unfolding reload_users
open_user_menu o g =
    let r = reload_users o g in
    record r {
      menu_selected = r.selected;
      mode = UiMode.user_menu;
      message = [];
      error = false;
      dirty = true;
    }

open_power_menu : Greeter → Greeter
open_power_menu g = record g {
  power_selection = 2;
  mode = UiMode.power_menu;
  message = [];
  error = false;
  dirty = true;
}

erase : Greeter → Greeter
unfolding pop_back
erase g = record g { password = pop_back g.password; message = prompt; error = false; dirty = true }

unfoldable pub login_key : Outside → Greeter → Keysym → Greeter × Bool
unfolding open_user_menu open_power_menu erase attempt_login
login_key o g Keysym.tab = (open_user_menu o g, true)
login_key o g Keysym.escape = (open_power_menu g, true)
login_key o g Keysym.return = (attempt_login o g, true)
login_key o g Keysym.kp_enter = (attempt_login o g, true)
login_key o g Keysym.backspace = (erase g, true)
login_key o g Keysym.delete = (erase g, true)
login_key o g _ = (g, false)

unfoldable pub key_in_mode : UiMode → Outside → Greeter → Keysym → Greeter × Bool
unfolding user_menu_key power_menu_key login_key
key_in_mode UiMode.user_menu o g sym = (user_menu_key g sym, true)
key_in_mode UiMode.power_menu o g sym = (power_menu_key g sym, true)
key_in_mode UiMode.authenticating o g sym = (g, true)
key_in_mode UiMode.starting_session o g sym = (g, true)
key_in_mode UiMode.login o g sym = login_key o g sym

unfoldable pub handle_keysym : Outside → Greeter → Keysym → Greeter × Bool
unfolding key_in_mode
handle_keysym o g sym = key_in_mode g.mode o g sym

is_login : UiMode → Bool
is_login UiMode.login = true
is_login _ = false

-- `utf8` up to its NUL; only a text of one byte is taken.
unfoldable pub handle_text : Greeter → Bytes → Greeter
unfolding is_login
handle_text g [] = g
handle_text g (c ∷ d ∷ s) = g
handle_text g (c ∷ []) =
    if is_login g.mode && is_print c && ltb (length g.password) 128
    then record g { password = g.password ++ c ∷ []; message = prompt; error = false; dirty = true }
    else g

-- A key event as `xkb` reads it: whether it is a press with a keymap at hand, the symbol, the text.
pub record Key : Type 0 where
  pub pressed : Bool
  pub mapped : Bool
  pub sym : Keysym
  pub utf8 : Bytes

unfoldable pub keyboard_key : Outside → Greeter → Key → Greeter
unfolding handle_keysym handle_text
keyboard_key o g key =
    let (h, handled) = handle_keysym o g key.sym in
    if not key.pressed || not key.mapped
    then g
    else if not h.running || handled
    then h
    else handle_text h key.utf8
