-- ===== src/Greeter/Screen.antt =====
-- The state of `GreeterWindow` of greeter/zero-greeter-wayland.cpp, with the functions that keep it in
-- order: `clamp_selection`, `reload_users`, `next_buffer` and `render`. What is asked of the rest of the
-- system is kept as a list.
pub mod Valid
use cardputer_zero_os.Base.{
  ℕ, zero, suc, ◌+◌, ◌-◌, ◌%◌, ◌<◌, Bool, true, false, not, ◌&&◌, ◌||◌, Option, none, some, List,
  [], ◌∷◌, ◌++◌, Bytes, codes, ltb, leb, ◌==◌, if◌then◌else◌, is_empty, length, get_elem?,
}
use cardputer_zero_os.Greeter.Users.{UserEntry}

pub data UiMode : Type 0 where
  login user_menu power_menu authenticating starting_session : UiMode

-- What the greeter asks of others: the login of a user with a password, and `zero-helper` with an
-- action.
pub data Action : Type 0 where
  log_in : Bytes → Bytes → Action
  zero_helper : Bytes → Action

-- `buffers_` by their flags `busy`; `actions` is what was asked so far, oldest first.
pub record Greeter : Type 0 where
  pub buffers : List Bool
  pub configured : Bool
  pub running : Bool
  pub session_started : Bool
  pub dirty : Bool
  pub mode : UiMode
  pub users : List UserEntry
  pub selected : ℕ
  pub menu_selected : ℕ
  pub power_selection : ℕ
  pub password : Bytes
  pub message : Bytes
  pub error : Bool
  pub actions : List Action

-- What the outside answers: the users that `load_users` finds now, and what a login comes to.
pub record Outside : Type 0 where
  pub load_users : List UserEntry
  pub log_in : Bytes → Bytes → Bool × Bytes

-- The names of <xkbcommon/xkbcommon-keysyms.h> that the handlers test.
pub data Keysym : Type 0 where
  escape tab down right up left return kp_enter backspace delete : Keysym
  other : ℕ → Keysym

abbrev pub is_nil {ℓ} : {A : Type ℓ} → List A → Bool
is_nil [] = true
is_nil (x ∷ xs) = false

abbrev pub prompt : Bytes
prompt = codes "PAM AUTHENTICATION"

unfoldable pub clamp_selection : Greeter → Greeter
clamp_selection g =
    if is_nil g.users then record g { selected = 0; menu_selected = 0 } else record g {
      selected = g.selected % length g.users;
      menu_selected = g.menu_selected % length g.users;
    }

unfoldable pub reload_users : Outside → Greeter → Greeter
unfolding clamp_selection
reload_users o g = clamp_selection (record g { users = o.load_users })

-- The first buffer that is not busy becomes busy; none where `next_buffer` is null.
unfoldable pub next_buffer : List Bool → Option (List Bool)
next_buffer [] = none
next_buffer (false ∷ bs) = some (true ∷ bs)
next_buffer (true ∷ bs) = elim (next_buffer bs) [ none ↦ none | some cs ↦ some (true ∷ cs) ]

-- The drawing itself changes no field.
unfoldable pub render_into : Greeter → Option (List Bool) → Greeter
render_into g none = g
render_into g (some bs) = if g.configured then record g { buffers = bs; dirty = false } else g

unfoldable pub render : Greeter → Greeter
unfolding render_into
render g = render_into g (next_buffer g.buffers)

-- `std::isprint` in the "C" locale
abbrev pub is_print : ℕ → Bool
is_print c = leb 0x20 c && leb c 0x7E
