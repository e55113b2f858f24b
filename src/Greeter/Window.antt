-- ===== src/Greeter/Window.antt =====
-- The life of `GreeterWindow` of greeter/zero-greeter-wayland.cpp: its listeners, and `init` and `run`
-- as far as they change its fields. What the compositor and the kernel report is given.
pub mod Life
pub mod Fresh
use cardputer_zero_os.Base.{
  ℕ, zero, suc, Bool, true, false, not, ◌&&◌, ◌||◌, Option, none, some, List, [], ◌∷◌, Bytes,
  if◌then◌else◌,
}
use cardputer_zero_os.Greeter.Screen.{UiMode, Greeter, Outside, reload_users, render, prompt}
use cardputer_zero_os.Greeter.Keys.{Key, keyboard_key}

-- `buffers_[i].busy = false` for the buffer that the listener's data pointer names.
unfoldable pub release : ℕ → List Bool → List Bool
release i [] = []
release zero (b ∷ bs) = false ∷ bs
release (suc i) (b ∷ bs) = b ∷ release i bs

-- The events that change a field of the window; the keyboard map is part of `Key`.
pub data Event : Type 0 where
  surface_configure toplevel_close : Event
  buffer_release : ℕ → Event
  key : Outside → Key → Event

unfoldable pub dispatch : Greeter → Event → Greeter
unfolding release
dispatch g Event.surface_configure = record g { configured = true; dirty = true }
dispatch g Event.toplevel_close = record g { running = false }
dispatch g (Event.buffer_release i) = record g { buffers = release i g.buffers }
dispatch g (Event.key o k) = keyboard_key o g k

unfoldable pub dispatch_all : Greeter → List Event → Greeter
unfolding dispatch
dispatch_all g [] = g
dispatch_all g (e ∷ es) = dispatch_all (dispatch g e) es

-- The fields' initial values.
abbrev pub new_window : Greeter
new_window = record {
  buffers = false ∷ false ∷ [];
  configured = false;
  running = true;
  session_started = false;
  dirty = true;
  mode = UiMode.login;
  users = [];
  selected = 0;
  menu_selected = 0;
  power_selection = 2;
  password = [];
  message = prompt;
  error = false;
  actions = [];
}

-- `init`: nothing after `reload_users` changes a field of the model but the listeners, which run in
-- its two round trips.
unfoldable pub init : Outside → List Event → Greeter
unfolding reload_users dispatch_all
init o events = dispatch_all (reload_users o new_window) events

-- One round: whether `wl_display_get_error` is set before it, and the events that are dispatched at
-- its head and after `poll`.
pub record Round : Type 0 where
  pub display_error : Bool
  pub pending : List Event
  pub polled : List Event

abbrev render_dirty : Greeter → Greeter
render_dirty g = if g.dirty then render g else g

unfoldable pub round : Greeter → Round → Greeter
unfolding dispatch_all
round g r = dispatch_all (render_dirty (dispatch_all g r.pending)) r.polled

-- The loop over the given rounds: the window where it stands, and the exit status if `run` returned.
unfoldable pub run : Greeter → List Round → Greeter × Option ℕ
unfolding round
run g [] = (g, none)
run g (r ∷ rs) =
    let rest = run (round g r) rs in
    if g.running && not r.display_error
    then rest
    else (g, some (if g.session_started then 0 else 1))
