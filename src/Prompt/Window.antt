-- ===== src/Prompt/Window.antt =====
-- The life of `PromptWindow` of polkit-agent/zero-polkit-prompt-wayland.cpp: its keys, its listeners,
-- `render` and `run`. What the compositor and the keyboard map report is given; `next_buffer`, the key
-- symbols and `std::isprint` are the greeter's.
pub mod Invariant
pub mod Typing
pub mod Alike
pub mod Discretion
pub mod Fresh
use cardputer_zero_os.Base.{
  ℕ, Bool, true, false, not, ◌&&◌, ◌||◌, Option, none, some, List, [], ◌∷◌, ◌++◌, Bytes, codes, ltb,
  if◌then◌else◌, is_empty, length,
}
use cardputer_zero_os.Greeter.Screen.{Keysym, is_print, next_buffer}
use cardputer_zero_os.Greeter.Keys.{Key, pop_back}
use cardputer_zero_os.Greeter.Window.{release}
use cardputer_zero_os.Prompt.Frame.{PromptWindow, draw_window}

unfoldable pub submit : PromptWindow → PromptWindow
submit w = record w { accepted = true; running = false }

unfoldable pub cancel : PromptWindow → PromptWindow
cancel w = record w { accepted = false; running = false }

erase : PromptWindow → PromptWindow
erase w = if is_empty w.secret then w else record w { secret = pop_back w.secret; dirty = true }

unfoldable pub handle_keysym : PromptWindow → Keysym → PromptWindow
unfolding submit cancel erase
handle_keysym w Keysym.return = submit w
handle_keysym w Keysym.kp_enter = submit w
handle_keysym w Keysym.escape = cancel w
handle_keysym w Keysym.backspace = erase w
handle_keysym w Keysym.delete = erase w
handle_keysym w _ = w

-- `utf8` up to its NUL; only a text of one byte is taken.
unfoldable pub handle_text : PromptWindow → Bytes → PromptWindow
handle_text w [] = w
handle_text w (c ∷ d ∷ s) = w
handle_text w (c ∷ []) =
    if is_print c && ltb (length w.secret) 128
    then record w { secret = w.secret ++ c ∷ []; dirty = true }
    else w

unfoldable pub keyboard_key : PromptWindow → Key → PromptWindow
unfolding handle_keysym handle_text
keyboard_key w key =
    let v = handle_keysym w key.sym in
    if not key.pressed || not key.mapped
    then w
    else if not v.running
    then v
    else handle_text v key.utf8

-- The events that change a field of the window; the keyboard map is part of `Key`.
pub data Event : Type 0 where
  surface_configure toplevel_close : Event
  buffer_release : ℕ → Event
  key : Key → Event

unfoldable pub dispatch : PromptWindow → Event → PromptWindow
unfolding keyboard_key cancel
dispatch w Event.surface_configure = record w { configured = true; dirty = true }
dispatch w Event.toplevel_close = cancel w
dispatch w (Event.buffer_release i) = record w { buffers = release i w.buffers }
dispatch w (Event.key k) = keyboard_key w k

-- Every event of a batch has its listener called, also after one that ends the loop.
unfoldable pub dispatch_all : PromptWindow → List Event → PromptWindow
unfolding dispatch
dispatch_all w [] = w
dispatch_all w (e ∷ es) = dispatch_all (dispatch w e) es

-- What `render` does once `next_buffer` returned.
unfoldable pub render_into : PromptWindow → Option (List Bool) → PromptWindow
render_into w none = w
render_into w (some bs) =
    if w.configured
    then record w { buffers = bs; dirty = false; commits = draw_window w ∷ w.commits }
    else w

unfoldable pub render : PromptWindow → PromptWindow
unfolding render_into
render w = render_into w (next_buffer w.buffers)

abbrev pub render_dirty : PromptWindow → PromptWindow
render_dirty w = if w.dirty then render w else w

-- One round of `run`: the events that are dispatched at its head and after `poll`.
pub record Round : Type 0 where
  pub pending : List Event
  pub polled : List Event

unfoldable pub round : PromptWindow → Round → PromptWindow
unfolding dispatch_all render
round w r = dispatch_all (render_dirty (dispatch_all w r.pending)) r.polled

-- The loop over the rounds of a connection, after which `wl_display_get_error` reports that it broke.
unfoldable pub run_loop : PromptWindow → List Round → PromptWindow
unfolding round
run_loop w [] = w
run_loop w (r ∷ rs) = let rest = run_loop (round w r) rs in if w.running then rest else w

-- The exit status, and what is written to the standard output.
unfoldable pub finish : PromptWindow → ℕ × Bytes
finish w = if w.accepted then (0, w.secret ++ codes "\n") else (1, [])

unfoldable pub run : PromptWindow → List Round → ℕ × Bytes
unfolding run_loop finish
run w rounds = finish (run_loop w rounds)
