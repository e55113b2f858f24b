-- ===== src/Prompt/Window/Fresh.antt =====
-- What stands on the screen of polkit-agent/zero-polkit-prompt-wayland.cpp, next to its state.
use cardputer_zero_os.Base.{
  ◌≡◌, ◌≢◌, refl, ◌⊎◌, inl, inr, true, not, ◌&&◌, ◌||◌, none, some, List, [], ◌∷◌, Bytes, if_both,
  Bool-cases, Option-cases, ltb, length, is_empty,
}
use cardputer_zero_os.Draw.{Call}
use cardputer_zero_os.Greeter.Screen.{Keysym, is_print, next_buffer}
use cardputer_zero_os.Prompt.Frame.{PromptWindow, draw_window}
use cardputer_zero_os.Prompt.Window.{
  submit, cancel, erase, handle_keysym, handle_text, keyboard_key, Event, dispatch, dispatch_all,
  render_into, render, render_dirty, Round, round, run_loop,
}

-- The newest drawing that was committed is the one of the state as it is.
abbrev pub IsShown : PromptWindow → Type 0
IsShown w = (older : List (List Call)) × (w.commits ≡ draw_window w ∷ older)

-- The window shows its state, or is marked to be drawn.
abbrev pub IsFresh : PromptWindow → Type 0
IsFresh w = (w.dirty ≡ true) ⊎ IsShown w

-- What is drawn does not depend on the buffers nor on what the prompt ends with.
erase-IsFresh : (w : PromptWindow) → IsFresh w → IsFresh (erase w)
unfolding erase
erase-IsFresh w f = if_both IsFresh (is_empty w.secret) w _ f (inl refl)

handle_keysym-IsFresh :
    (w : PromptWindow) (sym : Keysym) → IsFresh w → IsFresh (handle_keysym w sym)
unfolding handle_keysym submit cancel draw_window
handle_keysym-IsFresh w Keysym.escape f = f
handle_keysym-IsFresh w Keysym.tab f = f
handle_keysym-IsFresh w Keysym.down f = f
handle_keysym-IsFresh w Keysym.right f = f
handle_keysym-IsFresh w Keysym.up f = f
handle_keysym-IsFresh w Keysym.left f = f
handle_keysym-IsFresh w Keysym.return f = f
handle_keysym-IsFresh w Keysym.kp_enter f = f
handle_keysym-IsFresh w Keysym.backspace f = erase-IsFresh w f
handle_keysym-IsFresh w Keysym.delete f = erase-IsFresh w f
handle_keysym-IsFresh w (Keysym.other n) f = f

handle_text-IsFresh : (w : PromptWindow) (utf8 : Bytes) → IsFresh w → IsFresh (handle_text w utf8)
unfolding handle_text
handle_text-IsFresh w [] f = f
handle_text-IsFresh w (c ∷ d ∷ s) f = f
handle_text-IsFresh w (c ∷ []) f =
    if_both IsFresh (is_print c && ltb (length w.secret) 128) _ w (inl refl) f

dispatch-IsFresh : (w : PromptWindow) (e : Event) → IsFresh w → IsFresh (dispatch w e)
unfolding dispatch keyboard_key cancel draw_window
dispatch-IsFresh w Event.surface_configure f = inl refl
dispatch-IsFresh w Event.toplevel_close f = f
dispatch-IsFresh w (Event.buffer_release i) f = f
dispatch-IsFresh w (Event.key k) f =
    let u = handle_keysym-IsFresh w k.sym f in
    if_both IsFresh (not k.pressed || not k.mapped) w _ f (
      if_both IsFresh (not (handle_keysym w k.sym).running) _ _ u
        (handle_text-IsFresh (handle_keysym w k.sym) k.utf8 u))

pub dispatch_all-IsFresh :
    (w : PromptWindow) (es : List Event) → IsFresh w → IsFresh (dispatch_all w es)
unfolding dispatch_all
dispatch_all-IsFresh w [] f = f
dispatch_all-IsFresh w (e ∷ es) f = dispatch_all-IsFresh (dispatch w e) es (dispatch-IsFresh w e f)

render-IsFresh : (w : PromptWindow) → IsFresh w → IsFresh (render w)
unfolding render render_into draw_window
render-IsFresh w f = elim (next_buffer w.buffers) as (λ o. IsFresh (render_into w o)) [
  | none ↦ f
  | some bs ↦ if_both IsFresh w.configured _ w (inr (w.commits, refl)) f
]

run_loop-IsFresh : (w : PromptWindow) (rs : List Round) → IsFresh w → IsFresh (run_loop w rs)
unfolding run_loop round
run_loop-IsFresh w [] f = f
run_loop-IsFresh w (r ∷ rs) f =
    let u = dispatch_all w r.pending in
    let pending = dispatch_all-IsFresh w r.pending f in
    let drawn = if_both IsFresh u.dirty (render u) u (render-IsFresh u pending) pending in
    if_both IsFresh w.running (run_loop (round w r) rs) w
      (run_loop-IsFresh (round w r) rs (dispatch_all-IsFresh (render_dirty u) r.polled drawn)) f

-- With a configured surface and a free buffer, drawing where it is due shows the state.
drawn-IsShown :
    (w : PromptWindow)
    → w.configured ≡ true
    → next_buffer w.buffers ≢ none
    → w.dirty ≡ true
    → IsShown (render_dirty w)
unfolding render render_into draw_window
drawn-IsShown w c free d = elim (Option-cases (next_buffer w.buffers)) [
  | inl e ↦ absurd (free e)
  | inr (bs, e) ↦ rw (d, e, c) (w.commits, refl)
]

render_dirty-IsShown :
    (w : PromptWindow)
    → w.configured ≡ true
    → next_buffer w.buffers ≢ none
    → IsFresh w
    → IsShown (render_dirty w)
unfolding draw_window
render_dirty-IsShown w c free (inl d) = drawn-IsShown w c free d
render_dirty-IsShown w c free (inr shown) = elim (Bool-cases w.dirty) [
  | inl d ↦ drawn-IsShown w c free d
  | inr d ↦ rw d shown
]

-- Whatever was typed, configured, closed and released in the rounds so far: the round after them, once
-- its events are dispatched and with a configured surface and a free buffer, leaves the drawing of the
-- state as it then is on the screen, if the window that began was marked to be drawn.
pub run_loop-IsShown :
    (w : PromptWindow) (rs : List Round) (es : List Event)
    → w.dirty ≡ true
    → (dispatch_all (run_loop w rs) es).configured ≡ true
    → next_buffer (dispatch_all (run_loop w rs) es).buffers ≢ none
    → IsShown (render_dirty (dispatch_all (run_loop w rs) es))
run_loop-IsShown w rs es d c free =
    render_dirty-IsShown (dispatch_all (run_loop w rs) es) c free
      (dispatch_all-IsFresh (run_loop w rs) es (run_loop-IsFresh w rs (inl d)))
