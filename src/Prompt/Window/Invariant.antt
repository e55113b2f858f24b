-- ===== src/Prompt/Window/Invariant.antt =====
-- What holds of the state of `PromptWindow` of polkit-agent/zero-polkit-prompt-wayland.cpp between
-- events, and of what its `run` writes.
use cardputer_zero_os.Base.{
  ℕ, ◌≤◌, ◌≡◌, refl, ◌⊎◌, ◌≢◌, inl, inr, Bool, true, false, not, ◌&&◌, ◌||◌, Option, none, some,
  List, [], ◌∷◌, ◌++◌, Bytes, codes, ltb, if_both, if_when, is_empty, length, length-append, All,
  All-append, arith,
}
use cardputer_zero_os.Greeter.Screen.{Keysym, is_print, next_buffer}
use cardputer_zero_os.Greeter.Keys.Invariant.{pop_back-IsTyped}
use cardputer_zero_os.Prompt.Texts.Fit.{IsPrintable}
use cardputer_zero_os.Prompt.Frame.{PromptWindow}
use cardputer_zero_os.Prompt.Window.{
  submit, cancel, erase, handle_keysym, handle_text, keyboard_key, Event, dispatch, dispatch_all,
  render_into, render, Round, round, run_loop, finish, run,
}

-- The secret has at most 128 bytes, all of them printable, and an accepted prompt has stopped.
abbrev pub IsSecret : Bytes → Type 0
IsSecret s = (length s ≤ 128) × All IsPrintable s

abbrev pub IsValid : PromptWindow → Type 0
IsValid w = IsSecret w.secret × (w.accepted && w.running ≡ false)

typed-IsSecret :
    (s : Bytes) (c : ℕ)
    → is_print c && ltb (length s) 128 ≡ true
    → IsSecret s
    → IsSecret (s ++ c ∷ [])
typed-IsSecret s c e (short, h) = (
  ground (arith, length-append s (c ∷ [])),
  All-append IsPrintable s (c ∷ []) h (ground arith, tt),
)

erase-IsValid : (w : PromptWindow) → IsValid w → IsValid (erase w)
unfolding erase
erase-IsValid w (s, a) =
    if_both IsValid (is_empty w.secret) w _ (s, a) (pop_back-IsTyped w.secret 128 s, a)

handle_keysym-IsValid :
    (w : PromptWindow) (sym : Keysym) → IsValid w → IsValid (handle_keysym w sym)
unfolding handle_keysym submit cancel
handle_keysym-IsValid w Keysym.escape (s, a) = (s, refl)
handle_keysym-IsValid w Keysym.tab v = v
handle_keysym-IsValid w Keysym.down v = v
handle_keysym-IsValid w Keysym.right v = v
handle_keysym-IsValid w Keysym.up v = v
handle_keysym-IsValid w Keysym.left v = v
handle_keysym-IsValid w Keysym.return (s, a) = (s, refl)
handle_keysym-IsValid w Keysym.kp_enter (s, a) = (s, refl)
handle_keysym-IsValid w Keysym.backspace v = erase-IsValid w v
handle_keysym-IsValid w Keysym.delete v = erase-IsValid w v
handle_keysym-IsValid w (Keysym.other n) v = v

handle_text-IsValid : (w : PromptWindow) (utf8 : Bytes) → IsValid w → IsValid (handle_text w utf8)
unfolding handle_text
handle_text-IsValid w [] v = v
handle_text-IsValid w (c ∷ d ∷ s) v = v
handle_text-IsValid w (c ∷ []) (s, a) =
    if_when IsValid (is_print c && ltb (length w.secret) 128) _ w
      (λ e. (typed-IsSecret w.secret c e s, a)) (s, a)

dispatch-IsValid : (w : PromptWindow) (e : Event) → IsValid w → IsValid (dispatch w e)
unfolding dispatch keyboard_key cancel
dispatch-IsValid w Event.surface_configure v = v
dispatch-IsValid w Event.toplevel_close (s, a) = (s, refl)
dispatch-IsValid w (Event.buffer_release i) v = v
dispatch-IsValid w (Event.key k) v =
    let u = handle_keysym-IsValid w k.sym v in
    if_both IsValid (not k.pressed || not k.mapped) w _ v (
      if_both IsValid (not (handle_keysym w k.sym).running) _ _ u
        (handle_text-IsValid (handle_keysym w k.sym) k.utf8 u))

pub dispatch_all-IsValid :
    (w : PromptWindow) (es : List Event) → IsValid w → IsValid (dispatch_all w es)
unfolding dispatch_all
dispatch_all-IsValid w [] v = v
dispatch_all-IsValid w (e ∷ es) v = dispatch_all-IsValid (dispatch w e) es (dispatch-IsValid w e v)

render_into-IsValid :
    (w : PromptWindow) (o : Option (List Bool)) → IsValid w → IsValid (render_into w o)
unfolding render_into
render_into-IsValid w none v = v
render_into-IsValid w (some bs) v = if_both IsValid w.configured _ w v v

pub round-IsValid : (w : PromptWindow) (r : Round) → IsValid w → IsValid (round w r)
unfolding round render
round-IsValid w r v =
    let u = dispatch_all w r.pending in
    let a = dispatch_all-IsValid w r.pending v in
    dispatch_all-IsValid _ r.polled
      (if_both IsValid u.dirty _ u (render_into-IsValid u (next_buffer u.buffers) a) a)

run_loop-IsValid : (w : PromptWindow) (rs : List Round) → IsValid w → IsValid (run_loop w rs)
unfolding run_loop
run_loop-IsValid w [] v = v
run_loop-IsValid w (r ∷ rs) v =
    if_both IsValid w.running _ w (run_loop-IsValid (round w r) rs (round-IsValid w r v)) v

-- What a prompt may end with.
abbrev pub IsOutput : ℕ × Bytes → Type 0
IsOutput (status, output) =
    ((status ≡ 0) × ((secret : Bytes) × (output ≡ secret ++ codes "\n") × IsSecret secret))
    ⊎ ((status ≢ 0) × (output ≡ []))

pub run-IsOutput : (w : PromptWindow) (rs : List Round) → IsValid w → IsOutput (run w rs)
unfolding run finish
run-IsOutput w rs v =
    let u = run_loop w rs in
    let (s, a) = run_loop-IsValid w rs v in
    if_both IsOutput u.accepted _ _ (inl (refl, (u.secret, refl, s))) (inr ((λ e. cc), refl))
