-- ===== src/Prompt/Window/Typing.antt =====
-- From the keys that are typed to what `run` of polkit-agent/zero-polkit-prompt-wayland.cpp writes.
use cardputer_zero_os.Base.{
  ℕ, ◌<◌, ◌≡◌, ◌∙◌, refl, ap, Bool, true, false, Option, none, some, List, [], ◌∷◌, ◌++◌, Bytes,
  codes, ltb, lt→ltb, if◌then◌else◌, if_both, length,
}
use cardputer_zero_os.Greeter.Screen.{Keysym, next_buffer}
use cardputer_zero_os.Greeter.Keys.{pop_back}
use cardputer_zero_os.Prompt.Texts.Fit.{IsPrintable}
use cardputer_zero_os.Prompt.Frame.{PromptWindow}
use cardputer_zero_os.Prompt.Window.{
  submit, erase, handle_keysym, handle_text, keyboard_key, Event, dispatch, dispatch_all,
  render_into, render, render_dirty, Round, round, run_loop, finish, run,
}

abbrev pub press : Keysym → Bytes → Event
press sym utf8 = Event.key (record { pressed = true; mapped = true; sym = sym; utf8 = utf8 })

abbrev pub enter : Event
enter = press Keysym.return (codes "\r")

-- Typing takes one text to another: letters are added while there is room, backspace takes the last one
-- away; what the compositor reports in between, and keys that are let go, change nothing.
pub data Types : List Event → Bytes → Bytes → Type 0 where
  done : (s : Bytes) → Types [] s s
  letter :
      (n c : ℕ) (es : List Event) (s t : Bytes)
      → IsPrintable c
      → length s < 128
      → Types es (s ++ c ∷ []) t
      → Types (press (Keysym.other n) (c ∷ []) ∷ es) s t
  rub :
      (es : List Event) (s t : Bytes)
      → Types es (pop_back s) t
      → Types (press Keysym.backspace (8 ∷ []) ∷ es) s t
  configured :
      (es : List Event) (s t : Bytes) → Types es s t → Types (Event.surface_configure ∷ es) s t
  released :
      (i : ℕ) (es : List Event) (s t : Bytes)
      → Types es s t
      → Types (Event.buffer_release i ∷ es) s t

-- The window still runs, with this secret.
abbrev pub Holds : Bytes → PromptWindow → Type 0
Holds s w = (w.running ≡ true) × (w.secret ≡ s)

letter-Holds :
    (n c : ℕ) (s : Bytes) (w : PromptWindow)
    → IsPrintable c
    → length s < 128
    → Holds s w
    → Holds (s ++ c ∷ []) (dispatch w (press (Keysym.other n) (c ∷ [])))
unfolding dispatch keyboard_key handle_keysym handle_text
letter-Holds n c s w p h (r, e) =
    let room : ltb (length w.secret) 128 ≡ true = lt→ltb _ 128 (rw e h) in
    rw (r, p, room, e) (refl, refl)

rub-Holds :
    (s : Bytes) (w : PromptWindow)
    → Holds s w
    → Holds (pop_back s) (dispatch w (press Keysym.backspace (8 ∷ [])))
unfolding dispatch keyboard_key handle_keysym handle_text erase pop_back
rub-Holds [] w (r, e) = rw (e, r) (refl, refl)
rub-Holds (c ∷ s) w (r, e) = rw (e, r) (refl, refl)

-- Events that are not of the keyboard.
quiet-Holds :
    (s : Bytes) (w : PromptWindow) (i : ℕ)
    → Holds s w
    → Holds s (dispatch w Event.surface_configure) × Holds s (dispatch w (Event.buffer_release i))
unfolding dispatch
quiet-Holds s w i h = (h, h)

pub dispatch_all-Holds :
    {es : List Event} {s t : Bytes} (w : PromptWindow)
    → Types es s t
    → Holds s w
    → Holds t (dispatch_all w es)
unfolding dispatch_all
dispatch_all-Holds w (Types.done s) h = h
dispatch_all-Holds w (Types.letter n c es s t p room more) h =
    dispatch_all-Holds (dispatch w (press (Keysym.other n) (c ∷ []))) more
      (letter-Holds n c s w p room h)
dispatch_all-Holds w (Types.rub es s t more) h =
    dispatch_all-Holds (dispatch w (press Keysym.backspace (8 ∷ []))) more (rub-Holds s w h)
dispatch_all-Holds w (Types.configured es s t more) h =
    dispatch_all-Holds (dispatch w Event.surface_configure) more (quiet-Holds s w 0 h).0
dispatch_all-Holds w (Types.released i es s t more) h =
    dispatch_all-Holds (dispatch w (Event.buffer_release i)) more (quiet-Holds s w i h).1

render_into-Holds :
    (s : Bytes) (w : PromptWindow) (o : Option (List Bool)) → Holds s w → Holds s (render_into w o)
unfolding render_into
render_into-Holds s w none h = h
render_into-Holds s w (some bs) h = if_both (Holds s) w.configured _ w h h

render_dirty-Holds : (s : Bytes) (w : PromptWindow) → Holds s w → Holds s (render_dirty w)
unfolding render
render_dirty-Holds s w h =
    if_both (Holds s) w.dirty (render_into w (next_buffer w.buffers)) w
      (render_into-Holds s w (next_buffer w.buffers) h) h

-- The same over the rounds of the loop.
abbrev pub TypesRounds : List Round → Bytes → Bytes → Type 0
TypesRounds [] s t = s ≡ t
TypesRounds (r ∷ rs) s t =
    (u : Bytes) × ((v : Bytes) × Types r.pending s u × Types r.polled u v × TypesRounds rs v t)

round-Holds :
    (w : PromptWindow) (r : Round) (s u v : Bytes)
    → Types r.pending s u
    → Types r.polled u v
    → Holds s w
    → Holds v (round w r)
unfolding round
round-Holds w r s u v first second h =
    dispatch_all-Holds (render_dirty (dispatch_all w r.pending)) second
      (render_dirty-Holds u (dispatch_all w r.pending) (dispatch_all-Holds w first h))

pub dispatch_all-append :
    (w : PromptWindow) (es fs : List Event)
    → dispatch_all w (es ++ fs) ≡ dispatch_all (dispatch_all w es) fs
unfolding dispatch_all
dispatch_all-append w [] fs = refl
dispatch_all-append w (e ∷ es) fs = dispatch_all-append (dispatch w e) es fs

enter-finish :
    (s : Bytes) (w : PromptWindow)
    → Holds s w
    → (finish (dispatch_all w (enter ∷ [])) ≡ (0, s ++ codes "\n"))
      × ((dispatch_all w (enter ∷ [])).running ≡ false)
unfolding dispatch_all dispatch keyboard_key handle_keysym submit finish
enter-finish s w (r, e) = rw e (refl, refl)

stopped : (w : PromptWindow) (rs : List Round) → w.running ≡ false → run_loop w rs ≡ w
unfolding run_loop
stopped w [] e = refl
stopped w (r ∷ rs) e = ap (λ b. if b then run_loop (round w r) rs else w) e

run_loop-round :
    (w : PromptWindow) (r : Round) (rs : List Round)
    → w.running ≡ true
    → run_loop w (r ∷ rs) ≡ run_loop (round w r) rs
unfolding run_loop
run_loop-round w r rs e = ap (λ b. if b then run_loop (round w r) rs else w) e

-- The prompt that is given a text by its keys, then Enter as the last event of its batch, exits with 0
-- and writes that text and the end of the line, whatever would come after. The typing may be spread
-- over the rounds in any way.
pub run-typed :
    (w : PromptWindow) (rs more : List Round) (s t u v : Bytes) (pending polled : List Event)
    → Holds s w
    → TypesRounds rs s t
    → Types pending t u
    → Types polled u v
    → run w (rs ++ record { pending = pending; polled = polled ++ enter ∷ [] } ∷ more)
      ≡ (0, v ++ codes "\n")
unfolding run round
run-typed w [] more s t u v pending polled (r, e) same first second =
    let at_last = render_dirty (dispatch_all w pending) in
    let k = dispatch_all-Holds w first (r, e ∙ same) in
    let j = dispatch_all-Holds at_last second (render_dirty-Holds u (dispatch_all w pending) k) in
    let (out, ended) = enter-finish v (dispatch_all at_last polled) j in
    ap finish (
      run_loop-round w (record { pending = pending; polled = polled ++ enter ∷ [] }) more r
      ∙ ap (λ x. run_loop x more) (dispatch_all-append at_last polled (enter ∷ []))
      ∙ stopped (dispatch_all (dispatch_all at_last polled) (enter ∷ [])) more ended)
    ∙ out
run-typed w (q ∷ rs) more s t u v pending polled (r, e) (a, (b, one, two, typed)) first second =
    ap finish (
      run_loop-round w q (rs ++ record { pending = pending; polled = polled ++ enter ∷ [] } ∷ more)
        r)
    ∙ run-typed (round w q) rs more b t u v pending polled (round-Holds w q s a b one two (r, e))
        typed first second
