-- ===== src/Prompt/Input/Refines.antt =====
-- That the whole of polkit-agent/zero-polkit-prompt-wayland.cpp behaves as its window does with what the
-- keyboard state makes of the keys.
use cardputer_zero_os.Base.{
  ◌≡◌, ◌∙◌, refl, ap, Bool, true, false, not, Option, none, some, List, [], ◌∷◌, Bytes,
  if◌then◌else◌, if_both,
}
use cardputer_zero_os.Setup.{Answers}
use cardputer_zero_os.Setup.Input.{Xkb, new_devices}
use cardputer_zero_os.Prompt.Frame.{PromptWindow}
use cardputer_zero_os.Prompt.Window as Window
use cardputer_zero_os.Prompt.Window.{Event, render_dirty, finish}
use cardputer_zero_os.Prompt.Args.{new_prompt, parse_args, Display, prompt_main}
use cardputer_zero_os.Prompt.Args as Args
use cardputer_zero_os.Prompt.Input.Reading.{
  state_after, read_all, read_rounds, dispatch_all-state, dispatch_all-read,
}
use cardputer_zero_os.Prompt.Input.Ready.{is_ready, init-ready}
use cardputer_zero_os.Prompt.Input.{
  Session, dispatch_all, create_buffer, create_both, Round, Outside, is_missing, init,
  render_session, round, run_loop, run, start, main,
}

-- A start that succeeds has this window.
abbrev pub HasWindow : {S : Type 0} → PromptWindow → Bool × Session S → Type 0
HasWindow w (ok, s) = ok ≡ true → s.window ≡ w

-- And this keyboard state.
abbrev pub HasState : {S : Type 0} → Option S → Bool × Session S → Type 0
HasState o (ok, s) = ok ≡ true → s.devices.state ≡ o

module _ {S : Type 0} (x : Xkb S) where
  round-state :
      (s : Session S) (r : Round)
      → (round x s r).devices.state
        ≡ state_after x (state_after x s.devices.state r.pending) r.polled
  unfolding round render_session
  round-state s r =
      dispatch_all-state x (render_session (dispatch_all x s r.pending)) r.polled
      ∙ ap (λ o. state_after x o r.polled) (dispatch_all-state x s r.pending)

  round-read :
      (s : Session S) (r : Round)
      → (round x s r).window
        ≡ Window.round s.window (record {
          pending = read_all x s.devices.state r.pending;
          polled = read_all x (state_after x s.devices.state r.pending) r.polled;
        })
  unfolding round render_session Window.round
  round-read s r =
      let shown = render_session (dispatch_all x s r.pending) in
      dispatch_all-read x shown r.polled
      ∙ ap (λ w. Window.dispatch_all (render_dirty w) (read_all x shown.devices.state r.polled))
          (dispatch_all-read x s r.pending)
      ∙ ap
          (λ o.
            Window.dispatch_all
              (render_dirty (Window.dispatch_all s.window (read_all x s.devices.state r.pending)))
              (read_all x o r.polled))
          (dispatch_all-state x s r.pending)

  run_loop-read :
      (s : Session S) (rs : List Round)
      → (run_loop x s rs).window ≡ Window.run_loop s.window (read_rounds x s.devices.state rs)
  unfolding run_loop Window.run_loop
  run_loop-read s [] = refl
  run_loop-read s (r ∷ rs) =
      let rest =
        run_loop-read (round x s r) rs
        ∙ ap (λ w. Window.run_loop w (read_rounds x (round x s r).devices.state rs))
            (round-read s r)
        ∙ ap
            (λ o.
              Window.run_loop
                (Window.round s.window (record {
                  pending = read_all x s.devices.state r.pending;
                  polled = read_all x (state_after x s.devices.state r.pending) r.polled;
                }))
                (read_rounds x o rs))
            (round-state s r) in
      if_same s.window.running (run_loop x (round x s r) rs) _ rest
    where
      if_same :
          (b : Bool) (u : Session S) (w : PromptWindow)
          → u.window ≡ w
          → (if b then u else s).window ≡ (if b then w else s.window)
      if_same true u w e = e
      if_same false u w e = refl

  create_both-window :
      (k l : Answers) (s : Session S) (w : PromptWindow)
      → s.window ≡ w
      → HasWindow w (create_both k l s)
  unfolding create_both create_buffer
  create_both-window k l s w e =
      let (ok, t) = create_buffer k s in
      if_both (HasWindow w) ok (create_buffer l t) (false, t) (λ h. e) (λ h. e)

  create_both-state :
      (k l : Answers) (s : Session S) (o : Option S)
      → s.devices.state ≡ o
      → HasState o (create_both k l s)
  unfolding create_both create_buffer
  create_both-state k l s o e =
      let (ok, t) = create_buffer k s in
      if_both (HasState o) ok (create_buffer l t) (false, t) (λ h. e) (λ h. e)

  -- What a start that succeeds leaves, by what holds behind the events of its round trips.
  init-both :
      (P : Bool × Session S → Type 0) (w : PromptWindow) (o : Outside)
      → ((s : Session S) → P (false, s))
      → (let s = dispatch_all x (record { window = w; devices = new_devices }) o.early in
          P (create_both o.first o.second s))
      → P (init x w o)
  unfolding init
  init-both P w o fails both =
      let new : Session S = record { window = w; devices = new_devices } in
      let s = dispatch_all x new o.early in
      if_both P (not o.connected) (false, new) _ (fails new)
        (if_both P (is_missing s.devices.objects) (false, s) _ (fails s) both)

  init-window :
      (w : PromptWindow) (o : Outside)
      → HasWindow (Window.dispatch_all w (read_all x none o.early)) (init x w o)
  init-window w o =
      let new : Session S = record { window = w; devices = new_devices } in
      let v = Window.dispatch_all w (read_all x none o.early) in
      init-both (HasWindow {S = S} v) w o (λ s e. absurd cc)
        (create_both-window o.first o.second (dispatch_all x new o.early) v
          (dispatch_all-read x new o.early))

  init-state : (w : PromptWindow) (o : Outside) → HasState (state_after x none o.early) (init x w o)
  init-state w o =
      let new : Session S = record { window = w; devices = new_devices } in
      init-both (HasState {S = S} (state_after x none o.early)) w o (λ s e. absurd cc)
        (create_both-state o.first o.second (dispatch_all x new o.early)
          (state_after x none o.early) (dispatch_all-state x new o.early))

  run-read :
      (start : Bool × Session S) (w : PromptWindow) (o : Option S) (rs : List Round)
      → HasWindow w start
      → HasState o start
      → (run x start rs).0 ≡ (if start.0 then Window.run w (read_rounds x o rs) else (1, []))
  unfolding run Window.run
  run-read (false, s) w o rs h k = refl
  run-read (true, s) w o rs h k = ap finish (
      run_loop-read s rs
      ∙ ap (λ v. Window.run_loop v (read_rounds x s.devices.state rs)) (h refl)
      ∙ ap (λ p. Window.run_loop w (read_rounds x p rs)) (k refl))

-- What a run of the window is given in place of the signals.
abbrev pub display : {S : Type 0} → Xkb S → Outside → Display
display x o = record {
  ready = is_ready o;
  early = read_all x none o.early;
  rounds = read_rounds x (state_after x none o.early) o.rounds;
}

start-read :
    {S : Type 0} (x : Xkb S) (parsed : Option PromptWindow) (o : Outside)
    → (start x parsed o).0 ≡ Args.start (display x o) parsed
unfolding start Args.start
start-read x none o = refl
start-read x (some w) o =
    run-read x (init x w o) _ _ o.rounds (init-window x w o) (init-state x w o)
    ∙ ap
        (λ (b : Bool).
          if b
          then Window.run (Window.dispatch_all w (read_all x none o.early))
              (read_rounds x (state_after x none o.early) o.rounds)
          else (1, []))
        (init-ready x w o)

-- The prompt as a whole, with its objects of Wayland and its keyboard state, has the exit status and
-- the output of the prompt whose keys are given with their meanings. It starts exactly if the display
-- is there, the compositor announces itself, shared memory and a shell, and both buffers get a file and
-- a mapping. Each key means what xkbcommon makes of its code, plus 8, in the state of the last usable
-- keymap with the modifiers since, and nothing while there is no such state. That holds for every
-- xkbcommon, and all that the compositor sends.
pub main-prompt_main :
    {S : Type 0} (x : Xkb S) (args : List Bytes) (o : Outside)
    → (main x args o).0 ≡ prompt_main args (display x o)
unfolding main prompt_main
main-prompt_main x args o = start-read x (parse_args new_prompt args) o
