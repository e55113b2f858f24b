-- ===== src/Prompt/Input/Silent.antt =====
-- polkit-agent/zero-polkit-prompt-wayland.cpp without a keyboard map.
use cardputer_zero_os.Base.{
  ℕ, ◌≡◌, ◌≢◌, refl, sym, subst, Bool, true, false, not, ◌&&◌, Option, none, some, List, [], ◌∷◌,
  Bytes, codes, str_eq, ◌==◌, if_both, All, arith,
}
use cardputer_zero_os.Setup.{Keymap, Answers}
use cardputer_zero_os.Setup.Input.{Xkb, Devices, Signal, new_devices, reply}
use cardputer_zero_os.Setup.Input as Input
use cardputer_zero_os.Greeter.Screen.{next_buffer}
use cardputer_zero_os.Prompt.Frame.{PromptWindow}
use cardputer_zero_os.Prompt.Window.{cancel, render_into, render, finish}
use cardputer_zero_os.Prompt.Args.{
  new_prompt, parse_args, takes_value, set_value, set_flag, or_usage,
}
use cardputer_zero_os.Prompt.Input.{
  Session, registry_global, wm_ping, surface_configure, toplevel_close, seat_capabilities,
  keyboard_keymap, key_with, keyboard_key, keyboard_modifiers, buffer_release, dispatch,
  dispatch_all, create_buffer, create_both, Round, Outside, is_missing, init, render_session, round,
  run_loop, run, start, main,
}

-- No keyboard state comes of it.
abbrev pub IsPlain : Signal → Type 0
IsPlain (Signal.keymap_sent k) =
    ((k.format == 1 && k.maps) && (k.compiles && k.makes_state)) ≡ false
IsPlain _ = Unit

abbrev pub IsPlainRound : Round → Type 0
IsPlainRound r = All IsPlain r.pending × All IsPlain r.polled

abbrev NotAccepted : Option PromptWindow → Type 0
NotAccepted none = Unit
NotAccepted (some w) = w.accepted ≡ false

set_flag-NotAccepted :
    (w : PromptWindow) (arg : Bytes) → w.accepted ≡ false → NotAccepted (set_flag w arg)
unfolding set_flag
set_flag-NotAccepted w arg h =
    if_both NotAccepted (str_eq arg (codes "--echo")) _ _ h
      (if_both NotAccepted (str_eq arg (codes "--secret")) _ none h tt)

set_value-accepted :
    (w : PromptWindow) (arg value : Bytes)
    → w.accepted ≡ false
    → (set_value w arg value).accepted ≡ false
unfolding set_value
set_value-accepted w arg value h =
    let No : PromptWindow → Type 0 = λ v. v.accepted ≡ false in
    if_both No (str_eq arg (codes "--message")) (record w { message = value }) _ h
      (if_both No (str_eq arg (codes "--identity")) (record w { identity = value }) _ h
        (if_both No (str_eq arg (codes "--request")) (record w { request = value })
          (record w { info = value }) h h))

parse_args-NotAccepted :
    (w : PromptWindow) (args : List Bytes) → w.accepted ≡ false → NotAccepted (parse_args w args)
unfolding parse_args
parse_args-NotAccepted w [] h = h
parse_args-NotAccepted w (arg ∷ []) h =
    if_both NotAccepted (takes_value arg) none (set_flag w arg) tt (set_flag-NotAccepted w arg h)
parse_args-NotAccepted w (arg ∷ value ∷ args) h =
    if_both NotAccepted (takes_value arg) _ _
      (parse_args-NotAccepted (set_value w arg value) args (set_value-accepted w arg value h))
      (then_rest (set_flag w arg) (set_flag-NotAccepted w arg h)
        (λ v k. parse_args-NotAccepted v (value ∷ args) k))
  where
    then_rest :
        (o : Option PromptWindow)
        → NotAccepted o
        → ((v : PromptWindow) → v.accepted ≡ false → NotAccepted (parse_args v (value ∷ args)))
        → NotAccepted (or_usage o (λ v. parse_args v (value ∷ args)))
    then_rest none h more = tt
    then_rest (some v) h more = more v h

no_state_to_update :
    {S : Type 0} (x : Xkb S) (a b c g : ℕ) (o : Option S)
    → o ≡ none
    → Input.update_state x a b c g o ≡ none
unfolding Input.update_state
no_state_to_update x a b c g none e = refl
no_state_to_update x a b c g (some s) e = cc

-- What ends without success.
abbrev pub IsSilent : ℕ × Bytes → Type 0
IsSilent (status, output) = (status ≢ 0) × (output ≡ [])

render_into-accepted :
    (w : PromptWindow) (o : Option (List Bool))
    → w.accepted ≡ false
    → (render_into w o).accepted ≡ false
unfolding render_into
render_into-accepted w none a = a
render_into-accepted w (some bs) a =
    if_both (λ (v : PromptWindow). v.accepted ≡ false) w.configured _ w a a

module _ {S : Type 0} (x : Xkb S) where
  -- There is no keyboard state, and nothing was accepted.
  abbrev IsMute : Session S → Type 0
  IsMute s = (s.devices.state ≡ none) × (s.window.accepted ≡ false)

  keyboard_keymap-state :
      (k : Keymap) (d : Devices S)
      → ((k.format == 1 && k.maps) && (k.compiles && k.makes_state)) ≡ false
      → d.state ≡ none
      → (Input.keyboard_keymap x k d).state ≡ none
  unfolding Input.keyboard_keymap
  keyboard_keymap-state k d h e = ground arith

  dispatch-IsMute : (s : Session S) (e : Signal) → IsPlain e → IsMute s → IsMute (dispatch x s e)
  unfolding dispatch registry_global wm_ping surface_configure toplevel_close seat_capabilities
      keyboard_keymap keyboard_key key_with keyboard_modifiers Input.keyboard_modifiers
      buffer_release reply cancel
  dispatch-IsMute s (Signal.global interface) p m = m
  dispatch-IsMute s (Signal.ping serial) p m = m
  dispatch-IsMute s (Signal.configure serial) p m = m
  dispatch-IsMute s (Signal.capabilities n) p m = m
  dispatch-IsMute s (Signal.buffer_release i) p m = m
  dispatch-IsMute s Signal.close p (e, a) = (e, refl)
  dispatch-IsMute s (Signal.keymap_sent k) p (e, a) = (keyboard_keymap-state k s.devices p e, a)
  dispatch-IsMute s (Signal.key n state) p (e, a) =
      (e, subst (λ o. (key_with x n state o s.window).accepted ≡ false) (sym e) a)
  dispatch-IsMute s (Signal.modifiers depressed latched locked group) p (e, a) =
      (no_state_to_update x depressed latched locked group s.devices.state e, a)

  dispatch_all-IsMute :
      (s : Session S) (es : List Signal) → All IsPlain es → IsMute s → IsMute (dispatch_all x s es)
  unfolding dispatch_all
  dispatch_all-IsMute s [] p m = m
  dispatch_all-IsMute s (e ∷ es) (p, ps) m =
      dispatch_all-IsMute (dispatch x s e) es ps (dispatch-IsMute s e p m)

  render_session-IsMute : (s : Session S) → IsMute s → IsMute (render_session s)
  unfolding render_session render
  render_session-IsMute s (e, a) = (
    e,
    if_both (λ (w : PromptWindow). w.accepted ≡ false) s.window.dirty
        (render_into s.window (next_buffer s.window.buffers)) s.window
        (render_into-accepted s.window (next_buffer s.window.buffers) a) a,
  )

  run_loop-IsMute :
      (s : Session S) (rs : List Round) → All IsPlainRound rs → IsMute s → IsMute (run_loop x s rs)
  unfolding run_loop round
  run_loop-IsMute s [] p m = m
  run_loop-IsMute s (r ∷ rs) ((pending, polled), ps) m =
      let t = dispatch_all x s r.pending in
      let after =
        dispatch_all-IsMute (render_session t) r.polled polled
          (render_session-IsMute t (dispatch_all-IsMute s r.pending pending m)) in
      if_both IsMute s.window.running (run_loop x (round x s r) rs) s
        (run_loop-IsMute (round x s r) rs ps after) m

  create_both-IsMute : (k l : Answers) (s : Session S) → IsMute s → IsMute (create_both k l s).1
  unfolding create_both create_buffer
  create_both-IsMute k l s m =
      let (ok, t) = create_buffer k s in
      if_both (λ (r : Bool × Session S). IsMute r.1) ok (create_buffer l t) (false, t) m m

  init-IsMute :
      (w : PromptWindow) (o : Outside)
      → w.accepted ≡ false
      → All IsPlain o.early
      → IsMute (init x w o).1
  unfolding init
  init-IsMute w o a p =
      let new : Session S = record { window = w; devices = new_devices } in
      let s = dispatch_all x new o.early in
      let m = dispatch_all-IsMute new o.early p (refl, a) in
      let Mute : Bool × Session S → Type 0 = λ r. IsMute r.1 in
      if_both Mute (not o.connected) (false, new) _ (refl, a)
        (if_both Mute (is_missing s.devices.objects) (false, s) (create_both o.first o.second s) m
          (create_both-IsMute o.first o.second s m))

  run-IsSilent :
      (begun : Bool × Session S) (rs : List Round)
      → All IsPlainRound rs
      → IsMute begun.1
      → IsSilent (run x begun rs).0
  unfolding run finish
  run-IsSilent (false, s) rs p m = (omega arith, refl)
  run-IsSilent (true, s) rs p m = let (e, a) = run_loop-IsMute s rs p m in rw a (omega arith, refl)

  start-IsSilent :
      (parsed : Option PromptWindow) (o : Outside)
      → NotAccepted parsed
      → All IsPlain o.early
      → All IsPlainRound o.rounds
      → IsSilent (start x parsed o).0
  unfolding start
  start-IsSilent none o a p ps = (omega arith, refl)
  start-IsSilent (some w) o a p ps = run-IsSilent (init x w o) o.rounds ps (init-IsMute w o a p)

-- A prompt that no usable keymap is sent to never succeeds, whatever its arguments are, whatever keys the
-- compositor reports and however it is closed: its exit status is not 0 and it writes nothing.
pub main-IsSilent :
    {S : Type 0} (x : Xkb S) (args : List Bytes) (o : Outside)
    → All IsPlain o.early
    → All IsPlainRound o.rounds
    → IsSilent (main x args o).0
unfolding main
main-IsSilent x args o p ps =
    start-IsSilent x (parse_args new_prompt args) o (parse_args-NotAccepted new_prompt args refl) p
      ps
