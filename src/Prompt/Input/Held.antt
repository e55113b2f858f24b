-- ===== src/Prompt/Input/Held.antt =====
-- What polkit-agent/zero-polkit-prompt-wayland.cpp holds of the kernel and of xkbcommon, from its start
-- to the end of its loop.
use cardputer_zero_os.Base.{
  held_by, ℕ, ◌≤◌, ◌≡◌, ◌∙◌, refl, Bool, true, false, not, Option, none, some, List, [], ◌∷◌, Bytes,
  ◌==◌, if◌then◌else◌, if_both, arith,
}
use cardputer_zero_os.Setup as Setup
use cardputer_zero_os.Setup.{use_all, Answers}
use cardputer_zero_os.Setup.Held.{
  held-more, nothing, counts_of, registry_global-IsHeld, seat_capabilities-IsHeld,
}
use cardputer_zero_os.Setup.Buffers.{one_more, create_buffer-IsBuffer}
use cardputer_zero_os.Setup.Input.{Xkb, Devices, Signal, new_devices, reply}
use cardputer_zero_os.Setup.Input.Paired.{
  Holds, registry_global-has_state, seat_capabilities-has_state, keyboard_keymap-Holds,
  keyboard_modifiers-Holds,
}
use cardputer_zero_os.Prompt.Frame.{PromptWindow}
use cardputer_zero_os.Prompt.Args.{new_prompt, parse_args}
use cardputer_zero_os.Prompt.Input.{
  Session, registry_global, wm_ping, surface_configure, toplevel_close, seat_capabilities,
  keyboard_keymap, keyboard_key, keyboard_modifiers, buffer_release, dispatch, dispatch_all,
  create_buffer, create_both, Round, Outside, is_missing, init, render_session, round, run_loop,
  run, start, main,
}

-- A start: whether it succeeded, what is held with it, and that both buffers are mapped exactly then.
abbrev pub IsBegun : {S : Type 0} → Bool × Session S → Type 0
IsBegun (ok, s) = (m : ℕ) × Holds m s.devices × (m ≤ 2) × (ok ≡ (m == 2))

-- An end: what is still held, and that it is all of a start where the status is 0.
abbrev pub IsLeft : {S : Type 0} → (ℕ × Bytes) × Devices S → Type 0
IsLeft ((status, output), d) = (m : ℕ) × Holds m d × (m ≤ 2) × (status ≡ 0 → m ≡ 2)

module _ {S : Type 0} (x : Xkb S) where
  dispatch-Holds :
      (m : ℕ) (s : Session S) (e : Signal) → Holds m s.devices → Holds m (dispatch x s e).devices
  unfolding dispatch registry_global wm_ping surface_configure toplevel_close seat_capabilities
      keyboard_keymap keyboard_key keyboard_modifiers buffer_release reply
  dispatch-Holds m s (Signal.global interface) (h, e) = (
    registry_global-IsHeld m interface s.devices.objects h,
    registry_global-has_state interface s.devices.objects ∙ e,
  )
  dispatch-Holds m s (Signal.ping serial) h = h
  dispatch-Holds m s (Signal.configure serial) h = h
  dispatch-Holds m s (Signal.capabilities n) (h, e) = (
    seat_capabilities-IsHeld m n s.devices.objects h,
    seat_capabilities-has_state n s.devices.objects ∙ e,
  )
  dispatch-Holds m s (Signal.buffer_release i) h = h
  dispatch-Holds m s Signal.close h = h
  dispatch-Holds m s (Signal.keymap_sent k) h = keyboard_keymap-Holds x m k s.devices h
  dispatch-Holds m s (Signal.key n state) h = h
  dispatch-Holds m s (Signal.modifiers depressed latched locked group) h =
      keyboard_modifiers-Holds x m depressed latched locked group s.devices h

  dispatch_all-Holds :
      (m : ℕ) (s : Session S) (es : List Signal)
      → Holds m s.devices
      → Holds m (dispatch_all x s es).devices
  unfolding dispatch_all
  dispatch_all-Holds m s [] h = h
  dispatch_all-Holds m s (e ∷ es) h =
      dispatch_all-Holds m (dispatch x s e) es (dispatch-Holds m s e h)

  run_loop-Holds :
      (m : ℕ) (s : Session S) (rs : List Round)
      → Holds m s.devices
      → Holds m (run_loop x s rs).devices
  unfolding run_loop round render_session
  run_loop-Holds m s [] h = h
  run_loop-Holds m s (r ∷ rs) h =
      let shown = render_session (dispatch_all x s r.pending) in
      let after = dispatch_all-Holds m shown r.polled (dispatch_all-Holds m s r.pending h) in
      if_both (λ (t : Session S). Holds m t.devices) s.window.running (run_loop x (round x s r) rs)
        s (run_loop-Holds m (round x s r) rs after) h

  -- A buffer that is created is one mapping more.
  create_buffer-Holds :
      (m : ℕ) (k : Answers) (s : Session S)
      → Holds m s.devices
      → Holds (one_more (create_buffer k s).0 m) (create_buffer k s).1.devices
  unfolding create_buffer use_all
  create_buffer-Holds m k s (h, e) = (
    held-more s.devices.objects.uses (Setup.create_buffer k).1 nothing _ _ h
        (create_buffer-IsBuffer k (counts_of m s.devices.objects)),
    e,
  )

  create_both-IsBegun :
      (k l : Answers) (s : Session S) → Holds 0 s.devices → IsBegun (create_both k l s)
  unfolding create_both
  create_both-IsBegun k l s h =
      let (ok, t) = create_buffer k s in after ok t (create_buffer-Holds 0 k s h)
    where
      after :
          (ok : Bool) (t : Session S)
          → Holds (one_more ok 0) t.devices
          → IsBegun (if ok then create_buffer l t else (false, t))
      after false t h = (0, h, omega arith, refl)
      after true t h = let (ok, u) = create_buffer l t in last ok u (create_buffer-Holds 1 l t h)
        where
          last : (ok : Bool) (u : Session S) → Holds (one_more ok 1) u.devices → IsBegun (ok, u)
          last false u h = (1, h, omega arith, refl)
          last true u h = (2, h, omega arith, refl)

  init-IsBegun : (w : PromptWindow) (o : Outside) → IsBegun (init x w o)
  unfolding init held_by
  init-IsBegun w o =
      let new : Session S = record { window = w; devices = new_devices } in
      let s = dispatch_all x new o.early in
      let h = dispatch_all-Holds 0 new o.early (refl, refl) in
      if_both IsBegun (not o.connected) (false, new) _ (0, (refl, refl), omega arith, refl)
        (if_both IsBegun (is_missing s.devices.objects) (false, s) _ (0, h, omega arith, refl)
          (create_both-IsBegun o.first o.second s h))

  run-IsLeft :
      (begun : Bool × Session S) (rs : List Round) → IsBegun begun → IsLeft (run x begun rs)
  unfolding run
  run-IsLeft (false, s) rs (m, h, l, e) = (m, h, l, λ z. absurd cc)
  run-IsLeft (true, s) rs (m, h, l, e) = (m, run_loop-Holds m s rs h, l, λ z. ground arith)

  start-IsLeft : (parsed : Option PromptWindow) (o : Outside) → IsLeft (start x parsed o)
  unfolding start held_by
  start-IsLeft none o = (0, (refl, refl), omega arith, λ z. absurd (omega arith))
  start-IsLeft (some w) o = run-IsLeft (init x w o) o.rounds (init-IsBegun w o)

-- Whatever the arguments are, the compositor sends and the kernel answers, also where the start fails
-- half-way: when the prompt ends it has no descriptor open, nothing was released that it did not hold,
-- there is one keymap, one keyboard state and one keyboard exactly where it has a pointer to one, at
-- most the two buffers are mapped, and both are where its exit status is 0.
pub main-IsLeft :
    {S : Type 0} (x : Xkb S) (args : List Bytes) (o : Outside) → IsLeft (main x args o)
unfolding main
main-IsLeft x args o = start-IsLeft x (parse_args new_prompt args) o
