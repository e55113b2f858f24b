-- ===== src/Greeter/Window/Life.antt =====
-- `GreeterWindow` of greeter/zero-greeter-wayland.cpp from `init` to the exit of `run`.
use cardputer_zero_os.Base.{
  ℕ, ◌≡◌, refl, Bool, true, false, not, ◌&&◌, Option, none, some, List, [], ◌∷◌, ◌++◌,
  if◌then◌else◌, Bool-cases, inl, inr, if_both, ap, ◌∙◌, arith,
}
use cardputer_zero_os.Greeter.Screen.{UiMode, Greeter, Outside, render, reload_users}
use cardputer_zero_os.Greeter.Screen.Valid.{
  IsValid, IsSettled, clamp-IsValid, render-IsValid, no_password,
}
use cardputer_zero_os.Greeter.Keys.Invariant.{keyboard_key-IsValid}
use cardputer_zero_os.Greeter.Window.{
  Event, dispatch, dispatch_all, new_window, init, Round, round, run,
}

-- Closing the window clears `running_`; nothing that the invariant says of it is lost.
stop-IsSettled :
    (mode : UiMode) (running started : Bool)
    → IsSettled mode running started
    → IsSettled mode false started
stop-IsSettled UiMode.login r s h = h
stop-IsSettled UiMode.user_menu r s h = h
stop-IsSettled UiMode.power_menu r s h = h
stop-IsSettled UiMode.authenticating r s h = h
stop-IsSettled UiMode.starting_session r s h = (refl, h.1)

pub dispatch-IsValid : (g : Greeter) (e : Event) → IsValid g → IsValid (dispatch g e)
unfolding dispatch
dispatch-IsValid g Event.surface_configure v = v
dispatch-IsValid g Event.toplevel_close (s, m, h, t, k) =
    (s, m, h, t, stop-IsSettled g.mode g.running g.session_started k)
dispatch-IsValid g (Event.buffer_release i) v = v
dispatch-IsValid g (Event.key o k) v = keyboard_key-IsValid o g k v

dispatch_all-IsValid : (g : Greeter) (es : List Event) → IsValid g → IsValid (dispatch_all g es)
unfolding dispatch_all
dispatch_all-IsValid g [] v = v
dispatch_all-IsValid g (e ∷ es) v = dispatch_all-IsValid (dispatch g e) es (dispatch-IsValid g e v)

init-IsValid : (o : Outside) (es : List Event) → IsValid (init o es)
unfolding init reload_users
init-IsValid o es =
    dispatch_all-IsValid _ es (clamp-IsValid o.load_users new_window (omega arith) no_password refl)

round-IsValid : (g : Greeter) (r : Round) → IsValid g → IsValid (round g r)
unfolding round
round-IsValid g r v =
    let h = dispatch_all g r.pending in
    let p = dispatch_all-IsValid g r.pending v in
    dispatch_all-IsValid _ r.polled (if_both IsValid h.dirty (render h) h (render-IsValid h p) p)

run-step : (g : Greeter) (rs : List Round) → IsValid g → IsValid (run g rs).0
unfolding run
run-step g [] v = v
run-step g (r ∷ rs) v =
    if_both (λ (x : Greeter × Option ℕ). IsValid x.0) (g.running && not r.display_error)
      (run (round g r) rs) _ (run-step (round g r) rs (round-IsValid g r v)) v

-- Whatever accounts there are, keys are pressed and logins come to, in any number of rounds from the
-- start: the selections stay in range, the password printable and at most 128 characters, no login is
-- left under way, and a started session stops the greeter.
pub run-IsValid : (o : Outside) (es : List Event) (rs : List Round) → IsValid (run (init o es) rs).0
run-IsValid o es rs = run-step (init o es) rs (init-IsValid o es)

-- The exit status tells whether a session was started, and where the loop goes on there is none.
abbrev IsExit : Greeter × Option ℕ → Type 0
IsExit (g, none) = Unit {0}
IsExit (g, some n) = n ≡ (if g.session_started then 0 else 1)

run-IsExit : (g : Greeter) (rs : List Round) → IsExit (run g rs)
unfolding run
run-IsExit g [] = tt
run-IsExit g (r ∷ rs) =
    if_both IsExit (g.running && not r.display_error) (run (round g r) rs) _
      (run-IsExit (round g r) rs) refl

abbrev pub is_starting : UiMode → Bool
is_starting UiMode.starting_session = true
is_starting _ = false

settled-started :
    (mode : UiMode) (running started : Bool)
    → IsSettled mode running started
    → started ≡ is_starting mode
settled-started UiMode.login r s h = h
settled-started UiMode.user_menu r s h = h
settled-started UiMode.power_menu r s h = h
settled-started UiMode.authenticating r s h = cc
settled-started UiMode.starting_session r s h = h.1

exit_at :
    (x : Greeter × Option ℕ) (n : ℕ)
    → IsExit x
    → x.1 ≡ some n
    → n ≡ (if x.0.session_started then 0 else 1)
exit_at (g, none) n h e = cc
exit_at (g, some m) n h e = let same : n ≡ m = cc in same ∙ h

-- If `run` returns, its status is 0 with the session's screen up, and 1 with any other screen.
run_exit :
    (o : Outside) (es : List Event) (rs : List Round) (n : ℕ)
    → (run (init o es) rs).1 ≡ some n
    → n ≡ (if is_starting (run (init o es) rs).0.mode then 0 else 1)
run_exit o es rs n h =
    let (g, _) = run (init o es) rs in
    exit_at (run (init o es) rs) n (run-IsExit (init o es) rs) h
    ∙ ap (λ b. if b then 0 else 1)
        (settled-started g.mode g.running g.session_started (run-IsValid o es rs).4)

settled-stopped :
    (mode : UiMode) (running started : Bool)
    → IsSettled mode running started
    → started ≡ true
    → running ≡ false
settled-stopped UiMode.login r s k e = cc
settled-stopped UiMode.user_menu r s k e = cc
settled-stopped UiMode.power_menu r s k e = cc
settled-stopped UiMode.authenticating r s k e = cc
settled-stopped UiMode.starting_session r s k e = k.0

-- Rounds behind one that a started session ends are not reached.
run-append :
    (g : Greeter) (rs : List Round) (r : Round) (more : List Round)
    → IsValid g
    → (run g rs).0.session_started ≡ true
    → run g (rs ++ r ∷ more) ≡ ((run g rs).0, some 0)
unfolding run
run-append g [] r more v h =
    let stopped : g.running ≡ false = settled-stopped g.mode g.running g.session_started v.4 h in
    rw (stopped, h) refl
run-append g (q ∷ rs) r more v h = elim (Bool-cases (g.running && not q.display_error)) [
  | inl e ↦ rw e (run-append (round g q) rs r more (round-IsValid g q v) (rw e at h))
  | inr e ↦ let started : g.session_started ≡ true = rw e at h in rw (e, started) refl
]

-- From the start of the greeter: if a session was started in some rounds, then `run` has returned 0 by
-- the next test of its loop, with the screen of that moment, and whatever would come in more rounds is
-- neither dispatched nor drawn.
pub run_started :
    (o : Outside) (es : List Event) (rs : List Round) (r : Round) (more : List Round)
    → (run (init o es) rs).0.session_started ≡ true
    → run (init o es) (rs ++ r ∷ more) ≡ ((run (init o es) rs).0, some 0)
run_started o es rs r more h = run-append (init o es) rs r more (init-IsValid o es) h
