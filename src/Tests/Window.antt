-- ===== src/Tests/Window.antt =====
-- greeter/zero-greeter-wayland.cpp from its start: a password is typed, and the login succeeds.
use cardputer_zero_os.Base.{◌≡◌, refl, true, false, some, List, [], ◌∷◌, ◌++◌, codes}
use cardputer_zero_os.Greeter.Screen.{Outside, Keysym, next_buffer}
use cardputer_zero_os.Greeter.Screen.Valid.{IsValid}
use cardputer_zero_os.Greeter.Keys.{keyboard_key}
use cardputer_zero_os.Greeter.Keys.Requests.{press}
use cardputer_zero_os.Greeter.Window.{Event, init, dispatch_all, Round, run}
use cardputer_zero_os.Greeter.Window.Life.{run-IsValid, run_started}
use cardputer_zero_os.Greeter.Keys.Fresh.{IsFresh}
use cardputer_zero_os.Greeter.Window.Fresh.{dispatch_all-drawn}
use cardputer_zero_os.Greeter.Frame.{draw_frame}

abbrev outside : Outside
outside = record {
  load_users = record { name = codes "ana"; uid = 1000 } ∷ [];
  log_in = λ u p. (true, codes "SESSION STARTING");
}

abbrev login_round : Round
login_round = record {
  display_error = false;
  pending = Event.surface_configure ∷ Event.key outside (press (Keysym.other 97) (codes "a")) ∷ [];
  polled = Event.key outside (press Keysym.return []) ∷ [];
}

abbrev rounds : List Round
rounds = login_round ∷ record { display_error = false; pending = []; polled = [] } ∷ []

run-IsValid_example : IsValid (run (init outside []) rounds).0
run-IsValid_example = run-IsValid outside [] rounds

-- The second of these rounds ends `run`, and the last one is not reached.
login_succeeds : (run (init outside []) rounds).0.session_started ≡ true
unfolding run init dispatch_all keyboard_key next_buffer
login_succeeds = refl

run_started_example :
    run (init outside []) (rounds ++ login_round ∷ []) ≡ ((run (init outside []) rounds).0, some 0)
run_started_example = run_started outside [] rounds login_round [] login_succeeds

-- The password is shown by a dot more, so the window is marked to be drawn.
dispatch_all-drawn_example :
    IsFresh
      (codes "12:00")
      (draw_frame (codes "12:00") (run (init outside []) []).0)
      (dispatch_all (run (init outside []) []).0 login_round.pending)
dispatch_all-drawn_example = dispatch_all-drawn outside [] [] (codes "12:00") login_round.pending
