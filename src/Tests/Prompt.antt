-- ===== src/Tests/Prompt.antt =====
-- polkit-agent/zero-polkit-prompt-wayland.cpp: a text that is typed, and what is written.
use cardputer_zero_os.Base.{◌≡◌, refl, true, [], ◌∷◌, codes, arith}
use cardputer_zero_os.Greeter.Screen.{Keysym}
use cardputer_zero_os.Greeter.Keys.{pop_back}
use cardputer_zero_os.Prompt.Window.{Event, Round, dispatch_all, run_loop, run, finish}
use cardputer_zero_os.Prompt.Window.Typing.{press, enter, Types, run-typed}
use cardputer_zero_os.Prompt.Window.Alike.{AlikeEvent, AlikeEvents, AlikeRounds}
use cardputer_zero_os.Prompt.Window.Discretion.{run_loop-commits}
use cardputer_zero_os.Prompt.Args.{new_prompt, Display}

abbrev pub letter_x : Event
letter_x = press (Keysym.other 120) (codes "x")

abbrev letter_y : Event
letter_y = press (Keysym.other 121) (codes "y")

abbrev pub back : Event
back = press Keysym.backspace (8 ∷ [])

-- "x", then "y" and backspace.
abbrev pub first_round : Round
first_round = record {
  pending = Event.surface_configure ∷ letter_x ∷ [];
  polled = letter_y ∷ back ∷ [];
}

abbrev pub last_round : Round
last_round = record { pending = []; polled = enter ∷ [] }

abbrev pub display : Display
display = record { ready = true; early = []; rounds = first_round ∷ last_round ∷ [] }

pub first_pending : Types first_round.pending [] (codes "x")
first_pending =
    Types.configured (letter_x ∷ []) [] (codes "x")
      (Types.letter 120 120 [] [] (codes "x") refl (omega arith) (Types.done (codes "x")))

pub first_polled : Types first_round.polled (codes "x") (codes "x")
unfolding pop_back
first_polled =
    Types.letter 121 121 (back ∷ []) (codes "x") (codes "x") refl (omega arith)
      (Types.rub [] (codes "xy") (codes "x") (Types.done (codes "x")))

run-typed_example : run new_prompt (first_round ∷ last_round ∷ []) ≡ (0, codes "x\n")
run-typed_example =
    run-typed new_prompt (first_round ∷ []) [] [] (codes "x") (codes "x") (codes "x") [] []
      (refl, refl) (codes "x", (codes "x", first_pending, first_polled, refl))
      (Types.done (codes "x")) (Types.done (codes "x"))

abbrev other_round : Round
other_round = record {
  pending = Event.surface_configure ∷ letter_y ∷ [];
  polled = letter_x ∷ back ∷ [];
}

run_loop-commits_example :
    (run_loop new_prompt (first_round ∷ last_round ∷ [])).commits
    ≡ (run_loop new_prompt (other_round ∷ last_round ∷ [])).commits
run_loop-commits_example = run_loop-commits new_prompt refl (
    AlikeRounds.next first_round other_round (last_round ∷ []) (last_round ∷ [])
      (AlikeEvents.event _ _ _ _ (AlikeEvent.same Event.surface_configure) (
        AlikeEvents.event _ _ _ _ (AlikeEvent.letters 120 121 120 121 refl refl)
          AlikeEvents.nothing))
      (AlikeEvents.event _ _ _ _ (AlikeEvent.letters 121 120 121 120 refl refl)
        (AlikeEvents.event _ _ _ _ (AlikeEvent.same back) AlikeEvents.nothing))
      (AlikeRounds.next last_round last_round [] [] AlikeEvents.nothing
        (AlikeEvents.event _ _ _ _ (AlikeEvent.same enter) AlikeEvents.nothing)
        AlikeRounds.nothing))

-- A backspace that comes in one batch with Enter, behind it, still changes the text that was accepted.
late_backspace :
    finish (dispatch_all new_prompt (letter_x ∷ letter_y ∷ enter ∷ back ∷ [])) ≡ (0, codes "x\n")
unfolding finish dispatch_all pop_back
late_backspace = refl
