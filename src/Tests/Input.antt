-- ===== src/Tests/Input.antt =====
-- polkit-agent/zero-polkit-prompt-wayland.cpp as a process: a keymap comes, shift is held for one key of
-- two, and Enter; and a screen that is drawn again once a buffer is free.
use cardputer_zero_os.Base.{
  held_by, ℕ, ◌≡◌, refl, true, false, [], ◌∷◌, List, Bytes, codes, str_eq, ◌==◌, if◌then◌else◌,
}
use cardputer_zero_os.Setup.{Keymap, Answers}
use cardputer_zero_os.Setup.Input.{Xkb, Signal}
use cardputer_zero_os.Greeter.Screen.{Keysym, next_buffer}
use cardputer_zero_os.Greeter.Keys.{pop_back}
use cardputer_zero_os.Prompt.Window.{dispatch_all, render, render_dirty, run_loop}
use cardputer_zero_os.Prompt.Window.Fresh.{IsShown, run_loop-IsShown}
use cardputer_zero_os.Prompt.Args.{new_prompt, prompt_main}
use cardputer_zero_os.Prompt.Input.{Round, Outside, main}
use cardputer_zero_os.Prompt.Input.Refines.{display, main-prompt_main}
use cardputer_zero_os.Prompt.Input.Held.{IsLeft, main-IsLeft}
use cardputer_zero_os.Prompt.Input.Silent.{IsSilent, main-IsSilent}
use cardputer_zero_os.Tests.Prompt.{first_round, letter_x}

-- A keyboard of two keys whose state is the mask of shift.
abbrev two_keys : Xkb ℕ
two_keys = record {
  state_new = λ text. 0;
  update_mask = λ s depressed latched locked group. depressed;
  key_get_one_sym = λ s code. if code == 36 then Keysym.return else Keysym.other code;
  key_get_utf8 =
      λ s code. if code == 36 then codes "\r" else if s == 0 then codes "a" else codes "A";
}

abbrev us_layout : Keymap
us_layout = record {
  format = 1;
  text = codes "us";
  maps = true;
  compiles = true;
  makes_state = true;
}

abbrev memfd_only : Answers
memfd_only = record {
  memfd = true;
  memfd_sized = true;
  shm = false;
  shm_sized = false;
  mmap = true;
}

-- The first key comes before the keymap, and is lost.
abbrev shift_round : Round
shift_round = record {
  pending = Signal.configure 7 ∷ Signal.key 30 1 ∷ Signal.keymap_sent us_layout ∷ [];
  polled =
      Signal.modifiers 1 0 0 0
      ∷ Signal.key 30 1
      ∷ Signal.modifiers 0 0 0 0
      ∷ Signal.key 30 0
      ∷ Signal.key 30 1
      ∷ Signal.ping 8
      ∷ Signal.key 28 1
      ∷ [];
}

abbrev outside : Outside
outside = record {
  connected = true;
  early =
      Signal.global (codes "wl_compositor")
      ∷ Signal.global (codes "wl_shm")
      ∷ Signal.global (codes "xdg_wm_base")
      ∷ Signal.global (codes "wl_seat")
      ∷ Signal.capabilities 3
      ∷ [];
  first = memfd_only;
  second = memfd_only;
  rounds = shift_round ∷ [];
}

abbrev args : List Bytes
args = codes "--secret" ∷ []

main_shifted : (main two_keys args outside).0 ≡ (0, codes "Aa\n")
unfolding main str_eq render next_buffer
main_shifted = refl

main-prompt_main_example :
    (main two_keys args outside).0 ≡ prompt_main args (display two_keys outside)
main-prompt_main_example = main-prompt_main two_keys args outside

main-IsLeft_example : IsLeft (main two_keys args outside)
unfolding held_by
main-IsLeft_example = main-IsLeft two_keys args outside

run_loop-IsShown_example :
    IsShown (render_dirty (dispatch_all (run_loop new_prompt (first_round ∷ [])) (letter_x ∷ [])))
unfolding dispatch_all run_loop next_buffer pop_back
run_loop-IsShown_example =
    run_loop-IsShown new_prompt (first_round ∷ []) (letter_x ∷ []) refl refl (λ e. cc)

-- A keymap that does not compile, and Enter before and behind it.
abbrev mute_round : Round
mute_round = record {
  pending = Signal.configure 7 ∷ Signal.key 28 1 ∷ [];
  polled =
      Signal.keymap_sent (record us_layout { compiles = false })
      ∷ Signal.key 28 1
      ∷ Signal.close
      ∷ [];
}

main-IsSilent_example :
    IsSilent (main two_keys args (record outside { rounds = mute_round ∷ [] })).0
main-IsSilent_example =
    main-IsSilent two_keys args (record outside { rounds = mute_round ∷ [] })
      (tt, (tt, (tt, (tt, (tt, tt))))) (((tt, (tt, tt)), (refl, (tt, (tt, tt)))), tt)
