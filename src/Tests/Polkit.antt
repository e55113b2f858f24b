-- ===== src/Tests/Polkit.antt =====
-- polkit-agent/zero-polkit-agent.c: an authentication in which a text is typed.
use cardputer_zero_os.Base.{
  ◌≡◌, ℕ, refl, ◌==◌, true, false, none, some, [], ◌∷◌, ◌++◌, Bytes, codes, List, c_str, str_eq,
}
use cardputer_zero_os.Auth.Request.{ReadResult}
use cardputer_zero_os.Auth.Helper.{exited, wait_failed}
use cardputer_zero_os.Greeter.Screen.{next_buffer}
use cardputer_zero_os.Greeter.Keys.{pop_back}
use cardputer_zero_os.Prompt.Window.{dispatch_all, run}
use cardputer_zero_os.Prompt.Window.Typing.{Types}
use cardputer_zero_os.Prompt.Args.{prompt_main, parse_args}
use cardputer_zero_os.Polkit.Ask.{Shell, prompt_for_response_wayland}
use cardputer_zero_os.Polkit.Ask.Answer.{Runs, IsAnswer, prompt_for_response_lem, IsTyped}
use cardputer_zero_os.Polkit.Identity.{choose_identity, identity_label}
use cardputer_zero_os.Polkit.Memory.{authentication_uses}
use cardputer_zero_os.Polkit.Memory.Counts.{held, nothing}
use cardputer_zero_os.Polkit.Memory.Released.{left, authenticate-held}
use cardputer_zero_os.Polkit.Session.{Effect, Signal, End, handle_all, Call, initiated}
use cardputer_zero_os.Polkit.Session.Typed.{asked_with, handle_all-typed}
use cardputer_zero_os.Tests.Prompt.{first_round, display, first_pending, first_polled}

-- The answer of the prompt in two pieces.
abbrev shell : List Bytes → Shell
shell args = record {
  prompt_env = none;
  wayland = true;
  executable = λ path. true;
  pipe = true;
  reads = ReadResult.got (codes "x") ∷ ReadResult.interrupted ∷ ReadResult.got (codes "\n") ∷ [];
  child = exited 0;
}

abbrev call : Call ℕ
call = record {
  is_current = λ n. n == 1000;
  to_string = λ n. codes "unix-user:ana";
  identities = 0 ∷ 1000 ∷ [];
  action_id = some (codes "org.example.run");
  message = none;
  cancellable = false;
  cancelled = false;
}

abbrev informed : List Signal
informed = Signal.show_info (some (codes "Touch the key")) ∷ Signal.show_error none ∷ []

by_hand : IsTyped display (codes "x")
by_hand = record {
  early_text = [];
  rounds_text = codes "x";
  pending_text = codes "x";
  rounds = first_round ∷ [];
  more = [];
  pending = [];
  polled = [];
  ready = refl;
  spread = refl;
  early_typed = Types.done [];
  rounds_typed = (codes "x", (codes "x", first_pending, first_polled, refl));
  pending_typed = Types.done (codes "x");
  polled_typed = Types.done (codes "x");
}

abbrev asked : List Bytes
asked = asked_with call 1000 informed none false

runs : Runs (shell []) (prompt_main asked display)
unfolding prompt_main run parse_args pop_back dispatch_all str_eq next_buffer identity_label
runs = (refl, refl, refl, refl, (codes "\n", refl, ([], refl, refl)))

prompt_for_response_lem_example :
    IsAnswer (prompt_main asked display) (prompt_for_response_wayland (shell []))
prompt_for_response_lem_example = prompt_for_response_lem asked display (shell []) runs

-- The error that came last is shown, with the source's word for one without a text.
handle_all-typed_example :
    (handle_all
      (initiated call 1000)
      (informed ++ Signal.request none false false shell ∷ [])).effects
    ≡ (handle_all (initiated call 1000) informed).effects
      ++ Effect.run_prompt asked ∷ Effect.session_response (codes "x") ∷ []
handle_all-typed_example =
    handle_all-typed call 1000 informed none false false shell display (codes "x") refl runs by_hand

abbrev cancellable_call : Call ℕ
cancellable_call = record call { cancellable = true }

authenticate-held_example :
    let chosen = choose_identity cancellable_call.is_current cancellable_call.identities in
    held
      (authentication_uses cancellable_call
        (Signal.show_info none ∷ Signal.request none false false shell ∷ [])
        (End.completed true)
        chosen)
      nothing
    ≡ some (
        left cancellable_call
          (Signal.show_info none ∷ Signal.request none false false shell ∷ [])
          (End.completed true)
          chosen)
authenticate-held_example =
    authenticate-held cancellable_call
      (Signal.show_info none ∷ Signal.request none false false shell ∷ []) (End.completed true)

-- Where `waitpid` fails, the status that was set before it reads as success.
wait_failed_accepted :
    prompt_for_response_wayland (record (shell []) { child = wait_failed }) ≡ some (codes "x")
unfolding prompt_for_response_wayland c_str
wait_failed_accepted = refl
