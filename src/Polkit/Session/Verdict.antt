-- ===== src/Polkit/Session/Verdict.antt =====
-- What an authentication of polkit-agent/zero-polkit-agent.c comes to.
use cardputer_zero_os.Base.{
  ◌≡◌, Bool, true, false, ◌&&◌, Option, none, some, List, [], ◌∷◌, ◌++◌, append_assoc, Bytes, codes,
  if◌then◌else◌,
}
use cardputer_zero_os.Prompt.Args.{Display, prompt_main}
use cardputer_zero_os.Polkit.Ask.{Shell, or_default}
use cardputer_zero_os.Polkit.Ask.Answer.{Runs, IsTyped, prompt_for_response-typed}
use cardputer_zero_os.Polkit.Session.{
  Effect, AuthRequest, emit, End, request_args, answer, on_session_request,
}

-- The results that a task was given, oldest first.
unfoldable pub results : List Effect → List Bool
results [] = []
results (Effect.task_granted ∷ es) = true ∷ results es
results (Effect.task_failed ∷ es) = false ∷ results es
results (Effect.session_initiate ∷ es) = results es
results (Effect.session_cancel ∷ es) = results es
results (Effect.session_response r ∷ es) = results es
results (Effect.run_prompt args ∷ es) = results es

-- Nothing was told to the task yet.
abbrev IsPending : AuthRequest → Type 0
IsPending auth = results auth.effects ≡ []

-- How the session was completed, if it was.
abbrev pub outcome : Bool → End → Option Bool
outcome connected End.unfinished = none
outcome connected (End.completed gained) = some gained
outcome connected (End.cancelled gained) = if connected then some gained else none

-- What a task is told in the end: that the authorization was granted, or an error.
abbrev pub verdict {ℓ} : {A : Type ℓ} → List A → Option Bool → List Bool
verdict [] completed = false ∷ []
verdict (i ∷ is) none = []
verdict (i ∷ is) (some gained) = gained ∷ []

-- A request for a response runs the prompt with the texts of `auth`, and answers the session with the
-- text that someone typed there.
pub on_session_request-typed :
    (auth : AuthRequest) (text : Option Bytes) (echo_on is_cancelled : Bool)
    (shell : List Bytes → Shell) (d : Display) (typed : Bytes)
    → auth.cancellable && is_cancelled ≡ false
    → Runs (shell (request_args auth text echo_on)) (prompt_main (request_args auth text echo_on) d)
    → IsTyped d typed
    → (on_session_request auth text echo_on is_cancelled shell).effects
      ≡ auth.effects
        ++ Effect.run_prompt (request_args auth text echo_on) ∷ Effect.session_response typed ∷ []
unfolding on_session_request answer emit
on_session_request-typed auth text echo_on is_cancelled shell d typed go runs by_hand =
    let answered =
      prompt_for_response-typed (some auth.message) (some auth.identity_text)
        (some (or_default text (codes "Password:"))) auth.info_text echo_on d
        (shell (request_args auth text echo_on)) typed runs by_hand in
    rw (go, answered)
      (append_assoc auth.effects (Effect.run_prompt (request_args auth text echo_on) ∷ [])
        (Effect.session_response typed ∷ []))
