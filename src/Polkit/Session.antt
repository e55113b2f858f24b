-- ===== src/Polkit/Session.antt =====
-- The authentication requests of polkit-agent/zero-polkit-agent.c: `initiate_authentication` and the
-- handlers of a session's signals. What is asked of polkit is kept as a list.
pub mod Verdict
pub mod Kept
pub mod Typed
use cardputer_zero_os.Base.{
  ℕ, Bool, true, false, not, ◌&&◌, Option, none, some, List, [], ◌∷◌, ◌++◌, Bytes, codes,
  if◌then◌else◌,
}
use cardputer_zero_os.Polkit.Ask.{Shell, or_default, prompt_args, prompt_for_response_wayland}
use cardputer_zero_os.Polkit.Identity.{choose_identity, identity_label}

-- `g_task_return_boolean` with TRUE and `g_task_return_new_error`, and the calls on a session.
pub data Effect : Type 0 where
  task_granted task_failed : Effect
  session_initiate session_cancel : Effect
  session_response : Bytes → Effect
  run_prompt : List Bytes → Effect

-- The fields of `struct auth_request` that the handlers read, and what was asked of polkit so far,
-- oldest first.
pub record AuthRequest : Type 0 where
  pub cancellable : Bool
  pub action_id : Bytes
  pub message : Bytes
  pub identity_text : Bytes
  pub info_text : Option Bytes
  pub effects : List Effect

unfoldable pub emit : Effect → AuthRequest → AuthRequest
emit effect auth = record auth { effects = auth.effects ++ effect ∷ [] }

-- The signals of a session before its last. A request comes with whether the GCancellable was cancelled
-- before, and with what surrounds the prompt, given its arguments.
pub data Signal : Type 0 where
  request : Option Bytes → Bool → Bool → (List Bytes → Shell) → Signal
  show_error : Option Bytes → Signal
  show_info : Option Bytes → Signal

-- How a session ends, if it does: it is completed, also where `on_session_request` cancelled it, or its
-- GCancellable is cancelled, whose handler calls `polkit_agent_session_cancel`, and in that call the
-- session is completed. With whether the authorization was gained.
pub data End : Type 0 where
  unfinished : End
  completed cancelled : Bool → End

answer : Option Bytes → AuthRequest → AuthRequest
unfolding emit
answer none auth = emit Effect.session_cancel auth
answer (some response) auth = emit (Effect.session_response response) auth

-- The command line of the prompt.
abbrev pub request_args : AuthRequest → Option Bytes → Bool → List Bytes
request_args auth text echo_on =
    prompt_args (some auth.message) (some auth.identity_text)
      (some (or_default text (codes "Password:"))) auth.info_text echo_on

unfoldable pub on_session_request :
    AuthRequest → Option Bytes → Bool → Bool → (List Bytes → Shell) → AuthRequest
unfolding emit answer
on_session_request auth text echo_on is_cancelled shell =
    let args = request_args auth text echo_on in
    if auth.cancellable && is_cancelled
    then emit Effect.session_cancel auth
    else answer (prompt_for_response_wayland (shell args)) (emit (Effect.run_prompt args) auth)

unfoldable pub handle : AuthRequest → Signal → AuthRequest
unfolding on_session_request emit
handle auth (Signal.request text echo_on is_cancelled shell) =
    on_session_request auth text echo_on is_cancelled shell
handle auth (Signal.show_error text) = record auth {
  info_text = some (or_default text (codes "Authentication error"));
}
handle auth (Signal.show_info text) = record auth { info_text = some (or_default text []) }

unfoldable pub handle_all : AuthRequest → List Signal → AuthRequest
unfolding handle
handle_all auth [] = auth
handle_all auth (signal ∷ signals) = handle_all (handle auth signal) signals

-- `on_session_completed`, which frees the request; what is left are its effects.
unfoldable pub on_session_completed : AuthRequest → Bool → List Effect
unfolding emit
on_session_completed auth gained_authorization =
    if gained_authorization
    then (emit Effect.task_granted auth).effects
    else (emit Effect.task_failed auth).effects

-- `on_auth_cancelled` with what the session does in the call of `polkit_agent_session_cancel`.
unfoldable pub on_auth_cancelled : AuthRequest → Bool → List Effect
unfolding emit on_session_completed
on_auth_cancelled auth gained_authorization =
    on_session_completed (emit Effect.session_cancel auth) gained_authorization

-- The end of a session; the handler of the GCancellable is there if it is `connected`.
unfoldable pub end_session : AuthRequest → Bool → End → List Effect
unfolding on_session_completed on_auth_cancelled
end_session auth connected End.unfinished = auth.effects
end_session auth connected (End.completed gained) = on_session_completed auth gained
end_session auth connected (End.cancelled gained) =
    if connected then on_auth_cancelled auth gained else auth.effects

-- The request that `initiate_authentication` builds around an identity.
unfoldable pub new_request : Option Bytes → Option Bytes → Bytes → Bool → AuthRequest
unfolding identity_label
new_request action_id message identity has_cancellable = record {
  cancellable = has_cancellable;
  action_id = or_default action_id [];
  message = or_default message (codes "Authentication is required");
  identity_text = identity_label identity;
  info_text = none;
  effects = [];
}

-- A call of the agent by polkit. `to_string` is `polkit_identity_to_string`, `is_current` the comparison
-- with the user that runs the agent.
pub record Call {ℓ} (A : Type ℓ) : Type ℓ where
  pub is_current : A → Bool
  pub to_string : A → Bytes
  pub identities : List A
  pub action_id : Option Bytes
  pub message : Option Bytes
  pub cancellable : Bool
  pub cancelled : Bool

-- `g_cancellable_connect` calls the handler at once where the operation was cancelled before.
connect : Bool → AuthRequest → AuthRequest
unfolding emit
connect is_cancelled auth =
    if auth.cancellable && is_cancelled then emit Effect.session_cancel auth else auth

-- The request as the session is initiated, with the identity that was chosen.
unfoldable pub initiated {ℓ} : {A : Type ℓ} → Call A → A → AuthRequest
unfolding new_request connect emit
initiated call identity =
    let created =
      new_request call.action_id call.message (call.to_string identity) call.cancellable in
    emit Effect.session_initiate (connect call.cancelled created)

-- Whether `cancel_handler` is set: there is a GCancellable, which was not cancelled before.
abbrev pub is_connected {ℓ} : {A : Type ℓ} → Call A → Bool
is_connected call = call.cancellable && not call.cancelled

-- With the identity that was chosen: the signals of the session that is initiated, and its end.
unfoldable pub authenticate_as {ℓ} :
    {A : Type ℓ} → Call A → List Signal → End → Option A → List Effect
unfolding initiated handle_all end_session
authenticate_as call signals end none = Effect.task_failed ∷ []
authenticate_as call signals end (some identity) =
    end_session (handle_all (initiated call identity) signals) (is_connected call) end

unfoldable pub authenticate {ℓ} : {A : Type ℓ} → Call A → List Signal → End → List Effect
unfolding choose_identity authenticate_as
authenticate call signals end =
    authenticate_as call signals end (choose_identity call.is_current call.identities)
