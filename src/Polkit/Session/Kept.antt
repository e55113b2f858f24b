-- ===== src/Polkit/Session/Kept.antt =====
-- The fields of `struct auth_request` of polkit-agent/zero-polkit-agent.c that a request for a response
-- and the start leave as they are.
use cardputer_zero_os.Base.{◌≡◌, refl, Bool, ◌&&◌, Option, none, some, List, Bytes, if_both}
use cardputer_zero_os.Polkit.Ask.{Shell, prompt_for_response_wayland}
use cardputer_zero_os.Polkit.Session.{
  Effect, AuthRequest, emit, request_args, answer, on_session_request, new_request, Call, connect,
  initiated,
}

-- The same cancellable and the same information.
abbrev pub SameFields : Bool → Option Bytes → AuthRequest → Type 0
SameFields cancellable info auth = (auth.cancellable ≡ cancellable) × (auth.info_text ≡ info)

answer-SameFields :
    (o : Option Bytes) (auth : AuthRequest)
    → SameFields auth.cancellable auth.info_text (answer o auth)
unfolding answer emit
answer-SameFields none auth = (refl, refl)
answer-SameFields (some response) auth = (refl, refl)

pub on_session_request-SameFields :
    (auth : AuthRequest) (text : Option Bytes) (echo_on is_cancelled : Bool)
    (shell : List Bytes → Shell)
    → SameFields auth.cancellable auth.info_text
        (on_session_request auth text echo_on is_cancelled shell)
unfolding on_session_request emit
on_session_request-SameFields auth text echo_on is_cancelled shell =
    let args = request_args auth text echo_on in
    if_both (SameFields auth.cancellable auth.info_text) (auth.cancellable && is_cancelled)
      (emit Effect.session_cancel auth)
      (answer (prompt_for_response_wayland (shell args)) (emit (Effect.run_prompt args) auth))
      (refl, refl)
      (answer-SameFields (prompt_for_response_wayland (shell args))
        (emit (Effect.run_prompt args) auth))

pub initiated-SameFields {ℓ} :
    {A : Type ℓ} (call : Call A) (identity : A)
    → SameFields call.cancellable none (initiated call identity)
unfolding initiated connect new_request emit
initiated-SameFields call identity =
    let created =
      new_request call.action_id call.message (call.to_string identity) call.cancellable in
    if_both (SameFields call.cancellable none) (created.cancellable && call.cancelled)
      (emit Effect.session_cancel created) created (refl, refl) (refl, refl)
