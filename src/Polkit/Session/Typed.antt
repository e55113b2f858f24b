-- ===== src/Polkit/Session/Typed.antt =====
-- What the prompt of a request for a response of polkit-agent/zero-polkit-agent.c is given, and what the
-- session is answered.
use cardputer_zero_os.Base.{
  ◌≡◌, ◌∙◌, refl, sym, ap, subst, Bool, false, ◌&&◌, Option, none, some, List, [], ◌∷◌, ◌++◌, Bytes,
  codes, if◌then◌else◌, if_both,
}
use cardputer_zero_os.Prompt.Args.{Display, prompt_main}
use cardputer_zero_os.Polkit.Ask.{Shell, or_default, prompt_args, prompt_for_response_wayland}
use cardputer_zero_os.Polkit.Ask.Answer.{Runs, IsTyped}
use cardputer_zero_os.Polkit.Identity.{identity_label}
use cardputer_zero_os.Polkit.Session.{
  Effect, AuthRequest, emit, Signal, request_args, answer, on_session_request, handle, handle_all,
  new_request, Call, connect, initiated,
}
use cardputer_zero_os.Polkit.Session.Verdict.{on_session_request-typed}

-- The newest information or error that was signalled, with the source's words for one without a text.
abbrev pub newest : Option Bytes → List Signal → Option Bytes
newest shown [] = shown
newest shown (Signal.request text echo_on is_cancelled shell ∷ ss) = newest shown ss
newest shown (Signal.show_error none ∷ ss) = newest (some (codes "Authentication error")) ss
newest shown (Signal.show_error (some text) ∷ ss) = newest (some text) ss
newest shown (Signal.show_info none ∷ ss) = newest (some []) ss
newest shown (Signal.show_info (some text) ∷ ss) = newest (some text) ss

-- The texts of a request.
abbrev Tells : Bool → Bytes → Bytes → Option Bytes → AuthRequest → Type 0
Tells cancellable message identity_text info auth =
    (auth.cancellable ≡ cancellable)
    × (auth.message ≡ message)
    × (auth.identity_text ≡ identity_text)
    × (auth.info_text ≡ info)

module _ (c : Bool) (m i : Bytes) where
  answer-Tells :
      (o : Option Bytes) (info : Option Bytes) (auth : AuthRequest)
      → Tells c m i info auth
      → Tells c m i info (answer o auth)
  unfolding answer emit
  answer-Tells none info auth t = t
  answer-Tells (some r) info auth t = t

  request-Tells :
      (info : Option Bytes) (auth : AuthRequest) (text : Option Bytes) (echo_on is_cancelled : Bool)
      (shell : List Bytes → Shell)
      → Tells c m i info auth
      → Tells c m i info (on_session_request auth text echo_on is_cancelled shell)
  unfolding on_session_request emit
  request-Tells info auth text echo_on is_cancelled shell t =
      let args = request_args auth text echo_on in
      if_both (Tells c m i info) (auth.cancellable && is_cancelled)
        (emit Effect.session_cancel auth)
        (answer (prompt_for_response_wayland (shell args)) (emit (Effect.run_prompt args) auth)) t
        (answer-Tells (prompt_for_response_wayland (shell args)) info
          (emit (Effect.run_prompt args) auth) t)

  handle_all-Tells :
      (info : Option Bytes) (auth : AuthRequest) (ss : List Signal)
      → Tells c m i info auth
      → Tells c m i (newest info ss) (handle_all auth ss)
  unfolding handle_all handle
  handle_all-Tells info auth [] t = t
  handle_all-Tells info auth (Signal.request text echo_on is_cancelled shell ∷ ss) t =
      handle_all-Tells info (on_session_request auth text echo_on is_cancelled shell) ss
        (request-Tells info auth text echo_on is_cancelled shell t)
  handle_all-Tells info auth (Signal.show_error none ∷ ss) (a, b, d, e) =
      handle_all-Tells _ _ ss (a, b, d, refl)
  handle_all-Tells info auth (Signal.show_error (some text) ∷ ss) (a, b, d, e) =
      handle_all-Tells _ _ ss (a, b, d, refl)
  handle_all-Tells info auth (Signal.show_info none ∷ ss) (a, b, d, e) =
      handle_all-Tells _ _ ss (a, b, d, refl)
  handle_all-Tells info auth (Signal.show_info (some text) ∷ ss) (a, b, d, e) =
      handle_all-Tells _ _ ss (a, b, d, refl)

handle_all-append :
    (auth : AuthRequest) (ss ts : List Signal)
    → handle_all auth (ss ++ ts) ≡ handle_all (handle_all auth ss) ts
unfolding handle_all
handle_all-append auth [] ts = refl
handle_all-append auth (s ∷ ss) ts = handle_all-append (handle auth s) ss ts

module _ {ℓ} {A : Type ℓ} (call : Call A) (identity : A) where
  initiated-Tells :
      Tells call.cancellable
        (or_default call.message (codes "Authentication is required"))
        (identity_label (call.to_string identity))
        none
        (initiated call identity)
  unfolding initiated connect new_request emit
  initiated-Tells =
      let created =
        new_request call.action_id call.message (call.to_string identity) call.cancellable in
      let P =
        Tells call.cancellable (or_default call.message (codes "Authentication is required"))
          (identity_label (call.to_string identity)) none in
      if_both P (created.cancellable && call.cancelled) (emit Effect.session_cancel created) created
        (refl, refl, refl, refl) (refl, refl, refl, refl)

  -- What the prompt is run with, for a request behind some signals.
  abbrev pub asked_with : List Signal → Option Bytes → Bool → List Bytes
  asked_with signals text echo_on =
      codes "--message"
      ∷ or_default call.message (codes "Authentication is required")
      ∷ codes "--identity"
      ∷ identity_label (call.to_string identity)
      ∷ codes "--request"
      ∷ or_default text (codes "Password:")
      ∷ codes "--info"
      ∷ or_default (newest none signals) []
      ∷ (if echo_on then codes "--echo" else codes "--secret")
      ∷ []

  args_told :
      (auth : AuthRequest) (signals : List Signal) (text : Option Bytes) (echo_on : Bool)
      → Tells call.cancellable
          (or_default call.message (codes "Authentication is required"))
          (identity_label (call.to_string identity))
          (newest none signals)
          auth
      → request_args auth text echo_on ≡ asked_with signals text echo_on
  unfolding prompt_args
  args_told auth signals text echo_on (c, m, i, n) = rw (m, i, n) refl

  -- After any signals, a request for a response that is not cancelled runs the prompt with polkit's
  -- message, the chosen identity, the session's question, the newest information or error that the
  -- session signalled, and whether to show the text, and answers the session with the text that someone
  -- typed there before Enter, if the prompt can be run, exits, and its output arrives in whatever
  -- pieces.
  pub handle_all-typed :
      (signals : List Signal) (text : Option Bytes) (echo_on is_cancelled : Bool)
      (shell : List Bytes → Shell) (d : Display) (typed : Bytes)
      → call.cancellable && is_cancelled ≡ false
      → Runs
          (shell (asked_with signals text echo_on))
          (prompt_main (asked_with signals text echo_on) d)
      → IsTyped d typed
      → (handle_all
          (initiated call identity)
          (signals ++ Signal.request text echo_on is_cancelled shell ∷ [])).effects
        ≡ (handle_all (initiated call identity) signals).effects
          ++ Effect.run_prompt (asked_with signals text echo_on)
            ∷ Effect.session_response typed
            ∷ []
  unfolding handle_all handle
  handle_all-typed signals text echo_on is_cancelled shell d typed go runs by_hand =
      let auth = handle_all (initiated call identity) signals in
      let tells =
        handle_all-Tells call.cancellable
          (or_default call.message (codes "Authentication is required"))
          (identity_label (call.to_string identity)) none (initiated call identity) signals
          initiated-Tells in
      let same = args_told auth signals text echo_on tells in
      ap (λ (a : AuthRequest). a.effects)
        (handle_all-append (initiated call identity) signals
          (Signal.request text echo_on is_cancelled shell ∷ []))
      ∙ on_session_request-typed auth text echo_on is_cancelled shell d typed
          (ap (λ b. b && is_cancelled) tells.0 ∙ go)
          (subst (λ a. Runs (shell a) (prompt_main a d)) (sym same) runs) by_hand
      ∙ ap (λ a. auth.effects ++ Effect.run_prompt a ∷ Effect.session_response typed ∷ []) same
