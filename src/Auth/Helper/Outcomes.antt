-- ===== src/Auth/Helper/Outcomes.antt =====
-- What a run of the helper can come to.
use cardputer_zero_os.Base.{
  ◌≡◌, ◌≢◌, refl, ap, sym, ◌∙◌, inl, inr, ◌⊎◌, true, false, not, Option, none, some, List, Bytes,
  codes, if_both, Bool-cases, arith,
}
use cardputer_zero_os.Accounts.{Passwd}
use cardputer_zero_os.Auth.Capability.{user_is_login_capable, caller_is_allowed}
use cardputer_zero_os.Auth.Request.{read_request}
use cardputer_zero_os.Auth.Helper.{
  authenticate_user, run_and_wait, session_args, World, Report, report, start_session, log_in,
  on_request, helper_main,
}

-- The helper got as far as starting a session for this entry.
pub record IsAuthorized (w : World) (pw : Passwd) : Type 0 where
  pub allowed : caller_is_allowed w.caller ≡ true
  pub as_root : w.set_ids ≡ true
  pub username : Bytes
  pub password : Bytes
  pub request : read_request w.reads ≡ some (username, password)
  pub entry : w.getpwnam username ≡ some pw
  pub capable : user_is_login_capable (some pw) ≡ true
  pub authenticated : authenticate_user w.pam username password ≡ true

start_session-ran :
    (w : World) (pw : Passwd) → (start_session w pw).ran ≡ some (session_args pw w.time)
unfolding start_session
start_session-ran w pw = ground arith

-- A login stops with a status and runs nothing, or starts the session of a capable, authenticated
-- user.
log_in_cases :
    (w : World) (u p : Bytes) (pw : Passwd)
    → ((log_in w u p (some pw)).ran ≡ none)
      ⊎ ((user_is_login_capable (some pw) ≡ true)
          × (authenticate_user w.pam u p ≡ true)
          × (log_in w u p (some pw) ≡ start_session w pw))
log_in_cases w u p pw = elim (Bool-cases (user_is_login_capable (some pw))) [
  | inr e ↦ inl (refused e)
  | inl e ↦ elim (Bool-cases (authenticate_user w.pam u p)) [
    | inr f ↦ inl (denied e f)
    | inl f ↦ inr (e, f, started e f)
  ]
]
  where
    refused : user_is_login_capable (some pw) ≡ false → (log_in w u p (some pw)).ran ≡ none
    refused e = unfold log_in in rw e refl

    denied :
        user_is_login_capable (some pw) ≡ true
        → authenticate_user w.pam u p ≡ false
        → (log_in w u p (some pw)).ran ≡ none
    denied e f = unfold log_in in rw (e, f) refl

    started :
        user_is_login_capable (some pw) ≡ true
        → authenticate_user w.pam u p ≡ true
        → log_in w u p (some pw) ≡ start_session w pw
    started e f = unfold log_in in rw (e, f) refl

log_in-ran :
    (w : World) (u p : Bytes) (o : Option Passwd) (args : List Bytes)
    → (log_in w u p o).ran ≡ some args
    → (pw : Passwd) × (o ≡ some pw)
      × (user_is_login_capable (some pw) ≡ true)
      × (authenticate_user w.pam u p ≡ true)
      × (args ≡ session_args pw w.time)
log_in-ran w u p none args h = absurd (unfold log_in report in cc)
log_in-ran w u p (some pw) args h = elim (log_in_cases w u p pw) [
  | inl e ↦ absurd (cc (e, h))
  | inr (capable, authentic, e) ↦
      let ran : some args ≡ some (session_args pw w.time) =
        sym h ∙ ap (λ (r : Report). r.ran) e ∙ start_session-ran w pw in
      (pw, refl, capable, authentic, cc ran)
]

on_request-ran :
    (w : World) (o : Option (Bytes × Bytes)) (args : List Bytes)
    → (on_request w o).ran ≡ some args
    → (u : Bytes) × (p : Bytes) × (o ≡ some (u, p))
      × ((log_in w u p (w.getpwnam u)).ran ≡ some args)
unfolding on_request
on_request-ran w none args h = absurd (cc)
on_request-ran w (some (u, p)) args h = (u, p, refl, h)

on_request-IsAuthorized :
    (w : World) (args : List Bytes)
    → caller_is_allowed w.caller ≡ true
    → w.set_ids ≡ true
    → (on_request w (read_request w.reads)).ran ≡ some args
    → (pw : Passwd) × IsAuthorized w pw × (args ≡ session_args pw w.time)
on_request-IsAuthorized w args e f h =
    let (u, p, request, ran) = on_request-ran w (read_request w.reads) args h in
    let (pw, entry, capable, authentic, fixed) = log_in-ran w u p (w.getpwnam u) args ran in
    (
      pw,
      record {
        allowed = e;
        as_root = f;
        username = u;
        password = p;
        request = request;
        entry = entry;
        capable = capable;
        authenticated = authentic;
      },
      fixed,
    )

-- A command is run only for an allowed caller with a readable request, for the entry of the requested
-- user, if that user may log in and PAM accepted the password; and then it is the fixed session
-- command for that entry.
pub helper_main-ran :
    (w : World) (args : List Bytes)
    → (helper_main w).ran ≡ some args
    → (pw : Passwd) × IsAuthorized w pw × (args ≡ session_args pw w.time)
unfolding helper_main
helper_main-ran w args h = elim (Bool-cases (caller_is_allowed w.caller)) [
  | inr e ↦ absurd (cc (rw e at h))
  | inl e ↦ elim (Bool-cases w.set_ids) [
    | inr f ↦ absurd (cc (rw (e, f) at h))
    | inl f ↦ on_request-IsAuthorized w args e f (rw (e, f) at h)
  ]
]

-- The five ways in which a run ends, with the exit status and whether a command was run.
pub data IsOutcome (r : Report) : Type 0 where
  started : r.status ≡ codes "OK" → r.code ≡ 0 → r.ran ≢ none → IsOutcome r
  session_failed : r.status ≡ codes "SESSION FAILED" → r.code ≡ 20 → r.ran ≢ none → IsOutcome r
  auth_failed : r.status ≡ codes "AUTH FAILED" → r.code ≡ 10 → r.ran ≡ none → IsOutcome r
  user_invalid : r.status ≡ codes "USER INVALID" → r.code ≡ 10 → r.ran ≡ none → IsOutcome r
  denied : r.status ≡ codes "HELPER DENIED" → r.code ≡ 30 → r.ran ≡ none → IsOutcome r

start_session-IsOutcome : (w : World) (pw : Passwd) → IsOutcome (start_session w pw)
unfolding start_session
start_session-IsOutcome w pw =
    if_both IsOutcome (run_and_wait (w.child (session_args pw w.time))) _ _
      (IsOutcome.started refl refl (λ e. cc)) (IsOutcome.session_failed refl refl (λ e. cc))

log_in-IsOutcome : (w : World) (u p : Bytes) (o : Option Passwd) → IsOutcome (log_in w u p o)
unfolding log_in
log_in-IsOutcome w u p none = IsOutcome.user_invalid refl refl refl
log_in-IsOutcome w u p (some pw) =
    if_both IsOutcome (not (user_is_login_capable (some pw))) _ _
      (IsOutcome.user_invalid refl refl refl)
      (if_both IsOutcome (not (authenticate_user w.pam u p)) _ _
        (IsOutcome.auth_failed refl refl refl) (start_session-IsOutcome w pw))

on_request-IsOutcome : (w : World) (o : Option (Bytes × Bytes)) → IsOutcome (on_request w o)
unfolding on_request
on_request-IsOutcome w none = IsOutcome.denied refl refl refl
on_request-IsOutcome w (some (u, p)) = log_in-IsOutcome w u p (w.getpwnam u)

-- Every run ends in one of the five ways.
pub helper_main-IsOutcome : (w : World) → IsOutcome (helper_main w)
unfolding helper_main
helper_main-IsOutcome w =
    if_both IsOutcome (not (caller_is_allowed w.caller)) _ _ (IsOutcome.denied refl refl refl) (
      if_both IsOutcome (not w.set_ids) _ _ (IsOutcome.denied refl refl refl)
        (on_request-IsOutcome w (read_request w.reads)))
