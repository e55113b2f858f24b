-- ===== src/Greeter/Login/Verdict.antt =====
-- The greeter and the helper together: what a login comes to.
use mathlib.Core.Path.{ap₂}
use cardputer_zero_os.Base.{
  ℕ, ◌≤◌, ◌≡◌, ◌≢◌, refl, ap, sym, ◌∙◌, inl, inr, true, some, List, [], ◌∷◌, ◌++◌, Bytes, codes,
  append_assoc, append-nil, map, ltb, ltb→lt, ◌==◌, if◌then◌else◌, length, length-append, take,
  drop, take-append-drop, str_eq, All, Bool-cases, Option-cases, arith,
}
use cardputer_zero_os.Accounts.{Passwd}
use cardputer_zero_os.Auth.Capability.{user_is_login_capable}
use cardputer_zero_os.Auth.Request
use cardputer_zero_os.Auth.Request.{read_request}
use cardputer_zero_os.Auth.Request.RoundTrip
use cardputer_zero_os.Auth.Request.RoundTrip.{pieces, IsSendable, read_request-request_text}
use cardputer_zero_os.Auth.Helper.{
  World, Report, exited, helper_main, session_args, authenticate_user,
}
use cardputer_zero_os.Auth.Helper.Outcomes.{IsOutcome, helper_main-IsOutcome, helper_main-ran}
use cardputer_zero_os.Greeter.Login.{
  WriteResult, ReadResult, write_all, trim_line, read_response, judge_child, request_text, Link,
  LoginResult, login_result, authenticate_and_start_session,
}

-- If `write_all` succeeds, the pipe took the whole text, in order.
write_all_lem :
    (text : Bytes) (results : List WriteResult)
    → (write_all text results).0 ≡ true
    → (write_all text results).1 ≡ text
unfolding write_all
write_all_lem [] [] h = refl
write_all_lem [] (WriteResult.wrote n ∷ more) h = refl
write_all_lem [] (WriteResult.interrupted ∷ more) h = write_all_lem [] more h
write_all_lem [] (WriteResult.failed ∷ more) h = refl
write_all_lem (c ∷ s) [] h = cc
write_all_lem (c ∷ s) (WriteResult.wrote n ∷ more) h =
    ap (◌++◌ (take n (c ∷ s))) (write_all_lem (drop n (c ∷ s)) more h) ∙ take-append-drop n (c ∷ s)
write_all_lem (c ∷ s) (WriteResult.interrupted ∷ more) h = write_all_lem (c ∷ s) more h
write_all_lem (c ∷ s) (WriteResult.failed ∷ more) h = cc

read_response-pieces :
    (response : Bytes) (ps : List Bytes)
    → All (λ p. p ≢ []) ps
    → length (response ++ pieces ps) ≤ 512
    → read_response response (map ReadResult.got ps) ≡ response ++ pieces ps
unfolding read_response
read_response-pieces response [] h fits = sym (append-nil response)
read_response-pieces response ([] ∷ ps) (hp, h) fits = absurd (hp refl)
read_response-pieces response ((x ∷ xs) ∷ ps) (hp, h) fits =
    let grown = response ++ x ∷ xs in
    let regroup = append_assoc response (x ∷ xs) (pieces ps) in
    let total : length (grown ++ pieces ps) ≤ 512 = rw regroup fits in
    elim (Bool-cases (ltb 512 (length grown))) [
      | inl over ↦
          absurd
            (omega (arith, length-append grown (pieces ps), ltb→lt 512 (length grown) over, total))
      | inr e ↦ rw e (read_response-pieces grown ps h total ∙ regroup)
    ]

-- The message for a helper's status.
abbrev pub shown : Bytes → Bytes
shown status =
    if str_eq status (codes "OK")
    then codes "SESSION STARTING"
    else if str_eq status (codes "HELPER DENIED")
    then codes "AUTH HELPER FAILED"
    else status

-- What the greeter makes of a helper's exit status and line.
abbrev pub IsJudged : Report → Type 0
IsJudged r =
    (judge_child true (exited r.code) (trim_line (r.status ++ codes "\n"))
      ≡ (r.code == 0, shown r.status))
    × (length r.status ≤ 100)

judged :
    (status : Bytes) (code : ℕ) (r : Report)
    → r.status ≡ status
    → r.code ≡ code
    → (judge_child true (exited code) (trim_line (status ++ codes "\n"))
        ≡ (code == 0, shown status))
    → length status ≤ 100
    → IsJudged r
judged status code r e f h short = rw (e, f) (h, short)

outcome-IsJudged : (r : Report) → IsOutcome r → IsJudged r
unfolding judge_child trim_line str_eq
outcome-IsJudged r (IsOutcome.started e f g) = judged (codes "OK") 0 r e f refl (omega arith)
outcome-IsJudged r (IsOutcome.session_failed e f g) =
    judged (codes "SESSION FAILED") 20 r e f refl (omega arith)
outcome-IsJudged r (IsOutcome.auth_failed e f g) =
    judged (codes "AUTH FAILED") 10 r e f refl (omega arith)
outcome-IsJudged r (IsOutcome.user_invalid e f g) =
    judged (codes "USER INVALID") 10 r e f refl (omega arith)
outcome-IsJudged r (IsOutcome.denied e f g) =
    judged (codes "HELPER DENIED") 30 r e f refl (omega arith)

-- The greeter and one run of the helper over two pipes: all of the request is written, the helper
-- reads it and the greeter reads the helper's line, each in whatever pieces the pipes deliver.
pub record IsConnected (w : World) (link : Link) (username password : Bytes) : Type 0 where
  pub piped : link.pipes ≡ true
  pub request_pieces : List Bytes
  pub response_pieces : List Bytes
  pub full : All (λ p. p ≢ []) request_pieces × All (λ p. p ≢ []) response_pieces
  pub written : (write_all (request_text username password) link.writes).0 ≡ true
  pub received : w.reads ≡ map Request.got request_pieces
  pub delivered : pieces request_pieces ≡ request_text username password
  pub answered : link.reads ≡ map ReadResult.got response_pieces
  pub line : pieces response_pieces ≡ (helper_main w).status ++ codes "\n"
  pub ended : link.child ≡ exited (helper_main w).code

login_steps :
    (u p : Bytes) (link : Link) (code : ℕ)
    → link.child ≡ exited code
    → link.pipes ≡ true
    → (write_all (request_text u p) link.writes).0 ≡ true
    → authenticate_and_start_session u p link
      ≡ login_result
          (judge_child true (exited code) (trim_line (read_response [] link.reads)))
          (write_all (request_text u p) link.writes).1
unfolding authenticate_and_start_session
login_steps u p link code e f h = ground arith

module _ (w : World) (link : Link) (username password : Bytes)
    (c : IsConnected w link username password) where
  response_read : read_response [] link.reads ≡ (helper_main w).status ++ codes "\n"
  response_read =
      let status = (helper_main w).status in
      let short : length (pieces c.response_pieces) ≤ 512 = omega (
        arith,
        ap length c.line,
        length-append status (codes "\n"),
        (outcome-IsJudged (helper_main w) (helper_main-IsOutcome w)).1,
      ) in
      ap (read_response []) c.answered
      ∙ read_response-pieces [] c.response_pieces c.full.1 short
      ∙ c.line

  login_judged :
      authenticate_and_start_session username password link
      ≡ login_result
          ((helper_main w).code == 0, shown (helper_main w).status)
          (request_text username password)
  login_judged =
      login_steps username password link (helper_main w).code c.ended c.piped c.written
      ∙ rw (
        response_read,
        (outcome-IsJudged (helper_main w) (helper_main-IsOutcome w)).0,
        write_all_lem (request_text username password) link.writes c.written,
      )

  -- The greeter reports the session as started exactly if the helper's exit status is 0, and shows the
  -- helper's line, in its own words for success and for a refusal to serve.
  pub login_verdict :
      ((authenticate_and_start_session username password link).started
        ≡ ((helper_main w).code == 0))
      × ((authenticate_and_start_session username password link).message
          ≡ shown (helper_main w).status)
  login_verdict =
      unfold login_result in
      (
        ap (λ (r : LoginResult). r.started) login_judged,
        ap (λ (r : LoginResult). r.message) login_judged,
      )

started-ran : (r : Report) → IsOutcome r → r.code ≡ 0 → (args : List Bytes) × (r.ran ≡ some args)
started-ran r (IsOutcome.started e f g) h = elim (Option-cases r.ran) [
  | inl none_ran ↦ absurd (g none_ran)
  | inr found ↦ found
]
started-ran r (IsOutcome.session_failed e f g) h = absurd (omega arith)
started-ran r (IsOutcome.auth_failed e f g) h = absurd (omega arith)
started-ran r (IsOutcome.user_invalid e f g) h = absurd (omega arith)
started-ran r (IsOutcome.denied e f g) h = absurd (omega arith)

-- The greeter writes the text that the helper's side is stated for.
texts_agree : (u p : Bytes) → request_text u p ≡ RoundTrip.request_text u p
unfolding request_text
texts_agree u p = simp append_assoc

-- If the greeter reports a started session, then PAM accepted the very user name and password that the
-- greeter was given, for an account that may log in, and the helper ran the fixed session command for
-- that account. That is where the pipes connect the greeter with one run of the helper, each reading in
-- whatever pieces all that the other wrote; and for a user name that is not empty and of at most 64
-- bytes, and a password of at most 256, where neither holds a newline and neither ends with a carriage
-- return.
pub login_sound :
    (w : World) (link : Link) (username password : Bytes)
    → IsConnected w link username password
    → IsSendable username password
    → (authenticate_and_start_session username password link).started ≡ true
    → (pw : Passwd) × (w.getpwnam username ≡ some pw)
      × (user_is_login_capable (some pw) ≡ true)
      × (authenticate_user w.pam username password ≡ true)
      × ((helper_main w).ran ≡ some (session_args pw w.time))
login_sound w link username password c v h =
    let success : (helper_main w).code ≡ 0 =
      ground (arith, (login_verdict w link username password c).0) in
    let (args, ran) = started-ran (helper_main w) (helper_main-IsOutcome w) success in
    let (pw, x, fixed) = helper_main-ran w args ran in
    let read : read_request w.reads ≡ some (username, password) =
      ap read_request c.received
      ∙ read_request-request_text username password c.request_pieces v c.full.0
          (c.delivered ∙ texts_agree username password) in
    let same : some (x.username, x.password) ≡ some (username, password) = sym x.request ∙ read in
    let user : x.username ≡ username = cc same in
    let secret : x.password ≡ password = cc same in
    (
      pw,
      ap w.getpwnam (sym user) ∙ x.entry,
      x.capable,
      ap₂ (authenticate_user w.pam) (sym user) (sym secret) ∙ x.authenticated,
      ran ∙ ap some fixed,
    )
