-- ===== src/Polkit/Memory/Released.antt =====
-- That polkit-agent/zero-polkit-agent.c lets go of what an authentication acquired, once each.
use mathlib.Core.Path.{ap₂}
use cardputer_zero_os.Base.{
  ◌≡◌, ◌∙◌, refl, sym, Bool, true, false, not, ◌&&◌, ◌||◌, Option, none, some, List, [], ◌∷◌, ◌++◌,
  Bytes, if◌then◌else◌, if_both, Use, when_set, held_by, held_by-more,
}
use cardputer_zero_os.Polkit.Ask.{
  Shell, prompt_path, prompt_for_response_wayland, response_of, exit_status, read_output,
}
use cardputer_zero_os.Polkit.Identity.{choose_identity}
use cardputer_zero_os.Polkit.Session.{
  AuthRequest, Signal, End, request_args, handle, handle_all, Call, initiated,
}
use cardputer_zero_os.Polkit.Session.Kept.{on_session_request-SameFields, initiated-SameFields}
use cardputer_zero_os.Polkit.Memory.{
  Resource, is_some, prompt_uses, request_uses, replace_info, signal_uses, signals_uses,
  auth_request_free, end_uses, request_created, authentication_uses,
}
use cardputer_zero_os.Polkit.Memory.Counts.{Counts, ledger, held, nothing, running, held_of}

-- A prompt closes its pipe, and its response is freed.
prompt_uses-held :
    (sh : Shell) (c : Counts)
    → held
        (prompt_uses sh
          ++ when_set (is_some (prompt_for_response_wayland sh)) (Use.release Resource.text))
        c
      ≡ some c
unfolding prompt_uses prompt_for_response_wayland held_by
prompt_uses-held sh c =
    by_test (not sh.wayland || not (sh.executable (prompt_path sh.prompt_env))) (not sh.pipe)
      (response_of (exit_status sh.child) (read_output [] sh.reads))
  where
    by_test :
        (unavailable no_pipe : Bool) (r : Option Bytes)
        → (let response = if unavailable then none else if no_pipe then none else r in
            held
              ((if unavailable
                  then []
                  else if no_pipe
                  then []
                  else Use.acquire Resource.descriptor
                    ∷ Use.acquire Resource.descriptor
                    ∷ Use.release Resource.descriptor
                    ∷ Use.release Resource.descriptor
                    ∷ when_set (is_some response) (Use.acquire Resource.text))
                ++ when_set (is_some response) (Use.release Resource.text))
              c)
          ≡ some c
    by_test true n r = refl
    by_test false true r = refl
    by_test false false none = refl
    by_test false false (some r) = refl

request_uses-held :
    (auth : AuthRequest) (is_cancelled : Bool) (sh : Shell) (c : Counts)
    → held (request_uses auth is_cancelled sh) c ≡ some c
unfolding request_uses held_by
request_uses-held auth is_cancelled sh c =
    if_both (λ uses. held uses c ≡ some c) (auth.cancellable && is_cancelled) []
      (prompt_uses sh
        ++ when_set (is_some (prompt_for_response_wayland sh)) (Use.release Resource.text))
      refl (prompt_uses-held sh c)

-- There is one information afterwards.
replace_info-held :
    (auth : AuthRequest) (connected : Bool)
    → held (replace_info auth) (held_of auth connected)
      ≡ some (running auth.cancellable connected true)
unfolding replace_info held_by
replace_info-held auth connected = by_info auth.info_text
  where
    by_info :
        (info : Option Bytes)
        → held
            (when_set (is_some info) (Use.release Resource.text) ++ Use.acquire Resource.text ∷ [])
            (running auth.cancellable connected (is_some info))
          ≡ some (running auth.cancellable connected true)
    by_info none = refl
    by_info (some text) = refl

signal_uses-held :
    (auth : AuthRequest) (connected : Bool) (signal : Signal)
    → held (signal_uses auth signal) (held_of auth connected)
      ≡ some (held_of (handle auth signal) connected)
unfolding signal_uses handle held_by
signal_uses-held auth connected (Signal.request asked echo_on is_cancelled shell) =
    let (c, i) = on_session_request-SameFields auth asked echo_on is_cancelled shell in
    request_uses-held auth is_cancelled (shell (request_args auth asked echo_on))
      (held_of auth connected)
    ∙ sym (ap₂ (λ b o. some (running b connected (is_some o))) c i)
signal_uses-held auth connected (Signal.show_error error) = replace_info-held auth connected
signal_uses-held auth connected (Signal.show_info info) = replace_info-held auth connected

signals_uses-held :
    (auth : AuthRequest) (connected : Bool) (signals : List Signal)
    → held (signals_uses auth signals) (held_of auth connected)
      ≡ some (held_of (handle_all auth signals) connected)
unfolding signals_uses handle_all held_by
signals_uses-held auth connected [] = refl
signals_uses-held auth connected (signal ∷ signals) =
    held_by-more ledger (signal_uses auth signal) (signals_uses (handle auth signal) signals)
      (held_of auth connected) (held_of (handle auth signal) connected) _
      (signal_uses-held auth connected signal)
      (signals_uses-held (handle auth signal) connected signals)

auth_request_free-held :
    (auth : AuthRequest) (connected : Bool)
    → held (auth_request_free auth connected) (held_of auth connected) ≡ some nothing
unfolding auth_request_free held_by
auth_request_free-held auth connected = by_fields auth.cancellable connected auth.info_text
  where
    by_fields :
        (cancellable connected : Bool) (info : Option Bytes)
        → held
            (auth_request_free
              (record auth { cancellable = cancellable; info_text = info })
              connected)
            (running cancellable connected (is_some info))
          ≡ some nothing
    by_fields true true none = refl
    by_fields true true (some text) = refl
    by_fields true false none = refl
    by_fields true false (some text) = refl
    by_fields false connected none = refl
    by_fields false connected (some text) = refl

request_created-held :
    (has_cancellable is_cancelled : Bool)
    → held (request_created has_cancellable is_cancelled) nothing
      ≡ some (running has_cancellable (not is_cancelled) false)
unfolding request_created held_by
request_created-held true true = refl
request_created-held true false = refl
request_created-held false c = refl

-- What is held in the end: nothing once the session was completed, and what the running request refers
-- to before that; and still all of that where the session was completed within the handler of its
-- GCancellable.
abbrev pub left {ℓ} : {A : Type ℓ} → Call A → List Signal → End → Option A → Counts
left call signals end none = nothing
left call signals (End.completed gained) (some chosen) = nothing
left call signals End.unfinished (some chosen) =
    held_of (handle_all (initiated call chosen) signals) (not call.cancelled)
left call signals (End.cancelled gained) (some chosen) =
    held_of (handle_all (initiated call chosen) signals) (not call.cancelled)

started-held {ℓ} :
    {A : Type ℓ} (call : Call A) (signals : List Signal) (chosen : A)
    → held
        (signals_uses (initiated call chosen) signals)
        (running call.cancellable (not call.cancelled) false)
      ≡ some (held_of (handle_all (initiated call chosen) signals) (not call.cancelled))
started-held call signals chosen =
    let (c, i) = initiated-SameFields call chosen in
    ap₂
      (λ b o.
        held (signals_uses (initiated call chosen) signals)
          (running b (not call.cancelled) (is_some o)))
      (sym c) (sym i)
    ∙ signals_uses-held (initiated call chosen) (not call.cancelled) signals

end_uses-held {ℓ} :
    {A : Type ℓ} (call : Call A) (signals : List Signal) (end : End) (chosen : A)
    → let auth = handle_all (initiated call chosen) signals in
      held (end_uses auth (not call.cancelled) end) (held_of auth (not call.cancelled))
      ≡ some (left call signals end (some chosen))
unfolding end_uses held_by
end_uses-held call signals End.unfinished chosen = refl
end_uses-held call signals (End.completed gained) chosen =
    auth_request_free-held (handle_all (initiated call chosen) signals) (not call.cancelled)
end_uses-held call signals (End.cancelled gained) chosen = refl

authentication_uses-held {ℓ} :
    {A : Type ℓ} (call : Call A) (signals : List Signal) (end : End) (chosen : Option A)
    → held (authentication_uses call signals end chosen) nothing
      ≡ some (left call signals end chosen)
unfolding authentication_uses held_by
authentication_uses-held call signals end none = refl
authentication_uses-held call signals end (some chosen) =
    let auth = handle_all (initiated call chosen) signals in
    let last = end_uses auth (not call.cancelled) end in
    held_by-more ledger (request_created call.cancellable call.cancelled)
      (signals_uses (initiated call chosen) signals ++ last) nothing
      (running call.cancellable (not call.cancelled) false) _
      (request_created-held call.cancellable call.cancelled)
      (held_by-more ledger (signals_uses (initiated call chosen) signals) last
        (running call.cancellable (not call.cancelled) false) (held_of auth (not call.cancelled)) _
        (started-held call signals chosen) (end_uses-held call signals end chosen))

-- Whatever identities are offered, the session signals and the prompts answer: nothing is released that
-- is not held. Once the session is completed, other than within the handler of its GCancellable, every
-- reference, text and descriptor of the authentication was released, and so it is where no identity was
-- offered. While the session runs, what is held is its request, with as many texts as it points to, its
-- session, its task, and its cancellable with the handler, if there is one. A session that is completed
-- within that handler leaves all of that held, since taking the handler away does not return there.
pub authenticate-held {ℓ} :
    {A : Type ℓ} (call : Call A) (signals : List Signal) (end : End)
    → let chosen = choose_identity call.is_current call.identities in
      held (authentication_uses call signals end chosen) nothing
      ≡ some (left call signals end chosen)
authenticate-held call signals end =
    authentication_uses-held call signals end (choose_identity call.is_current call.identities)
