-- ===== src/Polkit/Memory.antt =====
-- What polkit-agent/zero-polkit-agent.c allocates, refers to and opens during an authentication, and when
-- it lets go of it: `auth_request_free`, `prompt_for_response_wayland`, the handlers and
-- `initiate_authentication`, as the uses of their resources in order.
pub mod Counts
pub mod Released
use cardputer_zero_os.Base.{
  Bool, true, false, not, ◌&&◌, ◌||◌, Option, none, some, List, [], ◌∷◌, ◌++◌, Bytes, if◌then◌else◌,
  Use, when_set,
}
use cardputer_zero_os.Polkit.Ask.{Shell, prompt_path, prompt_for_response_wayland}
use cardputer_zero_os.Polkit.Identity.{choose_identity}
use cardputer_zero_os.Polkit.Session.{
  AuthRequest, Signal, End, request_args, handle, handle_all, Call, initiated,
}

-- References to objects, the connection to `cancelled`, allocated texts, `struct auth_request`, and
-- descriptors.
pub data Resource : Type 0 where
  task session cancellable handler identity text request descriptor : Resource

abbrev pub Uses : Type 0
Uses = List (Use Resource)

abbrev pub is_some {ℓ} : {A : Type ℓ} → Option A → Bool
is_some none = false
is_some (some a) = true

-- Both ends of the pipe are closed whether or not `fork` works; the response is a copy of the output.
unfoldable pub prompt_uses : Shell → Uses
unfolding prompt_for_response_wayland prompt_path
prompt_uses sh =
    if not sh.wayland || not (sh.executable (prompt_path sh.prompt_env))
    then []
    else if not sh.pipe
    then []
    else Use.acquire Resource.descriptor
      ∷ Use.acquire Resource.descriptor
      ∷ Use.release Resource.descriptor
      ∷ Use.release Resource.descriptor
      ∷ when_set (is_some (prompt_for_response_wayland sh)) (Use.acquire Resource.text)

-- The response is freed once it is sent.
unfoldable pub request_uses : AuthRequest → Bool → Shell → Uses
unfolding prompt_uses
request_uses auth is_cancelled shell =
    if auth.cancellable && is_cancelled
    then []
    else prompt_uses shell
      ++ when_set (is_some (prompt_for_response_wayland shell)) (Use.release Resource.text)

-- The old information, if any, and the new one.
unfoldable pub replace_info : AuthRequest → Uses
replace_info auth =
    when_set (is_some auth.info_text) (Use.release Resource.text) ++ Use.acquire Resource.text ∷ []

unfoldable pub signal_uses : AuthRequest → Signal → Uses
unfolding request_uses replace_info
signal_uses auth (Signal.request asked echo_on is_cancelled shell) =
    request_uses auth is_cancelled (shell (request_args auth asked echo_on))
signal_uses auth (Signal.show_error error) = replace_info auth
signal_uses auth (Signal.show_info info) = replace_info auth

unfoldable pub signals_uses : AuthRequest → List Signal → Uses
unfolding signal_uses handle
signals_uses auth [] = []
signals_uses auth (signal ∷ signals) =
    signal_uses auth signal ++ signals_uses (handle auth signal) signals

-- With whether `cancel_handler` is not 0.
unfoldable pub auth_request_free : AuthRequest → Bool → Uses
auth_request_free auth connected =
    when_set (auth.cancellable && connected) (Use.release Resource.handler)
    ++ (when_set auth.cancellable (Use.release Resource.cancellable)
        ++ (Use.release Resource.session
            ∷ Use.release Resource.task
            ∷ Use.release Resource.text
            ∷ Use.release Resource.text
            ∷ Use.release Resource.text
            ∷ (when_set (is_some auth.info_text) (Use.release Resource.text)
                ++ Use.release Resource.request ∷ [])))

-- The task, the chosen identity, `auth` with its texts and what `identity_label` makes on the way, the
-- session, and the cancellable, whose handler is not connected where it was cancelled before.
unfoldable pub request_created : Bool → Bool → Uses
request_created has_cancellable is_cancelled =
    Use.acquire Resource.task
    ∷ Use.acquire Resource.identity
    ∷ Use.acquire Resource.request
    ∷ Use.acquire Resource.text
    ∷ Use.acquire Resource.text
    ∷ Use.acquire Resource.text
    ∷ Use.acquire Resource.text
    ∷ Use.release Resource.text
    ∷ Use.acquire Resource.session
    ∷ (when_set has_cancellable (Use.acquire Resource.cancellable)
        ++ (when_set (has_cancellable && not is_cancelled) (Use.acquire Resource.handler)
            ++ Use.release Resource.identity ∷ []))

-- The end of a session. `g_cancellable_disconnect`, within the handler that it takes away, waits for
-- that handler to return, as GLib documents: where the session is completed in the handler of its
-- GCancellable, `auth_request_free` gets no further than its first call.
unfoldable pub end_uses : AuthRequest → Bool → End → Uses
unfolding auth_request_free
end_uses auth connected End.unfinished = []
end_uses auth connected (End.completed gained) = auth_request_free auth connected
end_uses auth connected (End.cancelled gained) = []

unfoldable pub authentication_uses {ℓ} : {A : Type ℓ} → Call A → List Signal → End → Option A → Uses
unfolding request_created signals_uses handle_all end_uses initiated
authentication_uses call signals end none =
    Use.acquire Resource.task ∷ Use.release Resource.task ∷ []
authentication_uses call signals end (some chosen) =
    let auth = initiated call chosen in
    request_created call.cancellable call.cancelled
    ++ (signals_uses auth signals ++ end_uses (handle_all auth signals) (not call.cancelled) end)
