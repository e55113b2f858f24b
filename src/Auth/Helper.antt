-- ===== src/Auth/Helper.antt =====
-- `authenticate_user`, `run_and_wait`, `start_user_session` and `main` of
-- greeter/zero-greeter-auth.cpp. The account database, PAM, the clock and the child process are given.
pub mod Outcomes
use Prim.Native.String.{String}
use cardputer_zero_os.Base.{
  ℕ, Bool, true, false, not, ◌&&◌, ◌||◌, Option, none, some, List, [], ◌∷◌, ◌++◌, Bytes, codes,
  ◌==◌, if◌then◌else◌, to_string, map,
}
use cardputer_zero_os.Accounts.{Passwd}
use cardputer_zero_os.Auth.Capability.{user_is_login_capable, Caller, caller_is_allowed}
use cardputer_zero_os.Auth.Request.{ReadResult, read_request}

-- How PAM answers for a user name and a password: whether `pam_start`, `pam_authenticate` and
-- `pam_acct_mgmt` return PAM_SUCCESS.
pub record Pam : Type 0 where
  pub start : Bytes → Bytes → Bool
  pub authenticate : Bytes → Bytes → Bool
  pub acct_mgmt : Bytes → Bytes → Bool

unfoldable pub authenticate_user : Pam → Bytes → Bytes → Bool
authenticate_user pam username password =
    if not (pam.start username password)
    then false
    else if pam.authenticate username password
    then pam.acct_mgmt username password
    else false

-- What `fork` and `waitpid` report of a child; EINTR of `waitpid` is waited through.
pub data Child : Type 0 where
  fork_failed wait_failed killed : Child
  exited : ℕ → Child

unfoldable pub run_and_wait : Child → Bool
run_and_wait (Child.exited status) = status == 0
run_and_wait _ = false

pub or_none : Option Bytes → Bytes
or_none none = []
or_none (some s) = s

session_settings : List Bytes
session_settings =
    codes "--setenv=XDG_SEAT=seat-cardputer-zero"
    ∷ codes "--setenv=XDG_SESSION_CLASS=user"
    ∷ codes "--setenv=XDG_SESSION_TYPE=wayland"
    ∷ codes "--setenv=XDG_CURRENT_DESKTOP=CardputerZero"
    ∷ codes "--setenv=XDG_SESSION_DESKTOP=CardputerZero"
    ∷ codes "--setenv=DESKTOP_SESSION=cardputer-zero-labwc"
    ∷ codes "--setenv=CARDPUTER_ZERO_SESSION=1"
    ∷ codes "--setenv=WLR_BACKENDS=drm,libinput"
    ∷ codes "--setenv=WLR_DRM_DEVICES=/dev/dri/cardputer-zero-internal"
    ∷ codes "--setenv=WLR_RENDERER=pixman"
    ∷ codes "--setenv=XCURSOR_THEME=cardputer-zero-empty"
    ∷ codes "--setenv=XCURSOR_SIZE=1"
    ∷ codes "--setenv=XKB_DEFAULT_RULES=cardputerzero"
    ∷ codes "--setenv=XKB_DEFAULT_MODEL=pc105"
    ∷ codes "--setenv=XKB_DEFAULT_LAYOUT=cardputerzero"
    ∷ codes "--setenv=XKB_DEFAULT_VARIANT="
    ∷ codes "--setenv=XKB_DEFAULT_OPTIONS="
    ∷ []

session_unit : ℕ → ℕ → Bytes
session_unit uid timestamp =
    codes "cardputer-zero-session-" ++ (to_string uid ++ b'-' ∷ to_string timestamp)

-- The command line of `start_user_session`.
unfoldable pub session_args : Passwd → ℕ → List Bytes
unfolding session_settings session_unit or_none
session_args pw timestamp =
    codes "/usr/bin/systemd-run"
    ∷ (codes "--unit=" ++ session_unit pw.pw_uid timestamp)
    ∷ codes "--description=Cardputer Zero internal user session"
    ∷ codes "--collect"
    ∷ (codes "--property=User=" ++ or_none pw.pw_name)
    ∷ codes "--property=PAMName=cardputer-zero-session"
    ∷ (codes "--working-directory=" ++ or_none pw.pw_dir)
    ∷ (session_settings
        ++ codes "/bin/sh"
          ∷ codes "-c"
          ∷ codes "sleep 0.35; exec /usr/local/bin/cardputer-zero-session"
          ∷ [])

-- What surrounds one run of the helper. `set_ids` is whether `setgid(0)` and `setuid(0)` succeed,
-- `getpwnam` the account database, `child` what a command line comes to.
pub record World : Type 0 where
  pub caller : Caller
  pub set_ids : Bool
  pub reads : List ReadResult
  pub getpwnam : Bytes → Option Passwd
  pub pam : Pam
  pub time : ℕ
  pub child : List Bytes → Child

-- What the helper prints, its exit status, and the command that it ran.
pub record Report : Type 0 where
  pub status : Bytes
  pub code : ℕ
  pub ran : Option (List Bytes)

report : Bytes → ℕ → Report
report status code = record { status = status; code = code; ran = none }

start_session : World → Passwd → Report
unfolding session_args
start_session w pw =
    let args = session_args pw w.time in
    if run_and_wait (w.child args)
    then record { status = codes "OK"; code = 0; ran = some args }
    else record { status = codes "SESSION FAILED"; code = 20; ran = some args }

-- `user_is_login_capable(pw)` is false for no entry, so the session has one.
log_in : World → Bytes → Bytes → Option Passwd → Report
unfolding report start_session
log_in w username password none = report (codes "USER INVALID") 10
log_in w username password (some pw) =
    if not (user_is_login_capable (some pw))
    then report (codes "USER INVALID") 10
    else if not (authenticate_user w.pam username password)
    then report (codes "AUTH FAILED") 10
    else start_session w pw

on_request : World → Option (Bytes × Bytes) → Report
unfolding log_in
on_request w none = report (codes "HELPER DENIED") 30
on_request w (some (username, password)) = log_in w username password (w.getpwnam username)

unfoldable pub helper_main : World → Report
unfolding on_request
helper_main w =
    if not (caller_is_allowed w.caller)
    then report (codes "HELPER DENIED") 30
    else if not w.set_ids
    then report (codes "HELPER DENIED") 30
    else on_request w (read_request w.reads)
