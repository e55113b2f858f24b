-- ===== src/Auth/Capability.antt =====
-- Who may call the helper and who may log in: `shell_is_login_capable`, `user_is_login_capable` and
-- `caller_is_allowed` of greeter/zero-greeter-auth.cpp.
use cardputer_zero_os.Base.{
  ℕ, Bool, true, false, not, ◌&&◌, ◌||◌, Option, none, some, [], ◌∷◌, Bytes, codes, ltb, leb, ◌==◌,
  if◌then◌else◌, str_eq, starts_with, contains,
}
use cardputer_zero_os.Accounts.{Passwd}

unfoldable pub shell_is_login_capable : Option Bytes → Bool
shell_is_login_capable none = true
shell_is_login_capable (some []) = true
shell_is_login_capable (some (c ∷ s)) =
    not (contains (c ∷ s) (codes "nologin")) && not (contains (c ∷ s) (codes "false"))

-- The tests behind the null checks.
unfoldable pub named_user_is_login_capable : Passwd → Bytes → Bool
named_user_is_login_capable pw dir =
    if ltb pw.pw_uid 1000 || leb 60000 pw.pw_uid
    then false
    else if not (starts_with dir (codes "/home/"))
    then false
    else shell_is_login_capable pw.pw_shell

unfoldable pub no_null_fields : Passwd → Option Bytes → Option Bytes → Bool
unfolding named_user_is_login_capable
no_null_fields pw (some name) (some dir) = named_user_is_login_capable pw dir
no_null_fields pw _ _ = false

unfoldable pub user_is_login_capable : Option Passwd → Bool
unfolding no_null_fields
user_is_login_capable none = false
user_is_login_capable (some pw) = no_null_fields pw pw.pw_name pw.pw_dir

is_greetd : Option Bytes → Bool
is_greetd none = false
is_greetd (some name) = str_eq name (codes "_greetd")

-- `geteuid()`, `getuid()` and `getpwuid(getuid())`.
pub record Caller : Type 0 where
  pub euid : ℕ
  pub uid : ℕ
  pub entry : Option Passwd

has_greetd_entry : Option Passwd → Bool
unfolding is_greetd
has_greetd_entry none = false
has_greetd_entry (some pw) = is_greetd pw.pw_name

unfoldable pub caller_is_allowed : Caller → Bool
unfolding has_greetd_entry
caller_is_allowed c =
    if not (c.euid == 0) then false else if c.uid == 0 then true else has_greetd_entry c.entry
