-- ===== src/Greeter/Users.antt =====
-- `load_users` of greeter/zero-greeter-wayland.cpp, beside `user_is_login_capable` of the helper.
-- `getpwent` is a list of entries.
use cardputer_zero_os.Base.{
  ℕ, ◌≡◌, ◌≢◌, refl, Bool, true, not, ◌&&◌, ◌||◌, Option, none, some, List, [], ◌∷◌, Bytes, codes,
  ltb, leb, map, keep, if◌then◌else◌, starts_with, contains, All, arith,
}
use cardputer_zero_os.Accounts.{Passwd}
use cardputer_zero_os.Auth.Capability
use cardputer_zero_os.Auth.Capability.{
  user_is_login_capable, no_null_fields, named_user_is_login_capable,
}

pub record UserEntry : Type 0 where
  pub name : Bytes
  pub uid : ℕ

unfoldable pub shell_is_login_capable : Option Bytes → Bool
shell_is_login_capable none = true
shell_is_login_capable (some []) = true
shell_is_login_capable (some (c ∷ s)) =
    not (contains (c ∷ s) (codes "nologin")) && not (contains (c ∷ s) (codes "false"))

-- `pw->pw_dir == nullptr || std::strncmp(pw->pw_dir, "/home/", 6) != 0`
outside_home : Option Bytes → Bool
outside_home none = true
outside_home (some dir) = not (starts_with dir (codes "/home/"))

-- The three tests under which the loop goes on to the next entry.
unfoldable pub is_skipped : Passwd → Bool
unfolding outside_home
is_skipped pw =
    (ltb pw.pw_uid 1000 || leb 60000 pw.pw_uid)
    || outside_home pw.pw_dir
    || not (shell_is_login_capable pw.pw_shell)

-- `getpwent` sets the name.
pub name_of : Option Bytes → Bytes
name_of none = []
name_of (some name) = name

unfoldable pub load_users : List Passwd → List UserEntry
unfolding is_skipped name_of
load_users [] = []
load_users (pw ∷ entries) =
    let users = load_users entries in
    if is_skipped pw then users else record { name = name_of pw.pw_name; uid = pw.pw_uid } ∷ users

pub entry_of : Passwd → UserEntry
entry_of pw = record { name = name_of pw.pw_name; uid = pw.pw_uid }

shells_agree : (s : Option Bytes) → shell_is_login_capable s ≡ Capability.shell_is_login_capable s
unfolding shell_is_login_capable Capability.shell_is_login_capable
shells_agree none = refl
shells_agree (some []) = refl
shells_agree (some (c ∷ s)) = refl

fields_agree :
    (pw : Passwd) (name dir : Option Bytes)
    → name ≢ none
    → no_null_fields pw name dir
      ≡ not (
          (ltb pw.pw_uid 1000 || leb 60000 pw.pw_uid)
          || outside_home dir
          || not (shell_is_login_capable pw.pw_shell))
unfolding no_null_fields outside_home
fields_agree pw none dir h = absurd (h refl)
fields_agree pw (some name) none h = ground arith
fields_agree pw (some name) (some dir) h = ground (arith, shells_agree pw.pw_shell)

skips_agree :
    (pw : Passwd) → pw.pw_name ≢ none → user_is_login_capable (some pw) ≡ not (is_skipped pw)
unfolding user_is_login_capable is_skipped
skips_agree pw h = fields_agree pw pw.pw_name pw.pw_dir h

-- The greeter lists, in order, exactly the accounts that the helper would let log in, if every entry
-- of the database has a name.
pub load_users-keep :
    (entries : List Passwd)
    → All (λ pw. pw.pw_name ≢ none) entries
    → load_users entries ≡ map entry_of (keep (λ pw. user_is_login_capable (some pw)) entries)
unfolding load_users entry_of
load_users-keep [] h = refl
load_users-keep (pw ∷ entries) (hp, h) =
    ground (arith, skips_agree pw hp, load_users-keep entries h)
