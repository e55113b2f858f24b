-- ===== src/Tests/Greeter.antt =====
-- greeter/zero-greeter-wayland.cpp: the account list, keys on the login screen, and a login with the
-- helper.
use cardputer_zero_os.Base.{
  ◌≡◌, refl, true, false, some, [], ◌∷◌, codes, map, keep, str_eq, starts_with, contains, find_cut,
  strip_cr,
}
use cardputer_zero_os.Accounts.{Passwd}
use cardputer_zero_os.Auth.Capability
use cardputer_zero_os.Auth.Capability.{user_is_login_capable, caller_is_allowed}
use cardputer_zero_os.Auth.Request.{read_request}
use cardputer_zero_os.Auth.Helper.{
  exited, run_and_wait, helper_main, session_args, authenticate_user,
}
use cardputer_zero_os.Greeter.Users
use cardputer_zero_os.Greeter.Users.{UserEntry, load_users, entry_of, load_users-keep}
use cardputer_zero_os.Greeter.Login.{
  WriteResult, ReadResult, write_all, request_text, Link, authenticate_and_start_session,
  read_response, trim_line, judge_child, login_result,
}
use cardputer_zero_os.Greeter.Login.Verdict.{IsConnected, login_sound}
use cardputer_zero_os.Greeter.Screen.{UiMode, Greeter, Outside, Keysym, prompt}
use cardputer_zero_os.Greeter.Keys.{keyboard_key}
use cardputer_zero_os.Greeter.Keys.Requests.{press, IsRequest, keyboard_key-IsRequest}
use cardputer_zero_os.Greeter.Text.{display_ascii, fit_text}
use cardputer_zero_os.Tests.Auth.{ana, backup, world, sendable}

load_users-keep_example :
    load_users (ana ∷ backup ∷ [])
    ≡ map entry_of (keep (λ pw. user_is_login_capable (some pw)) (ana ∷ backup ∷ []))
load_users-keep_example = load_users-keep (ana ∷ backup ∷ []) ((λ p. cc), ((λ p. cc), tt))

one_user : load_users (backup ∷ ana ∷ []) ≡ record { name = codes "ana"; uid = 1000 } ∷ []
unfolding load_users starts_with contains Users.shell_is_login_capable
one_user = refl

abbrev pub greeter : Greeter
greeter = record {
  buffers = false ∷ false ∷ [];
  configured = true;
  running = true;
  session_started = false;
  dirty = true;
  mode = UiMode.login;
  users = record { name = codes "ana"; uid = 1000 } ∷ record { name = codes "bo"; uid = 1001 } ∷ [];
  selected = 1;
  menu_selected = 0;
  power_selection = 2;
  password = codes "pw";
  message = prompt;
  error = false;
  actions = [];
}

abbrev outside : Outside
outside = record { load_users = []; log_in = λ u p. (false, codes "AUTH FAILED") }

keyboard_key-IsRequest_example :
    IsRequest greeter Keysym.return (keyboard_key outside greeter (press Keysym.return []))
keyboard_key-IsRequest_example = keyboard_key-IsRequest outside greeter (press Keysym.return [])

abbrev link : Link
link = record {
  pipes = true;
  writes = WriteResult.wrote 3 ∷ WriteResult.interrupted ∷ WriteResult.wrote 4 ∷ [];
  reads = ReadResult.got (codes "OK\n") ∷ [];
  child = exited 0;
}

connected : IsConnected world link (codes "ana") (codes "pw")
unfolding write_all request_text helper_main caller_is_allowed str_eq read_request find_cut strip_cr
    user_is_login_capable starts_with Capability.shell_is_login_capable contains authenticate_user
    run_and_wait
connected = record {
  piped = refl;
  request_pieces = codes "an" ∷ codes "a\npw\n" ∷ [];
  response_pieces = codes "OK\n" ∷ [];
  full = (((λ p. cc), ((λ p. cc), tt)), ((λ p. cc), tt));
  written = refl;
  received = refl;
  delivered = refl;
  answered = refl;
  line = refl;
  ended = refl;
}

login_sound_example :
    (pw : Passwd) × (world.getpwnam (codes "ana") ≡ some pw)
    × (user_is_login_capable (some pw) ≡ true)
    × (authenticate_user world.pam (codes "ana") (codes "pw") ≡ true)
    × ((helper_main world).ran ≡ some (session_args pw world.time))
unfolding authenticate_and_start_session write_all request_text read_response trim_line judge_child
    login_result
login_sound_example = login_sound world link (codes "ana") (codes "pw") connected sendable refl

label_cut : fit_text (codes "auth_failed: try again") 8 ≡ codes "AUTH FA."
unfolding fit_text display_ascii
label_cut = refl
