-- ===== src/Greeter/Login.antt =====
-- `write_all`, `trim_line` and `authenticate_and_start_session` of greeter/zero-greeter-wayland.cpp.
-- What the pipes and the child process do is given; a list of results ends with the end of the file,
-- and for `write` with an error.
pub mod Verdict
use cardputer_zero_os.Base.{
  ℕ, zero, suc, ◌+◌, ◌<◌, Bool, true, false, not, ◌&&◌, ◌||◌, Option, none, some, List, [], ◌∷◌,
  ◌++◌, Bytes, codes, ltb, leb, ◌==◌, if◌then◌else◌, is_empty, length, take, drop, str_eq,
}
use cardputer_zero_os.Auth.Helper.{Child, fork_failed, wait_failed, killed, exited}

pub data WriteResult : Type 0 where
  wrote : ℕ → WriteResult
  interrupted failed : WriteResult

abbrev add_sent : Bytes → Bool × Bytes → Bool × Bytes
add_sent before (ok, sent) = (ok, before ++ sent)

-- Whether all was written, and the bytes that the pipe took. With nothing left no `write` is made.
unfoldable pub write_all : Bytes → List WriteResult → Bool × Bytes
write_all text [] = (is_empty text, [])
write_all text (WriteResult.wrote n ∷ more) =
    let rest = write_all (drop n text) more in
    if is_empty text then (true, []) else add_sent (take n text) rest
write_all text (WriteResult.interrupted ∷ more) = write_all text more
write_all text (WriteResult.failed ∷ more) = (is_empty text, [])

-- `'\n'`, `'\r'`, `' '` and `'\t'`
abbrev pub is_blank : ℕ → Bool
is_blank c = c == 10 || c == 13 || c == 0x20 || c == 9

-- The loop that pops blanks from the back.
unfoldable pub trim_back : Bytes → Bytes
trim_back [] = []
trim_back (c ∷ s) = let rest = trim_back s in if is_empty rest && is_blank c then [] else c ∷ rest

unfoldable pub trim_front : Bytes → Bytes
trim_front [] = []
trim_front (c ∷ s) = if is_blank c then trim_front s else c ∷ s

unfoldable pub trim_line : Bytes → Bytes
unfolding trim_back trim_front
trim_line text = trim_front (trim_back text)

pub data ReadResult : Type 0 where
  got : Bytes → ReadResult
  interrupted failed : ReadResult

-- The response so far, and what it grows to: at most 512 bytes.
unfoldable pub read_response : Bytes → List ReadResult → Bytes
read_response response [] = response
read_response response (ReadResult.got [] ∷ more) = response
read_response response (ReadResult.interrupted ∷ more) = read_response response more
read_response response (ReadResult.failed ∷ more) = response
read_response response (ReadResult.got (x ∷ xs) ∷ more) =
    let rest = read_response (response ++ x ∷ xs) more in
    if ltb 512 (length (response ++ x ∷ xs)) then take 512 (response ++ x ∷ xs) else rest

unfoldable pub helper_failed : Bool × Bytes
helper_failed = (false, codes "AUTH HELPER FAILED")

is_known_response : Bytes → Bool
is_known_response response =
    str_eq response (codes "AUTH FAILED")
    || str_eq response (codes "PAM ERROR")
    || str_eq response (codes "SESSION FAILED")
    || str_eq response (codes "USER INVALID")

-- The tests after `waitpid`, on the exit status and the trimmed response.
judge : ℕ → Bytes → Bool × Bytes
unfolding helper_failed is_known_response
judge status response =
    if status == 0
    then (true, codes "SESSION STARTING")
    else if is_known_response response
    then (false, response)
    else if status == 10
    then (false, codes "AUTH FAILED")
    else if status == 20
    then (false, codes "SESSION FAILED")
    else helper_failed

unfoldable pub judge_child : Bool → Child → Bytes → Bool × Bytes
unfolding judge
judge_child sent fork_failed response = helper_failed
judge_child sent wait_failed response = helper_failed
judge_child sent killed response = helper_failed
judge_child sent (exited status) response =
    if not sent then helper_failed else judge status response

unfoldable pub request_text : Bytes → Bytes → Bytes
request_text username password = username ++ codes "\n" ++ password ++ codes "\n"

-- What happens outside the process during a login.
pub record Link : Type 0 where
  pub pipes : Bool
  pub writes : List WriteResult
  pub reads : List ReadResult
  pub child : Child

-- Whether the session was started, the message, and the bytes that the helper was sent.
pub record LoginResult : Type 0 where
  pub started : Bool
  pub message : Bytes
  pub sent : Bytes

unfoldable pub login_result : Bool × Bytes → Bytes → LoginResult
login_result (started, message) sent = record { started = started; message = message; sent = sent }

-- The helper is not run without its pipes or its process.
unfoldable pub authenticate_and_start_session : Bytes → Bytes → Link → LoginResult
authenticate_and_start_session username password link = elim link.child [
  | fork_failed ↦ login_result helper_failed []
  | _ ↦
      if not link.pipes
      then login_result helper_failed []
      else (let (sent, bytes) = write_all (request_text username password) link.writes in
          login_result (judge_child sent link.child (trim_line (read_response [] link.reads)))
            bytes)
]
