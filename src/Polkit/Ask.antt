-- ===== src/Polkit/Ask.antt =====
-- `prompt_for_response_wayland` of polkit-agent/zero-polkit-agent.c. The environment, the pipe and the
-- child process are given.
pub mod Answer
use cardputer_zero_os.Base.{
  ℕ, ◌+◌, ◌-◌, Bool, true, false, not, ◌&&◌, ◌||◌, Option, none, some, List, [], ◌∷◌, ◌++◌, Bytes,
  codes, leb, ◌==◌, if◌then◌else◌, is_empty, length, take, c_str,
}
use cardputer_zero_os.Auth.Request.{ReadResult}
use cardputer_zero_os.Auth.Helper.{Child, fork_failed, wait_failed, killed, exited}

-- What surrounds a prompt: `getenv` of the path and whether WAYLAND_DISPLAY is set, `access`, whether
-- `pipe` works, what `read` returns on it (the list's end is the end of the file), and the child.
pub record Shell : Type 0 where
  pub prompt_env : Option Bytes
  pub wayland : Bool
  pub executable : Bytes → Bool
  pub pipe : Bool
  pub reads : List ReadResult
  pub child : Child

unfoldable pub prompt_path : Option Bytes → Bytes
prompt_path none = codes "/usr/local/bin/zero-polkit-prompt-wayland"
prompt_path (some path) =
    if is_empty path then codes "/usr/local/bin/zero-polkit-prompt-wayland" else path

abbrev pub or_default : Option Bytes → Bytes → Bytes
or_default none otherwise = otherwise
or_default (some text) otherwise = text

-- The arguments of `execl` after the program's own name.
unfoldable pub prompt_args :
    Option Bytes → Option Bytes → Option Bytes → Option Bytes → Bool → List Bytes
prompt_args message identity request info echo =
    codes "--message"
    ∷ or_default message (codes "Authentication is required")
    ∷ codes "--identity"
    ∷ or_default identity []
    ∷ codes "--request"
    ∷ or_default request (codes "Password:")
    ∷ codes "--info"
    ∷ or_default info []
    ∷ (if echo then codes "--echo" else codes "--secret")
    ∷ []

-- `sizeof(output)`
abbrev pub capacity : ℕ
capacity = 256 + 8

-- The reading loop, with what `output` holds; a `read` gives no more than it is asked for.
unfoldable pub read_output : Bytes → List ReadResult → Bytes
read_output output [] = output
read_output output (ReadResult.interrupted ∷ more) = read_output output more
read_output output (ReadResult.failed ∷ more) = output
read_output output (ReadResult.got [] ∷ more) = output
read_output output (ReadResult.got (x ∷ xs) ∷ more) =
    let grown = output ++ take (capacity - length output - 1) (x ∷ xs) in
    let rest = read_output grown more in if leb capacity (length grown + 1) then grown else rest

-- The loop that takes '\n' and '\r' from the back.
unfoldable pub strip_line_end : Bytes → Bytes
strip_line_end [] = []
strip_line_end (c ∷ s) =
    let rest = strip_line_end s in if is_empty rest && (c == 10 || c == 13) then [] else c ∷ rest

-- The exit status that the tests after `waitpid` see; none where the child was killed. `status` stays 0
-- where `waitpid` fails.
unfoldable pub exit_status : Child → Option ℕ
exit_status fork_failed = none
exit_status wait_failed = some 0
exit_status killed = none
exit_status (exited status) = some status

unfoldable pub response_of : Option ℕ → Bytes → Option Bytes
unfolding strip_line_end c_str
response_of none output = none
response_of (some status) output =
    if status == 0 then some (c_str (strip_line_end output)) else none

-- The response, or none where NULL is returned.
unfoldable pub prompt_for_response_wayland : Shell → Option Bytes
unfolding prompt_path exit_status read_output response_of
prompt_for_response_wayland sh =
    if not sh.wayland || not (sh.executable (prompt_path sh.prompt_env))
    then none
    else if not sh.pipe
    then none
    else response_of (exit_status sh.child) (read_output [] sh.reads)
