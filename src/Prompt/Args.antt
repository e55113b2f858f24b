-- ===== src/Prompt/Args.antt =====
-- `main` of polkit-agent/zero-polkit-prompt-wayland.cpp: the command line, and the exit status.
pub mod Options
use cardputer_zero_os.Base.{
  ℕ, Bool, true, false, Option, none, some, List, [], ◌∷◌, Bytes, codes, if◌then◌else◌, str_eq,
}
use cardputer_zero_os.Prompt.Frame.{PromptWindow}
use cardputer_zero_os.Prompt.Window.{Event, dispatch_all, Round, run}

-- The fields' initial values.
abbrev pub new_prompt : PromptWindow
new_prompt = record {
  message = codes "Authentication is required";
  identity = [];
  request = codes "Password:";
  info = [];
  echo = false;
  buffers = false ∷ false ∷ [];
  configured = false;
  running = true;
  accepted = false;
  dirty = true;
  secret = [];
  commits = [];
}

-- `arg` is one of the options that take a value.
abbrev pub takes_value : Bytes → Bool
takes_value arg =
    if str_eq arg (codes "--message")
    then true
    else if str_eq arg (codes "--identity")
    then true
    else if str_eq arg (codes "--request")
    then true
    else str_eq arg (codes "--info")

-- An option and the value that `next_value` stores.
unfoldable pub set_value : PromptWindow → Bytes → Bytes → PromptWindow
set_value w arg value =
    if str_eq arg (codes "--message")
    then record w { message = value }
    else if str_eq arg (codes "--identity")
    then record w { identity = value }
    else if str_eq arg (codes "--request")
    then record w { request = value }
    else record w { info = value }

unfoldable pub set_flag : PromptWindow → Bytes → Option PromptWindow
set_flag w arg =
    if str_eq arg (codes "--echo")
    then some (record w { echo = true })
    else if str_eq arg (codes "--secret")
    then some (record w { echo = false })
    else none

pub or_usage : Option PromptWindow → (PromptWindow → Option PromptWindow) → Option PromptWindow
or_usage none f = none
or_usage (some w) f = f w

-- The loop over the arguments; none is the usage message and the exit status 2.
unfoldable pub parse_args : PromptWindow → List Bytes → Option PromptWindow
unfolding set_value set_flag or_usage
parse_args w [] = some w
parse_args w (arg ∷ []) = if takes_value arg then none else set_flag w arg
parse_args w (arg ∷ value ∷ args) =
    let valued = parse_args (set_value w arg value) args in
    let flagged = or_usage (set_flag w arg) (λ v. parse_args v (value ∷ args)) in
    if takes_value arg then valued else flagged

-- What happens outside: whether `init` succeeds, the events of its round trips, and the rounds after it.
pub record Display : Type 0 where
  pub ready : Bool
  pub early : List Event
  pub rounds : List Round

unfoldable pub start : Display → Option PromptWindow → ℕ × Bytes
unfolding dispatch_all run
start d none = (2, [])
start d (some w) = if d.ready then run (dispatch_all w d.early) d.rounds else (1, [])

-- `argv` without the program's name.
unfoldable pub prompt_main : List Bytes → Display → ℕ × Bytes
unfolding parse_args start
prompt_main args d = start d (parse_args new_prompt args)
