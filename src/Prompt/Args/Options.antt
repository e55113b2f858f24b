-- ===== src/Prompt/Args/Options.antt =====
-- What any run of polkit-agent/zero-polkit-prompt-wayland.cpp writes, whatever its command line is.
use cardputer_zero_os.Base.{
  refl, inr, Option, none, some, List, [], ◌∷◌, Bytes, codes, str_eq, if_both, arith,
}
use cardputer_zero_os.Prompt.Frame.{PromptWindow}
use cardputer_zero_os.Prompt.Window.{dispatch_all}
use cardputer_zero_os.Prompt.Window.Invariant.{
  IsValid, IsOutput, dispatch_all-IsValid, run-IsOutput,
}
use cardputer_zero_os.Prompt.Args.{
  new_prompt, takes_value, set_value, set_flag, or_usage, parse_args, Display, start, prompt_main,
}

IsValidOption : Option PromptWindow → Type 0
IsValidOption none = Unit
IsValidOption (some w) = IsValid w

set_value-IsValid :
    (w : PromptWindow) (arg value : Bytes) → IsValid w → IsValid (set_value w arg value)
unfolding set_value
set_value-IsValid w arg value v = if_both IsValid (str_eq arg (codes "--message")) _ _ v (
    if_both IsValid (str_eq arg (codes "--identity")) _ _ v
      (if_both IsValid (str_eq arg (codes "--request")) _ _ v v))

set_flag-IsValid : (w : PromptWindow) (arg : Bytes) → IsValid w → IsValidOption (set_flag w arg)
unfolding IsValidOption set_flag
set_flag-IsValid w arg v =
    if_both IsValidOption (str_eq arg (codes "--echo")) _ _ v
      (if_both IsValidOption (str_eq arg (codes "--secret")) _ none v tt)

or_usage-IsValid :
    (o : Option PromptWindow) (f : PromptWindow → Option PromptWindow)
    → IsValidOption o
    → ((w : PromptWindow) → IsValid w → IsValidOption (f w))
    → IsValidOption (or_usage o f)
unfolding IsValidOption or_usage
or_usage-IsValid none f v k = tt
or_usage-IsValid (some w) f v k = k w v

parse_args-IsValid :
    (w : PromptWindow) (args : List Bytes) → IsValid w → IsValidOption (parse_args w args)
unfolding IsValidOption parse_args
parse_args-IsValid w [] v = v
parse_args-IsValid w (arg ∷ []) v =
    if_both IsValidOption (takes_value arg) none (set_flag w arg) tt (set_flag-IsValid w arg v)
parse_args-IsValid w (arg ∷ value ∷ args) v =
    if_both IsValidOption (takes_value arg) _ _
      (parse_args-IsValid (set_value w arg value) args (set_value-IsValid w arg value v))
      (or_usage-IsValid (set_flag w arg) (λ u. parse_args u (value ∷ args))
        (set_flag-IsValid w arg v) (λ u valid. parse_args-IsValid u (value ∷ args) valid))

start-IsOutput : (d : Display) (o : Option PromptWindow) → IsValidOption o → IsOutput (start d o)
unfolding IsValidOption start
start-IsOutput d none v = inr ((λ e. cc), refl)
start-IsOutput d (some w) v =
    if_both IsOutput d.ready _ (1, [])
      (run-IsOutput (dispatch_all w d.early) d.rounds (dispatch_all-IsValid w d.early v))
      (inr ((λ e. cc), refl))

-- The prompt either exits with 0 and writes one line of at most 128 printable characters, or exits with
-- another status and writes nothing.
pub prompt_main-IsOutput : (args : List Bytes) (d : Display) → IsOutput (prompt_main args d)
unfolding prompt_main
prompt_main-IsOutput args d =
    start-IsOutput d (parse_args new_prompt args)
      (parse_args-IsValid new_prompt args ((omega arith, tt), refl))
