-- ===== src/Polkit/Ask/Answer.antt =====
-- The agent polkit-agent/zero-polkit-agent.c together with the prompt
-- polkit-agent/zero-polkit-prompt-wayland.cpp that it runs.
use cardputer_zero_os.Base.{
  take_all, ℕ, ◌+◌, ◌-◌, ◌<◌, ◌≡◌, ◌≢◌, ◌∙◌, refl, sym, ap, subst, inl, inr, ◌⊎◌, Bool, true, false,
  ◌&&◌, ◌||◌, Option, none, some, List, [], ◌∷◌, ◌++◌, Bytes, codes, leb, ◌==◌, str_eq,
  if◌then◌else◌, is_empty, length, length-append, All, append_assoc, append-nil, c_str, arith,
}
use cardputer_zero_os.Auth.Request.{ReadResult}
use cardputer_zero_os.Auth.Helper.{exited}
use cardputer_zero_os.Prompt.Texts.Fit.{IsPrintable}
use cardputer_zero_os.Prompt.Frame.{PromptWindow}
use cardputer_zero_os.Prompt.Window.Invariant.{IsSecret, IsOutput}
use cardputer_zero_os.Prompt.Args.{
  new_prompt, parse_args, set_value, set_flag, Display, start, prompt_main,
}
use cardputer_zero_os.Greeter.Keys.{pop_back}
use cardputer_zero_os.Prompt.Window.{Event, Round, dispatch_all, run}
use cardputer_zero_os.Prompt.Window.Typing.{
  enter, Types, TypesRounds, Holds, dispatch_all-Holds, run-typed,
}
use cardputer_zero_os.Prompt.Args.Options.{prompt_main-IsOutput}
use cardputer_zero_os.Polkit.Ask.{
  Shell, prompt_path, or_default, prompt_args, capacity, read_output, strip_line_end, exit_status,
  response_of, prompt_for_response_wayland,
}

-- The prompt reads its command line as the agent means it, whatever the texts are, also one that looks
-- like an option.
pub parse_args-prompt_args :
    (message identity request info : Option Bytes) (echo : Bool)
    → parse_args new_prompt (prompt_args message identity request info echo)
      ≡ some (record new_prompt {
        message = or_default message (codes "Authentication is required");
        identity = or_default identity [];
        request = or_default request (codes "Password:");
        info = or_default info [];
        echo = echo;
      })
unfolding parse_args prompt_args set_value set_flag str_eq
parse_args-prompt_args message identity request info true = refl
parse_args-prompt_args message identity request info false = refl

-- What `read` returns, in any pieces, is this text, and then the end of the file.
abbrev pub Delivers : List ReadResult → Bytes → Type 0
Delivers [] text = text ≡ []
Delivers (ReadResult.interrupted ∷ more) text = Delivers more text
Delivers (ReadResult.failed ∷ more) text = ⊥
Delivers (ReadResult.got [] ∷ more) text = text ≡ []
Delivers (ReadResult.got (x ∷ xs) ∷ more) text =
    (rest : Bytes) × (text ≡ x ∷ xs ++ rest) × Delivers more rest

read_output-Delivers :
    (output text : Bytes) (reads : List ReadResult)
    → Delivers reads text
    → length output + length text + 1 < capacity
    → read_output output reads ≡ output ++ text
unfolding read_output
read_output-Delivers output text [] d room = rw d (sym (append-nil output))
read_output-Delivers output text (ReadResult.interrupted ∷ more) d room =
    read_output-Delivers output text more d room
read_output-Delivers output text (ReadResult.got [] ∷ more) d room = rw d (sym (append-nil output))
read_output-Delivers output text (ReadResult.got (x ∷ xs) ∷ more) (rest, e, d) room =
    let grown = output ++ x ∷ xs in
    let all =
      take_all (capacity - length output - 1) (x ∷ xs)
        (omega (arith, ap length e, length-append (x ∷ xs) rest)) in
    let below : leb capacity (length grown + 1) ≡ false =
      ground (arith, ap length e, length-append (x ∷ xs) rest, length-append output (x ∷ xs)) in
    rw (all, below)
      (read_output-Delivers grown rest more d
          (omega (arith, ap length e, length-append (x ∷ xs) rest, length-append output (x ∷ xs)))
        ∙ append_assoc output (x ∷ xs) rest
        ∙ ap (λ t. output ++ t) (sym e))
read_output-Delivers output text (ReadResult.failed ∷ more) d room = elim d [ ]

kept : (b : Bool) {c : ℕ} {s : Bytes} → (if b && false then [] else c ∷ s) ≡ c ∷ s
kept true = refl
kept false = refl

strip_line_end-append : (s : Bytes) → All IsPrintable s → strip_line_end (s ++ codes "\n") ≡ s
unfolding strip_line_end
strip_line_end-append [] h = refl
strip_line_end-append (c ∷ s) (p, h) =
    let other : (c == 10 || c == 13) ≡ false = ground arith in
    rw (strip_line_end-append s h, other) (kept (is_empty s))

c_str-IsPrintable : (s : Bytes) → All IsPrintable s → c_str s ≡ s
unfolding c_str
c_str-IsPrintable [] h = refl
c_str-IsPrintable (c ∷ s) (p, h) = ground (arith, c_str-IsPrintable s h)

-- The process that was run ended like this, and everything that was needed to run it was there.
abbrev pub Runs : Shell → ℕ × Bytes → Type 0
Runs sh (status, output) =
    (sh.wayland ≡ true)
    × (sh.executable (prompt_path sh.prompt_env) ≡ true)
    × (sh.pipe ≡ true)
    × (sh.child ≡ exited status)
    × Delivers sh.reads output

response-accepted :
    (sh : Shell) (secret : Bytes)
    → IsSecret secret
    → Runs sh (0, secret ++ codes "\n")
    → prompt_for_response_wayland sh ≡ some secret
unfolding prompt_for_response_wayland exit_status response_of
response-accepted sh s (short, printable) (wayland, path, pipe, child, delivers) =
    rw
      (
        wayland,
        path,
        pipe,
        child,
        read_output-Delivers [] (s ++ codes "\n") sh.reads delivers
            (omega (arith, length-append s (codes "\n"))),
        strip_line_end-append s printable,
        c_str-IsPrintable s printable,
      )
      refl

response-refused :
    (sh : Shell) (status : ℕ) (output : Bytes)
    → status ≢ 0
    → Runs sh (status, output)
    → prompt_for_response_wayland sh ≡ none
unfolding prompt_for_response_wayland exit_status response_of
response-refused sh status output h (wayland, path, pipe, child, delivers) =
    let bad : (status == 0) ≡ false = ground arith in rw (wayland, path, pipe, child, bad) refl

-- The secret as the prompt wrote it, or no response and an exit status that is not 0.
abbrev pub IsAnswer : ℕ × Bytes → Option Bytes → Type 0
IsAnswer out response =
    ((secret : Bytes) × (out ≡ (0, secret ++ codes "\n"))
      × IsSecret secret
      × (response ≡ some secret))
    ⊎ ((out.0 ≢ 0) × (response ≡ none))

output-IsAnswer :
    (sh : Shell) (out : ℕ × Bytes)
    → IsOutput out
    → Runs sh out
    → IsAnswer out (prompt_for_response_wayland sh)
output-IsAnswer sh (status, output) o runs = elim o [
  | inl (ok, (secret, line, valid)) ↦
      let e : ◌≡◌ {A = ℕ × Bytes} (status, output) (0, secret ++ codes "\n") = rw (ok, line) refl in
      inl (secret, e, valid, response-accepted sh secret valid (subst (Runs sh) e runs))
  | inr (h, _) ↦ inr (h, response-refused sh status output h runs)
]

-- What the agent gets from the prompt that it runs, if the prompt can be run, exits, and its output
-- arrives in whatever pieces: the secret exactly as the prompt accepted it, or no response where the
-- prompt did not accept one.
pub prompt_for_response_lem :
    (args : List Bytes) (d : Display) (sh : Shell)
    → Runs sh (prompt_main args d)
    → IsAnswer (prompt_main args d) (prompt_for_response_wayland sh)
prompt_for_response_lem args d sh runs =
    output-IsAnswer sh (prompt_main args d) (prompt_main-IsOutput args d) runs

-- Someone types a text and Enter on a display whose `init` succeeds.
pub record IsTyped (d : Display) (text : Bytes) : Type 0 where
  pub early_text : Bytes
  pub rounds_text : Bytes
  pub pending_text : Bytes
  pub rounds : List Round
  pub more : List Round
  pub pending : List Event
  pub polled : List Event
  pub ready : d.ready ≡ true
  pub spread :
      d.rounds ≡ rounds ++ record { pending = pending; polled = polled ++ enter ∷ [] } ∷ more
  pub early_typed : Types d.early [] early_text
  pub rounds_typed : TypesRounds rounds early_text rounds_text
  pub pending_typed : Types pending rounds_text pending_text
  pub polled_typed : Types polled pending_text text

start-typed :
    (d : Display) (w : PromptWindow) (text : Bytes)
    → Holds [] w
    → IsTyped d text
    → start d (some w) ≡ (0, text ++ codes "\n")
unfolding start
start-typed d w text h typed =
    let early = dispatch_all w d.early in
    ap (λ b. if b then run early d.rounds else (1, [])) typed.ready
    ∙ ap (run early) typed.spread
    ∙ run-typed early typed.rounds typed.more typed.early_text typed.rounds_text typed.pending_text
        text typed.pending typed.polled (dispatch_all-Holds w typed.early_typed h)
        typed.rounds_typed typed.pending_typed typed.polled_typed

prompt_main-typed :
    (message identity request info : Option Bytes) (echo : Bool) (d : Display) (text : Bytes)
    → IsTyped d text
    → prompt_main (prompt_args message identity request info echo) d ≡ (0, text ++ codes "\n")
unfolding prompt_main
prompt_main-typed message identity request info echo d text typed =
    ap (start d) (parse_args-prompt_args message identity request info echo)
    ∙ start-typed d _ text (refl, refl) typed

pop_back-append : (s : Bytes) (c : ℕ) → pop_back (s ++ c ∷ []) ≡ s
unfolding pop_back
pop_back-append [] c = refl
pop_back-append (a ∷ []) c = refl
pop_back-append (a ∷ b ∷ s) c = ap (◌∷◌ a) (pop_back-append (b ∷ s) c)

-- From the keyboard to the agent: the agent's call of the prompt returns the text that someone typed
-- there before Enter.
pub prompt_for_response-typed :
    (message identity request info : Option Bytes) (echo : Bool) (d : Display) (sh : Shell)
    (text : Bytes)
    → Runs sh (prompt_main (prompt_args message identity request info echo) d)
    → IsTyped d text
    → prompt_for_response_wayland sh ≡ some text
prompt_for_response-typed message identity request info echo d sh text runs typed =
    let args = prompt_args message identity request info echo in
    let e = prompt_main-typed message identity request info echo d text typed in
    elim (prompt_for_response_lem args d sh runs) [
      | inl (secret, line, _, answer) ↦
          let same = ap (λ (out : ℕ × Bytes). pop_back out.1) (sym line ∙ e) in
          answer ∙ ap some (sym (pop_back-append secret 10) ∙ same ∙ pop_back-append text 10)
      | inr (h, _) ↦ absurd (h (ap (λ (out : ℕ × Bytes). out.0) e))
    ]
