-- ===== src/Agent/Commands/TaskRequests.antt =====
-- The commands that name a task, with the id that a snapshot printed.
use cardputer_zero_os.Base.{
  ℕ, ◌≤◌, ◌<◌, ◌≡◌, ◌⊎◌, refl, ap, subst, sym, ◌∙◌, inl, inr, Bool, true, false, Option, none, some,
  List, [], ◌∷◌, ◌++◌, append_assoc, append-nil, map, Bytes, codes, All, All-mono, IsByte,
  to_string, to_string-IsDigit, str_eq, str_eq_sound, arith,
}
use cardputer_zero_os.Agent.Wire.{encode}
use cardputer_zero_os.Agent.Wire.Fields.{join_tabs, split_tabs-encode}
use cardputer_zero_os.Agent.State.{Task, Client, Agent, Request, request}
use cardputer_zero_os.Agent.Lookup.{find_first, long_max}
use cardputer_zero_os.Agent.Lookup.Ids.{has_id, find_task-to_string}
use cardputer_zero_os.Agent.Commands
use cardputer_zero_os.Agent.Commands.{
  finish, send, send_ok, ok_line, error_line, send_error, task_action, task_command, run_fields,
  handle_command, is_task_command,
}

-- The four commands that name a task.
task_command_names :
    (command : Bytes)
    → is_task_command command ≡ true
    → (command ≡ codes "activate")
      ⊎ (command ≡ codes "minimize")
      ⊎ (command ≡ codes "restore")
      ⊎ (command ≡ codes "close")
task_command_names command h = ground (
  arith,
  str_eq_sound command (codes "activate"),
  str_eq_sound command (codes "minimize"),
  str_eq_sound command (codes "restore"),
  str_eq_sound command (codes "close"),
)

run_fields-task_command :
    (a : Agent) (c : Client) (command : Bytes) (args : List Bytes)
    → is_task_command command ≡ true
    → run_fields a c (command ∷ args) ≡ task_command a c command args
run_fields-task_command a c command args h = elim (task_command_names command h) [
  | inl e ↦ subst (λ k. run_fields a c (k ∷ args) ≡ task_command a c k args) (sym e) activates
  | inr (inl e) ↦ subst (λ k. run_fields a c (k ∷ args) ≡ task_command a c k args) (sym e) minimizes
  | inr (inr (inl e)) ↦
      subst (λ k. run_fields a c (k ∷ args) ≡ task_command a c k args) (sym e) restores
  | inr (inr (inr e)) ↦
      subst (λ k. run_fields a c (k ∷ args) ≡ task_command a c k args) (sym e) closes
]
  where
    activates : run_fields a c (codes "activate" ∷ args) ≡ task_command a c (codes "activate") args
    activates = unfold run_fields str_eq in refl

    minimizes : run_fields a c (codes "minimize" ∷ args) ≡ task_command a c (codes "minimize") args
    minimizes = unfold run_fields str_eq in refl

    restores : run_fields a c (codes "restore" ∷ args) ≡ task_command a c (codes "restore") args
    restores = unfold run_fields str_eq in refl

    closes : run_fields a c (codes "close" ∷ args) ≡ task_command a c (codes "close") args
    closes = unfold run_fields str_eq in refl

-- The line of a command about the task of a number, as a client that read a snapshot sends it.
abbrev pub task_request : Bytes → ℕ → Bytes
task_request command n = join_tabs (map encode (command ∷ (b't' ∷ to_string n) ∷ []))

id-IsByte : (n : ℕ) → All IsByte (b't' ∷ to_string n)
id-IsByte n = (omega arith, All-mono (to_string n) (λ c h. omega arith) (to_string-IsDigit n))

pub data TaskCommand : Type 0 where
  activate minimize restore close : TaskCommand

abbrev pub word : TaskCommand → Bytes
word TaskCommand.activate = codes "activate"
word TaskCommand.minimize = codes "minimize"
word TaskCommand.restore = codes "restore"
word TaskCommand.close = codes "close"

-- What is asked of the compositor on the window of a handle, with a seat and without one.
abbrev pub asked : TaskCommand → Bool → ℕ → List Request
asked TaskCommand.activate true h = Request.activate h ∷ Request.flush ∷ []
asked TaskCommand.activate false h = []
asked TaskCommand.minimize seat h = Request.set_minimized h ∷ Request.flush ∷ []
asked TaskCommand.restore true h =
    Request.unset_minimized h ∷ Request.activate h ∷ Request.flush ∷ []
asked TaskCommand.restore false h = Request.unset_minimized h ∷ Request.flush ∷ []
asked TaskCommand.close seat h = Request.close h ∷ Request.flush ∷ []

-- What the client is answered.
abbrev pub answered : TaskCommand → Bool → Bytes
answered TaskCommand.activate true = codes "ok\tactivate\n"
answered TaskCommand.activate false = codes "error\tunsupported\tno Wayland seat\n"
answered TaskCommand.minimize seat = codes "ok\tminimize\n"
answered TaskCommand.restore seat = codes "ok\trestore\n"
answered TaskCommand.close seat = codes "ok\tclose\n"

task_action-asked :
    (a : Agent) (c : Client) (command : TaskCommand) (t : Task) (seat : Bool)
    → a.seat ≡ seat
    → task_action a c (word command) t ≡ (
      record a { requests = a.requests ++ asked command a.seat t.handle },
      record c { output = c.output ++ answered command a.seat },
    )
unfolding task_action Commands.activate finish send_error send_ok send request error_line ok_line
    encode str_eq
task_action-asked a c TaskCommand.activate t true e = simp (e, append_assoc)
task_action-asked a c TaskCommand.activate t false e = rw (e, append_assoc, append-nil a.requests)
task_action-asked a c TaskCommand.minimize t seat e = simp append_assoc
task_action-asked a c TaskCommand.restore t true e = simp (e, append_assoc)
task_action-asked a c TaskCommand.restore t false e = simp (e, append_assoc)
task_action-asked a c TaskCommand.close t seat e = simp append_assoc

word-IsTask : (command : TaskCommand) → is_task_command (word command) ≡ true
unfolding str_eq
word-IsTask TaskCommand.activate = refl
word-IsTask TaskCommand.minimize = refl
word-IsTask TaskCommand.restore = refl
word-IsTask TaskCommand.close = refl

word-IsByte : (command : TaskCommand) → All IsByte (word command)
word-IsByte TaskCommand.activate = ground arith
word-IsByte TaskCommand.minimize = ground arith
word-IsByte TaskCommand.restore = ground arith
word-IsByte TaskCommand.close = ground arith

-- `activate`, `minimize`, `restore` and `close` with an id that a snapshot can have printed: the first
-- open task of that number gets exactly its command's requests, a flush behind them, and the client is
-- answered `ok`. Without a seat, `activate` is an error and `restore` does not activate. Where there is
-- no such task, the answer is `not-found` and nothing is asked. Nothing else of the agent changes.
pub handle_command-task_request :
    (a : Agent) (c : Client) (command : TaskCommand) (n : ℕ)
    → 0 < n
    → n ≤ long_max
    → handle_command a c (task_request (word command) n)
      ≡ elim (find_first (has_id n) a.tasks) as (λ _. Agent × Client) [
        | none ↦ (a, record c { output = c.output ++ codes "error\tnot-found\ttask not found\n" })
        | some t ↦ (
          record a { requests = a.requests ++ asked command a.seat t.handle },
          record c { output = c.output ++ answered command a.seat },
        )
      ]
unfolding handle_command task_command
handle_command-task_request a c command n pos fits =
    ap (run_fields a c) (
      split_tabs-encode (word command) ((b't' ∷ to_string n) ∷ [])
        (word-IsByte command, (id-IsByte n, tt)))
    ∙ run_fields-task_command a c (word command) ((b't' ∷ to_string n) ∷ []) (word-IsTask command)
    ∙ rw (find_task-to_string a n pos fits, task_command) (acts (find_first (has_id n) a.tasks))
  where
    acts :
        (o : Option Task)
        → elim o as (λ _. Agent × Client) [
          | none ↦ (a, send_error c (codes "not-found") (codes "task not found"))
          | some t ↦ task_action a c (word command) t
        ]
          ≡ elim o as (λ _. Agent × Client) [
            | none ↦
                (a, record c { output = c.output ++ codes "error\tnot-found\ttask not found\n" })
            | some t ↦ (
              record a { requests = a.requests ++ asked command a.seat t.handle },
              record c { output = c.output ++ answered command a.seat },
            )
          ]
    acts none = unfold send_error send error_line encode in rw append_assoc
    acts (some t) = task_action-asked a c command t a.seat refl
