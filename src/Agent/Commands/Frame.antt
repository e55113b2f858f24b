-- ===== src/Agent/Commands/Frame.antt =====
-- What a command leaves alone: the unread input of its client, and the agent's tasks.
use cardputer_zero_os.Base.{◌≡◌, refl, true, List, [], ◌∷◌, ◌++◌, Bytes, codes, arith}
use cardputer_zero_os.Agent.Wire.{split_tabs}
use cardputer_zero_os.Agent.State.{Task, Client, Agent}
use cardputer_zero_os.Agent.Commands.{
  send, task_line, send_tasks, task_action, task_command, focus_shell, active_is_shell,
  active_command, run_command, run_fields, handle_command,
}

abbrev pub with_input : Bytes → Client → Client
with_input i c = record c { input = i }

abbrev pub on_client : (Client → Client) → Agent × Client → Agent × Client
on_client f (a, c) = (a, f c)

send_tasks-with_input :
    (i : Bytes) (ts : List Task) (c : Client)
    → send_tasks ts (with_input i c) ≡ with_input i (send_tasks ts c)
unfolding send_tasks
send_tasks-with_input i [] c = refl
send_tasks-with_input i (t ∷ ts) c = ground (
  arith,
  send_tasks-with_input i ts c,
  send_tasks-with_input i ts (record c { output = c.output ++ task_line t ++ 10 ∷ [] }),
)

module _ (i : Bytes) (a : Agent) (c : Client) (command : Bytes) where
  task_action-with_input :
      (t : Task)
      → task_action a (with_input i c) command t
        ≡ on_client (with_input i) (task_action a c command t)
  unfolding task_action
  task_action-with_input t = ground arith

  task_command-with_input :
      (args : List Bytes)
      → task_command a (with_input i c) command args
        ≡ on_client (with_input i) (task_command a c command args)
  unfolding task_command
  task_command-with_input [] = refl
  task_command-with_input (id ∷ more) = ground arith

  focus_shell-with_input :
      focus_shell a (with_input i c) command ≡ on_client (with_input i) (focus_shell a c command)
  unfolding focus_shell
  focus_shell-with_input = ground arith

  active_is_shell-with_input :
      active_is_shell a (with_input i c) command
      ≡ on_client (with_input i) (active_is_shell a c command)
  unfolding active_is_shell
  active_is_shell-with_input = ground arith

  active_command-with_input :
      active_command a (with_input i c) command
      ≡ on_client (with_input i) (active_command a c command)
  unfolding active_command
  active_command-with_input = ground arith

  run_command-with_input :
      (args : List Bytes)
      → run_command a (with_input i c) command args
        ≡ on_client (with_input i) (run_command a c command args)
  unfolding run_command
  run_command-with_input args = ground (
    arith,
    task_command-with_input args,
    focus_shell-with_input,
    active_is_shell-with_input,
    active_command-with_input,
    send_tasks-with_input i a.tasks (send c (codes "snapshot-begin")),
    send_tasks-with_input i a.tasks
        (send (record c { subscribed = true }) (codes "snapshot-begin")),
  )

-- A command neither reads nor changes the input that its client has still to send.
pub handle_command-with_input :
    (i : Bytes) (a : Agent) (c : Client) (line : Bytes)
    → handle_command a (with_input i c) line ≡ on_client (with_input i) (handle_command a c line)
unfolding handle_command
handle_command-with_input i a c line = fields (split_tabs line)
  where
    fields :
        (fs : List Bytes)
        → run_fields a (with_input i c) fs ≡ on_client (with_input i) (run_fields a c fs)
    fields [] = refl
    fields (command ∷ args) = ground (arith, run_command-with_input i a c command args)

module _ (a : Agent) (c : Client) (command : Bytes) where
  run_command-tasks : (args : List Bytes) → (run_command a c command args).0.tasks ≡ a.tasks
  unfolding run_command
  run_command-tasks [] = ground arith
  run_command-tasks (id ∷ args) = ground arith

-- A command leaves the list of tasks, the next id and the change flag as they are.
pub handle_command-tasks :
    (a : Agent) (c : Client) (line : Bytes) → (handle_command a c line).0.tasks ≡ a.tasks
unfolding handle_command
handle_command-tasks a c line = fields (split_tabs line)
  where
    fields : (fs : List Bytes) → (run_fields a c fs).0.tasks ≡ a.tasks
    fields [] = refl
    fields (command ∷ args) = ground (arith, run_command-tasks a c command args)

send_tasks-fd : (ts : List Task) (c : Client) → (send_tasks ts c).fd ≡ c.fd
unfolding send_tasks
send_tasks-fd [] c = refl
send_tasks-fd (t ∷ ts) c =
    ground (arith, send_tasks-fd ts c, send_tasks-fd ts (send c (task_line t)))

module _ (a : Agent) (c : Client) (command : Bytes) where
  task_action-fd : (t : Task) → (task_action a c command t).1.fd ≡ c.fd
  unfolding task_action
  task_action-fd t = ground arith

  task_command-fd : (args : List Bytes) → (task_command a c command args).1.fd ≡ c.fd
  unfolding task_command
  task_command-fd [] = refl
  task_command-fd (id ∷ args) = ground arith

  focus_shell-fd : (focus_shell a c command).1.fd ≡ c.fd
  unfolding focus_shell
  focus_shell-fd = ground arith

  active_is_shell-fd : (active_is_shell a c command).1.fd ≡ c.fd
  unfolding active_is_shell
  active_is_shell-fd = ground arith

  active_command-fd : (active_command a c command).1.fd ≡ c.fd
  unfolding active_command
  active_command-fd = ground arith

  run_command-fd : (args : List Bytes) → (run_command a c command args).1.fd ≡ c.fd
  unfolding run_command
  run_command-fd args = ground (
    arith,
    task_command-fd args,
    focus_shell-fd,
    active_is_shell-fd,
    active_command-fd,
    send_tasks-fd a.tasks (send c (codes "snapshot-begin")),
    send_tasks-fd a.tasks (send (record c { subscribed = true }) (codes "snapshot-begin")),
  )

-- A command answers on the client's own connection.
pub handle_command-fd :
    (a : Agent) (c : Client) (line : Bytes) → (handle_command a c line).1.fd ≡ c.fd
unfolding handle_command
handle_command-fd a c line = fields (split_tabs line)
  where
    fields : (fs : List Bytes) → (run_fields a c fs).1.fd ≡ c.fd
    fields [] = refl
    fields (command ∷ args) = ground (arith, run_command-fd a c command args)
