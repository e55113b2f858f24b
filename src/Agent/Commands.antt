-- ===== src/Agent/Commands.antt =====
-- `send` and its callers, `activate` and `handle_command` of window-agent/zero-window-agent.cpp. The
-- client is a value beside the agent: no command touches `clients_`.
pub mod Frame
pub mod Snapshot
pub mod Actions
pub mod TaskRequests
use cardputer_zero_os.Base.{
  ℕ, Bool, true, false, not, ◌&&◌, ◌||◌, Option, none, some, List, [], ◌∷◌, ◌++◌, Bytes, codes,
  is_empty, str_eq, if◌then◌else◌, to_string,
}
use cardputer_zero_os.Agent.Wire.{tab, newline, encode, split_tabs}
use cardputer_zero_os.Agent.State.{
  Task, Client, Agent, Request, request, state_string, is_shell_task,
}
use cardputer_zero_os.Agent.Lookup.{find_task, active_task, shell_task}

unfoldable pub send : Client → Bytes → Client
send client line = record client { output = client.output ++ line ++ newline ∷ [] }

pub error_line : Bytes → Bytes → Bytes
error_line code message = codes "error" ++ tab ∷ (encode code ++ tab ∷ encode message)

unfoldable pub send_error : Client → Bytes → Bytes → Client
unfolding send error_line
send_error client code message = send client (error_line code message)

pub ok_line : Bytes → Bytes
ok_line command = codes "ok" ++ tab ∷ encode command

unfoldable pub send_ok : Client → Bytes → Client
unfolding send ok_line
send_ok client command = send client (ok_line command)

unfoldable pub task_line : Task → Bytes
task_line t =
    codes "task"
    ++ tab
      ∷ ((b't' ∷ to_string t.id)
          ++ tab ∷ (encode t.app_id ++ tab ∷ (encode t.title ++ tab ∷ encode (state_string t))))

unfoldable pub send_tasks : List Task → Client → Client
unfolding send
send_tasks [] client = client
send_tasks (t ∷ ts) client = send_tasks ts (if t.closed then client else send client (task_line t))

unfoldable pub send_snapshot : Agent → Client → Client
unfolding send send_tasks
send_snapshot a client =
    send (send_tasks a.tasks (send client (codes "snapshot-begin"))) (codes "snapshot-end")

-- `write_snapshot`, for `--once`: the text that goes to `std::cout`.
write_tasks : List Task → Bytes
write_tasks [] = []
write_tasks (t ∷ ts) =
    let rest = write_tasks ts in if t.closed then rest else task_line t ++ newline ∷ rest

unfoldable pub write_snapshot : Agent → Bytes
unfolding write_tasks
write_snapshot a =
    codes "snapshot-begin"
    ++ newline ∷ (write_tasks a.tasks ++ (codes "snapshot-end" ++ newline ∷ []))

-- `activate`: nothing without a seat, and the result says so.
unfoldable pub activate : Agent → Task → Agent × Bool
unfolding request
activate a t = if a.seat then (request a (Request.activate t.handle), true) else (a, false)

-- `wl_display_flush` and `send_ok`, which end every action.
unfoldable pub finish : Agent → Client → Bytes → Agent × Client
unfolding request send_ok
finish a client command = (request a Request.flush, send_ok client command)

-- The action of `activate`, `minimize`, `restore` and `close` on the task that was found.
unfoldable pub task_action : Agent → Client → Bytes → Task → Agent × Client
unfolding activate finish send_error request
task_action a client command t =
    if str_eq command (codes "activate")
    then (let (b, done) = activate a t in
        if done
        then finish b client command
        else (b, send_error client (codes "unsupported") (codes "no Wayland seat")))
    else if str_eq command (codes "minimize")
    then finish (request a (Request.set_minimized t.handle)) client command
    else if str_eq command (codes "restore")
    then finish (activate (request a (Request.unset_minimized t.handle)) t).0 client command
    else finish (request a (Request.close t.handle)) client command

-- `fields.size() < 2`, then `find_task(fields[1])`.
task_command : Agent → Client → Bytes → List Bytes → Agent × Client
unfolding task_action send_error
task_command a client command [] =
    (a, send_error client (codes "bad-request") (codes "missing task id"))
task_command a client command (id ∷ more) = elim (find_task a id) [
  | none ↦ (a, send_error client (codes "not-found") (codes "task not found"))
  | some t ↦ task_action a client command t
]

focus_shell : Agent → Client → Bytes → Agent × Client
unfolding activate finish send_error
focus_shell a client command = elim (shell_task a) [
  | none ↦ (a, send_error client (codes "not-found") (codes "shell task not found"))
  | some t ↦
      let (b, done) = activate a t in
      if done
      then finish b client command
      else (b, send_error client (codes "unsupported") (codes "no Wayland seat"))
]

active_is_shell : Agent → Client → Bytes → Agent × Client
unfolding send_ok send_error
active_is_shell a client command =
    let fails = send_error client (codes "not-active") (codes "shell is not active") in
    elim (active_task a true) [
      | none ↦ (a, fails)
      | some t ↦ (a, if is_shell_task t then send_ok client command else fails)
    ]

active_command : Agent → Client → Bytes → Agent × Client
unfolding finish send_error request
active_command a client command = elim (active_task a false) [
  | none ↦ (a, send_error client (codes "not-found") (codes "no active non-shell task"))
  | some t ↦
      finish
        (request a (
          if str_eq command (codes "minimize-active")
          then Request.set_minimized t.handle
          else Request.close t.handle))
        client command
]

abbrev pub is_task_command : Bytes → Bool
is_task_command command =
    str_eq command (codes "activate")
    || str_eq command (codes "minimize")
    || str_eq command (codes "restore")
    || str_eq command (codes "close")

abbrev pub is_active_command : Bytes → Bool
is_active_command command =
    str_eq command (codes "minimize-active") || str_eq command (codes "close-active")

-- The chain of tests of `handle_command`, once the command is known not to be empty.
unfoldable pub run_command : Agent → Client → Bytes → List Bytes → Agent × Client
unfolding send send_snapshot task_command focus_shell active_is_shell active_command send_error
run_command a client command args =
    if str_eq command (codes "hello")
    then (a, send client (codes "hello" ++ tab ∷ (codes "ZWA1" ++ tab ∷ codes "zero-window-agent")))
    else if str_eq command (codes "list")
    then (a, send_snapshot a client)
    else if str_eq command (codes "subscribe")
    then (a, send_snapshot a (record client { subscribed = true }))
    else if is_task_command command
    then task_command a client command args
    else if str_eq command (codes "focus-shell")
    then focus_shell a client command
    else if str_eq command (codes "active-is-shell")
    then active_is_shell a client command
    else if is_active_command command
    then active_command a client command
    else (a, send_error client (codes "unknown-command") command)

run_fields : Agent → Client → List Bytes → Agent × Client
unfolding run_command
run_fields a client [] = (a, client)
run_fields a client (command ∷ args) =
    if is_empty command then (a, client) else run_command a client command args

unfoldable pub handle_command : Agent → Client → Bytes → Agent × Client
unfolding run_fields split_tabs
handle_command a client line = run_fields a client (split_tabs line)
