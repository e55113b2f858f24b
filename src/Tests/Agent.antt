-- ===== src/Tests/Agent.antt =====
-- window-agent/zero-window-agent.cpp on two windows: the protocol, the lookups and the commands.
use cardputer_zero_os.Base.{◌≡◌, refl, true, false, none, some, [], ◌∷◌, codes, map, arith}
use cardputer_zero_os.Agent.Wire.{encode, decode, split_tabs}
use cardputer_zero_os.Agent.Wire.Codec.{decode-encode}
use cardputer_zero_os.Agent.Stream.{lines}
use cardputer_zero_os.Agent.State.{Task, Client, Agent, Request}
use cardputer_zero_os.Agent.Lookup.{find_first, find_task}
use cardputer_zero_os.Agent.Commands.{send_snapshot, handle_command}
use cardputer_zero_os.Agent.Commands.Snapshot.{snapshot_messages, snapshot_read}
use cardputer_zero_os.Agent.Commands.Actions.{Extends, handle_command-Extends}
use cardputer_zero_os.Agent.Commands.TaskRequests.{
  TaskCommand, task_request, handle_command-task_request,
}
use cardputer_zero_os.Tests.{text-IsByte}

abbrev pub shell : Task
shell = record {
  id = 1;
  handle = 70;
  app_id = codes "cardputer-zero-shell";
  title = codes "Home";
  activated = false;
  minimized = false;
  maximized = true;
  fullscreen = false;
  closed = false;
}

abbrev pub editor : Task
editor = record {
  id = 4;
  handle = 71;
  app_id = codes "editor";
  title = codes "100% done";
  activated = true;
  minimized = false;
  maximized = false;
  fullscreen = false;
  closed = false;
}

abbrev pub gone : Task
gone = record editor { id = 5; handle = 72; closed = true }

abbrev pub two_windows : Agent
two_windows = record {
  seat = true;
  next_id = 6;
  changed = false;
  running = true;
  tasks = shell ∷ editor ∷ gone ∷ [];
  requests = [];
}

abbrev pub quiet_client : Client
quiet_client = record { fd = 9; subscribed = false; input = []; output = [] }

tab_and_percent : encode (codes "a%\tb") ≡ codes "a%25%09b"
unfolding encode
tab_and_percent = refl

broken_escape : decode (codes "%4g%41%") ≡ codes "%4gA%"
unfolding decode
broken_escape = refl

editor_found : find_task two_windows (codes "t4") ≡ some editor
unfolding find_task
editor_found = refl

closed_not_found : find_task two_windows (codes "t5") ≡ none
unfolding find_task
closed_not_found = refl

decode-encode_example : decode (encode (codes "100%\t25%")) ≡ codes "100%\t25%"
decode-encode_example = decode-encode (codes "100%\t25%") (text-IsByte (codes "100%\t25%") refl)

snapshot_read_example :
    let (ls, rest) = lines (send_snapshot two_windows quiet_client).output in
    (map split_tabs ls ≡ snapshot_messages two_windows) × (rest ≡ [])
snapshot_read_example = snapshot_read two_windows quiet_client refl (
  (text-IsByte shell.app_id refl, text-IsByte shell.title refl),
  (
    (text-IsByte editor.app_id refl, text-IsByte editor.title refl),
    ((text-IsByte gone.app_id refl, text-IsByte gone.title refl), tt),
  ),
)

handle_command-Extends_example :
    Extends two_windows (handle_command two_windows quiet_client (codes "close\tt4")).0
handle_command-Extends_example = handle_command-Extends two_windows quiet_client (codes "close\tt4")

handle_command-task_request_example :
    handle_command two_windows quiet_client (task_request (codes "minimize") 4) ≡ (
      record two_windows { requests = Request.set_minimized 71 ∷ Request.flush ∷ [] },
      record quiet_client { output = codes "ok\tminimize\n" },
    )
unfolding find_first
handle_command-task_request_example =
    handle_command-task_request two_windows quiet_client TaskCommand.minimize 4 (omega arith)
      (omega arith)
