-- ===== src/Tests/Clients.antt =====
-- window-agent/zero-window-agent.cpp with clients: the loops over a socket, the sweep, and whole
-- rounds of the agent.
use cardputer_zero_os.Base.{
  ◌≡◌, refl, true, false, some, List, [], ◌∷◌, ◌++◌, codes, map, keep, if◌then◌else◌, arith,
}
use cardputer_zero_os.Agent.State.{Client}
use cardputer_zero_os.Agent.Events.{Event, dispatch_all}
use cardputer_zero_os.Agent.Events.Ids.{IsValid, is_open}
use cardputer_zero_os.Agent.Clients.{ReadResult, WriteResult, read_client}
use cardputer_zero_os.Agent.Clients.Lines.{read_client-pieces}
use cardputer_zero_os.Agent.Clients.Bounds.{IsBounded, read_client-IsBounded}
use cardputer_zero_os.Agent.Loop.{Revents, Kernel, Server, refresh, sweep}
use cardputer_zero_os.Agent.Loop.Sweep.{idle, sweep_hangup}
use cardputer_zero_os.Agent.Loop.Broadcast.{told, settled, refresh_lem}
use cardputer_zero_os.Agent.Run.{Display, Poll, Round}
use cardputer_zero_os.Tests.{text-Lacks}
use cardputer_zero_os.Tests.Agent.{two_windows, quiet_client}

abbrev typing_client : Client
typing_client = record { fd = 10; subscribed = true; input = codes "hel"; output = codes "ok" }

abbrev third_client : Client
third_client = record { fd = 11; subscribed = false; input = []; output = [] }

abbrev kernel : Kernel
kernel = record {
  reads = λ fd. ReadResult.got (codes "lo\nlist\n") ∷ ReadResult.would_block ∷ [];
  writes = λ fd. WriteResult.interrupted ∷ WriteResult.wrote 1 ∷ WriteResult.would_block ∷ [];
}

abbrev busy : Revents
busy = record { hangup = false; readable = true; writable = true }

abbrev hung_up : Revents
hung_up = record { hangup = true; readable = false; writable = false }

abbrev start : Server
start = record {
  agent = two_windows;
  clients = quiet_client ∷ typing_client ∷ [];
  closed_fds = [];
  sent = [];
}

abbrev pub rounds : List Round
rounds =
    record {
      signalled = false;
      display_error = false;
      pending = Event.toplevel 80 ∷ Event.title_set 6 (some (codes "new")) ∷ [];
      poll =
          Poll.ready (Display.dispatched (Event.closed_by 4 ∷ [])) (12 ∷ []) (busy ∷ hung_up ∷ [])
            kernel;
    }
    ∷ record { signalled = false; display_error = false; pending = []; poll = Poll.interrupted }
    ∷ []

typing-IsBounded : IsBounded typing_client
typing-IsBounded = (text-Lacks 10 (codes "hel") refl, omega arith)

start-IsValid : IsValid two_windows
start-IsValid = (omega arith, (omega arith, (omega arith, omega arith)))

read_client-pieces_example :
    read_client two_windows typing_client
      (ReadResult.got (codes "lo\nli") ∷ ReadResult.got (codes "st\n") ∷ [])
    ≡ read_client two_windows typing_client (ReadResult.got (codes "lo\nlist\n") ∷ [])
read_client-pieces_example =
    read_client-pieces two_windows typing_client (codes "lo\nli") (codes "st\n") [] (λ e. cc)
      (λ e. cc) (omega arith)

read_client-IsBounded_example :
    IsBounded (read_client two_windows typing_client (ReadResult.got (codes "lo\nli") ∷ [])).1
unfolding read_client
read_client-IsBounded_example =
    read_client-IsBounded two_windows typing_client (ReadResult.got (codes "lo\nli") ∷ [])
      typing-IsBounded refl

sweep_hangup_example :
    let s =
      sweep kernel
        (idle ∷ hung_up ∷ busy ∷ [])
        two_windows
        (quiet_client ∷ typing_client ∷ third_client ∷ []) in
    (s.clients ≡ quiet_client ∷ []) × (s.closed_fds ≡ 10 ∷ 11 ∷ [])
sweep_hangup_example =
    sweep_hangup kernel (idle ∷ hung_up ∷ busy ∷ []) two_windows (quiet_client ∷ []) typing_client
      (third_client ∷ []) hung_up (refl, tt) refl refl

refresh_lem_example :
    ((refresh start (Event.toplevel 80 ∷ [])).agent.changed ≡ false)
    × ((refresh start (Event.toplevel 80 ∷ [])).agent.tasks
        ≡ keep is_open (dispatch_all two_windows (Event.toplevel 80 ∷ [])).tasks)
    × IsValid (refresh start (Event.toplevel 80 ∷ [])).agent
    × (map (λ c. c.output) (refresh start (Event.toplevel 80 ∷ [])).clients ≡ (
        if (settled start (Event.toplevel 80 ∷ [])).changed
        then map (λ c. c.output ++ told (settled start (Event.toplevel 80 ∷ [])) c) start.clients
        else map (λ c. c.output) start.clients))
refresh_lem_example = refresh_lem start (Event.toplevel 80 ∷ []) start-IsValid
