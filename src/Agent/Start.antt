-- ===== src/Agent/Start.antt =====
-- The start of window-agent/zero-window-agent.cpp: `socket_path`, `ensure_parent_dir`, `init_wayland`,
-- `init_socket`, `once` and `main`. The environment and the answers of the kernel are given; what is
-- asked of the file system and of the socket is kept as a list.
pub mod Socket
pub mod Watch
use cardputer_zero_os.Base.{
  ℕ, ◌+◌, ◌-◌, Bool, true, false, not, ◌&&◌, ◌||◌, Option, none, some, List, [], ◌∷◌, ◌++◌, Bytes,
  codes, leb, ◌==◌, if◌then◌else◌, is_empty, length, take, c_str,
}
use cardputer_zero_os.Agent.State.{Agent}
use cardputer_zero_os.Agent.Events.{Event, dispatch_all}
use cardputer_zero_os.Agent.Commands.{write_snapshot}
use cardputer_zero_os.Agent.Loop.{Server}
use cardputer_zero_os.Agent.Run.{Round, Outcome, run}

-- `std::getenv` of ZERO_WINDOW_AGENT_SOCKET and of XDG_RUNTIME_DIR.
pub record Environment : Type 0 where
  pub agent_socket : Option Bytes
  pub runtime : Option Bytes

-- A variable that is set and not empty.
abbrev pub set_value : Option Bytes → Bytes
set_value none = []
set_value (some path) = path

unfoldable pub runtime_dir : Environment → Bytes
runtime_dir env = set_value env.runtime

unfoldable pub socket_path : Environment → Bytes
unfolding runtime_dir
socket_path env =
    if not (is_empty (set_value env.agent_socket))
    then set_value env.agent_socket
    else if is_empty (runtime_dir env)
    then []
    else runtime_dir env ++ codes "/cardputer-zero/window-agent.sock"

-- `path.substr(0, path.rfind('/'))`, none where there is no slash.
unfoldable pub before_slash : Bytes → Option Bytes
before_slash [] = none
before_slash (c ∷ path) = elim (before_slash path) [
  | none ↦ if c == b'/' then some [] else none
  | some dir ↦ some (c ∷ dir)
]

-- The calls that name a file, and `listen`.
pub data SocketCall : Type 0 where
  mkdir : Bytes → SocketCall
  chmod : Bytes → ℕ → SocketCall
  socket : SocketCall
  unlink : Bytes → SocketCall
  bind : Bytes → SocketCall
  listen : ℕ → SocketCall

-- What the kernel answers: whether `mkdir` makes the directory or finds it there, and whether `socket`,
-- `bind` and `listen` succeed.
pub record Answers : Type 0 where
  pub mkdir_ok : Bytes → Bool
  pub socket_ok : Bool
  pub bind_ok : Bool
  pub listen_ok : Bool

-- Whether the call returned true, and what was asked.
unfoldable pub ensure_dir : Answers → Option Bytes → Bool × List SocketCall
ensure_dir k none = (true, [])
ensure_dir k (some dir) =
    if is_empty dir
    then (true, [])
    else if k.mkdir_ok dir
    then (true, SocketCall.mkdir dir ∷ SocketCall.chmod dir 0o700 ∷ [])
    else (false, SocketCall.mkdir dir ∷ [])

unfoldable pub ensure_parent_dir : Answers → Bytes → Bool × List SocketCall
unfolding ensure_dir before_slash
ensure_parent_dir k path = ensure_dir k (before_slash path)

-- `sizeof(addr.sun_path)`
abbrev pub sun_path_size : ℕ
sun_path_size = 108

-- What `strncpy` leaves in `addr.sun_path`, up to its NUL.
unfoldable pub sun_path : Bytes → Bytes
sun_path path = take (sun_path_size - 1) (c_str path)

-- From `unlink` on.
unfoldable pub bind_socket : Answers → Bytes → Bool × List SocketCall
unfolding sun_path
bind_socket k path =
    let bound = SocketCall.unlink (c_str path) ∷ SocketCall.bind (sun_path path) ∷ [] in
    let listening = bound ++ SocketCall.chmod (c_str path) 0o600 ∷ SocketCall.listen 8 ∷ [] in
    if not k.bind_ok
    then (false, bound)
    else if not k.listen_ok
    then (false, listening)
    else (true, listening)

open_socket : Answers → Bytes → Bool × List SocketCall
unfolding bind_socket
open_socket k path =
    let (ok, calls) = bind_socket k path in
    if not k.socket_ok
    then (false, SocketCall.socket ∷ [])
    else if leb sun_path_size (length path)
    then (false, SocketCall.socket ∷ [])
    else (ok, SocketCall.socket ∷ calls)

unfoldable pub init_socket : Answers → Environment → Bool × List SocketCall
unfolding socket_path ensure_parent_dir open_socket
init_socket k env =
    let path = socket_path env in
    let (ok, calls) = ensure_parent_dir k path in
    let (opened, more) = open_socket k path in
    if is_empty path then (false, []) else if ok then (opened, calls ++ more) else (false, calls)

-- The fields' initial values.
abbrev pub new_agent : Agent
new_agent = record {
  seat = false;
  next_id = 1;
  changed = false;
  running = true;
  tasks = [];
  requests = [];
}

-- The connection: whether there is one, the events of two round trips, and whether the registry named
-- the manager.
pub record Wayland : Type 0 where
  pub connected : Bool
  pub events : List Event
  pub manager : Bool

unfoldable pub init_wayland : Wayland → Option Agent
unfolding dispatch_all
init_wayland wl =
    if not wl.connected
    then none
    else if not wl.manager
    then none
    else some (dispatch_all new_agent wl.events)

-- `main` with `--once`: the text that is written, or none where the start fails.
once_text : List Event → Option Agent → Option Bytes
unfolding dispatch_all write_snapshot
once_text events none = none
once_text events (some a) = some (write_snapshot (dispatch_all a events))

unfoldable pub once_main : Wayland → List Event → Option Bytes
unfolding init_wayland once_text
once_main wl events = once_text events (init_wayland wl)

-- `main` without it: how far `run` came, or none where the start fails, which exits with 1.
start_server : Bool → List Round → Option Agent → Option Outcome
unfolding run
start_server opened rounds none = none
start_server opened rounds (some a) =
    if opened
    then some (run (record { agent = a; clients = []; closed_fds = []; sent = [] }) rounds)
    else none

unfoldable pub agent_main : Wayland → Answers → Environment → List Round → Option Outcome
unfolding init_wayland init_socket start_server
agent_main wl k env rounds = start_server (init_socket k env).0 rounds (init_wayland wl)
