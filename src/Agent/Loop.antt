-- ===== src/Agent/Loop.antt =====
-- One round of `WindowAgent::run` of window-agent/zero-window-agent.cpp: pruning and broadcasting, then
-- the accepted connections and the sweep over the clients. What `poll`, `accept4`, `read` and `write`
-- return is given: the events of each polled client, and for each socket the results of its calls.
pub mod Sweep
pub mod Broadcast
use cardputer_zero_os.Base.{
  ℕ, zero, suc, ◌+◌, Bool, true, false, not, ◌&&◌, Option, none, some, List, [], ◌∷◌, ◌++◌, Bytes,
  if◌then◌else◌, get_elem?,
}
use cardputer_zero_os.Agent.State.{Client, Agent}
use cardputer_zero_os.Agent.Events.{Event, dispatch_all, prune_closed}
use cardputer_zero_os.Agent.Commands.{send_snapshot}
use cardputer_zero_os.Agent.Clients.{ReadResult, WriteResult, read_client, flush_client}

-- `revents` of one `pollfd`: POLLERR, POLLHUP or POLLNVAL; POLLIN; POLLOUT.
pub record Revents : Type 0 where
  pub hangup : Bool
  pub readable : Bool
  pub writable : Bool

-- What the kernel answers on a socket, by its descriptor.
pub record Kernel : Type 0 where
  pub reads : ℕ → List ReadResult
  pub writes : ℕ → List WriteResult

-- The agent with `clients_`, the descriptors closed so far, and the bytes sent, by descriptor.
pub record Server : Type 0 where
  pub agent : Agent
  pub clients : List Client
  pub closed_fds : List ℕ
  pub sent : List (ℕ × Bytes)

unfoldable pub broadcast_snapshot : Agent → List Client → List Client
broadcast_snapshot a [] = []
broadcast_snapshot a (c ∷ cs) =
    (if c.subscribed then send_snapshot a c else c) ∷ broadcast_snapshot a cs

-- `if (changed_)`: the agent after pruning tells the subscribers.
unfoldable pub announce : Server → Agent → Server
unfolding broadcast_snapshot
announce s a =
    if a.changed
    then record s { agent = record a { changed = false }; clients = broadcast_snapshot a s.clients }
    else record s { agent = a }

-- The head of the loop body, before `poll`.
unfoldable pub refresh : Server → List Event → Server
unfolding announce prune_closed dispatch_all
refresh s events = announce s (prune_closed (dispatch_all s.agent events))

-- `accept_client`: the descriptors that `accept4` returns before it would block.
unfoldable pub accept_client : List ℕ → List Client → List Client
accept_client [] clients = clients
accept_client (fd ∷ more) clients =
    accept_client more
      (clients ++ record { fd = fd; subscribed = false; input = []; output = [] } ∷ [])

-- What the body of the sweep does to one client with the events that it reads for it.
pub record Served : Type 0 where
  pub agent : Agent
  pub client : Client
  pub sent : Bytes
  pub kept : Bool

unfoldable pub serve_reads : Kernel → Agent → Client → Revents → Served
serve_reads k a c ev =
    if ev.readable
    then (let (b, d, kept) = read_client a c (k.reads c.fd) in
        record { agent = b; client = d; sent = []; kept = kept })
    else record { agent = a; client = c; sent = []; kept = true }

unfoldable pub serve_writes : Kernel → Revents → Served → Served
serve_writes k ev s =
    if s.kept && ev.writable
    then (let (d, sent, kept) = flush_client s.client (k.writes s.client.fd) in
        record { agent = s.agent; client = d; sent = sent; kept = kept })
    else s

-- A client with no entry in `fds` is left as it is.
unfoldable pub serve_client : Kernel → Agent → Client → Option Revents → Served
unfolding serve_reads serve_writes
serve_client k a c none = record { agent = a; client = c; sent = []; kept = true }
serve_client k a c (some ev) =
    if ev.hangup
    then record { agent = a; client = c; sent = []; kept = false }
    else serve_writes k ev (serve_reads k a c ev)

keep_client : Served → Server → Server
keep_client r s = record s { clients = r.client ∷ s.clients; sent = (r.client.fd, r.sent) ∷ s.sent }

-- `close_client`
drop_client : Served → Server → Server
drop_client r s = record s {
  closed_fds = r.client.fd ∷ s.closed_fds;
  sent = (r.client.fd, r.sent) ∷ s.sent;
}

-- The sweep from position `i` on: the events are looked up at the position that the client has now.
unfoldable pub sweep_from : Kernel → List Revents → ℕ → Agent → List Client → Server
unfolding serve_client keep_client drop_client
sweep_from k fds i a [] = record { agent = a; clients = []; closed_fds = []; sent = [] }
sweep_from k fds i a (c ∷ cs) =
    let r = serve_client k a c (get_elem? fds i) in
    let stays = keep_client r (sweep_from k fds (i + 1) r.agent cs) in
    let leaves = drop_client r (sweep_from k fds i r.agent cs) in if r.kept then stays else leaves

unfoldable pub sweep : Kernel → List Revents → Agent → List Client → Server
unfolding sweep_from
sweep k fds a clients = sweep_from k fds 0 a clients
