-- ===== src/Agent/Run.antt =====
-- `WindowAgent::run` of window-agent/zero-window-agent.cpp: a whole round, and rounds in a row. What
-- the display and `poll` report in a round is given.
pub mod Invariant
pub mod Windows
pub mod Watch
pub mod Bounds
use cardputer_zero_os.Base.{
  ℕ, Bool, true, false, not, ◌&&◌, ◌||◌, Option, none, some, List, [], ◌∷◌, ◌++◌, if◌then◌else◌,
}
use cardputer_zero_os.Agent.State.{Agent, Request, request, Client}
use cardputer_zero_os.Agent.Events.{Event, dispatch_all}
use cardputer_zero_os.Agent.Loop.{Revents, Kernel, Server, refresh, accept_client, sweep}

-- `fds[0]`: not readable, dispatched with these events, or `wl_display_dispatch` failed, with whether
-- `wl_display_get_error` is then set.
pub data Display : Type 0 where
  quiet : Display
  broken : Bool → Display
  dispatched : List Event → Display

-- What `poll` returns, with what the kernel then holds: the display, the connections that `accept4`
-- returns if `fds[1]` is readable, the clients' events and the answers of their sockets.
pub data Poll : Type 0 where
  failed interrupted timed_out : Poll
  ready : Display → List ℕ → List Revents → Kernel → Poll

-- A round: whether a signal has run `signal_handler` by its start, whether `wl_display_get_error` is
-- set then, the pending events at its head, and what `poll` reports.
pub record Round : Type 0 where
  pub signalled : Bool
  pub display_error : Bool
  pub pending : List Event
  pub poll : Poll

-- The loop goes on, or `run` returns a status.
pub data Outcome : Type 0 where
  next : Server → Outcome
  exited : ℕ → Server → Outcome

-- `return wl_display_get_error(display_) == 0 ? 0 : 1;`
pub leave : Bool → Server → Outcome
leave display_error s = Outcome.exited (if display_error then 1 else 0) s

pub on_agent : (Agent → Agent) → Server → Server
on_agent f s = record s { agent = f s.agent }

-- `accept_client` and the sweep.
unfoldable pub serve_clients : List ℕ → List Revents → Kernel → Server → Server
unfolding accept_client sweep
serve_clients accepts fds k s =
    let t = sweep k fds s.agent (accept_client accepts s.clients) in
    record t { closed_fds = t.closed_fds ++ s.closed_fds; sent = t.sent ++ s.sent }

after_poll : Server → Poll → Outcome
unfolding on_agent serve_clients dispatch_all leave
after_poll s Poll.failed = Outcome.exited 1 s
after_poll s Poll.interrupted = Outcome.next s
after_poll s Poll.timed_out = Outcome.next s
after_poll s (Poll.ready (Display.broken display_error) accepts fds k) = leave display_error s
after_poll s (Poll.ready Display.quiet accepts fds k) = Outcome.next (serve_clients accepts fds k s)
after_poll s (Poll.ready (Display.dispatched events) accepts fds k) =
    Outcome.next (serve_clients accepts fds k (on_agent (λ a. dispatch_all a events) s))

-- The loop's test and its body. `wl_display_flush` stands before `poll`.
unfoldable pub round : Server → Round → Outcome
unfolding after_poll refresh request on_agent leave
round s r =
    if s.agent.running && not r.signalled && not r.display_error
    then after_poll (on_agent (λ a. request a Request.flush) (refresh s r.pending)) r.poll
    else leave r.display_error s

-- Goes on after a round, or stays where the loop ended.
and_then : (Server → Outcome) → Outcome → Outcome
and_then f (Outcome.next s) = f s
and_then f (Outcome.exited code s) = Outcome.exited code s

-- Rounds in a row, until `run` returns. The socket's path is removed then.
unfoldable pub run : Server → List Round → Outcome
unfolding round and_then
run s [] = Outcome.next s
run s (r ∷ rs) = and_then (λ t. run t rs) (round s r)

pub server : Outcome → Server
server (Outcome.next s) = s
server (Outcome.exited code s) = s
