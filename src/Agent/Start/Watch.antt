-- ===== src/Agent/Start/Watch.antt =====
-- The whole of window-agent/zero-window-agent.cpp, as far as the windows go.
use cardputer_zero_os.Base.{
  ℕ, ◌+◌, ◌^◌, ◌<◌, ◌≡◌, ◌∙◌, refl, ap, Bool, true, false, not, Option, none, some, List, [],
  if◌then◌else◌, arith,
}
use cardputer_zero_os.Agent.Events.{dispatch_all}
use cardputer_zero_os.Agent.Loop.{Server}
use cardputer_zero_os.Agent.Run.{Round, Outcome, run}
use cardputer_zero_os.Agent.Run.Watch.{
  Watch, watch_events, watch_run, seen, run-seen, dispatch_all-watch,
}
use cardputer_zero_os.Agent.Run.Bounds.{
  announced, announced_rounds, next_of, FitsInt, watch_events-next_of, run-FitsInt,
}
use cardputer_zero_os.Agent.Start.{
  Environment, Answers, Wayland, new_agent, init_wayland, init_socket, start_server, agent_main,
}
use cardputer_zero_os.Agent.Events.Ids.{dispatch_all-IsValid}

abbrev pub seen_option : Option Outcome → Option (Watch × Option ℕ)
seen_option none = none
seen_option (some o) = some (seen o)

-- No window, and the first id is 1.
abbrev pub new_watch : Watch
new_watch = (true, (1, λ i. none))

-- With whether the socket was opened.
abbrev pub watch_main : Wayland → Bool → List Round → Option (Watch × Option ℕ)
watch_main wl opened rounds =
    if not wl.connected
    then none
    else if not wl.manager
    then none
    else if opened
    then some (watch_run (watch_events new_watch wl.events) rounds)
    else none

-- From the start of the program on, the windows that the agent knows by their ids, whether it goes on,
-- and the status with which it exits are those that the start, the compositor's events, the signals and
-- the ways that `poll` returns make by themselves over any rounds: a window is added under the next id,
-- its events change it alone, a closed one is forgotten, and nothing of it depends on what clients
-- connect, send and read.
pub agent_main-seen :
    (wl : Wayland) (k : Answers) (env : Environment) (rounds : List Round)
    → seen_option (agent_main wl k env rounds) ≡ watch_main wl (init_socket k env).0 rounds
unfolding agent_main init_wayland start_server
agent_main-seen wl k env rounds = by_test (init_socket k env).0 wl.connected wl.manager
  where
    by_test :
        (opened connected manager : Bool)
        → seen_option (
            start_server opened rounds (
              if not connected
              then none
              else if not manager
              then none
              else some (dispatch_all new_agent wl.events)))
          ≡ watch_main (record wl { connected = connected; manager = manager }) opened rounds
    by_test opened false manager = refl
    by_test opened true false = refl
    by_test false true true = refl
    by_test true true true =
        let a = dispatch_all new_agent wl.events in
        let v = dispatch_all-IsValid new_agent wl.events (omega arith) in
        ap some (
          run-seen (record { agent = a; clients = []; closed_fds = []; sent = [] }) rounds
            (record { ids = v; inputs = tt })
          ∙ ap (λ w. watch_run w rounds) (dispatch_all-watch new_agent wl.events (omega arith)))

abbrev pub FitsIntOption : Option Outcome → Type 0
FitsIntOption none = Unit
FitsIntOption (some o) = FitsInt o

-- As long as fewer than 2^31 - 1 windows have been announced since the program's start, no id, nor the
-- next one, is beyond C's type int.
pub agent_main-FitsInt :
    (wl : Wayland) (k : Answers) (env : Environment) (rounds : List Round)
    → 1 + announced wl.events + announced_rounds rounds < 2 ^ 31
    → FitsIntOption (agent_main wl k env rounds)
unfolding agent_main init_wayland start_server
agent_main-FitsInt wl k env rounds few =
    let a = dispatch_all new_agent wl.events in
    let v = dispatch_all-IsValid new_agent wl.events (omega arith) in
    let same : a.next_id ≡ next_of (watch_events new_watch wl.events) =
      ap next_of (dispatch_all-watch new_agent wl.events (omega arith)) in
    let bound = watch_events-next_of new_watch wl.events in
    let begun : Server = record { agent = a; clients = []; closed_fds = []; sent = [] } in
    let fits =
      run-FitsInt begun rounds (record { ids = v; inputs = tt }) (omega (arith, same, bound)) in
    by_test (init_socket k env).0 wl.connected wl.manager fits
  where
    by_test :
        (opened connected manager : Bool)
        → FitsInt (
            run
              (record {
                agent = dispatch_all new_agent wl.events;
                clients = [];
                closed_fds = [];
                sent = [];
              })
              rounds)
        → FitsIntOption (
            start_server opened rounds (
              if not connected
              then none
              else if not manager
              then none
              else some (dispatch_all new_agent wl.events)))
    by_test opened false manager h = tt
    by_test opened true false h = tt
    by_test false true true h = tt
    by_test true true true h = h
