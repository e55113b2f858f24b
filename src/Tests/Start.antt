-- ===== src/Tests/Start.antt =====
-- window-agent/zero-window-agent.cpp from its start on, and a client whose output is sent.
use cardputer_zero_os.Base.{◌≡◌, refl, true, false, none, some, [], ◌∷◌, codes, arith}
use cardputer_zero_os.Agent.State.{Client}
use cardputer_zero_os.Agent.Events.{Event}
use cardputer_zero_os.Agent.Clients.{WriteResult}
use cardputer_zero_os.Agent.Clients.Progress.{flush_rounds, flush_rounds-drained}
use cardputer_zero_os.Agent.Start.{
  Environment, Answers, Wayland, socket_path, init_socket, agent_main,
}
use cardputer_zero_os.Agent.Start.Socket.{
  IsRestricted, init_socket-IsRestricted, IsSoundOption, agent_main-IsSound,
}
use cardputer_zero_os.Agent.Start.Watch.{
  seen_option, watch_main, agent_main-seen, FitsIntOption, agent_main-FitsInt,
}
use cardputer_zero_os.Tests.{text-Lacks}
use cardputer_zero_os.Tests.Clients.{rounds}

abbrev env : Environment
env = record { agent_socket = none; runtime = some (codes "/run/user/1000") }

abbrev answers : Answers
answers = record { mkdir_ok = λ dir. true; socket_ok = true; bind_ok = true; listen_ok = true }

init_socket-IsRestricted_example :
    IsRestricted
      (codes "/run/user/1000/cardputer-zero/window-agent.sock")
      false
      (init_socket answers env).1
unfolding socket_path
init_socket-IsRestricted_example =
    init_socket-IsRestricted answers env
      (text-Lacks 0 (codes "/run/user/1000/cardputer-zero/window-agent.sock") refl)

abbrev wayland : Wayland
wayland = record { connected = true; events = Event.toplevel 80 ∷ []; manager = true }

agent_main-IsSound_example : IsSoundOption (agent_main wayland answers env rounds)
agent_main-IsSound_example = agent_main-IsSound wayland answers env rounds

abbrev client : Client
client = record { fd = 9; subscribed = true; input = []; output = codes "ok\n" }

flush_rounds-drained_example :
    let (c, sent, kept) = flush_rounds client (
      (WriteResult.wrote 2 ∷ WriteResult.would_block ∷ [])
      ∷ (WriteResult.interrupted ∷ WriteResult.wrote 1 ∷ [])
      ∷ (WriteResult.wrote 1 ∷ [])
      ∷ []) in
    (c.output ≡ []) × (sent ≡ codes "ok\n") × (kept ≡ true)
flush_rounds-drained_example =
    flush_rounds-drained client
      ((WriteResult.wrote 2 ∷ WriteResult.would_block ∷ [])
        ∷ (WriteResult.interrupted ∷ WriteResult.wrote 1 ∷ [])
        ∷ (WriteResult.wrote 1 ∷ [])
        ∷ [])
      (tt, (tt, (tt, tt))) (omega arith)

agent_main-seen_example :
    seen_option (agent_main wayland answers env rounds)
    ≡ watch_main wayland (init_socket answers env).0 rounds
agent_main-seen_example = agent_main-seen wayland answers env rounds

agent_main-FitsInt_example : FitsIntOption (agent_main wayland answers env rounds)
agent_main-FitsInt_example = agent_main-FitsInt wayland answers env rounds (omega arith)
