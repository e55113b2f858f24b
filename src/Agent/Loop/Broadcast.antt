-- ===== src/Agent/Loop/Broadcast.antt =====
-- The head of a round: what the compositor's events change, and who is told.
use cardputer_zero_os.Base.{
  ◌≡◌, refl, ◌∙◌, false, List, [], ◌∷◌, ◌++◌, map, append-nil, Bytes, keep, if◌then◌else◌, arith,
}
use cardputer_zero_os.Agent.State.{Client, Agent}
use cardputer_zero_os.Agent.Stream.{unlines}
use cardputer_zero_os.Agent.Events.{Event, dispatch_all, prune_closed}
use cardputer_zero_os.Agent.Events.Ids.{
  IsValid, is_open, dispatch_all-IsValid, prune_closed_lem, prune_closed-IsValid,
}
use cardputer_zero_os.Agent.Commands.Snapshot.{snapshot_lines, send_snapshot-output}
use cardputer_zero_os.Agent.Loop.{Server, refresh, announce, broadcast_snapshot}

-- What each client is sent: a snapshot if it subscribed.
abbrev pub told : Agent → Client → Bytes
told a c = if c.subscribed then unlines (snapshot_lines a) else []

broadcast_snapshot-output :
    (a : Agent) (cs : List Client)
    → map (λ c. c.output) (broadcast_snapshot a cs) ≡ map (λ c. c.output ++ told a c) cs
unfolding broadcast_snapshot
broadcast_snapshot-output a [] = refl
broadcast_snapshot-output a (c ∷ cs) =
    ground (arith, broadcast_snapshot-output a cs, send_snapshot-output a c, append-nil c.output)

announce_lem :
    (s : Server) (a : Agent)
    → ((announce s a).agent.changed ≡ false)
      × ((announce s a).agent.tasks ≡ a.tasks)
      × ((announce s a).agent.next_id ≡ a.next_id)
      × (map (λ c. c.output) (announce s a).clients ≡ (
          if a.changed
          then map (λ c. c.output ++ told a c) s.clients
          else map (λ c. c.output) s.clients))
unfolding announce
announce_lem s a = ground (arith, broadcast_snapshot-output a s.clients)

module _ (s : Server) (events : List Event) where
  abbrev pub settled : Agent
  settled = prune_closed (dispatch_all s.agent events)

  -- After the head of a round no closed task is left, no change is pending and the ids are still
  -- valid, if they were. If something had changed, every subscriber's output has grown by one snapshot
  -- of the tasks as they are now, and no other output has changed; if nothing had, no output has.
  pub refresh_lem :
      IsValid s.agent
      → ((refresh s events).agent.changed ≡ false)
        × ((refresh s events).agent.tasks ≡ keep is_open (dispatch_all s.agent events).tasks)
        × IsValid (refresh s events).agent
        × (map (λ c. c.output) (refresh s events).clients ≡ (
            if settled.changed
            then map (λ c. c.output ++ told settled c) s.clients
            else map (λ c. c.output) s.clients))
  refresh_lem v =
      let (pending, tasks, next, outputs) = announce_lem s settled in
      let valid =
        prune_closed-IsValid (dispatch_all s.agent events)
          (dispatch_all-IsValid s.agent events v) in
      rw refresh_announce (
        pending,
        tasks ∙ (prune_closed_lem (dispatch_all s.agent events)).0,
        rw (next, tasks) valid,
        outputs,
      )
    where
      refresh_announce : refresh s events ≡ announce s settled
      refresh_announce = unfold refresh in refl
