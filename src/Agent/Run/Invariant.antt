-- ===== src/Agent/Run/Invariant.antt =====
-- What holds between the rounds of the loop, whatever happens in them.
use cardputer_zero_os.Base.{
  strip_cr, ℕ, zero, suc, ◌+◌, ◌≡◌, refl, inl, inr, true, not, ◌&&◌, Option, none, some, List, [],
  ◌∷◌, Bytes, codes, ltb, length, drop, find_cut, get_elem?, if_both, All, All-append, Bool-cases,
  Option-cases, arith,
}
use cardputer_zero_os.Agent.Wire.{newline}
use cardputer_zero_os.Agent.State.{Task, Client, Agent}
use cardputer_zero_os.Agent.Events.{Event, dispatch_all, prune_closed}
use cardputer_zero_os.Agent.Events.Ids.{IsValid, dispatch_all-IsValid}
use cardputer_zero_os.Agent.Commands.{handle_command, send, send_tasks, send_snapshot, task_line}
use cardputer_zero_os.Agent.Commands.Actions.{handle_command-Extends}
use cardputer_zero_os.Agent.Clients.{
  max_line, serve_loop, serve, read_client, flush_client, ReadResult, WriteResult,
}
use cardputer_zero_os.Agent.Clients.Lines.{receive}
use cardputer_zero_os.Agent.Clients.Bounds.{IsBounded, read_client-IsBounded}
use cardputer_zero_os.Agent.Loop.{
  Revents, Kernel, Server, Served, broadcast_snapshot, refresh, announce, accept_client,
  serve_reads, serve_writes, serve_client, sweep_from,
}
use cardputer_zero_os.Agent.Loop.Broadcast.{refresh_lem}
use cardputer_zero_os.Agent.Run.{
  Display, Poll, Round, leave, Outcome, serve_clients, after_poll, round, and_then, run, server,
}

handle_command-IsValid :
    (a : Agent) (c : Client) (line : Bytes) → IsValid a → IsValid (handle_command a c line).0
handle_command-IsValid a c line v =
    let x = handle_command-Extends a c line in rw (x.same_tasks, x.same_next_id) v

serve_loop-IsValid :
    (fuel : ℕ) (a : Agent) (c : Client) → IsValid a → IsValid (serve_loop fuel a c).0
unfolding serve_loop
serve_loop-IsValid zero a c v = v
serve_loop-IsValid (suc fuel) a c v = elim (Option-cases (find_cut newline c.input)) [
  | inl e ↦ rw (e, serve_loop) v
  | inr ((l, rest), e) ↦
      let d = record c { input = rest } in
      let (b, f) = handle_command a d (strip_cr l) in
      rw (e, serve_loop) (serve_loop-IsValid fuel b f (handle_command-IsValid a d (strip_cr l) v))
]

read_client-IsValid :
    (a : Agent) (c : Client) (results : List ReadResult)
    → IsValid a
    → IsValid (read_client a c results).0
unfolding read_client
read_client-IsValid a c [] v = v
read_client-IsValid a c (ReadResult.would_block ∷ more) v = v
read_client-IsValid a c (ReadResult.interrupted ∷ more) v = read_client-IsValid a c more v
read_client-IsValid a c (ReadResult.end_of_file ∷ more) v = v
read_client-IsValid a c (ReadResult.failed ∷ more) v = v
read_client-IsValid a c (ReadResult.got [] ∷ more) v = v
read_client-IsValid a c (ReadResult.got (x ∷ xs) ∷ more) v =
    let d = receive (x ∷ xs) c in
    let (b, f) = serve a d in
    elim (Bool-cases (ltb max_line (length d.input))) [
      | inl over ↦ rw over v
      | inr fits ↦ rw fits (
          read_client-IsValid b f more
            (unfold serve in serve_loop-IsValid (suc (length d.input)) a d v))
    ]

flush_client-input :
    (c : Client) (results : List WriteResult) → (flush_client c results).0.input ≡ c.input
unfolding flush_client
flush_client-input c [] = refl
flush_client-input c (WriteResult.wrote zero ∷ more) = refl
flush_client-input c (WriteResult.wrote (suc n) ∷ more) =
    ground (arith, flush_client-input (record c { output = drop (suc n) c.output }) more)
flush_client-input c (WriteResult.interrupted ∷ more) = flush_client-input c more
flush_client-input c (WriteResult.would_block ∷ more) = refl
flush_client-input c (WriteResult.failed ∷ more) = refl

send_tasks-input : (ts : List Task) (c : Client) → (send_tasks ts c).input ≡ c.input
unfolding send_tasks
send_tasks-input [] c = refl
send_tasks-input (t ∷ ts) c =
    ground (arith, send_tasks-input ts c, send_tasks-input ts (send c (task_line t)))

send_snapshot-input : (a : Agent) (c : Client) → (send_snapshot a c).input ≡ c.input
unfolding send_snapshot
send_snapshot-input a c = send_tasks-input a.tasks (send c (codes "snapshot-begin"))

broadcast_snapshot-IsBounded :
    (a : Agent) (cs : List Client) → All IsBounded cs → All IsBounded (broadcast_snapshot a cs)
unfolding broadcast_snapshot
broadcast_snapshot-IsBounded a [] h = tt
broadcast_snapshot-IsBounded a (c ∷ cs) (hc, h) = (
  if_both IsBounded c.subscribed (send_snapshot a c) c (rw (send_snapshot-input a c) hc) hc,
  broadcast_snapshot-IsBounded a cs h,
)

-- The ids are valid, and no client's input holds a complete line or too much.
pub record IsSound (s : Server) : Type 0 where
  pub ids : IsValid s.agent
  pub inputs : All IsBounded s.clients

announce-inputs :
    (s : Server) (a : Agent) → All IsBounded s.clients → All IsBounded (announce s a).clients
unfolding announce
announce-inputs s a h =
    if_both (λ (t : Server). All IsBounded t.clients) a.changed _ _
      (broadcast_snapshot-IsBounded a s.clients h) h

pub refresh-IsSound : (s : Server) (events : List Event) → IsSound s → IsSound (refresh s events)
refresh-IsSound s events v = record {
  ids = (refresh_lem s events v.ids).2;
  inputs =
      unfold refresh in announce-inputs s (prune_closed (dispatch_all s.agent events)) v.inputs;
}

-- Whether the served client is still bounded, where it is kept.
abbrev IsServed : Served → Type 0
IsServed r = IsValid r.agent × (r.kept ≡ true → IsBounded r.client)

serve_writes-IsServed :
    (k : Kernel) (ev : Revents) (r : Served) → IsServed r → IsServed (serve_writes k ev r)
unfolding serve_writes
serve_writes-IsServed k ev r (v, h) = elim (Bool-cases (r.kept && ev.writable)) [
  | inl e ↦
      rw e (v, λ kept. rw (flush_client-input r.client (k.writes r.client.fd)) (h (ground arith)))
  | inr e ↦ rw e (v, h)
]

serve_reads-IsServed :
    (k : Kernel) (a : Agent) (c : Client) (ev : Revents)
    → IsValid a
    → IsBounded c
    → IsServed (serve_reads k a c ev)
unfolding serve_reads
serve_reads-IsServed k a c ev v h =
    if_both IsServed ev.readable _ _
      (
        read_client-IsValid a c (k.reads c.fd) v,
        λ kept. read_client-IsBounded a c (k.reads c.fd) h kept,
      )
      (v, λ kept. h)

serve_client-IsServed :
    (k : Kernel) (a : Agent) (c : Client) (ev : Option Revents)
    → IsValid a
    → IsBounded c
    → IsServed (serve_client k a c ev)
serve_client-IsServed k a c none v h = unfold serve_client in (v, λ kept. h)
serve_client-IsServed k a c (some ev) v h =
    let served =
      serve_writes-IsServed k ev (serve_reads k a c ev) (serve_reads-IsServed k a c ev v h) in
    unfold serve_client in if_both IsServed ev.hangup _ _ (v, λ kept. cc) served

sweep_from-IsSound :
    (k : Kernel) (fds : List Revents) (i : ℕ) (a : Agent) (cs : List Client)
    → IsValid a
    → All IsBounded cs
    → IsSound (sweep_from k fds i a cs)
unfolding sweep_from
sweep_from-IsSound k fds i a [] v h = record { ids = v; inputs = tt }
sweep_from-IsSound k fds i a (c ∷ cs) v (hc, h) =
    let r = serve_client k a c (get_elem? fds i) in
    let (w, bounded) = serve_client-IsServed k a c (get_elem? fds i) v hc in
    elim (Bool-cases r.kept) [
      | inl e ↦
          let rest = sweep_from-IsSound k fds (i + 1) r.agent cs w h in
          rw e (record { ids = rest.ids; inputs = (bounded e, rest.inputs) })
      | inr e ↦
          let rest = sweep_from-IsSound k fds i r.agent cs w h in
          rw e (record { ids = rest.ids; inputs = rest.inputs })
    ]

accept_client-IsBounded :
    (fds : List ℕ) (cs : List Client) → All IsBounded cs → All IsBounded (accept_client fds cs)
unfolding accept_client
accept_client-IsBounded [] cs h = h
accept_client-IsBounded (fd ∷ more) cs h =
    accept_client-IsBounded more _ (All-append IsBounded cs _ h ((tt, omega arith), tt))

serve_clients-IsSound :
    (accepts : List ℕ) (fds : List Revents) (k : Kernel) (s : Server)
    → IsSound s
    → IsSound (serve_clients accepts fds k s)
unfolding serve_clients
serve_clients-IsSound accepts fds k s v =
    let t =
      sweep_from-IsSound k fds 0 s.agent (accept_client accepts s.clients) v.ids
        (accept_client-IsBounded accepts s.clients v.inputs) in
    record { ids = t.ids; inputs = t.inputs }

after_poll-IsSound : (s : Server) (p : Poll) → IsSound s → IsSound (server (after_poll s p))
unfolding after_poll server leave
after_poll-IsSound s Poll.failed v = v
after_poll-IsSound s Poll.interrupted v = v
after_poll-IsSound s Poll.timed_out v = v
after_poll-IsSound s (Poll.ready (Display.broken display_error) accepts fds k) v = v
after_poll-IsSound s (Poll.ready Display.quiet accepts fds k) v =
    serve_clients-IsSound accepts fds k s v
after_poll-IsSound s (Poll.ready (Display.dispatched events) accepts fds k) v =
    serve_clients-IsSound accepts fds k _
      (record { ids = dispatch_all-IsValid s.agent events v.ids; inputs = v.inputs })

pub round-IsSound : (s : Server) (r : Round) → IsSound s → IsSound (server (round s r))
unfolding round server leave
round-IsSound s r v =
    let t = refresh-IsSound s r.pending v in
    if_both (λ (o : Outcome). IsSound (server o))
      (s.agent.running && not r.signalled && not r.display_error) _ (leave r.display_error s)
      (after_poll-IsSound _ r.poll (record { ids = t.ids; inputs = t.inputs })) v

and_then-IsSound :
    (f : Server → Outcome) (o : Outcome)
    → ((s : Server) → IsSound s → IsSound (server (f s)))
    → IsSound (server o)
    → IsSound (server (and_then f o))
unfolding and_then server
and_then-IsSound f (Outcome.next s) h v = h s v
and_then-IsSound f (Outcome.exited code s) h v = v

-- Whatever the compositor reports and whatever clients send, in any number of rounds: the ids stay
-- positive and distinct, and no client's input holds a complete line or more than 4096 bytes, if that
-- held at the start.
pub run-IsSound : (s : Server) (rs : List Round) → IsSound s → IsSound (server (run s rs))
unfolding run
run-IsSound s [] v = unfold server in v
run-IsSound s (r ∷ rs) v =
    and_then-IsSound (λ t. run t rs) (round s r) (λ t w. run-IsSound t rs w) (round-IsSound s r v)
