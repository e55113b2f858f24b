-- ===== src/Agent/Run/Windows.antt =====
-- That the clients of window-agent/zero-window-agent.cpp change nothing of what it knows of the windows:
-- from one command to the sweep over all clients.
use cardputer_zero_os.Base.{
  strip_cr, ℕ, zero, suc, ◌+◌, ◌≡◌, ◌∙◌, refl, inl, inr, true, false, ◌&&◌, Option, none, some,
  List, [], ◌∷◌, Bytes, ltb, length, find_cut, get_elem?, if_both, Bool-cases, Option-cases,
}
use cardputer_zero_os.Agent.Wire.{newline}
use cardputer_zero_os.Agent.State.{Client, Agent}
use cardputer_zero_os.Agent.Commands.{handle_command}
use cardputer_zero_os.Agent.Commands.Actions.{handle_command-Extends}
use cardputer_zero_os.Agent.Clients.{max_line, serve_loop, serve, read_client, ReadResult}
use cardputer_zero_os.Agent.Clients.Lines.{receive}
use cardputer_zero_os.Agent.Loop.{
  Revents, Kernel, Server, Served, accept_client, serve_reads, serve_writes, serve_client,
  sweep_from,
}
use cardputer_zero_os.Agent.Run.{serve_clients}

-- The same windows, ids and flag `g_running`.
abbrev pub SameWindows : Agent → Agent → Type 0
SameWindows a b = (b.tasks ≡ a.tasks) × (b.next_id ≡ a.next_id) × (b.running ≡ a.running)

SameWindows-trans : (a b c : Agent) → SameWindows a b → SameWindows b c → SameWindows a c
SameWindows-trans a b c (t, n, r) (u, m, q) = (u ∙ t, m ∙ n, q ∙ r)

handle_command-SameWindows :
    (a : Agent) (c : Client) (line : Bytes) → SameWindows a (handle_command a c line).0
handle_command-SameWindows a c line =
    let x = handle_command-Extends a c line in (x.same_tasks, x.same_next_id, x.same_running)

serve_loop-SameWindows : (fuel : ℕ) (a : Agent) (c : Client) → SameWindows a (serve_loop fuel a c).0
unfolding serve_loop
serve_loop-SameWindows zero a c = (refl, refl, refl)
serve_loop-SameWindows (suc fuel) a c = elim (Option-cases (find_cut newline c.input)) [
  | inl e ↦ rw (e, serve_loop) (refl, refl, refl)
  | inr ((l, rest), e) ↦
      let d = record c { input = rest } in
      let (b, f) = handle_command a d (strip_cr l) in
      rw (e, serve_loop)
        (SameWindows-trans a b (serve_loop fuel b f).0 (handle_command-SameWindows a d (strip_cr l))
          (serve_loop-SameWindows fuel b f))
]

read_client-SameWindows :
    (a : Agent) (c : Client) (results : List ReadResult) → SameWindows a (read_client a c results).0
unfolding read_client
read_client-SameWindows a c [] = (refl, refl, refl)
read_client-SameWindows a c (ReadResult.would_block ∷ more) = (refl, refl, refl)
read_client-SameWindows a c (ReadResult.interrupted ∷ more) = read_client-SameWindows a c more
read_client-SameWindows a c (ReadResult.end_of_file ∷ more) = (refl, refl, refl)
read_client-SameWindows a c (ReadResult.failed ∷ more) = (refl, refl, refl)
read_client-SameWindows a c (ReadResult.got [] ∷ more) = (refl, refl, refl)
read_client-SameWindows a c (ReadResult.got (x ∷ xs) ∷ more) =
    let d = receive (x ∷ xs) c in
    let (b, f) = serve a d in
    elim (Bool-cases (ltb max_line (length d.input))) [
      | inl over ↦ rw over (refl, refl, refl)
      | inr fits ↦ rw fits (
          SameWindows-trans a b (read_client b f more).0
            (unfold serve in serve_loop-SameWindows (suc (length d.input)) a d)
            (read_client-SameWindows b f more))
    ]

serve_client-SameWindows :
    (k : Kernel) (a : Agent) (c : Client) (ev : Option Revents)
    → SameWindows a (serve_client k a c ev).agent
unfolding serve_client serve_reads serve_writes
serve_client-SameWindows k a c none = (refl, refl, refl)
serve_client-SameWindows k a c (some ev) =
    let Same : Served → Type 0 = λ r. SameWindows a r.agent in
    let reads =
      if_both Same ev.readable _ (record { agent = a; client = c; sent = []; kept = true })
        (read_client-SameWindows a c (k.reads c.fd)) (refl, refl, refl) in
    if_both Same ev.hangup (record { agent = a; client = c; sent = []; kept = false })
      (serve_writes k ev (serve_reads k a c ev)) (refl, refl, refl)
      (if_both Same ((serve_reads k a c ev).kept && ev.writable) _ (serve_reads k a c ev) reads
        reads)

sweep_from-SameWindows :
    (k : Kernel) (fds : List Revents) (i : ℕ) (a : Agent) (cs : List Client)
    → SameWindows a (sweep_from k fds i a cs).agent
unfolding sweep_from
sweep_from-SameWindows k fds i a [] = (refl, refl, refl)
sweep_from-SameWindows k fds i a (c ∷ cs) =
    let r = serve_client k a c (get_elem? fds i) in
    let first = serve_client-SameWindows k a c (get_elem? fds i) in
    elim (Bool-cases r.kept) [
      | inl e ↦ rw e (
          SameWindows-trans a r.agent (sweep_from k fds (i + 1) r.agent cs).agent first
            (sweep_from-SameWindows k fds (i + 1) r.agent cs))
      | inr e ↦ rw e (
          SameWindows-trans a r.agent (sweep_from k fds i r.agent cs).agent first
            (sweep_from-SameWindows k fds i r.agent cs))
    ]

-- The connections that are accepted and the sweep.
pub serve_clients-SameWindows :
    (accepts : List ℕ) (fds : List Revents) (k : Kernel) (s : Server)
    → SameWindows s.agent (serve_clients accepts fds k s).agent
unfolding serve_clients
serve_clients-SameWindows accepts fds k s =
    sweep_from-SameWindows k fds 0 s.agent (accept_client accepts s.clients)
