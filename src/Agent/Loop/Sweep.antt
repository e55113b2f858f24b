-- ===== src/Agent/Loop/Sweep.antt =====
-- The sweep over the clients after `poll`.
use mathlib.Core.List.{Perm, perm_middle}
use mathlib.Core.List.Perm
use cardputer_zero_os.Base.{
  ap, ◌∙◌, append-nil, length, ℕ, suc, ◌+◌, ◌≡◌, refl, inl, inr, true, false, Option, none, some,
  List, [], ◌∷◌, ◌++◌, map, get_elem?, Bool-cases, arith,
}
use cardputer_zero_os.Agent.State.{Client, Agent}
use cardputer_zero_os.Agent.Clients.{read_client}
use cardputer_zero_os.Agent.Clients.Bounds.{read_client-fd, flush_client-fd}
use cardputer_zero_os.Agent.Loop.{Revents, Kernel, Server, serve_client, sweep_from, sweep}

serve_client_hangup :
    (k : Kernel) (a : Agent) (c : Client) (ev : Revents)
    → ev.hangup ≡ true
    → serve_client k a c (some ev) ≡ record { agent = a; client = c; sent = []; kept = false }
unfolding serve_client
serve_client_hangup k a c ev h = ground arith

-- Once the events at a position are a hangup, every client from there on is closed, whatever its own
-- events were: the position does not advance past a closed client.
pub sweep_from_hangup :
    (k : Kernel) (fds : List Revents) (i : ℕ) (a : Agent) (ev : Revents) (cs : List Client)
    → get_elem? fds i ≡ some ev
    → ev.hangup ≡ true
    → ((sweep_from k fds i a cs).clients ≡ [])
      × ((sweep_from k fds i a cs).closed_fds ≡ map (λ c. c.fd) cs)
unfolding sweep_from
sweep_from_hangup k fds i a ev [] at h = (refl, refl)
sweep_from_hangup k fds i a ev (c ∷ cs) at h =
    ground (arith, serve_client_hangup k a c ev h, sweep_from_hangup k fds i a ev cs at h)

abbrev pub idle : Revents
idle = record { hangup = false; readable = false; writable = false }

-- Nothing happened on the sockets of these clients, which stand from position `i` on.
abbrev pub AreIdle : List Revents → ℕ → List Client → Type 0
AreIdle fds i [] = Unit {0}
AreIdle fds i (c ∷ cs) = (get_elem? fds i ≡ some idle) × AreIdle fds (i + 1) cs

sweep_from_idle :
    (k : Kernel) (fds : List Revents) (i : ℕ) (a : Agent) (pre cs : List Client)
    → AreIdle fds i pre
    → ((sweep_from k fds i a (pre ++ cs)).clients
        ≡ pre ++ (sweep_from k fds (i + length pre) a cs).clients)
      × ((sweep_from k fds i a (pre ++ cs)).closed_fds
          ≡ (sweep_from k fds (i + length pre) a cs).closed_fds)
unfolding sweep_from
sweep_from_idle k fds i a [] cs h = let e : i + 0 ≡ i = omega arith in rw e (refl, refl)
sweep_from_idle k fds i a (c ∷ pre) cs (hc, h) =
    let e : i + suc (length pre) ≡ i + 1 + length pre = omega arith in
    rw (e, hc) (ground (arith, sweep_from_idle k fds (i + 1) a pre cs h))

-- Where `poll` reports nothing on the clients before it, a client that hangs up is closed together with
-- every client behind it, whatever `poll` reports on those; the clients before it stay.
pub sweep_hangup :
    (k : Kernel) (fds : List Revents) (a : Agent) (pre : List Client) (c : Client)
    (cs : List Client) (ev : Revents)
    → AreIdle fds 0 pre
    → get_elem? fds (length pre) ≡ some ev
    → ev.hangup ≡ true
    → ((sweep k fds a (pre ++ c ∷ cs)).clients ≡ pre)
      × ((sweep k fds a (pre ++ c ∷ cs)).closed_fds ≡ map (λ d. d.fd) (c ∷ cs))
unfolding sweep
sweep_hangup k fds a pre c cs ev quiet at h =
    let e : 0 + length pre ≡ length pre = omega arith in
    let (kept, closed) = sweep_from_hangup k fds (0 + length pre) a ev (c ∷ cs) (rw e at) h in
    let (first, last) = sweep_from_idle k fds 0 a pre (c ∷ cs) quiet in
    (first ∙ ap (◌++◌ pre) kept ∙ append-nil pre, last ∙ closed)

serve_client-fd :
    (k : Kernel) (a : Agent) (c : Client) (ev : Option Revents)
    → (serve_client k a c ev).client.fd ≡ c.fd
unfolding serve_client
serve_client-fd k a c none = refl
serve_client-fd k a c (some ev) = ground (
  arith,
  read_client-fd a c (k.reads c.fd),
  flush_client-fd (read_client a c (k.reads c.fd)).1
      (k.writes (read_client a c (k.reads c.fd)).1.fd),
  flush_client-fd c (k.writes c.fd),
)

-- The descriptors of the clients that stay, and those closed.
abbrev pub accounted : Server → List ℕ
accounted s = map (λ c. c.fd) s.clients ++ s.closed_fds

sweep_from-perm :
    (k : Kernel) (fds : List Revents) (i : ℕ) (a : Agent) (cs : List Client)
    → Perm (accounted (sweep_from k fds i a cs)) (map (λ c. c.fd) cs)
unfolding sweep_from
sweep_from-perm k fds i a [] = Perm.nil
sweep_from-perm k fds i a (c ∷ cs) =
    let r = serve_client k a c (get_elem? fds i) in
    elim (Bool-cases r.kept) [
      | inl e ↦ rw e (
          rw (serve_client-fd k a c (get_elem? fds i))
            (Perm.cons c.fd (sweep_from-perm k fds (i + 1) r.agent cs)))
      | inr e ↦ rw e (
          rw (serve_client-fd k a c (get_elem? fds i))
            (Perm.trans (perm_middle _ _) (Perm.cons c.fd (sweep_from-perm k fds i r.agent cs))))
    ]

-- The sweep loses no connection and invents none: each is kept or closed, exactly once.
pub sweep-perm :
    (k : Kernel) (fds : List Revents) (a : Agent) (cs : List Client)
    → Perm (accounted (sweep k fds a cs)) (map (λ c. c.fd) cs)
unfolding sweep
sweep-perm k fds a cs = sweep_from-perm k fds 0 a cs
