-- ===== src/Agent/Clients/Bounds.antt =====
-- The limit on a client's input, `kMaxLine`, and what stays of a client through its I/O.
use cardputer_zero_os.Base.{
  strip_cr, ℕ, zero, suc, ◌≤◌, ◌≡◌, refl, ◌∙◌, inl, inr, drop, find_cut, Option-cases, true, List,
  [], ◌∷◌, ltb, length, Lacks, Bool-cases, arith,
}
use cardputer_zero_os.Agent.Wire.{newline}
use cardputer_zero_os.Agent.State.{Client, Agent}
use cardputer_zero_os.Agent.Stream.{lines-rest, length-lines}
use cardputer_zero_os.Agent.Clients.{
  max_line, serve_loop, serve, read_client, flush_client, ReadResult, WriteResult,
}
use cardputer_zero_os.Agent.Commands.{handle_command}
use cardputer_zero_os.Agent.Commands.Frame.{handle_command-fd}
use cardputer_zero_os.Agent.Clients.Lines.{serve-input, receive}

-- What is kept of a client's input between calls: an unfinished line of at most the limit.
abbrev pub IsBounded : Client → Type 0
IsBounded c = Lacks newline c.input × (length c.input ≤ max_line)

serve-IsBounded : (a : Agent) (c : Client) → length c.input ≤ max_line → IsBounded (serve a c).1
serve-IsBounded a c h =
    rw (serve-input a c) (lines-rest c.input, omega (arith, length-lines c.input))

-- A client that `read_client` keeps has no complete line left and at most 4096 bytes of input, if it
-- had none and no more before.
pub read_client-IsBounded :
    (a : Agent) (c : Client) (results : List ReadResult)
    → IsBounded c
    → (read_client a c results).2 ≡ true
    → IsBounded (read_client a c results).1
unfolding read_client
read_client-IsBounded a c [] v e = v
read_client-IsBounded a c (ReadResult.would_block ∷ more) v e = v
read_client-IsBounded a c (ReadResult.interrupted ∷ more) v e = read_client-IsBounded a c more v e
read_client-IsBounded a c (ReadResult.end_of_file ∷ more) v e = cc
read_client-IsBounded a c (ReadResult.failed ∷ more) v e = cc
read_client-IsBounded a c (ReadResult.got [] ∷ more) v e = cc
read_client-IsBounded a c (ReadResult.got (x ∷ xs) ∷ more) v e =
    let d = receive (x ∷ xs) c in
    let (b, f) = serve a d in
    elim (Bool-cases (ltb max_line (length d.input))) [
      | inl over ↦ cc
      | inr fits ↦
          rw fits
            (read_client-IsBounded b f more (serve-IsBounded a d (ground arith)) (rw fits at e))
    ]

serve_loop-fd : (fuel : ℕ) (a : Agent) (c : Client) → (serve_loop fuel a c).1.fd ≡ c.fd
unfolding serve_loop
serve_loop-fd zero a c = refl
serve_loop-fd (suc fuel) a c = elim (Option-cases (find_cut newline c.input)) [
  | inl e ↦ rw (e, serve_loop)
  | inr ((l, rest), e) ↦
      let d = record c { input = rest } in
      let (b, f) = handle_command a d (strip_cr l) in
      rw (e, serve_loop) (serve_loop-fd fuel b f ∙ handle_command-fd a d (strip_cr l))
]

pub read_client-fd :
    (a : Agent) (c : Client) (results : List ReadResult) → (read_client a c results).1.fd ≡ c.fd
unfolding read_client
read_client-fd a c [] = refl
read_client-fd a c (ReadResult.would_block ∷ more) = refl
read_client-fd a c (ReadResult.interrupted ∷ more) = read_client-fd a c more
read_client-fd a c (ReadResult.end_of_file ∷ more) = refl
read_client-fd a c (ReadResult.failed ∷ more) = refl
read_client-fd a c (ReadResult.got [] ∷ more) = refl
read_client-fd a c (ReadResult.got (x ∷ xs) ∷ more) =
    let d = receive (x ∷ xs) c in
    let (b, f) = serve a d in
    elim (Bool-cases (ltb max_line (length d.input))) [
      | inl over ↦ rw over refl
      | inr fits ↦
          rw fits
            (read_client-fd b f more ∙ (unfold serve in serve_loop-fd (suc (length d.input)) a d))
    ]

pub flush_client-fd :
    (c : Client) (results : List WriteResult) → (flush_client c results).0.fd ≡ c.fd
unfolding flush_client
flush_client-fd c [] = refl
flush_client-fd c (WriteResult.wrote zero ∷ more) = refl
flush_client-fd c (WriteResult.wrote (suc n) ∷ more) =
    ground (arith, flush_client-fd (record c { output = drop (suc n) c.output }) more)
flush_client-fd c (WriteResult.interrupted ∷ more) = flush_client-fd c more
flush_client-fd c (WriteResult.would_block ∷ more) = refl
flush_client-fd c (WriteResult.failed ∷ more) = refl
