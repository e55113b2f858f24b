-- ===== src/Agent/Clients.antt =====
-- `accept_client`, `read_client`, `flush_client` and `close_client` of
-- window-agent/zero-window-agent.cpp. What the kernel answers to `read` and `write` on a socket is a
-- list of results; where the list ends the call would block.
pub mod Lines
pub mod Bounds
pub mod Progress
use cardputer_zero_os.Base.{
  ℕ, zero, suc, ◌+◌, ◌<◌, Bool, true, false, ◌&&◌, Option, none, some, List, [], ◌∷◌, ◌++◌, Bytes,
  ltb, ◌==◌, if◌then◌else◌, is_empty, length, take, drop, find_cut, strip_cr,
}
use cardputer_zero_os.Agent.Wire.{newline}
use cardputer_zero_os.Agent.State.{Client, Agent}
use cardputer_zero_os.Agent.Commands.{handle_command}

abbrev pub max_line : ℕ
max_line = 4096

-- The loop over the complete lines of `client.input`, on fuel: a round takes a newline away.
unfoldable pub serve_loop : ℕ → Agent → Client → Agent × Client
serve_loop zero a client = (a, client)
serve_loop (suc fuel) a client = elim (find_cut newline client.input) [
  | none ↦ (a, client)
  | some (line, rest) ↦
      let (b, c) = handle_command a (record client { input = rest }) (strip_cr line) in
      serve_loop fuel b c
]

unfoldable pub serve : Agent → Client → Agent × Client
unfolding serve_loop
serve a client = serve_loop (suc (length client.input)) a client

pub data ReadResult : Type 0 where
  got : Bytes → ReadResult
  end_of_file would_block interrupted failed : ReadResult

-- The agent, the client, and whether to keep it. `read` returns 0 for no bytes.
unfoldable pub read_client : Agent → Client → List ReadResult → Agent × Client × Bool
unfolding serve
read_client a client [] = (a, client, true)
read_client a client (ReadResult.would_block ∷ more) = (a, client, true)
read_client a client (ReadResult.interrupted ∷ more) = read_client a client more
read_client a client (ReadResult.end_of_file ∷ more) = (a, client, false)
read_client a client (ReadResult.failed ∷ more) = (a, client, false)
read_client a client (ReadResult.got [] ∷ more) = (a, client, false)
read_client a client (ReadResult.got (x ∷ xs) ∷ more) =
    let c = record client { input = client.input ++ x ∷ xs } in
    let (b, d) = serve a c in
    let rest = read_client b d more in if ltb max_line (length c.input) then (a, c, false) else rest

pub data WriteResult : Type 0 where
  wrote : ℕ → WriteResult
  would_block interrupted failed : WriteResult

-- The client, the bytes that the kernel took, and whether to keep the client.
abbrev add_sent : Bytes → Client × Bytes × Bool → Client × Bytes × Bool
add_sent before (client, sent, kept) = (client, before ++ sent, kept)

-- An empty output ends the loop before any `write`, so a result is not read then.
unfoldable pub flush_client : Client → List WriteResult → Client × Bytes × Bool
flush_client client [] = (client, [], true)
flush_client client (WriteResult.wrote zero ∷ more) = (client, [], is_empty client.output)
flush_client client (WriteResult.wrote (suc n) ∷ more) =
    let rest = flush_client (record client { output = drop (suc n) client.output }) more in
    if is_empty client.output
    then (client, [], true)
    else add_sent (take (suc n) client.output) rest
flush_client client (WriteResult.interrupted ∷ more) = flush_client client more
flush_client client (WriteResult.would_block ∷ more) = (client, [], true)
flush_client client (WriteResult.failed ∷ more) = (client, [], is_empty client.output)
