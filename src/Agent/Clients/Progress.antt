-- ===== src/Agent/Clients/Progress.antt =====
-- When the queued output of a client is sent in full: `flush_client` of
-- window-agent/zero-window-agent.cpp over the rounds in which the client's socket is writable.
use cardputer_zero_os.Base.{
  ℕ, zero, suc, ◌-◌, ◌≤◌, ◌≡◌, ◌∙◌, refl, sym, ap, Bool, true, false, List, [], ◌∷◌, ◌++◌, Bytes,
  is_empty, if◌then◌else◌, length, take, drop, if_both, if_when, All, arith,
}
use cardputer_zero_os.Agent.State.{Client}
use cardputer_zero_os.Agent.Clients.{WriteResult, add_sent, flush_client}
use cardputer_zero_os.Agent.Clients.Lines.{flush_client-output}

-- No `write` fails, and none takes nothing.
abbrev pub IsSteady : List WriteResult → Type 0
IsSteady [] = Unit
IsSteady (WriteResult.wrote zero ∷ more) = ⊥
IsSteady (WriteResult.wrote (suc n) ∷ more) = IsSteady more
IsSteady (WriteResult.would_block ∷ more) = Unit
IsSteady (WriteResult.interrupted ∷ more) = IsSteady more
IsSteady (WriteResult.failed ∷ more) = ⊥

-- And the first one that is not interrupted takes a byte at least, as a socket that is writable does.
abbrev pub IsProgress : List WriteResult → Type 0
IsProgress [] = ⊥
IsProgress (WriteResult.wrote zero ∷ more) = ⊥
IsProgress (WriteResult.wrote (suc n) ∷ more) = IsSteady more
IsProgress (WriteResult.would_block ∷ more) = ⊥
IsProgress (WriteResult.interrupted ∷ more) = IsProgress more
IsProgress (WriteResult.failed ∷ more) = ⊥

-- `flush_client` in each of these rounds, as long as the client is kept.
unfoldable pub flush_rounds : Client → List (List WriteResult) → Client × Bytes × Bool
unfolding flush_client
flush_rounds client [] = (client, [], true)
flush_rounds client (results ∷ rounds) =
    let (c, sent, kept) = flush_client client results in
    let rest = flush_rounds c rounds in if kept then add_sent sent rest else (c, sent, false)

length-drop : (n : ℕ) (s : Bytes) → length (drop n s) ≡ length s - n
length-drop zero s = omega arith
length-drop (suc n) [] = omega arith
length-drop (suc n) (c ∷ s) = omega (arith, length-drop n s)

-- The client is kept, and at most `most` bytes are left.
abbrev Leaves : ℕ → Client × Bytes × Bool → Type 0
Leaves most (c, sent, kept) = (kept ≡ true) × (length c.output ≤ most)

add_sent-Leaves :
    (n m : ℕ) (before : Bytes) (r : Client × Bytes × Bool)
    → n ≤ m
    → Leaves n r
    → Leaves m (add_sent before r)
add_sent-Leaves n m before (c, sent, kept) le (k, h) = (k, omega arith)

empty-Leaves : (s : Bytes) (m : ℕ) → is_empty s ≡ true → length s ≤ m
empty-Leaves [] m e = omega arith
empty-Leaves (c ∷ s) m e = cc

flush_client-IsSteady :
    (client : Client) (results : List WriteResult)
    → IsSteady results
    → Leaves (length client.output) (flush_client client results)
unfolding flush_client
flush_client-IsSteady client [] h = (refl, omega arith)
flush_client-IsSteady client (WriteResult.wrote (suc n) ∷ more) h =
    if_both (Leaves (length client.output)) (is_empty client.output) _ _ (refl, omega arith)
      (add_sent-Leaves _ _ (take (suc n) client.output)
        (flush_client (record client { output = drop (suc n) client.output }) more)
        (omega (arith, length-drop (suc n) client.output))
        (flush_client-IsSteady (record client { output = drop (suc n) client.output }) more h))
flush_client-IsSteady client (WriteResult.would_block ∷ more) h = (refl, omega arith)
flush_client-IsSteady client (WriteResult.interrupted ∷ more) h =
    flush_client-IsSteady client more h
flush_client-IsSteady client (WriteResult.wrote zero ∷ more) h = elim h [ ]
flush_client-IsSteady client (WriteResult.failed ∷ more) h = elim h [ ]

flush_client-IsProgress :
    (client : Client) (results : List WriteResult)
    → IsProgress results
    → Leaves (length client.output - 1) (flush_client client results)
unfolding flush_client
flush_client-IsProgress client (WriteResult.wrote (suc n) ∷ more) h =
    if_when (Leaves (length client.output - 1)) (is_empty client.output) _ _
      (λ e. (refl, empty-Leaves client.output _ e))
      (add_sent-Leaves _ _ (take (suc n) client.output)
        (flush_client (record client { output = drop (suc n) client.output }) more)
        (omega (arith, length-drop (suc n) client.output))
        (flush_client-IsSteady (record client { output = drop (suc n) client.output }) more h))
flush_client-IsProgress client (WriteResult.interrupted ∷ more) h =
    flush_client-IsProgress client more h
flush_client-IsProgress client [] h = elim h [ ]
flush_client-IsProgress client (WriteResult.wrote zero ∷ more) h = elim h [ ]
flush_client-IsProgress client (WriteResult.would_block ∷ more) h = elim h [ ]
flush_client-IsProgress client (WriteResult.failed ∷ more) h = elim h [ ]

length-zero : (s : Bytes) → length s ≤ 0 → s ≡ []
length-zero [] h = refl
length-zero (c ∷ s) h = absurd (omega arith)

-- As long as a writable socket takes a byte at least and no `write` fails, the client is kept, and after
-- as many such rounds as it has bytes queued, or more, all of them are sent, in order.
pub flush_rounds-drained :
    (client : Client) (rounds : List (List WriteResult))
    → All IsProgress rounds
    → length client.output ≤ length rounds
    → let (c, sent, kept) = flush_rounds client rounds in
      (c.output ≡ []) × (sent ≡ client.output) × (kept ≡ true)
unfolding flush_rounds
flush_rounds-drained client [] h le = let e = length-zero client.output le in (e, sym e, refl)
flush_rounds-drained client (results ∷ rounds) (p, h) le =
    let (c, sent, kept) = flush_client client results in
    let (k, short) = flush_client-IsProgress client results p in
    let (e, all, stays) = flush_rounds-drained c rounds h (omega arith) in
    rw k (e, ap (◌++◌ sent) all ∙ flush_client-output client results, stays)
