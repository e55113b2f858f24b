-- ===== src/Tests.antt =====
-- Concrete runs of the agents, the helper, the greeter and the prompt. Here: the texts that they use.
pub mod Agent
pub mod Clients
pub mod Auth
pub mod Greeter
pub mod Draw
pub mod Prompt
pub mod Polkit
pub mod Start
pub mod Setup
pub mod Window
pub mod Input
use cardputer_zero_os.Base.{
  ℕ, ◌≡◌, ◌≢◌, refl, Bool, true, false, ◌&&◌, not, List, [], ◌∷◌, Bytes, IsByte, Lacks, All, ltb,
  ltb→lt, ◌==◌, arith,
}

abbrev all_bytes : Bytes → Bool
all_bytes [] = true
all_bytes (c ∷ s) = ltb c 256 && all_bytes s

pub text-IsByte : (s : Bytes) → all_bytes s ≡ true → All IsByte s
text-IsByte [] h = tt
text-IsByte (c ∷ s) h = (ltb→lt c 256 (ground arith), text-IsByte s (ground arith))

abbrev lacks : ℕ → Bytes → Bool
lacks b [] = true
lacks b (c ∷ s) = not (c == b) && lacks b s

pub text-Lacks : (b : ℕ) (s : Bytes) → lacks b s ≡ true → Lacks b s
text-Lacks b [] h = tt
text-Lacks b (c ∷ s) h = (ground arith, text-Lacks b s (ground arith))
