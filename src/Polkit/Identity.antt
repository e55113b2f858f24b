-- ===== src/Polkit/Identity.antt =====
-- `choose_identity` and `identity_label` of polkit-agent/zero-polkit-agent.c. A `PolkitIdentity` is of
-- polkit's own; what is used of it is given.
pub mod Choice
use cardputer_zero_os.Base.{
  ℕ, Bool, Option, none, some, List, [], ◌∷◌, ◌++◌, Bytes, codes, if◌then◌else◌, drop, starts_with,
}

-- The loop over the offered identities, with whether one is the current user.
unfoldable pub find_current {ℓ} : {A : Type ℓ} → (A → Bool) → List A → Option A
find_current is_current [] = none
find_current is_current (identity ∷ identities) =
    let rest = find_current is_current identities in
    if is_current identity then some identity else rest

abbrev pub first {ℓ} : {A : Type ℓ} → List A → Option A
first [] = none
first (identity ∷ identities) = some identity

-- What stands after the loop.
abbrev pub or_first {ℓ} : {A : Type ℓ} → Option A → List A → Option A
or_first none identities = first identities
or_first (some identity) identities = some identity

unfoldable pub choose_identity {ℓ} : {A : Type ℓ} → (A → Bool) → List A → Option A
unfolding find_current
choose_identity is_current identities = or_first (find_current is_current identities) identities

-- Of the text that `polkit_identity_to_string` gives.
unfoldable pub identity_label : Bytes → Bytes
unfolding starts_with
identity_label raw =
    if starts_with raw (codes "unix-user:")
    then codes "User: " ++ drop 10 raw
    else if starts_with raw (codes "unix-group:")
    then codes "Group: " ++ drop 11 raw
    else raw
