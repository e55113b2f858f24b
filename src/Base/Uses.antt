-- ===== src/Base/Uses.antt =====
-- What a program acquires and releases, in order, over any kinds of resources: a counter of each kind
-- says what is held.
use mathlib.Core.Path.{◌≡◌, refl, ap, ◌∙◌}
use mathlib.Core.Option.{Option, none, some}
use mathlib.Core.List.{List, [], ◌∷◌, ◌++◌}
use mathlib.Core.Bool.{Bool}
use Prim.Native.Nat.{ℕ, zero, suc}
use cardputer_zero_os.Base.Bools.{if◌then◌else◌, ◌>>=◌}

pub data Use (R : Type 0) : Type 0 where
  acquire release : R → Use R

abbrev pub when_set : {R : Type 0} → Bool → Use R → List (Use R)
when_set test use_it = if test then use_it ∷ [] else []

abbrev pub as_count : Bool → ℕ
as_count b = if b then 1 else 0

-- One less, where there is one.
abbrev pub less_one : ℕ → Option ℕ
less_one zero = none
less_one (suc n) = some n

-- The counters `C` of the kinds `R`.
pub record Ledger (R C : Type 0) : Type 0 where
  pub add_one : R → C → C
  pub take_off : R → C → Option C

-- What is held after these uses; none where something is released that is not held.
unfoldable pub held_by : {R C : Type 0} → Ledger R C → List (Use R) → C → Option C
held_by l [] c = some c
held_by l (Use.acquire r ∷ uses) c = held_by l uses (l.add_one r c)
held_by l (Use.release r ∷ uses) c = l.take_off r c >>= held_by l uses

module _ {R C : Type 0} (l : Ledger R C) where
  pub held_by-append :
      (us vs : List (Use R)) (c : C) → held_by l (us ++ vs) c ≡ (held_by l us c >>= held_by l vs)
  unfolding held_by
  held_by-append [] vs c = refl
  held_by-append (Use.acquire r ∷ us) vs c = held_by-append us vs (l.add_one r c)
  held_by-append (Use.release r ∷ us) vs c =
      elim (l.take_off r c)
        as (λ o. (o >>= held_by l (us ++ vs)) ≡ ((o >>= held_by l us) >>= held_by l vs)) [
          | none ↦ refl
          | some d ↦ held_by-append us vs d
        ]

  pub held_by-more :
      (us vs : List (Use R)) (c d : C) (e : Option C)
      → held_by l us c ≡ some d
      → held_by l vs d ≡ e
      → held_by l (us ++ vs) c ≡ e
  held_by-more us vs c d e first second =
      held_by-append us vs c ∙ ap (λ o. o >>= held_by l vs) first ∙ second
