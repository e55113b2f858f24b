-- ===== src/Polkit/Identity/Choice.antt =====
-- Which identity `choose_identity` of polkit-agent/zero-polkit-agent.c takes.
use cardputer_zero_os.Base.{
  ◌≡◌, refl, sym, ap, subst, inl, inr, ◌⊎◌, Bool, true, false, Option, none, some, List, [], ◌∷◌,
  ◌++◌, if◌then◌else◌, All, Bool-cases,
}
use cardputer_zero_os.Polkit.Identity.{find_current, first, or_first, choose_identity}

module _ {ℓ} {A : Type ℓ} (is_current : A → Bool) where
  -- The first offered identity that is the current user, or, where none is, another answer.
  abbrev pub IsChoice : List A → Option A → Option A → Type ℓ
  IsChoice identities otherwise chosen =
      ((before : List A) × ((identity : A) × ((after : List A) × (identities
              ≡ before ++ identity ∷ after)
            × All (λ a. is_current a ≡ false) before
            × (is_current identity ≡ true)
            × (chosen ≡ some identity))))
      ⊎ (All (λ a. is_current a ≡ false) identities × (chosen ≡ otherwise))

  found_later :
      (a : A) (identities : List A) (o : Option A)
      → is_current a ≡ false
      → IsChoice identities none o
      → IsChoice (a ∷ identities) none o
  found_later a identities o e (inl (before, (x, (after, split, h, y, z)))) =
      inl (a ∷ before, (x, (after, ap (◌∷◌ a) split, (e, h), y, z)))
  found_later a identities o e (inr (h, z)) = inr ((e, h), z)

  find_current-IsChoice :
      (identities : List A) → IsChoice identities none (find_current is_current identities)
  unfolding find_current
  find_current-IsChoice [] = inr (tt, refl)
  find_current-IsChoice (a ∷ identities) = elim (Bool-cases (is_current a)) [
    | inl e ↦ inl ([], (a, (identities, refl, tt, e, rw e refl)))
    | inr e ↦
        subst (IsChoice (a ∷ identities) none)
          (ap (λ b. if b then some a else find_current is_current identities) (sym e))
          (found_later a identities (find_current is_current identities) e
            (find_current-IsChoice identities))
  ]

  -- The agent authenticates as the first offered identity that is the current user, and where none is,
  -- as the first that is offered; only an empty offer leaves none.
  pub choose_identity_lem :
      (identities : List A)
      → IsChoice identities (first identities) (choose_identity is_current identities)
  unfolding choose_identity
  choose_identity_lem identities = elim (find_current-IsChoice identities) [
    | inl (before, (x, (after, split, h, y, z))) ↦
        inl (before, (x, (after, split, h, y, ap (λ o. or_first o identities) z)))
    | inr (h, z) ↦ inr (h, ap (λ o. or_first o identities) z)
  ]

  pub choose_identity-cons :
      (a : A) (identities : List A)
      → (x : A) × (choose_identity is_current (a ∷ identities) ≡ some x)
  choose_identity-cons a identities = elim (choose_identity_lem (a ∷ identities)) [
    | inl (before, (x, (after, split, h, y, z))) ↦ (x, z)
    | inr (h, z) ↦ (a, z)
  ]
