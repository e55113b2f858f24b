-- ===== src/Agent/Lookup/Ids.antt =====
-- `find_task` on the ids that snapshots print, and what a lookup returns in general.
use cardputer_zero_os.Base.{
  c_str, ℕ, ◌+◌, ◌-◌, ◌*◌, ◌≤◌, ◌<◌, min, ◌≡◌, ◌≢◌, ◌⊎◌, refl, ◌∙◌, inl, inr, Bool, true, false,
  not, ◌&&◌, none, some, List, [], ◌∷◌, Bytes, ◌==◌, All, IsDigit, value, to_string,
  to_string-IsDigit, to_string-ne-nil, value-to_string, Bool-cases, arith,
}
use cardputer_zero_os.Agent.State.{Task, Agent}
use cardputer_zero_os.Agent.Lookup.{
  find_first, take_digits, Parsed, long_max, strtol, is_refused, find_numeric, find_task,
  active_task, shell_task,
}

c_str-IsDigit : (s : Bytes) → All IsDigit s → c_str s ≡ s
unfolding c_str
c_str-IsDigit [] h = refl
c_str-IsDigit (c ∷ s) (hc, h) = ground (arith, c_str-IsDigit s h)

take_digits-IsDigit : (n : ℕ) (s : Bytes) → All IsDigit s → take_digits n s ≡ (value n s, [])
unfolding take_digits
take_digits-IsDigit n [] h = refl
take_digits-IsDigit n (c ∷ s) (hc, h) =
    ground (arith, take_digits-IsDigit (n * 10 + (c - b'0')) s h)

strtol-IsDigit :
    (s : Bytes)
    → s ≢ []
    → All IsDigit s
    → strtol s ≡ record { negative = false; magnitude = min (value 0 s) long_max; end = [] }
strtol-IsDigit [] h d = absurd (h refl)
strtol-IsDigit (c ∷ s) h d = unfold strtol in ground (arith, take_digits-IsDigit 0 (c ∷ s) d)

-- The open task with a given number, as the loop of `find_task` finds it.
abbrev pub has_id : ℕ → Task → Bool
has_id n t = not t.closed && t.id == n

pub find_task_digits :
    (a : Agent) (s : Bytes)
    → s ≢ []
    → All IsDigit s
    → find_task a (b't' ∷ s)
      ≡ find_numeric
          (record { negative = false; magnitude = min (value 0 s) long_max; end = [] })
          a.tasks
find_task_digits a [] h d = absurd (h refl)
find_task_digits a (c ∷ s) h d =
    unfold find_task in rw (c_str-IsDigit (c ∷ s) d, strtol-IsDigit (c ∷ s) h d)

find_numeric_pos :
    (m : ℕ) (ts : List Task)
    → 0 < m
    → find_numeric (record { negative = false; magnitude = m; end = [] }) ts
      ≡ find_first (has_id m) ts
unfolding find_numeric
find_numeric_pos m ts h = let e : (m == 0) ≡ false = ground arith in rw e

-- The id that a snapshot prints for a task number finds the first open task of that number.
pub find_task-to_string :
    (a : Agent) (n : ℕ)
    → 0 < n
    → n ≤ long_max
    → find_task a (b't' ∷ to_string n) ≡ find_first (has_id n) a.tasks
find_task-to_string a n pos fits =
    let e : min (value 0 (to_string n)) long_max ≡ n = omega (arith, value-to_string n) in
    find_task_digits a (to_string n) (to_string-ne-nil n) (to_string-IsDigit n)
    ∙ rw e (find_numeric_pos n a.tasks pos)

-- Whether a list holds a task with a property.
abbrev pub Any : (Task → Type 0) → List Task → Type 0
Any P [] = ⊥
Any P (t ∷ ts) = P t ⊎ Any P ts

module _ (test : Task → Bool) where
  -- What a lookup returns is in the list and passes the test.
  pub find_first-some :
      (ts : List Task) (t : Task)
      → find_first test ts ≡ some t
      → (test t ≡ true) × Any (λ u. u ≡ t) ts
  unfolding find_first
  find_first-some [] t e = cc
  find_first-some (u ∷ ts) t e = elim (Bool-cases (test u)) [
    | inl p ↦ let q : u ≡ t = ground arith in (rw (← q) p, inl q)
    | inr p ↦ let (h, m) = find_first-some ts t (ground arith) in (h, inr m)
  ]

  -- A lookup that fails has no match in the list.
  pub find_first-none : (ts : List Task) → find_first test ts ≡ none → All (λ t. test t ≡ false) ts
  unfolding find_first
  find_first-none [] e = tt
  find_first-none (u ∷ ts) e = elim (Bool-cases (test u)) [
    | inl p ↦ absurd (ground arith)
    | inr p ↦ (p, find_first-none ts (ground arith))
  ]

-- The tests of the three lookups demand an open task.
abbrev pub IsOpenTask : List Task → Task → Type 0
IsOpenTask ts t = (t.closed ≡ false) × Any (λ u. u ≡ t) ts

find_first-IsOpenTask :
    (test : Task → Bool) (ts : List Task) (t : Task)
    → ((u : Task) → test u ≡ true → u.closed ≡ false)
    → find_first test ts ≡ some t
    → IsOpenTask ts t
find_first-IsOpenTask test ts t wants e =
    let (passes, m) = find_first-some test ts t e in (wants t passes, m)

find_numeric-IsOpenTask :
    (r : Parsed) (ts : List Task) (t : Task) → find_numeric r ts ≡ some t → IsOpenTask ts t
unfolding find_numeric
find_numeric-IsOpenTask r ts t e = elim (Bool-cases (is_refused r)) [
  | inl no_id ↦ absurd (ground arith)
  | inr id ↦ find_first-IsOpenTask (has_id r.magnitude) ts t (λ u h. ground arith) (rw id at e)
]

module _ (a : Agent) (t : Task) where
  pub find_task-IsOpenTask : (id : Bytes) → find_task a id ≡ some t → IsOpenTask a.tasks t
  unfolding find_task
  find_task-IsOpenTask [] e = absurd (cc)
  find_task-IsOpenTask (x ∷ []) e = absurd (cc)
  find_task-IsOpenTask (x ∷ y ∷ s) e = elim (Bool-cases (x == b't')) [
    | inl p ↦ find_numeric-IsOpenTask (strtol (c_str (y ∷ s))) a.tasks t (rw p at e)
    | inr p ↦ absurd (ground arith)
  ]

  pub active_task-IsOpenTask :
      (include_shell : Bool) → active_task a include_shell ≡ some t → IsOpenTask a.tasks t
  unfolding active_task
  active_task-IsOpenTask include_shell e = find_first-IsOpenTask _ a.tasks t (λ u h. ground arith) e

  pub shell_task-IsOpenTask : shell_task a ≡ some t → IsOpenTask a.tasks t
  unfolding shell_task
  shell_task-IsOpenTask e = find_first-IsOpenTask _ a.tasks t (λ u h. ground arith) e
