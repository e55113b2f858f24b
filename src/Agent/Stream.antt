-- ===== src/Agent/Stream.antt =====
-- A byte stream as complete lines and an unfinished rest: the independent description against which
-- the reading loop and the messages of window-agent/zero-window-agent.cpp are stated.
use cardputer_zero_os.Base.{
  ℕ, suc, ◌≤◌, length, ◌≡◌, refl, ap, sym, ◌∙◌, inl, inr, true, false, List, [], ◌∷◌, ◌++◌,
  append_assoc, Bytes, ◌==◌, if◌then◌else◌, Lacks, All, Bool-cases, arith,
}
use cardputer_zero_os.Agent.Wire.{newline}

-- The next byte of the first line.
pub extend : ℕ → List Bytes × Bytes → List Bytes × Bytes
extend c ([], rest) = ([], c ∷ rest)
extend c (l ∷ ls, rest) = ((c ∷ l) ∷ ls, rest)

abbrev pub first_line : Bytes → List Bytes × Bytes → List Bytes × Bytes
first_line l (ls, rest) = (l ∷ ls, rest)

-- The lines that a newline ends, and what follows the last newline.
unfoldable pub lines : Bytes → List Bytes × Bytes
unfolding extend
lines [] = ([], [])
lines (c ∷ s) = let later = lines s in if c == newline then first_line [] later else extend c later

-- The text of complete lines.
abbrev pub unlines : List Bytes → Bytes
unlines [] = []
unlines (l ∷ ls) = l ++ newline ∷ unlines ls

pub unlines-append : (ls ms : List Bytes) → unlines (ls ++ ms) ≡ unlines ls ++ unlines ms
unlines-append [] ms = refl
unlines-append (l ∷ ls) ms = simp (unlines-append ls ms, append_assoc)

lines-newline : (s : Bytes) → lines (newline ∷ s) ≡ first_line [] (lines s)
unfolding lines
lines-newline s = refl

extend-first_line :
    (c : ℕ) (l : Bytes) (r : List Bytes × Bytes) → extend c (first_line l r) ≡ first_line (c ∷ l) r
unfolding extend
extend-first_line c l (ls, rest) = refl

lines_byte : (c : ℕ) (s : Bytes) → (c == newline) ≡ false → lines (c ∷ s) ≡ extend c (lines s)
unfolding lines
lines_byte c s e = rw e

-- A line and its newline come off the front.
pub lines-line : (l s : Bytes) → Lacks newline l → lines (l ++ newline ∷ s) ≡ first_line l (lines s)
lines-line [] s h = lines-newline s
lines-line (c ∷ l) s (hc, h) =
    lines_byte c (l ++ newline ∷ s) (ground arith)
    ∙ ap (extend c) (lines-line l s h)
    ∙ extend-first_line c l (lines s)

pub lines-Lacks : (s : Bytes) → Lacks newline s → lines s ≡ ([], s)
lines-Lacks [] h = unfold lines in refl
lines-Lacks (c ∷ s) (hc, h) =
    lines_byte c s (ground arith) ∙ ap (extend c) (lines-Lacks s h) ∙ (unfold extend in refl)

-- Complete lines are read back.
pub lines-unlines : (ls : List Bytes) → All (Lacks newline) ls → lines (unlines ls) ≡ (ls, [])
lines-unlines [] h = unfold lines in refl
lines-unlines (l ∷ ls) (hl, h) =
    lines-line l (unlines ls) hl ∙ ap (first_line l) (lines-unlines ls h)

-- What is unfinished holds no newline.
pub lines-rest : (s : Bytes) → Lacks newline (lines s).1
unfolding lines
lines-rest [] = tt
lines-rest (c ∷ s) = elim (Bool-cases (c == newline)) [
  | inl e ↦ rw e (rest_of (lines s) (lines-rest s))
  | inr e ↦ rw e (extended c (lines s) (ground arith) (lines-rest s))
]
  where
    rest_of : (r : List Bytes × Bytes) → Lacks newline r.1 → Lacks newline (first_line [] r).1
    rest_of (ls, rest) h = h

    extended :
        (d : ℕ) (r : List Bytes × Bytes)
        → (d ≡ newline → ⊥)
        → Lacks newline r.1
        → Lacks newline (extend d r).1
    extended d ([], rest) hd h = (hd, h)
    extended d (l ∷ ls, rest) hd h = h

-- Reading on after a text: its unfinished rest goes before what comes next.
abbrev pub continue : List Bytes × Bytes → Bytes → List Bytes × Bytes
continue (ls, rest) t = (ls ++ (lines (rest ++ t)).0, (lines (rest ++ t)).1)

lines_end : (c : ℕ) (s : Bytes) → (c == newline) ≡ true → lines (c ∷ s) ≡ first_line [] (lines s)
unfolding lines
lines_end c s e = rw e

extend-continue :
    (c : ℕ) (r : List Bytes × Bytes) (t : Bytes)
    → (c == newline) ≡ false
    → extend c (continue r t) ≡ continue (extend c r) t
unfolding extend
extend-continue c ([], rest) t e = rw (lines_byte c (rest ++ t) e)
extend-continue c (l ∷ ls, rest) t e = refl

first_line-continue :
    (r : List Bytes × Bytes) (t : Bytes)
    → first_line [] (continue r t) ≡ continue (first_line [] r) t
first_line-continue (ls, rest) t = refl

-- Cutting a stream in two and reading the pieces in turn gives the same lines and the same rest.
pub lines-append : (s t : Bytes) → lines (s ++ t) ≡ continue (lines s) t
lines-append [] t = unfold lines in refl
lines-append (c ∷ s) t = elim (Bool-cases (c == newline)) [
  | inl e ↦
      lines_end c (s ++ t) e
      ∙ ap (first_line []) (lines-append s t)
      ∙ first_line-continue (lines s) t
      ∙ ap (λ r. continue r t) (sym (lines_end c s e))
  | inr e ↦
      lines_byte c (s ++ t) e
      ∙ ap (extend c) (lines-append s t)
      ∙ extend-continue c (lines s) t e
      ∙ ap (λ r. continue r t) (sym (lines_byte c s e))
]

length-extend : (c : ℕ) (r : List Bytes × Bytes) → length (extend c r).1 ≤ suc (length r.1)
unfolding extend
length-extend c ([], rest) = omega arith
length-extend c (l ∷ ls, rest) = omega arith

pub length-lines : (s : Bytes) → length (lines s).1 ≤ length s
length-lines [] = unfold lines in omega arith
length-lines (c ∷ s) = elim (Bool-cases (c == newline)) [
  | inl e ↦ rw (lines_end c s e) (omega (arith, length-lines s))
  | inr e ↦ rw (lines_byte c s e) (omega (arith, length-lines s, length-extend c (lines s)))
]
