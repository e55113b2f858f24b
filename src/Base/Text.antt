-- ===== src/Base/Text.antt =====
-- Byte strings: `std::string` as a list of byte values, with `==`, and `find` with the two `substr`
-- calls that follow it wherever the sources cut a text.
use Prim.Native.Char.{code}
use Prim.Native.String.{String}
use Prim.Native.Nat.{ℕ, ◌<◌}
use mathlib.Core.Path.{◌≡◌, refl, ap, subst}
use mathlib.Core.Logic.{◌≢◌, inl, inr}
use mathlib.Core.Bool.{Bool, true, false, ◌&&◌, ◌||◌}
use mathlib.Core.List.{List, [], ◌∷◌, ◌++◌}
use mathlib.Core.Option.{Option, none, some}
use native.Mathlib.Omega.{arith}
use cardputer_zero_os.Base.Bools.{◌==◌, ==_iff, Bool-cases, if◌then◌else◌}
use cardputer_zero_os.Base.Lists.{All}

abbrev pub Bytes : Type 0
Bytes = List ℕ

-- The bytes of an ASCII literal.
abbrev pub codes : String → Bytes
codes String.[] = []
codes (String.◌∷◌ c s) = code c ∷ codes s

abbrev pub IsByte : ℕ → Type 0
IsByte c = c < 256

abbrev pub Lacks : ℕ → Bytes → Type 0
Lacks b = All (λ c. c ≢ b)

-- `operator==` of two strings.
unfoldable pub str_eq : Bytes → Bytes → Bool
str_eq [] [] = true
str_eq [] (b ∷ t) = false
str_eq (a ∷ s) [] = false
str_eq (a ∷ s) (b ∷ t) = (a == b) && str_eq s t

pub str_eq_sound : (s t : Bytes) → str_eq s t ≡ true → s ≡ t
unfolding str_eq
str_eq_sound [] [] h = refl
str_eq_sound [] (b ∷ t) h = cc
str_eq_sound (a ∷ s) [] h = cc
str_eq_sound (a ∷ s) (b ∷ t) h = ground (arith, str_eq_sound s t)

pub str_eq_refl : (s : Bytes) → str_eq s s ≡ true
unfolding str_eq
str_eq_refl [] = refl
str_eq_refl (a ∷ s) = ground (arith, str_eq_refl s)

abbrev pub is_empty : Bytes → Bool
is_empty [] = true
is_empty (c ∷ s) = false

abbrev cons_fst : ℕ → Option (Bytes × Bytes) → Option (Bytes × Bytes)
cons_fst c none = none
cons_fst c (some (h, t)) = some (c ∷ h, t)

-- `i = s.find(b)`: none for `npos`, else `s.substr(0, i)` and `s.substr(i + 1)`.
unfoldable pub find_cut : ℕ → Bytes → Option (Bytes × Bytes)
find_cut b [] = none
find_cut b (c ∷ s) = if c == b then some ([], s) else cons_fst c (find_cut b s)

module _ (b : ℕ) where
  pub find_cut-Lacks : (s : Bytes) → Lacks b s → find_cut b s ≡ none
  unfolding find_cut
  find_cut-Lacks [] h = refl
  find_cut-Lacks (c ∷ s) (hc, h) = ground (arith, find_cut-Lacks s h)

  pub find_cut-append : (s t : Bytes) → Lacks b s → find_cut b (s ++ b ∷ t) ≡ some (s, t)
  unfolding find_cut
  find_cut-append [] t h = ground arith
  find_cut-append (c ∷ s) t (hc, h) = ground (arith, find_cut-append s t h)

  -- What `find_cut` returns spells the text, and the first part lacks the byte.
  abbrev pub IsCut : Bytes → Option (Bytes × Bytes) → Type 0
  IsCut s none = Lacks b s
  IsCut s (some (h, t)) = (s ≡ h ++ b ∷ t) × Lacks b h

  cons_fst-IsCut :
      (c : ℕ) (s : Bytes) (r : Option (Bytes × Bytes))
      → c ≢ b
      → IsCut s r
      → IsCut (c ∷ s) (cons_fst c r)
  cons_fst-IsCut c s none hc h = (hc, h)
  cons_fst-IsCut c s (some (h, t)) hc (e, hl) = (ap (◌∷◌ c) e, (hc, hl))

  pub find_cut-IsCut : (s : Bytes) → IsCut s (find_cut b s)
  unfolding find_cut
  find_cut-IsCut [] = tt
  find_cut-IsCut (c ∷ s) = elim (Bool-cases (c == b)) [
    | inl e ↦ rw e (ap (λ x. x ∷ s) ((==_iff c b).0 e), tt)
    | inr e ↦ rw e (cons_fst-IsCut c s (find_cut b s) (ground arith) (find_cut-IsCut s))
  ]

  pub find_cut-some : (s h t : Bytes) → find_cut b s ≡ some (h, t) → (s ≡ h ++ b ∷ t) × Lacks b h
  find_cut-some s h t e = subst (IsCut s) e (find_cut-IsCut s)

  pub find_cut-none : (s : Bytes) → find_cut b s ≡ none → Lacks b s
  find_cut-none s e = subst (IsCut s) e (find_cut-IsCut s)

-- `if (!s.empty() && s.back() == '\r') s.pop_back();`
unfoldable pub strip_cr : Bytes → Bytes
strip_cr [] = []
strip_cr (c ∷ []) = if c == 13 then [] else c ∷ []
strip_cr (c ∷ d ∷ s) = c ∷ strip_cr (d ∷ s)

-- The characters before the terminating NUL.
unfoldable pub c_str : Bytes → Bytes
c_str [] = []
c_str (c ∷ s) = if c == 0 then [] else c ∷ c_str s

-- `std::strncmp(s, prefix, strlen(prefix)) == 0`
unfoldable pub starts_with : Bytes → Bytes → Bool
starts_with s [] = true
starts_with [] (p ∷ ps) = false
starts_with (c ∷ s) (p ∷ ps) = c == p && starts_with s ps

-- `std::strstr(s, part) != nullptr`
unfoldable pub contains : Bytes → Bytes → Bool
unfolding starts_with
contains [] part = starts_with [] part
contains (c ∷ s) part = starts_with (c ∷ s) part || contains s part
