-- ===== src/Base/Decimal.antt =====
-- `std::to_string` of a number that is not negative, and the value of a run of digits.
use Prim.Native.Nat.{ℕ, zero, suc, ◌+◌, ◌-◌, ◌*◌, ◌/◌, ◌%◌, ◌^◌, ◌≤◌, ◌<◌}
use mathlib.Core.Path.{◌≡◌, ap, ◌∙◌}
use mathlib.Core.Logic.{◌≢◌, inl, inr}
use mathlib.Core.Bool.{Bool, ◌&&◌}
use mathlib.Core.List.{[], ◌∷◌}
use native.Mathlib.Omega.{arith}
use cardputer_zero_os.Base.Bools.{◌==◌, leb, if◌then◌else◌, Bool-cases}
use cardputer_zero_os.Base.Lists.{All, length}
use cardputer_zero_os.Base.Text.{Bytes}

-- The digits of a positive number before `out`, on fuel: a round divides by ten.
pub print_digits : ℕ → ℕ → Bytes → Bytes
print_digits zero n out = out
print_digits (suc fuel) n out =
    let rest = print_digits fuel (n / 10) ((b'0' + n % 10) ∷ out) in if n == 0 then out else rest

unfoldable pub to_string : ℕ → Bytes
unfolding print_digits
to_string n = if n == 0 then b'0' ∷ [] else print_digits n n []

abbrev pub is_digit : ℕ → Bool
is_digit c = leb b'0' c && leb c b'9'

abbrev pub IsDigit : ℕ → Type 0
IsDigit c = (b'0' ≤ c) × (c ≤ b'9')

-- The number that digits spell after `n`.
abbrev pub value : ℕ → Bytes → ℕ
value n [] = n
value n (c ∷ s) = value (n * 10 + (c - b'0')) s

value-print_digits :
    (fuel n : ℕ) (out : Bytes) → n ≤ fuel → value 0 (print_digits fuel n out) ≡ value n out
unfolding print_digits
value-print_digits zero n out h = ground arith
value-print_digits (suc fuel) n out h = elim (Bool-cases (n == 0)) [
  | inl e ↦ rw e (ground arith)
  | inr e ↦
      rw e (value-print_digits fuel (n / 10) ((b'0' + n % 10) ∷ out) (ground arith) ∙ last_digit)
]
  where
    last_digit : value (n / 10) ((b'0' + n % 10) ∷ out) ≡ value n out
    last_digit = let e : n / 10 * 10 + (b'0' + n % 10 - b'0') ≡ n = omega arith in rw e

print_digits-IsDigit :
    (fuel n : ℕ) (out : Bytes) → All IsDigit out → All IsDigit (print_digits fuel n out)
unfolding print_digits
print_digits-IsDigit zero n out h = h
print_digits-IsDigit (suc fuel) n out h = elim (Bool-cases (n == 0)) [
  | inl e ↦ rw e h
  | inr e ↦ rw e (print_digits-IsDigit fuel (n / 10) _ ((omega arith, omega arith), h))
]

pub to_string-IsDigit : (n : ℕ) → All IsDigit (to_string n)
unfolding to_string
to_string-IsDigit n = elim (Bool-cases (n == 0)) [
  | inl e ↦ rw e ((omega arith, omega arith), tt)
  | inr e ↦ rw e (print_digits-IsDigit n n [] tt)
]

pub value-to_string : (n : ℕ) → value 0 (to_string n) ≡ n
unfolding to_string
value-to_string n = elim (Bool-cases (n == 0)) [
  | inl e ↦ rw e (ground arith)
  | inr e ↦ rw e (value-print_digits n n [] (omega arith))
]

pub to_string-ne-nil : (n : ℕ) → to_string n ≢ []
to_string-ne-nil zero = unfold to_string in λ p. cc
to_string-ne-nil (suc k) = λ p. omega (arith, ap (value 0) p, value-to_string (suc k))

abbrev ten_to : ℕ → ℕ
ten_to zero = 1
ten_to (suc k) = 10 * ten_to k

length-print_digits :
    (fuel n k : ℕ) (out : Bytes) → n < ten_to k → length (print_digits fuel n out) ≤ length out + k
unfolding print_digits
length-print_digits zero n k out h = omega arith
length-print_digits (suc fuel) n zero out h = elim (Bool-cases (n == 0)) [
  | inl e ↦ rw e (omega arith)
  | inr e ↦ absurd (ground arith)
]
length-print_digits (suc fuel) n (suc k) out h = elim (Bool-cases (n == 0)) [
  | inl e ↦ rw e (omega arith)
  | inr e ↦
      let rest = length-print_digits fuel (n / 10) k ((b'0' + n % 10) ∷ out) (omega arith) in
      rw e (omega arith)
]

-- A 32-bit number has at most ten digits.
pub length-to_string : (n : ℕ) → n < 2 ^ 32 → length (to_string n) ≤ 10
unfolding to_string
length-to_string n h = elim (Bool-cases (n == 0)) [
  | inl e ↦ rw e (omega arith)
  | inr e ↦ rw e (length-print_digits n n 10 [] (omega arith))
]
