-- ===== src/Agent/Wire/Codec.antt =====
-- `encode` and `decode`: the escaped text is printable, and it is read back.
use cardputer_zero_os.Base.{
  ℕ, ◌/◌, ◌%◌, ◌≤◌, ◌<◌, ◌≡◌, ◌≢◌, refl, ap, ◌∙◌, inl, inr, Bool, true, false, not, ◌&&◌, Option,
  none, some, [], ◌∷◌, ◌++◌, Bytes, leb, ◌==◌, All, All-append, IsByte, Lacks, Bool-cases,
  all_below, all_below_sound, arith,
}
use cardputer_zero_os.Agent.Wire.{hex_digit, is_escaped, encode_byte, encode, escape_at, decode}

-- A byte that the protocol sends as it is.
abbrev pub IsPlain : ℕ → Type 0
IsPlain c = (0x20 ≤ c) × (c ≢ 0x7F)

plain_test : ℕ → Bool
plain_test c = leb 0x20 c && not (c == 0x7F)

plain_test_sound : (c : ℕ) → plain_test c ≡ true → IsPlain c
unfolding plain_test
plain_test_sound c h = ground arith

hex_table : all_below 16 (λ n. plain_test (hex_digit n)) ≡ true
unfolding all_below plain_test hex_digit
hex_table = refl

hex_digit-IsPlain : (n : ℕ) → n < 16 → IsPlain (hex_digit n)
hex_digit-IsPlain n h =
    plain_test_sound _ (all_below_sound 16 (λ k. plain_test (hex_digit k)) n hex_table h)

encode_byte-IsPlain : (ch : ℕ) → IsByte ch → All IsPlain (encode_byte ch)
unfolding encode_byte
encode_byte-IsPlain ch h = elim (Bool-cases (is_escaped ch)) [
  | inl e ↦ rw e (
    omega arith,
    (hex_digit-IsPlain (ch / 16) (omega arith), (hex_digit-IsPlain (ch % 16) (omega arith), tt)),
  )
  | inr e ↦ rw e (ground arith, tt)
]

-- Encoded text holds printable characters only, so no tab and no newline.
pub encode-IsPlain : (value : Bytes) → All IsByte value → All IsPlain (encode value)
unfolding encode
encode-IsPlain [] h = tt
encode-IsPlain (ch ∷ value) (hc, h) =
    All-append IsPlain (encode_byte ch) (encode value) (encode_byte-IsPlain ch hc)
      (encode-IsPlain value h)

pub IsPlain-Lacks : (b : ℕ) (s : Bytes) → b < 0x20 → All IsPlain s → Lacks b s
IsPlain-Lacks b [] hb h = tt
IsPlain-Lacks b (c ∷ s) hb (hc, h) = (omega arith, IsPlain-Lacks b s hb h)

is_some_eq : Option ℕ → ℕ → Bool
is_some_eq none ch = false
is_some_eq (some v) ch = v == ch

is_some_eq_sound : (o : Option ℕ) (ch : ℕ) → is_some_eq o ch ≡ true → o ≡ some ch
unfolding is_some_eq
is_some_eq_sound none ch h = cc
is_some_eq_sound (some v) ch h = ground arith

escape_table :
    all_below 256 (λ ch. is_some_eq (escape_at b'%' (hex_digit (ch / 16)) (hex_digit (ch % 16))) ch)
    ≡ true
unfolding all_below is_some_eq escape_at hex_digit
escape_table = refl

escape_at-hex_digit :
    (ch : ℕ) → IsByte ch → escape_at b'%' (hex_digit (ch / 16)) (hex_digit (ch % 16)) ≡ some ch
escape_at-hex_digit ch h = is_some_eq_sound _ ch (
    all_below_sound 256
      (λ k. is_some_eq (escape_at b'%' (hex_digit (k / 16)) (hex_digit (k % 16))) k) ch escape_table
      h)

escape_at-none : (c a b : ℕ) → c ≢ b'%' → escape_at c a b ≡ none
unfolding escape_at
escape_at-none c a b h = ground arith

decode_literal : (c : ℕ) (rest : Bytes) → c ≢ b'%' → decode (c ∷ rest) ≡ c ∷ decode rest
unfolding decode
decode_literal c [] h = refl
decode_literal c (a ∷ []) h = refl
decode_literal c (a ∷ b ∷ rest) h = rw (escape_at-none c a b h, decode)

decode_escape :
    (c a b v : ℕ) (rest : Bytes)
    → escape_at c a b ≡ some v
    → decode (c ∷ a ∷ b ∷ rest) ≡ v ∷ decode rest
unfolding decode
decode_escape c a b v rest e = rw (e, decode)

decode-encode_byte :
    (ch : ℕ) (rest : Bytes) → IsByte ch → decode (encode_byte ch ++ rest) ≡ ch ∷ decode rest
unfolding encode_byte
decode-encode_byte ch rest h = elim (Bool-cases (is_escaped ch)) [
  | inl e ↦ rw e (decode_escape _ _ _ ch rest (escape_at-hex_digit ch h))
  | inr e ↦ rw e (decode_literal ch rest (ground arith))
]

-- Whatever bytes a text holds, the receiver's `decode` gives it back.
pub decode-encode : (value : Bytes) → All IsByte value → decode (encode value) ≡ value
unfolding encode
decode-encode [] h = unfold decode in refl
decode-encode (ch ∷ value) (hc, h) =
    decode-encode_byte ch (encode value) hc ∙ ap (◌∷◌ ch) (decode-encode value h)

-- `decode` leaves a text with no `%` as it is.
pub decode_plain : (s : Bytes) → Lacks b'%' s → decode s ≡ s
decode_plain [] h = unfold decode in refl
decode_plain (c ∷ s) (hc, h) = decode_literal c s hc ∙ ap (◌∷◌ c) (decode_plain s h)

-- A byte that stands for itself on the wire.
abbrev pub IsLiteral : ℕ → Type 0
IsLiteral c = (0x20 ≤ c) × (c ≢ 0x7F) × (c ≢ b'%')

encode_byte_literal : (c : ℕ) → IsLiteral c → encode_byte c ≡ c ∷ []
unfolding encode_byte
encode_byte_literal c h = ground arith

-- A text of such bytes is sent as it is.
pub encode_literal : (s : Bytes) → All IsLiteral s → encode s ≡ s
unfolding encode
encode_literal [] h = refl
encode_literal (c ∷ s) (hc, h) = rw (encode_byte_literal c hc) (ap (◌∷◌ c) (encode_literal s h))
