-- ===== src/Agent/Wire.antt =====
-- The text protocol of window-agent/zero-window-agent.cpp: `encode`, `hex_value`, `decode` and
-- `split_tabs`. A `std::string` is the list of its bytes, each below 256.
pub mod Codec
pub mod Fields
use cardputer_zero_os.Base.{
  ℕ, zero, suc, ◌+◌, ◌-◌, ◌*◌, ◌/◌, ◌%◌, bit_or, Bool, ◌&&◌, ◌||◌, Option, none, some, List, [],
  ◌∷◌, ◌++◌, Bytes, codes, ltb, leb, ◌==◌, if◌then◌else◌, get_or, length, find_cut,
}

abbrev pub tab : ℕ
tab = 9

abbrev pub newline : ℕ
newline = 10

-- `hex[n]`
pub hex_digit : ℕ → ℕ
hex_digit n = get_or (codes "0123456789ABCDEF") n 0

-- The test under which `encode` writes `%HH`.
pub is_escaped : ℕ → Bool
is_escaped ch = ltb ch 0x20 || ch == 0x7F || ch == b'%' || ch == tab

-- What one round of `encode` appends; `ch >> 4` is `ch / 16` and `ch & 0x0F` is `ch % 16`.
pub encode_byte : ℕ → Bytes
unfolding is_escaped hex_digit
encode_byte ch =
    if is_escaped ch then b'%' ∷ hex_digit (ch / 16) ∷ hex_digit (ch % 16) ∷ [] else ch ∷ []

unfoldable pub encode : Bytes → Bytes
unfolding encode_byte
encode [] = []
encode (ch ∷ value) = encode_byte ch ++ encode value

-- none stands for the -1 of the source
pub hex_value : ℕ → Option ℕ
hex_value ch =
    if leb b'0' ch && leb ch b'9'
    then some (ch - b'0')
    else if leb b'a' ch && leb ch b'f'
    then some (ch - b'a' + 10)
    else if leb b'A' ch && leb ch b'F'
    then some (ch - b'A' + 10)
    else none

-- `(hi << 4) | lo`, if both are digits
pub hex_pair : Option ℕ → Option ℕ → Option ℕ
hex_pair (some hi) (some lo) = some (bit_or (hi * 16) lo)
hex_pair _ _ = none

-- The byte that `%` with the next two characters stands for; none if they are no escape.
pub escape_at : ℕ → ℕ → ℕ → Option ℕ
unfolding hex_value hex_pair
escape_at c a b = if c == b'%' then hex_pair (hex_value a) (hex_value b) else none

-- `i + 2 < value.size()` holds where two more characters follow.
unfoldable pub decode : Bytes → Bytes
unfolding escape_at
decode [] = []
decode (c ∷ []) = c ∷ []
decode (c ∷ a ∷ []) = c ∷ a ∷ []
decode (c ∷ a ∷ b ∷ rest) = elim (escape_at c a b) [
  | some v ↦ v ∷ decode rest
  | none ↦ c ∷ decode (a ∷ b ∷ rest)
]

-- The loop of `split_tabs` from `start`, on fuel: each round but the last uses up a tab.
pub split_loop : ℕ → Bytes → List Bytes
split_loop zero line = []
split_loop (suc fuel) line = elim (find_cut tab line) [
  | none ↦ decode line ∷ []
  | some (field, rest) ↦ decode field ∷ split_loop fuel rest
]

unfoldable pub split_tabs : Bytes → List Bytes
unfolding split_loop find_cut
split_tabs line = split_loop (suc (length line)) line
