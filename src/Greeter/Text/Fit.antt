-- ===== src/Greeter/Text/Fit.antt =====
-- What the texts that greeter/zero-greeter-wayland.cpp draws look like: their width and their
-- characters.
use cardputer_zero_os.Base.{
  ℕ, zero, suc, ◌-◌, ◌≤◌, ◌≡◌, ◌≢◌, refl, Bool, true, false, not, ◌&&◌, ◌||◌, [], ◌∷◌, ◌++◌, Bytes,
  ltb, leb, ◌==◌, if_both, if_when, is_empty, length, length-append, take, All, All-append, arith,
}
use cardputer_zero_os.Greeter.Text.{
  is_alnum, to_upper, is_separator, ascii_loop, pop_spaces, display_ascii, shorten, fit_text,
  display_identifier, or_question, fit_identifier,
}

length-take : (n : ℕ) (s : Bytes) → length (take n s) ≤ n
length-take zero s = omega arith
length-take (suc n) [] = omega arith
length-take (suc n) (c ∷ s) = omega (arith, length-take n s)

pub length-shorten : (n : ℕ) (s : Bytes) → length (shorten n s) ≤ n
unfolding shorten
length-shorten n s =
    ground
      (arith, length-take n s, length-take (n - 1) s, length-append (take (n - 1) s) (b'.' ∷ []))

module _ (P : ℕ → Type 0) where
  All-take : (n : ℕ) (s : Bytes) → All P s → All P (take n s)
  All-take zero s h = tt
  All-take (suc n) [] h = tt
  All-take (suc n) (c ∷ s) (p, h) = (p, All-take n s h)

  pub All-shorten : (n : ℕ) (s : Bytes) → P b'.' → All P s → All P (shorten n s)
  unfolding shorten
  All-shorten n s dot h =
      if_both (All P) (ltb n (length s)) _ s
        (if_both (All P) (ltb 1 n) (take (n - 1) s ++ b'.' ∷ []) (take n s)
          (All-append P (take (n - 1) s) (b'.' ∷ []) (All-take (n - 1) s h) (dot, tt))
          (All-take n s h))
        h

  pub All-pop_spaces : (s : Bytes) → All P s → All P (pop_spaces s)
  unfolding pop_spaces
  All-pop_spaces [] h = tt
  All-pop_spaces (c ∷ s) (p, h) =
      if_both (All P) (is_empty (pop_spaces s) && c == 0x20) [] (c ∷ pop_spaces s) tt
        (p, All-pop_spaces s h)

-- The characters of a label: capital letters, digits, and a space between two of them.
abbrev pub IsLabel : ℕ → Type 0
IsLabel c = (leb b'0' c && leb c b'9' || leb b'A' c && leb c b'Z' || c == 0x20 || c == b'.') ≡ true

upper-IsLabel : (ch : ℕ) → is_alnum ch ≡ true → IsLabel (to_upper ch)
upper-IsLabel ch e = ground arith

ascii_loop-IsLabel :
    (out : Bytes) (last_space : Bool) (text : Bytes)
    → All IsLabel out
    → All IsLabel (ascii_loop out last_space text)
unfolding ascii_loop
ascii_loop-IsLabel out last [] h = h
ascii_loop-IsLabel out last (ch ∷ text) h =
    let skipped = ascii_loop-IsLabel out last text h in
    let grown = λ (c : ℕ) (b : Bool) (l : IsLabel c).
      ascii_loop-IsLabel (out ++ c ∷ []) b text (All-append IsLabel out (c ∷ []) h (l, tt)) in
    if_both (All IsLabel) (leb 0x80 ch) _ _ skipped (
      if_when (All IsLabel) (is_alnum ch) _ _ (λ e. grown (to_upper ch) false (upper-IsLabel ch e))
        (if_both (All IsLabel) (is_separator ch && not (is_empty out) && not last) _ _
          (grown 0x20 true refl) skipped))

-- A text fits into its place, and shows nothing but capital letters, digits, spaces and a dot.
pub fit_text_lem :
    (text : Bytes) (max_chars : ℕ)
    → (length (fit_text text max_chars) ≤ max_chars) × All IsLabel (fit_text text max_chars)
unfolding fit_text display_ascii
fit_text_lem text n = (
  length-shorten n (display_ascii text),
  All-shorten IsLabel n (display_ascii text) refl
      (All-pop_spaces IsLabel (ascii_loop [] false text) (ascii_loop-IsLabel [] false text tt)),
)

-- The characters of a user name as it is shown.
abbrev pub IsIdentifier : ℕ → Type 0
IsIdentifier ch = (is_alnum ch || ch == b'-' || ch == b'_' || ch == b'.' || ch == b'?') ≡ true

display_identifier-IsIdentifier : (text : Bytes) → All IsIdentifier (display_identifier text)
unfolding display_identifier
display_identifier-IsIdentifier [] = tt
display_identifier-IsIdentifier (ch ∷ text) =
    let rest = display_identifier-IsIdentifier text in
    if_both (All IsIdentifier) (leb 0x80 ch) _ _ rest (
      if_when (All IsIdentifier) (is_alnum ch || ch == b'-' || ch == b'_' || ch == b'.') _ _
        (λ e. (ground arith, rest)) rest)

or_question_lem :
    (n : ℕ) (text : Bytes)
    → 1 ≤ n
    → length text ≤ n
    → All IsIdentifier text
    → (or_question text ≢ [])
      × (length (or_question text) ≤ n)
      × All IsIdentifier (or_question text)
unfolding or_question
or_question_lem n [] one h p = ((λ e. cc), one, (refl, tt))
or_question_lem n (c ∷ s) one h p = ((λ e. cc), h, p)

-- A user name fits into its place, if that has room for a character at all, is never shown as nothing,
-- and shows only letters, digits, dashes, underscores, dots and the mark for an empty name.
pub fit_identifier_lem :
    (text : Bytes) (max_chars : ℕ)
    → 1 ≤ max_chars
    → (fit_identifier text max_chars ≢ [])
      × (length (fit_identifier text max_chars) ≤ max_chars)
      × All IsIdentifier (fit_identifier text max_chars)
unfolding fit_identifier
fit_identifier_lem text n one =
    let shown = display_identifier text in
    or_question_lem n (shorten n shown) one (length-shorten n shown)
      (All-shorten IsIdentifier n shown refl (display_identifier-IsIdentifier text))
