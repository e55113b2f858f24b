-- ===== src/Greeter/Text.antt =====
-- The texts that greeter/zero-greeter-wayland.cpp draws: `display_ascii`, `fit_text`,
-- `display_identifier` and `fit_identifier`.
pub mod Fit
use cardputer_zero_os.Base.{
  ℕ, ◌+◌, ◌-◌, ◌<◌, Bool, true, false, not, ◌&&◌, ◌||◌, List, [], ◌∷◌, ◌++◌, Bytes, codes, ltb, leb,
  ◌==◌, if◌then◌else◌, is_empty, length, take,
}

-- `std::isalnum` and `std::toupper` in the "C" locale
abbrev pub is_lower : ℕ → Bool
is_lower ch = leb b'a' ch && leb ch b'z'

abbrev pub is_alnum : ℕ → Bool
is_alnum ch = leb b'0' ch && leb ch b'9' || leb b'A' ch && leb ch b'Z' || is_lower ch

abbrev pub to_upper : ℕ → ℕ
to_upper ch = if is_lower ch then ch - 0x20 else ch

abbrev pub is_separator : ℕ → Bool
is_separator ch = ch == 0x20 || ch == b'-' || ch == b'_'

-- The loop of `display_ascii` over the rest of the text, with `out` and `last_space`.
pub ascii_loop : Bytes → Bool → Bytes → Bytes
ascii_loop out last_space [] = out
ascii_loop out last_space (ch ∷ text) =
    let skipped = ascii_loop out last_space text in
    let lettered = ascii_loop (out ++ to_upper ch ∷ []) false text in
    let spaced = ascii_loop (out ++ 0x20 ∷ []) true text in
    if leb 0x80 ch
    then skipped
    else if is_alnum ch
    then lettered
    else if is_separator ch && not (is_empty out) && not last_space
    then spaced
    else skipped

-- The loop that pops spaces from the back.
unfoldable pub pop_spaces : Bytes → Bytes
pop_spaces [] = []
pop_spaces (c ∷ s) = let rest = pop_spaces s in if is_empty rest && c == 0x20 then [] else c ∷ rest

unfoldable pub display_ascii : Bytes → Bytes
unfolding ascii_loop pop_spaces
display_ascii text = pop_spaces (ascii_loop [] false text)

-- What `fit_text` and `fit_identifier` do to a text that is too long.
unfoldable pub shorten : ℕ → Bytes → Bytes
shorten max_chars text =
    if ltb max_chars (length text)
    then (if ltb 1 max_chars then take (max_chars - 1) text ++ b'.' ∷ [] else take max_chars text)
    else text

unfoldable pub fit_text : Bytes → ℕ → Bytes
unfolding display_ascii shorten
fit_text text max_chars = shorten max_chars (display_ascii text)

unfoldable pub display_identifier : Bytes → Bytes
display_identifier [] = []
display_identifier (ch ∷ text) =
    let rest = display_identifier text in
    if leb 0x80 ch
    then rest
    else if is_alnum ch || ch == b'-' || ch == b'_' || ch == b'.'
    then ch ∷ rest
    else rest

or_question : Bytes → Bytes
or_question text = if is_empty text then b'?' ∷ [] else text

unfoldable pub fit_identifier : Bytes → ℕ → Bytes
unfolding display_identifier shorten or_question
fit_identifier text max_chars = or_question (shorten max_chars (display_identifier text))
