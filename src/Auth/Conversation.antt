-- ===== src/Auth/Conversation.antt =====
-- `pam_conv_callback` of greeter/zero-greeter-auth.cpp, with the heap copies that it makes. Whether
-- `calloc` and each `strdup` succeed is given.
pub mod Answers
use cardputer_zero_os.Base.{
  ℕ, suc, ◌+◌, Bool, true, false, Option, none, some, List, [], ◌∷◌, ◌++◌, Bytes, if◌then◌else◌,
  c_str, take, drop, ◌≡◌, refl, ap, sym, ◌∙◌, append_assoc, append-nil, length, length-append, All,
  inl, inr, Bool-cases, arith, map,
}

-- `msg_style`
pub data Style : Type 0 where
  prompt_echo_off prompt_echo_on error_msg text_info unknown : Style

pub data Status : Type 0 where
  success conv_err buf_err : Status

-- The status, `*resp` if it was set, and the copies that were neither handed over nor freed.
pub record Conversed : Type 0 where
  pub status : Status
  pub resp : Option (List (Option Bytes))
  pub leaked : List Bytes

-- The copies among the responses.
unfoldable pub copies : List (Option Bytes) → List Bytes
copies [] = []
copies (none ∷ rs) = copies rs
copies (some s ∷ rs) = s ∷ copies rs

-- A return with an error: `made` are the copies so far, and the first ones of them were freed.
stop : Status → List Bytes → List Bytes → Conversed
stop status made freed = record { status = status; resp = none; leaked = drop (length freed) made }

unfoldable pub or_null : Option Bytes → Bytes
or_null none = []
or_null (some password) = password

abbrev pub is_prompt : Style → Bool
is_prompt Style.prompt_echo_off = true
is_prompt Style.prompt_echo_on = true
is_prompt _ = false

abbrev pub is_notice : Style → Bool
is_notice Style.error_msg = true
is_notice Style.text_info = true
is_notice _ = false

-- The loop from message `i` on; `done` are the responses before it. A failed copy and an unknown style
-- free the copies in the responses below `i`; a null message frees the array only.
unfoldable pub converse_from :
    (ℕ → Bool) → Bytes → ℕ → List (Option Bytes) → List (Option Style) → Conversed
unfolding stop
converse_from dup password i done [] = record { status = success; resp = some done; leaked = [] }
converse_from dup password i done (none ∷ msgs) = stop conv_err (copies done) []
converse_from dup password i done (some style ∷ msgs) =
    let prompted = converse_from dup password (i + 1) (done ++ some (c_str password) ∷ []) msgs in
    let noted = converse_from dup password (i + 1) (done ++ none ∷ []) msgs in
    if is_prompt style
    then (if dup i then prompted else stop buf_err (copies done) (copies (take i done)))
    else if is_notice style
    then noted
    else stop conv_err (copies done) (copies (take i done))

-- `num_msg` is the length of the array; a null array is none.
unfoldable pub pam_conv_callback :
    Bool → (ℕ → Bool) → Option Bytes → Option (List (Option Style)) → Bool → Conversed
unfolding converse_from or_null
pam_conv_callback callocs dup appdata none resp = stop conv_err [] []
pam_conv_callback callocs dup appdata (some []) resp = stop conv_err [] []
pam_conv_callback callocs dup appdata (some (m ∷ msgs)) false = stop conv_err [] []
pam_conv_callback callocs dup appdata (some (m ∷ msgs)) true =
    let answered = converse_from dup (or_null appdata) 0 [] (m ∷ msgs) in
    if callocs then answered else stop buf_err [] []
