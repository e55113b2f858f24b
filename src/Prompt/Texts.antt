-- ===== src/Prompt/Texts.antt =====
-- `display_ascii` and `fit_text` of polkit-agent/zero-polkit-prompt-wayland.cpp. The loop that pops
-- spaces and the cut of a long text read as in the greeter.
pub mod Fit
use cardputer_zero_os.Base.{
  ℕ, Bool, true, false, not, ◌&&◌, List, [], ◌∷◌, ◌++◌, Bytes, leb, ◌==◌, if◌then◌else◌, is_empty,
}
use cardputer_zero_os.Greeter.Text.{pop_spaces, shorten}
use cardputer_zero_os.Greeter.Screen.{is_print}

-- The loop over the rest of the text, with `out` and `last_space`. Of what `std::isprint` accepts, only
-- 0x20 is a space.
pub ascii_loop : Bytes → Bool → Bytes → Bytes
ascii_loop out last_space [] = out
ascii_loop out last_space (ch ∷ text) =
    let skipped = ascii_loop out last_space text in
    let kept = ascii_loop (out ++ ch ∷ []) false text in
    let spaced = ascii_loop (out ++ 0x20 ∷ []) true text in
    if leb 0x80 ch
    then skipped
    else if not (is_print ch)
    then skipped
    else if ch == 0x20
    then (if not (is_empty out) && not last_space then spaced else skipped)
    else kept

unfoldable pub display_ascii : Bytes → Bytes
unfolding ascii_loop pop_spaces
display_ascii text = pop_spaces (ascii_loop [] false text)

unfoldable pub fit_text : Bytes → ℕ → Bytes
unfolding display_ascii shorten
fit_text text max_chars = shorten max_chars (display_ascii text)
