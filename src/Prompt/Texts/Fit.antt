-- ===== src/Prompt/Texts/Fit.antt =====
-- What the texts that polkit-agent/zero-polkit-prompt-wayland.cpp draws look like.
use cardputer_zero_os.Base.{
  ℕ, ◌≤◌, ◌≡◌, refl, Bool, true, false, not, Bool-cases, inl, inr, ◌&&◌, [], ◌∷◌, ◌++◌, Bytes, leb,
  ◌==◌, if_both, is_empty, length, All, All-append,
}
use cardputer_zero_os.Greeter.Screen.{is_print}
use cardputer_zero_os.Greeter.Text.Fit.{length-shorten, All-shorten, All-pop_spaces}
use cardputer_zero_os.Prompt.Texts.{ascii_loop, display_ascii, fit_text}

abbrev pub IsPrintable : ℕ → Type 0
IsPrintable c = is_print c ≡ true

ascii_loop-IsPrintable :
    (out : Bytes) (last_space : Bool) (text : Bytes)
    → All IsPrintable out
    → All IsPrintable (ascii_loop out last_space text)
unfolding ascii_loop
ascii_loop-IsPrintable out last [] h = h
ascii_loop-IsPrintable out last (ch ∷ text) h =
    let skipped = ascii_loop-IsPrintable out last text h in
    let grown = λ (c : ℕ) (b : Bool) (l : IsPrintable c).
      ascii_loop-IsPrintable (out ++ c ∷ []) b text
        (All-append IsPrintable out (c ∷ []) h (l, tt)) in
    if_both (All IsPrintable) (leb 0x80 ch) _ _ skipped (elim (Bool-cases (is_print ch)) [
      | inl e ↦ rw e (
          if_both (All IsPrintable) (ch == 0x20) _ _
            (if_both (All IsPrintable) (not (is_empty out) && not last) _ _ (grown 0x20 true refl)
              skipped)
            (grown ch false e))
      | inr e ↦ rw e skipped
    ])

-- A text fits into its place, and shows only printable ASCII characters.
pub fit_text_lem :
    (text : Bytes) (max_chars : ℕ)
    → (length (fit_text text max_chars) ≤ max_chars) × All IsPrintable (fit_text text max_chars)
unfolding fit_text display_ascii
fit_text_lem text n = (
  length-shorten n (display_ascii text),
  All-shorten IsPrintable n (display_ascii text) refl (
      All-pop_spaces IsPrintable (ascii_loop [] false text)
        (ascii_loop-IsPrintable [] false text tt)),
)
