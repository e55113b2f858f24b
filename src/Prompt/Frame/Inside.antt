-- ===== src/Prompt/Frame/Inside.antt =====
-- Where the drawing of polkit-agent/zero-polkit-prompt-wayland.cpp lies.
use cardputer_zero_os.Base.{
  ℕ, zero, suc, ◌+◌, ◌*◌, ◌≤◌, refl, min, Bool, ◌∷◌, Bytes, codes, if_both, is_empty, length, arith,
}
use cardputer_zero_os.Base.Int.{pos, ◌+ℤ◌, ◌-ℤ◌}
use cardputer_zero_os.Draw.{width, height, Color, is_lit}
use cardputer_zero_os.Greeter.Glyphs.{find_glyph, or_rows}
use cardputer_zero_os.Draw.Inside.{
  IsInside, draw_chars-IsInside, StaysInside, none-StaysInside, one-StaysInside, ◌and◌,
  tested-StaysInside,
}
use cardputer_zero_os.Prompt.Glyphs.{glyphs, glyph_rows}
use cardputer_zero_os.Prompt.Texts.{fit_text}
use cardputer_zero_os.Prompt.Texts.Fit.{fit_text_lem}
use cardputer_zero_os.Prompt.Frame.{
  PromptWindow, rect, fill_rect_call, draw_text, draw_dots, draw_password, draw_top, draw_info,
  draw_bar, draw_window, ink, muted, warn, field_color, line, accent,
}

draw_text-StaysInside :
    (x y : ℕ) (text : Bytes) (color : Color)
    → x + 6 * length text ≤ width
    → y + 7 ≤ height
    → StaysInside (draw_text (pos x) y text color)
unfolding draw_text
draw_text-StaysInside x y text color h v = record {
  each = draw_chars-IsInside glyph_rows x y text color h v;
}

-- A text that is cut to `n` characters.
fitted-StaysInside :
    (x y n : ℕ) (text : Bytes) (color : Color)
    → x + 6 * n ≤ width
    → y + 7 ≤ height
    → StaysInside (draw_text (pos x) y (fit_text text n) color)
fitted-StaysInside x y n text color h v =
    let short = (fit_text_lem text n).0 in
    draw_text-StaysInside x y (fit_text text n) color (omega (arith, short)) v

draw_dots-StaysInside :
    (x y i left : ℕ)
    → x + 7 * (i + left) ≤ width
    → y + 7 ≤ height
    → StaysInside (draw_dots x y i left)
unfolding draw_dots fill_rect_call
draw_dots-StaysInside x y i zero h v = none-StaysInside
draw_dots-StaysInside x y i (suc left) h v =
    one-StaysInside (ground arith) (draw_dots-StaysInside x y (i + 1) left (omega arith) v)

draw_password-StaysInside :
    (echo : Bool) (secret : Bytes) → StaysInside (draw_password echo secret 45 108)
unfolding draw_password
draw_password-StaysInside echo secret =
    if_both StaysInside echo (draw_text (pos 45) 108 (fit_text secret 34) ink)
      (draw_dots 45 108 0 (min (length secret) 32))
      (fitted-StaysInside 45 108 34 secret ink (omega arith) (omega arith))
      (draw_dots-StaysInside 45 108 0 (min (length secret) 32) (ground arith) (omega arith))

draw_info-StaysInside : (info : Bytes) → StaysInside (draw_info info)
unfolding draw_info
draw_info-StaysInside info =
    if_both StaysInside (is_empty info)
      (draw_text (pos 39) 125 (codes "ENTER OK   ESC CANCEL") muted)
      (draw_text (pos 39) 125 (fit_text info 38) warn)
      (draw_text-StaysInside 39 125 (codes "ENTER OK   ESC CANCEL") muted (omega arith)
        (omega arith))
      (fitted-StaysInside 39 125 38 info warn (omega arith) (omega arith))

draw_top-StaysInside : StaysInside draw_top
unfolding draw_top ◌-ℤ◌ ◌+ℤ◌ is_lit or_rows find_glyph glyphs
draw_top-StaysInside = tested-StaysInside draw_top refl

draw_bar-StaysInside : StaysInside draw_bar
unfolding draw_bar ◌-ℤ◌ ◌+ℤ◌ is_lit or_rows find_glyph glyphs
draw_bar-StaysInside = tested-StaysInside draw_bar refl

field_StaysInside : StaysInside (fill_rect_call 39 102 242 18 field_color ∷ rect 39 102 242 18 line)
unfolding fill_rect_call rect ◌-ℤ◌ ◌+ℤ◌
field_StaysInside =
    tested-StaysInside (fill_rect_call 39 102 242 18 field_color ∷ rect 39 102 242 18 line) refl

cursor_IsInside : (n : ℕ) → n ≤ 32 → IsInside (fill_rect_call (45 + n * 7) 106 2 10 accent)
unfolding fill_rect_call
cursor_IsInside n h = ground arith

-- Whatever the texts are and whatever was typed, the prompt draws every rectangle within its window: none
-- begins left of it or above it and none ends right of it or below it, so that its texts and its cursor
-- are never cut off at an edge.
pub draw_window-StaysInside : (w : PromptWindow) → StaysInside (draw_window w)
unfolding draw_window
draw_window-StaysInside w =
    draw_top-StaysInside
    and fitted-StaysInside 39 61 38 w.message ink (omega arith) (omega arith)
    and fitted-StaysInside 39 75 38 w.identity muted (omega arith) (omega arith)
    and fitted-StaysInside 39 89 38 w.request muted (omega arith) (omega arith)
    and field_StaysInside
    and draw_password-StaysInside w.echo w.secret
    and one-StaysInside (cursor_IsInside (min (length w.secret) 32) (ground arith))
        (draw_info-StaysInside w.info)
    and draw_bar-StaysInside
