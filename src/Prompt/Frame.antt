-- ===== src/Prompt/Frame.antt =====
-- The fields of `PromptWindow` of polkit-agent/zero-polkit-prompt-wayland.cpp, and what `render` draws
-- of them: the list of its calls of `clear` and `fill_rect`.
pub mod Inside
use cardputer_zero_os.Base.{
  ℕ, zero, suc, ◌+◌, ◌*◌, ◌/◌, min, Bool, List, [], ◌∷◌, ◌++◌, Bytes, codes, if◌then◌else◌,
  is_empty, length,
}
use cardputer_zero_os.Base.Int.{ℤ, pos, ◌-ℤ◌}
use cardputer_zero_os.Draw.{width, Color, Call, fill_call, draw_rect, draw_chars}
use cardputer_zero_os.Prompt.Glyphs.{glyph_rows}
use cardputer_zero_os.Prompt.Texts.{fit_text}

-- `buffers_` by their flags `busy`. `commits` is what was drawn into the buffers that the surface was
-- given, the newest first.
pub record PromptWindow : Type 0 where
  pub message : Bytes
  pub identity : Bytes
  pub request : Bytes
  pub info : Bytes
  pub echo : Bool
  pub buffers : List Bool
  pub configured : Bool
  pub running : Bool
  pub accepted : Bool
  pub dirty : Bool
  pub secret : Bytes
  pub commits : List (List Call)

abbrev rgb : ℕ → ℕ → ℕ → Color
rgb r g b = record { r = r; g = g; b = b }

abbrev pub zero_bg : Color
zero_bg = rgb 0xE9 0xE4 0xD5

abbrev panel : Color
panel = rgb 0xF4 0xF0 0xE6

abbrev field_color : Color
field_color = rgb 0xF8 0xF4 0xEA

abbrev ink : Color
ink = rgb 0x17 0x17 0x17

abbrev line : Color
line = rgb 0x2A 0x2A 0x2A

abbrev muted : Color
muted = rgb 0x6E 0x6A 0x61

abbrev grid_dot : Color
grid_dot = rgb 0xC9 0xC1 0xAE

abbrev accent : Color
accent = rgb 0xE6 0x6A 0x2C

abbrev warn : Color
warn = rgb 0xB9 0x4A 0x2C

abbrev shadow : Color
shadow = rgb 0xBD 0xB5 0xA4

unfoldable pub fill_rect_call : ℕ → ℕ → ℕ → ℕ → Color → Call
fill_rect_call x y w h color = fill_call (pos x) (pos y) (pos w) (pos h) color

rect : ℕ → ℕ → ℕ → ℕ → Color → List Call
unfolding draw_rect
rect x y w h color = draw_rect (pos x) (pos y) (pos w) (pos h) color

-- `draw_text` with the scale 1
unfoldable pub draw_text : ℤ → ℕ → Bytes → Color → List Call
unfolding draw_chars glyph_rows
draw_text x y text color = draw_chars glyph_rows x (pos y) text color 1

unfoldable pub draw_text_centered : ℕ → ℕ → Bytes → Color → List Call
unfolding draw_text
draw_text_centered cx y text color = draw_text (pos cx -ℤ pos (length text * 6 / 2)) y text color

-- The loop over the dots from `i` on, with how many are left.
pub draw_dots : ℕ → ℕ → ℕ → ℕ → List Call
unfolding fill_rect_call
draw_dots x y i zero = []
draw_dots x y i (suc left) = fill_rect_call (x + i * 7) (y + 3) 4 4 ink ∷ draw_dots x y (i + 1) left

unfoldable pub draw_password : Bool → Bytes → ℕ → ℕ → List Call
unfolding draw_text draw_dots
draw_password echo secret x y =
    if echo
    then draw_text (pos x) y (fit_text secret 34) ink
    else draw_dots x y 0 (min (length secret) 32)

-- The loops over the dots of the background, with how many rounds are left.
grid_row : ℕ → ℕ → ℕ → List Call
unfolding fill_rect_call
grid_row y x zero = []
grid_row y x (suc left) = fill_rect_call x y 1 1 grid_dot ∷ grid_row y (x + 10) left

pub grid : ℕ → ℕ → List Call
unfolding grid_row
grid y zero = []
grid y (suc left) = grid_row y 12 30 ++ grid (y + 10) left

-- From `clear` to the label of the box.
unfoldable pub draw_top : List Call
unfolding grid rect draw_text fill_rect_call draw_text_centered
draw_top =
    Call.clear_to zero_bg ∷ grid 25 13
    ++ fill_rect_call 0 0 width 20 panel ∷ rect 0 0 width 20 line
    ++ draw_text (pos 7) 6 (codes "ZERO AUTH") ink
    ++ draw_text (pos 240) 6 (codes "POLKIT") muted
    ++ fill_rect_call 112 21 96 3 accent
      ∷ fill_rect_call 31 36 266 102 shadow
      ∷ fill_rect_call 27 32 266 102 panel
      ∷ rect 27 32 266 102 line
    ++ fill_rect_call 27 32 266 18 ink ∷ draw_text_centered 160 37 (codes "AUTHORIZATION") panel

unfoldable pub draw_info : Bytes → List Call
unfolding draw_text
draw_info info =
    if is_empty info
    then draw_text (pos 39) 125 (codes "ENTER OK   ESC CANCEL") muted
    else draw_text (pos 39) 125 (fit_text info 38) warn

-- The bar at the bottom.
unfoldable pub draw_bar : List Call
unfolding fill_rect_call rect draw_text
draw_bar =
    fill_rect_call 0 150 width 20 panel ∷ rect 0 150 width 20 line
    ++ fill_rect_call 0 150 86 20 field_color ∷ rect 0 150 86 20 line
    ++ draw_text (pos 13) 157 (codes "ENTER AUTH") ink
    ++ draw_text (pos 234) 157 (codes "ESC CANCEL") muted

-- `px`, `py`, `pw` and `ph` are 27, 32, 266 and 102.
unfoldable pub draw_window : PromptWindow → List Call
unfolding fill_rect_call rect draw_text draw_password draw_top draw_info draw_bar
draw_window w =
    draw_top
    ++ draw_text (pos 39) 61 (fit_text w.message 38) ink
    ++ draw_text (pos 39) 75 (fit_text w.identity 38) muted
    ++ draw_text (pos 39) 89 (fit_text w.request 38) muted
    ++ fill_rect_call 39 102 242 18 field_color ∷ rect 39 102 242 18 line
    ++ draw_password w.echo w.secret 45 108
    ++ fill_rect_call (45 + min (length w.secret) 32 * 7) 106 2 10 accent ∷ draw_info w.info
    ++ draw_bar
