-- ===== src/Greeter/Brush.antt =====
-- What `GreeterWindow` of greeter/zero-greeter-wayland.cpp draws with: its colours, `draw_text` and its
-- variants, the icons and the dots of the password. Every text has the default scale 1.
pub mod Dots
use cardputer_zero_os.Base.{ℕ, zero, suc, ◌+◌, ◌*◌, ◌/◌, min, List, [], ◌∷◌, ◌++◌, Bytes, length}
use cardputer_zero_os.Base.Int.{ℤ, pos, ◌-ℤ◌}
use cardputer_zero_os.Draw.{Color, Call, fill_call, draw_rect, draw_chars}
use cardputer_zero_os.Greeter.Glyphs.{glyph_rows}

abbrev rgb : ℕ → ℕ → ℕ → Color
rgb r g b = record { r = r; g = g; b = b }

abbrev pub zero_bg : Color
zero_bg = rgb 0xE9 0xE4 0xD5

abbrev pub panel : Color
panel = rgb 0xF4 0xF0 0xE6

abbrev pub task_button : Color
task_button = rgb 0xEF 0xE8 0xD9

abbrev pub icon_well : Color
icon_well = rgb 0xF8 0xF4 0xEA

abbrev pub ink : Color
ink = rgb 0x17 0x17 0x17

abbrev pub line : Color
line = rgb 0x2A 0x2A 0x2A

abbrev pub muted : Color
muted = rgb 0x6E 0x6A 0x61

abbrev pub soft_line : Color
soft_line = rgb 0xBB 0xB1 0x9E

abbrev pub grid_dot : Color
grid_dot = rgb 0xC9 0xC1 0xAE

abbrev pub accent : Color
accent = rgb 0xE6 0x6A 0x2C

abbrev pub ok : Color
ok = rgb 0x3A 0x7D 0x44

abbrev pub warn : Color
warn = rgb 0xB9 0x4A 0x2C

abbrev pub shadow : Color
shadow = rgb 0xBD 0xB5 0xA4

unfoldable pub fill_rect_call : ℕ → ℕ → ℕ → ℕ → Color → Call
fill_rect_call x y w h color = fill_call (pos x) (pos y) (pos w) (pos h) color

unfoldable pub rect : ℕ → ℕ → ℕ → ℕ → Color → List Call
unfolding draw_rect
rect x y w h color = draw_rect (pos x) (pos y) (pos w) (pos h) color

unfoldable pub draw_text : ℤ → ℕ → Bytes → Color → List Call
unfolding draw_chars glyph_rows
draw_text x y text color = draw_chars glyph_rows x (pos y) text color 1

unfoldable pub draw_text_centered : ℕ → ℕ → Bytes → Color → List Call
unfolding draw_text
draw_text_centered cx y text color = draw_text (pos cx -ℤ pos (length text * 6 / 2)) y text color

unfoldable pub draw_text_right : ℕ → ℕ → Bytes → Color → List Call
unfolding draw_text
draw_text_right right y text color = draw_text (pos right -ℤ pos (length text * 6)) y text color

unfoldable pub draw_user_icon : ℕ → ℕ → Color → List Call
unfolding fill_rect_call
draw_user_icon x y color =
    fill_rect_call (x + 3) y 4 1 color
    ∷ fill_rect_call (x + 2) (y + 1) 1 3 color
    ∷ fill_rect_call (x + 7) (y + 1) 1 3 color
    ∷ fill_rect_call (x + 3) (y + 4) 4 1 color
    ∷ fill_rect_call (x + 1) (y + 7) 8 1 color
    ∷ fill_rect_call x (y + 8) 1 3 color
    ∷ fill_rect_call (x + 9) (y + 8) 1 3 color
    ∷ []

unfoldable pub draw_power_icon : ℕ → ℕ → Color → List Call
unfolding fill_rect_call
draw_power_icon x y color =
    fill_rect_call (x + 4) y 2 5 color
    ∷ fill_rect_call (x + 2) (y + 3) 1 2 color
    ∷ fill_rect_call (x + 7) (y + 3) 1 2 color
    ∷ fill_rect_call (x + 1) (y + 5) 1 3 color
    ∷ fill_rect_call (x + 8) (y + 5) 1 3 color
    ∷ fill_rect_call (x + 2) (y + 8) 6 1 color
    ∷ []

unfoldable pub draw_battery : ℕ → ℕ → List Call
unfolding fill_rect_call rect
draw_battery x y =
    rect x y 22 9 line
    ++ fill_rect_call (x + 22) (y + 3) 2 3 line ∷ fill_rect_call (x + 2) (y + 2) 12 5 ok ∷ []

-- The loop over the dots from `i` on, with how many are left.
pub draw_dots : ℕ → ℕ → ℕ → ℕ → List Call
unfolding fill_rect_call
draw_dots x y i zero = []
draw_dots x y i (suc left) = fill_rect_call (x + i * 7) (y + 5) 4 4 ink ∷ draw_dots x y (i + 1) left

unfoldable pub draw_password : Bytes → ℕ → ℕ → List Call
unfolding draw_dots
draw_password password x y = draw_dots x y 0 (min (length password) 12)
