-- ===== src/Tests/Draw.antt =====
-- The drawing of greeter/zero-greeter-wayland.cpp and polkit-agent/zero-polkit-prompt-wayland.cpp.
use cardputer_zero_os.Base.{◌≡◌, refl, List, [], ◌∷◌, codes, if◌then◌else◌, arith}
use cardputer_zero_os.Base.Int.{pos, negsuc}
use cardputer_zero_os.Draw.{Pixels, pixel, Call, fill_call, draw_chars}
use cardputer_zero_os.Draw.Fill.{Gives, at}
use cardputer_zero_os.Draw.Picture.{Picture, Shows, paint_all, run_calls}
use cardputer_zero_os.Draw.Letters.{offset, lit_text, draw_chars_lem}
use cardputer_zero_os.Greeter.Canvas.{fill_rect}
use cardputer_zero_os.Prompt.Canvas as Prompt
use cardputer_zero_os.Prompt.Canvas.Bounds.{run_calls-Shows}
use cardputer_zero_os.Greeter.Glyphs.{glyph_rows}
use cardputer_zero_os.Greeter.Brush.{ink, accent}
use cardputer_zero_os.Greeter.Frame.{draw_frame}
use cardputer_zero_os.Greeter.Frame.Secrecy.{SameScreen, draw_frame-password}
use cardputer_zero_os.Draw.Inside.{StaysInside}
use cardputer_zero_os.Greeter.Frame.Inside.{draw_frame-StaysInside}
use cardputer_zero_os.Prompt.Frame.{draw_window}
use cardputer_zero_os.Prompt.Frame.Inside.{draw_window-StaysInside}
use cardputer_zero_os.Prompt.Args.{new_prompt}
use cardputer_zero_os.Tests.Greeter.{greeter}

abbrev black : Pixels
black n = 0xFF000000

abbrev white : Picture
white i j = 0xFFFFFFFF

-- One rectangle over the left edge and one over the corner.
abbrev edges : List Call
edges =
    fill_call (negsuc 4) (pos 3) (pos 9) (pos 2) ink
    ∷ fill_call (pos 316) (pos 168) (pos 9) (pos 9) accent
    ∷ []

run_calls-Shows_example :
    Gives (Shows (paint_all edges (at black))) (run_calls fill_rect edges black)
    × Gives (Shows (paint_all edges (at black))) (run_calls Prompt.fill_rect edges black)
run_calls-Shows_example = run_calls-Shows edges black

draw_chars_lem_example :
    paint_all (draw_chars glyph_rows (pos 10) (pos 20) (codes "AB") ink 1) white 16 21 ≡ (
      if lit_text glyph_rows (codes "AB") (offset (pos 10) 16) (offset (pos 20) 21)
      then pixel ink
      else white 16 21)
draw_chars_lem_example = draw_chars_lem glyph_rows (pos 10) (pos 20) (codes "AB") ink white 16 21

draw_frame-password_example :
    SameScreen
      (run_calls fill_rect
        (draw_frame (codes "12:34") (record greeter { password = codes "secret" }))
        black)
      (run_calls fill_rect
        (draw_frame (codes "12:34") (record greeter { password = codes "public" }))
        black)
draw_frame-password_example =
    draw_frame-password (codes "12:34") greeter (codes "secret") (codes "public") black black refl

draw_frame-StaysInside_example : StaysInside (draw_frame (codes "12:34") greeter)
draw_frame-StaysInside_example =
    draw_frame-StaysInside (codes "12:34") greeter (omega arith) (omega arith, (omega arith, tt))

draw_window-StaysInside_example : StaysInside (draw_window new_prompt)
draw_window-StaysInside_example = draw_window-StaysInside new_prompt
