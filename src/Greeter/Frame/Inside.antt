-- ===== src/Greeter/Frame/Inside.antt =====
-- Where the frame of greeter/zero-greeter-wayland.cpp lies.
use cardputer_zero_os.Base.{
  ℕ, ◌+◌, ◌*◌, ◌≤◌, ◌<◌, refl, min, Option, none, some, List, [], ◌∷◌, ◌++◌, Bytes, codes,
  if◌then◌else◌, if_both, is_empty, length, get_elem?, All, arith,
}
use cardputer_zero_os.Base.Int.{pos, ◌+ℤ◌, ◌-ℤ◌}
use cardputer_zero_os.Draw.{width, Call, is_lit}
use cardputer_zero_os.Draw.Inside.{
  StaysInside, none-StaysInside, one-StaysInside, ◌and◌, tested-StaysInside,
}
use cardputer_zero_os.Greeter.Users.{UserEntry}
use cardputer_zero_os.Greeter.Screen.{Greeter, is_nil}
use cardputer_zero_os.Greeter.Text.{fit_text, fit_identifier}
use cardputer_zero_os.Greeter.Text.Fit.{fit_text_lem, fit_identifier_lem}
use cardputer_zero_os.Greeter.Glyphs.{glyphs, find_glyph, or_rows}
use cardputer_zero_os.Greeter.Brush.{
  ink, muted, warn, accent, panel, shadow, line, icon_well, fill_rect_call, rect, draw_text,
  draw_text_right, draw_user_icon, draw_battery, zero_bg,
}
use cardputer_zero_os.Greeter.Brush.Dots.{draw_password-StaysInside}
use cardputer_zero_os.Greeter.Frame.{
  grid, draw_top, is_user_menu, is_login, draw_selected, draw_box, draw_pass, draw_status, draw_bar,
  draw_frame,
}
use cardputer_zero_os.Greeter.Frame.Menus.{draw_text-StaysInside, IsUser, draw_menu-StaysInside}

draw_top-StaysInside : (clock : Bytes) → length clock < 8 → StaysInside (draw_top clock)
unfolding draw_top ◌-ℤ◌ ◌+ℤ◌ is_lit or_rows find_glyph glyphs
draw_top-StaysInside clock h =
    tested-StaysInside
      (Call.clear_to zero_bg ∷ grid 28 14
        ++ fill_rect_call 0 0 width 20 panel ∷ rect 0 0 width 20 line)
      refl
    and draw_text-StaysInside 6 5 clock ink (omega arith) (omega arith)
    and tested-StaysInside (draw_text (pos 222) 5 (codes "LOGIN") muted) refl
    and tested-StaysInside (draw_text_right 286 5 (codes "--%") ink) refl
    and tested-StaysInside (draw_battery 292 5) refl
    and tested-StaysInside (fill_rect_call 112 21 96 3 accent ∷ []) refl

draw_selected-StaysInside :
    (users : List UserEntry) (selected : ℕ) → StaysInside (draw_selected users selected)
unfolding draw_selected
draw_selected-StaysInside users selected =
    if_both StaysInside (is_nil users) (draw_text (pos 138) 80 (codes "NO USERS") warn) _
      (draw_text-StaysInside 138 80 (codes "NO USERS") warn (omega arith) (omega arith))
      (by_user (get_elem? users selected))
  where
    by_user :
        (o : Option UserEntry)
        → StaysInside (elim o [
          | none ↦ []
          | some user ↦ draw_text (pos 138) 80 (fit_identifier user.name 16) ink
        ])
    by_user none = none-StaysInside
    by_user (some user) =
        let short = (fit_identifier_lem user.name 16 (omega arith)).1 in
        draw_text-StaysInside 138 80 (fit_identifier user.name 16) ink (omega (arith, short))
          (omega arith)

draw_box-StaysInside : (g : Greeter) → StaysInside (draw_box g)
unfolding draw_box ◌-ℤ◌ ◌+ℤ◌ is_lit or_rows find_glyph glyphs
draw_box-StaysInside g =
    tested-StaysInside
      (fill_rect_call 64 38 200 94 shadow
        ∷ fill_rect_call 60 34 200 94 panel
        ∷ rect 60 34 200 94 line)
      refl
    and tested-StaysInside (draw_text (pos 76) 48 (codes "CARDPUTER ZERO") ink) refl
    and if_both (λ text. StaysInside (draw_text (pos 76) 61 text muted)) (is_user_menu g.mode)
        (codes "SELECT USER") (codes "GUI LOGIN")
        (draw_text-StaysInside 76 61 (codes "SELECT USER") muted (omega arith) (omega arith))
        (draw_text-StaysInside 76 61 (codes "GUI LOGIN") muted (omega arith) (omega arith))
    and tested-StaysInside (draw_text (pos 76) 81 (codes "USER") muted) refl
    and tested-StaysInside (fill_rect_call 116 74 126 18 icon_well ∷ rect 116 74 126 18 line) refl
    and tested-StaysInside (draw_user_icon 122 79 ink) refl
    and draw_selected-StaysInside g.users g.selected

cursor-StaysInside :
    (n : ℕ) → n ≤ 12 → StaysInside (fill_rect_call (126 + n * 7 + 1) 103 2 10 accent ∷ [])
unfolding fill_rect_call
cursor-StaysInside n h = one-StaysInside (ground arith) none-StaysInside

draw_pass-StaysInside : (g : Greeter) → StaysInside (draw_pass g)
unfolding draw_pass ◌-ℤ◌ ◌+ℤ◌ is_lit or_rows find_glyph glyphs
draw_pass-StaysInside g =
    let n = min (length g.password) 12 in
    tested-StaysInside (draw_text (pos 76) 106 (codes "PASS") muted) refl
    and tested-StaysInside
        (fill_rect_call 116 99 126 18 icon_well
          ∷ rect 116 99 126 18 (if g.error then warn else accent))
        refl
    and draw_password-StaysInside g.password
    and if_both StaysInside (is_login g.mode)
        (fill_rect_call (126 + n * 7 + 1) 103 2 10 accent ∷ []) []
        (cursor-StaysInside n (ground arith)) none-StaysInside

draw_status-StaysInside : (g : Greeter) → StaysInside (draw_status g)
unfolding draw_status
draw_status-StaysInside g =
    let status = if is_empty g.message then codes "PAM AUTHENTICATION" else g.message in
    let short = (fit_text_lem status 26).0 in
    draw_text-StaysInside 76 120 (fit_text status 26) (if g.error then warn else muted)
      (omega (arith, short)) (omega arith)

draw_bar-StaysInside : StaysInside draw_bar
unfolding draw_bar ◌-ℤ◌ ◌+ℤ◌ is_lit or_rows find_glyph glyphs
draw_bar-StaysInside = tested-StaysInside draw_bar refl

-- Whatever the names of the accounts are, the messages and the password, the greeter draws every
-- rectangle of its frame within its window, in each mode: none begins left of it or above it and none
-- ends right of it or below it. The clock's text is to be one of the buffer of eight bytes, and the ids
-- of the users are of 32 bits.
pub draw_frame-StaysInside :
    (clock : Bytes) (g : Greeter)
    → length clock < 8
    → All IsUser g.users
    → StaysInside (draw_frame clock g)
unfolding draw_frame
draw_frame-StaysInside clock g c h =
    draw_top-StaysInside clock c
    and draw_box-StaysInside g
    and draw_pass-StaysInside g
    and draw_status-StaysInside g
    and draw_bar-StaysInside
    and draw_menu-StaysInside g g.mode h
