-- ===== src/Greeter/Frame/Menus.antt =====
-- Where the menus of greeter/zero-greeter-wayland.cpp lie.
use cardputer_zero_os.Base.{
  ℕ, zero, suc, ◌+◌, ◌-◌, ◌*◌, ◌^◌, ◌≤◌, ◌<◌, ◌≡◌, refl, sym, subst, Option, none, some, List, [],
  ◌∷◌, ◌++◌, Bytes, codes, if◌then◌else◌, if_both, length, get_elem?, All, ◌==◌, to_string,
  length-to_string, arith,
}
use cardputer_zero_os.Base.Int.{pos, ◌+ℤ◌, ◌-ℤ◌}
use cardputer_zero_os.Draw.{width, height, Color, is_lit}
use cardputer_zero_os.Draw.Inside.{
  IsInside, draw_chars-IsInside, StaysInside, none-StaysInside, one-StaysInside, ◌and◌,
  tested-StaysInside,
}
use cardputer_zero_os.Greeter.Users.{UserEntry}
use cardputer_zero_os.Greeter.Screen.{UiMode, Greeter, is_nil}
use cardputer_zero_os.Greeter.Text.{fit_identifier}
use cardputer_zero_os.Greeter.Text.Fit.{fit_identifier_lem}
use cardputer_zero_os.Greeter.Menu.{visible, menu_start}
use cardputer_zero_os.Greeter.Glyphs.{glyph_rows, glyphs, find_glyph, or_rows}
use cardputer_zero_os.Greeter.Brush.{
  ink, muted, accent, panel, shadow, line, fill_rect_call, rect, draw_text, draw_text_right,
}
use cardputer_zero_os.Greeter.Frame.{
  draw_user_row, draw_user_rows, draw_user_menu, draw_power_menu, draw_menu,
}

pub draw_text-StaysInside :
    (x y : ℕ) (text : Bytes) (color : Color)
    → x + 6 * length text ≤ width
    → y + 7 ≤ height
    → StaysInside (draw_text (pos x) y text color)
unfolding draw_text
draw_text-StaysInside x y text color h v = record {
  each = draw_chars-IsInside glyph_rows x y text color h v;
}

pos--ℤ : (a b : ℕ) → b ≤ a → pos a -ℤ pos b ≡ pos (a - b)
unfolding ◌-ℤ◌
pos--ℤ a b h = ground arith

pub draw_text_right-StaysInside :
    (right y : ℕ) (text : Bytes) (color : Color)
    → length text * 6 ≤ right
    → right ≤ width
    → y + 7 ≤ height
    → StaysInside (draw_text_right right y text color)
unfolding draw_text_right
draw_text_right-StaysInside right y text color h r v =
    subst (λ x. StaysInside (draw_text x y text color)) (sym (pos--ℤ right (length text * 6) h))
      (draw_text-StaysInside (right - length text * 6) y text color (omega arith) v)

draw_power_menu-StaysInside : (n : ℕ) → StaysInside (draw_power_menu n)
unfolding draw_power_menu ◌-ℤ◌ ◌+ℤ◌ is_lit or_rows find_glyph glyphs
draw_power_menu-StaysInside n = tested-StaysInside (draw_power_menu n) refl

-- The account database has 32-bit user ids.
abbrev pub IsUser : UserEntry → Type 0
IsUser user = user.uid < 2 ^ 32

get_elem?-IsUser :
    (users : List UserEntry) (i : ℕ) (user : UserEntry)
    → All IsUser users
    → get_elem? users i ≡ some user
    → IsUser user
get_elem?-IsUser [] i user h e = cc
get_elem?-IsUser (u ∷ users) zero user (p, h) e = let same : u ≡ user = cc in subst IsUser same p
get_elem?-IsUser (u ∷ users) (suc i) user (p, h) e = get_elem?-IsUser users i user h e

row_back-StaysInside :
    (row : ℕ) (color : Color) → row < 3 → IsInside (fill_rect_call 92 (81 + row * 18) 138 16 color)
unfolding fill_rect_call
row_back-StaysInside row color h = ground arith

draw_user_row-StaysInside :
    (users : List UserEntry) (menu_selected start row : ℕ)
    → All IsUser users
    → row < 3
    → StaysInside (draw_user_row users menu_selected start row)
unfolding draw_user_row
draw_user_row-StaysInside users menu_selected start row h r =
    by_user (get_elem? users (start + row))
      (λ user e. get_elem?-IsUser users (start + row) user h e)
  where
    by_user :
        (o : Option UserEntry)
        → ((user : UserEntry) → o ≡ some user → IsUser user)
        → StaysInside (elim o [
          | none ↦ []
          | some user ↦
              fill_rect_call 92
                  (81 + row * 18)
                  138
                  16
                  (if start + row == menu_selected then accent else panel)
                ∷ draw_text (pos 98) (81 + row * 18 + 4) (fit_identifier user.name 14) ink
              ++ draw_text_right 222
                  (81 + row * 18 + 4)
                  (to_string user.uid)
                  (if start + row == menu_selected then ink else muted)
        ])
    by_user none known = none-StaysInside
    by_user (some user) known =
        let name = (fit_identifier_lem user.name 14 (omega arith)).1 in
        let digits = length-to_string user.uid (known user refl) in
        one-StaysInside
          (row_back-StaysInside row (if start + row == menu_selected then accent else panel) r)
          (draw_text-StaysInside 98 (81 + row * 18 + 4) (fit_identifier user.name 14) ink
            (omega (arith, name)) (omega arith))
        and draw_text_right-StaysInside 222 (81 + row * 18 + 4) (to_string user.uid)
            (if start + row == menu_selected then ink else muted) (omega (arith, digits))
            (omega arith) (omega arith)

draw_user_rows-StaysInside :
    (users : List UserEntry) (menu_selected start row left : ℕ)
    → All IsUser users
    → row + left ≤ 3
    → StaysInside (draw_user_rows users menu_selected start row left)
unfolding draw_user_rows
draw_user_rows-StaysInside users menu_selected start row zero h r = none-StaysInside
draw_user_rows-StaysInside users menu_selected start row (suc left) h r =
    draw_user_row-StaysInside users menu_selected start row h (omega arith)
    and draw_user_rows-StaysInside users menu_selected start (row + 1) left h (omega arith)

-- The frame of the user menu by how many rows it has room for.
menu_frame-StaysInside :
    (rows : ℕ)
    → rows ≤ 3
    → let h = 17 + rows * 18 + 2 in
      StaysInside (
        fill_rect_call 91 66 146 h shadow
        ∷ fill_rect_call 88 63 146 h panel
        ∷ rect 88 63 146 h line)
unfolding fill_rect_call rect ◌-ℤ◌ ◌+ℤ◌
menu_frame-StaysInside zero h = tested-StaysInside _ refl
menu_frame-StaysInside (suc zero) h = tested-StaysInside _ refl
menu_frame-StaysInside (suc (suc zero)) h = tested-StaysInside _ refl
menu_frame-StaysInside (suc (suc (suc zero))) h = tested-StaysInside _ refl
menu_frame-StaysInside (suc (suc (suc (suc rows)))) h = absurd (omega arith)

draw_user_menu-StaysInside : (g : Greeter) → All IsUser g.users → StaysInside (draw_user_menu g)
unfolding draw_user_menu visible ◌-ℤ◌ ◌+ℤ◌ is_lit or_rows find_glyph glyphs
draw_user_menu-StaysInside g h =
    let rows = if visible g == 0 then 1 else visible g in
    menu_frame-StaysInside rows (ground arith)
    and tested-StaysInside
        (fill_rect_call 88 63 146 17 ink ∷ draw_text (pos 95) 68 (codes "SYSTEM USERS") panel) refl
    and if_both StaysInside (is_nil g.users) (draw_text (pos 96) 88 (codes "NO USERS") muted)
        (draw_user_rows g.users g.menu_selected (menu_start g) 0 (visible g))
        (draw_text-StaysInside 96 88 (codes "NO USERS") muted (omega arith) (omega arith))
        (draw_user_rows-StaysInside g.users g.menu_selected (menu_start g) 0 (visible g) h
          (ground arith))

pub draw_menu-StaysInside :
    (g : Greeter) (mode : UiMode) → All IsUser g.users → StaysInside (draw_menu g mode)
unfolding draw_menu
draw_menu-StaysInside g UiMode.login h = none-StaysInside
draw_menu-StaysInside g UiMode.user_menu h = draw_user_menu-StaysInside g h
draw_menu-StaysInside g UiMode.power_menu h = draw_power_menu-StaysInside g.power_selection
draw_menu-StaysInside g UiMode.authenticating h = none-StaysInside
draw_menu-StaysInside g UiMode.starting_session h = none-StaysInside
