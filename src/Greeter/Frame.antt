-- ===== src/Greeter/Frame.antt =====
-- `draw_frame`, `draw_user_menu` and `draw_power_menu` of greeter/zero-greeter-wayland.cpp: the list of
-- their calls of `clear` and `fill_rect`. The text of the clock is given.
pub mod Secrecy
pub mod Menus
pub mod Inside
use cardputer_zero_os.Base.{
  ℕ, zero, suc, ◌+◌, ◌-◌, ◌*◌, min, Bool, true, false, Option, none, some, List, [], ◌∷◌, ◌++◌,
  Bytes, codes, ◌==◌, if◌then◌else◌, is_empty, length, get_elem?, to_string,
}
use cardputer_zero_os.Base.Int.{pos}
use cardputer_zero_os.Draw.{width, height, Color, Call}
use cardputer_zero_os.Greeter.Users.{UserEntry}
use cardputer_zero_os.Greeter.Screen.{UiMode, Greeter, is_nil}
use cardputer_zero_os.Greeter.Text.{fit_text, fit_identifier}
use cardputer_zero_os.Greeter.Menu.{visible, menu_start}
use cardputer_zero_os.Greeter.Brush.{
  zero_bg, panel, task_button, icon_well, ink, line, muted, soft_line, grid_dot, accent, warn,
  shadow, fill_rect_call, rect, draw_text, draw_text_centered, draw_text_right, draw_user_icon,
  draw_power_icon, draw_battery, draw_password,
}

-- The loops over the dots of the background, with how many rounds are left.
grid_row : ℕ → ℕ → ℕ → List Call
unfolding fill_rect_call
grid_row y x zero = []
grid_row y x (suc left) = fill_rect_call x y 1 1 grid_dot ∷ grid_row y (x + 8) left

pub grid : ℕ → ℕ → List Call
unfolding grid_row
grid y zero = []
grid y (suc left) = grid_row y 8 39 ++ grid (y + 8) left

is_user_menu : UiMode → Bool
is_user_menu UiMode.user_menu = true
is_user_menu _ = false

is_login : UiMode → Bool
is_login UiMode.login = true
is_login _ = false

-- From `clear` to the line under the top bar.
unfoldable pub draw_top : Bytes → List Call
unfolding grid fill_rect_call rect draw_text draw_text_right draw_battery
draw_top clock =
    Call.clear_to zero_bg ∷ grid 28 14
    ++ fill_rect_call 0 0 width 20 panel ∷ rect 0 0 width 20 line
    ++ draw_text (pos 6) 5 clock ink
    ++ draw_text (pos 222) 5 (codes "LOGIN") muted
    ++ draw_text_right 286 5 (codes "--%") ink
    ++ draw_battery 292 5
    ++ fill_rect_call 112 21 96 3 accent ∷ []

-- The name in the user field; `users_[selected_]` out of range is no behaviour of the program.
draw_selected : List UserEntry → ℕ → List Call
unfolding draw_text fit_identifier
draw_selected users selected =
    if is_nil users
    then draw_text (pos 138) 80 (codes "NO USERS") warn
    else elim (get_elem? users selected) [
      | none ↦ []
      | some user ↦ draw_text (pos 138) 80 (fit_identifier user.name 16) ink
    ]

-- The box with its title and the user field; `x`, `y`, `w`, `h`, `field_x` and `field_w` are 60, 34, 200,
-- 94, 116 and 126.
unfoldable pub draw_box : Greeter → List Call
unfolding fill_rect_call rect draw_text is_user_menu draw_user_icon draw_selected
draw_box g =
    fill_rect_call 64 38 200 94 shadow ∷ fill_rect_call 60 34 200 94 panel ∷ rect 60 34 200 94 line
    ++ draw_text (pos 76) 48 (codes "CARDPUTER ZERO") ink
    ++ draw_text (pos 76) 61
        (if is_user_menu g.mode then codes "SELECT USER" else codes "GUI LOGIN") muted
    ++ draw_text (pos 76) 81 (codes "USER") muted
    ++ fill_rect_call 116 74 126 18 icon_well ∷ rect 116 74 126 18 line
    ++ draw_user_icon 122 79 ink
    ++ draw_selected g.users g.selected

-- The password field with its cursor.
unfoldable pub draw_pass : Greeter → List Call
unfolding fill_rect_call rect draw_text is_login draw_password
draw_pass g =
    draw_text (pos 76) 106 (codes "PASS") muted
    ++ fill_rect_call 116 99 126 18 icon_well
      ∷ rect 116 99 126 18 (if g.error then warn else accent)
    ++ draw_password g.password 126 103
    ++ (if is_login g.mode
        then fill_rect_call (126 + min (length g.password) 12 * 7 + 1) 103 2 10 accent ∷ []
        else [])

unfoldable pub draw_status : Greeter → List Call
unfolding draw_text fit_text
draw_status g =
    let status = if is_empty g.message then codes "PAM AUTHENTICATION" else g.message in
    draw_text (pos 76) 120 (fit_text status 26) (if g.error then warn else muted)

-- The bar at the bottom; `by` is 150.
unfoldable pub draw_bar : List Call
unfolding fill_rect_call rect draw_power_icon draw_text
draw_bar =
    fill_rect_call 0 150 width 20 panel ∷ rect 0 150 width 20 line
    ++ fill_rect_call 0 150 64 20 task_button ∷ rect 0 150 64 20 line
    ++ draw_power_icon 8 155 ink
    ++ draw_text (pos 22) 156 (codes "POWER") ink
    ++ draw_text (pos 80) 156 (codes "TAB USER") muted
    ++ draw_text (pos 166) 156 (codes "ENTER LOGIN") ink
    ++ draw_text (pos 276) 156 (codes "ESC") muted

-- A row of the user menu; `x`, `y` and `w` are 88, 63 and 146.
unfoldable pub draw_user_row : List UserEntry → ℕ → ℕ → ℕ → List Call
unfolding fill_rect_call draw_text draw_text_right fit_identifier to_string
draw_user_row users menu_selected start row =
    let row_y = 81 + row * 18 in
    let selected = start + row == menu_selected in
    elim (get_elem? users (start + row)) [
      | none ↦ []
      | some user ↦
          fill_rect_call 92 row_y 138 16 (if selected then accent else panel)
            ∷ draw_text (pos 98) (row_y + 4) (fit_identifier user.name 14) ink
          ++ draw_text_right 222 (row_y + 4) (to_string user.uid) (if selected then ink else muted)
    ]

pub draw_user_rows : List UserEntry → ℕ → ℕ → ℕ → ℕ → List Call
unfolding draw_user_row
draw_user_rows users menu_selected start row zero = []
draw_user_rows users menu_selected start row (suc left) =
    draw_user_row users menu_selected start row
    ++ draw_user_rows users menu_selected start (row + 1) left

unfoldable pub draw_user_menu : Greeter → List Call
unfolding fill_rect_call rect draw_text draw_user_rows visible menu_start
draw_user_menu g =
    let rows = if visible g == 0 then 1 else visible g in
    let h = 17 + rows * 18 + 2 in
    fill_rect_call 91 66 146 h shadow ∷ fill_rect_call 88 63 146 h panel ∷ rect 88 63 146 h line
    ++ fill_rect_call 88 63 146 17 ink ∷ draw_text (pos 95) 68 (codes "SYSTEM USERS") panel
    ++ (if is_nil g.users
        then draw_text (pos 96) 88 (codes "NO USERS") muted
        else draw_user_rows g.users g.menu_selected (menu_start g) 0 (visible g))

-- A row of the power menu; `x`, `y` and `w` are 92, 52 and 136.
unfoldable pub draw_power_row : ℕ → ℕ → Bytes → List Call
unfolding fill_rect_call rect draw_text_centered
draw_power_row power_selection i item =
    let row_y = 76 + i * 18 in
    let selected = i == power_selection in
    fill_rect_call 102 row_y 116 15 (if selected then (if i == 0 then warn else accent) else panel)
      ∷ rect 102 row_y 116 15 (if selected then line else soft_line)
    ++ draw_text_centered 160 (row_y + 4) item (if selected then ink else muted)

unfoldable pub draw_power_menu : ℕ → List Call
unfolding fill_rect_call rect draw_text_centered draw_power_row
draw_power_menu power_selection =
    fill_rect_call 95 55 136 75 shadow ∷ fill_rect_call 92 52 136 75 panel ∷ rect 92 52 136 75 line
    ++ fill_rect_call 92 52 136 17 ink ∷ draw_text_centered 160 57 (codes "POWER") panel
    ++ draw_power_row power_selection 0 (codes "SHUTDOWN")
    ++ draw_power_row power_selection 1 (codes "REBOOT")
    ++ draw_power_row power_selection 2 (codes "CANCEL")

pub draw_menu : Greeter → UiMode → List Call
unfolding draw_user_menu draw_power_menu
draw_menu g UiMode.user_menu = draw_user_menu g
draw_menu g UiMode.power_menu = draw_power_menu g.power_selection
draw_menu g _ = []

unfoldable pub draw_frame : Bytes → Greeter → List Call
unfolding draw_top draw_box draw_pass draw_status draw_bar draw_menu
draw_frame clock g =
    draw_top clock ++ draw_box g ++ draw_pass g ++ draw_status g ++ draw_bar ++ draw_menu g g.mode
