-- ===== src/Greeter/Menu.antt =====
-- The rows of the user menu: `draw_user_menu` of greeter/zero-greeter-wayland.cpp. An `int` that would
-- be negative is set to 0 there at once, as the subtraction here does.
pub mod Rows
use cardputer_zero_os.Base.{
  ℕ, zero, suc, ◌+◌, ◌-◌, min, Bool, Option, List, [], ◌∷◌, ltb, ◌==◌, if◌then◌else◌, length,
  get_elem?,
}
use cardputer_zero_os.Greeter.Users.{UserEntry}
use cardputer_zero_os.Greeter.Screen.{Greeter, is_nil}

unfoldable pub visible : Greeter → ℕ
visible g = min (length g.users) 3

unfoldable pub menu_start : Greeter → ℕ
menu_start g =
    let start = if is_nil g.users then 0 else g.menu_selected - 1 in
    if ltb (length g.users) (start + visible g) then length g.users - visible g else start

-- A row: `users_[user_index]`, none out of range, and whether it is drawn as the selected one.
pub record Row : Type 0 where
  pub user : Option UserEntry
  pub selected : Bool

pub rows_from : Greeter → ℕ → ℕ → List Row
rows_from g user_index zero = []
rows_from g user_index (suc count) =
    record { user = get_elem? g.users user_index; selected = user_index == g.menu_selected }
    ∷ rows_from g (user_index + 1) count

unfoldable pub menu_rows : Greeter → List Row
unfolding visible menu_start rows_from
menu_rows g = rows_from g (menu_start g) (visible g)
