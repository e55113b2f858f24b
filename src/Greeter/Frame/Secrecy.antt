-- ===== src/Greeter/Frame/Secrecy.antt =====
-- What the frame of greeter/zero-greeter-wayland.cpp tells about the password.
use mathlib.Core.Path.{ap₂}
use cardputer_zero_os.Base.{ℕ, ◌<◌, ◌≡◌, refl, Bytes, length, min, List, ◌∷◌, ◌++◌, Option}
use cardputer_zero_os.Draw.{width, height, Pixels, Call}
use cardputer_zero_os.Draw.Fill.{Gives, at}
use cardputer_zero_os.Draw.Picture.{run_calls, run_calls-clear}
use cardputer_zero_os.Greeter.Screen.{UiMode, Greeter}
use cardputer_zero_os.Greeter.Menu.{visible, menu_start}
use cardputer_zero_os.Greeter.Canvas.{fill_rect}
use cardputer_zero_os.Greeter.Canvas.Bounds.{fill_rect-IsPainter}
use cardputer_zero_os.Greeter.Brush.{zero_bg, draw_password}
use cardputer_zero_os.Greeter.Frame.{
  draw_pass, draw_frame, draw_user_menu, draw_top, draw_box, draw_status, draw_bar, draw_menu,
}

-- The password field by the number of dots.
draw_pass-length :
    (g : Greeter) (s t : Bytes)
    → min (length s) 12 ≡ min (length t) 12
    → draw_pass (record g { password = s }) ≡ draw_pass (record g { password = t })
unfolding draw_pass draw_password
draw_pass-length g s t h = rw h refl

draw_menu-password :
    (g : Greeter) (s t : Bytes) (mode : UiMode)
    → draw_menu (record g { password = s }) mode ≡ draw_menu (record g { password = t }) mode
unfolding draw_menu draw_user_menu visible menu_start
draw_menu-password g s t UiMode.login = refl
draw_menu-password g s t UiMode.user_menu = refl
draw_menu-password g s t UiMode.power_menu = refl
draw_menu-password g s t UiMode.authenticating = refl
draw_menu-password g s t UiMode.starting_session = refl

draw_frame-length :
    (clock : Bytes) (g : Greeter) (s t : Bytes)
    → min (length s) 12 ≡ min (length t) 12
    → draw_frame clock (record g { password = s }) ≡ draw_frame clock (record g { password = t })
unfolding draw_frame draw_box draw_status
draw_frame-length clock g s t h =
    ap₂ (λ pass menu. draw_top clock ++ draw_box g ++ pass ++ draw_status g ++ draw_bar ++ menu)
      (draw_pass-length g s t h) (draw_menu-password g s t g.mode)

draw_frame-clear :
    (clock : Bytes) (g : Greeter)
    → (calls : List Call) × (draw_frame clock g ≡ Call.clear_to zero_bg ∷ calls)
unfolding draw_frame draw_top
draw_frame-clear clock g = (_, refl)

abbrev pub SameScreen : Option Pixels → Option Pixels → Type 0
SameScreen one other =
    Gives (λ p. Gives (λ q. (i j : ℕ) → i < width → j < height → at p i j ≡ at q i j) other) one

-- Every frame is drawn inside the buffer, and every pixel of it is the same whatever the buffer held
-- before and whatever the password is, up to how many bytes it has, of which 12 at most count.
pub draw_frame-password :
    (clock : Bytes) (g : Greeter) (s t : Bytes) (old other : Pixels)
    → min (length s) 12 ≡ min (length t) 12
    → SameScreen
        (run_calls fill_rect (draw_frame clock (record g { password = s })) old)
        (run_calls fill_rect (draw_frame clock (record g { password = t })) other)
draw_frame-password clock g s t old other h =
    let (calls, e) = draw_frame-clear clock (record g { password = t }) in
    rw (draw_frame-length clock g s t h, e)
      (run_calls-clear fill_rect-IsPainter zero_bg calls old other)
