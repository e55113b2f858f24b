-- ===== src/Greeter/Brush/Dots.antt =====
-- What the dots of a password of greeter/zero-greeter-wayland.cpp show.
use cardputer_zero_os.Base.{
  ℕ, zero, suc, ◌+◌, ◌-◌, ◌*◌, ◌/◌, ◌%◌, ◌≤◌, ◌≡◌, ◌∙◌, ap, Bool, ◌&&◌, Bytes, min, ltb, leb,
  if◌then◌else◌, length, arith,
}
use cardputer_zero_os.Base.Int.{pos, ◌+ℤ◌}
use cardputer_zero_os.Draw.Inside.{StaysInside, none-StaysInside, one-StaysInside}
use cardputer_zero_os.Draw.{pixel, width, height}
use cardputer_zero_os.Draw.Fill.{covers}
use cardputer_zero_os.Draw.Picture.{Picture, paint, paint_all}
use cardputer_zero_os.Greeter.Brush.{ink, fill_rect_call, draw_dots, draw_password}

-- The dots from the `first` one on, `count` of them: squares of 4 pixels in columns of 7.
abbrev pub is_dot : ℕ → ℕ → ℕ → ℕ → ℕ → ℕ → Bool
is_dot x y first count i j =
    leb x i
    && (leb first ((i - x) / 7)
        && (ltb ((i - x) / 7) (first + count)
            && (ltb ((i - x) % 7) 4 && (leb (y + 5) j && ltb j (y + 9)))))

no_dot : (x y first i j v old : ℕ) → old ≡ (if is_dot x y first 0 i j then v else old)
no_dot x y first i j v old = ground arith

-- One square.
one_cell :
    (x y first i j : ℕ)
    → covers (record { x = pos (x + first * 7); y = pos (y + 5); w = pos 4; h = pos 4 }) i j
      ≡ is_dot x y first 1 i j
unfolding ◌+ℤ◌
one_cell x y first i j = ground arith

one_dot :
    (x y first count i j v old : ℕ)
    → (if is_dot x y (first + 1) count i j then v else if is_dot x y first 1 i j then v else old)
      ≡ (if is_dot x y first (suc count) i j then v else old)
one_dot x y first count i j v old = ground arith

draw_dots_shows :
    (x y first count i j : ℕ) (f : Picture)
    → paint_all (draw_dots x y first count) f i j
      ≡ (if is_dot x y first count i j then pixel ink else f i j)
unfolding draw_dots paint_all fill_rect_call
draw_dots_shows x y first zero i j f = no_dot x y first i j (pixel ink) (f i j)
draw_dots_shows x y first (suc count) i j f =
    let dot = paint (fill_rect_call (x + first * 7) (y + 5) 4 4 ink) f in
    draw_dots_shows x y (first + 1) count i j dot
    ∙ ap
        (λ (b : Bool).
          if is_dot x y (first + 1) count i j then pixel ink else if b then pixel ink else f i j)
        (one_cell x y first i j)
    ∙ one_dot x y first count i j (pixel ink) (f i j)

-- The password is shown as one square for each of its bytes, 12 at most, and its bytes are not shown.
pub draw_password_lem :
    (password : Bytes) (x y i j : ℕ) (f : Picture)
    → paint_all (draw_password password x y) f i j
      ≡ (if is_dot x y 0 (min (length password) 12) i j then pixel ink else f i j)
unfolding draw_password
draw_password_lem password x y i j f = draw_dots_shows x y 0 (min (length password) 12) i j f

-- The dots stay on the screen.
draw_dots-StaysInside :
    (x y i left : ℕ)
    → x + 7 * (i + left) ≤ width
    → y + 9 ≤ height
    → StaysInside (draw_dots x y i left)
unfolding draw_dots fill_rect_call
draw_dots-StaysInside x y i zero h v = none-StaysInside
draw_dots-StaysInside x y i (suc left) h v =
    one-StaysInside (ground arith) (draw_dots-StaysInside x y (i + 1) left (omega arith) v)

pub draw_password-StaysInside : (password : Bytes) → StaysInside (draw_password password 126 103)
unfolding draw_password
draw_password-StaysInside password =
    draw_dots-StaysInside 126 103 0 (min (length password) 12) (ground arith) (omega arith)
