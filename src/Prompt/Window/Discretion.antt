-- ===== src/Prompt/Window/Discretion.antt =====
-- What the screen of polkit-agent/zero-polkit-prompt-wayland.cpp tells about a secret that is not
-- echoed.
use cardputer_zero_os.Base.{
  ◌≡◌, refl, sym, ap, Bool, false, Option, none, some, List, ◌∷◌, Bytes, length,
}
use cardputer_zero_os.Greeter.Screen.{next_buffer}
use cardputer_zero_os.Prompt.Frame.{PromptWindow, draw_password, draw_window}
use cardputer_zero_os.Prompt.Window.{
  dispatch_all, render_into, render, render_dirty, Round, round, run_loop,
}
use cardputer_zero_os.Prompt.Window.Alike.{
  with_secret, IsAlike, AlikeRounds, branch-IsAlike, dispatch_all-IsAlike,
}

-- A hidden secret is drawn by its length alone.
draw_window-with_secret :
    (w : PromptWindow) (s : Bytes)
    → w.echo ≡ false
    → length s ≡ length w.secret
    → draw_window (with_secret s w) ≡ draw_window w
unfolding draw_window draw_password
draw_window-with_secret w s echo h = rw (echo, h) refl

render_into-IsAlike :
    (w : PromptWindow) (o : Option (List Bool)) (echo : w.echo ≡ false) (s : Bytes)
    → length s ≡ length w.secret
    → IsAlike (render_into w o) (render_into (with_secret s w) o)
unfolding render_into
render_into-IsAlike w none echo s h = (echo, (s, refl, h))
render_into-IsAlike w (some bs) echo s h =
    branch-IsAlike w.configured w.configured _ _ _ _ refl
      (
        echo,
        (
          s,
          ap (λ d. record w { buffers = bs; dirty = false; secret = s; commits = d ∷ w.commits })
              (draw_window-with_secret w s echo h),
          h,
        ),
      )
      (echo, (s, refl, h))

render_dirty-IsAlike :
    (w v : PromptWindow) → IsAlike w v → IsAlike (render_dirty w) (render_dirty v)
unfolding render
render_dirty-IsAlike w v (echo, (s, p, h)) = rw p (
    branch-IsAlike w.dirty w.dirty _ _ _ _ refl
      (render_into-IsAlike w (next_buffer w.buffers) echo s h) (echo, (s, refl, h)))

run_loop-IsAlike :
    {qs rs : List Round} (w v : PromptWindow)
    → AlikeRounds qs rs
    → IsAlike w v
    → IsAlike (run_loop w qs) (run_loop v rs)
unfolding run_loop round
run_loop-IsAlike w v AlikeRounds.nothing a = a
run_loop-IsAlike w v (AlikeRounds.next q r qs rs one two more) a =
    let (echo, (s, p, h)) = a in
    let pending = dispatch_all-IsAlike w v one a in
    let shown =
      render_dirty-IsAlike (dispatch_all w q.pending) (dispatch_all v r.pending) pending in
    let polled =
      dispatch_all-IsAlike (render_dirty (dispatch_all w q.pending))
        (render_dirty (dispatch_all v r.pending)) two shown in
    branch-IsAlike w.running v.running _ _ w v (ap (λ x. x.running) p)
      (run_loop-IsAlike (round w q) (round v r) more polled) a

-- Whatever is typed for a secret that is not echoed, the screen shows the same: two runs of the prompt
-- with the same events, but other printable characters typed, commit the same drawings.
pub run_loop-commits :
    {qs rs : List Round} (w : PromptWindow)
    → w.echo ≡ false
    → AlikeRounds qs rs
    → (run_loop w qs).commits ≡ (run_loop w rs).commits
run_loop-commits w echo alike =
    let (_, (s, p, h)) = run_loop-IsAlike w w alike (echo, (w.secret, refl, refl)) in
    sym (ap (λ x. x.commits) p)
