-- ===== src/Greeter/Window/Fresh.antt =====
-- What stands on the screen of greeter/zero-greeter-wayland.cpp, next to the state of its window.
use cardputer_zero_os.Base.{refl, inl, inr, List, [], ◌∷◌, Bytes}
use cardputer_zero_os.Draw.{Call}
use cardputer_zero_os.Greeter.Screen.{Greeter, Outside}
use cardputer_zero_os.Greeter.Screen.Valid.{IsValid}
use cardputer_zero_os.Greeter.Keys.Fresh.{IsFresh, keyboard_key-IsFresh}
use cardputer_zero_os.Greeter.Frame.{draw_frame}
use cardputer_zero_os.Greeter.Window.{Event, dispatch, dispatch_all, Round, run, init}
use cardputer_zero_os.Greeter.Window.Life.{dispatch-IsValid, run-IsValid}

dispatch-IsFresh :
    (clock : Bytes) (shown : List Call) (g : Greeter) (e : Event)
    → IsValid g
    → IsFresh clock shown g
    → IsFresh clock shown (dispatch g e)
unfolding dispatch draw_frame
dispatch-IsFresh clock shown g Event.surface_configure v f = inl refl
dispatch-IsFresh clock shown g Event.toplevel_close v f = inr (inl refl)
dispatch-IsFresh clock shown g (Event.buffer_release i) v f = f
dispatch-IsFresh clock shown g (Event.key o k) v f = keyboard_key-IsFresh clock shown o g k v f

dispatch_all-IsFresh :
    (clock : Bytes) (shown : List Call) (g : Greeter) (es : List Event)
    → IsValid g
    → IsFresh clock shown g
    → IsFresh clock shown (dispatch_all g es)
unfolding dispatch_all
dispatch_all-IsFresh clock shown g [] v f = f
dispatch_all-IsFresh clock shown g (e ∷ es) v f =
    dispatch_all-IsFresh clock shown (dispatch g e) es (dispatch-IsValid g e v)
      (dispatch-IsFresh clock shown g e v f)

-- From any state that the greeter comes to, whatever is dispatched in a batch, logins included: where
-- it leaves the window without the mark to be drawn and the loop running, the frame for the same clock
-- is the one of before.
pub dispatch_all-drawn :
    (o : Outside) (early : List Event) (rs : List Round) (clock : Bytes) (es : List Event)
    → IsFresh clock
        (draw_frame clock (run (init o early) rs).0)
        (dispatch_all (run (init o early) rs).0 es)
dispatch_all-drawn o early rs clock es =
    let g = (run (init o early) rs).0 in
    dispatch_all-IsFresh clock (draw_frame clock g) g es (run-IsValid o early rs) (inr (inr refl))
