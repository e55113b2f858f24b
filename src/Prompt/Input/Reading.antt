-- ===== src/Prompt/Input/Reading.antt =====
-- How the listeners of polkit-agent/zero-polkit-prompt-wayland.cpp read the compositor's signals: the
-- keyboard state behind them, and what they are for the window.
use cardputer_zero_os.Base.{
  ℕ, ◌≡◌, ◌∙◌, refl, sym, ap, Bool, true, false, not, Option, none, some, List, [], ◌∷◌, ◌++◌, ◌==◌,
  ◌+◌, ◌%◌, ◌^◌, ◌&&◌, if◌then◌else◌,
}
use cardputer_zero_os.Setup.{Answers}
use cardputer_zero_os.Setup
use cardputer_zero_os.Setup.Input.{Xkb, Signal, new_devices, reply, keycode}
use cardputer_zero_os.Setup.Input as Input
use cardputer_zero_os.Prompt.Frame.{PromptWindow}
use cardputer_zero_os.Prompt.Window as Window
use cardputer_zero_os.Prompt.Window.{Event, render_dirty, finish}
use cardputer_zero_os.Prompt.Window.Typing.{dispatch_all-append}
use cardputer_zero_os.Prompt.Input.{
  Session, registry_global, wm_ping, surface_configure, toplevel_close, seat_capabilities,
  keyboard_keymap, press_key, key_with, keyboard_key, keyboard_modifiers, buffer_release, dispatch,
  dispatch_all, Round,
}

-- The keyboard state behind a signal: that of the last usable keymap, told of the modifiers since; none
-- where such a keymap does not compile, or no state is made of it.
abbrev pub next_state : {S : Type 0} → Xkb S → Option S → Signal → Option S
next_state x o (Signal.keymap_sent k) =
    if k.format == 1 && k.maps
    then (if k.compiles && k.makes_state then some (x.state_new k.text) else none)
    else o
next_state x none (Signal.modifiers depressed latched locked group) = none
next_state x (some s) (Signal.modifiers depressed latched locked group) =
    some (x.update_mask s depressed latched locked group)
next_state x o _ = o

abbrev pub state_after : {S : Type 0} → Xkb S → Option S → List Signal → Option S
state_after x o [] = o
state_after x o (e ∷ es) = state_after x (next_state x o e) es

-- What the keyboard state makes of a key, whose code is 8 more for xkbcommon; without a state there is
-- no event.
abbrev pub read_key : {S : Type 0} → Xkb S → ℕ → ℕ → Option S → List Event
read_key x n state none = []
read_key x n state (some s) =
    Event.key (record {
      pressed = state == 1;
      mapped = true;
      sym = x.key_get_one_sym s ((n + 8) % 2 ^ 32);
      utf8 = x.key_get_utf8 s ((n + 8) % 2 ^ 32);
    })
    ∷ []

-- What a signal is for the window.
abbrev pub read : {S : Type 0} → Xkb S → Option S → Signal → List Event
read x o (Signal.configure serial) = Event.surface_configure ∷ []
read x o Signal.close = Event.toplevel_close ∷ []
read x o (Signal.buffer_release i) = Event.buffer_release i ∷ []
read x o (Signal.key n state) = read_key x n state o
read x o _ = []

-- Each signal is read with the keyboard state that the ones before it left.
abbrev pub read_all : {S : Type 0} → Xkb S → Option S → List Signal → List Event
read_all x o [] = []
read_all x o (e ∷ es) = read x o e ++ read_all x (next_state x o e) es

abbrev pub read_rounds : {S : Type 0} → Xkb S → Option S → List Round → List Window.Round
read_rounds x o [] = []
read_rounds x o (r ∷ rs) =
    let polled = state_after x o r.pending in
    record { pending = read_all x o r.pending; polled = read_all x polled r.polled }
    ∷ read_rounds x (state_after x polled r.polled) rs

module _ {S : Type 0} (x : Xkb S) where
  key_with-read :
      (n state : ℕ) (o : Option S) (w : PromptWindow)
      → key_with x n state o w ≡ Window.dispatch_all w (read_key x n state o)
  unfolding key_with press_key keycode Window.dispatch_all Window.dispatch Window.keyboard_key
  key_with-read n state none w = refl
  key_with-read n state (some s) w =
      elim (state == 1)
        as (λ b.
          (if not b then w else press_key x n s w)
          ≡ Window.dispatch_all w (
              Event.key (record {
                pressed = b;
                mapped = true;
                sym = x.key_get_one_sym s ((n + 8) % 2 ^ 32);
                utf8 = x.key_get_utf8 s ((n + 8) % 2 ^ 32);
              })
              ∷ [])) [ true ↦ refl | false ↦ refl ]

  dispatch-read :
      (s : Session S) (e : Signal)
      → (dispatch x s e).window ≡ Window.dispatch_all s.window (read x s.devices.state e)
  unfolding dispatch keyboard_key registry_global wm_ping surface_configure toplevel_close
      seat_capabilities keyboard_keymap keyboard_modifiers buffer_release Window.dispatch_all
      Window.dispatch
  dispatch-read s (Signal.global interface) = refl
  dispatch-read s (Signal.ping serial) = refl
  dispatch-read s (Signal.configure serial) = refl
  dispatch-read s (Signal.capabilities n) = refl
  dispatch-read s (Signal.buffer_release i) = refl
  dispatch-read s Signal.close = refl
  dispatch-read s (Signal.keymap_sent k) = refl
  dispatch-read s (Signal.key n state) = key_with-read n state s.devices.state s.window
  dispatch-read s (Signal.modifiers depressed latched locked group) = refl

  dispatch-state :
      (s : Session S) (e : Signal) → (dispatch x s e).devices.state ≡ next_state x s.devices.state e
  unfolding dispatch keyboard_key registry_global wm_ping surface_configure toplevel_close
      seat_capabilities keyboard_keymap keyboard_modifiers buffer_release reply
      Input.keyboard_keymap Input.keyboard_modifiers Input.update_state
  dispatch-state s (Signal.global interface) = refl
  dispatch-state s (Signal.ping serial) = refl
  dispatch-state s (Signal.configure serial) = refl
  dispatch-state s (Signal.capabilities n) = refl
  dispatch-state s (Signal.buffer_release i) = refl
  dispatch-state s Signal.close = refl
  dispatch-state s (Signal.keymap_sent k) = by_test (k.format == 1 && k.maps)
    where
      by_test :
          (b : Bool)
          → (let made = if k.compiles && k.makes_state then some (x.state_new k.text) else none in
              let given = record s.devices {
                objects = Setup.keyboard_keymap k s.devices.objects;
              } in
              (if b then record given { state = made } else given).state
              ≡ (if b then made else s.devices.state))
      by_test true = refl
      by_test false = refl
  dispatch-state s (Signal.key n state) = refl
  dispatch-state s (Signal.modifiers depressed latched locked group) = by_state s.devices.state
    where
      by_state :
          (o : Option S)
          → Input.update_state x depressed latched locked group o
            ≡ next_state x o (Signal.modifiers depressed latched locked group)
      by_state none = refl
      by_state (some t) = refl

  pub dispatch_all-state :
      (s : Session S) (es : List Signal)
      → (dispatch_all x s es).devices.state ≡ state_after x s.devices.state es
  unfolding dispatch_all
  dispatch_all-state s [] = refl
  dispatch_all-state s (e ∷ es) =
      dispatch_all-state (dispatch x s e) es ∙ ap (λ o. state_after x o es) (dispatch-state s e)

  pub dispatch_all-read :
      (s : Session S) (es : List Signal)
      → (dispatch_all x s es).window ≡ Window.dispatch_all s.window (read_all x s.devices.state es)
  unfolding dispatch_all Window.dispatch_all
  dispatch_all-read s [] = refl
  dispatch_all-read s (e ∷ es) =
      let o = s.devices.state in
      dispatch_all-read (dispatch x s e) es
      ∙ ap (λ w. Window.dispatch_all w (read_all x (dispatch x s e).devices.state es))
          (dispatch-read s e)
      ∙ ap (λ p. Window.dispatch_all (Window.dispatch_all s.window (read x o e)) (read_all x p es))
          (dispatch-state s e)
      ∙ sym (dispatch_all-append s.window (read x o e) (read_all x (next_state x o e) es))
