-- ===== src/Setup/Input.antt =====
-- What the listeners of polkit-agent/zero-polkit-prompt-wayland.cpp keep of the compositor and of
-- xkbcommon: the objects with the keyboard state, and what is sent back. The library xkbcommon is given.
-- greeter/zero-greeter-wayland.cpp has the same listeners.
pub mod Paired
use cardputer_zero_os.Base.{
  ℕ, ◌+◌, ◌%◌, ◌^◌, Bool, true, false, not, ◌&&◌, ◌||◌, Option, none, some, List, [], ◌∷◌, ◌++◌,
  Bytes, ◌==◌, if◌then◌else◌,
}
use cardputer_zero_os.Setup.{Objects, Keymap, new_objects}
use cardputer_zero_os.Setup as Setup
use cardputer_zero_os.Greeter.Screen.{Keysym}

-- xkbcommon over its states: the state of a new keymap, the masks and the group that it is told, and
-- what a key then means.
pub record Xkb (S : Type 0) : Type 0 where
  pub state_new : Bytes → S
  pub update_mask : S → ℕ → ℕ → ℕ → ℕ → S
  pub key_get_one_sym : S → ℕ → Keysym
  pub key_get_utf8 : S → ℕ → Bytes

-- What a listener sends back.
pub data Reply : Type 0 where
  pong ack_configure : ℕ → Reply

-- `state` is what `xkb_state_` points to; `replies` is what was sent back, newest first.
pub record Devices (S : Type 0) : Type 0 where
  pub objects : Objects
  pub state : Option S
  pub replies : List Reply

-- The events as they arrive.
pub data Signal : Type 0 where
  global : Bytes → Signal
  ping configure capabilities buffer_release : ℕ → Signal
  close : Signal
  keymap_sent : Keymap → Signal
  key : ℕ → ℕ → Signal
  modifiers : ℕ → ℕ → ℕ → ℕ → Signal

abbrev pub new_devices : {S : Type 0} → Devices S
new_devices = record { objects = new_objects; state = none; replies = [] }

unfoldable pub reply : {S : Type 0} → Reply → Devices S → Devices S
reply r d = record d { replies = r ∷ d.replies }

unfoldable pub keyboard_keymap : {S : Type 0} → Xkb S → Keymap → Devices S → Devices S
unfolding Setup.keyboard_keymap
keyboard_keymap x k d =
    let made = if k.compiles && k.makes_state then some (x.state_new k.text) else none in
    let given = record d { objects = Setup.keyboard_keymap k d.objects } in
    if k.format == 1 && k.maps then record given { state = made } else given

unfoldable pub update_state : {S : Type 0} → Xkb S → ℕ → ℕ → ℕ → ℕ → Option S → Option S
update_state x depressed latched locked group none = none
update_state x depressed latched locked group (some s) =
    some (x.update_mask s depressed latched locked group)

unfoldable pub keyboard_modifiers : {S : Type 0} → Xkb S → ℕ → ℕ → ℕ → ℕ → Devices S → Devices S
unfolding update_state
keyboard_modifiers x depressed latched locked group d = record d {
  state = update_state x depressed latched locked group d.state;
}

-- The keycode of a key of the compositor, a 32-bit number.
unfoldable pub keycode : ℕ → ℕ
keycode n = (n + 8) % 2 ^ 32
