-- ===== src/Prompt/Input.antt =====
-- `PromptWindow` of polkit-agent/zero-polkit-prompt-wayland.cpp with the objects of Wayland and of
-- xkbcommon: every listener as it is called, `create_buffer`, `init` and `main`. The library xkbcommon
-- is given, and so is what the compositor and the kernel answer.
pub mod Ready
pub mod Reading
pub mod Refines
pub mod Held
pub mod Silent
use cardputer_zero_os.Base.{
  ℕ, Bool, true, false, not, ◌&&◌, ◌||◌, Option, none, some, List, [], ◌∷◌, ◌++◌, Bytes, codes,
  ◌==◌, if◌then◌else◌,
}
use cardputer_zero_os.Setup.{Objects, use_all, Keymap, Answers}
use cardputer_zero_os.Setup as Setup
use cardputer_zero_os.Setup.Input.{Xkb, Reply, Devices, Signal, new_devices, reply, keycode}
use cardputer_zero_os.Setup.Input as Input
use cardputer_zero_os.Greeter.Window.{release}
use cardputer_zero_os.Prompt.Frame.{PromptWindow}
use cardputer_zero_os.Prompt.Window.{cancel, handle_keysym, handle_text, render_dirty, finish}
use cardputer_zero_os.Prompt.Args.{new_prompt, parse_args}

-- The whole window: the fields of `Prompt.Frame` and the objects.
pub record Session (S : Type 0) : Type 0 where
  pub window : PromptWindow
  pub devices : Devices S

unfoldable pub registry_global : {S : Type 0} → Bytes → Session S → Session S
unfolding Setup.registry_global
registry_global interface s =
    let d = s.devices in
    record s { devices = record d { objects = Setup.registry_global interface d.objects } }

unfoldable pub wm_ping : {S : Type 0} → ℕ → Session S → Session S
unfolding reply
wm_ping serial s = record s { devices = reply (Reply.pong serial) s.devices }

unfoldable pub surface_configure : {S : Type 0} → ℕ → Session S → Session S
unfolding reply
surface_configure serial s =
    let w = s.window in
    record s {
      window = record w { configured = true; dirty = true };
      devices = reply (Reply.ack_configure serial) s.devices;
    }

unfoldable pub toplevel_close : {S : Type 0} → Session S → Session S
unfolding cancel
toplevel_close s = record s { window = cancel s.window }

unfoldable pub seat_capabilities : {S : Type 0} → ℕ → Session S → Session S
unfolding Setup.seat_capabilities
seat_capabilities n s =
    let d = s.devices in
    record s { devices = record d { objects = Setup.seat_capabilities n d.objects } }

unfoldable pub keyboard_keymap : {S : Type 0} → Xkb S → Keymap → Session S → Session S
unfolding Input.keyboard_keymap
keyboard_keymap x k s = record s { devices = Input.keyboard_keymap x k s.devices }

-- What a key does once its state is found; a text of no byte is one with `len` 0 or less.
unfoldable pub press_key : {S : Type 0} → Xkb S → ℕ → S → PromptWindow → PromptWindow
unfolding handle_keysym handle_text keycode
press_key x key state w =
    let v = handle_keysym w (x.key_get_one_sym state (keycode key)) in
    if not v.running then v else handle_text v (x.key_get_utf8 state (keycode key))

-- With `xkb_state_` as it is; `WL_KEYBOARD_KEY_STATE_PRESSED` is 1.
unfoldable pub key_with : {S : Type 0} → Xkb S → ℕ → ℕ → Option S → PromptWindow → PromptWindow
unfolding press_key
key_with x key state none w = w
key_with x key state (some s) w = if not (state == 1) then w else press_key x key s w

unfoldable pub keyboard_key : {S : Type 0} → Xkb S → ℕ → ℕ → Session S → Session S
unfolding key_with
keyboard_key x key state s = record s { window = key_with x key state s.devices.state s.window }

unfoldable pub keyboard_modifiers : {S : Type 0} → Xkb S → ℕ → ℕ → ℕ → ℕ → Session S → Session S
unfolding Input.keyboard_modifiers
keyboard_modifiers x depressed latched locked group s = record s {
  devices = Input.keyboard_modifiers x depressed latched locked group s.devices;
}

unfoldable pub buffer_release : {S : Type 0} → ℕ → Session S → Session S
unfolding release
buffer_release i s =
    let w = s.window in record s { window = record w { buffers = release i w.buffers } }

unfoldable pub dispatch : {S : Type 0} → Xkb S → Session S → Signal → Session S
unfolding registry_global wm_ping surface_configure toplevel_close seat_capabilities keyboard_keymap
    keyboard_key keyboard_modifiers buffer_release
dispatch x s (Signal.global interface) = registry_global interface s
dispatch x s (Signal.ping serial) = wm_ping serial s
dispatch x s (Signal.configure serial) = surface_configure serial s
dispatch x s (Signal.capabilities n) = seat_capabilities n s
dispatch x s (Signal.buffer_release i) = buffer_release i s
dispatch x s Signal.close = toplevel_close s
dispatch x s (Signal.keymap_sent k) = keyboard_keymap x k s
dispatch x s (Signal.key key state) = keyboard_key x key state s
dispatch x s (Signal.modifiers depressed latched locked group) =
    keyboard_modifiers x depressed latched locked group s

unfoldable pub dispatch_all : {S : Type 0} → Xkb S → Session S → List Signal → Session S
unfolding dispatch
dispatch_all x s [] = s
dispatch_all x s (e ∷ es) = dispatch_all x (dispatch x s e) es

-- The file, the mapping and the pool of a buffer; its flag `busy` is not set before the first drawing.
unfoldable pub create_buffer : {S : Type 0} → Answers → Session S → Bool × Session S
unfolding Setup.create_buffer use_all
create_buffer k s =
    let d = s.devices in
    let (ok, uses) = Setup.create_buffer k in
    (ok, record s { devices = record d { objects = use_all uses d.objects } })

create_both : {S : Type 0} → Answers → Answers → Session S → Bool × Session S
unfolding create_buffer
create_both k l s = let (ok, t) = create_buffer k s in if ok then create_buffer l t else (false, t)

-- One round of `run`: the events at its head, and those after `poll`.
pub record Round : Type 0 where
  pub pending : List Signal
  pub polled : List Signal

-- The outside of a run: whether the display is there, the events of the two round trips of `init`, the
-- kernel's answers for the two buffers, and the rounds of `run`.
pub record Outside : Type 0 where
  pub connected : Bool
  pub early : List Signal
  pub first : Answers
  pub second : Answers
  pub rounds : List Round

is_missing : Objects → Bool
is_missing o = not o.compositor || not o.shm || not o.wm

unfoldable pub init : {S : Type 0} → Xkb S → PromptWindow → Outside → Bool × Session S
unfolding dispatch_all create_both is_missing
init x w outside =
    let new : Session _ = record { window = w; devices = new_devices } in
    let s = dispatch_all x new outside.early in
    if not outside.connected
    then (false, new)
    else if is_missing s.devices.objects
    then (false, s)
    else create_both outside.first outside.second s

unfoldable pub render_session : {S : Type 0} → Session S → Session S
render_session s = record s { window = render_dirty s.window }

unfoldable pub round : {S : Type 0} → Xkb S → Session S → Round → Session S
unfolding dispatch_all render_session
round x s r = dispatch_all x (render_session (dispatch_all x s r.pending)) r.polled

unfoldable pub run_loop : {S : Type 0} → Xkb S → Session S → List Round → Session S
unfolding round
run_loop x s [] = s
run_loop x s (r ∷ rs) =
    let rest = run_loop x (round x s r) rs in if s.window.running then rest else s

-- The exit status, what is written, and the objects and replies at the end.
unfoldable pub run : {S : Type 0} → Xkb S → Bool × Session S → List Round → (ℕ × Bytes) × Devices S
unfolding run_loop finish
run x (false, s) rounds = ((1, []), s.devices)
run x (true, s) rounds = let t = run_loop x s rounds in (finish t.window, t.devices)

start : {S : Type 0} → Xkb S → Option PromptWindow → Outside → (ℕ × Bytes) × Devices S
unfolding init run
start x none outside = ((2, []), new_devices)
start x (some w) outside = run x (init x w outside) outside.rounds

-- `argv` without the program's name.
unfoldable pub main : {S : Type 0} → Xkb S → List Bytes → Outside → (ℕ × Bytes) × Devices S
unfolding parse_args start
main x args outside = start x (parse_args new_prompt args) outside
