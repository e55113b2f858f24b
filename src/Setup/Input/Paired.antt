-- ===== src/Setup/Input/Paired.antt =====
-- That the pointer `xkb_state_` of polkit-agent/zero-polkit-prompt-wayland.cpp and of
-- greeter/zero-greeter-wayland.cpp is set exactly where a keyboard state is held.
use cardputer_zero_os.Base.{
  Use, ℕ, ◌≡◌, ◌∙◌, refl, Bool, true, false, not, ◌&&◌, Option, none, some, [], ◌∷◌, Bytes, codes,
  str_eq, arith, ◌/◌, ◌%◌, ◌==◌, if◌then◌else◌,
}
use cardputer_zero_os.Setup as Setup
use cardputer_zero_os.Setup.{Resource, Objects, Keymap, use_all, replace_keymap}
use cardputer_zero_os.Setup.Held.{IsHeld, keyboard_keymap-IsHeld}
use cardputer_zero_os.Setup.Input.{Xkb, Devices, Signal, reply, Reply, update_state}
use cardputer_zero_os.Setup.Input as Input

abbrev pub is_some {ℓ} : {A : Type ℓ} → Option A → Bool
is_some none = false
is_some (some a) = true

-- As many mappings, no descriptor, and one object for each pointer that is set; the keyboard state is
-- there exactly where it is held.
abbrev pub Holds : {S : Type 0} → ℕ → Devices S → Type 0
Holds m d = IsHeld m d.objects × (d.objects.has_state ≡ is_some d.state)

-- The listeners of the registry and of the seat leave the keyboard state alone.
pub registry_global-has_state :
    (interface : Bytes) (o : Objects) → (Setup.registry_global interface o).has_state ≡ o.has_state
unfolding Setup.registry_global
registry_global-has_state interface o =
    four (str_eq interface (codes "wl_compositor")) (str_eq interface (codes "wl_shm"))
      (str_eq interface (codes "wl_seat")) (str_eq interface (codes "xdg_wm_base"))
  where
    four :
        (compositor shm seat wm : Bool)
        → (if compositor
            then record o { compositor = true }
            else if shm
            then record o { shm = true }
            else if seat
            then record o { seat = true }
            else if wm
            then record o { wm = true }
            else o).has_state
          ≡ o.has_state
    four true b c d = refl
    four false true c d = refl
    four false false true d = refl
    four false false false true = refl
    four false false false false = refl

pub seat_capabilities-has_state :
    (n : ℕ) (o : Objects) → (Setup.seat_capabilities n o).has_state ≡ o.has_state
unfolding Setup.seat_capabilities use_all
seat_capabilities-has_state n o = both (n / 2 % 2 == 1) o.has_keyboard
  where
    both :
        (offered there : Bool)
        → (if offered && not there
            then use_all (Use.acquire Resource.keyboard ∷ []) (record o { has_keyboard = true })
            else if not offered && there
            then use_all (Use.release Resource.keyboard ∷ []) (record o { has_keyboard = false })
            else o).has_state
          ≡ o.has_state
    both true true = refl
    both true false = refl
    both false true = refl
    both false false = refl

made_state : Bool → Bool → Bool → Bool
made_state usable made old = if usable then made else old

keyboard_keymap-has_state :
    (k : Keymap) (o : Objects)
    → (Setup.keyboard_keymap k o).has_state
      ≡ made_state (k.format == 1 && k.maps) (k.compiles && k.makes_state) o.has_state
unfolding Setup.keyboard_keymap replace_keymap use_all made_state
keyboard_keymap-has_state k o = ground arith

is_some-made {ℓ} : {A : Type ℓ} (b : Bool) (a : A) → b ≡ is_some (if b then some a else none)
is_some-made true a = refl
is_some-made false a = refl

module _ {S : Type 0} where
  made-Holds :
      (m : ℕ) (usable made : Bool) (s : S) (o : Objects) (d : Devices S)
      → IsHeld m o
      → o.has_state ≡ made_state usable made d.objects.has_state
      → d.objects.has_state ≡ is_some d.state
      → Holds m (
          let given = record d { objects = o } in
          if usable then record given { state = if made then some s else none } else given)
  unfolding made_state
  made-Holds m true made s o d h e old = (h, e ∙ is_some-made made s)
  made-Holds m false made s o d h e old = (h, e ∙ old)

  pub keyboard_keymap-Holds :
      (x : Xkb S) (m : ℕ) (k : Keymap) (d : Devices S)
      → Holds m d
      → Holds m (Input.keyboard_keymap x k d)
  unfolding Input.keyboard_keymap
  keyboard_keymap-Holds x m k d (h, e) =
      made-Holds m (k.format == 1 && k.maps) (k.compiles && k.makes_state) (x.state_new k.text)
        (Setup.keyboard_keymap k d.objects) d (keyboard_keymap-IsHeld m k d.objects h)
        (keyboard_keymap-has_state k d.objects) e

  is_some-update_state :
      (x : Xkb S) (a b c g : ℕ) (o : Option S) → is_some o ≡ is_some (update_state x a b c g o)
  unfolding update_state
  is_some-update_state x a b c g none = refl
  is_some-update_state x a b c g (some s) = refl

  pub keyboard_modifiers-Holds :
      (x : Xkb S) (m depressed latched locked group : ℕ) (d : Devices S)
      → Holds m d
      → Holds m (Input.keyboard_modifiers x depressed latched locked group d)
  unfolding Input.keyboard_modifiers
  keyboard_modifiers-Holds x m a b c g d (h, e) = (h, e ∙ is_some-update_state x a b c g d.state)
