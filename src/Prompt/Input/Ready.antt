-- ===== src/Prompt/Input/Ready.antt =====
-- When the start of polkit-agent/zero-polkit-prompt-wayland.cpp succeeds, said of what the compositor
-- announces and the kernel answers.
use cardputer_zero_os.Base.{
  ℕ, ◌≡◌, refl, sym, Bool, true, false, not, ◌&&◌, ◌||◌, List, [], ◌∷◌, Bytes, codes, ◌==◌, ◌/◌,
  ◌%◌, str_eq, str_eq_sound, subst, if_both, arith,
}
use cardputer_zero_os.Setup.{Objects, Keymap, Answers, use_all, open_shm, create_anonymous_file}
use cardputer_zero_os.Setup
use cardputer_zero_os.Setup.Input.{Xkb, Signal, new_devices, reply}
use cardputer_zero_os.Setup.Input as Input
use cardputer_zero_os.Prompt.Frame.{PromptWindow}
use cardputer_zero_os.Prompt.Input.{
  Session, registry_global, wm_ping, surface_configure, toplevel_close, seat_capabilities,
  keyboard_keymap, keyboard_key, keyboard_modifiers, buffer_release, dispatch, dispatch_all,
  create_buffer, create_both, Outside, is_missing, init,
}

-- A global of this name.
abbrev pub names : Bytes → Signal → Bool
names name (Signal.global interface) = str_eq interface name
names name _ = false

abbrev pub announces : Bytes → List Signal → Bool
announces name [] = false
announces name (e ∷ es) = names name e || announces name es

-- There is a file of the size of a buffer, from either of the two calls, and it can be mapped.
abbrev pub maps_buffer : Answers → Bool
maps_buffer k = ((k.memfd && k.memfd_sized) || (k.shm && k.shm_sized)) && k.mmap

-- What the start needs.
abbrev pub is_ready : Outside → Bool
is_ready o =
    o.connected
    && (announces (codes "wl_compositor") o.early
        && (announces (codes "wl_shm") o.early && announces (codes "xdg_wm_base") o.early))
    && (maps_buffer o.first && maps_buffer o.second)

create_buffer-maps : (k : Answers) → (Setup.create_buffer k).0 ≡ maps_buffer k
unfolding Setup.create_buffer create_anonymous_file open_shm
create_buffer-maps k = ground arith

-- The three globals, as they were and with those of a name.
abbrev Knows : Bool → Bool → Bool → Objects → Type 0
Knows compositor shm wm o = (o.compositor ≡ compositor) × (o.shm ≡ shm) × (o.wm ≡ wm)

apart : (i a b : Bytes) → str_eq a b ≡ false → str_eq i a ≡ true → str_eq i b ≡ false
apart i a b d e = subst (λ s. str_eq s b ≡ false) (sym (str_eq_sound i a e)) d

global-Knows :
    (i : Bytes) (o : Objects)
    → Knows
        (o.compositor || str_eq i (codes "wl_compositor"))
        (o.shm || str_eq i (codes "wl_shm"))
        (o.wm || str_eq i (codes "xdg_wm_base"))
        (Setup.registry_global i o)
unfolding Setup.registry_global
global-Knows i o = ground (
  arith,
  apart i (codes "wl_compositor") (codes "wl_shm") (unfold str_eq in refl),
  apart i (codes "wl_compositor") (codes "xdg_wm_base") (unfold str_eq in refl),
  apart i (codes "wl_shm") (codes "xdg_wm_base") (unfold str_eq in refl),
  apart i (codes "wl_seat") (codes "wl_compositor") (unfold str_eq in refl),
  apart i (codes "wl_seat") (codes "wl_shm") (unfold str_eq in refl),
  apart i (codes "wl_seat") (codes "xdg_wm_base") (unfold str_eq in refl),
)

keymap-Knows :
    (k : Keymap) (o : Objects) → Knows o.compositor o.shm o.wm (Setup.keyboard_keymap k o)
unfolding Setup.keyboard_keymap Setup.replace_keymap use_all
keymap-Knows k o =
    let P = Knows o.compositor o.shm o.wm in
    if_both P (not (k.format == 1)) _ _ (refl, refl, refl)
      (if_both P (not k.maps) _ _ (refl, refl, refl) (refl, refl, refl))

capabilities-Knows :
    (n : ℕ) (o : Objects) → Knows o.compositor o.shm o.wm (Setup.seat_capabilities n o)
unfolding Setup.seat_capabilities use_all
capabilities-Knows n o =
    let P = Knows o.compositor o.shm o.wm in
    if_both P (n / 2 % 2 == 1 && not o.has_keyboard) _ _ (refl, refl, refl)
      (if_both P (not (n / 2 % 2 == 1) && o.has_keyboard) _ _ (refl, refl, refl) (refl, refl, refl))

module _ {S : Type 0} (x : Xkb S) where
  dispatch-Knows :
      (s : Session S) (e : Signal)
      → let o = s.devices.objects in
        Knows
          (o.compositor || names (codes "wl_compositor") e)
          (o.shm || names (codes "wl_shm") e)
          (o.wm || names (codes "xdg_wm_base") e)
          (dispatch x s e).devices.objects
  unfolding dispatch registry_global wm_ping surface_configure toplevel_close seat_capabilities
      keyboard_keymap Input.keyboard_keymap keyboard_key keyboard_modifiers Input.keyboard_modifiers
      buffer_release reply
  dispatch-Knows s (Signal.global interface) = global-Knows interface s.devices.objects
  dispatch-Knows s (Signal.ping serial) = ground arith
  dispatch-Knows s (Signal.configure serial) = ground arith
  dispatch-Knows s (Signal.capabilities n) = ground (arith, capabilities-Knows n s.devices.objects)
  dispatch-Knows s (Signal.buffer_release i) = ground arith
  dispatch-Knows s Signal.close = ground arith
  dispatch-Knows s (Signal.keymap_sent k) = ground (arith, keymap-Knows k s.devices.objects)
  dispatch-Knows s (Signal.key n state) = ground arith
  dispatch-Knows s (Signal.modifiers depressed latched locked group) = ground arith

  dispatch_all-Knows :
      (s : Session S) (es : List Signal)
      → let o = s.devices.objects in
        Knows
          (o.compositor || announces (codes "wl_compositor") es)
          (o.shm || announces (codes "wl_shm") es)
          (o.wm || announces (codes "xdg_wm_base") es)
          (dispatch_all x s es).devices.objects
  unfolding dispatch_all
  dispatch_all-Knows s [] = ground arith
  dispatch_all-Knows s (e ∷ es) =
      ground (arith, dispatch-Knows s e, dispatch_all-Knows (dispatch x s e) es)

  create_both-maps :
      (k l : Answers) (s : Session S) → (create_both k l s).0 ≡ (maps_buffer k && maps_buffer l)
  unfolding create_both create_buffer
  create_both-maps k l s = ground (arith, create_buffer-maps k, create_buffer-maps l)

  -- `init` succeeds exactly with what it needs.
  pub init-ready : (w : PromptWindow) (o : Outside) → (init x w o).0 ≡ is_ready o
  unfolding init is_missing
  init-ready w o =
      let s = dispatch_all x (record { window = w; devices = new_devices }) o.early in
      ground (
        arith,
        dispatch_all-Knows (record { window = w; devices = new_devices }) o.early,
        create_both-maps o.first o.second s,
      )
