-- ===== src/Setup/Held.antt =====
-- That what greeter/zero-greeter-wayland.cpp acquires is released once, and when.
use cardputer_zero_os.Base.{
  ℕ, suc, ◌≡◌, ◌∙◌, refl, Bool, true, false, not, ◌&&◌, Option, some, ◌>>=◌, List, [], ◌∷◌, ◌++◌,
  Bytes, codes, ◌==◌, ◌/◌, ◌%◌, if◌then◌else◌, str_eq, if_both, Use, when_set, as_count, less_one,
  Ledger, held_by, held_by-more,
}
use cardputer_zero_os.Setup.{
  Resource, Uses, Objects, use_all, registry_global, seat_capabilities, Keymap, replace_keymap,
  keyboard_keymap, Event, dispatch, dispatch_all,
}

-- How many of each kind are held.
pub record Counts : Type 0 where
  pub descriptors : ℕ
  pub mappings : ℕ
  pub keymaps : ℕ
  pub states : ℕ
  pub keyboards : ℕ

abbrev add_one : Resource → Counts → Counts
add_one Resource.descriptor c = record c { descriptors = suc c.descriptors }
add_one Resource.mapping c = record c { mappings = suc c.mappings }
add_one Resource.keymap c = record c { keymaps = suc c.keymaps }
add_one Resource.xkb_state c = record c { states = suc c.states }
add_one Resource.keyboard c = record c { keyboards = suc c.keyboards }

-- None where nothing of the kind is held.
abbrev take_off : Resource → Counts → Option Counts
take_off Resource.descriptor c = less_one c.descriptors >>= λ n. some (record c { descriptors = n })
take_off Resource.mapping c = less_one c.mappings >>= λ n. some (record c { mappings = n })
take_off Resource.keymap c = less_one c.keymaps >>= λ n. some (record c { keymaps = n })
take_off Resource.xkb_state c = less_one c.states >>= λ n. some (record c { states = n })
take_off Resource.keyboard c = less_one c.keyboards >>= λ n. some (record c { keyboards = n })

abbrev ledger : Ledger Resource Counts
ledger = record { add_one = add_one; take_off = take_off }

abbrev pub held : Uses → Counts → Option Counts
held = held_by ledger

abbrev pub nothing : Counts
nothing = record { descriptors = 0; mappings = 0; keymaps = 0; states = 0; keyboards = 0 }

-- No descriptor, as many mappings, and one object for each pointer that is set.
abbrev pub counts_of : ℕ → Objects → Counts
counts_of m o = record {
  descriptors = 0;
  mappings = m;
  keymaps = as_count o.has_keymap;
  states = as_count o.has_state;
  keyboards = as_count o.has_keyboard;
}

abbrev pub IsHeld : ℕ → Objects → Type 0
IsHeld m o = held o.uses nothing ≡ some (counts_of m o)

pub held-more :
    (us vs : Uses) (c d : Counts) (e : Option Counts)
    → held us c ≡ some d
    → held vs d ≡ e
    → held (us ++ vs) c ≡ e
held-more us vs c d e first second = held_by-more ledger us vs c d e first second

-- The registry's globals are no such resource.
pub registry_global-IsHeld :
    (m : ℕ) (interface : Bytes) (o : Objects) → IsHeld m o → IsHeld m (registry_global interface o)
unfolding registry_global
registry_global-IsHeld m interface o h =
    if_both (IsHeld m) (str_eq interface (codes "wl_compositor")) _ _ h (
      if_both (IsHeld m) (str_eq interface (codes "wl_shm")) _ _ h (
        if_both (IsHeld m) (str_eq interface (codes "wl_seat")) _ _ h
          (if_both (IsHeld m) (str_eq interface (codes "xdg_wm_base")) _ _ h h)))

-- The keyboard by whether it is offered and whether it is there.
keyboard-IsHeld :
    (m : ℕ) (offered there : Bool) (o : Objects)
    → IsHeld m (record o { has_keyboard = there })
    → IsHeld m (
        if offered && not there
        then use_all (Use.acquire Resource.keyboard ∷ []) (record o { has_keyboard = true })
        else if not offered && there
        then use_all (Use.release Resource.keyboard ∷ []) (record o { has_keyboard = false })
        else record o { has_keyboard = there })
unfolding use_all held_by
keyboard-IsHeld m true true o h = h
keyboard-IsHeld m true false o h =
    held-more o.uses (Use.acquire Resource.keyboard ∷ []) nothing _ _ h refl
keyboard-IsHeld m false true o h =
    held-more o.uses (Use.release Resource.keyboard ∷ []) nothing _ _ h refl
keyboard-IsHeld m false false o h = h

pub seat_capabilities-IsHeld :
    (m n : ℕ) (o : Objects) → IsHeld m o → IsHeld m (seat_capabilities n o)
unfolding seat_capabilities
seat_capabilities-IsHeld m n o h = keyboard-IsHeld m (n / 2 % 2 == 1) o.has_keyboard o h

-- An object that is released if it is there, and one that is acquired if it can be.
module _ (rest : Uses) (c : Counts) where
  release-keymap :
      (b : Bool)
      → held (when_set b (Use.release Resource.keymap) ++ rest) (record c { keymaps = as_count b })
        ≡ held rest (record c { keymaps = 0 })
  unfolding held_by
  release-keymap true = refl
  release-keymap false = refl

  release-xkb_state :
      (b : Bool)
      → held
          (when_set b (Use.release Resource.xkb_state) ++ rest)
          (record c { states = as_count b })
        ≡ held rest (record c { states = 0 })
  unfolding held_by
  release-xkb_state true = refl
  release-xkb_state false = refl

  acquire-keymap :
      (b : Bool)
      → held (when_set b (Use.acquire Resource.keymap) ++ rest) (record c { keymaps = 0 })
        ≡ held rest (record c { keymaps = as_count b })
  unfolding held_by
  acquire-keymap true = refl
  acquire-keymap false = refl

  acquire-xkb_state :
      (b : Bool)
      → held (when_set b (Use.acquire Resource.xkb_state) ++ rest) (record c { states = 0 })
        ≡ held rest (record c { states = as_count b })
  unfolding held_by
  acquire-xkb_state true = refl
  acquire-xkb_state false = refl

replace_keymap-IsHeld :
    (m : ℕ) (k : Keymap) (o : Objects)
    → held o.uses nothing ≡ some (record (counts_of m o) { descriptors = 1 })
    → IsHeld m (replace_keymap k o)
unfolding replace_keymap use_all held_by
replace_keymap-IsHeld m k o h =
    let ends = Use.release Resource.mapping ∷ Use.release Resource.descriptor ∷ [] in
    let made = k.compiles && k.makes_state in
    let new_state = when_set made (Use.acquire Resource.xkb_state) ++ ends in
    let new_keymap = when_set k.compiles (Use.acquire Resource.keymap) ++ new_state in
    let old_state = when_set o.has_state (Use.release Resource.xkb_state) ++ new_keymap in
    let busy = record (counts_of m o) { descriptors = 1; mappings = suc m } in
    let old_keymap = when_set o.has_keymap (Use.release Resource.keymap) ++ old_state in
    held-more o.uses (Use.acquire Resource.mapping ∷ old_keymap) nothing
      (record (counts_of m o) { descriptors = 1 }) _ h
      (release-keymap old_state busy o.has_keymap
        ∙ release-xkb_state new_keymap (record busy { keymaps = 0 }) o.has_state
        ∙ acquire-keymap new_state (record busy { keymaps = 0; states = 0 }) k.compiles
        ∙ acquire-xkb_state ends (record busy { keymaps = as_count k.compiles; states = 0 }) made)

given-descriptor :
    (m : ℕ) (o : Objects)
    → IsHeld m o
    → held (o.uses ++ Use.acquire Resource.descriptor ∷ []) nothing
      ≡ some (record (counts_of m o) { descriptors = 1 })
unfolding held_by
given-descriptor m o h = held-more o.uses (Use.acquire Resource.descriptor ∷ []) nothing _ _ h refl

pub keyboard_keymap-IsHeld :
    (m : ℕ) (k : Keymap) (o : Objects) → IsHeld m o → IsHeld m (keyboard_keymap k o)
unfolding keyboard_keymap use_all held_by
keyboard_keymap-IsHeld m k o h =
    let given = use_all (Use.acquire Resource.descriptor ∷ []) o in
    let closed =
      held-more given.uses (Use.release Resource.descriptor ∷ []) nothing _ (some (counts_of m o))
        (given-descriptor m o h) refl in
    if_both (IsHeld m) (not (k.format == 1)) _ _ closed (
      if_both (IsHeld m) (not k.maps) _ _ closed
        (replace_keymap-IsHeld m k given (given-descriptor m o h)))

dispatch-IsHeld : (m : ℕ) (o : Objects) (e : Event) → IsHeld m o → IsHeld m (dispatch o e)
unfolding dispatch
dispatch-IsHeld m o (Event.global interface) h = registry_global-IsHeld m interface o h
dispatch-IsHeld m o (Event.capabilities n) h = seat_capabilities-IsHeld m n o h
dispatch-IsHeld m o (Event.keymap_sent k) h = keyboard_keymap-IsHeld m k o h

-- However often the seat changes and a keymap is sent, valid or not: every descriptor that came with one
-- is closed and every mapping of one undone, once each, so that only the mappings of before are left;
-- and there is one keymap, one keyboard state and one keyboard exactly where the window has a pointer to
-- one, if all that held before.
pub dispatch_all-IsHeld :
    (m : ℕ) (o : Objects) (es : List Event) → IsHeld m o → IsHeld m (dispatch_all o es)
unfolding dispatch_all
dispatch_all-IsHeld m o [] h = h
dispatch_all-IsHeld m o (e ∷ es) h =
    dispatch_all-IsHeld m (dispatch o e) es (dispatch-IsHeld m o e h)
