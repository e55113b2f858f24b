-- ===== src/Prompt/Window/Alike.antt =====
-- Two windows of polkit-agent/zero-polkit-prompt-wayland.cpp that differ in the bytes of the secret, and
-- the events that keep them so.
use cardputer_zero_os.Base.{
  ℕ, ◌≡◌, ◌∙◌, refl, sym, ap, Bool, true, false, not, ◌&&◌, ◌||◌, List, [], ◌∷◌, ◌++◌, Bytes, ltb,
  if◌then◌else◌, length, length-append, Bool-cases, inl, inr, is_empty, arith,
}
use cardputer_zero_os.Greeter.Screen.{Keysym, is_print}
use cardputer_zero_os.Greeter.Keys.{Key, pop_back}
use cardputer_zero_os.Prompt.Texts.Fit.{IsPrintable}
use cardputer_zero_os.Prompt.Frame.{PromptWindow}
use cardputer_zero_os.Prompt.Window.{
  submit, cancel, erase, handle_keysym, handle_text, keyboard_key, Event, dispatch, dispatch_all,
  Round,
}
use cardputer_zero_os.Prompt.Window.Typing.{press}

-- The same window with another secret.
abbrev pub with_secret : Bytes → PromptWindow → PromptWindow
with_secret s w = record w { secret = s }

-- Two windows that differ in the bytes of a hidden secret only, not in how many they are.
abbrev pub IsAlike : PromptWindow → PromptWindow → Type 0
IsAlike w v =
    (w.echo ≡ false) × ((s : Bytes) × (v ≡ with_secret s w) × (length s ≡ length w.secret))

-- The same event, or two printable characters that are typed.
pub data AlikeEvent : Event → Event → Type 0 where
  same : (e : Event) → AlikeEvent e e
  letters :
      (n m c d : ℕ)
      → IsPrintable c
      → IsPrintable d
      → AlikeEvent (press (Keysym.other n) (c ∷ [])) (press (Keysym.other m) (d ∷ []))

pub data AlikeEvents : List Event → List Event → Type 0 where
  nothing : AlikeEvents [] []
  event :
      (e f : Event) (es fs : List Event)
      → AlikeEvent e f
      → AlikeEvents es fs
      → AlikeEvents (e ∷ es) (f ∷ fs)

pub data AlikeRounds : List Round → List Round → Type 0 where
  nothing : AlikeRounds [] []
  next :
      (q r : Round) (qs rs : List Round)
      → AlikeEvents q.pending r.pending
      → AlikeEvents q.polled r.polled
      → AlikeRounds qs rs
      → AlikeRounds (q ∷ qs) (r ∷ rs)

-- The same function on both sides, with lists of the same length at hand.
length-pop_back : (s t : Bytes) → length s ≡ length t → length (pop_back s) ≡ length (pop_back t)
unfolding pop_back
length-pop_back [] [] h = refl
length-pop_back [] (b ∷ t) h = absurd (omega arith)
length-pop_back (a ∷ s) [] h = absurd (omega arith)
length-pop_back (a ∷ []) (b ∷ []) h = refl
length-pop_back (a ∷ []) (b ∷ d ∷ t) h = absurd (omega arith)
length-pop_back (a ∷ c ∷ s) (b ∷ []) h = absurd (omega arith)
length-pop_back (a ∷ c ∷ s) (b ∷ d ∷ t) h =
    omega (arith, length-pop_back (c ∷ s) (d ∷ t) (omega arith))

is_empty-length : (s t : Bytes) → length s ≡ length t → is_empty s ≡ is_empty t
is_empty-length [] [] h = refl
is_empty-length [] (b ∷ t) h = absurd (omega arith)
is_empty-length (a ∷ s) [] h = absurd (omega arith)
is_empty-length (a ∷ s) (b ∷ t) h = refl

module _ (w : PromptWindow) (echo : w.echo ≡ false) (s : Bytes)
    (h : length s ≡ length w.secret) where
  erase-IsAlike : IsAlike (erase w) (erase (with_secret s w))
  unfolding erase
  erase-IsAlike = elim (Bool-cases (is_empty w.secret)) [
    | inl e ↦ rw (is_empty-length s w.secret h, e) (echo, (s, refl, h))
    | inr e ↦
        rw (is_empty-length s w.secret h, e)
          (echo, (pop_back s, refl, length-pop_back s w.secret h))
  ]

  handle_keysym-IsAlike :
      (sym : Keysym) → IsAlike (handle_keysym w sym) (handle_keysym (with_secret s w) sym)
  unfolding handle_keysym submit cancel
  handle_keysym-IsAlike Keysym.escape = (echo, (s, refl, h))
  handle_keysym-IsAlike Keysym.tab = (echo, (s, refl, h))
  handle_keysym-IsAlike Keysym.down = (echo, (s, refl, h))
  handle_keysym-IsAlike Keysym.right = (echo, (s, refl, h))
  handle_keysym-IsAlike Keysym.up = (echo, (s, refl, h))
  handle_keysym-IsAlike Keysym.left = (echo, (s, refl, h))
  handle_keysym-IsAlike Keysym.return = (echo, (s, refl, h))
  handle_keysym-IsAlike Keysym.kp_enter = (echo, (s, refl, h))
  handle_keysym-IsAlike Keysym.backspace = erase-IsAlike
  handle_keysym-IsAlike Keysym.delete = erase-IsAlike
  handle_keysym-IsAlike (Keysym.other n) = (echo, (s, refl, h))

  -- Two characters, both taken or both refused.
  type-IsAlike :
      (c d : ℕ)
      → is_print c ≡ is_print d
      → IsAlike (handle_text w (c ∷ [])) (handle_text (with_secret s w) (d ∷ []))
  unfolding handle_text
  type-IsAlike c d e = elim (Bool-cases (is_print d && ltb (length w.secret) 128)) [
    | inl y ↦
        rw (e, h, y)
          (
            echo,
            (
              s ++ d ∷ [],
              refl,
              omega (arith, h, length-append s (d ∷ []), length-append w.secret (c ∷ [])),
            ),
          )
    | inr y ↦ rw (e, h, y) (echo, (s, refl, h))
  ]

handle_text-IsAlike :
    (w v : PromptWindow) (utf8 : Bytes)
    → IsAlike w v
    → IsAlike (handle_text w utf8) (handle_text v utf8)
unfolding handle_text
handle_text-IsAlike w v [] a = a
handle_text-IsAlike w v (c ∷ d ∷ t) a = a
handle_text-IsAlike w v (c ∷ []) (echo, (s, e, h)) = rw e (type-IsAlike w echo s h c c refl)

-- The two sides take the same branch.
pub branch-IsAlike :
    (b c : Bool) (w v x y : PromptWindow)
    → c ≡ b
    → IsAlike w v
    → IsAlike x y
    → IsAlike (if b then w else x) (if c then v else y)
branch-IsAlike b c w v x y e left right =
    rw e (elim b as (λ b. IsAlike (if b then w else x) (if b then v else y)) [
      | true ↦ left
      | false ↦ right
    ])

keyboard_key-IsAlike :
    (w : PromptWindow) (k : Key) (echo : w.echo ≡ false) (s : Bytes)
    → length s ≡ length w.secret
    → IsAlike (keyboard_key w k) (keyboard_key (with_secret s w) k)
unfolding keyboard_key
keyboard_key-IsAlike w k echo s h =
    let u = handle_keysym w k.sym in
    let v = handle_keysym (with_secret s w) k.sym in
    let a = handle_keysym-IsAlike w echo s h k.sym in
    let (echo', (t, e, l)) = a in
    let runs : v.running ≡ u.running = ap (λ x. x.running) e in
    branch-IsAlike (not k.pressed || not k.mapped) (not k.pressed || not k.mapped) _ _ _ _ refl
      (echo, (s, refl, h))
      (branch-IsAlike (not u.running) (not v.running) u v _ _ (ap not runs) a
        (handle_text-IsAlike u v k.utf8 a))

letters-IsAlike :
    (w : PromptWindow) (n m c d : ℕ) (echo : w.echo ≡ false) (s : Bytes)
    → length s ≡ length w.secret
    → is_print c ≡ is_print d
    → IsAlike
        (dispatch w (press (Keysym.other n) (c ∷ [])))
        (dispatch (with_secret s w) (press (Keysym.other m) (d ∷ [])))
unfolding dispatch keyboard_key handle_keysym
letters-IsAlike w n m c d echo s h e =
    branch-IsAlike (not w.running) (not w.running) _ _ _ _ refl (echo, (s, refl, h))
      (type-IsAlike w echo s h c d e)

same-IsAlike :
    (w : PromptWindow) (e : Event) (echo : w.echo ≡ false) (s : Bytes)
    → length s ≡ length w.secret
    → IsAlike (dispatch w e) (dispatch (with_secret s w) e)
unfolding dispatch cancel
same-IsAlike w Event.surface_configure echo s h = (echo, (s, refl, h))
same-IsAlike w Event.toplevel_close echo s h = (echo, (s, refl, h))
same-IsAlike w (Event.buffer_release i) echo s h = (echo, (s, refl, h))
same-IsAlike w (Event.key k) echo s h = keyboard_key-IsAlike w k echo s h

dispatch-IsAlike :
    {e f : Event} (w v : PromptWindow)
    → AlikeEvent e f
    → IsAlike w v
    → IsAlike (dispatch w e) (dispatch v f)
dispatch-IsAlike w v (AlikeEvent.same e) (echo, (s, p, h)) = rw p (same-IsAlike w e echo s h)
dispatch-IsAlike w v (AlikeEvent.letters n m c d pc pd) (echo, (s, p, h)) =
    rw p (letters-IsAlike w n m c d echo s h (pc ∙ sym pd))

pub dispatch_all-IsAlike :
    {es fs : List Event} (w v : PromptWindow)
    → AlikeEvents es fs
    → IsAlike w v
    → IsAlike (dispatch_all w es) (dispatch_all v fs)
unfolding dispatch_all
dispatch_all-IsAlike w v AlikeEvents.nothing a = a
dispatch_all-IsAlike w v (AlikeEvents.event e f es fs one more) a =
    dispatch_all-IsAlike (dispatch w e) (dispatch v f) more (dispatch-IsAlike w v one a)
