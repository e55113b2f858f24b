-- ===== src/Setup/Buffers.antt =====
-- The buffers and `init` of greeter/zero-greeter-wayland.cpp: what is left when they return.
use cardputer_zero_os.Base.{
  Use, held_by, ℕ, suc, ◌≡◌, refl, Bool, true, false, not, ◌&&◌, ◌||◌, some, List, [], ◌∷◌, ◌++◌,
  ◌==◌, if◌then◌else◌, if_both, Bool-cases, inl, inr, arith,
}
use cardputer_zero_os.Setup.{
  Resource, Uses, Objects, use_all, Event, dispatch_all, Answers, open_shm, create_anonymous_file,
  create_buffer, new_objects, create_buffers, init,
}
use cardputer_zero_os.Setup.Held.{
  Counts, held, held-more, nothing, counts_of, IsHeld, dispatch_all-IsHeld,
}

abbrev pub one_more : Bool → ℕ → ℕ
one_more b n = if b then suc n else n

-- What opens a descriptor and leaves it open where it succeeds.
abbrev IsFile : Bool × Uses → Type 0
IsFile (opened, uses) =
    (c : Counts) → held uses c ≡ some (record c { descriptors = one_more opened c.descriptors })

-- What maps a buffer where it succeeds, and leaves no descriptor open.
abbrev pub IsBuffer : Bool × Uses → Type 0
IsBuffer (ok, uses) =
    (c : Counts) → held uses c ≡ some (record c { mappings = one_more ok c.mappings })

open_shm-IsFile : (k : Answers) → IsFile (open_shm k)
unfolding open_shm held_by
open_shm-IsFile k =
    if_both IsFile (not k.shm) _ _ (λ c. refl)
      (if_both IsFile (not k.shm_sized) _ _ (λ c. refl) (λ c. refl))

create_anonymous_file-IsFile : (k : Answers) → IsFile (create_anonymous_file k)
unfolding create_anonymous_file held_by
create_anonymous_file-IsFile k =
    if_both IsFile (k.memfd && k.memfd_sized) _ _ (λ c. refl)
      (if_both IsFile k.memfd _ _ (open_shm-IsFile k) (open_shm-IsFile k))

map_file-IsBuffer :
    (opened maps : Bool) (uses : Uses)
    → IsFile (opened, uses)
    → IsBuffer (
        if not opened
        then (false, uses)
        else if not maps
        then (false, uses ++ Use.release Resource.descriptor ∷ [])
        else (true, uses ++ Use.acquire Resource.mapping ∷ Use.release Resource.descriptor ∷ []))
unfolding held_by
map_file-IsBuffer false maps uses f c = f c
map_file-IsBuffer true false uses f c =
    held-more uses (Use.release Resource.descriptor ∷ []) c _ _ (f c) refl
map_file-IsBuffer true true uses f c =
    held-more uses (Use.acquire Resource.mapping ∷ Use.release Resource.descriptor ∷ []) c _ _ (f c)
      refl

pub create_buffer-IsBuffer : (k : Answers) → IsBuffer (create_buffer k)
unfolding create_buffer
create_buffer-IsBuffer k =
    map_file-IsBuffer (create_anonymous_file k).0 k.mmap (create_anonymous_file k).1
      (create_anonymous_file-IsFile k)

-- The start succeeded exactly if two buffers are mapped, and then with the globals that it needs; no
-- descriptor is open.
abbrev pub IsStarted : Bool × Objects → Type 0
IsStarted (ok, o) =
    (m : ℕ) × IsHeld m o × (ok ≡ (m == 2)) × ((ok && not (o.compositor && (o.shm && o.wm))) ≡ false)

two_mapped : (b : Bool) → b ≡ (one_more b 1 == 2)
two_mapped true = refl
two_mapped false = refl

none_missing : (ok all : Bool) → all ≡ true → (ok && not all) ≡ false
none_missing ok all e = ground arith

all_there :
    (compositor shm wm : Bool)
    → (not compositor || not shm || not wm) ≡ false
    → (compositor && (shm && wm)) ≡ true
all_there compositor shm wm e = ground arith

both_buffers :
    (first second : Bool) (us vs : Uses) (o : Objects)
    → IsBuffer (first, us)
    → IsBuffer (second, vs)
    → (o.compositor && (o.shm && o.wm)) ≡ true
    → IsHeld 0 o
    → IsStarted (if first then (second, use_all (us ++ vs) o) else (false, use_all us o))
unfolding use_all
both_buffers false second us vs o f g e h =
    (0, held-more o.uses us nothing _ _ h (f (counts_of 0 o)), refl, refl)
both_buffers true second us vs o f g e h =
    let c = counts_of 1 o in
    let all =
      held-more o.uses (us ++ vs) nothing _ _ h
        (held-more us vs (counts_of 0 o) c _ (f (counts_of 0 o)) (g c)) in
    (one_more second 1, all, two_mapped second, none_missing second _ e)

-- Whatever the compositor announces and the kernel answers, also where `init` fails: it leaves no
-- descriptor open and releases nothing that it does not hold, and it succeeds exactly if both buffers
-- are mapped, and only with a compositor, shared memory and a shell.
pub init-IsStarted :
    (connected : Bool) (events : List Event) (k l : Answers) → IsStarted (init connected events k l)
unfolding init create_buffers held_by
init-IsStarted connected events k l =
    let o = dispatch_all new_objects events in
    let h = dispatch_all-IsHeld 0 new_objects events refl in
    if_both IsStarted (not connected) _ _ (0, refl, refl, refl)
      (elim (Bool-cases (not o.compositor || not o.shm || not o.wm)) [
        | inl e ↦ rw e (0, h, refl, refl)
        | inr e ↦ rw e (
            both_buffers (create_buffer k).0 (create_buffer l).0 (create_buffer k).1
              (create_buffer l).1 o (create_buffer-IsBuffer k) (create_buffer-IsBuffer l)
              (all_there _ _ _ e) h)
      ])
