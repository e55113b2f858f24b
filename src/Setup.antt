-- ===== src/Setup.antt =====
-- The Wayland and keyboard objects of greeter/zero-greeter-wayland.cpp: `registry_global`,
-- `seat_capabilities`, `keyboard_keymap`, `create_anonymous_file`, `create_buffer` and the part of
-- `init` that uses them. polkit-agent/zero-polkit-prompt-wayland.cpp has the same functions. What the
-- kernel, the compositor and xkbcommon answer is given; what is acquired and released is kept as a list.
pub mod Held
pub mod Buffers
pub mod Input
use cardputer_zero_os.Base.{
  ℕ, ◌+◌, ◌/◌, ◌%◌, Bool, true, false, not, ◌&&◌, ◌||◌, List, [], ◌∷◌, ◌++◌, Bytes, codes, ◌==◌,
  if◌then◌else◌, str_eq, Use, when_set,
}

-- A descriptor, a mapping of memory, and the objects that are not released by the end of the process.
pub data Resource : Type 0 where
  descriptor mapping keymap xkb_state keyboard : Resource

abbrev pub Uses : Type 0
Uses = List (Use Resource)

-- The pointers by whether they are set, and what was acquired and released so far, oldest first.
pub record Objects : Type 0 where
  pub compositor : Bool
  pub shm : Bool
  pub seat : Bool
  pub wm : Bool
  pub has_keyboard : Bool
  pub has_keymap : Bool
  pub has_state : Bool
  pub uses : Uses

unfoldable pub use_all : Uses → Objects → Objects
use_all uses o = record o { uses = o.uses ++ uses }

-- The interface's name decides.
unfoldable pub registry_global : Bytes → Objects → Objects
registry_global interface o =
    if str_eq interface (codes "wl_compositor")
    then record o { compositor = true }
    else if str_eq interface (codes "wl_shm")
    then record o { shm = true }
    else if str_eq interface (codes "wl_seat")
    then record o { seat = true }
    else if str_eq interface (codes "xdg_wm_base")
    then record o { wm = true }
    else o

-- `capabilities & WL_SEAT_CAPABILITY_KEYBOARD`, which is 2.
unfoldable pub seat_capabilities : ℕ → Objects → Objects
unfolding use_all
seat_capabilities capabilities o =
    let offered = capabilities / 2 % 2 == 1 in
    if offered && not o.has_keyboard
    then use_all (Use.acquire Resource.keyboard ∷ []) (record o { has_keyboard = true })
    else if not offered && o.has_keyboard
    then use_all (Use.release Resource.keyboard ∷ []) (record o { has_keyboard = false })
    else o

-- A keymap as the compositor sends it, with its descriptor: the format, the text, whether `mmap` works, whether
-- the text compiles, and whether a state is made of it.
pub record Keymap : Type 0 where
  pub format : ℕ
  pub text : Bytes
  pub maps : Bool
  pub compiles : Bool
  pub makes_state : Bool

-- The old objects go before the new ones come.
unfoldable pub replace_keymap : Keymap → Objects → Objects
unfolding use_all
replace_keymap k o =
    let ends = Use.release Resource.mapping ∷ Use.release Resource.descriptor ∷ [] in
    let new_state =
      when_set (k.compiles && k.makes_state) (Use.acquire Resource.xkb_state) ++ ends in
    let new_keymap = when_set k.compiles (Use.acquire Resource.keymap) ++ new_state in
    let old_state = when_set o.has_state (Use.release Resource.xkb_state) ++ new_keymap in
    let old_keymap = when_set o.has_keymap (Use.release Resource.keymap) ++ old_state in
    use_all (Use.acquire Resource.mapping ∷ old_keymap)
      (record o { has_keymap = k.compiles; has_state = k.compiles && k.makes_state })

-- `WL_KEYBOARD_KEYMAP_FORMAT_XKB_V1` is 1.
unfoldable pub keyboard_keymap : Keymap → Objects → Objects
unfolding use_all replace_keymap
keyboard_keymap k o =
    let given = use_all (Use.acquire Resource.descriptor ∷ []) o in
    if not (k.format == 1)
    then use_all (Use.release Resource.descriptor ∷ []) given
    else if not k.maps
    then use_all (Use.release Resource.descriptor ∷ []) given
    else replace_keymap k given

pub data Event : Type 0 where
  global : Bytes → Event
  capabilities : ℕ → Event
  keymap_sent : Keymap → Event

unfoldable pub dispatch : Objects → Event → Objects
unfolding registry_global seat_capabilities keyboard_keymap
dispatch o (Event.global interface) = registry_global interface o
dispatch o (Event.capabilities n) = seat_capabilities n o
dispatch o (Event.keymap_sent k) = keyboard_keymap k o

unfoldable pub dispatch_all : Objects → List Event → Objects
unfolding dispatch
dispatch_all o [] = o
dispatch_all o (e ∷ es) = dispatch_all (dispatch o e) es

-- The kernel's answers for one buffer: `memfd_create`, `ftruncate` of its file, `shm_open`, `ftruncate`
-- of that, and `mmap`.
pub record Answers : Type 0 where
  pub memfd : Bool
  pub memfd_sized : Bool
  pub shm : Bool
  pub shm_sized : Bool
  pub mmap : Bool

unfoldable pub open_shm : Answers → Bool × Uses
open_shm k =
    if not k.shm
    then (false, [])
    else if not k.shm_sized
    then (false, Use.acquire Resource.descriptor ∷ Use.release Resource.descriptor ∷ [])
    else (true, Use.acquire Resource.descriptor ∷ [])

-- Whether there is a descriptor, and what was acquired and released.
unfoldable pub create_anonymous_file : Answers → Bool × Uses
unfolding open_shm
create_anonymous_file k =
    let (opened, uses) = open_shm k in
    if k.memfd && k.memfd_sized
    then (true, Use.acquire Resource.descriptor ∷ [])
    else if k.memfd
    then (opened, Use.acquire Resource.descriptor ∷ Use.release Resource.descriptor ∷ uses)
    else (opened, uses)

unfoldable pub create_buffer : Answers → Bool × Uses
unfolding create_anonymous_file
create_buffer k =
    let (opened, uses) = create_anonymous_file k in
    if not opened
    then (false, uses)
    else if not k.mmap
    then (false, uses ++ Use.release Resource.descriptor ∷ [])
    else (true, uses ++ Use.acquire Resource.mapping ∷ Use.release Resource.descriptor ∷ [])

abbrev pub new_objects : Objects
new_objects = record {
  compositor = false;
  shm = false;
  seat = false;
  wm = false;
  has_keyboard = false;
  has_keymap = false;
  has_state = false;
  uses = [];
}

create_buffers : Answers → Answers → Objects → Bool × Objects
unfolding create_buffer use_all
create_buffers k l o =
    let (first, uses) = create_buffer k in
    let (second, more) = create_buffer l in
    if first then (second, use_all (uses ++ more) o) else (false, use_all uses o)

-- `init`: whether the display is there, the events of its two round trips, and the two buffers.
unfoldable pub init : Bool → List Event → Answers → Answers → Bool × Objects
unfolding dispatch_all create_buffers
init connected events k l =
    let o = dispatch_all new_objects events in
    if not connected
    then (false, new_objects)
    else if not o.compositor || not o.shm || not o.wm
    then (false, o)
    else create_buffers k l o
