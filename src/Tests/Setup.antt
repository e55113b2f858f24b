-- ===== src/Tests/Setup.antt =====
-- greeter/zero-greeter-wayland.cpp: a seat that comes and goes, and a start that fails half-way.
use cardputer_zero_os.Base.{true, false, [], ◌∷◌, codes, List}
use cardputer_zero_os.Setup.{Keymap, Event, Answers, init}
use cardputer_zero_os.Setup.Buffers.{IsStarted, init-IsStarted}

abbrev us_layout : Keymap
us_layout = record {
  format = 1;
  text = codes "us";
  maps = true;
  compiles = true;
  makes_state = true;
}

abbrev events : List Event
events =
    Event.global (codes "wl_compositor")
    ∷ Event.global (codes "wl_shm")
    ∷ Event.global (codes "xdg_wm_base")
    ∷ Event.capabilities 3
    ∷ Event.keymap_sent us_layout
    ∷ Event.keymap_sent (record us_layout { compiles = false })
    ∷ Event.capabilities 1
    ∷ []

abbrev memfd_only : Answers
memfd_only = record {
  memfd = true;
  memfd_sized = true;
  shm = false;
  shm_sized = false;
  mmap = true;
}

-- The second buffer's file cannot be given its size, nor made in another way.
init-IsStarted_example :
    IsStarted (init true events memfd_only (record memfd_only { memfd_sized = false }))
init-IsStarted_example =
    init-IsStarted true events memfd_only (record memfd_only { memfd_sized = false })
