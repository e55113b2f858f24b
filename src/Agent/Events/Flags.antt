-- ===== src/Agent/Events/Flags.antt =====
-- The state flags after `handle_state`, against the array that the compositor sent.
use cardputer_zero_os.Base.{ℕ, ◌≡◌, Bool, false, ◌||◌, List, [], ◌∷◌, ◌==◌, arith}
use cardputer_zero_os.Agent.State.{Task}
use cardputer_zero_os.Agent.Events.{set_state, set_states, clear_states}

-- Whether the array has an entry.
abbrev pub lists : ℕ → List ℕ → Bool
lists n [] = false
lists n (e ∷ es) = e == n || lists n es

set_states_flags :
    (state : List ℕ) (t : Task)
    → ((set_states state t).maximized ≡ (t.maximized || lists 0 state))
      × ((set_states state t).minimized ≡ (t.minimized || lists 1 state))
      × ((set_states state t).activated ≡ (t.activated || lists 2 state))
      × ((set_states state t).fullscreen ≡ (t.fullscreen || lists 3 state))
unfolding set_states
set_states_flags [] t = ground arith
set_states_flags (e ∷ state) t = ground (arith, set_states_flags state (set_state e t))

-- A state event replaces all four flags by what its array lists, and forgets what was set before.
handle_state_flags :
    (state : List ℕ) (t : Task)
    → let u = set_states state (clear_states t) in
      (u.maximized ≡ lists 0 state)
      × (u.minimized ≡ lists 1 state)
      × (u.activated ≡ lists 2 state)
      × (u.fullscreen ≡ lists 3 state)
unfolding clear_states
handle_state_flags state t = set_states_flags state (clear_states t)
