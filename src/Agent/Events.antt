-- ===== src/Agent/Events.antt =====
-- What the compositor's events do to the agent: the registry, manager and handle listeners, and
-- `prune_closed`, of window-agent/zero-window-agent.cpp.
pub mod Ids
pub mod Flags
pub mod View
use cardputer_zero_os.Base.{
  ℕ, suc, ◌+◌, ◌≡◌, Bool, true, false, Option, none, some, List, [], ◌∷◌, ◌++◌, Bytes, ◌==◌,
  if◌then◌else◌,
}
use cardputer_zero_os.Agent.State.{Task, Agent, Request, request}

pub mark_changed : Agent → Agent
mark_changed a = record a { changed = true }

-- The task that a listener's data pointer names is changed in place.
pub update_task : ℕ → (Task → Task) → List Task → List Task
update_task p f [] = []
update_task p f (t ∷ ts) = (if t.id == p then f t else t) ∷ update_task p f ts

pub on_task : ℕ → (Task → Task) → Agent → Agent
unfolding update_task mark_changed
on_task p f a = mark_changed (record a { tasks = update_task p f a.tasks })

pub new_task : ℕ → ℕ → Task
new_task id handle = record {
  id = id;
  handle = handle;
  app_id = [];
  title = [];
  activated = false;
  minimized = false;
  maximized = false;
  fullscreen = false;
  closed = false;
}

unfoldable pub manager_toplevel : ℕ → Agent → Agent
unfolding new_task mark_changed
manager_toplevel handle a =
    mark_changed
      (record a { next_id = a.next_id + 1; tasks = a.tasks ++ new_task a.next_id handle ∷ [] })

unfoldable pub manager_finished : Agent → Agent
unfolding mark_changed
manager_finished a = mark_changed (record a { running = false })

-- A null pointer is none.
pub or_empty : Option Bytes → Bytes
or_empty none = []
or_empty (some s) = s

unfoldable pub handle_title : ℕ → Option Bytes → Agent → Agent
unfolding on_task or_empty
handle_title p title = on_task p (λ t. record t { title = or_empty title })

unfoldable pub handle_app_id : ℕ → Option Bytes → Agent → Agent
unfolding on_task or_empty
handle_app_id p app_id = on_task p (λ t. record t { app_id = or_empty app_id })

-- One entry of the array of `handle_state`.
pub set_state : ℕ → Task → Task
set_state entry t =
    if entry == 0
    then record t { maximized = true }
    else if entry == 1
    then record t { minimized = true }
    else if entry == 2
    then record t { activated = true }
    else if entry == 3
    then record t { fullscreen = true }
    else t

pub set_states : List ℕ → Task → Task
unfolding set_state
set_states [] t = t
set_states (entry ∷ state) t = set_states state (set_state entry t)

pub clear_states : Task → Task
clear_states t = record t {
  maximized = false;
  minimized = false;
  activated = false;
  fullscreen = false;
}

unfoldable pub handle_state : ℕ → List ℕ → Agent → Agent
unfolding on_task set_states clear_states
handle_state p state = on_task p (λ t. set_states state (clear_states t))

unfoldable pub handle_done : ℕ → Agent → Agent
unfolding on_task
handle_done p = on_task p (λ t. record t { closed = false })

unfoldable pub handle_closed : ℕ → Agent → Agent
unfolding on_task
handle_closed p = on_task p (λ t. record t { closed = true })

-- The loop of `prune_closed` from the iterator on: the tasks that stay and the handles destroyed.
pub prune_loop : List Task → List Task × List Request
prune_loop [] = ([], [])
prune_loop (t ∷ ts) =
    let (kept, destroyed) = prune_loop ts in
    if t.closed then (kept, Request.destroy t.handle ∷ destroyed) else (t ∷ kept, destroyed)

-- `removed` is set where the loop destroyed a handle.
pub some_removed : List Request → Bool
some_removed [] = false
some_removed (r ∷ rs) = true

unfoldable pub prune_closed : Agent → Agent
unfolding prune_loop some_removed mark_changed
prune_closed a =
    let (kept, destroyed) = prune_loop a.tasks in
    let b = record a { tasks = kept; requests = a.requests ++ destroyed } in
    if some_removed destroyed then mark_changed b else b

-- An event of the compositor, as the listeners receive it.
pub data Event : Type 0 where
  seat_bound : Event
  toplevel : ℕ → Event
  finished : Event
  title_set app_id_set : ℕ → Option Bytes → Event
  state_set : ℕ → List ℕ → Event
  done closed_by : ℕ → Event

unfoldable pub dispatch : Agent → Event → Agent
unfolding manager_toplevel manager_finished handle_title handle_app_id handle_state handle_done
    handle_closed
dispatch a Event.seat_bound = record a { seat = true }
dispatch a (Event.toplevel handle) = manager_toplevel handle a
dispatch a Event.finished = manager_finished a
dispatch a (Event.title_set p title) = handle_title p title a
dispatch a (Event.app_id_set p app_id) = handle_app_id p app_id a
dispatch a (Event.state_set p state) = handle_state p state a
dispatch a (Event.done p) = handle_done p a
dispatch a (Event.closed_by p) = handle_closed p a

unfoldable pub dispatch_all : Agent → List Event → Agent
unfolding dispatch
dispatch_all a [] = a
dispatch_all a (e ∷ es) = dispatch_all (dispatch a e) es
