-- ===== src/Agent/Events/Ids.antt =====
-- Task ids: positive, below `next_id_` and rising along `tasks_`, whatever the compositor reports.
use cardputer_zero_os.Base.{
  ℕ, ◌+◌, ◌≤◌, ◌≡◌, refl, inl, inr, Bool, true, not, List, [], ◌∷◌, ◌++◌, map, ◌==◌, if◌then◌else◌,
  keep, Bool-cases, arith,
}
use cardputer_zero_os.Agent.State.{Task, Agent, Request}
use cardputer_zero_os.Agent.Events.{
  update_task, new_task, set_state, set_states, clear_states, prune_loop, prune_closed,
  some_removed, Event, dispatch, dispatch_all,
}

-- The ids rise from `lo` on and stay below `hi`.
abbrev pub IdsBetween : ℕ → ℕ → List Task → Type 0
IdsBetween lo hi [] = lo ≤ hi
IdsBetween lo hi (t ∷ ts) = (lo ≤ t.id) × IdsBetween (t.id + 1) hi ts

abbrev pub IsValid : Agent → Type 0
IsValid a = IdsBetween 1 a.next_id a.tasks

IdsBetween-mono :
    (lo lo' hi : ℕ) (ts : List Task) → lo' ≤ lo → IdsBetween lo hi ts → IdsBetween lo' hi ts
IdsBetween-mono lo lo' hi [] h v = omega arith
IdsBetween-mono lo lo' hi (t ∷ ts) h (l, v) = (omega arith, v)

IdsBetween-append :
    (lo hi handle : ℕ) (ts : List Task)
    → IdsBetween lo hi ts
    → IdsBetween lo (hi + 1) (ts ++ new_task hi handle ∷ [])
unfolding new_task
IdsBetween-append lo hi handle [] v = (v, omega arith)
IdsBetween-append lo hi handle (t ∷ ts) (l, v) = (l, IdsBetween-append (t.id + 1) hi handle ts v)

update_task-IdsBetween :
    (p : ℕ) (f : Task → Task) (lo hi : ℕ) (ts : List Task)
    → ((t : Task) → (f t).id ≡ t.id)
    → IdsBetween lo hi ts
    → IdsBetween lo hi (update_task p f ts)
unfolding update_task
update_task-IdsBetween p f lo hi [] same v = v
update_task-IdsBetween p f lo hi (t ∷ ts) same (l, v) = elim (Bool-cases (t.id == p)) [
  | inl e ↦ rw (e, same t) (l, update_task-IdsBetween p f (t.id + 1) hi ts same v)
  | inr e ↦ rw e (l, update_task-IdsBetween p f (t.id + 1) hi ts same v)
]

pub set_states-id : (state : List ℕ) (t : Task) → (set_states state t).id ≡ t.id
unfolding set_states
set_states-id [] t = refl
set_states-id (e ∷ state) t = ground (arith, set_states-id state (set_state e t))

pub clear_states-id : (t : Task) → (clear_states t).id ≡ t.id
unfolding clear_states
clear_states-id t = refl

-- Every event keeps the ids positive, distinct and below the next id.
pub dispatch-IsValid : (a : Agent) (e : Event) → IsValid a → IsValid (dispatch a e)
unfolding dispatch
dispatch-IsValid a Event.seat_bound v = v
dispatch-IsValid a (Event.toplevel handle) v = IdsBetween-append 1 a.next_id handle a.tasks v
dispatch-IsValid a Event.finished v = v
dispatch-IsValid a (Event.title_set p title) v =
    update_task-IdsBetween p _ 1 a.next_id a.tasks (λ t. refl) v
dispatch-IsValid a (Event.app_id_set p app_id) v =
    update_task-IdsBetween p _ 1 a.next_id a.tasks (λ t. refl) v
dispatch-IsValid a (Event.state_set p state) v =
    update_task-IdsBetween p _ 1 a.next_id a.tasks (λ t. set_states-id state _) v
dispatch-IsValid a (Event.done p) v = update_task-IdsBetween p _ 1 a.next_id a.tasks (λ t. refl) v
dispatch-IsValid a (Event.closed_by p) v =
    update_task-IdsBetween p _ 1 a.next_id a.tasks (λ t. refl) v

pub dispatch_all-IsValid : (a : Agent) (es : List Event) → IsValid a → IsValid (dispatch_all a es)
unfolding dispatch_all
dispatch_all-IsValid a [] v = v
dispatch_all-IsValid a (e ∷ es) v = dispatch_all-IsValid (dispatch a e) es (dispatch-IsValid a e v)

abbrev pub is_open : Task → Bool
is_open t = not t.closed

-- The requests that destroy the handles of closed tasks.
abbrev pub destroys : List Task → List Request
destroys ts = map (λ t. Request.destroy t.handle) (keep (λ t. t.closed) ts)

prune_loop-keep : (ts : List Task) → prune_loop ts ≡ (keep is_open ts, destroys ts)
unfolding prune_loop
prune_loop-keep [] = refl
prune_loop-keep (t ∷ ts) = ground (arith, prune_loop-keep ts)

-- Pruning keeps the open tasks in order, destroys the handles of the closed ones and of no other, and
-- reports a change exactly if it destroyed one.
pub prune_closed_lem :
    (a : Agent)
    → ((prune_closed a).tasks ≡ keep is_open a.tasks)
      × ((prune_closed a).requests ≡ a.requests ++ destroys a.tasks)
      × ((prune_closed a).changed ≡ (if some_removed (destroys a.tasks) then true else a.changed))
unfolding prune_closed
prune_closed_lem a = ground (arith, prune_loop-keep a.tasks)

keep-IdsBetween :
    (test : Task → Bool) (lo hi : ℕ) (ts : List Task)
    → IdsBetween lo hi ts
    → IdsBetween lo hi (keep test ts)
keep-IdsBetween test lo hi [] v = v
keep-IdsBetween test lo hi (t ∷ ts) (l, v) =
    let rest = keep-IdsBetween test (t.id + 1) hi ts v in
    ground (arith, rest, IdsBetween-mono (t.id + 1) lo hi (keep test ts))

pub prune_closed-next_id : (a : Agent) → (prune_closed a).next_id ≡ a.next_id
unfolding prune_closed
prune_closed-next_id a = ground arith

pub prune_closed-IsValid : (a : Agent) → IsValid a → IsValid (prune_closed a)
prune_closed-IsValid a v =
    rw (prune_closed-next_id a, (prune_closed_lem a).0)
      (keep-IdsBetween is_open 1 a.next_id a.tasks v)
