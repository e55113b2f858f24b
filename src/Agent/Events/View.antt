-- ===== src/Agent/Events/View.antt =====
-- The windows that window-agent/zero-window-agent.cpp knows, as a map from ids: what the compositor's
-- events and `prune_closed` do to it, whatever the order and the place in memory of the tasks.
use mathlib.Core.Path.{fun_ext, ap₂}
use cardputer_zero_os.Base.{
  ℕ, ◌+◌, ◌≤◌, ◌<◌, ◌≡◌, ◌∙◌, refl, ap, Bool, true, false, Option, none, some, List, [], ◌∷◌, ◌++◌,
  ◌==◌, if◌then◌else◌, keep, arith,
}
use cardputer_zero_os.Agent.State.{Task, Agent}
use cardputer_zero_os.Agent.Events.{
  mark_changed, update_task, on_task, new_task, manager_toplevel, manager_finished, or_empty,
  handle_title, handle_app_id, handle_state, handle_done, handle_closed, set_states, clear_states,
  prune_closed, Event, dispatch,
}
use cardputer_zero_os.Agent.Events.Ids.{
  IdsBetween, IsValid, set_states-id, clear_states-id, is_open, prune_closed_lem,
  prune_closed-next_id,
}

-- The next id, and the window of each id.
abbrev pub View : Type 0
View = ℕ × (ℕ → Option Task)

abbrev pub lookup : List Task → ℕ → Option Task
lookup [] i = none
lookup (t ∷ ts) i = if t.id == i then some t else lookup ts i

abbrev pub view : Agent → View
view a = (a.next_id, lookup a.tasks)

abbrev map_some : (Task → Task) → Option Task → Option Task
map_some f none = none
map_some f (some t) = some (f t)

abbrev pub change : ℕ → (Task → Task) → View → View
change p f (n, v) = (n, λ i. if p == i then map_some f (v i) else v i)

-- A window is added under the next id; an event of a window changes the entry of its id, if there is
-- one, and no other.
abbrev pub on_view : View → Event → View
on_view v Event.seat_bound = v
on_view (n, v) (Event.toplevel handle) =
    (n + 1, λ i. if n == i then some (new_task n handle) else v i)
on_view v Event.finished = v
on_view v (Event.title_set p title) = change p (λ t. record t { title = or_empty title }) v
on_view v (Event.app_id_set p app_id) = change p (λ t. record t { app_id = or_empty app_id }) v
on_view v (Event.state_set p state) = change p (λ t. set_states state (clear_states t)) v
on_view v (Event.done p) = change p (λ t. record t { closed = false }) v
on_view v (Event.closed_by p) = change p (λ t. record t { closed = true }) v

abbrev open_only : Option Task → Option Task
open_only none = none
open_only (some t) = if t.closed then none else some t

-- The closed windows are forgotten.
abbrev pub forget_closed : View → View
forget_closed (n, v) = (n, λ i. open_only (v i))

pub IdsBetween-le : (lo hi : ℕ) (ts : List Task) → IdsBetween lo hi ts → lo ≤ hi
IdsBetween-le lo hi [] v = v
IdsBetween-le lo hi (t ∷ ts) (l, v) = omega (arith, IdsBetween-le (t.id + 1) hi ts v)

lookup-append :
    (ts : List Task) (t : Task) (lo hi i : ℕ)
    → IdsBetween lo hi ts
    → t.id ≡ hi
    → lookup (ts ++ t ∷ []) i ≡ (if hi == i then some t else lookup ts i)
lookup-append [] t lo hi i v e = rw e refl
lookup-append (u ∷ ts) t lo hi i (l, v) e =
    let rest = lookup-append ts t (u.id + 1) hi i v e in
    ground (arith, rest, IdsBetween-le (u.id + 1) hi ts v)

lookup-update_task :
    (p : ℕ) (f : Task → Task) (ts : List Task) (i : ℕ)
    → ((t : Task) → (f t).id ≡ t.id)
    → lookup (update_task p f ts) i ≡ (if p == i then map_some f (lookup ts i) else lookup ts i)
unfolding update_task
lookup-update_task p f [] i same = ground arith
lookup-update_task p f (t ∷ ts) i same =
    let rest = lookup-update_task p f ts i same in ground (arith, rest, same t)

-- An id below all the others is not there.
lookup-below : (ts : List Task) (lo hi i : ℕ) → IdsBetween lo hi ts → i < lo → lookup ts i ≡ none
lookup-below [] lo hi i v h = refl
lookup-below (t ∷ ts) lo hi i (l, v) h = ground (arith, lookup-below ts (t.id + 1) hi i v)

lookup-keep :
    (ts : List Task) (lo hi i : ℕ)
    → IdsBetween lo hi ts
    → lookup (keep is_open ts) i ≡ open_only (lookup ts i)
lookup-keep [] lo hi i v = refl
lookup-keep (t ∷ ts) lo hi i (l, v) =
    let rest = lookup-keep ts (t.id + 1) hi i v in
    ground (arith, rest, lookup-below ts (t.id + 1) hi i v)

on_task-view :
    (p : ℕ) (f : Task → Task) (a : Agent)
    → ((t : Task) → (f t).id ≡ t.id)
    → view (on_task p f a) ≡ change p f (view a)
unfolding on_task mark_changed
on_task-view p f a same =
    ap (λ v. (a.next_id, v)) (fun_ext λ i. lookup-update_task p f a.tasks i same)

pub dispatch-view : (a : Agent) (e : Event) → IsValid a → view (dispatch a e) ≡ on_view (view a) e
unfolding dispatch manager_toplevel manager_finished handle_title handle_app_id handle_state
    handle_done handle_closed mark_changed new_task
dispatch-view a Event.seat_bound v = refl
dispatch-view a (Event.toplevel handle) v =
    ap (λ f. (a.next_id + 1, f))
      (fun_ext λ i. lookup-append a.tasks (new_task a.next_id handle) 1 a.next_id i v refl)
dispatch-view a Event.finished v = refl
dispatch-view a (Event.title_set p title) v = on_task-view p _ a (λ t. refl)
dispatch-view a (Event.app_id_set p app_id) v = on_task-view p _ a (λ t. refl)
dispatch-view a (Event.state_set p state) v =
    on_task-view p _ a (λ t. set_states-id state (clear_states t) ∙ clear_states-id t)
dispatch-view a (Event.done p) v = on_task-view p _ a (λ t. refl)
dispatch-view a (Event.closed_by p) v = on_task-view p _ a (λ t. refl)

pub prune_closed-view : (a : Agent) → IsValid a → view (prune_closed a) ≡ forget_closed (view a)
prune_closed-view a v =
    ap₂ (λ n ts. (n, lookup ts)) (prune_closed-next_id a) (prune_closed_lem a).0
    ∙ ap (λ f. (a.next_id, f)) (fun_ext λ i. lookup-keep a.tasks 1 a.next_id i v)

-- The manager's last event ends the loop.
abbrev pub goes_on : Bool → Event → Bool
goes_on b Event.finished = false
goes_on b _ = b

pub dispatch-running : (a : Agent) (e : Event) → (dispatch a e).running ≡ goes_on a.running e
unfolding dispatch manager_toplevel manager_finished handle_title handle_app_id handle_state
    handle_done handle_closed on_task mark_changed
dispatch-running a Event.seat_bound = refl
dispatch-running a (Event.toplevel handle) = refl
dispatch-running a Event.finished = refl
dispatch-running a (Event.title_set p title) = refl
dispatch-running a (Event.app_id_set p app_id) = refl
dispatch-running a (Event.state_set p state) = refl
dispatch-running a (Event.done p) = refl
dispatch-running a (Event.closed_by p) = refl

pub prune_closed-running : (a : Agent) → (prune_closed a).running ≡ a.running
unfolding prune_closed mark_changed
prune_closed-running a = ground arith
