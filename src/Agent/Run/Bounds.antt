-- ===== src/Agent/Run/Bounds.antt =====
-- The range of the ids of window-agent/zero-window-agent.cpp, which are of C's type int.
use cardputer_zero_os.Base.{
  ℕ, ◌+◌, ◌^◌, ◌≤◌, ◌<◌, ◌≡◌, ◌∙◌, sym, refl, ap, Bool, true, false, not, ◌&&◌, Option, none, some,
  List, [], ◌∷◌, All, if◌then◌else◌, arith,
}
use cardputer_zero_os.Agent.State.{Task}
use cardputer_zero_os.Agent.Events.{Event}
use cardputer_zero_os.Agent.Events.Ids.{IdsBetween}
use cardputer_zero_os.Agent.Events.View.{IdsBetween-le}
use cardputer_zero_os.Agent.Loop.{Server}
use cardputer_zero_os.Agent.Run.{Display, Poll, Round, Outcome, run, server}
use cardputer_zero_os.Agent.Run.Invariant.{IsSound, run-IsSound}
use cardputer_zero_os.Agent.Run.Watch.{
  Watch, watch, watch_event, watch_events, watch_head, watch_poll, watch_round, watch_then,
  watch_run, seen, run-seen,
}

-- How many windows are announced.
abbrev pub announced : List Event → ℕ
announced [] = 0
announced (Event.toplevel handle ∷ es) = 1 + announced es
announced (e ∷ es) = announced es

abbrev announced_poll : Poll → ℕ
announced_poll (Poll.ready (Display.dispatched es) accepts fds k) = announced es
announced_poll p = 0

abbrev pub announced_rounds : List Round → ℕ
announced_rounds [] = 0
announced_rounds (r ∷ rs) = announced r.pending + announced_poll r.poll + announced_rounds rs

abbrev pub next_of : Watch → ℕ
next_of (b, (n, v)) = n

pub watch_events-next_of :
    (w : Watch) (es : List Event) → next_of (watch_events w es) ≤ next_of w + announced es
watch_events-next_of w [] = omega arith
watch_events-next_of w (Event.seat_bound ∷ es) = watch_events-next_of w es
watch_events-next_of w (Event.toplevel handle ∷ es) =
    omega (arith, watch_events-next_of (watch_event w (Event.toplevel handle)) es)
watch_events-next_of w (Event.finished ∷ es) =
    watch_events-next_of (watch_event w Event.finished) es
watch_events-next_of w (Event.title_set p title ∷ es) =
    watch_events-next_of (watch_event w (Event.title_set p title)) es
watch_events-next_of w (Event.app_id_set p app_id ∷ es) =
    watch_events-next_of (watch_event w (Event.app_id_set p app_id)) es
watch_events-next_of w (Event.state_set p state ∷ es) =
    watch_events-next_of (watch_event w (Event.state_set p state)) es
watch_events-next_of w (Event.done p ∷ es) = watch_events-next_of (watch_event w (Event.done p)) es
watch_events-next_of w (Event.closed_by p ∷ es) =
    watch_events-next_of (watch_event w (Event.closed_by p)) es

watch_poll-next_of :
    (w : Watch) (p : Poll) → next_of (watch_poll w p).0 ≤ next_of w + announced_poll p
watch_poll-next_of w Poll.failed = omega arith
watch_poll-next_of w Poll.interrupted = omega arith
watch_poll-next_of w Poll.timed_out = omega arith
watch_poll-next_of w (Poll.ready (Display.broken display_error) accepts fds k) = omega arith
watch_poll-next_of w (Poll.ready Display.quiet accepts fds k) = omega arith
watch_poll-next_of w (Poll.ready (Display.dispatched es) accepts fds k) = watch_events-next_of w es

watch_round-next_of :
    (w : Watch) (r : Round)
    → next_of (watch_round w r).0 ≤ next_of w + (announced r.pending + announced_poll r.poll)
watch_round-next_of w r =
    let head = watch_events-next_of w r.pending in
    let poll = watch_poll-next_of (watch_head w r.pending) r.poll in
    by_test (w.0 && not r.signalled && not r.display_error) (omega (arith, head, poll))
  where
    by_test :
        (b : Bool)
        → next_of (watch_poll (watch_head w r.pending) r.poll).0
          ≤ next_of w + (announced r.pending + announced_poll r.poll)
        → next_of
            (if b
              then watch_poll (watch_head w r.pending) r.poll
              else (w, some (if r.display_error then 1 else 0))).0
          ≤ next_of w + (announced r.pending + announced_poll r.poll)
    by_test true h = h
    by_test false h = omega arith

watch_run-next_of :
    (w : Watch) (rs : List Round) → next_of (watch_run w rs).0 ≤ next_of w + announced_rounds rs
watch_run-next_of w [] = omega arith
watch_run-next_of w (r ∷ rs) =
    after (watch_round w r) (watch_round-next_of w r) (λ v. watch_run-next_of v rs)
  where
    after :
        (o : Watch × Option ℕ)
        → next_of o.0 ≤ next_of w + (announced r.pending + announced_poll r.poll)
        → ((v : Watch) → next_of (watch_run v rs).0 ≤ next_of v + announced_rounds rs)
        → next_of (watch_then (λ v. watch_run v rs) o).0 ≤ next_of w + announced_rounds (r ∷ rs)
    after (v, none) h more = omega (arith, more v)
    after (v, some code) h more = omega arith

seen-next_of : (o : Outcome) → next_of (seen o).0 ≡ (server o).agent.next_id
unfolding server
seen-next_of (Outcome.next s) = refl
seen-next_of (Outcome.exited code s) = refl

IdsBetween-below :
    (lo hi most : ℕ) (ts : List Task) → IdsBetween lo hi ts → hi ≤ most → All (λ t. t.id < most) ts
IdsBetween-below lo hi most [] v h = tt
IdsBetween-below lo hi most (t ∷ ts) (l, v) h =
    (omega (arith, IdsBetween-le (t.id + 1) hi ts v), IdsBetween-below (t.id + 1) hi most ts v h)

-- Every id, and the next one, fits C's type int.
abbrev pub FitsInt : Outcome → Type 0
FitsInt o = let a = (server o).agent in (a.next_id < 2 ^ 31) × All (λ t. t.id < 2 ^ 31) a.tasks

pub run-FitsInt :
    (s : Server) (rs : List Round)
    → IsSound s
    → s.agent.next_id + announced_rounds rs < 2 ^ 31
    → FitsInt (run s rs)
run-FitsInt s rs v few =
    let a = (server (run s rs)).agent in
    let same : a.next_id ≡ next_of (watch_run (watch s.agent) rs).0 =
      sym (seen-next_of (run s rs)) ∙ ap (λ o. next_of o.0) (run-seen s rs v) in
    let bound = watch_run-next_of (watch s.agent) rs in
    let small : a.next_id < 2 ^ 31 = omega (arith, same, bound) in
    (small, IdsBetween-below 1 a.next_id (2 ^ 31) a.tasks (run-IsSound s rs v).ids (omega arith))
