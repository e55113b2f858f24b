-- ===== src/Agent/Run/Watch.antt =====
-- What `run` of window-agent/zero-window-agent.cpp knows of the windows and how it ends, told by the
-- compositor's events alone.
use cardputer_zero_os.Base.{
  ℕ, ◌≡◌, ◌∙◌, refl, ap, Bool, true, false, not, ◌&&◌, Option, none, some, List, [], ◌∷◌,
  if◌then◌else◌, Bool-cases, inl, inr,
}
use mathlib.Core.Path.{ap₂}
use cardputer_zero_os.Agent.State.{Agent, Request, request}
use cardputer_zero_os.Agent.Events.{Event, dispatch, dispatch_all, prune_closed}
use cardputer_zero_os.Agent.Events.Ids.{IsValid, dispatch-IsValid, dispatch_all-IsValid}
use cardputer_zero_os.Agent.Events.View.{
  View, view, on_view, forget_closed, lookup, dispatch-view, prune_closed-view, goes_on,
  dispatch-running, prune_closed-running,
}
use cardputer_zero_os.Agent.Loop.{Server, refresh, announce}
use cardputer_zero_os.Agent.Run.{
  Display, Poll, Round, Outcome, leave, on_agent, serve_clients, after_poll, round, and_then, run,
  server,
}
use cardputer_zero_os.Agent.Run.Invariant.{IsSound, refresh-IsSound, round-IsSound}
use cardputer_zero_os.Agent.Run.Windows.{SameWindows, serve_clients-SameWindows}

-- Whether the loop is to go on, and the windows by their ids.
abbrev pub Watch : Type 0
Watch = Bool × View

abbrev pub watch : Agent → Watch
watch a = (a.running, view a)

abbrev pub watch_event : Watch → Event → Watch
watch_event (b, v) e = (goes_on b e, on_view v e)

abbrev pub watch_events : Watch → List Event → Watch
watch_events w [] = w
watch_events w (e ∷ es) = watch_events (watch_event w e) es

abbrev pub watch_head : Watch → List Event → Watch
watch_head w es = let (b, v) = watch_events w es in (b, forget_closed v)

-- With the exit status where the loop ends. Of a poll only what the display reports counts.
abbrev pub watch_poll : Watch → Poll → Watch × Option ℕ
watch_poll w Poll.failed = (w, some 1)
watch_poll w Poll.interrupted = (w, none)
watch_poll w Poll.timed_out = (w, none)
watch_poll w (Poll.ready (Display.broken display_error) accepts fds k) =
    (w, some (if display_error then 1 else 0))
watch_poll w (Poll.ready Display.quiet accepts fds k) = (w, none)
watch_poll w (Poll.ready (Display.dispatched events) accepts fds k) = (watch_events w events, none)

abbrev pub watch_round : Watch → Round → Watch × Option ℕ
watch_round (b, v) r =
    if b && not r.signalled && not r.display_error
    then watch_poll (watch_head (b, v) r.pending) r.poll
    else ((b, v), some (if r.display_error then 1 else 0))

abbrev pub watch_then : (Watch → Watch × Option ℕ) → Watch × Option ℕ → Watch × Option ℕ
watch_then f (w, none) = f w
watch_then f (w, some code) = (w, some code)

abbrev pub watch_run : Watch → List Round → Watch × Option ℕ
watch_run w [] = (w, none)
watch_run w (r ∷ rs) = watch_then (λ v. watch_run v rs) (watch_round w r)

-- An outcome without the clients and what was asked of the compositor.
abbrev pub seen : Outcome → Watch × Option ℕ
seen (Outcome.next s) = (watch s.agent, none)
seen (Outcome.exited code s) = (watch s.agent, some code)

pub dispatch_all-watch :
    (a : Agent) (es : List Event)
    → IsValid a
    → watch (dispatch_all a es) ≡ watch_events (watch a) es
unfolding dispatch_all
dispatch_all-watch a [] v = refl
dispatch_all-watch a (e ∷ es) v =
    dispatch_all-watch (dispatch a e) es (dispatch-IsValid a e v)
    ∙ ap (λ w. watch_events w es) (ap₂ (λ b u. (b, u)) (dispatch-running a e) (dispatch-view a e v))

SameWindows-watch : (a b : Agent) → SameWindows a b → watch b ≡ watch a
SameWindows-watch a b (t, n, r) = ap₂ (λ q w. (q, w)) r (ap₂ (λ m ts. (m, lookup ts)) n t)

announce-watch : (s : Server) (a : Agent) → watch (announce s a).agent ≡ watch a
unfolding announce
announce-watch s a = elim (Bool-cases a.changed) [ inl e ↦ rw e refl | inr e ↦ rw e refl ]

refresh-watch :
    (s : Server) (es : List Event)
    → IsValid s.agent
    → watch (refresh s es).agent ≡ watch_head (watch s.agent) es
unfolding refresh
refresh-watch s es v =
    let a = dispatch_all s.agent es in
    announce-watch s (prune_closed a)
    ∙ ap₂ (λ b u. (b, u)) (prune_closed-running a)
        (prune_closed-view a (dispatch_all-IsValid s.agent es v))
    ∙ ap (λ (w : Watch). (w.0, forget_closed w.1)) (dispatch_all-watch s.agent es v)

after_poll-seen :
    (s : Server) (p : Poll) → IsValid s.agent → seen (after_poll s p) ≡ watch_poll (watch s.agent) p
unfolding after_poll leave on_agent
after_poll-seen s Poll.failed v = refl
after_poll-seen s Poll.interrupted v = refl
after_poll-seen s Poll.timed_out v = refl
after_poll-seen s (Poll.ready (Display.broken display_error) accepts fds k) v = refl
after_poll-seen s (Poll.ready Display.quiet accepts fds k) v =
    ap (λ w. (w, none))
      (SameWindows-watch s.agent (serve_clients accepts fds k s).agent
        (serve_clients-SameWindows accepts fds k s))
after_poll-seen s (Poll.ready (Display.dispatched events) accepts fds k) v =
    let t = on_agent (λ a. dispatch_all a events) s in
    ap (λ w. (w, none))
      (SameWindows-watch t.agent (serve_clients accepts fds k t).agent
          (serve_clients-SameWindows accepts fds k t)
        ∙ dispatch_all-watch s.agent events v)

seen-if :
    (b : Bool) (x y : Outcome) (u w : Watch × Option ℕ)
    → seen x ≡ u
    → seen y ≡ w
    → seen (if b then x else y) ≡ (if b then u else w)
seen-if true x y u w e f = e
seen-if false x y u w e f = f

round-seen : (s : Server) (r : Round) → IsSound s → seen (round s r) ≡ watch_round (watch s.agent) r
unfolding round leave on_agent request
round-seen s r v =
    let t = on_agent (λ a. request a Request.flush) (refresh s r.pending) in
    let valid = (refresh-IsSound s r.pending v).ids in
    seen-if (s.agent.running && not r.signalled && not r.display_error) (after_poll t r.poll)
      (leave r.display_error s) _ _
      (after_poll-seen t r.poll valid
        ∙ ap (λ w. watch_poll w r.poll) (refresh-watch s r.pending v.ids))
      refl

then-seen :
    (f : Server → Outcome) (g : Watch → Watch × Option ℕ) (o : Outcome)
    → ((s : Server) → IsSound s → seen (f s) ≡ g (watch s.agent))
    → IsSound (server o)
    → seen (and_then f o) ≡ watch_then g (seen o)
unfolding and_then server
then-seen f g (Outcome.next s) same v = same s v
then-seen f g (Outcome.exited code s) same v = refl

pub run-seen :
    (s : Server) (rs : List Round) → IsSound s → seen (run s rs) ≡ watch_run (watch s.agent) rs
unfolding run
run-seen s [] v = refl
run-seen s (r ∷ rs) v =
    then-seen (λ t. run t rs) (λ w. watch_run w rs) (round s r) (λ t u. run-seen t rs u)
      (round-IsSound s r v)
    ∙ ap (watch_then (λ w. watch_run w rs)) (round-seen s r v)
