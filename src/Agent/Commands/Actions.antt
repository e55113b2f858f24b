-- ===== src/Agent/Commands/Actions.antt =====
-- What commands ask of the compositor, and for which task.
use cardputer_zero_os.Base.{
  ℕ, ◌≡◌, refl, ap, sym, ◌∙◌, inl, inr, Bool, true, false, List, [], ◌∷◌, ◌++◌, append_assoc,
  append-nil, Bytes, codes, if◌then◌else◌, All, All-append, str_eq, Bool-cases, Option-cases, arith,
}
use cardputer_zero_os.Agent.Wire.{split_tabs}
use cardputer_zero_os.Agent.State.{Task, Client, Agent, Request, request}
use cardputer_zero_os.Agent.Lookup.{find_task, active_task, shell_task}
use cardputer_zero_os.Agent.Lookup.Ids.{
  Any, IsOpenTask, find_task-IsOpenTask, active_task-IsOpenTask, shell_task-IsOpenTask,
}
use cardputer_zero_os.Agent.Commands.{
  activate, finish, task_action, task_command, focus_shell, active_is_shell, active_command,
  run_command, run_fields, handle_command,
}

-- The handle of an open task.
abbrev pub IsOpenHandle : List Task → ℕ → Type 0
IsOpenHandle ts h = Any (λ t. (t.closed ≡ false) × (t.handle ≡ h)) ts

-- A request that a command may make: it names an open task, and destroys nothing.
abbrev pub IsAllowed : List Task → Request → Type 0
IsAllowed ts (Request.activate h) = IsOpenHandle ts h
IsAllowed ts (Request.set_minimized h) = IsOpenHandle ts h
IsAllowed ts (Request.unset_minimized h) = IsOpenHandle ts h
IsAllowed ts (Request.close h) = IsOpenHandle ts h
IsAllowed ts (Request.destroy h) = ⊥
IsAllowed ts Request.flush = Unit {0}

-- `b` is `a` with allowed requests added.
pub record Extends (a b : Agent) : Type 0 where
  pub added : List Request
  pub requested : b.requests ≡ a.requests ++ added
  pub allowed : All (IsAllowed a.tasks) added
  pub same_tasks : b.tasks ≡ a.tasks
  pub same_next_id : b.next_id ≡ a.next_id
  pub same_running : b.running ≡ a.running

Extends-refl : (a : Agent) → Extends a a
Extends-refl a = record {
  added = [];
  requested = sym (append-nil a.requests);
  allowed = tt;
  same_tasks = refl;
  same_next_id = refl;
  same_running = refl;
}

Extends-request :
    (a b : Agent) (r : Request) → Extends a b → IsAllowed a.tasks r → Extends a (request b r)
unfolding request
Extends-request a b r x hr = record {
  added = x.added ++ r ∷ [];
  requested = ap (λ rs. rs ++ r ∷ []) x.requested ∙ append_assoc a.requests x.added (r ∷ []);
  allowed = All-append (IsAllowed a.tasks) x.added (r ∷ []) x.allowed (hr, tt);
  same_tasks = x.same_tasks;
  same_next_id = x.same_next_id;
  same_running = x.same_running;
}

IsOpenTask-IsOpenHandle : (ts : List Task) (t : Task) → IsOpenTask ts t → IsOpenHandle ts t.handle
IsOpenTask-IsOpenHandle [] t (h, m) = m
IsOpenTask-IsOpenHandle (u ∷ ts) t (h, inl e) = inl (rw e h, rw e refl)
IsOpenTask-IsOpenHandle (u ∷ ts) t (h, inr m) = inr (IsOpenTask-IsOpenHandle ts t (h, m))

module _ (a b : Agent) (c : Client) (command : Bytes) where
  Extends-activate :
      (t : Task) → Extends a b → IsOpenHandle a.tasks t.handle → Extends a (activate b t).0
  unfolding activate
  Extends-activate t x h = ground (arith, x, Extends-request a b (Request.activate t.handle) x h)

  Extends-finish : Extends a b → Extends a (finish b c command).0
  unfolding finish
  Extends-finish x = Extends-request a b Request.flush x tt

  -- An action that can fail ends with `ok` or with an error, and neither asks for more than a flush.
  Extends-ending :
      (done : Bool) (failed : Client)
      → Extends a b
      → Extends a (if done then finish b c command else (b, failed)).0
  Extends-ending true failed x = Extends-finish x
  Extends-ending false failed x = x

module _ (a : Agent) (c : Client) (command : Bytes) where
  -- One request about an open task, then the end of the action.
  Extends-finish-request :
      (r : Request) → IsAllowed a.tasks r → Extends a (finish (request a r) c command).0
  Extends-finish-request r hr =
      Extends-finish a (request a r) c command (Extends-request a a r (Extends-refl a) hr)

  Extends-try_activate :
      (t : Task) (failed : Client)
      → IsOpenHandle a.tasks t.handle
      → Extends a
          (let (b, done) = activate a t in if done then finish b c command else (b, failed)).0
  Extends-try_activate t failed h =
      Extends-ending a (activate a t).0 c command (activate a t).1 failed
        (Extends-activate a a c command t (Extends-refl a) h)

  Extends-restore :
      (t : Task)
      → IsOpenHandle a.tasks t.handle
      → Extends a (finish (activate (request a (Request.unset_minimized t.handle)) t).0 c command).0
  Extends-restore t h =
      let b = request a (Request.unset_minimized t.handle) in
      Extends-finish a (activate b t).0 c command (
        Extends-activate a b c command t
          (Extends-request a a (Request.unset_minimized t.handle) (Extends-refl a) h) h)

  Extends-task_action :
      (t : Task) → IsOpenHandle a.tasks t.handle → Extends a (task_action a c command t).0
  unfolding task_action
  Extends-task_action t h = elim (Bool-cases (str_eq command (codes "activate"))) [
    | inl e ↦ rw e (Extends-try_activate t _ h)
    | inr e ↦ rw e (elim (Bool-cases (str_eq command (codes "minimize"))) [
      | inl e ↦ rw e (Extends-finish-request (Request.set_minimized t.handle) h)
      | inr e ↦ rw e (elim (Bool-cases (str_eq command (codes "restore"))) [
        | inl e ↦ rw e (Extends-restore t h)
        | inr e ↦ rw e (Extends-finish-request (Request.close t.handle) h)
      ])
    ])
  ]

  Extends-task_command : (args : List Bytes) → Extends a (task_command a c command args).0
  unfolding task_command
  Extends-task_command [] = Extends-refl a
  Extends-task_command (id ∷ more) = elim (Option-cases (find_task a id)) [
    | inl e ↦ rw (e, task_command) (Extends-refl a)
    | inr (t, e) ↦
        rw (e, task_command)
          (Extends-task_action t
            (IsOpenTask-IsOpenHandle a.tasks t (find_task-IsOpenTask a t id e)))
  ]

  Extends-focus_shell : Extends a (focus_shell a c command).0
  unfolding focus_shell
  Extends-focus_shell = elim (Option-cases (shell_task a)) [
    | inl e ↦ rw (e, focus_shell) (Extends-refl a)
    | inr (t, e) ↦
        rw (e, focus_shell)
          (Extends-try_activate t _
            (IsOpenTask-IsOpenHandle a.tasks t (shell_task-IsOpenTask a t e)))
  ]

  Extends-active_is_shell : Extends a (active_is_shell a c command).0
  unfolding active_is_shell
  Extends-active_is_shell = elim (Option-cases (active_task a true)) [
    | inl e ↦ rw (e, active_is_shell) (Extends-refl a)
    | inr (t, e) ↦ rw (e, active_is_shell) (Extends-refl a)
  ]

  Extends-active_command : Extends a (active_command a c command).0
  unfolding active_command
  Extends-active_command = elim (Option-cases (active_task a false)) [
    | inl e ↦ rw (e, active_command) (Extends-refl a)
    | inr (t, e) ↦
        let h = IsOpenTask-IsOpenHandle a.tasks t (active_task-IsOpenTask a t false e) in
        rw (e, active_command)
          (elim (Bool-cases (str_eq command (codes "minimize-active"))) [
            | inl m ↦ rw m (Extends-finish-request (Request.set_minimized t.handle) h)
            | inr m ↦ rw m (Extends-finish-request (Request.close t.handle) h)
          ])
  ]

  Extends-run_command : (args : List Bytes) → Extends a (run_command a c command args).0
  unfolding run_command
  Extends-run_command args = ground (
    arith,
    Extends-refl a,
    Extends-task_command args,
    Extends-focus_shell,
    Extends-active_is_shell,
    Extends-active_command,
  )

-- Whatever line a client sends, the agent asks the compositor only to act on open tasks, destroys no
-- handle, and keeps its list of tasks and its next id.
pub handle_command-Extends :
    (a : Agent) (c : Client) (line : Bytes) → Extends a (handle_command a c line).0
unfolding handle_command
handle_command-Extends a c line = fields (split_tabs line)
  where
    fields : (fs : List Bytes) → Extends a (run_fields a c fs).0
    fields [] = Extends-refl a
    fields (command ∷ args) = ground (arith, Extends-refl a, Extends-run_command a c command args)
