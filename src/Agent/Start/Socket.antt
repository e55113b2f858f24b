-- ===== src/Agent/Start/Socket.antt =====
-- The socket and the state that `main` of window-agent/zero-window-agent.cpp starts with.
use cardputer_zero_os.Base.{
  ◌-◌, ◌<◌, ◌≡◌, ◌∙◌, refl, ap, Bool, true, false, not, Option, none, some, List, [], ◌∷◌, ◌++◌,
  Bytes, Lacks, leb, if_both, is_empty, length, take, take_all, str_eq, str_eq_refl, ◌==◌, ◌&&◌,
  ◌||◌, Bool-cases, inl, inr, c_str, arith,
}
use cardputer_zero_os.Agent.Run.{Round, Outcome, server}
use cardputer_zero_os.Agent.State.{Agent}
use cardputer_zero_os.Agent.Events.Ids.{IsValid, dispatch_all-IsValid}
use cardputer_zero_os.Agent.Run.Invariant.{IsSound, run-IsSound}
use cardputer_zero_os.Agent.Start.{
  Environment, socket_path, SocketCall, Answers, ensure_dir, before_slash, ensure_parent_dir,
  sun_path_size, sun_path, bind_socket, open_socket, init_socket, new_agent, Wayland, init_wayland,
  start_server, agent_main,
}

-- The socket is bound under the whole path, which is what is removed before, and is made the user's own
-- before anybody can connect to it. The flag says whether that was done.
abbrev pub IsRestricted : Bytes → Bool → List SocketCall → Type 0
IsRestricted path private [] = Unit
IsRestricted path private (SocketCall.mkdir dir ∷ calls) = IsRestricted path private calls
IsRestricted path private (SocketCall.chmod p mode ∷ calls) =
    IsRestricted path (mode == 0o600 && str_eq p path || private) calls
IsRestricted path private (SocketCall.socket ∷ calls) = IsRestricted path private calls
IsRestricted path private (SocketCall.unlink p ∷ calls) =
    (p ≡ path) × IsRestricted path private calls
IsRestricted path private (SocketCall.bind p ∷ calls) = (p ≡ path) × IsRestricted path false calls
IsRestricted path private (SocketCall.listen n ∷ calls) =
    (private ≡ true) × IsRestricted path private calls

c_str-Lacks : (s : Bytes) → Lacks 0 s → c_str s ≡ s
unfolding c_str
c_str-Lacks [] h = refl
c_str-Lacks (c ∷ s) (hc, h) = ground (arith, c_str-Lacks s h)

abbrev Restricted : Bytes → Bool × List SocketCall → Type 0
Restricted path (ok, calls) = IsRestricted path false calls

module _ (k : Answers) (path : Bytes) (h : Lacks 0 path) where
  bind_socket-IsRestricted : length path < sun_path_size → Restricted path (bind_socket k path)
  unfolding bind_socket sun_path
  bind_socket-IsRestricted short =
      let whole : take (sun_path_size - 1) (c_str path) ≡ path =
        ap (take (sun_path_size - 1)) (c_str-Lacks path h)
        ∙ take_all (sun_path_size - 1) path (omega arith) in
      let private : (str_eq (c_str path) path || false) ≡ true =
        rw (c_str-Lacks path h, str_eq_refl path) refl in
      if_both (Restricted path) (not k.bind_ok) _ _ (c_str-Lacks path h, (whole, tt))
        (if_both (Restricted path) (not k.listen_ok) _ _
          (c_str-Lacks path h, (whole, (private, tt))) (c_str-Lacks path h, (whole, (private, tt))))

  open_socket-IsRestricted : Restricted path (open_socket k path)
  unfolding open_socket
  open_socket-IsRestricted =
      if_both (Restricted path) (not k.socket_ok) _ _ tt
        (elim (Bool-cases (leb sun_path_size (length path))) [
          | inl e ↦ rw e tt
          | inr e ↦ rw e (bind_socket-IsRestricted (ground arith))
        ])

-- What is asked for the directory concerns no socket.
ensure_dir-IsRestricted :
    (k : Answers) (path : Bytes) (dir : Option Bytes) (more : List SocketCall)
    → IsRestricted path false more
    → IsRestricted path false ((ensure_dir k dir).1 ++ more)
      × IsRestricted path false (ensure_dir k dir).1
unfolding ensure_dir
ensure_dir-IsRestricted k path none more h = (h, tt)
ensure_dir-IsRestricted k path (some dir) more h =
    let P = λ (r : Bool × List SocketCall).
      IsRestricted path false (r.1 ++ more) × IsRestricted path false r.1 in
    if_both P (is_empty dir) _ _ (h, tt) (if_both P (k.mkdir_ok dir) _ _ (h, tt) (h, tt))

-- For a path without a NUL, as one from the environment is: the agent removes and binds nothing but the
-- whole path, also where it comes close to the limit of an address, and asks for the mode 0600 before it
-- listens.
pub init_socket-IsRestricted :
    (k : Answers) (env : Environment)
    → Lacks 0 (socket_path env)
    → IsRestricted (socket_path env) false (init_socket k env).1
unfolding init_socket ensure_parent_dir
init_socket-IsRestricted k env h =
    let path = socket_path env in
    let (both, own) =
      ensure_dir-IsRestricted k path (before_slash path) (open_socket k path).1
        (open_socket-IsRestricted k path h) in
    if_both (Restricted path) (is_empty path) _ _ tt
      (if_both (Restricted path) (ensure_parent_dir k path).0 _ _ both own)

-- The predicate where there is a result.
abbrev pub IsSoundOption : Option Outcome → Type 0
IsSoundOption none = Unit
IsSoundOption (some o) = IsSound (server o)

abbrev IsValidOption : Option Agent → Type 0
IsValidOption none = Unit
IsValidOption (some a) = IsValid a

init_wayland-IsValid : (wl : Wayland) → IsValidOption (init_wayland wl)
unfolding init_wayland
init_wayland-IsValid wl = if_both IsValidOption (not wl.connected) none _ tt (
    if_both IsValidOption (not wl.manager) none _ tt
      (dispatch_all-IsValid new_agent wl.events (omega arith)))

start_server-IsSound :
    (opened : Bool) (rounds : List Round) (o : Option Agent)
    → IsValidOption o
    → IsSoundOption (start_server opened rounds o)
unfolding start_server
start_server-IsSound opened rounds none v = tt
start_server-IsSound opened rounds (some a) v =
    if_both IsSoundOption opened _ none (run-IsSound _ rounds (record { ids = v; inputs = tt })) tt

-- From the start of the program on, whatever the compositor reports and whatever clients send, in any
-- number of rounds: the ids of tasks are positive and distinct, and no client's input holds a complete
-- line or more than 4096 bytes.
pub agent_main-IsSound :
    (wl : Wayland) (k : Answers) (env : Environment) (rounds : List Round)
    → IsSoundOption (agent_main wl k env rounds)
unfolding agent_main
agent_main-IsSound wl k env rounds =
    start_server-IsSound (init_socket k env).0 rounds (init_wayland wl) (init_wayland-IsValid wl)
