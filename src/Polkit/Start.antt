-- ===== src/Polkit/Start.antt =====
-- `current_session_subject` and `main` of polkit-agent/zero-polkit-agent.c. What polkit and the
-- environment answer is given.
use cardputer_zero_os.Base.{
  ℕ, Bool, false, not, Option, none, some, Bytes, codes, if◌then◌else◌, is_empty, str_eq,
}

-- The session by its id, or that of the process itself.
pub data Subject : Type 0 where
  session : Bytes → Subject
  own_session : Subject

-- `g_getenv` of XDG_SESSION_ID and ZERO_POLKIT_AGENT_VERSION, whether WAYLAND_DISPLAY is set, and what
-- polkit does: whether the process has a session, and whether the agent is registered for a subject.
pub record Polkit : Type 0 where
  pub session_id : Option Bytes
  pub version : Option Bytes
  pub wayland : Bool
  pub has_session : Bool
  pub registers : Subject → Bool

unfoldable pub current_session_subject : Polkit → Option Subject
current_session_subject p = elim p.session_id [
  | none ↦ if p.has_session then some Subject.own_session else none
  | some id ↦
      if not (is_empty id)
      then some (Subject.session id)
      else if p.has_session
      then some Subject.own_session
      else none
]

-- `g_strcmp0(g_getenv(...), "1") == 0`
asks_version : Option Bytes → Bool
asks_version none = false
asks_version (some text) = str_eq text (codes "1")

register : Polkit → Option Subject → ℕ
register p none = 1
register p (some subject) = if p.registers subject then 0 else 1

-- The exit status; where it is 0 and no version was asked for, once the main loop has ended.
unfoldable pub agent_exit : Polkit → ℕ
unfolding current_session_subject asks_version register
agent_exit p =
    if asks_version p.version
    then 0
    else if not p.wayland
    then 1
    else register p (current_session_subject p)
