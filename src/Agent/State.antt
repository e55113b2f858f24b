-- ===== src/Agent/State.antt =====
-- The state of window-agent/zero-window-agent.cpp: `Task`, `Client`, `WindowAgent`, with the requests
-- that the agent has sent to the compositor as a list, oldest first.
use cardputer_zero_os.Base.{
  ℕ, Bool, ◌||◌, List, [], ◌∷◌, ◌++◌, Bytes, codes, is_empty, str_eq, if◌then◌else◌,
}

-- `owner` is the one agent. `handle` is the compositor's object. A `Task *` in a listener is named by
-- the task's `id`, which is unique.
pub record Task : Type 0 where
  pub id : ℕ
  pub handle : ℕ
  pub app_id : Bytes
  pub title : Bytes
  pub activated : Bool
  pub minimized : Bool
  pub maximized : Bool
  pub fullscreen : Bool
  pub closed : Bool

pub record Client : Type 0 where
  pub fd : ℕ
  pub subscribed : Bool
  pub input : Bytes
  pub output : Bytes

-- The calls of the generated protocol code, by the handle that they name, and `wl_display_flush`.
pub data Request : Type 0 where
  activate set_minimized unset_minimized close destroy : ℕ → Request
  flush : Request

-- `seat` says that `seat_` is set; `running` is `g_running`.
pub record Agent : Type 0 where
  pub seat : Bool
  pub next_id : ℕ
  pub changed : Bool
  pub running : Bool
  pub tasks : List Task
  pub requests : List Request

unfoldable pub request : Agent → Request → Agent
request a r = record a { requests = a.requests ++ r ∷ [] }

-- The lambda `add` of `state_string`.
add_name : Bool → Bytes → Bytes → Bytes
add_name flag name state =
    if flag then (if is_empty state then state else state ++ b',' ∷ []) ++ name else state

unfoldable pub state_string : Task → Bytes
unfolding add_name
state_string task = add_name task.fullscreen (codes "fullscreen") (
    add_name task.maximized (codes "maximized") (
      add_name task.minimized (codes "minimized") (add_name task.activated (codes "activated") [])))

unfoldable pub is_shell_task : Task → Bool
is_shell_task task =
    str_eq task.app_id (codes "cardputer-zero-shell")
    || str_eq task.title (codes "Cardputer Zero Shell")
