-- ===== src/Agent/Lookup.antt =====
-- `find_task`, `active_task` and `shell_task` of window-agent/zero-window-agent.cpp, with the part of
-- `std::strtol` that the first one uses.
pub mod Ids
use cardputer_zero_os.Base.{
  ℕ, ◌+◌, ◌-◌, ◌*◌, ◌^◌, min, Bool, true, false, not, ◌&&◌, ◌||◌, Option, none, some, List, [], ◌∷◌,
  Bytes, ltb, leb, ◌==◌, if◌then◌else◌, length, is_digit, is_empty, c_str,
}
use cardputer_zero_os.Agent.State.{Task, Agent, is_shell_task}

-- `for (auto &task : tasks_) if (test(task)) return task;`
unfoldable pub find_first : (Task → Bool) → List Task → Option Task
find_first test [] = none
find_first test (t ∷ ts) = if test t then some t else find_first test ts

abbrev pub is_space : ℕ → Bool
is_space c = c == 0x20 || leb 9 c && leb c 13

pub skip_space : Bytes → Bytes
skip_space [] = []
skip_space (c ∷ s) = if is_space c then skip_space s else c ∷ s

-- Whether there is a minus, and what follows the sign.
pub take_sign : Bytes → Bool × Bytes
take_sign [] = (false, [])
take_sign (c ∷ s) =
    if c == b'-' then (true, s) else if c == b'+' then (false, s) else (false, c ∷ s)

-- The value of the digits at the front, after `n`, and the rest.
pub take_digits : ℕ → Bytes → ℕ × Bytes
take_digits n [] = (n, [])
take_digits n (c ∷ s) = if is_digit c then take_digits (n * 10 + (c - b'0')) s else (n, c ∷ s)

pub starts_with_digit : Bytes → Bool
starts_with_digit [] = false
starts_with_digit (c ∷ s) = is_digit c

-- A result of `strtol`: the sign, the magnitude, and the text at `end`.
pub record Parsed : Type 0 where
  pub negative : Bool
  pub magnitude : ℕ
  pub end : Bytes

abbrev pub long_max : ℕ
long_max = 2 ^ 63 - 1

clamp_long : Bool → ℕ → ℕ
clamp_long negative n = min n (if negative then long_max + 1 else long_max)

-- Base ten. With no digit the value is 0 and `end` is the start.
pub strtol : Bytes → Parsed
unfolding skip_space take_sign take_digits starts_with_digit clamp_long
strtol s =
    let (negative, unsigned) = take_sign (skip_space s) in
    let (n, rest) = take_digits 0 unsigned in
    if starts_with_digit unsigned
    then record { negative = negative; magnitude = clamp_long negative n; end = rest }
    else record { negative = false; magnitude = 0; end = s }

-- `!end || *end || numeric <= 0`
pub is_refused : Parsed → Bool
is_refused r = not (is_empty r.end) || r.negative || r.magnitude == 0

pub find_numeric : Parsed → List Task → Option Task
unfolding find_first is_refused
find_numeric r tasks =
    if is_refused r then none else find_first (λ t. not t.closed && t.id == r.magnitude) tasks

-- `id.size() < 2` and `id[0] != 't'` by the clauses.
unfoldable pub find_task : Agent → Bytes → Option Task
unfolding find_numeric strtol c_str
find_task a [] = none
find_task a (c ∷ []) = none
find_task a (c ∷ d ∷ s) =
    if not (c == b't') then none else find_numeric (strtol (c_str (d ∷ s))) a.tasks

unfoldable pub active_task : Agent → Bool → Option Task
unfolding find_first
active_task a include_shell =
    find_first (λ t. not t.closed && t.activated && (include_shell || not (is_shell_task t)))
      a.tasks

unfoldable pub shell_task : Agent → Option Task
unfolding find_first
shell_task a = find_first (λ t. not t.closed && is_shell_task t) a.tasks
