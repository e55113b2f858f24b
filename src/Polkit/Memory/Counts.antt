-- ===== src/Polkit/Memory/Counts.antt =====
-- The counters of what polkit-agent/zero-polkit-agent.c holds during an authentication.
use cardputer_zero_os.Base.{
  ℕ, suc, ◌+◌, Bool, ◌&&◌, Option, some, ◌>>=◌, as_count, less_one, Ledger, held_by,
}
use cardputer_zero_os.Polkit.Session.{AuthRequest}
use cardputer_zero_os.Polkit.Memory.{Resource, Uses, is_some}

-- How many of each kind are held.
pub record Counts : Type 0 where
  pub tasks : ℕ
  pub sessions : ℕ
  pub cancellables : ℕ
  pub handlers : ℕ
  pub identities : ℕ
  pub texts : ℕ
  pub requests : ℕ
  pub descriptors : ℕ

abbrev add_one : Resource → Counts → Counts
add_one Resource.task c = record c { tasks = suc c.tasks }
add_one Resource.session c = record c { sessions = suc c.sessions }
add_one Resource.cancellable c = record c { cancellables = suc c.cancellables }
add_one Resource.handler c = record c { handlers = suc c.handlers }
add_one Resource.identity c = record c { identities = suc c.identities }
add_one Resource.text c = record c { texts = suc c.texts }
add_one Resource.request c = record c { requests = suc c.requests }
add_one Resource.descriptor c = record c { descriptors = suc c.descriptors }

abbrev take_off : Resource → Counts → Option Counts
take_off Resource.task c = less_one c.tasks >>= λ n. some (record c { tasks = n })
take_off Resource.session c = less_one c.sessions >>= λ n. some (record c { sessions = n })
take_off Resource.cancellable c =
    less_one c.cancellables >>= λ n. some (record c { cancellables = n })
take_off Resource.handler c = less_one c.handlers >>= λ n. some (record c { handlers = n })
take_off Resource.identity c = less_one c.identities >>= λ n. some (record c { identities = n })
take_off Resource.text c = less_one c.texts >>= λ n. some (record c { texts = n })
take_off Resource.request c = less_one c.requests >>= λ n. some (record c { requests = n })
take_off Resource.descriptor c = less_one c.descriptors >>= λ n. some (record c { descriptors = n })

abbrev pub ledger : Ledger Resource Counts
ledger = record { add_one = add_one; take_off = take_off }

abbrev pub held : Uses → Counts → Option Counts
held = held_by ledger

abbrev pub nothing : Counts
nothing = record {
  tasks = 0;
  sessions = 0;
  cancellables = 0;
  handlers = 0;
  identities = 0;
  texts = 0;
  requests = 0;
  descriptors = 0;
}

-- What a request holds while its session runs, by whether it has a cancellable, a handler and an
-- information.
abbrev pub running : Bool → Bool → Bool → Counts
running has_cancellable connected has_info = record {
  tasks = 1;
  sessions = 1;
  cancellables = as_count has_cancellable;
  handlers = as_count (has_cancellable && connected);
  identities = 0;
  texts = 3 + as_count has_info;
  requests = 1;
  descriptors = 0;
}

abbrev pub held_of : AuthRequest → Bool → Counts
held_of auth connected = running auth.cancellable connected (is_some auth.info_text)
