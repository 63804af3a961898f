-- ===== src/Dispatcher/Lease.antt =====
-- `LeaseRecord`, its states, and the dictionary of records of dispatcher/dispatcher.py.
--
-- A record stands in the dictionary under its own `request_id`, so the dictionary is the list of
-- its records in insertion order. A record is mutated through the dictionary: `put` writes it back.
pub mod Laws
use single_gpu_ai_services.Base.{
  ℕ, Bool, true, false, Option, none, some, List, [], ◌∷◌, String, ◌==◌, if◌then◌else◌,
}
use single_gpu_ai_services.Dispatcher.Time.{Float}

pub data LeaseState : Type 0 where
  queued starting active stopping released cancelled expired failed : LeaseState

-- `state in TERMINAL_STATES`
abbrev pub is_terminal : LeaseState → Bool
is_terminal released = true
is_terminal cancelled = true
is_terminal expired = true
is_terminal failed = true
is_terminal _ = false

abbrev pub is_queued : LeaseState → Bool
is_queued queued = true
is_queued _ = false

abbrev pub is_active : LeaseState → Bool
is_active active = true
is_active _ = false

abbrev pub is_stopping : LeaseState → Bool
is_stopping stopping = true
is_stopping _ = false

-- The states in which a record owns the GPU.
abbrev pub is_owner : LeaseState → Bool
is_owner starting = true
is_owner active = true
is_owner stopping = true
is_owner _ = false

pub record LeaseRecord : Type 0 where
  pub request_id : String
  pub service : String
  pub wait_timeout : Float
  pub created_at : ℕ
  pub queue_deadline : Float
  pub state : LeaseState
  pub cancel_requested : Bool
  pub terminal_target : Option LeaseState
  pub active_deadline : Option ℕ
  pub terminal_at : Option ℕ
  pub error : Option String

-- The dictionary that `_snapshot` returns.
pub record Snapshot : Type 0 where
  pub request_id : String
  pub service : String
  pub state : LeaseState
  pub error : Option String

abbrev pub snapshot : LeaseRecord → Snapshot
snapshot r = record {
  request_id = r.request_id;
  service = r.service;
  state = r.state;
  error = r.error;
}

-- `records.get(id)`
unfoldable pub find : String → List LeaseRecord → Option LeaseRecord
find j [] = none
find j (r ∷ rs) = if r.request_id == j then some r else find j rs

-- `records[r.request_id] = r`
unfoldable pub put : LeaseRecord → List LeaseRecord → List LeaseRecord
put r [] = r ∷ []
put r (s ∷ rs) = if s.request_id == r.request_id then r ∷ rs else s ∷ put r rs

-- `records.pop(id, None)`
unfoldable pub pop : String → List LeaseRecord → List LeaseRecord
pop j [] = []
pop j (r ∷ rs) = let rest = pop j rs in if r.request_id == j then rest else r ∷ rest

unfoldable pub pop_all : List String → List LeaseRecord → List LeaseRecord
unfolding pop
pop_all [] rs = rs
pop_all (j ∷ js) rs = pop_all js (pop j rs)
