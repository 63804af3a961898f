-- ===== src/Dispatcher/Progress.antt =====
-- How the records of leases change: what a lease keeps, and in which order its states follow.
pub mod Updates
pub mod Steps
pub mod System
use single_gpu_ai_services.Base.{
  ℕ, ◌≡◌, Bool, true, false, ◌||◌, Option, none, some, List, String, ltb, eqb,
}
use single_gpu_ai_services.Dispatcher.Lease.{
  LeaseState, queued, starting, active, stopping, released, cancelled, expired, failed, LeaseRecord,
  find,
}

-- A lease goes from `queued` through `starting`, `active` and `stopping` to a terminal state, and may
-- leave out some of them.
abbrev pub rank : LeaseState → ℕ
rank queued = 0
rank starting = 1
rank active = 2
rank stopping = 3
rank _ = 4

abbrev pub code : LeaseState → ℕ
code released = 4
code cancelled = 5
code expired = 6
code failed = 7
code s = rank s

-- `t` is `s` or a later state; a terminal state has no later one.
abbrev pub may_become : LeaseState → LeaseState → Bool
may_become s t = eqb (code s) (code t) || ltb (rank s) (rank t)

-- What a record keeps of an earlier one of its lease.
pub record Follows (r r' : LeaseRecord) : Type 0 where
  pub same_id : r'.request_id ≡ r.request_id
  pub same_service : r'.service ≡ r.service
  pub same_wait : r'.wait_timeout ≡ r.wait_timeout
  pub same_created : r'.created_at ≡ r.created_at
  pub same_deadline : r'.queue_deadline ≡ r.queue_deadline
  pub later : may_become r.state r'.state ≡ true

-- A lease may be forgotten, and none is made up.
abbrev pub Later : Option LeaseRecord → Option LeaseRecord → Type 0
Later none none = Unit
Later none (some r') = ⊥
Later (some r) none = Unit
Later (some r) (some r') = Follows r r'

abbrev pub Kept : List LeaseRecord → List LeaseRecord → Type 0
Kept rs rs' = (j : String) → Later (find j rs) (find j rs')
