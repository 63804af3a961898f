-- ===== src/Dispatcher/Invariant.antt =====
-- What holds of the dispatcher's dictionary, queue and current lease whenever the lock is free.
pub mod Updates
pub mod Admit
pub mod Api
pub mod Queue
pub mod Frame
pub mod Worker
pub mod Outcomes
pub mod Run
use single_gpu_ai_services.Base.{
  ℕ, ◌≤◌, ◌≡◌, ◌⊎◌, Bool, true, false, ◌||◌, Option, none, some, List, String, is_some, contains,
  length,
}
use single_gpu_ai_services.Dispatcher.Lease.{
  LeaseState, starting, active, stopping, failed, is_terminal, is_queued, is_active, is_stopping,
  is_owner, LeaseRecord, find,
}
use single_gpu_ai_services.Dispatcher.Lease.Laws.{Distinct}
use single_gpu_ai_services.Dispatcher.State.{Dispatcher, is_ready, ready}
use single_gpu_ai_services.Dispatcher.System.{
  Phase, reconciling_engine, looping, starting_engine, stopping_engine, finished, crashed, System,
}

-- A target that a lease may be marked with at its end.
abbrev pub is_end : Option LeaseState → Bool
is_end none = true
is_end (some t) = is_terminal t

-- One record, given the current lease and the queue: an owner of the GPU is the current lease, a
-- queued lease stands in the queue, a lease that ended has the time of its end, an active one has a
-- deadline, and a stopping one has a target, which is terminal.
pub record LeaseOk (current : Option String) (queue : List String) (j : String) (r : LeaseRecord)
    : Type 0 where
  pub owner : is_owner r.state ≡ true → current ≡ some j
  pub waiting : is_queued r.state ≡ true → contains j queue ≡ true
  pub stamped : is_terminal r.state ≡ true → is_some r.terminal_at ≡ true
  pub timed : is_active r.state ≡ true → is_some r.active_deadline ≡ true
  pub aimed : is_stopping r.state ≡ true → is_some r.terminal_target ≡ true
  pub ends : is_end r.terminal_target ≡ true

pub record Good (current : Option String) (queue : List String) (limit : ℕ) (rs : List LeaseRecord)
    : Type 0 where
  pub leases : (j : String) (r : LeaseRecord) → find j rs ≡ some r → LeaseOk current queue j r
  pub bounded : length rs ≤ limit
  pub distinct : Distinct rs

-- The current lease has a record, whose state passes the test.
abbrev pub Holds : (LeaseState → Bool) → Option LeaseRecord → Type 0
Holds fit none = ⊥
Holds fit (some r) = fit r.state ≡ true

abbrev pub Held : (LeaseState → Bool) → Option String → List LeaseRecord → Type 0
Held fit current rs = (j : String) → current ≡ some j → Holds fit (find j rs)

abbrev pub is_starting : LeaseState → Bool
is_starting starting = true
is_starting _ = false

abbrev pub is_failed : LeaseState → Bool
is_failed failed = true
is_failed _ = false

abbrev pub resting : Bool → LeaseState → Bool
resting true s = is_active s || is_stopping s
resting false s = is_failed s || is_stopping s

-- The states of the current lease, by what the worker is doing and whether the system is ready.
abbrev pub fits : Phase → Bool → LeaseState → Bool
fits reconciling_engine is_up s = false
fits looping is_up s = resting is_up s
fits (starting_engine j) is_up s = is_starting s
fits (stopping_engine j) is_up s = is_stopping s
fits finished is_up s = resting is_up s
fits crashed is_up s = false

-- An engine call runs for the current lease of a ready system, no lease is current and the system is
-- not ready before the loop, and the worker never crashes.
abbrev pub Coherent : Phase → Dispatcher → Type 0
Coherent (starting_engine j) d = (d.current ≡ some j) × (is_ready d.system_state ≡ true)
Coherent (stopping_engine j) d = (d.current ≡ some j) × (is_ready d.system_state ≡ true)
Coherent reconciling_engine d = (d.current ≡ none) × (is_ready d.system_state ≡ false)
Coherent looping d = Unit
Coherent finished d = Unit
Coherent crashed d = ⊥

pub record IsValid (d : Dispatcher) (fit : LeaseState → Bool) : Type 0 where
  pub good : Good d.current d.queue d.max_records d.records
  pub held : Held fit d.current d.records

pub record Inv (s : System) : Type 0 where
  pub valid : IsValid s.dispatcher (fits s.phase (is_ready s.dispatcher.system_state))
  pub coherent : Coherent s.phase s.dispatcher
