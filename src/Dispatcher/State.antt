-- ===== src/Dispatcher/State.antt =====
-- The state of `GPUDispatcher`, its exceptions, and the helpers that every method shares.
--
-- A method is a function of the dispatcher to its result and the dispatcher afterwards: what it
-- wrote before it raised stays written. Each reading of the clock takes the next value of `clock`.
use single_gpu_ai_services.Base.{
  ℕ, suc, ◌+◌, Bool, true, false, not, ◌&&◌, Option, none, some, List, [], ◌∷◌, String, ◌==◌, ◌+++◌,
  if◌then◌else◌, leb, eqb, Result, ok, err, or_default,
}
use single_gpu_ai_services.Dispatcher.Lease.{LeaseState, is_terminal, LeaseRecord, put, pop_all}

pub data SystemState : Type 0 where
  reconciling ready degraded : SystemState

abbrev pub is_ready : SystemState → Bool
is_ready ready = true
is_ready _ = false

abbrev pub system_name : SystemState → String
system_name reconciling = "reconciling"
system_name ready = "ready"
system_name degraded = "degraded"

-- The constructor's arguments. `has_service` is that method of the engine manager.
pub record Config : Type 0 where
  pub has_service : String → Bool
  pub max_queue_wait : ℕ
  pub startup_timeout : ℕ
  pub active_timeout : ℕ
  pub cleanup_timeout : ℕ
  pub terminal_retention : ℕ
  pub max_records : ℕ
  pub clock : ℕ → ℕ

pub record Dispatcher : Type 0 where
  pub config : Config
  pub open config use *
  pub epoch : String
  pub reads : ℕ
  pub records : List LeaseRecord
  pub queue : List String
  pub current : Option String
  pub system_state : SystemState
  pub degraded_reason : Option String
  pub closed : Bool

-- The exception classes, and `ValueError` with what it is raised for.
pub data DispatcherError : Type 0 where
  not_ready : String → DispatcherError
  lease_conflict : String → DispatcherError
  lease_not_found : String → DispatcherError
  stale_epoch : String → String → DispatcherError
  unknown_service : String → DispatcherError
  bad_wait_timeout : DispatcherError
  not_positive : String → DispatcherError

abbrev pub Action : Type 0 → Type 0
Action A = Dispatcher → Result DispatcherError A × Dispatcher

abbrev pub pure : {A : Type 0} → A → Action A
pure a d = (ok a, d)

abbrev pub raise : {A : Type 0} → DispatcherError → Action A
raise e d = (err e, d)

infixl 5 ◌>>=◌ ◌>>◌
abbrev pub ◌>>=◌ : {A B : Type 0} → Action A → (A → Action B) → Action B
◌>>=◌ m f d = let (r, d') = m d in elim r [ ok a ↦ f a d' | err e ↦ (err e, d') ]

abbrev pub ◌>>◌ : {A B : Type 0} → Action A → Action B → Action B
m >> k = m >>= λ _. k

abbrev pub raise_if : Bool → DispatcherError → Action (Unit {0})
raise_if test e d = (if test then err e else ok tt, d)

abbrev pub gets : {A : Type 0} → (Dispatcher → A) → Action A
gets f d = (ok (f d), d)

abbrev pub modify : (Dispatcher → Dispatcher) → Action (Unit {0})
modify f d = (ok tt, f d)

-- `self._clock()`
abbrev pub read_clock : Action ℕ
read_clock d = (ok (d.clock d.reads), record d { reads = suc d.reads })

-- `value <= 0` of a constructor argument
abbrev pub require_positive :
    String → ℕ → Result DispatcherError (Unit {0}) → Result DispatcherError (Unit {0})
require_positive name value rest = if eqb value 0 then err (not_positive name) else rest

unfoldable pub validate_config : Config → Result DispatcherError (Unit {0})
validate_config c = require_positive "max_queue_wait" c.max_queue_wait (
    require_positive "startup_timeout" c.startup_timeout (
      require_positive "active_timeout" c.active_timeout (
        require_positive "cleanup_timeout" c.cleanup_timeout (
          require_positive "terminal_retention" c.terminal_retention
            (require_positive "max_records" c.max_records (ok tt))))))

-- The fields that `__init__` sets; `epoch` is the text of a fresh `uuid4`.
abbrev pub initial : Config → String → Dispatcher
initial c epoch = record {
  config = c;
  epoch = epoch;
  reads = 0;
  records = [];
  queue = [];
  current = none;
  system_state = reconciling;
  degraded_reason = none;
  closed = false;
}

-- `__init__`
unfoldable pub init : Config → String → Result DispatcherError Dispatcher
init c epoch = elim (validate_config c) [ err e ↦ err e | ok _ ↦ ok (initial c epoch) ]

-- `_validate_epoch`
abbrev pub validate_epoch : String → Action (Unit {0})
validate_epoch epoch d = raise_if (not (epoch == d.epoch)) (stale_epoch epoch d.epoch) d

-- `self._degraded_reason or f"..."`: the empty text counts as missing.
abbrev pub not_ready_reason : Dispatcher → String
not_ready_reason d =
    let given = or_default d.degraded_reason "" in
    if given == "" then "dispatcher is " +++ system_name d.system_state else given

-- `_require_ready`
abbrev pub require_ready : Action (Unit {0})
require_ready d = raise_if (not (is_ready d.system_state)) (not_ready (not_ready_reason d)) d

-- `_mark_terminal_locked`, on the record and the dictionary that holds it.
unfoldable pub mark_terminal : LeaseRecord → LeaseState → Dispatcher → Dispatcher
mark_terminal r target d = record d {
  records =
      put
        (record r { state = target; terminal_at = some (d.clock d.reads); active_deadline = none })
        d.records;
  reads = suc d.reads;
}

-- `request_id == self._current_request_id`
abbrev pub is_current : Option String → String → Bool
is_current none j = false
is_current (some k) j = j == k

-- `now - t >= retention`, which on signed numbers is `t + retention <= now`.
abbrev pub retained : Option ℕ → ℕ → ℕ → Bool
retained none retention now = false
retained (some t) retention now = leb (t + retention) now

-- The test of the comprehension in `_prune_terminal_locked`.
abbrev pub is_stale : ℕ → Dispatcher → LeaseRecord → Bool
is_stale now d r =
    is_terminal r.state
    && retained r.terminal_at d.terminal_retention now
    && not (is_current d.current r.request_id)

unfoldable pub stale_ids : ℕ → Dispatcher → List LeaseRecord → List String
stale_ids now d [] = []
stale_ids now d (r ∷ rs) =
    let rest = stale_ids now d rs in if is_stale now d r then r.request_id ∷ rest else rest

-- `_prune_terminal_locked(now)`
unfoldable pub prune : ℕ → Dispatcher → Dispatcher
prune now d = record d { records = pop_all (stale_ids now d d.records) d.records }

-- `_prune_terminal_locked()`, which reads the clock itself.
abbrev pub prune_now : Action (Unit {0})
prune_now d = (ok tt, prune (d.clock d.reads) (record d { reads = suc d.reads }))
