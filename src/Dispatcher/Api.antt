-- ===== src/Dispatcher/Api.antt =====
-- The methods of `GPUDispatcher` that the HTTP application calls.
use single_gpu_ai_services.Base.{
  ℕ, Bool, true, false, not, ◌&&◌, ◌||◌, Option, none, some, [], ◌∷◌, ◌++◌, String, ◌==◌,
  if◌then◌else◌, leb, length, ok,
}
use single_gpu_ai_services.Dispatcher.Time.{Float, whole, le_float, lt_float, eq_float, add_time}
use single_gpu_ai_services.Dispatcher.Lease.{
  LeaseState, queued, starting, active, stopping, released, cancelled, is_terminal, LeaseRecord,
  Snapshot, snapshot, find, put,
}
use single_gpu_ai_services.Dispatcher.State.{
  is_ready, system_name, Dispatcher, not_ready, lease_conflict, lease_not_found, unknown_service,
  bad_wait_timeout, Action, pure, raise, ◌>>=◌, ◌>>◌, raise_if, gets, read_clock, validate_epoch,
  require_ready, mark_terminal, prune_now,
}

abbrev pub protocol_version : ℕ
protocol_version = 2

-- What `ready` returns.
pub record Readiness : Type 0 where
  pub ready : Bool
  pub state : String
  pub epoch : String
  pub protocol : ℕ
  pub reason : Option String

-- `"busy" if self._current_request_id else "idle"`: the empty text is false in Python.
abbrev pub activity : Option String → String
activity none = "idle"
activity (some j) = if j == "" then "idle" else "busy"

unfoldable pub readiness : Dispatcher → Readiness
readiness d =
    if is_ready d.system_state
    then record {
      ready = true;
      state = activity d.current;
      epoch = d.epoch;
      protocol = protocol_version;
      reason = none;
    }
    else record {
      ready = false;
      state = system_name d.system_state;
      epoch = d.epoch;
      protocol = protocol_version;
      reason = d.degraded_reason;
    }

abbrev pub registry_full : Action (Unit {0})
registry_full d =
    raise_if (leb d.max_records (length d.records)) (not_ready "lease registry is full") d

-- A repeated `submit` of an identifier that has a record.
unfoldable pub resubmit : String → Float → LeaseRecord → Action Snapshot
resubmit service wait_timeout r = do
  raise_if (not (r.service == service)) (lease_conflict r.request_id)
  raise_if (not (is_terminal r.state) && not (eq_float r.wait_timeout wait_timeout))
      (lease_conflict r.request_id)
  pure (snapshot r)

abbrev pub new_lease : String → String → Float → ℕ → LeaseRecord
new_lease service request_id wait_timeout now = record {
  request_id = request_id;
  service = service;
  wait_timeout = wait_timeout;
  created_at = now;
  queue_deadline = add_time now wait_timeout;
  state = queued;
  cancel_requested = false;
  terminal_target = none;
  active_deadline = none;
  terminal_at = none;
  error = none;
}

abbrev pub enqueue : LeaseRecord → Action Snapshot
enqueue r d =
    (ok (snapshot r), record d { records = put r d.records; queue = d.queue ++ r.request_id ∷ [] })

unfoldable pub admit : String → String → Float → Action Snapshot
admit service request_id wait_timeout = do
  prune_now
  registry_full
  now ← read_clock
  enqueue (new_lease service request_id wait_timeout now)

-- `wait_timeout <= 0 or wait_timeout > self.max_queue_wait`
abbrev pub is_bad_wait : ℕ → Float → Bool
is_bad_wait limit w = le_float w (whole 0) || lt_float (whole limit) w

unfoldable pub submit : String → String → String → Float → Action Snapshot
submit service request_id epoch wait_timeout = do
  validate_epoch epoch
  require_ready
  known ← gets (λ d. d.has_service service)
  raise_if (not known) (unknown_service service)
  limit ← gets (λ d. d.max_queue_wait)
  raise_if (is_bad_wait limit wait_timeout) bad_wait_timeout
  existing ← gets (λ d. find request_id d.records)
  elim existing [
    | some r ↦ resubmit service wait_timeout r
    | none ↦ admit service request_id wait_timeout
  ]

unfoldable pub get_lease : String → String → Action Snapshot
get_lease request_id epoch = do
  validate_epoch epoch
  found ← gets (λ d. find request_id d.records)
  elim found [ none ↦ raise (lease_not_found request_id) | some r ↦ pure (snapshot r) ]

-- The record that `cancel` leaves for an identifier that was never admitted.
abbrev pub tombstone : String → String → ℕ → LeaseRecord
tombstone service request_id now =
    let r = new_lease service request_id (whole 0) now in
    record r { queue_deadline = whole now; state = cancelled; terminal_at = some now }

-- `terminal_target != "cancelled"`
abbrev pub is_cancel : LeaseState → Bool
is_cancel cancelled = true
is_cancel _ = false

abbrev pub store : LeaseRecord → Action Snapshot
store r d = (ok (snapshot r), record d { records = put r d.records })

unfoldable pub stop_unknown : String → String → LeaseState → Action Snapshot
stop_unknown service request_id target = do
  raise_if (not (is_cancel target)) (lease_not_found request_id)
  known ← gets (λ d. d.has_service service)
  raise_if (not known) (unknown_service service)
  prune_now
  registry_full
  now ← read_clock
  store (tombstone service request_id now)

-- `if record.terminal_target is None: record.terminal_target = target`
abbrev pub default_target : Option LeaseState → LeaseState → Option LeaseState
default_target none target = some target
default_target (some t) target = some t

-- The `if` chain over the record's state, up to the snapshot.
unfoldable pub stop_known : LeaseState → LeaseState → LeaseRecord → Action Snapshot
stop_known queued target r d =
    (ok (snapshot (record r { state = target })), mark_terminal r target d)
stop_known starting target r d =
    store (record r { cancel_requested = true; terminal_target = some target }) d
stop_known active target r d =
    store (record r { state = stopping; terminal_target = some target }) d
stop_known stopping target r d =
    store (record r { terminal_target = default_target r.terminal_target target }) d
stop_known _ target r d = (ok (snapshot r), d)

-- `_request_stop`
unfoldable pub request_stop : String → String → String → LeaseState → Action Snapshot
request_stop service request_id epoch target = do
  validate_epoch epoch
  found ← gets (λ d. find request_id d.records)
  elim found [
    | none ↦ stop_unknown service request_id target
    | some r ↦ do
      raise_if (not (r.service == service)) (lease_conflict r.request_id)
      stop_known r.state target r
  ]

unfoldable pub release : String → String → String → Action Snapshot
release service request_id epoch = request_stop service request_id epoch released

unfoldable pub cancel : String → String → String → Action Snapshot
cancel service request_id epoch = request_stop service request_id epoch cancelled

-- `close`, up to the wait for the worker.
unfoldable pub close : Dispatcher → Dispatcher
close d = record d { closed = true }
