-- ===== src/Dispatcher/Worker.antt =====
-- The thread of `GPUDispatcher`: the body of the loop in `_run`, and what follows an engine call.
use single_gpu_ai_services.Base.{
  ℕ, suc, ◌+◌, Bool, true, false, ◌&&◌, Option, none, some, List, [], ◌∷◌, ◌++◌, String, ◌+++◌,
  if◌then◌else◌, leb, or_default,
}
use single_gpu_ai_services.Dispatcher.Time.{
  Float, whole, le_float, sub_time, min_float, max_float, min_list,
}
use single_gpu_ai_services.Dispatcher.Lease.{
  starting, active, stopping, released, cancelled, expired, failed, is_queued, is_active,
  is_stopping, LeaseRecord, find, put,
}
use single_gpu_ai_services.Dispatcher.State.{
  ready, degraded, is_ready, Dispatcher, mark_terminal, prune,
}

-- What one turn of the loop ends in: an engine call for a lease, a wait on the condition, the end of
-- the thread, or the `KeyError` of `self._records[self._current_request_id]`.
pub data Turn : Type 0 where
  start : LeaseRecord → Turn
  stop : LeaseRecord → Turn
  wait : Float → Turn
  exit : Turn
  key_error : Turn

-- `now >= record.queue_deadline`
abbrev pub is_due : ℕ → LeaseRecord → Bool
is_due now r = le_float r.queue_deadline (whole now)

-- The body of the loop in `_expire_queued_locked`.
unfoldable pub expire_one : ℕ → String → Dispatcher → Dispatcher
expire_one now j d = elim (find j d.records) [
  | none ↦ d
  | some r ↦ if is_queued r.state && is_due now r then mark_terminal r expired d else d
]

unfoldable pub expire_each : ℕ → List String → Dispatcher → Dispatcher
expire_each now [] d = d
expire_each now (j ∷ js) d = expire_each now js (expire_one now j d)

-- `_expire_queued_locked`
unfoldable pub expire_queued : ℕ → Dispatcher → Dispatcher
expire_queued now d = expire_each now d.queue d

-- `_next_queued_locked`, by recursion on the queue.
unfoldable pub next_from : ℕ → List String → Dispatcher → Option LeaseRecord × Dispatcher
next_from now [] d = (none, record d { queue = [] })
next_from now (j ∷ js) d = elim (find j d.records) [
  | none ↦ next_from now js d
  | some r ↦ elim (is_queued r.state) [
    | false ↦ next_from now js d
    | true ↦ elim (is_due now r) [
      | true ↦ next_from now js (mark_terminal r expired d)
      | false ↦ (some r, record d { queue = js })
    ]
  ]
]

unfoldable pub next_queued : ℕ → Dispatcher → Option LeaseRecord × Dispatcher
next_queued now d = next_from now d.queue d

-- The deadlines that `_next_wait_locked` gathers.
abbrev active_deadlines : Option LeaseRecord → List Float
active_deadlines none = []
active_deadlines (some r) = elim r.active_deadline [
  | none ↦ []
  | some t ↦ if is_active r.state then whole t ∷ [] else []
]

current_record : Dispatcher → Option LeaseRecord
current_record d = elim d.current [ none ↦ none | some j ↦ find j d.records ]

queue_deadlines : List String → Dispatcher → List Float
queue_deadlines [] d = []
queue_deadlines (j ∷ js) d =
    let rest = queue_deadlines js d in
    elim (find j d.records) [
      | none ↦ rest
      | some r ↦ if is_queued r.state then r.queue_deadline ∷ rest else rest
    ]

abbrev bounded_wait : ℕ → List Float → Float
bounded_wait now [] = whole 50000
bounded_wait now (f ∷ fs) =
    max_float (whole 1000) (min_float (whole 50000) (sub_time (min_list f fs) now))

-- `_next_wait_locked`: 0.05 s, or less when a deadline comes first, and never below 0.001 s.
pub next_wait : ℕ → Dispatcher → Float
unfolding current_record queue_deadlines
next_wait now d =
    bounded_wait now (active_deadlines (current_record d) ++ queue_deadlines d.queue d)

-- An active lease whose deadline has passed.
abbrev pub is_overdue : ℕ → LeaseRecord → Bool
is_overdue now r = elim r.active_deadline [ none ↦ false | some t ↦ is_active r.state && leb t now ]

abbrev pub stop_or_wait : ℕ → LeaseRecord → Dispatcher → Turn × Dispatcher
stop_or_wait now r d = (if is_stopping r.state then stop r else wait (next_wait now d), d)

-- The branch of the loop with a current lease.
unfoldable pub tend : ℕ → String → Dispatcher → Turn × Dispatcher
tend now j d = elim (find j d.records) [
  | none ↦ (key_error, d)
  | some r ↦
      if is_overdue now r
      then (let r' = record r { state = stopping; terminal_target = some expired } in
          stop_or_wait now r' (record d { records = put r' d.records }))
      else stop_or_wait now r d
]

abbrev pub begin : ℕ → Option LeaseRecord × Dispatcher → Turn × Dispatcher
begin now (none, d) = (wait (next_wait now d), d)
begin now (some r, d) =
    let r' = record r { state = starting } in
    (start r', record d { records = put r' d.records; current = some r.request_id })

-- The branch of the loop without one.
unfoldable pub pick : ℕ → Dispatcher → Turn × Dispatcher
pick now d = begin now (next_queued now d)

unfoldable pub serve : ℕ → Dispatcher → Turn × Dispatcher
serve now d =
    if is_ready d.system_state
    then (elim d.current [ some j ↦ tend now j d | none ↦ pick now d ])
    else (wait (whole 50000), d)

unfoldable pub tidy : ℕ → Dispatcher → Dispatcher
tidy now d = prune now (expire_queued now d)

-- One turn of the `while` loop.
unfoldable pub turn : Dispatcher → Turn × Dispatcher
turn d =
    if d.closed
    then (exit, d)
    else (let now = d.clock d.reads in serve now (tidy now (record d { reads = suc d.reads })))

-- How a call of the engine manager ended: it returned, it raised `EngineCleanupError`, or it raised
-- another exception.
pub data EngineOutcome : Type 0 where
  done : EngineOutcome
  cleanup_error : String → EngineOutcome
  engine_error : String → EngineOutcome

-- `_run` up to the loop: the call of `reconcile`.
unfoldable pub reconciled : EngineOutcome → Dispatcher → Dispatcher
reconciled done d = record d { system_state = ready }
reconciled (cleanup_error e) d = record d {
  system_state = degraded;
  degraded_reason = some ("reconciliation failed: " +++ e);
}
reconciled (engine_error e) d = record d {
  system_state = degraded;
  degraded_reason = some ("reconciliation failed: " +++ e);
}

abbrev pub begin_service : LeaseRecord → Dispatcher → Dispatcher
begin_service r d =
    if r.cancel_requested
    then (record d {
      records =
          put
            (record r {
              state = stopping;
              terminal_target = some (or_default r.terminal_target cancelled);
            })
            d.records;
    })
    else (record d {
      records =
          put
            (record r {
              state = active;
              active_deadline = some (d.clock d.reads + d.active_timeout);
            })
            d.records;
      reads = suc d.reads;
    })

unfoldable pub started_record : EngineOutcome → LeaseRecord → Dispatcher → Dispatcher
started_record done r d = begin_service r d
started_record (cleanup_error e) r d =
    record (mark_terminal (record r { error = some e }) failed d) {
      system_state = degraded;
      degraded_reason = some ("startup cleanup uncertain for " +++ (r.request_id +++ (": " +++ e)));
    }
started_record (engine_error e) r d =
    record (mark_terminal (record r { error = some e }) failed d) { current = none }

-- `_perform_start` after the engine call, on the record with the identifier `j`.
unfoldable pub started : EngineOutcome → String → Dispatcher → Dispatcher
started o j d = elim (find j d.records) [ none ↦ d | some r ↦ started_record o r d ]

unfoldable pub cleanup_failed : String → LeaseRecord → Dispatcher → Dispatcher
cleanup_failed e r d = record d {
  records = put (record r { error = some e }) d.records;
  system_state = degraded;
  degraded_reason = some ("cleanup failed for " +++ (r.request_id +++ (": " +++ e)));
}

unfoldable pub stopped_record : EngineOutcome → LeaseRecord → Dispatcher → Dispatcher
stopped_record done r d = record (mark_terminal r (or_default r.terminal_target released) d) {
  current = none;
}
stopped_record (cleanup_error e) r d = cleanup_failed e r d
stopped_record (engine_error e) r d = cleanup_failed e r d

-- `_perform_stop` after the engine call.
unfoldable pub stopped : EngineOutcome → String → Dispatcher → Dispatcher
stopped o j d = elim (find j d.records) [ none ↦ d | some r ↦ stopped_record o r d ]
