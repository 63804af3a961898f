-- ===== src/Dispatcher/Invariant/Outcomes.antt =====
-- Proofs about the ends of engine calls in dispatcher/dispatcher.py and the invariant.
use single_gpu_ai_services.Base.{
  ◌≡◌, refl, inl, inr, Bool, true, false, ◌||◌, Option, none, some, String, arith, ◌==◌, eq_iff,
  is_some, Bool-cases, Option-cases, suc, or_default, ◌+◌,
}
use single_gpu_ai_services.Dispatcher.Lease.{
  LeaseState, active, stopping, released, cancelled, failed, is_terminal, is_stopping, LeaseRecord,
  find, put,
}
use single_gpu_ai_services.Dispatcher.Lease.Laws.{find-key, find-put, length-put, put-Distinct}
use single_gpu_ai_services.Dispatcher.State.{Dispatcher, is_ready, degraded, mark_terminal}
use single_gpu_ai_services.Dispatcher.Worker.{
  EngineOutcome, done, cleanup_error, engine_error, begin_service, started_record, started,
  stopped_record, stopped, cleanup_failed,
}
use single_gpu_ai_services.Dispatcher.System.{System, looping}
use single_gpu_ai_services.Dispatcher.Invariant.{
  LeaseOk, Good, IsValid, Inv, resting, is_end, is_starting, is_failed,
}
use single_gpu_ai_services.Dispatcher.Invariant.Api.{found-facts, write_current-IsValid}

-- A lease that ended under a new test for the current lease, or with no current lease.
ended-Good :
    (d : Dispatcher) (r : LeaseRecord) (target : LeaseState) (fit : LeaseState → Bool)
    → d.current ≡ some r.request_id
    → is_terminal target ≡ true
    → is_some (find r.request_id d.records) ≡ true
    → is_end r.terminal_target ≡ true
    → IsValid d fit
    → Good none d.queue d.max_records (mark_terminal r target d).records
unfolding mark_terminal
ended-Good d r target fit c t known ends v = record {
  leases = λ j s f. elim (Bool-cases (r.request_id == j)) [
    | inl same ↦ ground (arith, find-put j ended d.records, eq_iff r.request_id j)
    | inr other ↦
        let g : find j d.records ≡ some s = ground (arith, find-put j ended d.records) in
        ground (arith, v.good.leases j s g, eq_iff r.request_id j)
  ];
  bounded = ground (arith, length-put ended d.records, v.good.bounded);
  distinct = put-Distinct ended d.records v.good.distinct;
}
  where
    ended : LeaseRecord
    ended = record r {
      state = target;
      terminal_at = some (d.clock d.reads);
      active_deadline = none;
    }

pub begin_service_cases :
    (P : Dispatcher → Type 0) (r : LeaseRecord) (d : Dispatcher)
    → P (record d {
      records =
          put
            (record r {
              state = stopping;
              terminal_target = some (or_default r.terminal_target cancelled);
            })
            d.records;
    })
    → P (record d {
      records =
          put
            (record r {
              state = active;
              active_deadline = some (d.clock d.reads + d.active_timeout);
            })
            d.records;
      reads = suc d.reads;
    })
    → P (begin_service r d)
begin_service_cases P r d stops serves = ground arith

-- The facts about the current lease that an engine call was made for.
record Current (d : Dispatcher) (fit : LeaseState → Bool) (r : LeaseRecord) : Type 0 where
  valid : IsValid d fit
  is_up : is_ready d.system_state ≡ true
  owns : d.current ≡ some r.request_id
  known : is_some (find r.request_id d.records) ≡ true
  fine : LeaseOk d.current d.queue r.request_id r
  passes : fit r.state ≡ true

current_facts :
    (fit : LeaseState → Bool) (j : String) (r : LeaseRecord) (d : Dispatcher)
    → find j d.records ≡ some r
    → d.current ≡ some j
    → is_ready d.system_state ≡ true
    → IsValid d fit
    → Current d fit r
current_facts fit j r d e c up v =
    let (fine, known, passes) = found-facts fit d j r e v in
    let own : d.current ≡ some r.request_id = ground (arith, find-key j d.records e) in
    record { valid = v; is_up = up; owns = own; known = known; fine = fine; passes = passes own }

abbrev pub resting_system : Dispatcher → System
resting_system d = record { dispatcher = d; phase = looping }

begin_service-Inv :
    (r : LeaseRecord) (d : Dispatcher)
    → Current d is_starting r
    → Inv (resting_system (begin_service r d))
begin_service-Inv r d f =
    begin_service_cases (λ t. Inv (resting_system t)) r d
      (record {
        valid = rw f.is_up (
            write_current-IsValid is_starting (resting true) d
              (record r {
                state = stopping;
                terminal_target = some (or_default r.terminal_target cancelled);
              })
              f.owns f.known (ground (arith, f.fine)) refl f.valid);
        coherent = tt;
      })
      (record {
        valid = rw f.is_up (
            write_current-IsValid is_starting (resting true) (record d { reads = suc d.reads })
              (record r {
                state = active;
                active_deadline = some (d.clock d.reads + d.active_timeout);
              })
              f.owns f.known (ground (arith, f.fine)) refl
              (record { good = f.valid.good; held = f.valid.held }));
        coherent = tt;
      })

-- The system is degraded while the lease of the failed call stays current.
failed-Inv :
    (fit : LeaseState → Bool) (r : LeaseRecord) (d : Dispatcher) (reason : Option String)
    → d.current ≡ some r.request_id
    → is_some (find r.request_id d.records) ≡ true
    → LeaseOk d.current d.queue r.request_id r
    → (is_failed r.state || is_stopping r.state) ≡ true
    → IsValid d fit
    → Inv (
        resting_system (record d {
          records = put r d.records;
          system_state = degraded;
          degraded_reason = reason;
        }))
failed-Inv fit r d reason own known fine s v =
    let w = write_current-IsValid fit (resting false) d r own known fine s v in
    record { valid = record { good = w.good; held = w.held }; coherent = tt }

-- No lease is current any more.
freed-Inv :
    (fit : LeaseState → Bool) (r : LeaseRecord) (target : LeaseState) (d : Dispatcher)
    → d.current ≡ some r.request_id
    → is_terminal target ≡ true
    → is_some (find r.request_id d.records) ≡ true
    → is_end r.terminal_target ≡ true
    → IsValid d fit
    → Inv (resting_system (record (mark_terminal r target d) { current = none }))
unfolding mark_terminal
freed-Inv fit r target d own t known ends v = record {
  valid = record { good = ended-Good d r target fit own t known ends v; held = λ j c. cc };
  coherent = tt;
}

started_record-Inv :
    (o : EngineOutcome) (r : LeaseRecord) (d : Dispatcher)
    → Current d is_starting r
    → Inv (resting_system (started_record o r d))
unfolding started_record mark_terminal
started_record-Inv done r d f = begin_service-Inv r d f
started_record-Inv (cleanup_error x) r d f =
    failed-Inv is_starting
      (record r {
        error = some x;
        state = failed;
        terminal_at = some (d.clock d.reads);
        active_deadline = none;
      })
      (record d { reads = suc d.reads }) _ f.owns f.known (ground (arith, f.fine)) refl
      (record { good = f.valid.good; held = f.valid.held })
started_record-Inv (engine_error x) r d f =
    freed-Inv is_starting (record r { error = some x }) failed d f.owns refl f.known f.fine.ends
      f.valid

or_default-ends :
    (o : Option LeaseState) → is_end o ≡ true → is_terminal (or_default o released) ≡ true
or_default-ends none h = refl
or_default-ends (some t) h = h

cleanup_failed-Inv :
    (x : String) (r : LeaseRecord) (d : Dispatcher)
    → Current d is_stopping r
    → Inv (resting_system (cleanup_failed x r d))
unfolding cleanup_failed
cleanup_failed-Inv x r d f =
    failed-Inv is_stopping (record r { error = some x }) d _ f.owns f.known (ground (arith, f.fine))
      (ground (arith, f.passes)) f.valid

stopped_record-Inv :
    (o : EngineOutcome) (r : LeaseRecord) (d : Dispatcher)
    → Current d is_stopping r
    → Inv (resting_system (stopped_record o r d))
unfolding stopped_record
stopped_record-Inv done r d f =
    freed-Inv is_stopping r (or_default r.terminal_target released) d f.owns
      (or_default-ends r.terminal_target f.fine.ends) f.known f.fine.ends f.valid
stopped_record-Inv (cleanup_error x) r d f = cleanup_failed-Inv x r d f
stopped_record-Inv (engine_error x) r d f = cleanup_failed-Inv x r d f

-- The lease of a running engine call has a record.
module _ (o : EngineOutcome) (j : String) (d : Dispatcher) (c : d.current ≡ some j)
    (up : is_ready d.system_state ≡ true) where
  pub started-Inv : IsValid d is_starting → Inv (resting_system (started o j d))
  unfolding started
  started-Inv v = elim (Option-cases (find j d.records)) [
    | inl e ↦ absurd (rw e at (v.held j c))
    | inr (r, e) ↦
        rw (e, started) (started_record-Inv o r d (current_facts is_starting j r d e c up v))
  ]

  pub stopped-Inv : IsValid d is_stopping → Inv (resting_system (stopped o j d))
  unfolding stopped
  stopped-Inv v = elim (Option-cases (find j d.records)) [
    | inl e ↦ absurd (rw e at (v.held j c))
    | inr (r, e) ↦
        rw (e, stopped) (stopped_record-Inv o r d (current_facts is_stopping j r d e c up v))
  ]
