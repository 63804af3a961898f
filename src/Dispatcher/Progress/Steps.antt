-- ===== src/Dispatcher/Progress/Steps.antt =====
-- Proofs about the worker of dispatcher/dispatcher.py and the order of the states of a lease.
use single_gpu_ai_services.Base.{
  ℕ, ◌≡◌, inl, inr, true, Option, none, some, List, [], ◌∷◌, String, arith, Option-cases, suc,
  or_default,
}
use single_gpu_ai_services.Dispatcher.Lease.{
  starting, expired, released, failed, is_queued, is_stopping, LeaseRecord, find,
}
use single_gpu_ai_services.Dispatcher.Lease.Laws.{find_self}
use single_gpu_ai_services.Dispatcher.State.{Dispatcher, mark_terminal}
use single_gpu_ai_services.Dispatcher.Worker.{
  expire_one, expire_each, expire_queued, next_from, tend, serve, tidy, turn, begin, EngineOutcome,
  done, cleanup_error, engine_error, started, started_record, stopped, stopped_record,
  cleanup_failed,
}
use single_gpu_ai_services.Dispatcher.Invariant.Queue.{expire_one_cases, next_from_cases}
use single_gpu_ai_services.Dispatcher.Invariant.Worker.{tend_cases, serve_cases, turn_cases}
use single_gpu_ai_services.Dispatcher.Invariant.Outcomes.{begin_service_cases}
use single_gpu_ai_services.Dispatcher.Invariant.{is_starting, is_end}
use single_gpu_ai_services.Dispatcher.Progress.{Kept}
use single_gpu_ai_services.Dispatcher.Progress.Updates.{
  Follows-refl, Kept-refl, Kept-trans, put-Kept, prune-Kept, mark_terminal-Kept,
}

abbrev pub KeptBy : Dispatcher → Dispatcher → Type 0
KeptBy d d' = Kept d.records d'.records

expire-Kept :
    (j : String) (r : LeaseRecord) (d : Dispatcher)
    → find j d.records ≡ some r
    → is_queued r.state ≡ true
    → KeptBy d (mark_terminal r expired d)
expire-Kept j r d e q = mark_terminal-Kept j r r expired d e (Follows-refl r) (ground arith)

expire_each-Kept : (now : ℕ) (js : List String) (d : Dispatcher) → KeptBy d (expire_each now js d)
unfolding expire_each
expire_each-Kept now [] d = Kept-refl d.records
expire_each-Kept now (j ∷ js) d =
    Kept-trans d.records (expire_one now j d).records _
      (expire_one_cases (KeptBy d) now j d (Kept-refl d.records) (λ r e q. expire-Kept j r d e q))
      (expire_each-Kept now js (expire_one now j d))

tidy-Kept : (now : ℕ) (d : Dispatcher) → KeptBy d (tidy now d)
unfolding tidy expire_queued
tidy-Kept now d =
    Kept-trans d.records (expire_queued now d).records _ (expire_each-Kept now d.queue d)
      (prune-Kept now (expire_queued now d))

-- The lease that is picked is queued.
abbrev PickedKept : Dispatcher → Option LeaseRecord × Dispatcher → Type 0
PickedKept d (none, n) = KeptBy d n
PickedKept d (some r, n) =
    KeptBy d n × (find r.request_id n.records ≡ some r) × (is_queued r.state ≡ true)

PickedKept-trans :
    (a b : Dispatcher) (t : Option LeaseRecord × Dispatcher)
    → KeptBy a b
    → PickedKept b t
    → PickedKept a t
PickedKept-trans a b (none, n) p q = Kept-trans a.records b.records n.records p q
PickedKept-trans a b (some r, n) p (q, e, s) = (Kept-trans a.records b.records n.records p q, e, s)

next_from-Kept : (now : ℕ) (js : List String) (d : Dispatcher) → PickedKept d (next_from now js d)
unfolding next_from
next_from-Kept now [] d = Kept-refl d.records
next_from-Kept now (j ∷ js) d =
    next_from_cases (PickedKept d) now j js d
      (λ r e q _.
        PickedKept-trans d (mark_terminal r expired d) _ (expire-Kept j r d e q)
          (next_from-Kept now js (mark_terminal r expired d)))
      (λ r e q _. (Kept-refl d.records, find_self j d.records e, q))
      (λ idle. next_from-Kept now js d)

begin-Kept :
    (now : ℕ) (d : Dispatcher) (t : Option LeaseRecord × Dispatcher)
    → PickedKept d t
    → KeptBy d (begin now t).1
begin-Kept now d (none, n) p = p
begin-Kept now d (some r, n) (p, e, q) =
    Kept-trans d.records n.records _ p
      (put-Kept r.request_id r (record r { state = starting }) n.records e (ground arith))

tend-Kept : (now : ℕ) (j : String) (d : Dispatcher) → KeptBy d (tend now j d).1
unfolding tend
tend-Kept now j d = elim (Option-cases (find j d.records)) [
  | inl e ↦ rw (e, tend) (Kept-refl d.records)
  | inr (r, e) ↦
      tend_cases (λ t. KeptBy d t.1) now j r d e (λ o. put-Kept j r _ d.records e (ground arith))
        (λ s. Kept-refl d.records) (λ s o. Kept-refl d.records)
]

pub serve-Kept : (now : ℕ) (d : Dispatcher) → KeptBy d (serve now d).1
serve-Kept now d =
    serve_cases (λ t. KeptBy d t.1) now d (λ _. Kept-refl d.records) (λ j _ _. tend-Kept now j d)
      (λ _ _. begin-Kept now d (next_from now d.queue d) (next_from-Kept now d.queue d))

pub turn-Kept : (d : Dispatcher) → KeptBy d (turn d).1
turn-Kept d =
    turn_cases (λ t. KeptBy d t.1) d (λ _. Kept-refl d.records)
      (λ _.
        let now : ℕ = d.clock d.reads in
        let r : Dispatcher = record d { reads = suc d.reads } in
        Kept-trans d.records (tidy now r).records _ (tidy-Kept now r) (serve-Kept now (tidy now r)))

started_record-Kept :
    (o : EngineOutcome) (j : String) (r : LeaseRecord) (d : Dispatcher)
    → find j d.records ≡ some r
    → is_starting r.state ≡ true
    → KeptBy d (started_record o r d)
unfolding started_record
started_record-Kept done j r d e s =
    begin_service_cases (KeptBy d) r d (put-Kept j r _ d.records e (ground arith))
      (put-Kept j r _ d.records e (ground arith))
started_record-Kept (cleanup_error x) j r d e s =
    mark_terminal-Kept j r (record r { error = some x }) failed d e (ground arith) (ground arith)
started_record-Kept (engine_error x) j r d e s =
    mark_terminal-Kept j r (record r { error = some x }) failed d e (ground arith) (ground arith)

pub started-Kept :
    (o : EngineOutcome) (j : String) (r : LeaseRecord) (d : Dispatcher)
    → find j d.records ≡ some r
    → is_starting r.state ≡ true
    → KeptBy d (started o j d)
unfolding started
started-Kept o j r d e s = rw (e, started) (started_record-Kept o j r d e s)

stopped_record-Kept :
    (o : EngineOutcome) (j : String) (r : LeaseRecord) (d : Dispatcher)
    → find j d.records ≡ some r
    → is_stopping r.state ≡ true
    → is_end r.terminal_target ≡ true
    → KeptBy d (stopped_record o r d)
unfolding stopped_record cleanup_failed
stopped_record-Kept done j r d e s t =
    mark_terminal-Kept j r r (or_default r.terminal_target released) d e (Follows-refl r)
      (ground arith)
stopped_record-Kept (cleanup_error x) j r d e s t = put-Kept j r _ d.records e (ground arith)
stopped_record-Kept (engine_error x) j r d e s t = put-Kept j r _ d.records e (ground arith)

pub stopped-Kept :
    (o : EngineOutcome) (j : String) (r : LeaseRecord) (d : Dispatcher)
    → find j d.records ≡ some r
    → is_stopping r.state ≡ true
    → is_end r.terminal_target ≡ true
    → KeptBy d (stopped o j d)
unfolding stopped
stopped-Kept o j r d e s t = rw (e, stopped) (stopped_record-Kept o j r d e s t)
