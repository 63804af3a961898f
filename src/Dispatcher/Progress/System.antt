-- ===== src/Dispatcher/Progress/System.antt =====
-- Proofs about the events of dispatcher/dispatcher.py and the order of the states of a lease.
use single_gpu_ai_services.Base.{
  ◌≡◌, refl, subst, inl, inr, Bool, true, false, Option, none, some, String, ◌==◌, eq_iff, arith,
  Bool-cases, Option-cases, suc,
}
use single_gpu_ai_services.Dispatcher.Time.{Float}
use single_gpu_ai_services.Dispatcher.Lease.{
  LeaseState, starting, stopping, active, released, cancelled, queued, is_terminal, is_stopping,
  LeaseRecord, find, put,
}
use single_gpu_ai_services.Dispatcher.Lease.Laws.{find-put}
use single_gpu_ai_services.Dispatcher.State.{Dispatcher, prune}
use single_gpu_ai_services.Dispatcher.Api.{submit, release, cancel, close, request_stop, stop_known}
use single_gpu_ai_services.Dispatcher.Worker.{EngineOutcome, done, reconciled}
use single_gpu_ai_services.Dispatcher.System.{
  System, Phase, reconciling_engine, looping, starting_engine, stopping_engine, finished, crashed,
  Event, submits, gets_lease, releases, cancels, closes, works, work, step,
}
use single_gpu_ai_services.Dispatcher.Invariant.{IsValid, Inv, is_starting}
use single_gpu_ai_services.Dispatcher.Invariant.Admit.{submit_cases, admit_cases}
use single_gpu_ai_services.Dispatcher.Invariant.Api.{stop_cases, stop_unknown_cases}
use single_gpu_ai_services.Dispatcher.Invariant.Run.{get_lease_unchanged}
use single_gpu_ai_services.Dispatcher.Progress.{Follows, Later}
use single_gpu_ai_services.Dispatcher.Progress.Updates.{
  Follows-refl, Kept-refl, put-Kept, prune-Kept, mark_terminal-Kept,
}
use single_gpu_ai_services.Dispatcher.Progress.Steps.{KeptBy, turn-Kept, started-Kept, stopped-Kept}

-- A new record is queued, or is the mark of a cancellation that came first.
abbrev pub is_fresh : LeaseState → Bool
is_fresh queued = true
is_fresh cancelled = true
is_fresh _ = false

abbrev pub Change : Option LeaseRecord → Option LeaseRecord → Type 0
Change none none = Unit
Change none (some r') = is_fresh r'.state ≡ true
Change (some r) none = Unit
Change (some r) (some r') = Follows r r'

abbrev Changes : Dispatcher → Dispatcher → Type 0
Changes d d' = (j : String) → Change (find j d.records) (find j d'.records)

Later-Change : (a b : Option LeaseRecord) → Later a b → Change a b
Later-Change none none h = tt
Later-Change none (some r) h = absurd h
Later-Change (some r) none h = tt
Later-Change (some r) (some s) h = h

Kept-Changes : (d d' : Dispatcher) → KeptBy d d' → Changes d d'
Kept-Changes d d' h j = Later-Change (find j d.records) (find j d'.records) (h j)

Change-new :
    (o : Option LeaseRecord) (r : LeaseRecord)
    → o ≡ none
    → is_fresh r.state ≡ true
    → Change o (some r)
Change-new none r e f = f
Change-new (some s) r e f = cc

-- A new record, after older ones were pruned.
insert-Changes :
    (d p : Dispatcher) (r : LeaseRecord)
    → KeptBy d p
    → find r.request_id d.records ≡ none
    → is_fresh r.state ≡ true
    → (j : String) → Change (find j d.records) (find j (put r p.records))
insert-Changes d p r kept new fresh j = elim (Bool-cases (r.request_id == j)) [
  | inl same ↦ rw (find-put j r p.records) (
      rw same (
        Change-new (find j d.records) r
          (subst (λ k. find k d.records ≡ none) ((eq_iff r.request_id j).0 same) new) fresh))
  | inr other ↦ rw (find-put j r p.records) (rw other (Kept-Changes d p kept j))
]

submit-Changes :
    (service j epoch : String) (w : Float) (d : Dispatcher)
    → Changes d (submit service j epoch w d).1
submit-Changes service j epoch w d =
    submit_cases (Changes d) service j epoch w d (Kept-Changes d d (Kept-refl d.records)) (λ new.
      admit_cases (Changes d) service j w d (Kept-Changes d p kept)
        (λ room. insert-Changes d p _ kept new refl))
  where
    p : Dispatcher
    p = prune (d.clock d.reads) (record d { reads = suc d.reads })

    kept : KeptBy d p
    kept = prune-Kept (d.clock d.reads) (record d { reads = suc d.reads })

stop_known-Kept :
    (s target : LeaseState) (j : String) (r : LeaseRecord) (d : Dispatcher)
    → find j d.records ≡ some r
    → r.state ≡ s
    → is_terminal target ≡ true
    → KeptBy d (stop_known s target r d).1
unfolding stop_known
stop_known-Kept queued target j r d e s t =
    mark_terminal-Kept j r r target d e (Follows-refl r) (ground arith)
stop_known-Kept starting target j r d e s t = put-Kept j r _ d.records e (ground arith)
stop_known-Kept active target j r d e s t = put-Kept j r _ d.records e (ground arith)
stop_known-Kept stopping target j r d e s t = put-Kept j r _ d.records e (ground arith)
stop_known-Kept _ target j r d e s t = Kept-refl d.records

request_stop-Changes :
    (service j epoch : String) (target : LeaseState) (d : Dispatcher)
    → is_terminal target ≡ true
    → Changes d (request_stop service j epoch target d).1
request_stop-Changes service j epoch target d t =
    stop_cases (Changes d) service j epoch target d same
      (λ new.
        stop_unknown_cases (Changes d) service j target d same (Kept-Changes d p kept)
          (λ room. insert-Changes d p _ kept new refl))
      (λ r e.
        Kept-Changes d (stop_known r.state target r d).1
          (stop_known-Kept r.state target j r d e refl t))
  where
    same : Changes d d
    same = Kept-Changes d d (Kept-refl d.records)

    p : Dispatcher
    p = prune (d.clock d.reads) (record d { reads = suc d.reads })

    kept : KeptBy d p
    kept = prune-Kept (d.clock d.reads) (record d { reads = suc d.reads })

-- The record of a running engine call, with its state.
pub current_found :
    (fit : LeaseState → Bool) (d : Dispatcher) (j : String)
    → d.current ≡ some j
    → IsValid d fit
    → (r : LeaseRecord) × (find j d.records ≡ some r) × (fit r.state ≡ true)
current_found fit d j c v = elim (Option-cases (find j d.records)) [
  | inl e ↦ absurd (rw e at (v.held j c))
  | inr (r, e) ↦ (r, e, rw e at (v.held j c))
]

reconciled_records : (o : EngineOutcome) (d : Dispatcher) → (reconciled o d).records ≡ d.records
unfolding reconciled
reconciled_records done d = refl
reconciled_records _ d = refl

work-Kept :
    (p : Phase) (o : EngineOutcome) (d : Dispatcher)
    → Inv (record { dispatcher = d; phase = p })
    → KeptBy d (work p o d).dispatcher
unfolding work
work-Kept reconciling_engine o d h = rw (reconciled_records o d) (Kept-refl d.records)
work-Kept looping o d h = turn-Kept d
work-Kept (starting_engine j) o d h =
    let (r, e, s) = current_found is_starting d j h.coherent.0 h.valid in started-Kept o j r d e s
work-Kept (stopping_engine j) o d h =
    let (r, e, s) = current_found is_stopping d j h.coherent.0 h.valid in
    stopped-Kept o j r d e s (h.valid.good.leases j r e).ends
work-Kept finished o d h = Kept-refl d.records
work-Kept crashed o d h = Kept-refl d.records

-- From a state with the invariant, an event leaves each record as it is or with the same service, wait
-- times and no earlier state, or forgets it, or makes a new one that is queued or cancelled.
pub step-Change :
    (s : System) (e : Event) (j : String)
    → Inv s
    → Change (find j s.dispatcher.records) (find j (step s e).dispatcher.records)
unfolding step release cancel close
step-Change s (submits service i epoch w) j h = submit-Changes service i epoch w s.dispatcher j
step-Change s (gets_lease i epoch) j h =
    rw (get_lease_unchanged i epoch s.dispatcher)
      (Kept-Changes s.dispatcher s.dispatcher (Kept-refl s.dispatcher.records) j)
step-Change s (releases service i epoch) j h =
    request_stop-Changes service i epoch released s.dispatcher refl j
step-Change s (cancels service i epoch) j h =
    request_stop-Changes service i epoch cancelled s.dispatcher refl j
step-Change s closes j h = Kept-Changes s.dispatcher s.dispatcher (Kept-refl s.dispatcher.records) j
step-Change s (works o) j h =
    Kept-Changes s.dispatcher (work s.phase o s.dispatcher).dispatcher
      (work-Kept s.phase o s.dispatcher h) j
