-- ===== src/Dispatcher/Invariant/Queue.antt =====
-- Proofs about the loops over the queue of dispatcher/dispatcher.py and the invariant.
use single_gpu_ai_services.Base.{
  ℕ, ◌≡◌, refl, sym, subst, inl, inr, Bool, true, false, Option, none, some, List, [], ◌∷◌, String,
  ◌==◌, eq_iff, arith, Bool-cases, Option-cases,
}
use single_gpu_ai_services.Dispatcher.Lease.{
  LeaseState, queued, expired, is_queued, LeaseRecord, find,
}
use single_gpu_ai_services.Dispatcher.Lease.Laws.{find-key, find-put}
use single_gpu_ai_services.Dispatcher.State.{Dispatcher, mark_terminal}
use single_gpu_ai_services.Dispatcher.Worker.{is_due, expire_one, expire_each, next_from}
use single_gpu_ai_services.Dispatcher.Invariant.{IsValid}
use single_gpu_ai_services.Dispatcher.Invariant.Updates.{queue-Good, mark_terminal-IsValid}
use single_gpu_ai_services.Dispatcher.Invariant.Api.{found-facts}

-- A queued lease that is marked is not the current one.
expire-IsValid :
    (fit : LeaseState → Bool) (d : Dispatcher) (j : String) (r : LeaseRecord)
    → fit queued ≡ false
    → find j d.records ≡ some r
    → is_queued r.state ≡ true
    → IsValid d fit
    → IsValid (mark_terminal r expired d) fit
expire-IsValid fit d j r nq e q v =
    let (fine, known, test) = found-facts fit d j r e v in
    mark_terminal-IsValid r expired d fit refl known fine.ends (λ c. ground (arith, test c)) v

pub expire_one_cases :
    (P : Dispatcher → Type 0) (now : ℕ) (j : String) (d : Dispatcher)
    → P d
    → ((r : LeaseRecord)
        → find j d.records ≡ some r
        → is_queued r.state ≡ true
        → P (mark_terminal r expired d))
    → P (expire_one now j d)
unfolding expire_one
expire_one_cases P now j d kept marked = elim (Option-cases (find j d.records)) [
  | inl e ↦ rw (e, expire_one) kept
  | inr (r, e) ↦ ground (arith, marked r e)
]

pub expire_each-IsValid :
    (fit : LeaseState → Bool) (now : ℕ) (js : List String) (d : Dispatcher)
    → fit queued ≡ false
    → IsValid d fit
    → IsValid (expire_each now js d) fit
unfolding expire_each
expire_each-IsValid fit now [] d nq v = v
expire_each-IsValid fit now (j ∷ js) d nq v =
    expire_each-IsValid fit now js (expire_one now j d) nq
      (expire_one_cases (λ t. IsValid t fit) now j d v (λ r e q. expire-IsValid fit d j r nq e q v))

-- An entry of the queue whose lease is not queued may go.
drop-IsValid :
    (fit : LeaseState → Bool) (d : Dispatcher) (j : String) (js : List String)
    → ((r : LeaseRecord) → find j d.records ≡ some r → is_queued r.state ≡ false)
    → IsValid (record d { queue = j ∷ js }) fit
    → IsValid (record d { queue = js }) fit
drop-IsValid fit d j js idle v = record {
  good =
      queue-Good d.current (j ∷ js) js d.max_records d.records
        (λ k r e w h. elim (Bool-cases (j == k)) [
          | inl same ↦
              ground (
                arith,
                idle r (subst (λ i. find i d.records ≡ some r) (sym ((eq_iff j k).0 same)) e),
              )
          | inr other ↦ ground arith
        ])
        v.good;
  held = v.held;
}

-- What `_next_queued_locked` returns: no lease, or a queued one, whose entry alone has left the queue
-- of a dispatcher in order.
abbrev pub Picked : (LeaseState → Bool) → Option String → Option LeaseRecord × Dispatcher → Type 0
Picked fit c (none, d) = IsValid d fit × (d.current ≡ c)
Picked fit c (some r, d) =
    IsValid (record d { queue = r.request_id ∷ d.queue }) fit
    × (d.current ≡ c)
    × (find r.request_id d.records ≡ some r)
    × (is_queued r.state ≡ true)

pub next_from_cases :
    (P : Option LeaseRecord × Dispatcher → Type 0) (now : ℕ) (j : String) (js : List String)
    (d : Dispatcher)
    → ((r : LeaseRecord)
        → find j d.records ≡ some r
        → is_queued r.state ≡ true
        → is_due now r ≡ true
        → P (next_from now js (mark_terminal r expired d)))
    → ((r : LeaseRecord)
        → find j d.records ≡ some r
        → is_queued r.state ≡ true
        → is_due now r ≡ false
        → P (some r, record d { queue = js }))
    → (((r : LeaseRecord) → find j d.records ≡ some r → is_queued r.state ≡ false)
        → P (next_from now js d))
    → P (next_from now (j ∷ js) d)
unfolding next_from
next_from_cases P now j js d late taken skipped = elim (Option-cases (find j d.records)) [
  | inl e ↦ rw (e, next_from) (skipped (λ r f. cc))
  | inr (r, e) ↦ elim (Bool-cases (is_queued r.state)) [
    | inl q ↦ ground (arith, late r e q, taken r e q)
    | inr q ↦ rw (e, next_from) (rw q (skipped (λ s f. ground arith)))
  ]
]

marked_not_queued :
    (d : Dispatcher) (j : String) (r s : LeaseRecord)
    → find j d.records ≡ some r
    → find j (mark_terminal r expired d).records ≡ some s
    → is_queued s.state ≡ false
unfolding mark_terminal
marked_not_queued d j r s e f =
    let ended : LeaseRecord = record r {
      state = expired;
      terminal_at = some (d.clock d.reads);
      active_deadline = none;
    } in
    ground (arith, find-key j d.records e, find-put j ended d.records, eq_iff r.request_id j)

pub next_from-Picked :
    (fit : LeaseState → Bool) (now : ℕ) (js : List String) (d : Dispatcher)
    → fit queued ≡ false
    → IsValid (record d { queue = js }) fit
    → Picked fit d.current (next_from now js d)
unfolding next_from mark_terminal
next_from-Picked fit now [] d nq v = (v, refl)
next_from-Picked fit now (j ∷ js) d nq v =
    next_from_cases (Picked fit d.current) now j js d
      (λ r e q _. next_from-Picked fit now js (mark_terminal r expired d) nq (
        drop-IsValid fit (mark_terminal r expired d) j js (λ s f. marked_not_queued d j r s e f)
          (expire-IsValid fit (record d { queue = j ∷ js }) j r nq e q v)))
      (λ r e q _.
        subst
          (λ k.
            IsValid (record d { queue = k ∷ js }) fit
            × (d.current ≡ d.current)
            × (find k d.records ≡ some r)
            × (is_queued r.state ≡ true))
          (sym (find-key j d.records e)) (v, refl, e, q))
      (λ idle. next_from-Picked fit now js d nq (drop-IsValid fit d j js idle v))
