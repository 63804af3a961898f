-- ===== src/Dispatcher/Service/Deadlines.antt =====
-- Proofs about the deadlines of queued leases in dispatcher/dispatcher.py.
use single_gpu_ai_services.Base.{
  ℕ, ◌≡◌, subst, ◌⊎◌, inl, inr, Bool, true, false, ◌&&◌, Option, none, some, List, [], ◌∷◌, String,
  arith, ◌==◌, eq_iff, contains, Bool-cases, Option-cases, String-cases, suc,
}
use single_gpu_ai_services.Dispatcher.Lease.{LeaseState, expired, is_queued, LeaseRecord, find}
use single_gpu_ai_services.Dispatcher.Lease.Laws.{find-key, find-put}
use single_gpu_ai_services.Dispatcher.State.{Dispatcher, mark_terminal, prune}
use single_gpu_ai_services.Dispatcher.Worker.{
  is_due, expire_one, expire_each, expire_queued, serve, tidy, turn,
}
use single_gpu_ai_services.Dispatcher.Invariant.{IsValid}
use single_gpu_ai_services.Dispatcher.Invariant.Updates.{prune-find}
use single_gpu_ai_services.Dispatcher.Invariant.Worker.{turn_cases}
use single_gpu_ai_services.Dispatcher.Progress.{Later}
use single_gpu_ai_services.Dispatcher.Progress.Steps.{serve-Kept}

-- A lease that is queued is not due.
abbrev pub InTime : ℕ → Option LeaseRecord → Type 0
InTime now none = Unit
InTime now (some r) = is_queued r.state ≡ true → is_due now r ≡ false

mark-InTime :
    (now : ℕ) (i j : String) (r : LeaseRecord) (d : Dispatcher)
    → find i d.records ≡ some r
    → (i ≡ j) ⊎ InTime now (find j d.records)
    → InTime now (find j (mark_terminal r expired d).records)
unfolding mark_terminal
mark-InTime now i j r d e h =
    let ended : LeaseRecord = record r {
      state = expired;
      terminal_at = some (d.clock d.reads);
      active_deadline = none;
    } in
    elim (Bool-cases (r.request_id == j)) [
      | inl same ↦ rw (find-put j ended d.records) (rw same (λ q. cc))
      | inr other ↦ rw (find-put j ended d.records) (
          rw other (elim h [
            | inl same ↦
                let never : ⊥ = ground (arith, find-key i d.records e, eq_iff r.request_id j) in
                absurd never
            | inr keep ↦ keep
          ]))
    ]

same_or_kept :
    (now : ℕ) (i j : String) (d : Dispatcher)
    → (i ≡ j) ⊎ InTime now (find j d.records)
    → InTime now (find i d.records)
    → InTime now (find j d.records)
same_or_kept now i j d (inl same) h = subst (λ k. InTime now (find k d.records)) same h
same_or_kept now i j d (inr keep) h = keep

-- After its body has run for a lease, that lease is in time, and so is every one that was.
expire_one-InTime :
    (now : ℕ) (i j : String) (d : Dispatcher)
    → (i ≡ j) ⊎ InTime now (find j d.records)
    → InTime now (find j (expire_one now i d).records)
unfolding expire_one
expire_one-InTime now i j d h = elim (Option-cases (find i d.records)) [
  | inl e ↦ rw (e, expire_one) (same_or_kept now i j d h (rw e tt))
  | inr (r, e) ↦ elim (Bool-cases (is_queued r.state && is_due now r)) [
    | inl late ↦ rw (e, expire_one) (rw late (mark-InTime now i j r d e h))
    | inr fine ↦ rw (e, expire_one) (rw fine (same_or_kept now i j d h (rw e (λ q. ground arith))))
  ]
]

expire_each-InTime :
    (now : ℕ) (js : List String) (j : String) (d : Dispatcher)
    → (contains j js ≡ true) ⊎ InTime now (find j d.records)
    → InTime now (find j (expire_each now js d).records)
unfolding expire_each
expire_each-InTime now [] j d (inl h) = cc
expire_each-InTime now [] j d (inr h) = h
expire_each-InTime now (i ∷ js) j d (inr h) =
    expire_each-InTime now js j (expire_one now i d) (inr (expire_one-InTime now i j d (inr h)))
expire_each-InTime now (i ∷ js) j d (inl h) = elim (String-cases i j) [
  | inl same ↦
      expire_each-InTime now js j (expire_one now i d)
        (inr (expire_one-InTime now i j d (inl same)))
  | inr other ↦ expire_each-InTime now js j (expire_one now i d) (inl (ground arith))
]

-- A lease that is in time, or has no queued record, is so after pruning.
prune-InTime :
    (now : ℕ) (d : Dispatcher) (j : String)
    → InTime now (find j d.records)
    → InTime now (find j (prune now d).records)
prune-InTime now d j h = elim (Option-cases (find j (prune now d).records)) [
  | inl e ↦ rw e tt
  | inr (r, e) ↦ rw e (subst (InTime now) (prune-find now d j e) h)
]

queued_or_InTime :
    (now : ℕ) (d : Dispatcher) (fit : LeaseState → Bool) (j : String)
    → IsValid d fit
    → (contains j d.queue ≡ true) ⊎ InTime now (find j d.records)
queued_or_InTime now d fit j v = elim (Option-cases (find j d.records)) [
  | inl e ↦ inr (rw e tt)
  | inr (r, e) ↦ elim (Bool-cases (is_queued r.state)) [
    | inl q ↦ inl ((v.good.leases j r e).waiting q)
    | inr idle ↦ inr (rw e (λ q. cc))
  ]
]

-- After the tidying of a turn every lease that is still queued is in time: it stands in the queue, so
-- the loop has seen it.
pub tidy-InTime :
    (now : ℕ) (d : Dispatcher) (fit : LeaseState → Bool) (j : String)
    → IsValid d fit
    → InTime now (find j (tidy now d).records)
unfolding tidy expire_queued
tidy-InTime now d fit j v =
    prune-InTime now (expire_each now d.queue d) j
      (expire_each-InTime now d.queue j d (queued_or_InTime now d fit j v))

Later-InTime : (now : ℕ) (o o' : Option LeaseRecord) → Later o o' → InTime now o → InTime now o'
Later-InTime now none none f h = tt
Later-InTime now none (some r') f h = absurd f
Later-InTime now (some r) none f h = tt
Later-InTime now (some r) (some r') f h = λ q. ground arith

-- After a turn from a valid and open state, no queued lease is due at the time of that turn.
pub turn-InTime :
    (d : Dispatcher) (fit : LeaseState → Bool) (j : String)
    → IsValid d fit
    → d.closed ≡ false
    → InTime (d.clock d.reads) (find j (turn d).1.records)
turn-InTime d fit j v open_ =
    turn_cases (λ t. InTime now (find j t.1.records)) d (λ shut. cc)
      (λ _.
        Later-InTime now (find j (tidy now s).records) (find j (serve now (tidy now s)).1.records)
          (serve-Kept now (tidy now s) j)
          (tidy-InTime now s fit j (record { good = v.good; held = v.held })))
  where
    now : ℕ
    now = d.clock d.reads

    s : Dispatcher
    s = record d { reads = suc d.reads }
