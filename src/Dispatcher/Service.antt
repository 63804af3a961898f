-- ===== src/Dispatcher/Service.antt =====
-- Who is served next: the queue, its deadlines, and what a turn of the worker ends in.
pub mod Turns
pub mod Overdue
pub mod Deadlines
use single_gpu_ai_services.Base.{
  ℕ, ◌≤◌, ◌≡◌, refl, sym, ap, ◌∙◌, subst, inl, inr, Bool, true, false, not, ◌&&◌, Option, none,
  some, List, [], ◌∷◌, String, arith, ◌==◌, eq_iff, eq_refl, contains, Bool-cases, Option-cases,
  suc, leb, if◌then◌else◌,
}
use single_gpu_ai_services.Dispatcher.Time.{Float, whole}
use single_gpu_ai_services.Dispatcher.Lease.{
  LeaseState, starting, stopping, active, released, cancelled, expired, failed, is_active,
  is_queued, is_stopping, LeaseRecord, find, put,
}
use single_gpu_ai_services.Dispatcher.Lease.Laws.{find-key, find-put, find_self}
use single_gpu_ai_services.Dispatcher.State.{Dispatcher, is_ready, mark_terminal}
use single_gpu_ai_services.Dispatcher.Worker.{
  Turn, start, stop, wait, is_due, is_overdue, expire_one, expire_each, expire_queued, next_from,
  next_queued, tend, serve, tidy, turn,
}
use single_gpu_ai_services.Dispatcher.Invariant.Queue.{expire_one_cases, next_from_cases}
use single_gpu_ai_services.Dispatcher.Invariant.Worker.{tend_cases, turn_cases}

-- The first entry of the queue whose lease is queued and has time left.
abbrev pub is_waiting : ℕ → Option LeaseRecord → Bool
is_waiting now none = false
is_waiting now (some r) = is_queued r.state && not (is_due now r)

unfoldable pub first_waiting : ℕ → List String → List LeaseRecord → Option LeaseRecord
first_waiting now [] rs = none
first_waiting now (j ∷ js) rs =
    let rest = first_waiting now js rs in if is_waiting now (find j rs) then find j rs else rest

not_waiting :
    (now : ℕ) (o : Option LeaseRecord)
    → ((r : LeaseRecord) → o ≡ some r → is_queued r.state ≡ false)
    → is_waiting now o ≡ false
not_waiting now none h = refl
not_waiting now (some r) h = rw (h r refl)

-- What holds after the body of the loop that marks the leases whose time is over.
pub expire_one_due :
    (P : Dispatcher → Type 0) (now : ℕ) (j : String) (d : Dispatcher)
    → P d
    → ((r : LeaseRecord)
        → find j d.records ≡ some r
        → is_queued r.state ≡ true
        → is_due now r ≡ true
        → P (mark_terminal r expired d))
    → P (expire_one now j d)
unfolding expire_one
expire_one_due P now j d kept marked = elim (Option-cases (find j d.records)) [
  | inl e ↦ rw (e, expire_one) kept
  | inr (r, e) ↦ ground (arith, marked r e)
]

-- Marking a lease that is due does not change who is first.
waiting-mark :
    (now : ℕ) (k j : String) (r : LeaseRecord) (d : Dispatcher)
    → find j d.records ≡ some r
    → is_due now r ≡ true
    → (is_waiting now (find k (mark_terminal r expired d).records)
        ≡ is_waiting now (find k d.records))
      × (is_waiting now (find k d.records) ≡ true
          → find k (mark_terminal r expired d).records ≡ find k d.records)
unfolding mark_terminal
waiting-mark now k j r d e due =
    let ended : LeaseRecord = record r {
      state = expired;
      terminal_at = some (d.clock d.reads);
      active_deadline = none;
    } in
    elim (Bool-cases (r.request_id == k)) [
      | inl same ↦
          let here : find k d.records ≡ some r =
            ground (arith, find-key j d.records e, eq_iff r.request_id k) in
          ground (arith, find-put k ended d.records, due)
      | inr other ↦ ground (arith, find-put k ended d.records)
    ]

first_waiting-mark :
    (now : ℕ) (js : List String) (j : String) (r : LeaseRecord) (d : Dispatcher)
    → find j d.records ≡ some r
    → is_due now r ≡ true
    → first_waiting now js (mark_terminal r expired d).records ≡ first_waiting now js d.records
unfolding first_waiting
first_waiting-mark now [] j r d e due = refl
first_waiting-mark now (k ∷ js) j r d e due =
    let w = waiting-mark now k j r d e due in
    elim (Bool-cases (is_waiting now (find k d.records))) [
      | inl yes_ ↦ rw (w.0, yes_) (w.1 yes_)
      | inr no_ ↦ rw (w.0, no_) (first_waiting-mark now js j r d e due)
    ]

-- The loop that pops the queue returns the first lease that waits.
pub next_from-first :
    (now : ℕ) (js : List String) (d : Dispatcher)
    → (next_from now js d).0 ≡ first_waiting now js d.records
unfolding next_from first_waiting
next_from-first now [] d = refl
next_from-first now (j ∷ js) d =
    next_from_cases (λ t. t.0 ≡ first_waiting now (j ∷ js) d.records) now j js d
      (λ r e q due.
        let skip : is_waiting now (find j d.records) ≡ false = rw e (ground arith) in
        rw skip (
          next_from-first now js (mark_terminal r expired d)
          ∙ first_waiting-mark now js j r d e due))
      (λ r e q due.
        let here : is_waiting now (find j d.records) ≡ true = rw e (ground arith) in
        rw here (sym e))
      (λ idle.
        let skip : is_waiting now (find j d.records) ≡ false =
          not_waiting now (find j d.records) idle in
        rw skip (next_from-first now js d))

pub expire_each-first :
    (now : ℕ) (ks js : List String) (d : Dispatcher)
    → first_waiting now ks (expire_each now js d).records ≡ first_waiting now ks d.records
unfolding expire_each
expire_each-first now ks [] d = refl
expire_each-first now ks (j ∷ js) d =
    expire_each-first now ks js (expire_one now j d)
    ∙ expire_one_due (λ t. first_waiting now ks t.records ≡ first_waiting now ks d.records) now j d
        refl (λ r e q due. first_waiting-mark now ks j r d e due)
