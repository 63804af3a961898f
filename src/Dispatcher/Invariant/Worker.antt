-- ===== src/Dispatcher/Invariant/Worker.antt =====
-- Proofs about a turn of `_run` of dispatcher/dispatcher.py and the invariant.
use single_gpu_ai_services.Base.{
  ℕ, ◌≡◌, refl, sym, subst, inl, inr, Bool, true, false, Option, none, some, List, ◌∷◌, String,
  arith, ◌==◌, eq_iff, is_some, Bool-cases, Option-cases, suc,
}
use single_gpu_ai_services.Dispatcher.Time.{whole}
use single_gpu_ai_services.Dispatcher.Lease.{
  LeaseState, queued, starting, stopping, expired, is_stopping, LeaseRecord, find, put,
}
use single_gpu_ai_services.Dispatcher.Lease.Laws.{find-key, find-put, length-put, put-Distinct}
use single_gpu_ai_services.Dispatcher.State.{Dispatcher, is_ready}
use single_gpu_ai_services.Dispatcher.Worker.{
  Turn, stop, wait, exit, is_overdue, begin, next_wait, expire_queued, next_from, next_queued, tidy,
  tend, pick, serve, turn,
}
use single_gpu_ai_services.Dispatcher.System.{loop_turn}
use single_gpu_ai_services.Dispatcher.Invariant.{LeaseOk, Good, IsValid, Inv, resting}
use single_gpu_ai_services.Dispatcher.Invariant.Updates.{prune-IsValid}
use single_gpu_ai_services.Dispatcher.Invariant.Api.{found-facts, write_current-IsValid}
use single_gpu_ai_services.Dispatcher.Invariant.Queue.{
  expire_each-IsValid, next_from-Picked, Picked,
}
use single_gpu_ai_services.Dispatcher.Invariant.Frame.{tidy-Frame, next_from-Frame}

tidy-IsValid :
    (fit : LeaseState → Bool) (now : ℕ) (d : Dispatcher)
    → fit queued ≡ false
    → IsValid d fit
    → IsValid (tidy now d) fit
unfolding tidy expire_queued
tidy-IsValid fit now d nq v =
    prune-IsValid now (expire_queued now d) fit (expire_each-IsValid fit now d.queue d nq v)

-- Another test for the current lease, which its record passes.
pub refit :
    (fit fit' : LeaseState → Bool) (d : Dispatcher)
    → ((j : String) (r : LeaseRecord)
        → d.current ≡ some j
        → find j d.records ≡ some r
        → fit r.state ≡ true
        → fit' r.state ≡ true)
    → IsValid d fit
    → IsValid d fit'
refit fit fit' d better v = record {
  good = v.good;
  held = λ j c. elim (Option-cases (find j d.records)) [
    | inl e ↦ absurd (rw e at (v.held j c))
    | inr (r, e) ↦ rw e (better j r c e (rw e at (v.held j c)))
  ];
}

pub tend_cases :
    (P : Turn × Dispatcher → Type 0) (now : ℕ) (j : String) (r : LeaseRecord) (d : Dispatcher)
    → find j d.records ≡ some r
    → let r' = record r { state = stopping; terminal_target = some expired } in
      (is_overdue now r ≡ true → P (stop r', record d { records = put r' d.records }))
      → (is_stopping r.state ≡ true → P (stop r, d))
      → (is_stopping r.state ≡ false → is_overdue now r ≡ false → P (wait (next_wait now d), d))
      → P (tend now j d)
unfolding tend
tend_cases P now j r d e late again idle = ground arith

tend-Inv :
    (now : ℕ) (j : String) (r : LeaseRecord) (d : Dispatcher)
    → find j d.records ≡ some r
    → d.current ≡ some j
    → is_ready d.system_state ≡ true
    → IsValid d (resting true)
    → Inv (loop_turn (tend now j d))
tend-Inv now j r d e c up v =
    tend_cases (λ t. Inv (loop_turn t)) now j r d e
      (λ o. record {
        valid =
            write_current-IsValid (resting true) is_stopping d r'
              (ground (arith, find-key j d.records e)) known (ground (arith, fine)) refl v;
        coherent = (ground (arith, find-key j d.records e), up);
      })
      (λ s. record {
        valid = refit (resting true) is_stopping d (λ k t ck ek _. cc) v;
        coherent = (ground (arith, find-key j d.records e), up);
      })
      (λ s o. record { valid = rw up v; coherent = tt })
  where
    r' : LeaseRecord
    r' = record r { state = stopping; terminal_target = some expired }

    facts :
        LeaseOk d.current d.queue r.request_id r
        × (is_some (find r.request_id d.records) ≡ true)
        × (d.current ≡ some r.request_id → resting true r.state ≡ true)
    facts = found-facts (resting true) d j r e v

    fine : LeaseOk d.current d.queue r.request_id r
    fine = facts.0

    known : is_some (find r.request_id d.records) ≡ true
    known = facts.1

other_LeaseOk :
    {j k : String} {q : List String} {s : LeaseRecord}
    → (k == j) ≡ false
    → LeaseOk none (k ∷ q) j s
    → LeaseOk (some k) q j s
other_LeaseOk other fine = ground (arith, fine)

-- The current lease changes from none to the one written.
begin-Good :
    (q : List String) (m : ℕ) (rs : List LeaseRecord) (r : LeaseRecord)
    → find r.request_id rs ≡ some r
    → Good none (r.request_id ∷ q) m rs
    → Good (some r.request_id) q m (put (record r { state = starting }) rs)
begin-Good q m rs r e g = record {
  leases = λ j s f. elim (Bool-cases (r.request_id == j)) [
    | inl same ↦ ground (
      arith,
      find-put j (record r { state = starting }) rs,
      eq_iff r.request_id j,
      g.leases r.request_id r e,
    )
    | inr other ↦
        other_LeaseOk other
          (g.leases j s (ground (arith, find-put j (record r { state = starting }) rs)))
  ];
  bounded = ground (arith, length-put (record r { state = starting }) rs, g.bounded);
  distinct = put-Distinct _ rs g.distinct;
}

-- Without a current lease no lease owns the GPU, so the one that is picked is alone.
begin-Inv :
    (now : ℕ) (t : Option LeaseRecord × Dispatcher)
    → Picked (resting true) none t
    → is_ready t.1.system_state ≡ true
    → Inv (loop_turn (begin now t))
begin-Inv now (none, n) (v, c) up = record { valid = rw up v; coherent = tt }
begin-Inv now (some r, n) (v, c, e, q) up = record {
  valid = record {
    good = begin-Good n.queue n.max_records n.records r e (rw c at v.good);
    held = λ j h.
        ground (arith, find-put j (record r { state = starting }) n.records, eq_iff r.request_id j);
  };
  coherent = (refl, up);
}

pub serve_cases :
    (P : Turn × Dispatcher → Type 0) (now : ℕ) (d : Dispatcher)
    → (is_ready d.system_state ≡ false → P (wait (whole 50000), d))
    → ((j : String) → is_ready d.system_state ≡ true → d.current ≡ some j → P (tend now j d))
    → (is_ready d.system_state ≡ true → d.current ≡ none → P (begin now (next_from now d.queue d)))
    → P (serve now d)
unfolding serve pick next_queued
serve_cases P now d down busy idle = elim (Bool-cases (is_ready d.system_state)) [
  | inr e ↦ rw (e, serve) (down e)
  | inl e ↦ elim (Option-cases d.current) [
    | inl none_held ↦ let h = idle e none_held in ground arith
    | inr (j, held) ↦ let h = busy j e held in ground arith
  ]
]

serve-Inv :
    (now : ℕ) (d : Dispatcher)
    → IsValid d (resting (is_ready d.system_state))
    → Inv (loop_turn (serve now d))
serve-Inv now d v =
    serve_cases (λ t. Inv (loop_turn t)) now d (λ down. record { valid = v; coherent = tt })
      (λ j up busy. elim (Option-cases (find j d.records)) [
        | inl e ↦ absurd (rw e at (v.held j busy))
        | inr (r, e) ↦ tend-Inv now j r d e busy up (rw up at v)
      ])
      (λ up idle.
        begin-Inv now (next_from now d.queue d)
          (subst (λ o. Picked (resting true) o (next_from now d.queue d)) idle
            (next_from-Picked (resting true) now d.queue d refl (rw up at v)))
          (rw (next_from-Frame now d.queue d).same_system up))

resting-queued : (up : Bool) → resting up queued ≡ false
resting-queued true = refl
resting-queued false = refl

pub turn_cases :
    (P : Turn × Dispatcher → Type 0) (d : Dispatcher)
    → (d.closed ≡ true → P (exit, d))
    → (d.closed ≡ false
        → let now = d.clock d.reads in P (serve now (tidy now (record d { reads = suc d.reads }))))
    → P (turn d)
unfolding turn
turn_cases P d shut going = ground arith

-- A turn of the loop.
pub turn-Inv :
    (d : Dispatcher) → IsValid d (resting (is_ready d.system_state)) → Inv (loop_turn (turn d))
turn-Inv d v =
    turn_cases (λ t. Inv (loop_turn t)) d (λ _. record { valid = v; coherent = tt })
      (λ _. serve-Inv now (tidy now r) (
        subst (λ u. IsValid (tidy now r) (resting (is_ready u)))
          (sym (tidy-Frame now r).0.same_system)
          (tidy-IsValid (resting (is_ready d.system_state)) now r
            (resting-queued (is_ready d.system_state)) (record { good = v.good; held = v.held }))))
  where
    now : ℕ
    now = d.clock d.reads

    r : Dispatcher
    r = record d { reads = suc d.reads }
