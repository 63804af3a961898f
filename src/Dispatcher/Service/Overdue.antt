-- ===== src/Dispatcher/Service/Overdue.antt =====
-- Proofs about the deadline of the active lease in dispatcher/dispatcher.py.
use single_gpu_ai_services.Base.{
  ℕ, ◌≡◌, refl, ◌∙◌, subst, inl, inr, true, false, none, some, List, [], ◌∷◌, String, arith, ◌==◌,
  eq_iff, eq_refl, contains, Bool-cases, suc,
}
use single_gpu_ai_services.Dispatcher.Lease.{stopping, expired, is_queued, LeaseRecord, find}
use single_gpu_ai_services.Dispatcher.Lease.Laws.{find-key, find-put, find-pop_all}
use single_gpu_ai_services.Dispatcher.State.{Dispatcher, is_ready, mark_terminal, prune, stale_ids}
use single_gpu_ai_services.Dispatcher.Worker.{
  Turn, stop, is_overdue, expire_one, expire_each, expire_queued, tend, tidy, turn,
}
use single_gpu_ai_services.Dispatcher.Invariant.Updates.{current-not_stale}
use single_gpu_ai_services.Dispatcher.Invariant.Frame.{Frame, tidy-Frame, expire_each-Frame}
use single_gpu_ai_services.Dispatcher.Invariant.Worker.{tend_cases, serve_cases, turn_cases}
use single_gpu_ai_services.Dispatcher.Service.{expire_one_due}

-- The body of the loop leaves every lease alone that is not queued.
pub expire_one-other :
    (now : ℕ) (i j : String) (r : LeaseRecord) (d : Dispatcher)
    → find j d.records ≡ some r
    → is_queued r.state ≡ false
    → find j (expire_one now i d).records ≡ some r
unfolding mark_terminal
expire_one-other now i j r d e idle =
    expire_one_due (λ t. find j t.records ≡ some r) now i d e
      (λ s f q due.
        let ended : LeaseRecord = record s {
          state = expired;
          terminal_at = some (d.clock d.reads);
          active_deadline = none;
        } in
        elim (Bool-cases (s.request_id == j)) [
          | inl same ↦
              let here : find j d.records ≡ some s =
                ground (arith, find-key i d.records f, eq_iff s.request_id j) in
              ground arith
          | inr other ↦ ground (arith, find-put j ended d.records)
        ])

pub expire_each-other :
    (now : ℕ) (js : List String) (j : String) (r : LeaseRecord) (d : Dispatcher)
    → find j d.records ≡ some r
    → is_queued r.state ≡ false
    → find j (expire_each now js d).records ≡ some r
unfolding expire_each
expire_each-other now [] j r d e idle = e
expire_each-other now (i ∷ js) j r d e idle =
    expire_each-other now js j r (expire_one now i d) (expire_one-other now i j r d e idle) idle

-- The current lease comes through the tidying of the queue and the dictionary as it is.
pub tidy-current :
    (now : ℕ) (j : String) (r : LeaseRecord) (d : Dispatcher)
    → d.current ≡ some j
    → find j d.records ≡ some r
    → is_queued r.state ≡ false
    → find j (tidy now d).records ≡ some r
unfolding tidy expire_queued prune
tidy-current now j r d c e idle =
    let x : Dispatcher = expire_each now d.queue d in
    let keep : contains j (stale_ids now x x.records) ≡ false =
      current-not_stale now x j x.records ((expire_each-Frame now d.queue d).0.same_current ∙ c) in
    rw (find-pop_all j (stale_ids now x x.records) x.records, keep)
      (expire_each-other now d.queue j r d e idle)

-- In an open and ready state whose current lease is active at or past its deadline, a turn stops the
-- engine, and the record is left stopping, to end as expired.
pub turn-stops_overdue :
    (d : Dispatcher) (j : String) (r : LeaseRecord)
    → d.closed ≡ false
    → is_ready d.system_state ≡ true
    → d.current ≡ some j
    → find j d.records ≡ some r
    → is_overdue (d.clock d.reads) r ≡ true
    → let r' = record r { state = stopping; terminal_target = some expired } in
      ((turn d).0 ≡ stop r') × (find j (turn d).1.records ≡ some r')
turn-stops_overdue d j r open_ up c e late =
    turn_cases P d (λ shut. cc)
      (λ _.
        serve_cases P now q (λ down. cc (f.same_system, up, down))
          (λ k _ held.
            subst (λ i. P (tend now i q)) (same_id k held)
              (tend_cases P now j r q here
                (λ _. (
                  refl,
                  ground (arith, find-put j r' q.records, find-key j d.records e, eq_refl j),
                ))
                (λ s. let never : ⊥ = ground arith in absurd never) (λ _ o. cc)))
          (λ _ idle. cc (f.same_current, idle, c)))
  where
    now : ℕ
    now = d.clock d.reads

    start_ : Dispatcher
    start_ = record d { reads = suc d.reads }

    q : Dispatcher
    q = tidy now start_

    f : Frame start_ q
    f = (tidy-Frame now start_).0

    r' : LeaseRecord
    r' = record r { state = stopping; terminal_target = some expired }

    P : Turn × Dispatcher → Type 0
    P t = (t.0 ≡ stop r') × (find j t.1.records ≡ some r')

    here : find j q.records ≡ some r
    here = tidy-current now j r start_ c e (ground arith)

    same_id : (k : String) → q.current ≡ some k → j ≡ k
    same_id k held = cc (f.same_current, c)
