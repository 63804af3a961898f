-- ===== src/Dispatcher/Invariant/Api.antt =====
-- Proofs about `_request_stop` of dispatcher/dispatcher.py and the invariant.
use single_gpu_ai_services.Base.{
  ◌<◌, ◌≡◌, refl, sym, subst, inl, inr, Bool, true, none, some, String, eq_iff, arith, is_some,
  length, Option-cases, suc,
}
use mathlib.Core.Bool.{false≢true}
use single_gpu_ai_services.Dispatcher.Lease.{
  LeaseState, queued, starting, active, stopping, is_terminal, LeaseRecord, find, put,
}
use single_gpu_ai_services.Dispatcher.Lease.Laws.{find-key, find-put}
use single_gpu_ai_services.Dispatcher.State.{Dispatcher, prune}
use single_gpu_ai_services.Dispatcher.Api.{
  tombstone, stop_known, stop_unknown, request_stop, default_target,
}
use single_gpu_ai_services.Dispatcher.Invariant.{LeaseOk, IsValid}
use single_gpu_ai_services.Dispatcher.Invariant.Updates.{
  put-Good, put-Held, prune-IsValid, mark_terminal-IsValid,
}
use single_gpu_ai_services.Dispatcher.Invariant.Admit.{Stoppable, insert-IsValid, prune-find-none}

-- What holds after `_request_stop`, by the record that it finds.
pub stop_cases :
    (P : Dispatcher → Type 0) (service j epoch : String) (target : LeaseState) (d : Dispatcher)
    → P d
    → (find j d.records ≡ none → P (stop_unknown service j target d).1)
    → ((r : LeaseRecord) → find j d.records ≡ some r → P (stop_known r.state target r d).1)
    → P (request_stop service j epoch target d).1
unfolding request_stop
stop_cases P service j epoch target d kept new known = elim (Option-cases (find j d.records)) [
  | inl e ↦ ground (arith, new e)
  | inr (r, e) ↦ ground (arith, known r e)
]

pub stop_unknown_cases :
    (P : Dispatcher → Type 0) (service j : String) (target : LeaseState) (d : Dispatcher)
    → let p = prune (d.clock d.reads) (record d { reads = suc d.reads }) in
      P d
      → P p
      → (length p.records < p.max_records
          → P (record p {
            reads = suc p.reads;
            records = put (tombstone service j (p.clock p.reads)) p.records;
          }))
      → P (stop_unknown service j target d).1
unfolding stop_unknown
stop_unknown_cases P service j target d same kept added = ground arith

stop_unknown-IsValid :
    (fit : LeaseState → Bool) (service j : String) (target : LeaseState) (d : Dispatcher)
    → find j d.records ≡ none
    → IsValid d fit
    → IsValid (stop_unknown service j target d).1 fit
stop_unknown-IsValid fit service j target d e v =
    stop_unknown_cases (λ t. IsValid t fit) service j target d v kept
      (λ room.
        insert-IsValid fit (record p { reads = suc p.reads })
          (tombstone service j (p.clock p.reads))
          (prune-find-none (d.clock d.reads) (record d { reads = suc d.reads }) j e) room buried
          (record { good = kept.good; held = kept.held }))
  where
    p : Dispatcher
    p = prune (d.clock d.reads) (record d { reads = suc d.reads })

    kept : IsValid p fit
    kept =
        prune-IsValid (d.clock d.reads) (record d { reads = suc d.reads }) fit
          (record { good = v.good; held = v.held })

    buried : LeaseOk p.current p.queue j (tombstone service j (p.clock p.reads))
    buried = record {
      owner = λ h. absurd (false≢true h);
      waiting = λ h. absurd (false≢true h);
      stamped = λ h. refl;
      timed = λ h. absurd (false≢true h);
      aimed = λ h. absurd (false≢true h);
      ends = refl;
    }

-- Writing back a changed record of a lease that is there.
pub rewrite-IsValid :
    (fit : LeaseState → Bool) (d : Dispatcher) (r : LeaseRecord)
    → is_some (find r.request_id d.records) ≡ true
    → LeaseOk d.current d.queue r.request_id r
    → (d.current ≡ some r.request_id → fit r.state ≡ true)
    → IsValid d fit
    → IsValid (record d { records = put r d.records }) fit
rewrite-IsValid fit d r e fine h v = record {
  good = put-Good d.current d.queue d.max_records d.records r fine (inl e) v.good;
  held = put-Held fit d.current d.records r h v.held;
}

-- Writing back the record of the current lease, under another test.
pub write_current-IsValid :
    (fit fit' : LeaseState → Bool) (d : Dispatcher) (r : LeaseRecord)
    → d.current ≡ some r.request_id
    → is_some (find r.request_id d.records) ≡ true
    → LeaseOk d.current d.queue r.request_id r
    → fit' r.state ≡ true
    → IsValid d fit
    → IsValid (record d { records = put r d.records }) fit'
write_current-IsValid fit fit' d r c e fine h v = record {
  good = put-Good d.current d.queue d.max_records d.records r fine (inl e) v.good;
  held = λ k ck. ground (arith, find-put k r d.records, eq_iff r.request_id k);
}

-- A record that is found is in order, under its own identifier, and passes the test of the current
-- lease if it is that.
pub found-facts :
    (fit : LeaseState → Bool) (d : Dispatcher) (j : String) (r : LeaseRecord)
    → find j d.records ≡ some r
    → IsValid d fit
    → LeaseOk d.current d.queue r.request_id r
      × (is_some (find r.request_id d.records) ≡ true)
      × (d.current ≡ some r.request_id → fit r.state ≡ true)
found-facts fit d j r e v =
    subst
      (λ k.
        LeaseOk d.current d.queue k r
        × (is_some (find k d.records) ≡ true)
        × (d.current ≡ some k → fit r.state ≡ true))
      (sym (find-key j d.records e)) (v.good.leases j r e, rw e, λ c. rw e at (v.held j c))

stop_known-IsValid :
    (fit : LeaseState → Bool) (target s : LeaseState) (r : LeaseRecord) (d : Dispatcher)
    (j : String)
    → Stoppable fit
    → is_terminal target ≡ true
    → find j d.records ≡ some r
    → r.state ≡ s
    → IsValid d fit
    → IsValid (stop_known s target r d).1 fit
unfolding stop_known
stop_known-IsValid fit target queued r d j st t e at v =
    let (fine, known, test) = found-facts fit d j r e v in
    mark_terminal-IsValid r target d fit t known fine.ends
      (λ c. ground (arith, test c, st.not_queued)) v
stop_known-IsValid fit target starting r d j st t e at v =
    let (fine, known, test) = found-facts fit d j r e v in
    rewrite-IsValid fit d (record r { cancel_requested = true; terminal_target = some target })
      known (ground (arith, fine)) test v
stop_known-IsValid fit target active r d j st t e at v =
    let (fine, known, test) = found-facts fit d j r e v in
    rewrite-IsValid fit d (record r { state = stopping; terminal_target = some target }) known
      (ground (arith, fine)) (λ c. st.stops (rw at at (test c))) v
stop_known-IsValid fit target stopping r d j st t e at v =
    let (fine, known, test) = found-facts fit d j r e v in
    rewrite-IsValid fit d (record r { terminal_target = default_target r.terminal_target target })
      known (ground (arith, fine)) test v
stop_known-IsValid fit target _ r d j st t e at v = v

-- So do `release` and `cancel`.
pub request_stop-IsValid :
    (fit : LeaseState → Bool) (service j epoch : String) (target : LeaseState) (d : Dispatcher)
    → Stoppable fit
    → is_terminal target ≡ true
    → IsValid d fit
    → IsValid (request_stop service j epoch target d).1 fit
request_stop-IsValid fit service j epoch target d st t v =
    stop_cases (λ u. IsValid u fit) service j epoch target d v
      (λ e. stop_unknown-IsValid fit service j target d e v)
      (λ r e. stop_known-IsValid fit target r.state r d j st t e refl v)
