-- ===== src/Dispatcher/Calls.antt =====
-- Proofs about calls of the methods of dispatcher/dispatcher.py that follow each other.
use single_gpu_ai_services.Base.{
  ℕ, ◌≡◌, refl, sym, ap, ◌∙◌, subst, ◌⊎◌, inl, inr, true, false, none, some, List, [], ◌∷◌, String,
  arith, eq_iff, eq_refl, Option-cases, suc, ok, err, ◌++◌,
}
use single_gpu_ai_services.Dispatcher.Time.{Float, nan, eq_float}
use single_gpu_ai_services.Dispatcher.Lease.{
  Snapshot, snapshot, cancelled, is_terminal, is_queued, LeaseRecord, find, put,
}
use single_gpu_ai_services.Dispatcher.Lease.Laws.{find-put}
use single_gpu_ai_services.Dispatcher.State.{Dispatcher, lease_conflict, is_ready, prune}
use single_gpu_ai_services.Dispatcher.Api.{
  is_bad_wait, new_lease, tombstone, submit, admit, resubmit, request_stop, stop_unknown, cancel,
}
use single_gpu_ai_services.Dispatcher.Worker.{is_due}

-- What `submit` has seen to be in order when it did not raise.
abbrev pub Admissible : String → String → Float → Dispatcher → Type 0
Admissible service epoch w d =
    (epoch ≡ d.epoch)
    × (is_ready d.system_state ≡ true)
    × (d.has_service service ≡ true)
    × (is_bad_wait d.max_queue_wait w ≡ false)

submit-Admissible :
    (service j epoch : String) (w : Float) (d : Dispatcher) (x : Snapshot)
    → (submit service j epoch w d).0 ≡ ok x
    → Admissible service epoch w d
unfolding submit
submit-Admissible service j epoch w d x h = ground (arith, eq_iff epoch d.epoch)

-- With the tests passed, `submit` is one of its two branches.
submit_known :
    (service j epoch : String) (w : Float) (d : Dispatcher) (r : LeaseRecord)
    → Admissible service epoch w d
    → find j d.records ≡ some r
    → submit service j epoch w d ≡ resubmit service w r d
unfolding submit
submit_known service j epoch w d r (a, b, c, e) f = ground (arith, eq_iff epoch d.epoch)

submit_new :
    (service j epoch : String) (w : Float) (d : Dispatcher)
    → Admissible service epoch w d
    → find j d.records ≡ none
    → submit service j epoch w d ≡ admit service j w d
unfolding submit
submit_new service j epoch w d (a, b, c, e) f = ground (arith, eq_iff epoch d.epoch)

-- A new lease is queued at the end of the queue, in a registry that had room.
admit_ok :
    (service j : String) (w : Float) (d : Dispatcher) (x : Snapshot)
    → (admit service j w d).0 ≡ ok x
    → let p = prune (d.clock d.reads) (record d { reads = suc d.reads }) in
      let r = new_lease service j w (p.clock p.reads) in
      (x ≡ snapshot r)
      × ((admit service j w d).1
          ≡ record p { reads = suc p.reads; records = put r p.records; queue = p.queue ++ j ∷ [] })
unfolding admit
admit_ok service j w d x h = ground arith

resubmit_ok :
    (service : String) (w : Float) (r : LeaseRecord) (d : Dispatcher) (x : Snapshot)
    → (resubmit service w r d).0 ≡ ok x
    → (x ≡ snapshot r)
      × ((resubmit service w r d).1 ≡ d)
      × (r.service ≡ service)
      × ((is_terminal r.state ≡ true) ⊎ (eq_float r.wait_timeout w ≡ true))
unfolding resubmit
resubmit_ok service w r d x h = ground (arith, eq_iff r.service service)

resubmit_again :
    (service : String) (w : Float) (r : LeaseRecord) (d : Dispatcher)
    → r.service ≡ service
    → (is_terminal r.state ≡ true) ⊎ (eq_float r.wait_timeout w ≡ true)
    → resubmit service w r d ≡ (ok (snapshot r), d)
unfolding resubmit
resubmit_again service w r d s h = ground (arith, eq_iff r.service service)

put_found : (r : LeaseRecord) (rs : List LeaseRecord) → find r.request_id (put r rs) ≡ some r
put_found r rs = rw (find-put r.request_id r rs, eq_refl r.request_id) refl

-- A `submit` that succeeded, with a `wait_timeout` that equals itself, gives the same answer when it is
-- repeated at once, and the repetition changes nothing.
pub submit_again :
    (service j epoch : String) (w : Float) (d : Dispatcher) (x : Snapshot)
    → eq_float w w ≡ true
    → (submit service j epoch w d).0 ≡ ok x
    → let d' = (submit service j epoch w d).1 in submit service j epoch w d' ≡ (ok x, d')
unfolding prune
submit_again service j epoch w d x same h =
    let a : Admissible service epoch w d = submit-Admissible service j epoch w d x h in
    elim (Option-cases (find j d.records)) [
      | inl new ↦
          let first = submit_new service j epoch w d a new in
          let (answer, after) = admit_ok service j w d x (rw first at h) in
          let p : Dispatcher = prune (d.clock d.reads) (record d { reads = suc d.reads }) in
          let r : LeaseRecord = new_lease service j w (p.clock p.reads) in
          let d' : Dispatcher = record p {
            reads = suc p.reads;
            records = put r p.records;
            queue = p.queue ++ j ∷ [];
          } in
          let again : submit service j epoch w d' ≡ (ok x, d') =
            submit_known service j epoch w d' r a (put_found r p.records)
            ∙ resubmit_again service w r d' refl (inr same)
            ∙ ap (λ s. (ok s, d')) (sym answer) in
          subst (λ t. submit service j epoch w t ≡ (ok x, t)) (sym (ap (λ t. t.1) first ∙ after))
            again
      | inr (r, e) ↦
          let first = submit_known service j epoch w d r a e in
          let (answer, after, s, fine) = resubmit_ok service w r d x (rw first at h) in
          let again : submit service j epoch w d ≡ (ok x, d) =
            first ∙ resubmit_again service w r d s fine ∙ ap (λ t. (ok t, d)) (sym answer) in
          subst (λ t. submit service j epoch w t ≡ (ok x, t)) (sym (ap (λ t. t.1) first ∙ after))
            again
    ]

cancel_new :
    (service j epoch : String) (d : Dispatcher) (x : Snapshot)
    → find j d.records ≡ none
    → (cancel service j epoch d).0 ≡ ok x
    → let p = prune (d.clock d.reads) (record d { reads = suc d.reads }) in
      let r = tombstone service j (p.clock p.reads) in
      (x ≡ snapshot r)
      × ((cancel service j epoch d).1 ≡ record p { reads = suc p.reads; records = put r p.records })
unfolding cancel request_stop stop_unknown
cancel_new service j epoch d x new h = ground arith

-- When a `cancel` of an unknown identifier succeeded, an admissible `submit` of it that follows gets the
-- answer of the `cancel`, which says cancelled, and changes nothing.
pub cancel-submit :
    (service j epoch : String) (w : Float) (d : Dispatcher) (x : Snapshot)
    → Admissible service epoch w d
    → find j d.records ≡ none
    → (cancel service j epoch d).0 ≡ ok x
    → let d' = (cancel service j epoch d).1 in
      (submit service j epoch w d' ≡ (ok x, d')) × (x.state ≡ cancelled)
unfolding prune
cancel-submit service j epoch w d x a new h =
    let (answer, after) = cancel_new service j epoch d x new h in
    let p : Dispatcher = prune (d.clock d.reads) (record d { reads = suc d.reads }) in
    let r : LeaseRecord = tombstone service j (p.clock p.reads) in
    let d' : Dispatcher = record p { reads = suc p.reads; records = put r p.records } in
    let again : submit service j epoch w d' ≡ (ok x, d') =
      submit_known service j epoch w d' r a (put_found r p.records)
      ∙ resubmit_again service w r d' refl (inl refl)
      ∙ ap (λ s. (ok s, d')) (sym answer) in
    (
      subst (λ t. submit service j epoch w t ≡ (ok x, t)) (sym after) again,
      ap (λ s. s.state) answer,
    )

refused :
    (service j : String) (now : ℕ) (d : Dispatcher)
    → resubmit service nan (new_lease service j nan now) d ≡ (err (lease_conflict j), d)
unfolding resubmit
refused service j now d = ground (arith, eq_refl service)

-- When the `submit` of an unknown identifier with the `wait_timeout` NaN succeeds, its lease is queued
-- and never due, and the same `submit` at once after it raises `LeaseConflict`.
pub submit-nan :
    (service j epoch : String) (d : Dispatcher) (x : Snapshot)
    → find j d.records ≡ none
    → (submit service j epoch nan d).0 ≡ ok x
    → let d' = (submit service j epoch nan d).1 in
      (r : LeaseRecord) × (find j d'.records ≡ some r)
      × (is_queued r.state ≡ true)
      × ((now : ℕ) → is_due now r ≡ false)
      × (submit service j epoch nan d' ≡ (err (lease_conflict j), d'))
unfolding prune
submit-nan service j epoch d x new h =
    let a : Admissible service epoch nan d = submit-Admissible service j epoch nan d x h in
    let first = submit_new service j epoch nan d a new in
    let (answer, after) = admit_ok service j nan d x (rw first at h) in
    let p : Dispatcher = prune (d.clock d.reads) (record d { reads = suc d.reads }) in
    let r : LeaseRecord = new_lease service j nan (p.clock p.reads) in
    let d' : Dispatcher = record p {
      reads = suc p.reads;
      records = put r p.records;
      queue = p.queue ++ j ∷ [];
    } in
    let here : find j d'.records ≡ some r = put_found r p.records in
    let again : submit service j epoch nan d' ≡ (err (lease_conflict j), d') =
      submit_known service j epoch nan d' r a here ∙ refused service j (p.clock p.reads) d' in
    subst
      (λ t.
        (r : LeaseRecord) × (find j t.records ≡ some r)
        × (is_queued r.state ≡ true)
        × ((now : ℕ) → is_due now r ≡ false)
        × (submit service j epoch nan t ≡ (err (lease_conflict j), t)))
      (sym (ap (λ t. t.1) first ∙ after)) (r, here, refl, λ now. refl, again)
