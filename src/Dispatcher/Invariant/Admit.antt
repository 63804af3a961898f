-- ===== src/Dispatcher/Invariant/Admit.antt =====
-- Proofs about `submit` of dispatcher/dispatcher.py and the invariant.
use single_gpu_ai_services.Base.{
  ℕ, ◌<◌, ◌≡◌, refl, ◌≢◌, inl, inr, Bool, true, false, none, some, [], ◌∷◌, ◌++◌, String, eq_refl,
  arith, contains-append, length, Option-cases, suc,
}
use mathlib.Core.Bool.{false≢true}
use single_gpu_ai_services.Dispatcher.Time.{Float}
use single_gpu_ai_services.Dispatcher.Lease.{
  LeaseState, queued, active, stopping, LeaseRecord, find, put,
}
use single_gpu_ai_services.Dispatcher.State.{Dispatcher, prune}
use single_gpu_ai_services.Dispatcher.Api.{new_lease, admit, resubmit, submit}
use single_gpu_ai_services.Dispatcher.Invariant.{LeaseOk, IsValid}
use single_gpu_ai_services.Dispatcher.Invariant.Updates.{
  put-Good, put-Held, queue-Good, prune-find, prune-IsValid,
}

-- What the methods need of the states that the current lease may be in.
pub record Stoppable (fit : LeaseState → Bool) : Type 0 where
  pub not_queued : fit queued ≡ false
  pub stops : fit active ≡ true → fit stopping ≡ true

-- The current lease has a record.
pub current-known :
    (fit : LeaseState → Bool) (d : Dispatcher) (j : String)
    → find j d.records ≡ none
    → IsValid d fit
    → d.current ≢ some j
current-known fit d j e v c = rw e at (v.held j c)

-- A new record in a registry that is not full.
pub insert-IsValid :
    (fit : LeaseState → Bool) (d : Dispatcher) (r : LeaseRecord)
    → find r.request_id d.records ≡ none
    → length d.records < d.max_records
    → LeaseOk d.current d.queue r.request_id r
    → IsValid d fit
    → IsValid (record d { records = put r d.records }) fit
insert-IsValid fit d r e room fine v = record {
  good = put-Good d.current d.queue d.max_records d.records r fine (inr room) v.good;
  held =
      put-Held fit d.current d.records r (λ c. absurd (current-known fit d r.request_id e v c))
        v.held;
}

pub prune-find-none :
    (now : ℕ) (d : Dispatcher) (j : String)
    → find j d.records ≡ none
    → find j (prune now d).records ≡ none
prune-find-none now d j e = elim (Option-cases (find j (prune now d).records)) [
  | inl gone ↦ gone
  | inr (r, here) ↦ cc (prune-find now d j here)
]

pub enqueue-IsValid :
    (fit : LeaseState → Bool) (d : Dispatcher) (r : LeaseRecord)
    → find r.request_id d.records ≡ none
    → length d.records < d.max_records
    → LeaseOk d.current (d.queue ++ r.request_id ∷ []) r.request_id r
    → IsValid d fit
    → IsValid (record d { records = put r d.records; queue = d.queue ++ r.request_id ∷ [] }) fit
enqueue-IsValid fit d r e room fine v =
    insert-IsValid fit (record d { queue = d.queue ++ r.request_id ∷ [] }) r e room fine
      (record {
        good =
            queue-Good d.current d.queue _ d.max_records d.records
              (λ j s f w h. rw (contains-append j d.queue (r.request_id ∷ []), h)) v.good;
        held = v.held;
      })

-- What holds after `admit`, if it holds after the pruning and after the new record is queued.
pub admit_cases :
    (P : Dispatcher → Type 0) (service j : String) (w : Float) (d : Dispatcher)
    → let p = prune (d.clock d.reads) (record d { reads = suc d.reads }) in
      let r = new_lease service j w (p.clock p.reads) in
      P p
      → (length p.records < p.max_records
          → P (record p {
            reads = suc p.reads;
            records = put r p.records;
            queue = p.queue ++ j ∷ [];
          }))
      → P (admit service j w d).1
unfolding admit
admit_cases P service j w d kept added = ground arith

pub submit_cases :
    (P : Dispatcher → Type 0) (service j epoch : String) (w : Float) (d : Dispatcher)
    → P d
    → (find j d.records ≡ none → P (admit service j w d).1)
    → P (submit service j epoch w d).1
unfolding submit resubmit
submit_cases P service j epoch w d kept added = ground arith

pub admit-IsValid :
    (fit : LeaseState → Bool) (service j : String) (w : Float) (d : Dispatcher)
    → find j d.records ≡ none
    → IsValid d fit
    → IsValid (admit service j w d).1 fit
admit-IsValid fit service j w d e v =
    admit_cases (λ t. IsValid t fit) service j w d kept
      (λ room.
        enqueue-IsValid fit (record p { reads = suc p.reads })
          (new_lease service j w (p.clock p.reads))
          (prune-find-none (d.clock d.reads) (record d { reads = suc d.reads }) j e) room fresh
          (record { good = kept.good; held = kept.held }))
  where
    p : Dispatcher
    p = prune (d.clock d.reads) (record d { reads = suc d.reads })

    kept : IsValid p fit
    kept =
        prune-IsValid (d.clock d.reads) (record d { reads = suc d.reads }) fit
          (record { good = v.good; held = v.held })

    fresh : LeaseOk p.current (p.queue ++ j ∷ []) j (new_lease service j w (p.clock p.reads))
    fresh = record {
      owner = λ h. absurd (false≢true h);
      waiting = λ h. rw (contains-append j p.queue (j ∷ [])) (ground (arith, eq_refl j));
      stamped = λ h. absurd (false≢true h);
      timed = λ h. absurd (false≢true h);
      aimed = λ h. absurd (false≢true h);
      ends = refl;
    }

-- `submit` keeps the invariant.
pub submit-IsValid :
    (fit : LeaseState → Bool) (service j epoch : String) (w : Float) (d : Dispatcher)
    → IsValid d fit
    → IsValid (submit service j epoch w d).1 fit
submit-IsValid fit service j epoch w d v =
    submit_cases (λ t. IsValid t fit) service j epoch w d v
      (λ e. admit-IsValid fit service j w d e v)
