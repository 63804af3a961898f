-- ===== src/Dispatcher/Service/Turns.antt =====
-- Proofs about what a turn of `_run` of dispatcher/dispatcher.py ends in.
use single_gpu_ai_services.Base.{
  ℕ, ◌≡◌, refl, ap, ◌∙◌, subst, Bool, true, false, Option, none, some, List, [], ◌∷◌, String, arith,
  suc, if◌then◌else◌,
}
use single_gpu_ai_services.Dispatcher.Time.{Float}
use single_gpu_ai_services.Dispatcher.Lease.{LeaseState, queued, starting, LeaseRecord, find}
use single_gpu_ai_services.Dispatcher.Lease.Laws.{Distinct}
use single_gpu_ai_services.Dispatcher.State.{Dispatcher, is_ready, prune}
use single_gpu_ai_services.Dispatcher.Worker.{
  Turn, start, wait, expire_queued, next_from, begin, tidy, turn,
}
use single_gpu_ai_services.Dispatcher.Invariant.{IsValid, resting}
use single_gpu_ai_services.Dispatcher.Invariant.Queue.{expire_each-IsValid}
use single_gpu_ai_services.Dispatcher.Invariant.Frame.{Frame, tidy-Frame}
use single_gpu_ai_services.Dispatcher.Invariant.Worker.{serve_cases, turn_cases}
use single_gpu_ai_services.Dispatcher.Retention.{is_stale?, find-prune}
use single_gpu_ai_services.Dispatcher.Service.{
  is_waiting, first_waiting, next_from-first, expire_each-first,
}

pruned :
    (now : ℕ) (d : Dispatcher) (o a b : Option LeaseRecord)
    → a ≡ b
    → let p = if is_stale? now d o then none else o in
      (if is_waiting now p then p else a) ≡ (if is_waiting now o then o else b)
pruned now d none a b e = e
pruned now d (some r) a b e = ground arith

-- Pruning keeps every lease that waits, so it does not change who is first.
first_waiting-prune :
    (now : ℕ) (js : List String) (d : Dispatcher)
    → Distinct d.records
    → first_waiting now js (prune now d).records ≡ first_waiting now js d.records
unfolding first_waiting
first_waiting-prune now [] d h = refl
first_waiting-prune now (j ∷ js) d h =
    rw (find-prune now d j h) (pruned now d (find j d.records) _ _ (first_waiting-prune now js d h))

tidy-first :
    (now : ℕ) (d : Dispatcher) {fit : LeaseState → Bool}
    → fit queued ≡ false
    → IsValid d fit
    → first_waiting now d.queue (tidy now d).records ≡ first_waiting now d.queue d.records
unfolding tidy expire_queued
tidy-first now d {fit} nq v =
    first_waiting-prune now d.queue (expire_queued now d)
      (expire_each-IsValid fit now d.queue d nq v).good.distinct
    ∙ expire_each-first now d.queue d.queue d

-- A turn serves a lease, or waits when there is none to serve.
abbrev pub Serves : Option LeaseRecord → Turn → Type 0
Serves none t = (f : Float) × (t ≡ wait f)
Serves (some r) t = t ≡ start (record r { state = starting })

begin-Serves : (now : ℕ) (t : Option LeaseRecord × Dispatcher) → Serves t.0 (begin now t).0
begin-Serves now (none, n) = (_, refl)
begin-Serves now (some r, n) = refl

-- In a valid state that is open and ready and has no current lease, a turn starts the first lease in
-- the queue that is queued and has time left; without one it waits.
pub turn-Serves :
    (d : Dispatcher)
    → IsValid d (resting true)
    → d.closed ≡ false
    → is_ready d.system_state ≡ true
    → d.current ≡ none
    → Serves (first_waiting (d.clock d.reads) d.queue d.records) (turn d).0
turn-Serves d v open_ up idle =
    turn_cases (λ t. Serves first t.0) d (λ shut. cc)
      (λ _.
        serve_cases (λ t. Serves first t.0) now q (λ down. cc (f.same_system, up, down))
          (λ j _ busy. cc (f.same_current, idle, busy))
          (λ _ _.
            subst (λ o. Serves o (begin now (next_from now q.queue q)).0) picked
              (begin-Serves now (next_from now q.queue q))))
  where
    now : ℕ
    now = d.clock d.reads

    r : Dispatcher
    r = record d { reads = suc d.reads }

    q : Dispatcher
    q = tidy now r

    f : Frame r q
    f = (tidy-Frame now r).0

    first : Option LeaseRecord
    first = first_waiting now d.queue d.records

    picked : (next_from now q.queue q).0 ≡ first
    picked =
        next_from-first now q.queue q
        ∙ ap (λ js. first_waiting now js q.records) (tidy-Frame now r).1
        ∙ tidy-first now r refl (record { good = v.good; held = v.held })
