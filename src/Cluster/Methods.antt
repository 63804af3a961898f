-- ===== src/Cluster/Methods.antt =====
-- The methods of dispatcher/dispatcher.py and the ends of its engine calls, seen from the machine.
use single_gpu_ai_services.Base.{◌≡◌, refl, true, false, some, List, String, contains}
use single_gpu_ai_services.Dispatcher.Lease.{released, cancelled, LeaseRecord, find}
use single_gpu_ai_services.Dispatcher.State.{Dispatcher}
use single_gpu_ai_services.Dispatcher.Worker.{
  EngineOutcome, started, started_record, stopped, stopped_record, done,
}
use single_gpu_ai_services.Dispatcher.System.{
  Phase, reconciling_engine, looping, starting_engine, stopping_engine, finished, crashed, System,
  Event, submits, gets_lease, releases, cancels, closes, works, work, step,
}
use single_gpu_ai_services.Dispatcher.Api.{release, cancel, close}
use single_gpu_ai_services.Dispatcher.Invariant.{Inv}
use single_gpu_ai_services.Dispatcher.Invariant.Run.{
  submit-Still, request_stop-Still, get_lease_unchanged, step-Inv,
}
use single_gpu_ai_services.Dispatcher.Gpu.{view_of, view, Calm, same}
use single_gpu_ai_services.Cluster.{of_lease, allowed, call, containers_of}
use single_gpu_ai_services.Cluster.Turning.{Owns, step-Owns}

-- A call of a method leaves the view of the GPU as it is.
pub call-Calm : (s : System) (e : Event) → Calm (view s) (view (call s e))
unfolding call step release cancel close
call-Calm s (submits service j epoch w) =
    let (c, u) = submit-Still service j epoch w s.dispatcher in rw (c, u) (same _)
call-Calm s (gets_lease j epoch) = rw (get_lease_unchanged j epoch s.dispatcher) (same _)
call-Calm s (releases service j epoch) =
    let (c, u) = request_stop-Still service j epoch released s.dispatcher in rw (c, u) (same _)
call-Calm s (cancels service j epoch) =
    let (c, u) = request_stop-Still service j epoch cancelled s.dispatcher in rw (c, u) (same _)
call-Calm s closes = same _
call-Calm s (works o) = same _

pub call-Inv : (s : System) (e : Event) → Inv s → Inv (call s e)
unfolding call
call-Inv s (submits service j epoch w) h = step-Inv s (submits service j epoch w) h
call-Inv s (gets_lease j epoch) h = step-Inv s (gets_lease j epoch) h
call-Inv s (releases service j epoch) h = step-Inv s (releases service j epoch) h
call-Inv s (cancels service j epoch) h = step-Inv s (cancels service j epoch) h
call-Inv s closes h = step-Inv s closes h
call-Inv s (works o) h = h

pub call-Owns :
    (s : System) (e : Event)
    → Inv s
    → Owns (view s) s.dispatcher.records (call s e).dispatcher.records
unfolding call
call-Owns s (submits service j epoch w) h = step-Owns s (submits service j epoch w) h
call-Owns s (gets_lease j epoch) h = step-Owns s (gets_lease j epoch) h
call-Owns s (releases service j epoch) h = step-Owns s (releases service j epoch) h
call-Owns s (cancels service j epoch) h = step-Owns s (cancels service j epoch) h
call-Owns s closes h = step-Owns s closes h
call-Owns s (works o) h = λ j x p q. q

pub step-Owns-starting :
    (j : String) (d : Dispatcher)
    → Inv (record { dispatcher = d; phase = starting_engine j })
    → (x : String) → of_lease (find j (started done j d).records) x ≡ false
    → of_lease (find j d.records) x ≡ false
unfolding step work
step-Owns-starting j d h x q =
    let y : System = record { dispatcher = d; phase = starting_engine j } in
    step-Owns y (works done) h j x (rw h.coherent.1 (rw h.coherent.0 refl)) q

pub started_found :
    (j : String) (r : LeaseRecord) (d : Dispatcher)
    → find j d.records ≡ some r
    → (o : EngineOutcome) → started o j d ≡ started_record o r d
unfolding started
started_found j r d e o = rw (e, started) refl

pub stopped_found :
    (j : String) (r : LeaseRecord) (d : Dispatcher)
    → find j d.records ≡ some r
    → (o : EngineOutcome) → stopped o j d ≡ stopped_record o r d
unfolding stopped
stopped_found j r d e o = rw (e, stopped) refl

pub holder_allowed :
    (p : Phase) (j : String) (r : LeaseRecord) (rs : List LeaseRecord) (x : String)
    → find j rs ≡ some r
    → contains x (containers_of r.service) ≡ false
    → allowed (view_of true (some j) p) rs x ≡ false
holder_allowed reconciling_engine j r rs x e h = rw e h
holder_allowed looping j r rs x e h = rw e h
holder_allowed (starting_engine i) j r rs x e h = rw e h
holder_allowed (stopping_engine i) j r rs x e h = rw e h
holder_allowed finished j r rs x e h = rw e h
holder_allowed crashed j r rs x e h = rw e h
