-- ===== src/Cluster/Stretches.antt =====
-- Proofs about the stretches of the worker of dispatcher/dispatcher.py with a real engine
-- manager.
use single_gpu_ai_services.Base.{
  ◌≡◌, refl, sym, subst, subst₂, inl, inr, false, some, String, arith, Result-cases, Bool-cases,
}
use single_gpu_ai_services.Engine.{Machine, Settings, EngineError, is_cleanup}
use single_gpu_ai_services.Engine.Docker.{Docker}
use single_gpu_ai_services.Engine.Manager.{start, stop, reconcile}
use single_gpu_ai_services.Engine.Stopping.{reconcile-Down, reconcile-Still}
use single_gpu_ai_services.Dispatcher.Lease.{LeaseRecord, find, is_stopping}
use single_gpu_ai_services.Dispatcher.State.{Dispatcher}
use single_gpu_ai_services.Dispatcher.Worker.{
  EngineOutcome, reconciled, started, stopped, done, turn,
}
use single_gpu_ai_services.Dispatcher.System.{
  reconciling_engine, looping, starting_engine, stopping_engine, System, loop_turn, works, work,
  step,
}
use single_gpu_ai_services.Dispatcher.Invariant.{Inv, is_starting}
use single_gpu_ai_services.Dispatcher.Progress.System.{current_found}
use single_gpu_ai_services.Dispatcher.Gpu.{loading, unloading, view_of, view}
use single_gpu_ai_services.Dispatcher.Gpu.Moves.{turn-Calm}
use single_gpu_ai_services.Cluster.{of_lease, outcome, engine_call}
use single_gpu_ai_services.Cluster.Safety.{Secure}
use single_gpu_ai_services.Cluster.Effects.{Settled}
use single_gpu_ai_services.Cluster.Turning.{step-Owns, Calm-Secure}
use single_gpu_ai_services.Cluster.Proceeding.{at_loop, started-Secure, stopped-Secure}
use single_gpu_ai_services.Cluster.Methods.{step-Owns-starting, started_found, stopped_found}

module _ (m : Machine) (s : Settings) (text : EngineError → String) (k : Docker m) where
  abbrev pub Safe : System → m.World → Type 0
  Safe y w = Secure m s k (view y) y.dispatcher.records w

  pub reconciled-Secure :
      (d : Dispatcher) (w : m.World)
      → Inv (record { dispatcher = d; phase = reconciling_engine })
      → Settled m s k w
      → let t = reconcile m s d.cleanup_timeout w in
        Safe (work reconciling_engine (outcome m s text t.0) d) t.1
  unfolding work reconciled outcome
  reconciled-Secure d w h q =
      let t = reconcile m s d.cleanup_timeout w in
      let settled : Settled m s k t.1 =
        λ x. (reconcile-Still m s k x d.cleanup_timeout w).calm (q x) in
      elim (Result-cases t.0) [
        | inl (y, e) ↦ rw e (
            rw h.coherent.0 (record {
              settled = λ n. settled;
              apart = λ x i n. (reconcile-Down m s k x d.cleanup_timeout w y i (q x) e).0;
            }))
        | inr (e, f) ↦ elim (Bool-cases (is_cleanup e)) [
          | inl b ↦
              rw (f, b)
                (rw h.coherent.0 (record { settled = λ n. settled; apart = λ x i n. ground arith }))
          | inr b ↦
              rw (f, b)
                (rw h.coherent.0 (record { settled = λ n. settled; apart = λ x i n. ground arith }))
        ]
      ]

  pub call_start :
      (j : String) (r : LeaseRecord) (d : Dispatcher) (w : m.World)
      → find j d.records ≡ some r
      → engine_call m s text (starting_engine j) d w ≡ start m s r.service d.startup_timeout w
  unfolding engine_call
  call_start j r d w e = rw (e, engine_call) refl

  pub call_stop :
      (j : String) (r : LeaseRecord) (d : Dispatcher) (w : m.World)
      → find j d.records ≡ some r
      → engine_call m s text (stopping_engine j) d w ≡ stop m s r.service d.cleanup_timeout w
  unfolding engine_call
  call_stop j r d w e = rw (e, engine_call) refl

  pub proceed-starting :
      (j : String) (d : Dispatcher) (w : m.World)
      → let y : System = record { dispatcher = d; phase = starting_engine j } in
        let t = engine_call m s text (starting_engine j) d w in
        Inv y → Safe y w → Safe (work (starting_engine j) (outcome m s text t.0) d) t.1
  unfolding work
  proceed-starting j d w h a =
      let (c, up) = h.coherent in
      let (r, e, _) = current_found is_starting d j c h.valid in
      let y : System = record { dispatcher = d; phase = starting_engine j } in
      let held : Secure m s k (loading j) d.records w =
        subst₂ (λ u i. Secure m s k (view_of u i (starting_engine j)) d.records w) up c a in
      let owns : (x : String)
          → of_lease (find j (started done j d).records) x ≡ false
          → of_lease (find j d.records) x ≡ false =
        λ x q. step-Owns-starting j d h x q in
      let t = start m s r.service d.startup_timeout w in
      let found = started_found j r d e in
      subst (λ u. Safe (at_loop (started (outcome m s text u.0) j d)) u.1)
        (sym (call_start j r d w e))
        (subst (λ q. Secure m s k (view (at_loop q)) q.records t.1)
          (sym (found (outcome m s text t.0)))
          (started-Secure m s text k j r d c up w
            (λ x q.
              subst (λ o. of_lease o x ≡ false) e
                (owns x
                  (subst (λ q'. of_lease (find j q'.records) x ≡ false) (sym (found done)) q)))
            (held.settled refl) (λ x i n. held.apart x i (rw e n))))

  pub proceed-stopping :
      (j : String) (d : Dispatcher) (w : m.World)
      → let y : System = record { dispatcher = d; phase = stopping_engine j } in
        let t = engine_call m s text (stopping_engine j) d w in
        Inv y → Safe y w → Safe (work (stopping_engine j) (outcome m s text t.0) d) t.1
  unfolding work
  proceed-stopping j d w h a =
      let (c, up) = h.coherent in
      let (r, e, _) = current_found is_stopping d j c h.valid in
      let held : Secure m s k (unloading j) d.records w =
        subst₂ (λ u i. Secure m s k (view_of u i (stopping_engine j)) d.records w) up c a in
      let t = stop m s r.service d.cleanup_timeout w in
      subst (λ u. Safe (at_loop (stopped (outcome m s text u.0) j d)) u.1)
        (sym (call_stop j r d w e))
        (subst (λ q. Secure m s k (view (at_loop q)) q.records t.1)
          (sym (stopped_found j r d e (outcome m s text t.0)))
          (stopped-Secure m s text k j r d c up w (held.settled refl)
            (λ x i n. held.apart x i (rw e n))))

  pub proceed-looping :
      (o : EngineOutcome) (d : Dispatcher) (w : m.World)
      → let y : System = record { dispatcher = d; phase = looping } in
        Inv y → Safe y w → Safe (work looping o d) w
  unfolding work step
  proceed-looping o d w h a =
      let y : System = record { dispatcher = d; phase = looping } in
      Calm-Secure m s k (view y) (view (loop_turn (turn d))) d.records
        (loop_turn (turn d)).dispatcher.records w (turn-Calm d) (step-Owns y (works o) h) a
