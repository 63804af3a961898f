-- ===== src/Cluster/Exclusion.antt =====
-- Proofs about dispatcher/dispatcher.py and dispatcher/engine_manager.py together: which
-- containers run.
use single_gpu_ai_services.Base.{
  ◌≡◌, refl, sym, subst₂, ◌∙◌, inl, inr, true, some, List, [], ◌∷◌, String, contains, arith,
  Option-cases, ok, Bool-cases,
}
use single_gpu_ai_services.Engine.{Machine, Settings, EngineError, all_containers}
use mathlib.Core.Bool.{true≢false}
use single_gpu_ai_services.Engine.Docker.{Docker}
use single_gpu_ai_services.Dispatcher.Lease.{LeaseRecord, find}
use single_gpu_ai_services.Dispatcher.State.{Config, Dispatcher, init, is_ready}
use single_gpu_ai_services.Dispatcher.System.{
  Phase, reconciling_engine, looping, starting_engine, stopping_engine, finished, crashed, System,
  works, work, step,
}
use single_gpu_ai_services.Dispatcher.Invariant.{Inv, fits}
use single_gpu_ai_services.Dispatcher.Invariant.Run.{step-Inv, init-Inv, boot}
use single_gpu_ai_services.Dispatcher.Progress.System.{current_found}
use single_gpu_ai_services.Dispatcher.Gpu.{view_of, view}
use single_gpu_ai_services.Cluster.{
  outcome, Cluster, Input, calls, proceeds, passes, call, engine_call, advance, play, containers_of,
}
use single_gpu_ai_services.Cluster.Safety.{Secure, Quiet-Secure}
use single_gpu_ai_services.Cluster.Effects.{Settled}
use single_gpu_ai_services.Cluster.Turning.{Calm-Secure}
use single_gpu_ai_services.Cluster.Methods.{call-Calm, call-Inv, call-Owns, holder_allowed}
use single_gpu_ai_services.Cluster.Stretches.{
  Safe, reconciled-Secure, proceed-starting, proceed-stopping, proceed-looping,
}

module _ (m : Machine) (s : Settings) (text : EngineError → String) (k : Docker m) where
  -- The next stretch of the worker.
  proceed-Safe :
      (p : Phase) (d : Dispatcher) (w : m.World)
      → let y : System = record { dispatcher = d; phase = p } in
        let t = engine_call m s text p d w in
        Inv y → Safe m s text k y w → Safe m s text k (work p (outcome m s text t.0) d) t.1
  unfolding work engine_call
  proceed-Safe reconciling_engine d w h a =
      reconciled-Secure m s text k d w h (a.settled (rw h.coherent.1 (rw h.coherent.0 refl)))
  proceed-Safe looping d w h a = proceed-looping m s text k (outcome m s text (ok tt)) d w h a
  proceed-Safe (starting_engine j) d w h a = proceed-starting m s text k j d w h a
  proceed-Safe (stopping_engine j) d w h a = proceed-stopping m s text k j d w h a
  proceed-Safe finished d w h a = a
  proceed-Safe crashed d w h a = a

  abbrev SafeCluster : Cluster m s text → Type 0
  SafeCluster c = Inv c.system × Safe m s text k c.system c.world

  advance-Safe :
      (c : Cluster m s text) (i : Input) → SafeCluster c → SafeCluster (advance m s text c i)
  unfolding advance step
  advance-Safe c (calls e) (h, a) = (
    call-Inv c.system e h,
    Calm-Secure m s k (view c.system) (view (call c.system e)) c.system.dispatcher.records
        (call c.system e).dispatcher.records c.world (call-Calm c.system e) (call-Owns c.system e h)
        a,
  )
  advance-Safe c proceeds (h, a) =
      let t = engine_call m s text c.system.phase c.system.dispatcher c.world in
      (
        step-Inv c.system (works (outcome m s text t.0)) h,
        proceed-Safe c.system.phase c.system.dispatcher c.world h a,
      )
  advance-Safe c (passes t) (h, a) = (
    h,
    Quiet-Secure m s k (view c.system) c.system.dispatcher.records c.world (m.sleep t c.world)
        (λ x. k.sleep_Quiet x t c.world) a,
  )

  play-Safe :
      (is : List Input) (c : Cluster m s text) → SafeCluster c → SafeCluster (play m s text c is)
  unfolding play
  play-Safe [] c h = h
  play-Safe (i ∷ is) c h = play-Safe is (advance m s text c i) (advance-Safe c i h)

  boot-Safe :
      (c : Config) (epoch : String) (d : Dispatcher) (w : m.World)
      → init c epoch ≡ ok d
      → Settled m s k w
      → SafeCluster (record { system = boot d; world = w })
  boot-Safe c epoch d w e q =
      let h = init-Inv c epoch d e in
      (
        h,
        rw h.coherent.1
            (rw h.coherent.0 (record { settled = λ n. q; apart = λ x i n. ground arith })),
      )

  view-Secure :
      (y : System) (w : m.World) (x : String)
      → Inv y
      → Safe m s text k y w
      → is_ready y.dispatcher.system_state ≡ true
      → contains x all_containers ≡ true
      → k.is_up x w ≡ true
      → (j : String) × (r : LeaseRecord) × (y.dispatcher.current ≡ some j)
        × (find j y.dispatcher.records ≡ some r)
        × (contains x (containers_of r.service) ≡ true)
  view-Secure y w x h a up i run_ =
      let p = y.phase in
      let fit = fits p (is_ready y.dispatcher.system_state) in
      elim (Option-cases y.dispatcher.current) [
        | inl e ↦
            let off = subst₂ (λ u c. Secure m s k (view_of u c p) y.dispatcher.records w) up e a in
            absurd (true≢false (sym run_ ∙ off.apart x i refl))
        | inr (j, e) ↦
            let (r, f, _) = current_found fit y.dispatcher j e h.valid in
            elim (Bool-cases (contains x (containers_of r.service))) [
              | inl own ↦ (j, r, e, f, own)
              | inr other ↦
                  let held =
                    subst₂ (λ u c. Secure m s k (view_of u c p) y.dispatcher.records w) up e a in
                  absurd (
                    true≢false (
                      sym run_
                      ∙ held.apart x i (holder_allowed p j r y.dispatcher.records x f other)))
            ]
      ]

  -- From a constructor call that succeeds, on a machine where no start of a container is pending, after
  -- any calls of methods, stretches of the worker and passing of time: while the dispatcher is ready,
  -- every container that runs belongs to the service of the current lease.
  pub play-exclusive :
      (c : Config) (epoch : String) (d : Dispatcher) (w : m.World) (is : List Input) (x : String)
      → init c epoch ≡ ok d
      → Settled m s k w
      → let e = play m s text (record { system = boot d; world = w }) is in
        let d' = e.system.dispatcher in
        is_ready d'.system_state ≡ true
        → contains x all_containers ≡ true
        → k.is_up x e.world ≡ true
        → (j : String) × (r : LeaseRecord) × (d'.current ≡ some j)
          × (find j d'.records ≡ some r)
          × (contains x (containers_of r.service) ≡ true)
  play-exclusive c epoch d w is x e q up i run_ =
      let y = play m s text (record { system = boot d; world = w }) is in
      let (h, a) =
        play-Safe is (record { system = boot d; world = w }) (boot-Safe c epoch d w e q) in
      view-Secure y.system y.world x h a up i run_
