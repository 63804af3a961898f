-- ===== src/Engine/Stopping.antt =====
-- Proofs about `stop` and `reconcile` of dispatcher/engine_manager.py.
use single_gpu_ai_services.Base.{
  ℕ, ◌+◌, ◌≡◌, refl, subst, ◌∙◌, true, false, Option, none, some, List, [], ◌∷◌, String, arith,
  ◌==◌, eq_iff, contains, contains-reverse, ok, reverse, Bool-cases, Option-cases, inl, inr,
}
use single_gpu_ai_services.Engine.{
  Machine, Settings, Fault, Component, services, lookup_service, names, all_containers,
}
use single_gpu_ai_services.Engine.Docker.{Docker}
use single_gpu_ai_services.Engine.Manager.{
  stop_one, stop_each, stop_components, stop_known, stop, reconcile, raise_faults, prepend,
}
use single_gpu_ai_services.Engine.Cleanup.{
  Q, Q-refl, Q-trans, stop_one-Still, stop_one-down, stop_each-Still,
}

prepend_nil : (f : Option Fault) (fs : List Fault) → prepend f fs ≡ [] → (f ≡ none) × (fs ≡ [])
prepend_nil none fs h = (refl, h)
prepend_nil (some f) fs h = ground arith

module _ (m : Machine) (s : Settings) (k : Docker m) where
  -- A container that does not run and will not come up by itself.
  abbrev pub Down : String → m.World → Type 0
  Down c w = (k.is_up c w ≡ false) × (k.is_pending c w ≡ false)

  pub Quiet-Down : (c : String) (w w' : m.World) → Q m s k c w w' → Down c w → Down c w'
  Quiet-Down c w w' q (u, p) = (q.low p u, q.calm p)

  stop_each-Down :
      (c : String) (deadline : ℕ) (ds : List String) (w : m.World)
      → k.is_pending c w ≡ false
      → (stop_each m s deadline ds w).0 ≡ []
      → contains c ds ≡ true
      → Down c (stop_each m s deadline ds w).1
  unfolding stop_each
  stop_each-Down c deadline [] w p h i = ground arith
  stop_each-Down c deadline (d ∷ ds) w p h i =
      let t = stop_one m s deadline d w in
      let (clean, rest) = prepend_nil t.0 (stop_each m s deadline ds t.1).0 h in
      let later : k.is_pending c t.1 ≡ false = (stop_one-Still m s k c d deadline w).calm p in
      elim (Bool-cases (d == c)) [
        | inl same ↦
            let low : k.is_up c t.1 ≡ false =
              subst (λ x. k.is_up x t.1 ≡ false) ((eq_iff d c).0 same)
                (stop_one-down m s k d deadline w clean) in
            Quiet-Down c t.1 _ (stop_each-Still m s k c deadline ds t.1) (low, later)
        | inr other ↦ stop_each-Down c deadline ds t.1 later rest (rw other at i)
      ]

  raise_faults_ok : (fs : List Fault) (x : Unit {0}) → raise_faults fs ≡ ok x → fs ≡ []
  raise_faults_ok [] x h = refl
  raise_faults_ok (f ∷ fs) x h = ground arith

  stop_components-Down :
      (c : String) (deadline : ℕ) (ds : List String) (w : m.World) (x : Unit {0})
      → k.is_pending c w ≡ false
      → (stop_components m s ds deadline w).0 ≡ ok x
      → contains c ds ≡ true
      → Down c (stop_components m s ds deadline w).1
  unfolding stop_components
  stop_components-Down c deadline ds w x p h i =
      stop_each-Down c deadline ds w p (raise_faults_ok _ x h) i

  stop_known-Down :
      (c : String) (cs : List Component) (timeout : ℕ) (w : m.World) (x : Unit {0})
      → k.is_pending c w ≡ false
      → (stop_known m s cs timeout w).0 ≡ ok x
      → contains c (names cs) ≡ true
      → Down c (stop_known m s cs timeout w).1
  unfolding stop_known
  stop_known-Down c cs timeout w x p h i =
      stop_components-Down c _ (reverse (names cs)) (m.clock w).1 x ((k.clock_Quiet c w).calm p) h
        (contains-reverse c (names cs) ∙ i)

  stop_known-Still :
      (c : String) (cs : List Component) (timeout : ℕ) (w : m.World)
      → Q m s k c w (stop_known m s cs timeout w).1
  unfolding stop_known stop_components
  stop_known-Still c cs timeout w =
      Q-trans m s k c w (m.clock w).1 _ (k.clock_Quiet c w)
        (stop_each-Still m s k c ((m.clock w).0 + timeout) (reverse (names cs)) (m.clock w).1)

  -- `stop` brings no container up, whether it succeeds or not.
  pub stop-Still :
      (c service : String) (timeout : ℕ) (w : m.World) → Q m s k c w (stop m s service timeout w).1
  unfolding stop
  stop-Still c service timeout w = elim (Option-cases (lookup_service service services)) [
    | inl e ↦ rw (e, stop) (Q-refl m s k c w)
    | inr (cs, e) ↦ rw (e, stop) (stop_known-Still c cs timeout w)
  ]

  -- When `stop` returns, each container of the service is down, if no start of it was pending.
  pub stop-Down :
      (c service : String) (cs : List Component) (timeout : ℕ) (w : m.World) (x : Unit {0})
      → lookup_service service services ≡ some cs
      → contains c (names cs) ≡ true
      → k.is_pending c w ≡ false
      → (stop m s service timeout w).0 ≡ ok x
      → Down c (stop m s service timeout w).1
  unfolding stop
  stop-Down c service cs timeout w x e i p h =
      rw (e, stop) (stop_known-Down c cs timeout w x p (rw (e, stop) at h) i)

  -- When `reconcile` returns, each container that no start was pending for is down.
  pub reconcile-Down :
      (c : String) (timeout : ℕ) (w : m.World) (x : Unit {0})
      → contains c all_containers ≡ true
      → k.is_pending c w ≡ false
      → (reconcile m s timeout w).0 ≡ ok x
      → Down c (reconcile m s timeout w).1
  unfolding reconcile
  reconcile-Down c timeout w x i p h =
      stop_components-Down c _ (reverse all_containers) (m.clock w).1 x ((k.clock_Quiet c w).calm p)
        h (contains-reverse c all_containers ∙ i)

  pub reconcile-Still :
      (c : String) (timeout : ℕ) (w : m.World) → Q m s k c w (reconcile m s timeout w).1
  unfolding reconcile stop_components
  reconcile-Still c timeout w =
      Q-trans m s k c w (m.clock w).1 _ (k.clock_Quiet c w)
        (stop_each-Still m s k c ((m.clock w).0 + timeout) (reverse all_containers) (m.clock w).1)
