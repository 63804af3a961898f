-- ===== src/Engine/Startup.antt =====
-- Proofs about `start` of dispatcher/engine_manager.py.
use single_gpu_ai_services.Base.{
  ℕ, ◌≡◌, refl, true, false, some, List, String, arith, contains, Result, Result-cases, ok, err,
  inl, inr,
}
use single_gpu_ai_services.Engine.{
  Machine, Settings, EngineError, is_cleanup, Component, services, lookup_service, names,
}
use single_gpu_ai_services.Engine.Docker.{Docker}
use single_gpu_ai_services.Engine.Manager.{start_known, settle, start, stop, startup_error}
use single_gpu_ai_services.Engine.Cleanup.{Q, Q-refl, Q-trans}
use single_gpu_ai_services.Engine.Stopping.{Down, stop-Still, stop-Down}
use single_gpu_ai_services.Engine.Launch.{is_sound, gave_up, start_known-Still, start_known-Calm}

module _ (m : Machine) (s : Settings) (k : Docker m) where
  settle-Still :
      (c service : String) (t : Result EngineError (Unit {0}) × m.World)
      → Q m s k c t.1 (settle m s service t).1
  unfolding settle
  settle-Still c service (ok x, w) = Q-refl m s k c w
  settle-Still c service (err e, w) = stop-Still m s k c service s.cleanup_timeout w

  -- `start` brings no container of another service up, whether it succeeds or not, when no start of
  -- that container was pending.
  pub start-Still :
      (c service : String) (cs : List Component) (timeout : ℕ) (w : m.World)
      → lookup_service service services ≡ some cs
      → contains c (names cs) ≡ false
      → Q m s k c w (start m s service timeout w).1
  unfolding start
  start-Still c service cs timeout w e i =
      let t = start_known m s service cs timeout w in
      rw (e, start)
        (Q-trans m s k c w t.1 _ (start_known-Still m s k c service cs timeout i w)
          (settle-Still c service t))

  settle-Down :
      (c service : String) (cs : List Component) (t : Result EngineError (Unit {0}) × m.World)
      (e : EngineError)
      → lookup_service service services ≡ some cs
      → contains c (names cs) ≡ true
      → (gave_up t.0 ≡ false → k.is_pending c t.1 ≡ false)
      → (settle m s service t).0 ≡ err e
      → is_cleanup e ≡ false
      → Down m s k c (settle m s service t).1
  unfolding settle startup_error
  settle-Down c service cs (ok x, w) e q i p h n = ground arith
  settle-Down c service cs (err x, w) e q i p h n =
      let r = stop m s service s.cleanup_timeout w in
      elim (Result-cases r.0) [
        | inl (y, f) ↦ stop-Down m s k c service cs s.cleanup_timeout w y q i (p (ground arith)) f
        | inr (y, f) ↦ ground arith
      ]

  -- When `start` raises an error that is not a cleanup error, each container of the service is down and
  -- no start of it is pending, if none was pending before.
  pub start-Down :
      (c service : String) (cs : List Component) (timeout : ℕ) (w : m.World) (e : EngineError)
      → lookup_service service services ≡ some cs
      → contains c (names cs) ≡ true
      → k.is_pending c w ≡ false
      → (start m s service timeout w).0 ≡ err e
      → is_cleanup e ≡ false
      → Down m s k c (start m s service timeout w).1
  unfolding start
  start-Down c service cs timeout w e q i p h n =
      let t = start_known m s service cs timeout w in
      rw (q, start)
        (settle-Down c service cs t e q i (λ o. start_known-Calm m s k c service cs timeout w o p)
          (rw (q, start) at h) n)

  settle-Calm :
      (c service : String) (t : Result EngineError (Unit {0}) × m.World)
      → (gave_up t.0 ≡ false → k.is_pending c t.1 ≡ false)
      → is_sound (settle m s service t).0 ≡ true
      → k.is_pending c (settle m s service t).1 ≡ false
  unfolding settle startup_error
  settle-Calm c service (ok x, w) p h = p refl
  settle-Calm c service (err x, w) p h =
      let r = stop m s service s.cleanup_timeout w in
      let q = stop-Still m s k c service s.cleanup_timeout w in
      elim (Result-cases r.0) [ inl (y, f) ↦ q.calm (p (ground arith)) | inr (y, f) ↦ ground arith ]

  pub start-Calm :
      (c service : String) (cs : List Component) (timeout : ℕ) (w : m.World)
      → lookup_service service services ≡ some cs
      → k.is_pending c w ≡ false
      → is_sound (start m s service timeout w).0 ≡ true
      → k.is_pending c (start m s service timeout w).1 ≡ false
  unfolding start
  start-Calm c service cs timeout w q p h =
      let t = start_known m s service cs timeout w in
      rw (q, start)
        (settle-Calm c service t (λ o. start_known-Calm m s k c service cs timeout w o p)
          (rw (q, start) at h))
