-- ===== src/Engine/Health.antt =====
-- Proofs about `_wait_until_healthy` of dispatcher/engine_manager.py.
use single_gpu_ai_services.Base.{
  ℕ, zero, suc, min, max, refl, Bool, not, String, arith, Result, ok, err,
}
use single_gpu_ai_services.Runner.{curl}
use single_gpu_ai_services.Engine.{
  Machine, Settings, EngineError, Component, seconds, stopped_early,
}
use single_gpu_ai_services.Engine.Docker.{Docker}
use single_gpu_ai_services.Engine.Manager.{
  Action, ◌>>=◌, remaining, execute, inspect_state, is_running, raise_if, probe, pause, check_alive,
  or_retry, wait_until_healthy,
}
use single_gpu_ai_services.Engine.Cleanup.{
  Q, Q-refl, Q-trans, Still, bind-Still, remaining-Still, execute-Still, inspect-Still,
}

module _ (m : Machine) (s : Settings) (k : Docker m) where
  pub raise_if-Still :
      (c : String) (test : Bool) (e : EngineError) → Still m s k c (raise_if m s test e)
  raise_if-Still c test e w = Q-refl m s k c w

  probe-Still : (c url : String) (deadline : ℕ) → Still m s k c (probe m s url deadline)
  unfolding probe
  probe-Still c url deadline =
      bind-Still m s k c (remaining m s deadline)
        (λ a.
          ◌>>=◌ m s (remaining m s deadline)
            (λ b. execute m s (curl (max 1 (min 5 (seconds a))) url) (min b 6000000)))
        (remaining-Still m s k c deadline)
        (λ a.
          bind-Still m s k c (remaining m s deadline)
            (λ b. execute m s (curl (max 1 (min 5 (seconds a))) url) (min b 6000000))
            (remaining-Still m s k c deadline)
            (λ b.
              execute-Still m s k c (curl (max 1 (min 5 (seconds a))) url) (min b 6000000) refl))

  pause-Still : (c : String) (left : ℕ) → Still m s k c (pause m s left)
  unfolding pause
  pause-Still c left w =
      ground (arith, Q-refl m s k c w, k.sleep_Quiet c (min s.health_interval left) w)

  check_alive-Still :
      (c service d : String) (deadline : ℕ) → Still m s k c (check_alive m s service d deadline)
  unfolding check_alive
  check_alive-Still c service d deadline =
      let last = λ (left : ℕ). pause m s left in
      let check = λ (_ : Unit {0}). ◌>>=◌ m s (remaining m s deadline) last in
      bind-Still m s k c (inspect_state m s d deadline)
        (λ st. ◌>>=◌ m s (raise_if m s (not (is_running st)) (stopped_early service d)) check)
        (inspect-Still m s k c d deadline)
        (λ st.
          bind-Still m s k c (raise_if m s (not (is_running st)) (stopped_early service d)) check
            (raise_if-Still c (not (is_running st)) (stopped_early service d))
            (λ _.
              bind-Still m s k c (remaining m s deadline) last (remaining-Still m s k c deadline)
                (pause-Still c)))

  or_retry-Still :
      (c : String) (again : Action m s (Unit {0})) (t : Result EngineError String × m.World)
      → Still m s k c again
      → Q m s k c t.1 (or_retry m s again t).1
  or_retry-Still c again (ok x, w) h = Q-refl m s k c w
  or_retry-Still c again (err e, w) h = h w

  -- Waiting for a service brings no container up.
  pub wait-Still :
      (c service : String) (d : Component) (deadline attempts : ℕ)
      → Still m s k c (wait_until_healthy m s service d deadline attempts)
  unfolding wait_until_healthy
  wait-Still c service d deadline zero w = Q-refl m s k c w
  wait-Still c service d deadline (suc attempts) w =
      let next = λ (_ : Unit {0}). wait_until_healthy m s service d deadline attempts in
      Q-trans m s k c w (probe m s d.1 deadline w).1 _ (probe-Still c d.1 deadline w) (
        or_retry-Still c (◌>>=◌ m s (check_alive m s service d.0 deadline) next)
          (probe m s d.1 deadline w)
          (bind-Still m s k c (check_alive m s service d.0 deadline) next
            (check_alive-Still c service d.0 deadline)
            (λ _. wait-Still c service d deadline attempts)))
