-- ===== src/Engine/Launch.antt =====
-- Proofs about the loop of `start` of dispatcher/engine_manager.py.
use single_gpu_ai_services.Base.{
  ℕ, ◌+◌, ◌≡◌, refl, Bool, true, false, not, List, [], ◌∷◌, String, arith, ◌==◌, contains, Result,
  ok, err,
}
use single_gpu_ai_services.Runner.{docker_start, run_result}
use single_gpu_ai_services.Engine.{
  Machine, Settings, EngineError, is_cleanup, ContainerState, running, stopped, missing, Component,
  names, container_missing,
}
use single_gpu_ai_services.Engine.Docker.{Docker}
use single_gpu_ai_services.Engine.Manager.{
  Action, ◌>>=◌, capped, resume, remaining, execute, run_command, inspect_state, is_missing,
  default_limit, raise_if, wait_until_healthy, launch, start_component, start_each, start_known,
  is_start_timeout,
}
use single_gpu_ai_services.Engine.Cleanup.{
  Q-refl, Q-trans, Still, bind-Still, remaining-Still, run_command-Still, inspect-Still,
}
use single_gpu_ai_services.Engine.Health.{raise_if-Still, wait-Still}

-- A call that returned, or raised an error that is not a cleanup error.
abbrev pub is_sound : Result EngineError (Unit {0}) → Bool
is_sound (ok x) = true
is_sound (err e) = not (is_cleanup e)

abbrev pub gave_up : {A : Type 0} → Result EngineError A → Bool
gave_up (ok a) = false
gave_up (err e) = is_start_timeout e

module _ (m : Machine) (s : Settings) (k : Docker m) where
  -- An operation after which no start of `c` is pending, unless it says so.
  abbrev pub Calm : {A : Type 0} → String → Action m s A → Type 0
  Calm {A} c f =
      (w : m.World)
      → gave_up (f w).0 ≡ false
      → k.is_pending c w ≡ false
      → k.is_pending c (f w).1 ≡ false

  pub Still-Calm : {A : Type 0} (c : String) (f : Action m s A) → Still m s k c f → Calm c f
  Still-Calm c f h w g p = (h w).calm p

  pub bind-Calm :
      {A B : Type 0}
      → (c : String) (f : Action m s A) (g : A → Action m s B) → Calm c f
      → ((a : A) → Calm c (g a))
      → Calm c (◌>>=◌ m s f g)
  bind-Calm {A} {B} c f g h j w o p = bound (f w) (λ q. h w q p) o
    where
      bound :
          (t : Result EngineError A × m.World)
          → (gave_up t.0 ≡ false → k.is_pending c t.1 ≡ false)
          → gave_up (resume m s g t).0 ≡ false
          → k.is_pending c (resume m s g t).1 ≡ false
      bound (ok a, w') q e = j a w' e (q refl)
      bound (err x, w') q e = q e

  pub launch-Still :
      (c d : String) (st : ContainerState) (deadline : ℕ)
      → (d == c) ≡ false
      → Still m s k c (launch m s st d deadline)
  unfolding launch
  launch-Still c d running deadline h w = Q-refl m s k c w
  launch-Still c d missing deadline h w = Q-refl m s k c w
  launch-Still c d stopped deadline h w =
      bind-Still m s k c (run_command m s default_limit deadline (docker_start d))
        (λ _ w. (ok tt, w)) (run_command-Still m s k c default_limit deadline (docker_start d) h)
        (λ _ w'. Q-refl m s k c w') w

  pub execute_start-Calm : (c d : String) (t : ℕ) → Calm c (execute m s (docker_start d) t)
  unfolding execute run_result
  execute_start-Calm c d t w o p = ground (arith, k.start_ends c d t w)

  pub launch-Calm :
      (c d : String) (st : ContainerState) (deadline : ℕ) → Calm c (launch m s st d deadline)
  unfolding launch run_command
  launch-Calm c d running deadline w o p = p
  launch-Calm c d missing deadline w o p = p
  launch-Calm c d stopped deadline w o p =
      let begin = λ (left : ℕ). execute m s (docker_start d) (capped default_limit left) in
      bind-Calm c (run_command m s default_limit deadline (docker_start d)) (λ _ w. (ok tt, w))
        (bind-Calm c (remaining m s deadline) begin
          (Still-Calm c (remaining m s deadline) (remaining-Still m s k c deadline))
          (λ left. execute_start-Calm c d (capped default_limit left)))
        (λ _ w' o' p'. p') w o p

  pub start_component-Still :
      (c service : String) (d : Component) (deadline : ℕ)
      → (d.0 == c) ≡ false
      → Still m s k c (start_component m s service d deadline)
  unfolding start_component
  start_component-Still c service d deadline h =
      let wait = λ (_ : Unit {0}). wait_until_healthy m s service d deadline s.health_attempts in
      let up =
        λ (st : ContainerState) (_ : Unit {0}). ◌>>=◌ m s (launch m s st d.0 deadline) wait in
      let guard = λ (st : ContainerState). raise_if m s (is_missing st) (container_missing d.0) in
      bind-Still m s k c (inspect_state m s d.0 deadline) (λ st. ◌>>=◌ m s (guard st) (up st))
        (inspect-Still m s k c d.0 deadline)
        (λ st.
          bind-Still m s k c (guard st) (up st)
            (raise_if-Still m s k c (is_missing st) (container_missing d.0))
            (λ _.
              bind-Still m s k c (launch m s st d.0 deadline) wait
                (launch-Still c d.0 st deadline h)
                (λ _. wait-Still m s k c service d deadline s.health_attempts)))

  pub start_component-Calm :
      (c service : String) (d : Component) (deadline : ℕ)
      → Calm c (start_component m s service d deadline)
  unfolding start_component
  start_component-Calm c service d deadline =
      let wait = λ (_ : Unit {0}). wait_until_healthy m s service d deadline s.health_attempts in
      let up =
        λ (st : ContainerState) (_ : Unit {0}). ◌>>=◌ m s (launch m s st d.0 deadline) wait in
      let guard = λ (st : ContainerState). raise_if m s (is_missing st) (container_missing d.0) in
      bind-Calm c (inspect_state m s d.0 deadline) (λ st. ◌>>=◌ m s (guard st) (up st))
        (Still-Calm c (inspect_state m s d.0 deadline) (inspect-Still m s k c d.0 deadline))
        (λ st.
          bind-Calm c (guard st) (up st)
            (Still-Calm c (guard st)
              (raise_if-Still m s k c (is_missing st) (container_missing d.0)))
            (λ _.
              bind-Calm c (launch m s st d.0 deadline) wait (launch-Calm c d.0 st deadline) (λ _.
                Still-Calm c (wait tt) (wait-Still m s k c service d deadline s.health_attempts))))

  pub start_each-Still :
      (c service : String) (ds : List Component) (deadline : ℕ)
      → contains c (names ds) ≡ false
      → Still m s k c (start_each m s service ds deadline)
  unfolding start_each
  start_each-Still c service [] deadline h w = Q-refl m s k c w
  start_each-Still c service (d ∷ ds) deadline h w =
      let next = λ (_ : Unit {0}). start_each m s service ds deadline in
      bind-Still m s k c (start_component m s service d deadline) next
        (start_component-Still c service d deadline (ground arith))
        (λ _. start_each-Still c service ds deadline (ground arith)) w

  pub start_each-Calm :
      (c service : String) (ds : List Component) (deadline : ℕ)
      → Calm c (start_each m s service ds deadline)
  unfolding start_each
  start_each-Calm c service [] deadline w o p = p
  start_each-Calm c service (d ∷ ds) deadline w o p =
      let next = λ (_ : Unit {0}). start_each m s service ds deadline in
      bind-Calm c (start_component m s service d deadline) next
        (start_component-Calm c service d deadline) (λ _. start_each-Calm c service ds deadline) w o
        p

  pub start_known-Still :
      (c service : String) (ds : List Component) (timeout : ℕ)
      → contains c (names ds) ≡ false
      → Still m s k c (start_known m s service ds timeout)
  unfolding start_known
  start_known-Still c service ds timeout h w =
      Q-trans m s k c w (m.clock w).1 _ (k.clock_Quiet c w)
        (start_each-Still c service ds ((m.clock w).0 + timeout) h (m.clock w).1)

  pub start_known-Calm :
      (c service : String) (ds : List Component) (timeout : ℕ)
      → Calm c (start_known m s service ds timeout)
  unfolding start_known
  start_known-Calm c service ds timeout w o p =
      start_each-Calm c service ds ((m.clock w).0 + timeout) (m.clock w).1 o
        ((k.clock_Quiet c w).calm p)
