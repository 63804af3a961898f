-- ===== src/Engine/Cleanup.antt =====
-- Proofs about the inspection and the stop of one container in dispatcher/engine_manager.py.
use single_gpu_ai_services.Base.{
  ℕ, min, ◌-◌, ◌≡◌, refl, ap, subst, false, Option, none, List, [], ◌∷◌, String, arith, Result, ok,
  err,
}
use single_gpu_ai_services.Runner.{Command, docker_stop, docker_inspect, run_result}
use single_gpu_ai_services.Engine.{
  Machine, Settings, EngineError, ContainerState, running, stopped, missing,
}
use single_gpu_ai_services.Engine.Docker.{Docker, Quiet, starts}
use single_gpu_ai_services.Engine.Manager.{
  Action, ◌>>=◌, capped, resume, remaining, execute, run_command, inspect_state, state_of,
  state_of_text, is_running, verdict, verify_stopped, stop_state, stop_one, stop_each,
  default_limit,
}

module _ (m : Machine) (s : Settings) (k : Docker m) where
  abbrev pub Q : String → m.World → m.World → Type 0
  Q = Quiet m k.is_up k.is_pending

  pub Q-refl : (c : String) (w : m.World) → Q c w w
  Q-refl c w = record { calm = λ p. p; low = λ p u. u }

  pub Q-trans : (c : String) (a b d : m.World) → Q c a b → Q c b d → Q c a d
  Q-trans c a b d f g = record {
    calm = λ p. g.calm (f.calm p);
    low = λ p u. g.low (f.calm p) (f.low p u);
  }

  -- An operation that does not bring `c` up.
  abbrev pub Still : {A : Type 0} → String → Action m s A → Type 0
  Still {A} c f = (w : m.World) → Q c w (f w).1

  pub bind-Still :
      {A B : Type 0}
      → (c : String) (f : Action m s A) (g : A → Action m s B) → Still c f
      → ((a : A) → Still c (g a))
      → Still c (◌>>=◌ m s f g)
  bind-Still {A} {B} c f g h j w = bound (f w) (h w)
    where
      bound : (t : Result EngineError A × m.World) → Q c w t.1 → Q c w (resume m s g t).1
      bound (ok a, w') q = Q-trans c w w' (g a w').1 q (j a w')
      bound (err x, w') q = q

  pub remaining-Still : (c : String) (deadline : ℕ) → Still c (remaining m s deadline)
  unfolding remaining
  remaining-Still c deadline w = ground (arith, k.clock_Quiet c w)

  pub execute-Still :
      (c : String) (command : Command) (t : ℕ)
      → starts c command ≡ false
      → Still c (execute m s command t)
  unfolding execute
  execute-Still c command t h w = ground (arith, k.exec_Quiet c command t w h)

  pub run_command-Still :
      (c : String) (limit : Option ℕ) (deadline : ℕ) (command : Command)
      → starts c command ≡ false
      → Still c (run_command m s limit deadline command)
  unfolding run_command
  run_command-Still c limit deadline command h =
      bind-Still c (remaining m s deadline) (λ left. execute m s command (capped limit left))
        (remaining-Still c deadline) (λ left. execute-Still c command (capped limit left) h)

  pub inspect-Still : (c d : String) (deadline : ℕ) → Still c (inspect_state m s d deadline)
  unfolding inspect_state
  inspect-Still c d deadline w =
      run_command-Still c default_limit deadline (docker_inspect d) refl w

  -- A state other than running is only answered of a container that is down.
  state_of-down :
      (c : String) (t : ℕ) (w : m.World) (st : ContainerState)
      → state_of c (execute m s (docker_inspect c) t w).0 ≡ ok st
      → is_running st ≡ false
      → k.is_up c (execute m s (docker_inspect c) t w).1 ≡ false
  unfolding state_of state_of_text execute run_result
  state_of-down c t w st e h = ground (arith, k.inspect_true c t w)

  inspect-down :
      (c : String) (deadline : ℕ) (w : m.World) (st : ContainerState)
      → (inspect_state m s c deadline w).0 ≡ ok st
      → is_running st ≡ false
      → k.is_up c (inspect_state m s c deadline w).1 ≡ false
  unfolding inspect_state run_command remaining state_of
  inspect-down c deadline w st e h =
      ground (arith, state_of-down c (min (deadline - (m.clock w).0) 10000000) (m.clock w).1 st)

  verify_stopped-Still :
      (c d : String) (deadline : ℕ) (t : Result EngineError String × m.World)
      → Q c t.1 (verify_stopped m s deadline d t).1
  unfolding verify_stopped
  verify_stopped-Still c d deadline (err e, w) = Q-refl c w
  verify_stopped-Still c d deadline (ok x, w) = inspect-Still c d deadline w

  stop_state-Still :
      (c d : String) (deadline : ℕ) (t : Result EngineError ContainerState × m.World)
      → Q c t.1 (stop_state m s deadline d t).1
  unfolding stop_state
  stop_state-Still c d deadline (err e, w) = Q-refl c w
  stop_state-Still c d deadline (ok running, w) =
      let t = run_command m s none deadline (docker_stop d) w in
      Q-trans c w t.1 _ (run_command-Still c none deadline (docker_stop d) refl w)
        (verify_stopped-Still c d deadline t)
  stop_state-Still c d deadline (ok stopped, w) = Q-refl c w
  stop_state-Still c d deadline (ok missing, w) = Q-refl c w

  pub stop_one-Still :
      (c d : String) (deadline : ℕ) (w : m.World) → Q c w (stop_one m s deadline d w).1
  unfolding stop_one
  stop_one-Still c d deadline w =
      let t = inspect_state m s d deadline w in
      Q-trans c w t.1 _ (inspect-Still c d deadline w) (stop_state-Still c d deadline t)

  pub stop_each-Still :
      (c : String) (deadline : ℕ) (ds : List String) (w : m.World)
      → Q c w (stop_each m s deadline ds w).1
  unfolding stop_each
  stop_each-Still c deadline [] w = Q-refl c w
  stop_each-Still c deadline (d ∷ ds) w =
      let w' = (stop_one m s deadline d w).1 in
      Q-trans c w w' _ (stop_one-Still c d deadline w) (stop_each-Still c deadline ds w')

  -- Without a fault the container is down.
  verify_stopped-down :
      (c : String) (deadline : ℕ) (t : Result EngineError String × m.World)
      → (verify_stopped m s deadline c t).0 ≡ none
      → k.is_up c (verify_stopped m s deadline c t).1 ≡ false
  unfolding verify_stopped verdict
  verify_stopped-down c deadline (err e, w) h = ground arith
  verify_stopped-down c deadline (ok x, w) h = ground (
    arith,
    inspect-down c deadline w running,
    inspect-down c deadline w stopped,
    inspect-down c deadline w missing,
  )

  stop_state-down :
      (c : String) (deadline : ℕ) (w : m.World) (t : Result EngineError ContainerState × m.World)
      → inspect_state m s c deadline w ≡ t
      → (stop_state m s deadline c t).0 ≡ none
      → k.is_up c (stop_state m s deadline c t).1 ≡ false
  unfolding stop_state
  stop_state-down c deadline w (err e, w') q h = ground arith
  stop_state-down c deadline w (ok running, w') q h =
      verify_stopped-down c deadline (run_command m s none deadline (docker_stop c) w') h
  stop_state-down c deadline w (ok stopped, w') q h =
      subst (λ t. k.is_up c t.1 ≡ false) q
        (inspect-down c deadline w stopped (ap (λ t. t.0) q) refl)
  stop_state-down c deadline w (ok missing, w') q h =
      subst (λ t. k.is_up c t.1 ≡ false) q
        (inspect-down c deadline w missing (ap (λ t. t.0) q) refl)

  pub stop_one-down :
      (c : String) (deadline : ℕ) (w : m.World)
      → (stop_one m s deadline c w).0 ≡ none
      → k.is_up c (stop_one m s deadline c w).1 ≡ false
  unfolding stop_one
  stop_one-down c deadline w h =
      stop_state-down c deadline w (inspect_state m s c deadline w) refl h
