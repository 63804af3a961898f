-- ===== src/Engine/Manager.antt =====
-- The methods of `EngineManager`, as functions of the machine's state. The loop of the health check is
-- a recursion on the attempts left.
use single_gpu_ai_services.Base.{
  ℕ, zero, suc, ◌+◌, ◌-◌, min, max, Bool, true, false, not, Option, none, some, List, [], ◌∷◌,
  String, if◌then◌else◌, leb, eqb, Result, ok, err, codes, strip, eq_codes, reverse,
}
use single_gpu_ai_services.Runner.{
  Command, docker_inspect, docker_start, docker_stop, curl, command_timeout, command_failed,
  run_result,
}
use single_gpu_ai_services.Engine.{
  Machine, ContainerState, running, stopped, missing, Fault, unknown_state, stop_failed,
  still_running, unverified, EngineError, unknown_service, deadline_exceeded, command_error,
  state_unknown, container_missing, stopped_early, unhealthy, cleanup_unverified, startup_cleanup,
  uncertain_start, Component, services, lookup_service, is_missing_message, seconds, Settings,
  names, all_containers,
}

-- What `_inspect_state` makes of the stripped output, and of an exception.
unfoldable pub state_of_text : String → List ℕ → Result EngineError ContainerState
state_of_text c value =
    if eq_codes value (codes "true")
    then ok running
    else (if eq_codes value (codes "false") then ok stopped else err (state_unknown c))

unfoldable pub state_of : String → Result EngineError String → Result EngineError ContainerState
state_of c (ok out) = state_of_text c (strip (codes out))
state_of c (err (command_error (command_failed command code stderr))) =
    if is_missing_message stderr then ok missing else err (state_unknown c)
state_of c (err _) = err (state_unknown c)

abbrev pub is_running : ContainerState → Bool
is_running running = true
is_running _ = false

abbrev pub is_missing : ContainerState → Bool
is_missing missing = true
is_missing _ = false

abbrev pub capped : Option ℕ → ℕ → ℕ
capped none left = left
capped (some limit) left = min left limit

abbrev pub default_limit : Option ℕ
default_limit = some 10000000

-- What the last inspection of a stopped container says.
unfoldable pub verdict : String → Result EngineError ContainerState → Option Fault
verdict c (err e) = some (unverified c)
verdict c (ok st) = if is_running st then some (still_running c) else none

abbrev pub prepend : Option Fault → List Fault → List Fault
prepend none fs = fs
prepend (some f) fs = f ∷ fs

abbrev pub raise_faults : List Fault → Result EngineError (Unit {0})
raise_faults [] = ok tt
raise_faults (f ∷ fs) = err (cleanup_unverified (f ∷ fs))

-- `CommandTimeout` of a `docker start`.
abbrev pub is_start_timeout : EngineError → Bool
is_start_timeout (command_error (command_timeout (docker_start c))) = true
is_start_timeout _ = false

-- What `start` raises after the cleanup.
unfoldable pub startup_error :
    String → EngineError → Result EngineError (Unit {0}) → Result EngineError (Unit {0})
startup_error service e (err cleanup) = err (startup_cleanup service)
startup_error service e (ok _) = if is_start_timeout e then err (uncertain_start service) else err e

module _ (m : Machine) (s : Settings) where
  abbrev pub Action : Type 0 → Type 0
  Action A = m.World → Result EngineError A × m.World

  abbrev pub resume :
      {A B : Type 0}
      → (A → Action B)
      → Result EngineError A × m.World
      → Result EngineError B × m.World
  resume k (ok a, w) = k a w
  resume k (err e, w) = (err e, w)

  infixl 5 ◌>>=◌ ◌>>◌
  abbrev pub ◌>>=◌ : {A B : Type 0} → Action A → (A → Action B) → Action B
  ◌>>=◌ f k w = resume k (f w)

  abbrev pub ◌>>◌ : {A B : Type 0} → Action A → Action B → Action B
  f >> k = f >>= λ _. k

  abbrev pub raise_if : Bool → EngineError → Action (Unit {0})
  raise_if test e w = (if test then err e else ok tt, w)

  abbrev pub read_clock : Action ℕ
  read_clock w = let (now, w') = m.clock w in (ok now, w')

  -- `_remaining`
  unfoldable pub remaining : ℕ → Action ℕ
  remaining deadline = do
    now ← read_clock
    raise_if (leb deadline now) deadline_exceeded
    λ w. (ok (deadline - now), w)

  -- `self.runner.run`
  unfoldable pub execute : Command → ℕ → Action String
  execute command timeout w =
      let (p, w') = m.exec command timeout w in
      elim (run_result command p) [ ok out ↦ (ok out, w') | err e ↦ (err (command_error e), w') ]

  -- `_run`, with `max_timeout` first.
  unfoldable pub run_command : Option ℕ → ℕ → Command → Action String
  run_command limit deadline command = do
    left ← remaining deadline
    execute command (capped limit left)

  -- `_inspect_state`
  unfoldable pub inspect_state : String → ℕ → Action ContainerState
  inspect_state c deadline w =
      let (r, w') = run_command default_limit deadline (docker_inspect c) w in (state_of c r, w')

  -- The command of the health check, inside its `try`.
  unfoldable pub probe : String → ℕ → Action String
  probe url deadline = do
    left ← remaining deadline
    left' ← remaining deadline
    execute (curl (max 1 (min 5 (seconds left))) url) (min left' 6000000)

  -- `if self.health_interval: time.sleep(...)`
  unfoldable pub pause : ℕ → Action (Unit {0})
  pause left w =
      (ok tt, if eqb s.health_interval 0 then w else m.sleep (min s.health_interval left) w)

  -- The handler of a health check that failed, up to the next attempt.
  unfoldable pub check_alive : String → String → ℕ → Action (Unit {0})
  check_alive service c deadline = do
    st ← inspect_state c deadline
    raise_if (not (is_running st)) (stopped_early service c)
    left ← remaining deadline
    pause left

  abbrev pub or_retry :
      Action (Unit {0})
      → Result EngineError String × m.World
      → Result EngineError (Unit {0}) × m.World
  or_retry again (ok _, w) = (ok tt, w)
  or_retry again (err _, w) = again w

  -- `_wait_until_healthy`
  unfoldable pub wait_until_healthy : String → Component → ℕ → ℕ → Action (Unit {0})
  wait_until_healthy service c deadline zero w = (err (unhealthy service c.1), w)
  wait_until_healthy service c deadline (suc attempts) w =
      or_retry
        (check_alive service c.0 deadline >>= λ _. wait_until_healthy service c deadline attempts)
        (probe c.1 deadline w)

  unfoldable pub launch : ContainerState → String → ℕ → Action (Unit {0})
  launch stopped c deadline w =
      (run_command default_limit deadline (docker_start c) >>= λ _ w'. (ok tt, w')) w
  launch _ c deadline w = (ok tt, w)

  -- The body of the loop of `start`.
  unfoldable pub start_component : String → Component → ℕ → Action (Unit {0})
  start_component service c deadline = do
    st ← inspect_state c.0 deadline
    raise_if (is_missing st) (container_missing c.0)
    launch st c.0 deadline
    wait_until_healthy service c deadline s.health_attempts

  unfoldable pub start_each : String → List Component → ℕ → Action (Unit {0})
  start_each service [] deadline w = (ok tt, w)
  start_each service (c ∷ cs) deadline w =
      (start_component service c deadline >>= λ _. start_each service cs deadline) w

  -- The end of the body of the loop of `_stop_components`: the container is inspected again.
  unfoldable pub verify_stopped :
      ℕ → String → Result EngineError String × m.World → Option Fault × m.World
  verify_stopped deadline c (err e, w) = (some (stop_failed c), w)
  verify_stopped deadline c (ok _, w) =
      let (st, w') = inspect_state c deadline w in (verdict c st, w')

  unfoldable pub stop_state :
      ℕ → String → Result EngineError ContainerState × m.World → Option Fault × m.World
  stop_state deadline c (err e, w) = (some (unknown_state c), w)
  stop_state deadline c (ok st, w) = elim (is_running st) [
    | false ↦ (none, w)
    | true ↦ verify_stopped deadline c (run_command none deadline (docker_stop c) w)
  ]

  -- The body of the loop of `_stop_components`.
  unfoldable pub stop_one : ℕ → String → m.World → Option Fault × m.World
  stop_one deadline c w = stop_state deadline c (inspect_state c deadline w)

  unfoldable pub stop_each : ℕ → List String → m.World → List Fault × m.World
  stop_each deadline [] w = ([], w)
  stop_each deadline (c ∷ cs) w =
      let (f, w') = stop_one deadline c w in
      let (fs, w'') = stop_each deadline cs w' in (prepend f fs, w'')

  -- `_stop_components`
  unfoldable pub stop_components : List String → ℕ → Action (Unit {0})
  stop_components cs deadline w = let (fs, w') = stop_each deadline cs w in (raise_faults fs, w')

  unfoldable pub stop_known : List Component → ℕ → Action (Unit {0})
  stop_known cs timeout = do now ← read_clock; stop_components (reverse (names cs)) (now + timeout)

  unfoldable pub stop : String → ℕ → Action (Unit {0})
  stop service timeout w = elim (lookup_service service services) [
    | none ↦ (err (unknown_service service), w)
    | some cs ↦ stop_known cs timeout w
  ]

  -- The two parts of `start`: its loop, and what follows an exception in it.
  unfoldable pub start_known : String → List Component → ℕ → Action (Unit {0})
  start_known service cs timeout = do now ← read_clock; start_each service cs (now + timeout)

  unfoldable pub settle :
      String → Result EngineError (Unit {0}) × m.World → Result EngineError (Unit {0}) × m.World
  settle service (ok _, w) = (ok tt, w)
  settle service (err e, w) =
      let (r, w') = stop service s.cleanup_timeout w in (startup_error service e r, w')

  unfoldable pub start : String → ℕ → Action (Unit {0})
  start service timeout w = elim (lookup_service service services) [
    | none ↦ (err (unknown_service service), w)
    | some cs ↦ settle service (start_known service cs timeout w)
  ]

  unfoldable pub reconcile : ℕ → Action (Unit {0})
  reconcile timeout = do now ← read_clock; stop_components (reverse all_containers) (now + timeout)
