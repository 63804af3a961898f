-- ===== src/Cluster.antt =====
-- The dispatcher of dispatcher/dispatcher.py with the engine manager of dispatcher/engine_manager.py as
-- its engine, on one machine: the outcome of an engine call is what the engine manager's method does.
--
-- An engine call runs without the dispatcher's lock. It reads nothing that the methods write, so it
-- stands as one step, at its end. `text` is `str` of an exception.
pub mod Safety
pub mod Effects
pub mod Turning
pub mod Proceeding
pub mod Methods
pub mod Stretches
pub mod Exclusion
mod Tests
use single_gpu_ai_services.Base.{
  ℕ, Bool, true, false, Option, none, some, List, [], ◌∷◌, String, if◌then◌else◌, contains, Result,
  ok, err, or_default,
}
use single_gpu_ai_services.Engine.{
  Machine, Settings, EngineError, is_cleanup, services, lookup_service, names,
}
use single_gpu_ai_services.Engine.Manager.{start, stop, reconcile}
use single_gpu_ai_services.Dispatcher.Lease.{LeaseRecord, find}
use single_gpu_ai_services.Dispatcher.State.{Dispatcher}
use single_gpu_ai_services.Dispatcher.Worker.{EngineOutcome, done, cleanup_error, engine_error}
use single_gpu_ai_services.Dispatcher.System.{
  Phase, reconciling_engine, looping, starting_engine, stopping_engine, finished, crashed, System,
  Event, works, step,
}
use single_gpu_ai_services.Dispatcher.Gpu.{Gpu, offline, free, loading, serving, unloading, lost}

-- A call of a method, the next stretch of the worker, or the passing of time.
pub data Input : Type 0 where
  calls : Event → Input
  proceeds : Input
  passes : ℕ → Input

-- `works` is no call of a method.
unfoldable pub call : System → Event → System
call s (works o) = s
call s e = step s e

-- The containers of a service.
abbrev pub containers_of : String → List String
containers_of service = names (or_default (lookup_service service services) [])

-- The containers that a lease may run, and those that may run for a view of the GPU.
abbrev pub of_lease : Option LeaseRecord → String → Bool
of_lease none x = true
of_lease (some r) x = contains x (containers_of r.service)

abbrev pub allowed : Gpu → List LeaseRecord → String → Bool
allowed free rs x = false
allowed (loading j) rs x = of_lease (find j rs) x
allowed (serving j) rs x = of_lease (find j rs) x
allowed (unloading j) rs x = of_lease (find j rs) x
allowed offline rs x = true
allowed (lost j) rs x = true

abbrev pub is_lost : Gpu → Bool
is_lost (lost j) = true
is_lost _ = false

module _ (m : Machine) (s : Settings) (text : EngineError → String) where
  pub record Cluster : Type 0 where
    pub system : System
    pub world : m.World

  unfoldable pub outcome : Result EngineError (Unit {0}) → EngineOutcome
  outcome (ok _) = done
  outcome (err e) = if is_cleanup e then cleanup_error (text e) else engine_error (text e)

  unfoldable pub engine_call :
      Phase → Dispatcher → m.World → Result EngineError (Unit {0}) × m.World
  engine_call reconciling_engine d w = reconcile m s d.cleanup_timeout w
  engine_call (starting_engine j) d w = elim (find j d.records) [
    | none ↦ (ok tt, w)
    | some r ↦ start m s r.service d.startup_timeout w
  ]
  engine_call (stopping_engine j) d w = elim (find j d.records) [
    | none ↦ (ok tt, w)
    | some r ↦ stop m s r.service d.cleanup_timeout w
  ]
  engine_call _ d w = (ok tt, w)

  unfoldable pub advance : Cluster → Input → Cluster
  advance c (calls e) = record c { system = call c.system e }
  advance c proceeds =
      let (r, w) = engine_call c.system.phase c.system.dispatcher c.world in
      record { system = step c.system (works (outcome r)); world = w }
  advance c (passes t) = record c { world = m.sleep t c.world }

  unfoldable pub play : Cluster → List Input → Cluster
  play c [] = c
  play c (i ∷ is) = play (advance c i) is
