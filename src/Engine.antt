-- ===== src/Engine.antt =====
-- dispatcher/engine_manager.py.
--
-- The machine is a parameter: its clock, `time.sleep`, and the end of each process. Times are whole
-- microseconds.
pub mod Manager
pub mod Docker
pub mod Cleanup
pub mod Stopping
pub mod Health
pub mod Launch
pub mod Startup
pub mod Tests
use single_gpu_ai_services.Base.{
  ℕ, zero, suc, ◌+◌, ◌-◌, ◌≡◌, refl, Bool, true, false, ◌||◌, Option, none, some, List, [], ◌∷◌,
  ◌++◌, map, reverse, String, ◌==◌, if◌then◌else◌, leb, ltb, eqb, Result, ok, err, codes, strip,
  lower, eq_codes, within, is_some, contains, ◌/◌,
}
use single_gpu_ai_services.Runner.{
  Command, docker_inspect, docker_start, docker_stop, curl, Process, CommandError, command_timeout,
  command_failed, run_result,
}

pub record Machine : Type 1 where
  pub World : Type 0
  pub clock : World → ℕ × World
  pub sleep : ℕ → World → World
  pub exec : Command → ℕ → World → Process × World

pub data ContainerState : Type 0 where
  running stopped missing : ContainerState

-- Why a container counts as not cleaned up.
pub data Fault : Type 0 where
  unknown_state : String → Fault
  stop_failed : String → Fault
  still_running : String → Fault
  unverified : String → Fault

pub data EngineError : Type 0 where
  unknown_service : String → EngineError
  deadline_exceeded : EngineError
  command_error : CommandError → EngineError
  state_unknown : String → EngineError
  container_missing : String → EngineError
  stopped_early : String → String → EngineError
  unhealthy : String → String → EngineError
  -- The three ways to raise `EngineCleanupError`.
  cleanup_unverified : List Fault → EngineError
  startup_cleanup : String → EngineError
  uncertain_start : String → EngineError

abbrev pub is_cleanup : EngineError → Bool
is_cleanup (cleanup_unverified fs) = true
is_cleanup (startup_cleanup s) = true
is_cleanup (uncertain_start s) = true
is_cleanup _ = false

-- `SERVICES`: the containers of a service with their health URLs, in starting order.
abbrev pub Component : Type 0
Component = String × String

unfoldable pub services : List (String × List Component)
services =
    ("stt", ("ai-stt", "http://ai-stt:8000/health") ∷ [])
    ∷ ("tts", ("ai-tts", "http://ai-tts:5002/") ∷ [])
    ∷ ("llm", ("ai-llm", "http://ai-llm:8080/health") ∷ [])
    ∷ ("embeddings", ("ai-embeddings", "http://ai-embeddings:8080/health") ∷ [])
    ∷ ("reranker", ("ai-reranker", "http://ai-reranker:8080/health") ∷ [])
    ∷ (
      "ocr",
      ("ai-ocr-vlm", "http://ai-ocr-vlm:8080/health")
          ∷ ("ai-ocr-api", "http://ai-ocr-api:8080/health")
          ∷ [],
    )
    ∷ []

unfoldable pub lookup_service : String → List (String × List Component) → Option (List Component)
lookup_service s [] = none
lookup_service s ((t, cs) ∷ rest) = if t == s then some cs else lookup_service s rest

unfoldable pub has_service : String → Bool
has_service s = is_some (lookup_service s services)

abbrev pub is_missing_message : String → Bool
is_missing_message stderr =
    let text = lower (codes stderr) in
    within (codes "no such object") text || within (codes "no such container") text

abbrev pub seconds : ℕ → ℕ
seconds n = n / 1000000

pub record Settings : Type 0 where
  pub health_attempts : ℕ
  pub health_interval : ℕ
  pub cleanup_timeout : ℕ

abbrev pub names : List Component → List String
names = map λ c. c.0

-- The containers of every service, each once, in the order of `SERVICES`.
gather : List String → List Component → List String
gather found [] = found
gather found (c ∷ cs) = gather (if contains c.0 found then found else found ++ c.0 ∷ []) cs

gather_all : List String → List (String × List Component) → List String
unfolding gather
gather_all found [] = found
gather_all found ((s, cs) ∷ rest) = gather_all (gather found cs) rest

unfoldable pub all_containers : List String
unfolding gather_all services
all_containers = gather_all [] services

all_containers-value :
    all_containers
    ≡ "ai-stt" ∷ "ai-tts" ∷ "ai-llm" ∷ "ai-embeddings" ∷ "ai-reranker" ∷ "ai-ocr-vlm" ∷ "ai-ocr-api"
      ∷ []
unfolding all_containers
all_containers-value = refl
