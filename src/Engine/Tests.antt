-- ===== src/Engine/Tests.antt =====
-- Runs of dispatcher/engine_manager.py on a machine whose containers do as they are told.
use single_gpu_ai_services.Base.{
  ℕ, ◌+◌, ◌≡◌, refl, Bool, true, false, none, List, [], ◌∷◌, String, ◌==◌, arith, contains,
  if◌then◌else◌, ok, err, Bool-cases, inl, inr,
}
use single_gpu_ai_services.Runner.{
  Command, docker_inspect, docker_start, docker_stop, curl, Process, exited, exit_status,
  run_result,
}
use single_gpu_ai_services.Engine.{
  Machine, Settings, unhealthy, services, lookup_service, all_containers,
}
use single_gpu_ai_services.Engine.Docker.{Docker, Quiet, starts, says_down}
use single_gpu_ai_services.Engine.Manager.{
  start, stop, reconcile, start_known, settle, startup_error, start_each, start_component, launch,
  wait_until_healthy, check_alive, pause, probe, stop_known, stop_components, stop_each, stop_one,
  stop_state, verify_stopped, inspect_state, run_command, remaining, execute, state_of,
  state_of_text, verdict,
}
use single_gpu_ai_services.Engine.Stopping.{Down, stop-Down, reconcile-Down}
use single_gpu_ai_services.Engine.Startup.{start-Still, start-Down}

-- A world: the time, the containers that run, and whether their servers answer.
pub record Host : Type 0 where
  pub now : ℕ
  pub up : List String
  pub answers : Bool

abbrev pub remove : String → List String → List String
remove c [] = []
remove c (d ∷ ds) = let rest = remove c ds in if d == c then rest else d ∷ rest

abbrev pub reply : Command → Host → Process × Host
reply (docker_inspect c) h = (exited (if contains c h.up then "true\n" else "false\n"), h)
reply (docker_start c) h = (exited c, record h { up = c ∷ h.up })
reply (docker_stop c) h = (exited c, record h { up = remove c h.up })
reply (curl t url) h = (if h.answers then exited "" else exit_status 22 none, h)

abbrev pub host : Machine
host = record {
  World = Host;
  clock = λ h. (h.now, record h { now = h.now + 10 });
  sleep = λ t h. record h { now = h.now + t };
  exec = λ command t h. reply command h;
}

abbrev pub settings : Settings
settings = record { health_attempts = 2; health_interval = 1000000; cleanup_timeout = 60000000 }

contains-remove :
    (c d : String) (ds : List String) → contains c ds ≡ false → contains c (remove d ds) ≡ false
contains-remove c d [] h = refl
contains-remove c d (x ∷ xs) h = ground (arith, contains-remove c d xs)

pub reply-Quiet :
    (c : String) (command : Command) (h : Host)
    → starts c command ≡ false
    → contains c h.up ≡ false
    → contains c (reply command h).1.up ≡ false
reply-Quiet c (docker_inspect d) h s q = q
reply-Quiet c (docker_start d) h s q = rw (s, q) refl
reply-Quiet c (docker_stop d) h s q = contains-remove c d h.up q
reply-Quiet c (curl t url) h s q = q

pub reply-true :
    (c : String) (h : Host)
    → says_down (reply (docker_inspect c) h).0 ≡ true
    → contains c h.up ≡ false
reply-true c h s = elim (Bool-cases (contains c h.up)) [
  | inl e ↦ ground (arith, rw e at s)
  | inr e ↦ e
]

unfoldable pub host-Docker : Docker host
host-Docker = record {
  is_up = λ c h. contains c h.up;
  is_pending = λ c h. false;
  clock_Quiet = λ c h. record { calm = λ p. p; low = λ p q. q };
  sleep_Quiet = λ c t h. record { calm = λ p. p; low = λ p q. q };
  exec_Quiet =
      λ c command t h s. record { calm = λ p. p; low = λ p q. reply-Quiet c command h s q };
  start_ends = λ c d t h e p. p;
  inspect_true = λ c t h s. reply-true c h s;
}

abbrev pub two_running : Host
two_running = record { now = 5; up = "ai-ocr-api" ∷ "ai-ocr-vlm" ∷ []; answers = true }

abbrev silent : Host
silent = record { now = 5; up = "ai-stt" ∷ []; answers = false }

abbrev sick : Host
sick = record { now = 5; up = []; answers = false }

abbrev ocr : List (String × String)
ocr =
    ("ai-ocr-vlm", "http://ai-ocr-vlm:8080/health")
    ∷ ("ai-ocr-api", "http://ai-ocr-api:8080/health")
    ∷ []

stop_two : (stop host settings "ocr" 60000000 two_running).0 ≡ ok tt
unfolding stop lookup_service services stop_known stop_components stop_each stop_one stop_state
    verify_stopped inspect_state run_command remaining execute run_result state_of state_of_text
    verdict
stop_two = refl

start-sick :
    (start host settings "ocr" 120000000 sick).0
    ≡ err (unhealthy "ocr" "http://ai-ocr-vlm:8080/health")
unfolding start start_known settle startup_error start_each start_component launch
    wait_until_healthy check_alive pause probe stop lookup_service services stop_known
    stop_components stop_each stop_one stop_state verify_stopped inspect_state run_command remaining
    execute run_result state_of state_of_text verdict
start-sick = refl

reconcile_two : (reconcile host settings 60000000 two_running).0 ≡ ok tt
unfolding reconcile all_containers lookup_service services stop_known stop_components stop_each
    stop_one stop_state verify_stopped inspect_state run_command remaining execute run_result
    state_of state_of_text verdict
reconcile_two = refl

stop-Down_example :
    Down host settings host-Docker "ai-ocr-vlm" (stop host settings "ocr" 60000000 two_running).1
unfolding host-Docker lookup_service services
stop-Down_example =
    stop-Down host settings host-Docker "ai-ocr-vlm" "ocr" ocr 60000000 two_running tt refl refl
      refl stop_two

reconcile-Down_example :
    Down host settings host-Docker "ai-ocr-api" (reconcile host settings 60000000 two_running).1
unfolding host-Docker all_containers
reconcile-Down_example =
    reconcile-Down host settings host-Docker "ai-ocr-api" 60000000 two_running tt refl refl
      reconcile_two

start-Down_example :
    Down host settings host-Docker "ai-ocr-vlm" (start host settings "ocr" 120000000 sick).1
unfolding host-Docker lookup_service services
start-Down_example =
    start-Down host settings host-Docker "ai-ocr-vlm" "ocr" ocr 120000000 sick
      (unhealthy "ocr" "http://ai-ocr-vlm:8080/health") refl refl refl start-sick refl

start-Still_example :
    Quiet host host-Docker.is_up host-Docker.is_pending "ai-llm" sick
      (start host settings "ocr" 120000000 sick).1
unfolding lookup_service services
start-Still_example =
    start-Still host settings host-Docker "ai-llm" "ocr" ocr 120000000 sick refl refl
