-- ===== src/Cluster/Tests.antt =====
-- A run of dispatcher/dispatcher.py and dispatcher/engine_manager.py together.
use single_gpu_ai_services.Base.{◌≡◌, refl, true, some, List, [], ◌∷◌, String, ok, contains}
use single_gpu_ai_services.Engine.{
  EngineError, has_service, lookup_service, services, all_containers,
}
use single_gpu_ai_services.Engine.Manager.{
  start, stop, reconcile, start_known, settle, startup_error, start_each, start_component, launch,
  wait_until_healthy, check_alive, pause, probe, stop_known, stop_components, stop_each, stop_one,
  stop_state, verify_stopped, inspect_state, run_command, remaining, execute, state_of,
  state_of_text, verdict,
}
use single_gpu_ai_services.Runner.{run_result}
use single_gpu_ai_services.Engine.Tests.{host, settings, host-Docker, two_running}
use single_gpu_ai_services.Dispatcher.Time.{whole}
use single_gpu_ai_services.Dispatcher.Lease.{LeaseRecord, find, put, pop, pop_all}
use single_gpu_ai_services.Dispatcher.State.{
  Config, Dispatcher, init, initial, validate_config, is_ready, prune, stale_ids, mark_terminal,
}
use single_gpu_ai_services.Dispatcher.Api.{submit, admit, resubmit}
use single_gpu_ai_services.Dispatcher.Worker.{
  turn, serve, tidy, expire_queued, expire_each, expire_one, pick, tend, next_queued, next_from,
  reconciled, started, started_record,
}
use single_gpu_ai_services.Dispatcher.System.{submits, work, step}
use single_gpu_ai_services.Dispatcher.Invariant.Run.{boot}
use single_gpu_ai_services.Cluster.{
  Cluster, Input, calls, proceeds, passes, call, outcome, engine_call, advance, play, containers_of,
}
use single_gpu_ai_services.Cluster.Exclusion.{play-exclusive}

abbrev config : Config
config = record {
  has_service = has_service;
  max_queue_wait = 30000000;
  startup_timeout = 120000000;
  active_timeout = 330000000;
  cleanup_timeout = 60000000;
  terminal_retention = 600000000;
  max_records = 4096;
  clock = λ n. n;
}

abbrev fresh : Dispatcher
fresh = initial config "e1"

fresh-init : init config "e1" ≡ ok fresh
unfolding init validate_config
fresh-init = refl

-- The containers of "ocr" run when the dispatcher comes up, and again when the lease is active.
abbrev inputs : List Input
inputs =
    proceeds
    ∷ calls (submits "ocr" "a" "e1" (whole 20000000))
    ∷ passes 500
    ∷ proceeds
    ∷ proceeds
    ∷ []

abbrev text : EngineError → String
text e = "engine error"

abbrev booted : Cluster host settings text
booted = record { system = boot fresh; world = two_running }

final_ready : is_ready (play host settings text booted inputs).system.dispatcher.system_state ≡ true
unfolding play advance call outcome engine_call step work submit admit resubmit prune stale_ids pop
    pop_all put find turn serve tidy expire_queued expire_each expire_one pick tend next_queued
    next_from reconciled started started_record mark_terminal has_service start start_known settle
    startup_error start_each start_component launch wait_until_healthy check_alive pause probe stop
    lookup_service services stop_known stop_components stop_each stop_one stop_state verify_stopped
    inspect_state run_command remaining execute run_result state_of state_of_text verdict reconcile
    all_containers
final_ready = refl

final_up : contains "ai-ocr-vlm" (play host settings text booted inputs).world.up ≡ true
unfolding play advance call outcome engine_call step work submit admit resubmit prune stale_ids pop
    pop_all put find turn serve tidy expire_queued expire_each expire_one pick tend next_queued
    next_from reconciled started started_record mark_terminal has_service start start_known settle
    startup_error start_each start_component launch wait_until_healthy check_alive pause probe stop
    lookup_service services stop_known stop_components stop_each stop_one stop_state verify_stopped
    inspect_state run_command remaining execute run_result state_of state_of_text verdict reconcile
    all_containers
final_up = refl

play-exclusive_example :
    let d = (play host settings text booted inputs).system.dispatcher in
    (j : String) × (r : LeaseRecord) × (d.current ≡ some j)
    × (find j d.records ≡ some r)
    × (contains "ai-ocr-vlm" (containers_of r.service) ≡ true)
unfolding host-Docker all_containers
play-exclusive_example =
    play-exclusive host settings text host-Docker config "e1" fresh two_running inputs "ai-ocr-vlm"
      fresh-init (λ x. refl) final_ready refl final_up
