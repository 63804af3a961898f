-- ===== src/Dispatcher/Tests.antt =====
-- Runs of dispatcher/dispatcher.py and of dispatcher/internal_auth.py.
use single_gpu_ai_services.Base.{
  ℕ, ◌≡◌, ◌≢◌, refl, true, false, ◌||◌, Option, none, some, List, [], ◌∷◌, String, ◌==◌, ok, err,
}
use single_gpu_ai_services.Base.{◌⊎◌, codes}
use single_gpu_ai_services.Dispatcher.App.{get_status}
use single_gpu_ai_services.Dispatcher.InternalAuth.{
  too_short, Denial, unauthorized, type_error, load_internal_token, is_ascii,
  require_internal_token, protected, Presents, protected-Presents,
}
use single_gpu_ai_services.Dispatcher.Time.{whole, nan}
use single_gpu_ai_services.Dispatcher.Lease.{
  LeaseState, queued, active, stopping, released, cancelled, expired, LeaseRecord, Snapshot,
  is_queued, find, put, pop, pop_all,
}
use single_gpu_ai_services.Dispatcher.State.{
  Config, Dispatcher, init, initial, validate_config, lease_conflict, ready, prune, stale_ids,
  mark_terminal,
}
use single_gpu_ai_services.Dispatcher.Api.{
  submit, admit, resubmit, cancel, release, request_stop, stop_known, stop_unknown,
}
use single_gpu_ai_services.Dispatcher.Worker.{
  stop, turn, serve, tidy, expire_queued, expire_each, expire_one, pick, tend, next_queued,
  next_from, reconciled, started, started_record, stopped, stopped_record, cleanup_failed, done,
  is_due,
}
use single_gpu_ai_services.Dispatcher.System.{
  System, crashed, Event, submits, releases, works, step, work, run,
}
use single_gpu_ai_services.Dispatcher.Invariant.{Inv, IsValid, resting}
use single_gpu_ai_services.Dispatcher.Invariant.Run.{boot}
use single_gpu_ai_services.Dispatcher.Gpu.{view, Move, Gpu}
use single_gpu_ai_services.Dispatcher.Gpu.Moves.{step-Move}
use single_gpu_ai_services.Dispatcher.Progress.System.{Change, step-Change}
use single_gpu_ai_services.Dispatcher.Reachable.{
  reachable-Inv, reachable_exclusive, reachable-ne-crashed,
}
use single_gpu_ai_services.Dispatcher.Service.{first_waiting}
use single_gpu_ai_services.Dispatcher.Service.Turns.{Serves, turn-Serves}
use single_gpu_ai_services.Dispatcher.Service.Deadlines.{InTime, turn-InTime}
use single_gpu_ai_services.Dispatcher.Service.Overdue.{turn-stops_overdue}
use single_gpu_ai_services.Dispatcher.Retention.{Pruned, prune-Pruned}
use single_gpu_ai_services.Dispatcher.Calls.{submit_again, cancel-submit, submit-nan}

-- One tick of the clock for each reading.
abbrev config : Config
config = record {
  has_service = λ s. s == "llm" || s == "stt";
  max_queue_wait = 30;
  startup_timeout = 120;
  active_timeout = 6;
  cleanup_timeout = 60;
  terminal_retention = 600;
  max_records = 4;
  clock = λ n. n;
}

abbrev fresh : Dispatcher
fresh = initial config "e1"

fresh-init : init config "e1" ≡ ok fresh
unfolding init validate_config
fresh-init = refl

-- A run that every definition on its path computes in.
simulate : List Event → System
unfolding run step work submit admit resubmit release cancel request_stop stop_known stop_unknown
    prune stale_ids pop pop_all put find turn serve tidy expire_queued expire_each expire_one pick
    tend next_queued next_from reconciled started started_record stopped stopped_record
    cleanup_failed mark_terminal
simulate es = run (boot fresh) es

abbrev two_requests : List Event
two_requests =
    works done ∷ submits "llm" "a" "e1" (whole 20) ∷ submits "stt" "b" "e1" (whole 30) ∷ []

-- "a" is served and "b" waits.
abbrev serving_a : List Event
serving_a =
    works done
    ∷ submits "llm" "a" "e1" (whole 20)
    ∷ submits "stt" "b" "e1" (whole 30)
    ∷ works done
    ∷ works done
    ∷ []

abbrev state_of : Option LeaseRecord → Option LeaseState
state_of none = none
state_of (some r) = some r.state

abbrev state_in : String → System → Option LeaseState
state_in j s = state_of (find j s.dispatcher.records)

simulate-serving : state_in "a" (simulate serving_a) ≡ some active
unfolding simulate
simulate-serving = refl

reachable-Inv_example : Inv (run (boot fresh) serving_a)
reachable-Inv_example = reachable-Inv config "e1" fresh serving_a fresh-init

abbrev record_a : LeaseRecord
record_a = record {
  request_id = "a";
  service = "llm";
  wait_timeout = whole 20;
  created_at = 1;
  queue_deadline = whole 21;
  state = active;
  cancel_requested = false;
  terminal_target = none;
  active_deadline = some 11;
  terminal_at = none;
  error = none;
}

serving_a-finds : find "a" (run (boot fresh) serving_a).dispatcher.records ≡ some record_a
unfolding simulate
serving_a-finds = refl

reachable_exclusive_example : ◌≡◌ {A = String} "a" "a"
reachable_exclusive_example =
    reachable_exclusive config "e1" fresh serving_a "a" "a" record_a record_a fresh-init
      serving_a-finds serving_a-finds refl refl

reachable-ne-crashed_example : (run (boot fresh) serving_a).phase ≢ crashed
reachable-ne-crashed_example = reachable-ne-crashed config "e1" fresh serving_a fresh-init

abbrev idle_system : System
idle_system = run (boot fresh) two_requests

idle_system-Inv : Inv idle_system
idle_system-Inv = reachable-Inv config "e1" fresh two_requests fresh-init

abbrev busy_system : System
busy_system = run (boot fresh) serving_a

busy_system-Inv : Inv busy_system
busy_system-Inv = reachable-Inv config "e1" fresh serving_a fresh-init

step-Move_example : Move (view idle_system) (view (step idle_system (works done)))
step-Move_example = step-Move idle_system (works done) idle_system-Inv

step-Move_loads : view (step idle_system (works done)) ≡ Gpu.loading "a"
unfolding simulate
step-Move_loads = refl

step-Change_example :
    Change
      (find "a" busy_system.dispatcher.records)
      (find "a" (step busy_system (releases "llm" "a" "e1")).dispatcher.records)
step-Change_example = step-Change busy_system (releases "llm" "a" "e1") "a" busy_system-Inv

idle_system-IsValid : IsValid idle_system.dispatcher (resting true)
unfolding simulate
idle_system-IsValid = idle_system-Inv.valid

turn-Serves_example :
    Serves
      (first_waiting 4 ("a" ∷ "b" ∷ []) idle_system.dispatcher.records)
      (turn idle_system.dispatcher).0
unfolding simulate
turn-Serves_example = turn-Serves idle_system.dispatcher idle_system-IsValid refl refl refl

turn-InTime_example : InTime 4 (find "b" (turn idle_system.dispatcher).1.records)
unfolding simulate
turn-InTime_example = turn-InTime idle_system.dispatcher (resting true) "b" idle_system-IsValid refl

-- The clock has moved on to 20.
abbrev late : Dispatcher
late = record busy_system.dispatcher { reads = 20 }

turn-stops_overdue_example :
    let r' = record record_a { state = stopping; terminal_target = some expired } in
    ((turn late).0 ≡ stop r') × (find "a" (turn late).1.records ≡ some r')
unfolding simulate
turn-stops_overdue_example = turn-stops_overdue late "a" record_a refl refl refl refl refl

-- "a" ended long ago, and "c" just now.
abbrev ended_leases : Dispatcher
ended_leases = record fresh {
  records =
      record record_a { state = released; terminal_at = some 50 }
      ∷ record record_a { request_id = "c"; state = cancelled; terminal_at = some 600 }
      ∷ [];
}

pruned_a : find "a" (prune 650 ended_leases).records ≡ none
unfolding simulate
pruned_a = refl

kept_a : find "a" (prune 649 ended_leases).records ≡ find "a" ended_leases.records
unfolding simulate
kept_a = refl

kept_c : find "c" (prune 650 ended_leases).records ≡ find "c" ended_leases.records
unfolding simulate
kept_c = refl

prune-Pruned_example :
    Pruned 650 ended_leases
      (find "a" ended_leases.records)
      (find "a" (prune 650 ended_leases).records)
unfolding simulate
prune-Pruned_example = prune-Pruned 650 ended_leases "a" (refl, (refl, tt))

abbrev online : Dispatcher
online = record fresh { system_state = ready }

abbrev queued_a : Snapshot
queued_a = record { request_id = "a"; service = "llm"; state = queued; error = none }

submit_again_example :
    let d' = (submit "llm" "a" "e1" (whole 20) online).1 in
    submit "llm" "a" "e1" (whole 20) d' ≡ (ok queued_a, d')
unfolding simulate
submit_again_example = submit_again "llm" "a" "e1" (whole 20) online queued_a refl refl

cancel-submit_example :
    let d' = (cancel "llm" "a" "e1" online).1 in
    (submit "llm" "a" "e1" (whole 20) d' ≡ (ok (record queued_a { state = cancelled }), d'))
    × ((record queued_a { state = cancelled }).state ≡ cancelled)
unfolding simulate
cancel-submit_example =
    cancel-submit "llm" "a" "e1" (whole 20) online (record queued_a { state = cancelled })
      (refl, refl, refl, refl) refl refl

submit-nan_example :
    let d' = (submit "llm" "a" "e1" nan online).1 in
    (r : LeaseRecord) × (find "a" d'.records ≡ some r)
    × (is_queued r.state ≡ true)
    × ((now : ℕ) → is_due now r ≡ false)
    × (submit "llm" "a" "e1" nan d' ≡ (err (lease_conflict "a"), d'))
unfolding simulate
submit-nan_example = submit-nan "llm" "a" "e1" online queued_a refl refl

abbrev secret : String
secret = "0123456789abcdef0123456789abcdef"

loaded : load_internal_token "0123456789abcdef0123456789abcdef\n" ≡ ok (codes secret)
unfolding load_internal_token
loaded = refl

short_refused : load_internal_token " 0123456789abcdef0123456789abcde\n" ≡ err too_short
unfolding load_internal_token
short_refused = refl

accepted : require_internal_token (codes secret) (some secret) ≡ ok tt
unfolding require_internal_token
accepted = refl

absent : require_internal_token (codes secret) none ≡ err unauthorized
unfolding require_internal_token
absent = refl

not_ascii : require_internal_token (codes secret) (some "é") ≡ err type_error
unfolding require_internal_token
not_ascii = refl

protected-Presents_example :
    ((¬ (Presents (codes secret) (some secret) × (is_ascii (codes secret) ≡ true)))
      × (e : Denial) × (protected (codes secret) (some secret) (get_status "a" "e1") online
          ≡ (err e, online)))
    ⊎ (Presents (codes secret) (some secret)
        × (protected (codes secret) (some secret) (get_status "a" "e1") online
            ≡ (ok (get_status "a" "e1" online).0, (get_status "a" "e1" online).1)))
protected-Presents_example =
    protected-Presents (codes secret) (some secret) (get_status "a" "e1") online
