-- ===== src/Dispatcher/Invariant/Run.antt =====
-- Proofs about the steps of the system of dispatcher/dispatcher.py and the invariant.
use single_gpu_ai_services.Base.{
  ◌≡◌, refl, Bool, true, false, List, [], ◌∷◌, String, arith, Result, ok, err, sym, ◌∙◌, subst,
}
use single_gpu_ai_services.Dispatcher.Time.{Float}
use single_gpu_ai_services.Dispatcher.Lease.{
  LeaseState, queued, released, cancelled, is_terminal, LeaseRecord, find,
}
use single_gpu_ai_services.Dispatcher.State.{
  Config, Dispatcher, is_ready, prune, mark_terminal, validate_config, init, initial,
  DispatcherError,
}
use single_gpu_ai_services.Dispatcher.Api.{
  submit, get_lease, release, cancel, close, request_stop, stop_known,
}
use single_gpu_ai_services.Dispatcher.Worker.{
  EngineOutcome, done, cleanup_error, engine_error, reconciled,
}
use single_gpu_ai_services.Dispatcher.System.{
  System, Phase, reconciling_engine, looping, starting_engine, stopping_engine, finished, crashed,
  Event, submits, gets_lease, releases, cancels, closes, works, work, step, run,
}
use single_gpu_ai_services.Dispatcher.Invariant.{IsValid, Inv, Coherent, fits}
use single_gpu_ai_services.Dispatcher.Invariant.Admit.{
  Stoppable, submit-IsValid, submit_cases, admit_cases,
}
use single_gpu_ai_services.Dispatcher.Invariant.Api.{
  request_stop-IsValid, stop_cases, stop_unknown_cases,
}
use single_gpu_ai_services.Dispatcher.Invariant.Worker.{turn-Inv}
use single_gpu_ai_services.Dispatcher.Invariant.Outcomes.{started-Inv, stopped-Inv}

fits-Stoppable : (p : Phase) (up : Bool) → Stoppable (fits p up)
fits-Stoppable reconciling_engine up = record { not_queued = refl; stops = λ h. cc }
fits-Stoppable looping true = record { not_queued = refl; stops = λ h. refl }
fits-Stoppable looping false = record { not_queued = refl; stops = λ h. refl }
fits-Stoppable (starting_engine j) up = record { not_queued = refl; stops = λ h. cc }
fits-Stoppable (stopping_engine j) up = record { not_queued = refl; stops = λ h. refl }
fits-Stoppable finished true = record { not_queued = refl; stops = λ h. refl }
fits-Stoppable finished false = record { not_queued = refl; stops = λ h. refl }
fits-Stoppable crashed up = record { not_queued = refl; stops = λ h. cc }

-- A method leaves the current lease and the system's state alone.
abbrev pub Still : Dispatcher → Dispatcher → Type 0
Still d d' = (d'.current ≡ d.current) × (d'.system_state ≡ d.system_state)

pub submit-Still :
    (service j epoch : String) (w : Float) (d : Dispatcher) → Still d (submit service j epoch w d).1
unfolding prune
submit-Still service j epoch w d =
    submit_cases (Still d) service j epoch w d (refl, refl)
      (λ e. admit_cases (Still d) service j w d (refl, refl) (λ room. (refl, refl)))

stop_known-Still :
    (s target : LeaseState) (r : LeaseRecord) (d : Dispatcher) → Still d (stop_known s target r d).1
unfolding stop_known mark_terminal
stop_known-Still queued target r d = (refl, refl)
stop_known-Still _ target r d = (refl, refl)

pub request_stop-Still :
    (service j epoch : String) (target : LeaseState) (d : Dispatcher)
    → Still d (request_stop service j epoch target d).1
unfolding prune
request_stop-Still service j epoch target d =
    stop_cases (Still d) service j epoch target d (refl, refl)
      (λ e.
        stop_unknown_cases (Still d) service j target d (refl, refl) (refl, refl)
          (λ room. (refl, refl)))
      (λ r e. stop_known-Still r.state target r d)

pub get_lease_unchanged : (j epoch : String) (d : Dispatcher) → (get_lease j epoch d).1 ≡ d
unfolding get_lease
get_lease_unchanged j epoch d = ground arith

Still-Coherent : (p : Phase) (d d' : Dispatcher) → Still d d' → Coherent p d → Coherent p d'
Still-Coherent reconciling_engine d d' (c, s) (h, down) = (c ∙ h, rw s down)
Still-Coherent looping d d' (c, s) h = tt
Still-Coherent (starting_engine j) d d' (c, s) (h, up) = (c ∙ h, rw s up)
Still-Coherent (stopping_engine j) d d' (c, s) (h, up) = (c ∙ h, rw s up)
Still-Coherent finished d d' (c, s) h = tt
Still-Coherent crashed d d' (c, s) h = h

-- A method that keeps the invariant of the dictionary keeps that of the system.
method-Inv :
    (s : System) (d' : Dispatcher)
    → Still s.dispatcher d'
    → IsValid d' (fits s.phase (is_ready s.dispatcher.system_state))
    → Inv s
    → Inv (record s { dispatcher = d' })
method-Inv s d' still v h = record {
  valid = subst (λ u. IsValid d' (fits s.phase (is_ready u))) (sym still.1) v;
  coherent = Still-Coherent s.phase s.dispatcher d' still h.coherent;
}

reconciled-Inv :
    (o : EngineOutcome) (d : Dispatcher)
    → Inv (record { dispatcher = d; phase = reconciling_engine })
    → Inv (work reconciling_engine o d)
unfolding work reconciled
reconciled-Inv done d h = record {
  valid = record { good = h.valid.good; held = λ j c. cc h.coherent.0 };
  coherent = tt;
}
reconciled-Inv (cleanup_error x) d h = record {
  valid = record { good = h.valid.good; held = λ j c. cc h.coherent.0 };
  coherent = tt;
}
reconciled-Inv (engine_error x) d h = record {
  valid = record { good = h.valid.good; held = λ j c. cc h.coherent.0 };
  coherent = tt;
}

work-Inv :
    (p : Phase) (o : EngineOutcome) (d : Dispatcher)
    → Inv (record { dispatcher = d; phase = p })
    → Inv (work p o d)
unfolding work
work-Inv reconciling_engine o d h = reconciled-Inv o d h
work-Inv looping o d h = turn-Inv d h.valid
work-Inv (starting_engine j) o d h = started-Inv o j d h.coherent.0 h.coherent.1 h.valid
work-Inv (stopping_engine j) o d h = stopped-Inv o j d h.coherent.0 h.coherent.1 h.valid
work-Inv finished o d h = h
work-Inv crashed o d h = h

stop-Inv :
    (service j epoch : String) (target : LeaseState)
    → is_terminal target ≡ true
    → (s : System) → Inv s
    → Inv (record s { dispatcher = (request_stop service j epoch target s.dispatcher).1 })
stop-Inv service j epoch target t s h =
    let up : Bool = is_ready s.dispatcher.system_state in
    method-Inv s _ (request_stop-Still service j epoch target s.dispatcher)
      (request_stop-IsValid (fits s.phase up) service j epoch target s.dispatcher
        (fits-Stoppable s.phase up) t h.valid)
      h

-- Every event keeps the invariant.
pub step-Inv : (s : System) (e : Event) → Inv s → Inv (step s e)
unfolding step release cancel close
step-Inv s (submits service j epoch w) h =
    method-Inv s _ (submit-Still service j epoch w s.dispatcher)
      (submit-IsValid (fits s.phase (is_ready s.dispatcher.system_state)) service j epoch w
        s.dispatcher h.valid)
      h
step-Inv s (gets_lease j epoch) h = rw (get_lease_unchanged j epoch s.dispatcher) h
step-Inv s (releases service j epoch) h = stop-Inv service j epoch released refl s h
step-Inv s (cancels service j epoch) h = stop-Inv service j epoch cancelled refl s h
step-Inv s closes h =
    method-Inv s _ (refl, refl) (record { good = h.valid.good; held = h.valid.held }) h
step-Inv s (works o) h = work-Inv s.phase o s.dispatcher h

pub run-Inv : (es : List Event) (s : System) → Inv s → Inv (run s es)
unfolding run
run-Inv [] s h = h
run-Inv (e ∷ es) s h = run-Inv es (step s e) (step-Inv s e h)

-- A system at its start: the constructor has returned and the worker calls `reconcile`.
abbrev pub boot : Dispatcher → System
boot d = record { dispatcher = d; phase = reconciling_engine }

init_value :
    (c : Config) (epoch : String) (d : Dispatcher) → init c epoch ≡ ok d → initial c epoch ≡ d
unfolding init
init_value c epoch d e =
    elim (validate_config c)
        as (λ v.
          (elim v as (λ _. Result DispatcherError Dispatcher) [
            | err x ↦ err x
            | ok _ ↦ ok (initial c epoch)
          ])
            ≡ ok d
          → initial c epoch ≡ d) [ err x ↦ λ h. cc | ok _ ↦ λ h. cc ]
      e

initial-Inv : (c : Config) (epoch : String) → Inv (boot (initial c epoch))
unfolding find
initial-Inv c epoch = record {
  valid = record {
    good = record { leases = λ j r f. cc; bounded = omega arith; distinct = tt };
    held = λ j h. cc;
  };
  coherent = (refl, refl);
}

-- The constructor establishes the invariant.
pub init-Inv : (c : Config) (epoch : String) (d : Dispatcher) → init c epoch ≡ ok d → Inv (boot d)
init-Inv c epoch d e = subst (λ t. Inv (boot t)) (init_value c epoch d e) (initial-Inv c epoch)
