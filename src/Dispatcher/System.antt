-- ===== src/Dispatcher/System.antt =====
-- The dispatcher with its worker thread: what runs when, and in which order.
--
-- A method and each stretch of the worker between two engine calls hold the lock of the condition,
-- so each is one step. The worker holds no lock while an engine call runs; the call's outcome is
-- chosen by the environment.
use single_gpu_ai_services.Base.{true, false, List, [], ◌∷◌, String}
use single_gpu_ai_services.Dispatcher.Time.{Float}
use single_gpu_ai_services.Dispatcher.State.{Dispatcher, is_ready}
use single_gpu_ai_services.Dispatcher.Api.{submit, get_lease, release, cancel, close}
use single_gpu_ai_services.Dispatcher.Worker.{
  Turn, start, stop, wait, exit, key_error, EngineOutcome, turn, reconciled, started, stopped,
}

-- Where the worker is. `starting_engine j` and `stopping_engine j` are engine calls for the lease `j`.
pub data Phase : Type 0 where
  reconciling_engine : Phase
  looping : Phase
  starting_engine : String → Phase
  stopping_engine : String → Phase
  finished : Phase
  crashed : Phase

pub record System : Type 0 where
  pub dispatcher : Dispatcher
  pub phase : Phase

pub data Event : Type 0 where
  submits : String → String → String → Float → Event
  gets_lease : String → String → Event
  releases : String → String → String → Event
  cancels : String → String → String → Event
  closes : Event
  -- The worker goes on; a running engine call ends in the given outcome.
  works : EngineOutcome → Event

abbrev pub after_turn : Turn → Phase
after_turn (start r) = starting_engine r.request_id
after_turn (stop r) = stopping_engine r.request_id
after_turn (wait f) = looping
after_turn exit = finished
after_turn key_error = crashed

-- A failed `reconcile` ends the thread.
abbrev pub after_reconcile : Dispatcher → Phase
after_reconcile d = elim (is_ready d.system_state) [ true ↦ looping | false ↦ finished ]

abbrev pub loop_turn : Turn × Dispatcher → System
loop_turn (t, d) = record { dispatcher = d; phase = after_turn t }

unfoldable pub work : Phase → EngineOutcome → Dispatcher → System
work reconciling_engine o d =
    let d' = reconciled o d in record { dispatcher = d'; phase = after_reconcile d' }
work looping o d = loop_turn (turn d)
work (starting_engine j) o d = record { dispatcher = started o j d; phase = looping }
work (stopping_engine j) o d = record { dispatcher = stopped o j d; phase = looping }
work finished o d = record { dispatcher = d; phase = finished }
work crashed o d = record { dispatcher = d; phase = crashed }

unfoldable pub step : System → Event → System
step s (submits service j epoch w) = record s {
  dispatcher = (submit service j epoch w s.dispatcher).1;
}
step s (gets_lease j epoch) = record s { dispatcher = (get_lease j epoch s.dispatcher).1 }
step s (releases service j epoch) = record s {
  dispatcher = (release service j epoch s.dispatcher).1;
}
step s (cancels service j epoch) = record s { dispatcher = (cancel service j epoch s.dispatcher).1 }
step s closes = record s { dispatcher = close s.dispatcher }
step s (works o) = work s.phase o s.dispatcher

unfoldable pub run : System → List Event → System
run s [] = s
run s (e ∷ es) = run (step s e) es
