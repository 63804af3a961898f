-- ===== src/Dispatcher/Gpu/Moves.antt =====
-- Proofs about the events of dispatcher/dispatcher.py as moves of the GPU's view.
use single_gpu_ai_services.Base.{
  ℕ, ◌≡◌, sym, ◌∙◌, subst₂, inl, inr, Bool, true, false, Option, none, some, String, Option-cases,
  suc,
}
use single_gpu_ai_services.Dispatcher.Lease.{released, cancelled, is_stopping, LeaseRecord, find}
use single_gpu_ai_services.Dispatcher.State.{Dispatcher, is_ready, mark_terminal}
use single_gpu_ai_services.Dispatcher.Api.{submit, release, cancel, close, request_stop}
use single_gpu_ai_services.Dispatcher.Worker.{
  EngineOutcome, done, cleanup_error, engine_error, tend, serve, tidy, turn, begin, next_from,
  reconciled, started, started_record, stopped, stopped_record, cleanup_failed,
}
use single_gpu_ai_services.Dispatcher.System.{
  System, Phase, reconciling_engine, looping, starting_engine, stopping_engine, finished, crashed,
  Event, submits, gets_lease, releases, cancels, closes, works, work, step, loop_turn,
}
use single_gpu_ai_services.Dispatcher.Invariant.{Inv, is_starting}
use single_gpu_ai_services.Dispatcher.Invariant.Frame.{Frame, tidy-Frame, next_from-Frame}
use single_gpu_ai_services.Dispatcher.Invariant.Worker.{tend_cases, serve_cases, turn_cases}
use single_gpu_ai_services.Dispatcher.Invariant.Outcomes.{begin_service_cases}
use single_gpu_ai_services.Dispatcher.Invariant.Run.{
  Still, submit-Still, request_stop-Still, get_lease_unchanged,
}
use single_gpu_ai_services.Dispatcher.Progress.System.{current_found}
use single_gpu_ai_services.Dispatcher.Gpu.{
  Gpu, Calm, same, take, leave, offline, free, loading, serving, unloading, lost, view_of, view,
  Move, keep, online, load, loaded, load_failed, load_lost, unload, unloaded, unload_lost,
}

-- A method moves nothing.
still_view :
    (s : System) (d' : Dispatcher)
    → Still s.dispatcher d'
    → Move (view s) (view (record s { dispatcher = d' }))
still_view s d' (c, u) = rw (c, u) (keep _)

Calm-Move : (g h : Gpu) → Calm g h → Move g h
Calm-Move g _ (same _) = keep _
Calm-Move _ _ (take j) = load j
Calm-Move _ _ (leave j) = unload j

tend-Calm :
    (now : ℕ) (j : String) (d : Dispatcher)
    → is_ready d.system_state ≡ true
    → d.current ≡ some j
    → Calm (serving j) (view (loop_turn (tend now j d)))
unfolding tend
tend-Calm now j d up c = elim (Option-cases (find j d.records)) [
  | inl e ↦ rw (e, tend) (rw (up, c) (same (serving j)))
  | inr (r, e) ↦
      tend_cases (λ t. Calm (serving j) (view (loop_turn t))) now j r d e
        (λ o. rw (up, c) (leave j)) (λ s. rw (up, c) (leave j))
        (λ s o. rw (up, c) (same (serving j)))
]

begin-Calm :
    (now : ℕ) (t : Option LeaseRecord × Dispatcher)
    → is_ready t.1.system_state ≡ true
    → t.1.current ≡ none
    → Calm free (view (loop_turn (begin now t)))
begin-Calm now (none, n) up c = rw (up, c) (same free)
begin-Calm now (some r, n) up c = rw up (take r.request_id)

-- A system that is not ready is left as it is.
serve-Calm :
    (now : ℕ) (d : Dispatcher)
    → Calm (view_of (is_ready d.system_state) d.current looping) (view (loop_turn (serve now d)))
serve-Calm now d =
    serve_cases
      (λ t. Calm (view_of (is_ready d.system_state) d.current looping) (view (loop_turn t))) now d
      (λ down. same _)
      (λ j up busy.
        subst₂ (λ u c. Calm (view_of u c looping) (view (loop_turn (tend now j d)))) (sym up)
          (sym busy) (tend-Calm now j d up busy))
      (λ up idle.
        let f = next_from-Frame now d.queue d in
        subst₂
          (λ u c.
            Calm (view_of u c looping) (view (loop_turn (begin now (next_from now d.queue d)))))
          (sym up) (sym idle)
          (begin-Calm now (next_from now d.queue d) (rw f.same_system up) (f.same_current ∙ idle)))

looping_finished :
    (up : Bool) (c : Option String) → Calm (view_of up c looping) (view_of up c finished)
looping_finished true none = same free
looping_finished true (some j) = same (serving j)
looping_finished false none = same offline
looping_finished false (some j) = same (lost j)

pub turn-Calm :
    (d : Dispatcher)
    → Calm (view_of (is_ready d.system_state) d.current looping) (view (loop_turn (turn d)))
turn-Calm d =
    turn_cases
      (λ t. Calm (view_of (is_ready d.system_state) d.current looping) (view (loop_turn t))) d
      (λ _. looping_finished (is_ready d.system_state) d.current)
      (λ _.
        subst₂
          (λ u c. Calm (view_of (is_ready u) c looping) (view (loop_turn (serve now (tidy now r)))))
          f.same_system f.same_current (serve-Calm now (tidy now r)))
  where
    now : ℕ
    now = d.clock d.reads

    r : Dispatcher
    r = record d { reads = suc d.reads }

    f : Frame r (tidy now r)
    f = (tidy-Frame now r).0

reconciled-Move :
    (o : EngineOutcome) (d : Dispatcher)
    → Inv (record { dispatcher = d; phase = reconciling_engine })
    → Move
        (view (record { dispatcher = d; phase = reconciling_engine }))
        (view (work reconciling_engine o d))
unfolding work reconciled
reconciled-Move done d h = rw h.coherent.1 (rw h.coherent.0 online)
reconciled-Move (cleanup_error x) d h = rw h.coherent.1 (rw h.coherent.0 (keep offline))
reconciled-Move (engine_error x) d h = rw h.coherent.1 (rw h.coherent.0 (keep offline))

module _ (j : String) (r : LeaseRecord) (d : Dispatcher) (c : d.current ≡ some j)
    (up : is_ready d.system_state ≡ true) where
  started_record-Move :
      (o : EngineOutcome)
      → Move (loading j) (view (record { dispatcher = started_record o r d; phase = looping }))
  unfolding started_record mark_terminal
  started_record-Move done =
      begin_service_cases
        (λ t. Move (loading j) (view (record { dispatcher = t; phase = looping }))) r d
        (rw (up, c) (loaded j)) (rw (up, c) (loaded j))
  started_record-Move (cleanup_error x) = rw c (load_lost j)
  started_record-Move (engine_error x) = rw up (load_failed j)

  stopped_record-Move :
      (o : EngineOutcome)
      → Move (unloading j) (view (record { dispatcher = stopped_record o r d; phase = looping }))
  unfolding stopped_record cleanup_failed mark_terminal
  stopped_record-Move done = rw up (unloaded j)
  stopped_record-Move (cleanup_error x) = rw c (unload_lost j)
  stopped_record-Move (engine_error x) = rw c (unload_lost j)

started-Move :
    (o : EngineOutcome) (j : String) (d : Dispatcher)
    → Inv (record { dispatcher = d; phase = starting_engine j })
    → Move
        (view (record { dispatcher = d; phase = starting_engine j }))
        (view (record { dispatcher = started o j d; phase = looping }))
unfolding started
started-Move o j d h =
    let (r, e, _) = current_found is_starting d j h.coherent.0 h.valid in
    subst₂
      (λ u c.
        Move (view_of u c (starting_engine j))
          (view (record { dispatcher = started o j d; phase = looping })))
      (sym h.coherent.1) (sym h.coherent.0)
      (rw (e, started) (started_record-Move j r d h.coherent.0 h.coherent.1 o))

stopped-Move :
    (o : EngineOutcome) (j : String) (d : Dispatcher)
    → Inv (record { dispatcher = d; phase = stopping_engine j })
    → Move
        (view (record { dispatcher = d; phase = stopping_engine j }))
        (view (record { dispatcher = stopped o j d; phase = looping }))
unfolding stopped
stopped-Move o j d h =
    let (r, e, _) = current_found is_stopping d j h.coherent.0 h.valid in
    subst₂
      (λ u c.
        Move (view_of u c (stopping_engine j))
          (view (record { dispatcher = stopped o j d; phase = looping })))
      (sym h.coherent.1) (sym h.coherent.0)
      (rw (e, stopped) (stopped_record-Move j r d h.coherent.0 h.coherent.1 o))

work-Move :
    (p : Phase) (o : EngineOutcome) (d : Dispatcher)
    → Inv (record { dispatcher = d; phase = p })
    → Move (view (record { dispatcher = d; phase = p })) (view (work p o d))
unfolding work
work-Move reconciling_engine o d h = reconciled-Move o d h
work-Move looping o d h = Calm-Move _ _ (turn-Calm d)
work-Move (starting_engine j) o d h = started-Move o j d h
work-Move (stopping_engine j) o d h = stopped-Move o j d h
work-Move finished o d h = keep _
work-Move crashed o d h = keep _

-- From a state with the invariant, every event is a move of the GPU's view.
pub step-Move : (s : System) (e : Event) → Inv s → Move (view s) (view (step s e))
unfolding step release cancel close
step-Move s (submits service j epoch w) h =
    still_view s (submit service j epoch w s.dispatcher).1
      (submit-Still service j epoch w s.dispatcher)
step-Move s (gets_lease j epoch) h = rw (get_lease_unchanged j epoch s.dispatcher) (keep _)
step-Move s (releases service j epoch) h =
    still_view s (request_stop service j epoch released s.dispatcher).1
      (request_stop-Still service j epoch released s.dispatcher)
step-Move s (cancels service j epoch) h =
    still_view s (request_stop service j epoch cancelled s.dispatcher).1
      (request_stop-Still service j epoch cancelled s.dispatcher)
step-Move s closes h = keep _
step-Move s (works o) h = work-Move s.phase o s.dispatcher h
