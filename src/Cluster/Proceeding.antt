-- ===== src/Cluster/Proceeding.antt =====
-- Proofs about `_perform_start` and `_perform_stop` of dispatcher/dispatcher.py with a real
-- engine manager.
use single_gpu_ai_services.Base.{
  ◌≡◌, refl, sym, subst, inl, inr, true, false, some, List, String, Result-cases, Bool-cases,
}
use single_gpu_ai_services.Engine.{Machine, Settings, EngineError, is_cleanup}
use single_gpu_ai_services.Engine.Docker.{Docker}
use single_gpu_ai_services.Engine.Manager.{start, stop}
use single_gpu_ai_services.Engine.Stopping.{stop-Still}
use single_gpu_ai_services.Dispatcher.Lease.{LeaseRecord, find}
use single_gpu_ai_services.Dispatcher.State.{Dispatcher, is_ready, mark_terminal}
use single_gpu_ai_services.Dispatcher.Worker.{done, started_record, stopped_record, cleanup_failed}
use single_gpu_ai_services.Dispatcher.System.{looping, System}
use single_gpu_ai_services.Dispatcher.Invariant.Outcomes.{begin_service_cases}
use single_gpu_ai_services.Dispatcher.Gpu.{free, serving, view}
use single_gpu_ai_services.Cluster.{of_lease, outcome}
use single_gpu_ai_services.Cluster.Safety.{Secure, lost-Secure}
use single_gpu_ai_services.Cluster.Effects.{
  Settled, AllDown, Only, start-Settled, start-Only, start-AllDown, stop-AllDown,
}

abbrev pub at_loop : Dispatcher → System
at_loop d = record { dispatcher = d; phase = looping }

module _ (m : Machine) (s : Settings) (text : EngineError → String) (k : Docker m) where
  free-Secure :
      (rs : List LeaseRecord) (w : m.World)
      → Settled m s k w
      → AllDown m s k w
      → Secure m s k free rs w
  free-Secure rs w h a = record { settled = λ n. h; apart = λ x i n. a x i }

  module _ (j : String) (r : LeaseRecord) (d : Dispatcher) (c : d.current ≡ some j)
      (up : is_ready d.system_state ≡ true) where
    begun-view : view (at_loop (started_record done r d)) ≡ serving j
    unfolding started_record
    begun-view =
        begin_service_cases (λ t. view (at_loop t) ≡ serving j) r d (rw (up, c) refl)
          (rw (up, c) refl)

    pub started-Secure :
        (w : m.World)
        → ((x : String)
            → of_lease (find j (started_record done r d).records) x ≡ false
            → of_lease (some r) x ≡ false)
        → Settled m s k w
        → Only m s k r.service w
        → let t = start m s r.service d.startup_timeout w in
          let d' = started_record (outcome m s text t.0) r d in
          Secure m s k (view (at_loop d')) d'.records t.1
    unfolding outcome started_record mark_terminal
    started-Secure w owns h a =
        let t = start m s r.service d.startup_timeout w in
        elim (Result-cases t.0) [
          | inl (y, e) ↦
              let settled : Settled m s k t.1 =
                start-Settled m s k r.service d.startup_timeout w h (rw e refl) in
              let apart = start-Only m s k r.service d.startup_timeout w h a in
              let safe : Secure m s k (serving j) (started_record done r d).records t.1 = record {
                settled = λ n. settled;
                apart = λ x i n. apart x i (owns x n);
              } in
              rw e (
                subst (λ g. Secure m s k g (started_record done r d).records t.1) (sym begun-view)
                  safe)
          | inr (e, q) ↦ elim (Bool-cases (is_cleanup e)) [
            | inl lost_ ↦ rw (q, lost_) (rw c (lost-Secure m s k j _ t.1))
            | inr fine ↦
                let settled : Settled m s k t.1 =
                  start-Settled m s k r.service d.startup_timeout w h (rw q (rw fine refl)) in
                let down = start-AllDown m s k r.service d.startup_timeout w e h a q fine in
                rw (q, fine) (rw up (free-Secure _ t.1 settled down))
          ]
        ]

    pub stopped-Secure :
        (w : m.World)
        → Settled m s k w
        → Only m s k r.service w
        → let t = stop m s r.service d.cleanup_timeout w in
          let d' = stopped_record (outcome m s text t.0) r d in
          Secure m s k (view (at_loop d')) d'.records t.1
    unfolding outcome stopped_record cleanup_failed mark_terminal
    stopped-Secure w h a =
        let t = stop m s r.service d.cleanup_timeout w in
        elim (Result-cases t.0) [
          | inl (y, e) ↦ rw e (
              rw up (
                free-Secure _ t.1
                  (λ x. (stop-Still m s k x r.service d.cleanup_timeout w).calm (h x))
                  (stop-AllDown m s k r.service d.cleanup_timeout w y h a e)))
          | inr (e, q) ↦ elim (Bool-cases (is_cleanup e)) [
            | inl lost_ ↦ rw (q, lost_) (rw c (lost-Secure m s k j _ t.1))
            | inr fine ↦ rw (q, fine) (rw c (lost-Secure m s k j _ t.1))
          ]
        ]
