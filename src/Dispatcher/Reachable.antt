-- ===== src/Dispatcher/Reachable.antt =====
-- Proofs about the states that dispatcher/dispatcher.py can reach.
use single_gpu_ai_services.Base.{◌≡◌, ◌≢◌, true, some, List, String, ok}
use single_gpu_ai_services.Dispatcher.Lease.{LeaseRecord, is_owner, find}
use single_gpu_ai_services.Dispatcher.State.{Config, Dispatcher, init}
use single_gpu_ai_services.Dispatcher.System.{System, crashed, Event, run}
use single_gpu_ai_services.Dispatcher.Invariant.{Inv}
use single_gpu_ai_services.Dispatcher.Invariant.Run.{boot, init-Inv, run-Inv}

-- When the constructor succeeds, the invariant holds after any sequence of method calls, turns of the
-- worker and outcomes of engine calls.
pub reachable-Inv :
    (c : Config) (epoch : String) (d : Dispatcher) (es : List Event)
    → init c epoch ≡ ok d
    → Inv (run (boot d) es)
reachable-Inv c epoch d es e = run-Inv es (boot d) (init-Inv c epoch d e)

-- In every state reached from a constructor call that succeeds, two records that are starting, active
-- or stopping are the same lease.
pub reachable_exclusive :
    (c : Config) (epoch : String) (d : Dispatcher) (es : List Event) (j k : String)
    (r s : LeaseRecord)
    → init c epoch ≡ ok d
    → let rs = (run (boot d) es).dispatcher.records in
      find j rs ≡ some r
      → find k rs ≡ some s
      → is_owner r.state ≡ true
      → is_owner s.state ≡ true
      → j ≡ k
reachable_exclusive c epoch d es j k r s e f g p q =
    let h = (reachable-Inv c epoch d es e).valid.good in
    cc ((h.leases j r f).owner p, (h.leases k s g).owner q)

crashed-not_Coherent : (s : System) → Inv s → s.phase ≢ crashed
crashed-not_Coherent s h e = rw e at h.coherent

-- In no state reached from a constructor call that succeeds has the worker died of a missing record of
-- the current lease.
pub reachable-ne-crashed :
    (c : Config) (epoch : String) (d : Dispatcher) (es : List Event)
    → init c epoch ≡ ok d
    → (run (boot d) es).phase ≢ crashed
reachable-ne-crashed c epoch d es e =
    crashed-not_Coherent (run (boot d) es) (reachable-Inv c epoch d es e)
