-- ===== src/Cluster/Turning.antt =====
-- Proofs about the methods and the loop of dispatcher/dispatcher.py, seen from the machine.
use single_gpu_ai_services.Base.{
  ◌≡◌, refl, Bool, true, false, Option, none, some, List, String, arith,
}
use single_gpu_ai_services.Engine.{Machine, Settings}
use single_gpu_ai_services.Engine.Docker.{Docker}
use single_gpu_ai_services.Dispatcher.Lease.{LeaseRecord, find}
use single_gpu_ai_services.Dispatcher.State.{is_ready}
use single_gpu_ai_services.Dispatcher.System.{
  Phase, reconciling_engine, looping, starting_engine, stopping_engine, finished, crashed, System,
  step, Event,
}
use single_gpu_ai_services.Dispatcher.Invariant.{Inv, fits}
use single_gpu_ai_services.Dispatcher.Progress.System.{current_found, step-Change}
use single_gpu_ai_services.Dispatcher.Gpu.{
  Gpu, offline, free, loading, serving, unloading, lost, view_of, view, Calm, same, take, leave,
}
use single_gpu_ai_services.Cluster.{of_lease, allowed}
use single_gpu_ai_services.Cluster.Safety.{of_lease-Change, Secure, allow-Secure}

-- The lease that has the GPU.
abbrev pub owner : Gpu → Option String
owner (loading j) = some j
owner (serving j) = some j
owner (unloading j) = some j
owner _ = none

owner_current :
    (u : Bool) (c : Option String) (p : Phase) (j : String)
    → owner (view_of u c p) ≡ some j
    → c ≡ some j
owner_current true none p j h = ground arith
owner_current true (some i) reconciling_engine j h = h
owner_current true (some i) looping j h = h
owner_current true (some i) (starting_engine l) j h = h
owner_current true (some i) (stopping_engine l) j h = h
owner_current true (some i) finished j h = h
owner_current true (some i) crashed j h = h
owner_current false none p j h = ground arith
owner_current false (some i) p j h = ground arith

-- An event lets the owner run no other containers than before.
abbrev pub Owns : Gpu → List LeaseRecord → List LeaseRecord → Type 0
Owns g rs rs' =
    (j x : String)
    → owner g ≡ some j
    → of_lease (find j rs') x ≡ false
    → of_lease (find j rs) x ≡ false

pub step-Owns :
    (s : System) (e : Event)
    → Inv s
    → Owns (view s) s.dispatcher.records (step s e).dispatcher.records
step-Owns s e h j x o =
    let c = owner_current (is_ready s.dispatcher.system_state) s.dispatcher.current s.phase j o in
    let (r, f, _) =
      current_found (fits s.phase (is_ready s.dispatcher.system_state)) s.dispatcher j c h.valid in
    of_lease-Change (find j s.dispatcher.records) (find j (step s e).dispatcher.records) r x f
      (step-Change s e j h)

Owns-allowed :
    (g : Gpu) (rs rs' : List LeaseRecord)
    → Owns g rs rs'
    → (x : String) → allowed g rs' x ≡ false
    → allowed g rs x ≡ false
Owns-allowed offline rs rs' h x a = a
Owns-allowed free rs rs' h x a = a
Owns-allowed (loading j) rs rs' h x a = h j x refl a
Owns-allowed (serving j) rs rs' h x a = h j x refl a
Owns-allowed (unloading j) rs rs' h x a = h j x refl a
Owns-allowed (lost j) rs rs' h x a = a

module _ (m : Machine) (s : Settings) (k : Docker m) where
  pub Calm-Secure :
      (g g' : Gpu) (rs rs' : List LeaseRecord) (w : m.World)
      → Calm g g'
      → Owns g rs rs'
      → Secure m s k g rs w
      → Secure m s k g' rs' w
  Calm-Secure g _ rs rs' w (same _) o h =
      allow-Secure m s k g g rs rs' w (λ n. n) (Owns-allowed g rs rs' o) h
  Calm-Secure _ _ rs rs' w (take j) o h =
      allow-Secure m s k free (loading j) rs rs' w (λ n. n) (λ x a. refl) h
  Calm-Secure _ _ rs rs' w (leave j) o h =
      allow-Secure m s k (serving j) (unloading j) rs rs' w (λ n. n) (λ x a. o j x refl a) h
