-- ===== src/Cluster/Safety.antt =====
-- Which containers of dispatcher/engine_manager.py may run, by the dispatcher's view of the GPU.
use single_gpu_ai_services.Base.{
  ◌≡◌, refl, subst, true, false, Option, none, some, List, String, contains, arith,
}
use single_gpu_ai_services.Engine.{Machine, Settings, all_containers}
use single_gpu_ai_services.Engine.Docker.{Docker}
use single_gpu_ai_services.Engine.Cleanup.{Q}
use single_gpu_ai_services.Dispatcher.Lease.{LeaseRecord}
use single_gpu_ai_services.Dispatcher.Progress.System.{Change}
use single_gpu_ai_services.Dispatcher.Gpu.{Gpu, offline, free, loading, serving, unloading, lost}
use single_gpu_ai_services.Cluster.{containers_of, of_lease, allowed, is_lost}

allowed-not_lost :
    (g : Gpu) (rs : List LeaseRecord) (x : String) → allowed g rs x ≡ false → is_lost g ≡ false
allowed-not_lost offline rs x h = refl
allowed-not_lost free rs x h = refl
allowed-not_lost (loading j) rs x h = refl
allowed-not_lost (serving j) rs x h = refl
allowed-not_lost (unloading j) rs x h = refl
allowed-not_lost (lost j) rs x h = h

-- A lease that was there keeps its service.
pub of_lease-Change :
    (a b : Option LeaseRecord) (r : LeaseRecord) (x : String)
    → a ≡ some r
    → Change a b
    → of_lease b x ≡ false
    → of_lease a x ≡ false
of_lease-Change none b r x e c h = ground arith
of_lease-Change (some q) none r x e c h = ground arith
of_lease-Change (some q) (some p) r x e c h =
    subst (λ v. contains x (containers_of v) ≡ false) c.same_service h

module _ (m : Machine) (s : Settings) (k : Docker m) where
  -- Unless the GPU is lost no start is pending, and the containers that may not run do not run.
  pub record Secure (g : Gpu) (rs : List LeaseRecord) (w : m.World) : Type 0 where
    pub settled : is_lost g ≡ false → (x : String) → k.is_pending x w ≡ false
    pub apart :
        (x : String)
        → contains x all_containers ≡ true
        → allowed g rs x ≡ false
        → k.is_up x w ≡ false

  pub Quiet-Secure :
      (g : Gpu) (rs : List LeaseRecord) (w w' : m.World)
      → ((x : String) → Q m s k x w w')
      → Secure g rs w
      → Secure g rs w'
  Quiet-Secure g rs w w' q h = record {
    settled = λ n x. (q x).calm (h.settled n x);
    apart = λ x i a. (q x).low (h.settled (allowed-not_lost g rs x a) x) (h.apart x i a);
  }

  pub allow-Secure :
      (g g' : Gpu) (rs rs' : List LeaseRecord) (w : m.World)
      → (is_lost g' ≡ false → is_lost g ≡ false)
      → ((x : String) → allowed g' rs' x ≡ false → allowed g rs x ≡ false)
      → Secure g rs w
      → Secure g' rs' w
  allow-Secure g g' rs rs' w n a h = record {
    settled = λ q. h.settled (n q);
    apart = λ x i q. h.apart x i (a x q);
  }

  pub lost-Secure : (j : String) (rs : List LeaseRecord) (w : m.World) → Secure (lost j) rs w
  lost-Secure j rs w = record { settled = λ n. ground arith; apart = λ x i a. ground arith }
