-- ===== src/Cluster/Effects.antt =====
-- What a call of dispatcher/engine_manager.py does to all the containers at once.
use single_gpu_ai_services.Base.{
  ℕ, ◌≡◌, refl, inl, inr, true, false, String, contains, ok, err, Bool-cases, Option-cases,
}
use single_gpu_ai_services.Engine.{
  Machine, Settings, EngineError, all_containers, is_cleanup, services, lookup_service, names,
}
use single_gpu_ai_services.Engine.Docker.{Docker}
use single_gpu_ai_services.Engine.Manager.{start, stop}
use single_gpu_ai_services.Engine.Stopping.{stop-Still, stop-Down}
use single_gpu_ai_services.Engine.Startup.{start-Still, start-Down, start-Calm}
use single_gpu_ai_services.Engine.Launch.{is_sound}
use single_gpu_ai_services.Cluster.{containers_of}

module _ (m : Machine) (s : Settings) (k : Docker m) where
  abbrev pub Settled : m.World → Type 0
  Settled w = (x : String) → k.is_pending x w ≡ false

  -- No container runs, or only containers of the service do.
  abbrev pub AllDown : m.World → Type 0
  AllDown w = (x : String) → contains x all_containers ≡ true → k.is_up x w ≡ false

  abbrev pub Only : String → m.World → Type 0
  Only service w =
      (x : String)
      → contains x all_containers ≡ true
      → contains x (containers_of service) ≡ false
      → k.is_up x w ≡ false

  pub start-Settled :
      (service : String) (t : ℕ) (w : m.World)
      → Settled w
      → is_sound (start m s service t w).0 ≡ true
      → Settled (start m s service t w).1
  unfolding start
  start-Settled service t w h o x = elim (Option-cases (lookup_service service services)) [
    | inl e ↦ rw (e, start) (h x)
    | inr (cs, e) ↦ start-Calm m s k x service cs t w e (h x) o
  ]

  pub start-Only :
      (service : String) (t : ℕ) (w : m.World)
      → Settled w
      → Only service w
      → Only service (start m s service t w).1
  unfolding start
  start-Only service t w h a x i n = elim (Option-cases (lookup_service service services)) [
    | inl e ↦ rw (e, start) (a x i n)
    | inr (cs, e) ↦ (start-Still m s k x service cs t w e (rw e at n)).low (h x) (a x i n)
  ]

  pub start-AllDown :
      (service : String) (t : ℕ) (w : m.World) (e : EngineError)
      → Settled w
      → Only service w
      → (start m s service t w).0 ≡ err e
      → is_cleanup e ≡ false
      → AllDown (start m s service t w).1
  unfolding start
  start-AllDown service t w e h a f n x i = elim (Option-cases (lookup_service service services)) [
    | inl q ↦ rw (q, start) (a x i (rw q refl))
    | inr (cs, q) ↦ elim (Bool-cases (contains x (names cs))) [
      | inl own ↦ (start-Down m s k x service cs t w e q own (h x) f n).0
      | inr other ↦ (start-Still m s k x service cs t w q other).low (h x) (a x i (rw q other))
    ]
  ]

  pub stop-AllDown :
      (service : String) (t : ℕ) (w : m.World) (y : Unit {0})
      → Settled w
      → Only service w
      → (stop m s service t w).0 ≡ ok y
      → AllDown (stop m s service t w).1
  unfolding stop
  stop-AllDown service t w y h a f x i =
      let q = stop-Still m s k x service t w in
      elim (Option-cases (lookup_service service services)) [
        | inl e ↦ q.low (h x) (a x i (rw e refl))
        | inr (cs, e) ↦ elim (Bool-cases (contains x (names cs))) [
          | inl own ↦ (stop-Down m s k x service cs t w y e own (h x) f).0
          | inr other ↦ q.low (h x) (a x i (rw e other))
        ]
      ]
