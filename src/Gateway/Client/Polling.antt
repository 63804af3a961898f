-- ===== src/Gateway/Client/Polling.antt =====
-- Proofs about the polling loop of `acquire` in gateway/app/dispatcher_client.py.
use single_gpu_ai_services.Base.{
  ℕ, zero, suc, ◌+◌, ◌≤◌, ◌≡◌, ◌≢◌, refl, inl, inr, Bool, true, false, some, String, arith, leb,
  Result, ok, err, Bool-cases, Option-cases,
}
use single_gpu_ai_services.Gateway.Client.{
  LeaseHandle, ClientRequest, post_acquire, post_cancel, get_lease, Body, ClientError, out_of_fuel,
  ClientSettings, Network, Session, Action, resume, ◌>>=◌, fetch, read_time, pause, ready, follow,
  judge, state_of, poll, attempt, patience, raise_again, guarded, take_lease, acquire,
}

abbrev is_fuel : ClientError → Bool
is_fuel out_of_fuel = true
is_fuel _ = false

-- `fuel` turns of `interval` each.
abbrev budget : ℕ → ℕ → ℕ
budget zero interval = 0
budget (suc fuel) interval = budget fuel interval + interval

budget-le : (fuel interval : ℕ) → 1 ≤ interval → fuel ≤ budget fuel interval
budget-le zero interval h = omega arith
budget-le (suc fuel) interval h = omega (arith, budget-le fuel interval h)

judge_fine : (state : String) (e : ClientError) → judge state ≡ some (err e) → is_fuel e ≡ false
judge_fine state e h = ground arith

module _ (m : Network) (s : ClientSettings) where
  -- What is relied on of time: it does not run backwards, and a sleep that is not cut short takes as
  -- long as was asked for.
  pub record Clock : Type 0 where
    pub now : m.World → ℕ
    pub time_reads : (w : m.World) → (m.time w).0 ≡ now w
    pub time_later : (w : m.World) → now w ≤ now (m.time w).1
    pub send_later : (q : ClientRequest) (w : m.World) → now w ≤ now (m.send q w).1
    pub sleep_later :
        (t : ℕ) (w : m.World) → (m.sleep t w).0 ≡ false → now w + t ≤ now (m.sleep t w).1

module _ (m : Network) (s : ClientSettings) (k : Clock m s) where
  -- The fuel is not used up, and what holds of a result.
  abbrev Fine :
      {A : Type 0} → (A → Session m s → Type 0) → Result ClientError A × Session m s → Type 0
  Fine post (ok a, n) = post a n
  Fine post (err e, n) = is_fuel e ≡ false

  abbrev Free : Result ClientError LeaseHandle × Session m s → Type 0
  Free = Fine (λ _ _. Unit)

  resume-Fine :
      {A B : Type 0}
      → (p : A → Session m s → Type 0) (r : B → Session m s → Type 0) (g : A → Action m s B)
        (t : Result ClientError A × Session m s)
      → Fine p t
      → ((a : A) (n : Session m s) → p a n → Fine r (g a n))
      → Fine r (resume m s g t)
  resume-Fine p r g (ok a, n) h j = j a n h
  resume-Fine p r g (err e, n) h j = h

  fetch-Fine :
      (q : ClientRequest) (n : Session m s)
      → Fine (λ _ n'. k.now n.world ≤ k.now n'.world) (fetch m s q n)
  unfolding fetch
  fetch-Fine q n = ground (arith, k.send_later q n.world)

  fetch-Free : (q : ClientRequest) (n : Session m s) → Fine (λ _ _. Unit) (fetch m s q n)
  unfolding fetch
  fetch-Free q n = ground arith

  pause-Fine :
      (n : Session m s)
      → Fine (λ _ n'. k.now n.world + s.poll_interval ≤ k.now n'.world) (pause m s n)
  unfolding pause
  pause-Fine n = ground (arith, k.sleep_later s.poll_interval n.world)

  follow-Fine :
      (lease : LeaseHandle) (state : String) (again : Action m s LeaseHandle) (n : Session m s)
      → Free (again n)
      → Free (follow m s lease (judge state) again n)
  follow-Fine lease state again n h = ground (arith, h)

  poll-Fine :
      (lease : LeaseHandle) (deadline fuel : ℕ) (n : Session m s)
      → deadline ≤ k.now n.world + budget fuel s.poll_interval
      → Free (poll m s lease deadline (suc fuel) n)
  unfolding poll
  poll-Fine lease deadline zero n h =
      let late : leb deadline (m.time n.world).0 ≡ true = ground (arith, k.time_reads n.world) in
      rw late refl
  poll-Fine lease deadline (suc fuel) n h = elim (Bool-cases (leb deadline (m.time n.world).0)) [
    | inl late ↦ rw late refl
    | inr early ↦
        let n1 : Session m s = record n { world = (m.time n.world).1 } in
        let next = λ (_ : Unit {0}). poll m s lease deadline (suc fuel) in
        let again = ◌>>=◌ m s (pause m s) next in
        rw early (
          resume-Fine (λ _ n2. k.now n1.world ≤ k.now n2.world) (λ _ _. Unit)
            (λ b. follow m s lease (judge (state_of b)) again) (fetch m s (get_lease lease) n1)
            (fetch-Fine (get_lease lease) n1)
            (λ b n2 g. follow-Fine lease (state_of b) again n2 (
              resume-Fine (λ _ n3. k.now n2.world + s.poll_interval ≤ k.now n3.world) (λ _ _. Unit)
                next (pause m s n2) (pause-Fine n2)
                (λ _ n3 later.
                  poll-Fine lease deadline fuel n3
                    (omega (arith, h, g, later, k.time_later n.world))))))
  ]

  attempt-Fine :
      (lease : LeaseHandle) (n : Session m s) → 1 ≤ s.poll_interval → Free (attempt m s lease n)
  unfolding attempt
  attempt-Fine lease n i =
      let wait = λ (t : ℕ). poll m s lease (t + patience m s) (suc (patience m s)) in
      let again = ◌>>=◌ m s (read_time m s) wait in
      resume-Fine (λ _ _. Unit) (λ _ _. Unit) (λ b. follow m s lease (judge (state_of b)) again)
        (fetch m s (post_acquire lease s.queue_wait) n)
        (fetch-Free (post_acquire lease s.queue_wait) n)
        (λ b n1 _. follow-Fine lease (state_of b) again n1 (
          let n2 : Session m s = record n1 { world = (m.time n1.world).1 } in
          poll-Fine lease ((m.time n1.world).0 + patience m s) (patience m s) n2 (
            omega (
              arith,
              k.time_reads n1.world,
              k.time_later n1.world,
              budget-le (patience m s) s.poll_interval i,
            ))))

  guarded-Fine :
      (lease : LeaseHandle) (t : Result ClientError LeaseHandle × Session m s)
      → Free t
      → Free (guarded m s lease t)
  unfolding guarded
  guarded-Fine lease (ok l, n) h = tt
  guarded-Fine lease (err e, n) h = raised (fetch m s (post_cancel lease) n)
    where
      raised : (t : Result ClientError Body × Session m s) → Free (raise_again m s e t)
      raised (ok b, w) = h
      raised (err x, w) = ground (arith, h)

  take_lease-Fine :
      (service j : String) (b : Body) (n : Session m s)
      → 1 ≤ s.poll_interval
      → Free (take_lease m s service j b n)
  unfolding take_lease
  take_lease-Fine service j b n i = elim (Bool-cases b.ready) [
    | inr no_ ↦ rw (no_, take_lease) refl
    | inl yes_ ↦ elim (Option-cases b.epoch) [
      | inl e ↦ rw (yes_, take_lease) (rw e refl)
      | inr (epoch, e) ↦
          let lease : LeaseHandle = record { request_id = j; service = service; epoch = epoch } in
          rw (yes_, take_lease)
            (rw e (guarded-Fine lease (attempt m s lease n) (attempt-Fine lease n i)))
    ]
  ]

  Free-result : (t : Result ClientError LeaseHandle × Session m s) → Free t → t.0 ≢ err out_of_fuel
  Free-result (ok l, n) h e = ground arith
  Free-result (err x, n) h e = ground arith

  ready-Fine : (n : Session m s) → Fine (λ _ _. Unit) (ready m s n)
  unfolding ready fetch
  ready-Fine n = ground arith

  -- With a positive poll interval and a clock that does not run backwards, the fuel of `acquire` is
  -- enough: each acquisition ends as the code ends it.
  pub acquire-ne-out_of_fuel :
      (service j : String) (n : Session m s)
      → 1 ≤ s.poll_interval
      → (acquire m s service j n).0 ≢ err out_of_fuel
  unfolding acquire
  acquire-ne-out_of_fuel service j n i = Free-result (acquire m s service j n) (
      resume-Fine (λ _ _. Unit) (λ _ _. Unit) (take_lease m s service j) (ready m s n)
        (ready-Fine n) (λ b w _. take_lease-Fine service j b w i))
