-- ===== src/Gateway/Client/Cancelling.antt =====
-- Proofs about how `acquire` of gateway/app/dispatcher_client.py ends.
use single_gpu_ai_services.Base.{
  ℕ, zero, suc, ◌+◌, ◌≡◌, refl, ap, ◌⊎◌, inl, inr, Option, none, some, List, [], ◌∷◌, String, arith,
  leb, Result, ok, err, Bool-cases, Option-cases,
}
use single_gpu_ai_services.Gateway.Client.{
  LeaseHandle, ClientRequest, get_ready, post_acquire, get_lease, post_cancel, Body, ClientError,
  timed_out, ClientSettings, Network, Session, Action, resume, ◌>>=◌, raise_if, fetch, read_time,
  pause, ready, follow, judge, state_of, poll, attempt, patience, raise_again, guarded, take_lease,
  acquire,
}

abbrev pub first : List ClientRequest → Option ClientRequest
first [] = none
first (q ∷ qs) = some q

module _ (m : Network) (s : ClientSettings) where
  -- What a call gives is the lease, if it gives one.
  abbrev Returns : LeaseHandle → Action m s LeaseHandle → Type 0
  Returns lease f = (n : Session m s) (l : LeaseHandle) → (f n).0 ≡ ok l → l ≡ lease

  bind-Returns :
      {A : Type 0}
      → (lease : LeaseHandle) (f : Action m s A) (g : A → Action m s LeaseHandle)
      → ((a : A) → Returns lease (g a))
      → Returns lease (◌>>=◌ m s f g)
  bind-Returns {A} lease f g h n l e = bound (f n) e
    where
      bound : (t : Result ClientError A × Session m s) → (resume m s g t).0 ≡ ok l → l ≡ lease
      bound (ok a, w) q = h a w l q
      bound (err x, w) q = ground arith

  follow-Returns :
      (lease : LeaseHandle) (o : Option (Result ClientError (Unit {0})))
      (again : Action m s LeaseHandle)
      → Returns lease again
      → Returns lease (follow m s lease o again)
  follow-Returns lease (some (ok x)) again h n l e = ground arith
  follow-Returns lease (some (err x)) again h n l e = ground arith
  follow-Returns lease none again h n l e = h n l e

  poll-Returns :
      (lease : LeaseHandle) (deadline fuel : ℕ) → Returns lease (poll m s lease deadline fuel)
  unfolding poll
  poll-Returns lease deadline zero n l e = ground arith
  poll-Returns lease deadline (suc fuel) n l e =
      let next = λ (_ : Unit {0}). poll m s lease deadline fuel in
      let judged =
        λ (b : Body). follow m s lease (judge (state_of b)) (◌>>=◌ m s (pause m s) next) in
      let asked = λ (_ : Unit {0}). ◌>>=◌ m s (fetch m s (get_lease lease)) judged in
      bind-Returns lease (read_time m s)
        (λ now. ◌>>=◌ m s (raise_if m s (leb deadline now) timed_out) asked)
        (λ now. bind-Returns lease (raise_if m s (leb deadline now) timed_out) asked (λ _.
          bind-Returns lease (fetch m s (get_lease lease)) judged (λ b.
            follow-Returns lease (judge (state_of b)) (◌>>=◌ m s (pause m s) next)
              (bind-Returns lease (pause m s) next (λ _. poll-Returns lease deadline fuel)))))
        n l e

  attempt-Returns : (lease : LeaseHandle) → Returns lease (attempt m s lease)
  unfolding attempt
  attempt-Returns lease =
      let wait = λ (now : ℕ). poll m s lease (now + patience m s) (suc (patience m s)) in
      let judged =
        λ (b : Body). follow m s lease (judge (state_of b)) (◌>>=◌ m s (read_time m s) wait) in
      bind-Returns lease (fetch m s (post_acquire lease s.queue_wait)) judged (λ b.
        follow-Returns lease (judge (state_of b)) (◌>>=◌ m s (read_time m s) wait) (
          bind-Returns lease (read_time m s) wait
            (λ now. poll-Returns lease (now + patience m s) (suc (patience m s)))))

  -- A lease is returned, or its cancellation was the last request.
  abbrev pub Settled : LeaseHandle → Result ClientError LeaseHandle × Session m s → Type 0
  Settled lease (ok l, n) = l ≡ lease
  Settled lease (err e, n) = first n.sent ≡ some (post_cancel lease)

  raise_again-Settled :
      (lease : LeaseHandle) (e : ClientError) (t : Result ClientError Body × Session m s)
      → first t.1.sent ≡ some (post_cancel lease)
      → Settled lease (raise_again m s e t)
  raise_again-Settled lease e (ok b, n) h = h
  raise_again-Settled lease e (err x, n) h = ground arith

  guarded-Settled :
      (lease : LeaseHandle) (t : Result ClientError LeaseHandle × Session m s)
      → ((l : LeaseHandle) → t.0 ≡ ok l → l ≡ lease)
      → Settled lease (guarded m s lease t)
  unfolding guarded fetch
  guarded-Settled lease (ok l, n) h = h l refl
  guarded-Settled lease (err e, n) h =
      raise_again-Settled lease e (fetch m s (post_cancel lease) n) refl

  -- How an acquisition ends: with a lease for the service and the identifier, or with an error before
  -- anything but `/ready` was asked, or with an error after a last request that cancels the lease.
  abbrev pub Finished :
      String → String → List ClientRequest → Result ClientError LeaseHandle × Session m s → Type 0
  Finished service j before (ok l, n) = (l.service ≡ service) × (l.request_id ≡ j)
  Finished service j before (err e, n) =
      (n.sent ≡ get_ready ∷ before)
      ⊎ ((epoch : String) × (first n.sent
            ≡ some (post_cancel (record { request_id = j; service = service; epoch = epoch }))))

  Settled-Finished :
      (service j epoch : String) (before : List ClientRequest)
      (t : Result ClientError LeaseHandle × Session m s)
      → Settled (record { request_id = j; service = service; epoch = epoch }) t
      → Finished service j before t
  Settled-Finished service j epoch before (ok l, n) h =
      (ap (λ x. x.service) h, ap (λ x. x.request_id) h)
  Settled-Finished service j epoch before (err e, n) h = inr (epoch, h)

  take_lease-Finished :
      (service j : String) (b : Body) (before : List ClientRequest) (n : Session m s)
      → n.sent ≡ get_ready ∷ before
      → Finished service j before (take_lease m s service j b n)
  unfolding take_lease
  take_lease-Finished service j b before n h = elim (Bool-cases b.ready) [
    | inr no_ ↦ rw (no_, take_lease) (inl h)
    | inl yes_ ↦ elim (Option-cases b.epoch) [
      | inl e ↦ rw (yes_, take_lease) (rw e (inl h))
      | inr (epoch, e) ↦
          let lease : LeaseHandle = record { request_id = j; service = service; epoch = epoch } in
          rw (yes_, take_lease)
            (rw e (
              Settled-Finished service j epoch before (guarded m s lease (attempt m s lease n))
                (guarded-Settled lease (attempt m s lease n) (attempt-Returns lease n))))
    ]
  ]

  ready_sent : (n : Session m s) → (ready m s n).1.sent ≡ get_ready ∷ n.sent
  unfolding ready fetch
  ready_sent n = ground arith

  -- `acquire` gives a lease for its service and identifier, or raises before it asked for anything but
  -- `/ready`, or raises after its last request asked for the cancellation of its identifier.
  pub acquire-Finished :
      (service j : String) (n : Session m s) → Finished service j n.sent (acquire m s service j n)
  unfolding acquire
  acquire-Finished service j n = bound (ready m s n) (ready_sent n)
    where
      bound :
          (t : Result ClientError Body × Session m s)
          → t.1.sent ≡ get_ready ∷ n.sent
          → Finished service j n.sent (resume m s (take_lease m s service j) t)
      bound (ok b, w) q = take_lease-Finished service j b n.sent w q
      bound (err e, w) q = inl q
