-- ===== src/Gateway/Admission.antt =====
-- Proofs about `authenticate_client` of gateway/app/main.py.
use single_gpu_ai_services.Base.{
  ℕ, suc, ◌+◌, ◌-◌, ◌≤◌, ◌<◌, ◌≡◌, ◌≢◌, refl, ◌⊎◌, inl, inr, true, false, some, List, [], ◌∷◌,
  String, arith, leb, eqb, contains, length, ok, Bool-cases,
}
use single_gpu_ai_services.Gateway.Limits.{RequestCapacityLimiter, try_acquire, release}
use single_gpu_ai_services.Gateway.Middleware.{
  HttpRequest, Authentication, registry_unavailable, no_client, client, is_public, capability,
  required_scopes, is_subset, Decision, rejected, forwarded, admitted, is_limited, take_slot,
  decide, Server, ServerEvent, arrives, ends, enter, is_member, leave, finish, handle, handle_all,
}

-- The limiter counts the requests that hold a slot, and no more than its limit.
pub record Counted (limit : ℕ) (v : Server) : Type 0 where
  pub counts : v.limiter.active ≡ length v.running
  pub bounded : v.limiter.active ≤ limit
  pub fixed : v.limiter.limit ≡ limit

length-leave : (n : ℕ) (ns : List ℕ) → is_member n ns ≡ true → suc (length (leave n ns)) ≡ length ns
unfolding leave
length-leave n [] h = ground arith
length-leave n (k ∷ ks) h = ground (arith, length-leave n ks)

decide_cases :
    (P : Decision × RequestCapacityLimiter → Type 0) (r : HttpRequest) (a : Authentication)
    (l : RequestCapacityLimiter)
    → P (forwarded, l)
    → ((n : ℕ) → P (rejected n, l))
    → (l.active < l.limit → P (admitted, record l { active = l.active + 1 }))
    → P (decide r a l)
unfolding decide take_slot try_acquire
decide_cases P r a l keep_ refuse take_ =
    ground (arith, refuse 503, refuse 401, refuse 403, refuse 429)

arrives-Counted :
    (limit : ℕ) (v : Server) (n : ℕ) (r : HttpRequest) (a : Authentication)
    → Counted limit v
    → let t = decide r a v.limiter in
      Counted limit (record { limiter = t.1; running = enter n t.0 v.running })
arrives-Counted limit v n r a h =
    decide_cases (λ t. Counted limit (record { limiter = t.1; running = enter n t.0 v.running })) r
      a v.limiter h (λ k. h)
      (λ room. record {
        counts = omega (arith, h.counts);
        bounded = omega (arith, room, h.fixed);
        fixed = h.fixed;
      })

finish-Counted :
    (limit : ℕ) (v : Server) (n : ℕ)
    → Counted limit v
    → is_member n v.running ≡ true
    → (v' : Server) × (finish n v ≡ ok v') × Counted limit v'
unfolding finish release
finish-Counted limit v n h i =
    let size = length-leave n v.running i in
    let some_ : eqb v.limiter.active 0 ≡ false = ground (arith, h.counts, size) in
    (
      record {
        limiter = record v.limiter { active = v.limiter.active - 1 };
        running = leave n v.running;
      },
      ground arith,
      record {
        counts = omega (arith, h.counts, size);
        bounded = omega (arith, h.bounded);
        fixed = h.fixed;
      },
    )

handle-Counted :
    (limit : ℕ) (v : Server) (e : ServerEvent)
    → Counted limit v
    → (v' : Server) × (handle v e ≡ ok v') × Counted limit v'
unfolding handle
handle-Counted limit v (arrives n r a) h = (_, refl, arrives-Counted limit v n r a h)
handle-Counted limit v (ends n) h = elim (Bool-cases (is_member n v.running)) [
  | inl i ↦ rw (i, handle) (finish-Counted limit v n h i)
  | inr o ↦ (v, rw (o, handle) refl, h)
]

-- From a server that counts its requests, any events are handled without the error of the limiter, and
-- afterwards the limiter counts the requests that hold a slot, which are at most its limit.
pub handle_all-Counted :
    (limit : ℕ) (es : List ServerEvent) (v : Server)
    → Counted limit v
    → (v' : Server) × (handle_all v es ≡ ok v') × Counted limit v'
unfolding handle_all
handle_all-Counted limit [] v h = (v, refl, h)
handle_all-Counted limit (e ∷ es) v h =
    let (v1, q, h1) = handle-Counted limit v e h in
    let (v2, q2, h2) = handle_all-Counted limit es v1 h1 in (v2, rw (q, handle_all) q2, h2)

required_scopes_in :
    (path : String) (scopes : List String)
    → is_subset (required_scopes path) scopes ≡ true
    → (contains "gateway" scopes ≡ true)
      × ((c : String) → capability path ≡ some c → contains c scopes ≡ true)
unfolding required_scopes
required_scopes_in path scopes h = (ground arith, λ c e. ground arith)

decide_slot :
    (r : HttpRequest) (scopes : List String) (l : RequestCapacityLimiter)
    → is_public r.path ≡ false
    → is_subset (required_scopes r.path) scopes ≡ true
    → is_limited r ≡ true
    → ((decide r (client scopes) l).0 ≡ admitted) ⊎ ((decide r (client scopes) l).0 ≡ rejected 429)
unfolding decide take_slot try_acquire
decide_slot r scopes l p s q = elim (Bool-cases (leb l.limit l.active)) [
  | inl full ↦ inr (ground arith)
  | inr room ↦ inl (ground arith)
]

-- A request to a path that is not public reaches a handler only for a client with the scope "gateway"
-- and the scope of the path's capability, and, if it is limited, only with a slot.
pub decide_authorized :
    (r : HttpRequest) (a : Authentication) (l : RequestCapacityLimiter)
    → is_public r.path ≡ false
    → ((n : ℕ) → (decide r a l).0 ≢ rejected n)
    → (scopes : List String) × (a ≡ client scopes)
      × (contains "gateway" scopes ≡ true)
      × ((c : String) → capability r.path ≡ some c → contains c scopes ≡ true)
      × (is_limited r ≡ true → (decide r a l).0 ≡ admitted)
unfolding decide
decide_authorized r registry_unavailable l p h = absurd (h 503 (rw (p, decide) refl))
decide_authorized r no_client l p h = absurd (h 401 (rw (p, decide) refl))
decide_authorized r (client scopes) l p h =
    elim (Bool-cases (is_subset (required_scopes r.path) scopes)) [
      | inr no_ ↦ absurd (h 403 (rw (p, decide) (rw no_ refl)))
      | inl yes_ ↦
          let (base, own) = required_scopes_in r.path scopes yes_ in
          (
            scopes,
            refl,
            base,
            own,
            λ q. elim (decide_slot r scopes l p yes_ q) [
              | inl in_ ↦ in_
              | inr out ↦ absurd (h 429 out)
            ],
          )
    ]
