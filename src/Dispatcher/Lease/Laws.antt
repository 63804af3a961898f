-- ===== src/Dispatcher/Lease/Laws.antt =====
-- Proofs about the dictionary of records of dispatcher/dispatcher.py.
use single_gpu_ai_services.Base.{
  ◌+◌, ◌≤◌, ◌≡◌, refl, sym, subst, none, some, List, [], ◌∷◌, arith, String, ◌==◌, eq_iff,
  if◌then◌else◌, length, contains, is_some,
}
use single_gpu_ai_services.Dispatcher.Lease.{LeaseRecord, find, put, pop, pop_all}

-- A record is found under its own identifier.
pub find-key :
    (j : String) (rs : List LeaseRecord) {r : LeaseRecord} → find j rs ≡ some r → r.request_id ≡ j
unfolding find
find-key j [] e = ground arith
find-key j (s ∷ rs) {r} e = ground (arith, find-key j rs {r = r}, eq_iff s.request_id j)

pub find-put :
    (j : String) (r : LeaseRecord) (rs : List LeaseRecord)
    → find j (put r rs) ≡ (if r.request_id == j then some r else find j rs)
unfolding find put
find-put j r [] = refl
find-put j r (s ∷ rs) = ground (
  arith,
  eq_iff r.request_id j,
  eq_iff s.request_id r.request_id,
  eq_iff s.request_id j,
  find-put j r rs,
)

pub find-pop :
    (j k : String) (rs : List LeaseRecord)
    → find j (pop k rs) ≡ (if k == j then none else find j rs)
unfolding find pop
find-pop j k [] = ground arith
find-pop j k (s ∷ rs) =
    ground (arith, eq_iff k j, eq_iff s.request_id k, eq_iff s.request_id j, find-pop j k rs)

pub find-pop_all :
    (j : String) (ks : List String) (rs : List LeaseRecord)
    → find j (pop_all ks rs) ≡ (if contains j ks then none else find j rs)
unfolding pop_all
find-pop_all j [] rs = refl
find-pop_all j (k ∷ ks) rs = ground (arith, find-pop_all j ks (pop k rs), find-pop j k rs)

-- Writing back a record that is there keeps the size, and a new one adds one.
pub length-put :
    (r : LeaseRecord) (rs : List LeaseRecord)
    → length (put r rs) ≡ (if is_some (find r.request_id rs) then length rs else length rs + 1)
unfolding find put
length-put r [] = refl
length-put r (s ∷ rs) = ground (arith, length-put r rs)

pub length-pop-le : (k : String) (rs : List LeaseRecord) → length (pop k rs) ≤ length rs
unfolding pop
length-pop-le k [] = omega arith
length-pop-le k (s ∷ rs) = ground (arith, length-pop-le k rs)

pub length-pop_all-le :
    (ks : List String) (rs : List LeaseRecord) → length (pop_all ks rs) ≤ length rs
unfolding pop_all
length-pop_all-le [] rs = omega arith
length-pop_all-le (k ∷ ks) rs = omega (arith, length-pop_all-le ks (pop k rs), length-pop-le k rs)

-- No identifier has two records.
abbrev pub Distinct : List LeaseRecord → Type 0
Distinct [] = Unit
Distinct (r ∷ rs) = (find r.request_id rs ≡ none) × Distinct rs

pub put-Distinct : (r : LeaseRecord) (rs : List LeaseRecord) → Distinct rs → Distinct (put r rs)
unfolding put find
put-Distinct r [] h = (refl, tt)
put-Distinct r (s ∷ rs) h = ground (
  arith,
  put-Distinct r rs h.1,
  find-put s.request_id r rs,
  eq_iff r.request_id s.request_id,
  eq_iff s.request_id r.request_id,
)

pub pop-Distinct : (k : String) (rs : List LeaseRecord) → Distinct rs → Distinct (pop k rs)
unfolding pop find
pop-Distinct k [] h = tt
pop-Distinct k (s ∷ rs) h = ground (arith, pop-Distinct k rs h.1, find-pop s.request_id k rs)

pub pop_all-Distinct :
    (ks : List String) (rs : List LeaseRecord) → Distinct rs → Distinct (pop_all ks rs)
unfolding pop_all
pop_all-Distinct [] rs h = h
pop_all-Distinct (k ∷ ks) rs h = pop_all-Distinct ks (pop k rs) (pop-Distinct k rs h)

pub find_self :
    (j : String) (rs : List LeaseRecord) {r : LeaseRecord}
    → find j rs ≡ some r
    → find r.request_id rs ≡ some r
find_self j rs {r} e = subst (λ k. find k rs ≡ some r) (sym (find-key j rs e)) e
