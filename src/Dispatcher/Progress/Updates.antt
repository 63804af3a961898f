-- ===== src/Dispatcher/Progress/Updates.antt =====
-- Proofs about the writes to the records of dispatcher/dispatcher.py and the order of states.
use single_gpu_ai_services.Base.{
  ℕ, ◌≡◌, inl, inr, Bool, true, false, Option, none, some, List, String, ◌==◌, eq_iff, arith,
  contains, Bool-cases, if◌then◌else◌,
}
use single_gpu_ai_services.Dispatcher.Lease.{LeaseState, LeaseRecord, find, put}
use single_gpu_ai_services.Dispatcher.Lease.Laws.{find-key, find-put, find-pop_all}
use single_gpu_ai_services.Dispatcher.State.{Dispatcher, stale_ids, prune, mark_terminal}
use single_gpu_ai_services.Dispatcher.Progress.{may_become, Follows, Later, Kept}

pub Follows-refl : (r : LeaseRecord) → Follows r r
Follows-refl r = ground arith

Follows-trans : (r s t : LeaseRecord) → Follows r s → Follows s t → Follows r t
Follows-trans r s t p q = ground arith

Later-trans : (a b c : Option LeaseRecord) → Later a b → Later b c → Later a c
Later-trans none none none p q = tt
Later-trans none none (some t) p q = q
Later-trans none (some s) c p q = absurd p
Later-trans (some r) none none p q = p
Later-trans (some r) none (some t) p q = absurd q
Later-trans (some r) (some s) none p q = tt
Later-trans (some r) (some s) (some t) p q = Follows-trans r s t p q

pub Later-refl : (a : Option LeaseRecord) → Later a a
Later-refl none = tt
Later-refl (some r) = Follows-refl r

pub Kept-refl : (rs : List LeaseRecord) → Kept rs rs
Kept-refl rs j = Later-refl (find j rs)

pub Kept-trans : (a b c : List LeaseRecord) → Kept a b → Kept b c → Kept a c
Kept-trans a b c p q j = Later-trans (find j a) (find j b) (find j c) (p j) (q j)

-- Writing back a later record of a lease that is there.
pub put-Kept :
    (j : String) (r r' : LeaseRecord) (rs : List LeaseRecord)
    → find j rs ≡ some r
    → Follows r r'
    → Kept rs (put r' rs)
put-Kept j r r' rs e f k = elim (Bool-cases (r'.request_id == k)) [
  | inl same ↦
      let here : find k rs ≡ some r =
        ground (arith, find-key j rs e, eq_iff r'.request_id k, f.same_id) in
      rw (find-put k r' rs) (rw (same, here) f)
  | inr other ↦ rw (find-put k r' rs) (rw other (Later-refl (find k rs)))
]

-- What follows a lookup, whether or not the lease is there.
Later-if : (b : Bool) (o : Option LeaseRecord) → Later o (if b then none else o)
Later-if true none = tt
Later-if true (some r) = tt
Later-if false o = Later-refl o

pub prune-Kept : (now : ℕ) (d : Dispatcher) → Kept d.records (prune now d).records
unfolding prune
prune-Kept now d j =
    rw (find-pop_all j (stale_ids now d d.records) d.records)
      (Later-if (contains j (stale_ids now d d.records)) (find j d.records))

pub mark_terminal-Kept :
    (j : String) (r r' : LeaseRecord) (target : LeaseState) (d : Dispatcher)
    → find j d.records ≡ some r
    → Follows r r'
    → may_become r.state target ≡ true
    → Kept d.records (mark_terminal r' target d).records
unfolding mark_terminal
mark_terminal-Kept j r r' target d e f m =
    put-Kept j r
      (record r' { state = target; terminal_at = some (d.clock d.reads); active_deadline = none })
      d.records e (ground (arith, f))
