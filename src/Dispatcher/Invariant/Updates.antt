-- ===== src/Dispatcher/Invariant/Updates.antt =====
-- Proofs about the single writes to the state of dispatcher/dispatcher.py and the invariant.
use single_gpu_ai_services.Base.{
  ℕ, ◌<◌, ◌≡◌, refl, sym, ap, ◌∙◌, ◌⊎◌, inl, inr, Bool, true, false, Option, none, some, List, [],
  ◌∷◌, String, ◌==◌, eq_iff, eq_refl, arith, is_some, contains, length, Bool-cases,
}
use single_gpu_ai_services.Dispatcher.Lease.{
  LeaseState, is_terminal, is_queued, LeaseRecord, find, put,
}
use single_gpu_ai_services.Dispatcher.Lease.Laws.{
  find-put, find-pop_all, length-put, length-pop_all-le, put-Distinct, pop_all-Distinct,
}
use single_gpu_ai_services.Dispatcher.State.{Dispatcher, stale_ids, prune, mark_terminal}
use single_gpu_ai_services.Dispatcher.Invariant.{LeaseOk, Good, Held, IsValid, is_end}

-- Writing a record that is in order.
pub put-Good :
    (c : Option String) (q : List String) (m : ℕ) (rs : List LeaseRecord) (r : LeaseRecord)
    → LeaseOk c q r.request_id r
    → (is_some (find r.request_id rs) ≡ true) ⊎ (length rs < m)
    → Good c q m rs
    → Good c q m (put r rs)
put-Good c q m rs r fine room g = record {
  leases = λ j s e. elim (Bool-cases (r.request_id == j)) [
    | inl same ↦ ground (arith, find-put j r rs, eq_iff r.request_id j, fine)
    | inr other ↦ g.leases j s (ground (arith, find-put j r rs))
  ];
  bounded = ground (arith, length-put r rs, g.bounded);
  distinct = put-Distinct r rs g.distinct;
}

pub put-Held :
    (fit : LeaseState → Bool) (c : Option String) (rs : List LeaseRecord) (r : LeaseRecord)
    → (c ≡ some r.request_id → fit r.state ≡ true)
    → Held fit c rs
    → Held fit c (put r rs)
put-Held fit c rs r fine h j e = elim (Bool-cases (r.request_id == j)) [
  | inl same ↦
      rw (find-put j r rs, same) (fine (e ∙ ap some (sym ((eq_iff r.request_id j).0 same))))
  | inr other ↦ rw (find-put j r rs, other) (h j e)
]

-- The record of the current lease is never stale.
pub current-not_stale :
    (now : ℕ) (d : Dispatcher) (j : String) (rs : List LeaseRecord)
    → d.current ≡ some j
    → contains j (stale_ids now d rs) ≡ false
unfolding stale_ids
current-not_stale now d j [] e = refl
current-not_stale now d j (r ∷ rs) e =
    rw e (ground (arith, current-not_stale now d j rs e, eq_iff r.request_id j, eq_refl j))

pub prune-find :
    (now : ℕ) (d : Dispatcher) (j : String) {r : LeaseRecord}
    → find j (prune now d).records ≡ some r
    → find j d.records ≡ some r
unfolding prune
prune-find now d j h = ground (arith, find-pop_all j (stale_ids now d d.records) d.records)

pub prune-IsValid :
    (now : ℕ) (d : Dispatcher) (fit : LeaseState → Bool) → IsValid d fit → IsValid (prune now d) fit
unfolding prune
prune-IsValid now d fit v = record {
  good = record {
    leases = λ j r e. v.good.leases j r (prune-find now d j e);
    bounded =
        omega (arith, length-pop_all-le (stale_ids now d d.records) d.records, v.good.bounded);
    distinct = pop_all-Distinct (stale_ids now d d.records) d.records v.good.distinct;
  };
  held = λ j e.
      rw
        (
          find-pop_all j (stale_ids now d d.records) d.records,
          current-not_stale now d j d.records e,
        )
        (v.held j e);
}

-- A longer queue, or one that lost only what is no longer queued.
pub queue-Good :
    (c : Option String) (q q' : List String) (m : ℕ) (rs : List LeaseRecord)
    → ((j : String) (r : LeaseRecord)
        → find j rs ≡ some r
        → is_queued r.state ≡ true
        → contains j q ≡ true
        → contains j q' ≡ true)
    → Good c q m rs
    → Good c q' m rs
queue-Good c q q' m rs keep g = record {
  leases = λ j r e.
      let old = g.leases j r e in
      record {
        owner = old.owner;
        waiting = λ w. keep j r e w (old.waiting w);
        stamped = old.stamped;
        timed = old.timed;
        aimed = old.aimed;
        ends = old.ends;
      };
  bounded = g.bounded;
  distinct = g.distinct;
}

pub mark_terminal-IsValid :
    (r : LeaseRecord) (target : LeaseState) (d : Dispatcher) (fit : LeaseState → Bool)
    → is_terminal target ≡ true
    → is_some (find r.request_id d.records) ≡ true
    → is_end r.terminal_target ≡ true
    → (d.current ≡ some r.request_id → fit target ≡ true)
    → IsValid d fit
    → IsValid (mark_terminal r target d) fit
unfolding mark_terminal
mark_terminal-IsValid r target d fit t known ends fine v = record {
  good = put-Good d.current d.queue d.max_records d.records _ (ended target t) (inl known) v.good;
  held = put-Held fit d.current d.records _ fine v.held;
}
  where
    ended :
        (s : LeaseState)
        → is_terminal s ≡ true
        → LeaseOk d.current d.queue r.request_id
            (record r { state = s; terminal_at = some (d.clock d.reads); active_deadline = none })
    ended s e = ground arith
