-- ===== src/Dispatcher/Retention.antt =====
-- Proofs about `_prune_terminal_locked` of dispatcher/dispatcher.py.
use single_gpu_ai_services.Base.{
  ℕ, ◌≡◌, ◌≢◌, refl, sym, ap, ◌∙◌, subst, inl, inr, ◌⊎◌, ◌+◌, ◌≤◌, Bool, true, false, arith, Option,
  none, some, List, [], ◌∷◌, String, ◌==◌, eq_iff, contains, Bool-cases, if◌then◌else◌,
}
use single_gpu_ai_services.Dispatcher.Lease.{LeaseRecord, is_terminal, find}
use single_gpu_ai_services.Dispatcher.Lease.Laws.{find-pop_all, Distinct}
use single_gpu_ai_services.Dispatcher.State.{
  Dispatcher, is_current, retained, is_stale, stale_ids, prune,
}

-- The test of a record that may be missing.
abbrev pub is_stale? : ℕ → Dispatcher → Option LeaseRecord → Bool
is_stale? now d none = false
is_stale? now d (some r) = is_stale now d r

-- Without repeated keys the gathered identifiers are those of the stale records.
contains-stale :
    (now : ℕ) (d : Dispatcher) (j : String) (rs : List LeaseRecord)
    → Distinct rs
    → contains j (stale_ids now d rs) ≡ is_stale? now d (find j rs)
unfolding stale_ids find
contains-stale now d j [] h = refl
contains-stale now d j (r ∷ rs) h = elim (Bool-cases (r.request_id == j)) [
  | inl same ↦
      let here : find j rs ≡ none =
        subst (λ k. find k rs ≡ none) ((eq_iff r.request_id j).0 same) h.0 in
      let rest : contains j (stale_ids now d rs) ≡ false =
        contains-stale now d j rs h.1 ∙ ap (is_stale? now d) here in
      elim (Bool-cases (is_stale now d r)) [
        | inl s ↦ rw (s, same) (sym s)
        | inr s ↦ rw (s, same) (rest ∙ sym s)
      ]
  | inr other ↦ elim (Bool-cases (is_stale now d r)) [
    | inl s ↦ rw (s, other) (contains-stale now d j rs h.1)
    | inr s ↦ rw (s, other) (contains-stale now d j rs h.1)
  ]
]

pub find-prune :
    (now : ℕ) (d : Dispatcher) (j : String)
    → Distinct d.records
    → find j (prune now d).records
      ≡ (if is_stale? now d (find j d.records) then none else find j d.records)
unfolding prune
find-prune now d j h =
    rw (find-pop_all j (stale_ids now d d.records) d.records, contains-stale now d j d.records h)
      refl

-- The lease ended at least the retention ago, and is not the current one.
pub record Prunable (now : ℕ) (d : Dispatcher) (r : LeaseRecord) : Type 0 where
  pub ended : is_terminal r.state ≡ true
  pub ended_at : ℕ
  pub known : r.terminal_at ≡ some ended_at
  pub old : ended_at + d.terminal_retention ≤ now
  pub other : d.current ≢ some r.request_id

is_current-some : (j : String) → is_current (some j) j ≡ true
is_current-some j = (eq_iff j j).1 refl

is_current-other : (o : Option String) (j : String) → is_current o j ≡ false → o ≢ some j
is_current-other o j h same = ground (arith, h, ap (λ c. is_current c j) same, is_current-some j)

retained-old :
    (o : Option ℕ) (retention now : ℕ)
    → retained o retention now ≡ true
    → (t : ℕ) × (o ≡ some t) × (t + retention ≤ now)
retained-old none retention now h = ground (arith, h)
retained-old (some t) retention now h = (t, refl, ground (arith, h))

is_stale-Prunable :
    (now : ℕ) (d : Dispatcher) (r : LeaseRecord) → is_stale now d r ≡ true → Prunable now d r
is_stale-Prunable now d r h =
    let kept : retained r.terminal_at d.terminal_retention now ≡ true = ground (arith, h) in
    let (t, known, old) = retained-old r.terminal_at d.terminal_retention now kept in
    record {
      ended = ground (arith, h);
      ended_at = t;
      known = known;
      old = old;
      other = is_current-other d.current r.request_id (ground (arith, h));
    }

is_current-false : (o : Option String) (j : String) → o ≢ some j → is_current o j ≡ false
is_current-false none j h = refl
is_current-false (some k) j h = elim (Bool-cases (j == k)) [
  | inl e ↦ absurd (h (ap some (sym ((eq_iff j k).0 e))))
  | inr e ↦ e
]

Prunable-is_stale :
    (now : ℕ) (d : Dispatcher) (r : LeaseRecord) → Prunable now d r → is_stale now d r ≡ true
Prunable-is_stale now d r p =
    let kept : retained r.terminal_at d.terminal_retention now ≡ true =
      rw p.known (ground (arith, p.old)) in
    ground (arith, p.ended, kept, is_current-false d.current r.request_id p.other)

-- What becomes of what is recorded under an identifier.
abbrev pub Pruned : ℕ → Dispatcher → Option LeaseRecord → Option LeaseRecord → Type 0
Pruned now d none after = after ≡ none
Pruned now d (some r) after =
    (Prunable now d r × (after ≡ none)) ⊎ ((¬ Prunable now d r) × (after ≡ some r))

-- When no identifier has two records, pruning forgets exactly the records of leases that ended at least
-- the retention ago and are not the current lease; it keeps the others as they are and adds none.
pub prune-Pruned :
    (now : ℕ) (d : Dispatcher) (j : String)
    → Distinct d.records
    → Pruned now d (find j d.records) (find j (prune now d).records)
prune-Pruned now d j h = of (find j d.records) (find j (prune now d).records) (find-prune now d j h)
  where
    of :
        (before after : Option LeaseRecord)
        → after ≡ (if is_stale? now d before then none else before)
        → Pruned now d before after
    of none after e = e
    of (some r) after e = elim (Bool-cases (is_stale now d r)) [
      | inl s ↦ inl (is_stale-Prunable now d r s, e ∙ rw s refl)
      | inr s ↦ inr (λ p. ground (arith, s, Prunable-is_stale now d r p), e ∙ rw s refl)
    ]
