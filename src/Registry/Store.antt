-- ===== src/Registry/Store.antt =====
-- Proofs about `TokenStore` of client_access/registry.py.
use single_gpu_ai_services.Base.{
  ℕ, ◌≡◌, refl, sym, ap, subst, ◌⊎◌, inl, inr, true, false, Option, none, some, List, [], ◌∷◌,
  String, arith, ◌==◌, eq_iff, Bool-cases, Option-cases,
}
use single_gpu_ai_services.Registry.{
  Row, ClientIdentity, Fingerprint, Disk, TokenStore, Answer, answered, unavailable, is_stamp,
  same_print, forgotten, reload, refresh, bearer_token, is_revoked, has_scope, identity_of,
  find_client, identify, answer_with, authenticate,
}

-- The rows that the store holds are those of its stamp, by a table of what the files held.
abbrev pub Loaded : (Fingerprint → List Row) → TokenStore → Type 0
Loaded rows_of t = (f : Fingerprint) → t.stamp ≡ some f → t.clients ≡ rows_of f

-- What was read has the rows of its fingerprint.
abbrev pub Faithful : (Fingerprint → List Row) → Option (List Row × Fingerprint) → Type 0
Faithful rows_of none = Unit
Faithful rows_of (some (rows, f)) = rows ≡ rows_of f

same_print-eq : (a b : Fingerprint) → same_print a b ≡ true → a ≡ b
same_print-eq a b h = ground arith

is_stamp-eq : (o : Option Fingerprint) (f : Fingerprint) → is_stamp o f ≡ true → o ≡ some f
is_stamp-eq none f h = ground arith
is_stamp-eq (some g) f h = ap some (sym (same_print-eq f g h))

-- What a refresh gives: the rows of a file, which is the one looked at or the one read, and a store
-- that holds them; or no rows and an empty store.
abbrev pub Current :
    (Fingerprint → List Row)
    → Option Fingerprint
    → Option (List Row × Fingerprint)
    → Answer (List Row) × TokenStore
    → Type 0
Current rows_of st rd (answered rows, t) =
    (f : Fingerprint) × ((st ≡ some f) ⊎ (rd ≡ some (rows, f)))
    × (rows ≡ rows_of f)
    × (t ≡ record { stamp = some f; clients = rows })
Current rows_of st rd (unavailable, t) = t ≡ forgotten

reload-Current :
    (rows_of : Fingerprint → List Row) (st : Option Fingerprint)
    (rd : Option (List Row × Fingerprint))
    → Faithful rows_of rd
    → Current rows_of st rd (reload rd)
unfolding reload
reload-Current rows_of st none h = refl
reload-Current rows_of st (some (rows, f)) h = (f, inr refl, h, refl)

refresh_from :
    (rows_of : Fingerprint → List Row) (st : Option Fingerprint)
    (rd : Option (List Row × Fingerprint)) (t : TokenStore)
    → Faithful rows_of rd
    → Loaded rows_of t
    → Current rows_of st rd (refresh (record { stat = st; read = rd }) t)
unfolding refresh
refresh_from rows_of none rd t h l = refl
refresh_from rows_of (some f) rd t h l = elim (Bool-cases (is_stamp t.stamp f)) [
  | inr new ↦ rw new (reload-Current rows_of (some f) rd h)
  | inl old ↦
      let e = is_stamp-eq t.stamp f old in
      rw old (f, inl refl, l f e, ap (λ o. record t { stamp = o }) e)
]

-- With a store that holds the rows of its stamp, a refresh answers with the rows of the file that it
-- looked at or read, and holds them; or it raises, and holds nothing.
pub refresh-Current :
    (rows_of : Fingerprint → List Row) (d : Disk) (t : TokenStore)
    → Faithful rows_of d.read
    → Loaded rows_of t
    → Current rows_of d.stat d.read (refresh d t)
refresh-Current rows_of d t h l = refresh_from rows_of d.stat d.read t h l

-- A row that an identity comes from.
abbrev pub Grants : String → Option String → ClientIdentity → Row → Type 0
Grants presented required i r =
    (presented ≡ r.token_sha256)
    × (r.enabled ≡ true)
    × (is_revoked r.revoked_at ≡ false)
    × (has_scope required r.scopes ≡ true)
    × (i ≡ record { client_id = r.client_id; scopes = r.scopes })

abbrev pub In : Row → List Row → Type 0
In r [] = ⊥
In r (q ∷ qs) = (r ≡ q) ⊎ In r qs

identity-Grants :
    (presented : String) (required : Option String) (i : ClientIdentity) (r : Row)
    → presented ≡ r.token_sha256
    → identity_of required r ≡ some i
    → Grants presented required i r
unfolding identity_of
identity-Grants presented required i r e h = ground (arith, e)

find_client-Grants :
    (presented : String) (required : Option String) (i : ClientIdentity) (rows : List Row)
    → find_client presented required rows ≡ some i
    → (r : Row) × In r rows × Grants presented required i r
unfolding find_client
find_client-Grants presented required i [] h = ground arith
find_client-Grants presented required i (r ∷ rs) h =
    elim (Bool-cases (presented == r.token_sha256)) [
      | inl same ↦ (
        r,
        inl refl,
        identity-Grants presented required i r ((eq_iff presented r.token_sha256).0 same)
            (rw same at h),
      )
      | inr other ↦
          let (q, m, g) = find_client-Grants presented required i rs (rw other at h) in
          (q, inr m, g)
    ]

module _ (sha256 : List ℕ → String) where
  identify-Grants :
      (header required : Option String) (i : ClientIdentity) (rows : List Row)
      → identify sha256 header required rows ≡ some i
      → (token : List ℕ) × (r : Row) × (bearer_token header ≡ some token)
        × In r rows
        × Grants (sha256 token) required i r
  unfolding identify
  identify-Grants header required i rows h = elim (Option-cases (bearer_token header)) [
    | inl e ↦ let h' : none ≡ some i = rw (e, identify) at h in ground arith
    | inr (token, e) ↦
        let (r, m, g) = find_client-Grants (sha256 token) required i rows (rw (e, identify) at h) in
        (token, r, e, m, g)
  ]

  answer-Grants :
      (header required : Option String) (i : ClientIdentity) (t : Answer (List Row) × TokenStore)
      → (answer_with sha256 header required t).0 ≡ answered (some i)
      → (rows : List Row) × (t.0 ≡ answered rows) × (identify sha256 header required rows ≡ some i)
  answer-Grants header required i (unavailable, t) h = ground arith
  answer-Grants header required i (answered rows, t) h = (rows, refl, ground arith)

  -- When `authenticate` gives an identity, with a store that holds the rows of its stamp, the header
  -- has a bearer token, and a row of the file that was looked at or read has the token's digest, the
  -- identity and the required scope, and is enabled and not revoked.
  pub authenticate-Grants :
      (rows_of : Fingerprint → List Row) (header required : Option String) (d : Disk)
      (t : TokenStore) (i : ClientIdentity)
      → Faithful rows_of d.read
      → Loaded rows_of t
      → (authenticate sha256 header required d t).0 ≡ answered (some i)
      → (f : Fingerprint) × (token : List ℕ) × (r : Row) × ((d.stat ≡ some f)
          ⊎ (d.read ≡ some (rows_of f, f)))
        × (bearer_token header ≡ some token)
        × In r (rows_of f)
        × Grants (sha256 token) required i r
  unfolding authenticate
  authenticate-Grants rows_of header required d t i h l e =
      let (rows, a, n) = answer-Grants header required i (refresh d t) e in
      let (f, where_, same, _) = current (refresh d t) rows a (refresh-Current rows_of d t h l) in
      let (token, r, b, m, g) = identify-Grants header required i rows n in
      (
        f,
        token,
        r,
        subst (λ v. (d.stat ≡ some f) ⊎ (d.read ≡ some (v, f))) same where_,
        b,
        subst (In r) same m,
        g,
      )
    where
      current :
          (u : Answer (List Row) × TokenStore) (rows : List Row)
          → u.0 ≡ answered rows
          → Current rows_of d.stat d.read u
          → (f : Fingerprint) × ((d.stat ≡ some f) ⊎ (d.read ≡ some (rows, f)))
            × (rows ≡ rows_of f)
            × Unit {0}
      current (unavailable, w) rows a c = ground arith
      current (answered q, w) rows a (f, s, e', _) =
          let v : q ≡ rows = ground arith in
          (
            f,
            subst (λ z. (d.stat ≡ some f) ⊎ (d.read ≡ some (z, f))) v s,
            subst (λ z. z ≡ rows_of f) v e',
            tt,
          )
