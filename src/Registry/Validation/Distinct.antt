-- ===== src/Registry/Validation/Distinct.antt =====
-- Proofs about `validate_registry` of client_access/registry.py: what holds of the rows it lets through.
use single_gpu_ai_services.Base.{
  ℕ, ◌≡◌, refl, inl, inr, sym, ap, subst, ◌∙◌, Bool, true, false, not, ◌&&◌, ◌||◌, Option, List, [],
  ◌∷◌, String, ◌==◌, eq_iff, eq_refl, contains, map, All, ok, refuse_if, demand, arith, Bool-cases,
  refuse_if_ok, from_ok, ltb,
}
use single_gpu_ai_services.Json.{
  Json, null, int, text, Fields, items, count, get_or, as_dict, as_list, as_text, as_bool,
  is_truthy,
}
use single_gpu_ai_services.Registry.{Row, identity_of, find_client}
use single_gpu_ai_services.Registry.Store.{In}
use single_gpu_ai_services.Registry.Scopes.{has_duplicates}
use single_gpu_ai_services.Registry.Validation.{
  invalid_client, invalid_client_id, invalid_digest, duplicate_client, enabled_no_boolean,
  invalid_timestamp, revoked_enabled, invalid_metadata, unsupported_version, unknown_registry_field,
  invalid_client_list, invalid_revision, client_fields, registry_fields, has_only, is_client_id,
  is_digest, lower_text, scopes_of, is_metadata, version_of, natural, Seen, enabled_of, checked_row,
  has_times, finish_row, validate_row, validate_rows, no_one, Validated, validate_registry, row_of,
  max_clients, may_be_time, checked_object,
}
use single_gpu_ai_services.Registry.Validation.Rows.{
  IsNew, clash, IsNew-cons, Sound, scopes_of-gateway, checked_row-Sound,
}

module _ (is_aware : String → Bool) where
  -- The row has these two entries and is sound.
  abbrev Named : String → String → Fields → Type 0
  Named client_id digest row =
      Sound (row_of row)
      × ((row_of row).client_id ≡ client_id)
      × ((row_of row).token_sha256 ≡ digest)

  finish_row-Named :
      (version : ℕ) (raw row : Fields) (client_id digest : String)
      → is_client_id client_id ≡ true
      → finish_row is_aware version raw client_id digest ≡ ok row
      → Named client_id digest row
  unfolding finish_row
  finish_row-Named version raw row client_id digest named =
      from_ok (demand (as_bool (enabled_of version raw)) enabled_no_boolean) _ row λ enabled e1.
        from_ok (scopes_of (get_or "scopes" null raw)) _ row λ scopes e2.
          from_ok
            (refuse_if (not (has_times is_aware (checked_row raw client_id digest enabled scopes)))
              invalid_timestamp)
            _ row
            λ _ e3.
              from_ok
                (refuse_if (is_truthy (get_or "revoked_at" null raw) && enabled) revoked_enabled) _
                row
                λ _ e4.
                  from_ok
                    (refuse_if
                      (not (
                        is_metadata (get_or "owner" (text "") raw)
                        && is_metadata (get_or "purpose" (text "") raw)))
                      invalid_metadata)
                    _ row
                    λ _ e5 h.
                      let same : checked_row raw client_id digest enabled scopes ≡ row =
                        ground (arith, h) in
                      subst (Named client_id digest) same (
                        checked_row-Sound raw client_id digest enabled scopes named
                          (scopes_of-gateway (get_or "scopes" null raw) scopes e2)
                          (refuse_if_ok (is_truthy (get_or "revoked_at" null raw) && enabled)
                            revoked_enabled _ e4))

  validate_row-Named :
      (version : ℕ) (seen : Seen) (value : Json) (t : String × String × Fields)
      → validate_row is_aware version seen value ≡ ok t
      → Named t.0 t.1 t.2 × (contains t.0 seen.ids ≡ false) × (contains t.1 seen.digests ≡ false)
  unfolding validate_row
  validate_row-Named version seen value t =
      from_ok (demand (as_dict value) invalid_client) _ t λ raw e1.
        from_ok (refuse_if (not (has_only client_fields raw)) invalid_client) _ t λ _ e2.
          from_ok (demand (as_text (get_or "client_id" null raw)) invalid_client_id) _ t
            λ client_id e3.
              from_ok (refuse_if (not (is_client_id client_id)) invalid_client_id) _ t λ _ e4.
                from_ok (demand (as_text (get_or "token_sha256" null raw)) invalid_digest) _ t
                  λ digest e5.
                    from_ok (refuse_if (not (is_digest digest)) invalid_digest) _ t λ _ e6.
                      from_ok
                        (refuse_if
                          (contains client_id seen.ids || contains (lower_text digest) seen.digests)
                          duplicate_client)
                        _ t
                        λ _ e7.
                          from_ok (finish_row is_aware version raw client_id (lower_text digest)) _
                            t
                            λ row e8 h.
                              let same : ◌≡◌ {A = String × String × Fields}
                                  (client_id, lower_text digest, row) t =
                                ground (arith, h) in
                              let named : is_client_id client_id ≡ true = ground (
                                arith,
                                refuse_if_ok (not (is_client_id client_id)) invalid_client_id _ e4,
                              ) in
                              let fresh =
                                refuse_if_ok
                                  (contains client_id seen.ids
                                    || contains (lower_text digest) seen.digests)
                                  duplicate_client _ e7 in
                              subst
                                (λ x.
                                  Named x.0 x.1 x.2
                                  × (contains x.0 seen.ids ≡ false)
                                  × (contains x.1 seen.digests ≡ false))
                                same
                                (
                                  finish_row-Named version raw row client_id (lower_text digest)
                                      named e8,
                                  ground (arith, fresh),
                                  ground (arith, fresh),
                                )

  abbrev AllNew : Seen → List Fields → Type 0
  AllNew seen rows =
      IsNew seen.ids (map (λ r. (row_of r).client_id) rows)
      × IsNew seen.digests (map (λ r. (row_of r).token_sha256) rows)
      × All (λ r. Sound (row_of r)) rows

  AllNew-cons :
      (seen : Seen) (client_id digest : String) (row : Fields) (rows : List Fields)
      → Named client_id digest row
      → contains client_id seen.ids ≡ false
      → contains digest seen.digests ≡ false
      → AllNew (record { ids = client_id ∷ seen.ids; digests = digest ∷ seen.digests }) rows
      → AllNew seen (row ∷ rows)
  AllNew-cons seen client_id digest row rows (sound, i, d) fi fd (ni, nd, s) = (
    subst (λ x. IsNew seen.ids (x ∷ map (λ r. (row_of r).client_id) rows)) (sym i)
        (IsNew-cons seen.ids client_id (map (λ r. (row_of r).client_id) rows) fi ni),
    subst (λ x. IsNew seen.digests (x ∷ map (λ r. (row_of r).token_sha256) rows)) (sym d)
        (IsNew-cons seen.digests digest (map (λ r. (row_of r).token_sha256) rows) fd nd),
    (sound, s),
  )

  validate_rows-AllNew :
      (version : ℕ) (values : List Json) (seen : Seen) (rows : List Fields)
      → validate_rows is_aware version seen values ≡ ok rows
      → AllNew seen rows
  unfolding validate_rows
  validate_rows-AllNew version [] seen rows = λ h.
      subst (AllNew seen) {x = []} (ground (arith, h))
        ((refl, λ s e. refl), (refl, λ s e. refl), tt)
  validate_rows-AllNew version (value ∷ values) seen rows =
      from_ok (validate_row is_aware version seen value) _ rows λ t e1.
        from_ok
          (validate_rows is_aware version
            (record { ids = t.0 ∷ seen.ids; digests = t.1 ∷ seen.digests }) values)
          _ rows
          λ rest e2 h.
            let same : t.2 ∷ rest ≡ rows = ground (arith, h) in
            let (named, fi, fd) = validate_row-Named version seen value t e1 in
            subst (AllNew seen) same (
              AllNew-cons seen t.0 t.1 t.2 rest named fi fd (
                validate_rows-AllNew version values
                  (record { ids = t.0 ∷ seen.ids; digests = t.1 ∷ seen.digests }) rest e2))

  -- What `validate_registry` returns has no client identity and no digest twice; and of each of its rows,
  -- the identity has the form of one, "gateway" is among the scopes, and the client is not both revoked
  -- and enabled.
  pub validate_registry-Sound :
      (value : Json) (v : Validated is_aware)
      → validate_registry is_aware value ≡ ok v
      → (has_duplicates (map (λ r. (row_of r).client_id) v.clients) ≡ false)
        × (has_duplicates (map (λ r. (row_of r).token_sha256) v.clients) ≡ false)
        × All (λ r. Sound (row_of r)) v.clients
  unfolding validate_registry
  validate_registry-Sound value v =
      from_ok (demand (as_dict value) unsupported_version) _ v λ data_ e1.
        from_ok (demand (version_of (get_or "version" null data_)) unsupported_version) _ v
          λ version e2.
            from_ok (refuse_if (not (has_only registry_fields data_)) unknown_registry_field) _ v
              λ _ e3.
                from_ok (demand (as_list (get_or "clients" null data_)) invalid_client_list) _ v
                  λ rows e4.
                    from_ok (refuse_if (ltb max_clients (count rows)) invalid_client_list) _ v
                      λ _ e5.
                        from_ok
                          (demand (natural (get_or "revision" (int 0) data_)) invalid_revision) _ v
                          λ revision e6.
                            from_ok (validate_rows is_aware version (no_one is_aware) (items rows))
                              _ v
                              λ clients e7.
                                from_ok
                                  (refuse_if
                                    (not (
                                      may_be_time is_aware "updated_at"
                                        (checked_object is_aware data_ clients revision)))
                                    invalid_timestamp)
                                  _ v
                                  λ _ e8 h.
                                    let same : clients ≡ v.clients = ground (arith, h) in
                                    let (ids, digests, sound) =
                                      validate_rows-AllNew version (items rows) (no_one is_aware)
                                        clients e7 in
                                    subst
                                      (λ c.
                                        (has_duplicates (map (λ r. (row_of r).client_id) c) ≡ false)
                                        × (has_duplicates (map (λ r. (row_of r).token_sha256) c)
                                            ≡ false)
                                        × All (λ r. Sound (row_of r)) c)
                                      same (ids.0, digests.0, sound)

contains-In :
    (r : Row) (rows : List Row)
    → In r rows
    → contains r.token_sha256 (map (λ q. q.token_sha256) rows) ≡ true
contains-In r [] m = absurd m
contains-In r (q ∷ qs) (inl e) = ground (arith, eq_refl q.token_sha256, ap (λ x. x.token_sha256) e)
contains-In r (q ∷ qs) (inr m) = ground (arith, contains-In r qs m)

-- The loop of `authenticate` comes to a row by its digest.
find_client-In :
    (required : Option String) (r : Row) (rows : List Row)
    → has_duplicates (map (λ q. q.token_sha256) rows) ≡ false
    → In r rows
    → find_client r.token_sha256 required rows ≡ identity_of required r
unfolding find_client
find_client-In required r [] h m = absurd m
find_client-In required r (q ∷ qs) h (inl e) =
    subst (λ x. find_client x.token_sha256 required (q ∷ qs) ≡ identity_of required x) (sym e)
      (rw (eq_refl q.token_sha256) refl)
find_client-In required r (q ∷ qs) h (inr m) =
    elim (Bool-cases (r.token_sha256 == q.token_sha256)) [
      | inl same ↦ absurd (
          clash (map (λ x. x.token_sha256) qs) q.token_sha256 r.token_sha256
            ((eq_iff q.token_sha256 r.token_sha256).1
              (sym ((eq_iff r.token_sha256 q.token_sha256).0 same)))
            (contains-In r qs m) (ground (arith, h)))
      | inr other ↦ rw other (find_client-In required r qs (ground (arith, h)) m)
    ]

map-row_of :
    (clients : List Fields)
    → map (λ q. q.token_sha256) (map row_of clients) ≡ map (λ r. (row_of r).token_sha256) clients
map-row_of [] = refl
map-row_of (c ∷ cs) = ap (λ l. (row_of c).token_sha256 ∷ l) (map-row_of cs)

module _ (is_aware : String → Bool) where
  -- In what `validate_registry` returns, `authenticate` comes to each row by its own digest: it gives the
  -- client of that row, if the row is enabled and not revoked and has the required scope, and no one
  -- otherwise.
  pub validated-found :
      (value : Json) (v : Validated is_aware) (required : Option String) (r : Row)
      → validate_registry is_aware value ≡ ok v
      → In r (map row_of v.clients)
      → find_client r.token_sha256 required (map row_of v.clients) ≡ identity_of required r
  validated-found value v required r h m =
      let (_, digests, _) = validate_registry-Sound is_aware value v h in
      find_client-In required r (map row_of v.clients)
        (ap has_duplicates (map-row_of v.clients) ∙ digests) m
