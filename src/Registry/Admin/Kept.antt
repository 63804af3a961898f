-- ===== src/Registry/Admin/Kept.antt =====
-- Proofs about client_access/admin.py: revoked clients and the validation of a registry.
use single_gpu_ai_services.Base.{
  ℕ, ◌≡◌, inl, inr, sym, ap, subst, ◌∙◌, Bool, true, not, ◌&&◌, ◌||◌, some, List, [], ◌∷◌, ◌++◌,
  String, ok, refuse_if, demand, arith, Bool-cases, from_ok, demand_ok, ltb, contains,
}
use single_gpu_ai_services.Json.{
  Json, null, int, text, arr, obj, Items, Fields, items, get, get_or, is_truthy, as_dict, as_list,
  as_text, as_bool, count,
}
use single_gpu_ai_services.Registry.Validation.{
  invalid_client, invalid_client_id, invalid_digest, duplicate_client, enabled_no_boolean,
  invalid_timestamp, revoked_enabled, invalid_metadata, unsupported_version, unknown_registry_field,
  invalid_client_list, invalid_revision, client_fields, registry_fields, has_only, is_client_id,
  is_digest, lower_text, scopes_of, is_metadata, version_of, natural, Seen, enabled_of, checked_row,
  has_times, finish_row, validate_row, validate_rows, no_one, Validated, validate_registry,
  max_clients, may_be_time, checked_object,
}
use single_gpu_ai_services.Registry.Validation.Rows.{get-checked_row}
use single_gpu_ai_services.Registry.Clients.{is_name}
use single_gpu_ai_services.Registry.Admin.Revoked.{
  is_revoked_client, has_revoked, dicts, listed_in, clients_in, clients_in-set, judged,
}

pub has_revoked-append :
    (client_id : String) (rows more : List Fields)
    → has_revoked client_id rows ≡ true
    → has_revoked client_id (rows ++ more) ≡ true
has_revoked-append client_id [] more h = ground (arith, h)
has_revoked-append client_id (row ∷ rows) more h = elim (Bool-cases (has_revoked client_id rows)) [
  | inl e ↦ ground (arith, has_revoked-append client_id rows more e)
  | inr e ↦ ground (arith, h, e)
]

as_text-text : (v : Json) (s : String) → as_text v ≡ some s → v ≡ text s
as_text-text (text t) s h = ground arith
as_text-text v s h = ground arith

as_dict-obj : (v : Json) (fs : Fields) → as_dict v ≡ some fs → v ≡ obj fs
as_dict-obj (obj gs) fs h = ground arith
as_dict-obj v fs h = ground arith

as_list-arr : (v : Json) (xs : Items) → as_list v ≡ some xs → v ≡ arr xs
as_list-arr (arr ys) xs h = ground arith
as_list-arr v xs h = ground arith

-- The validation of a row leaves who it is and whether it is revoked.
checked_row-revoked :
    (client_id : String) (raw : Fields) (own digest : String) (enabled : Bool)
    (scopes : List String)
    → get_or "client_id" null raw ≡ text own
    → is_revoked_client client_id (checked_row raw own digest enabled scopes)
      ≡ is_revoked_client client_id raw
checked_row-revoked client_id raw own digest enabled scopes h =
    ap (λ o. judged client_id o (get "revoked_at" (checked_row raw own digest enabled scopes)))
      (get-checked_row "client_id" raw own digest enabled scopes)
    ∙ ap (λ o. judged client_id (some (text own)) o)
        (get-checked_row "revoked_at" raw own digest enabled scopes)
    ∙ ap (λ v. is_name client_id v && is_truthy (get_or "revoked_at" null raw)) (sym h)

module _ (is_aware : String → Bool) where
  finish_row-revoked :
      (client_id : String) (version : ℕ) (raw row : Fields) (own digest : String)
      → get_or "client_id" null raw ≡ text own
      → finish_row is_aware version raw own digest ≡ ok row
      → is_revoked_client client_id row ≡ is_revoked_client client_id raw
  unfolding finish_row
  finish_row-revoked client_id version raw row own digest named =
      from_ok (demand (as_bool (enabled_of version raw)) enabled_no_boolean) _ row λ enabled e1.
        from_ok (scopes_of (get_or "scopes" null raw)) _ row λ scopes e2.
          from_ok
            (refuse_if (not (has_times is_aware (checked_row raw own digest enabled scopes)))
              invalid_timestamp)
            _ row
            λ _ e3.
              from_ok
                (refuse_if (is_truthy (get_or "revoked_at" null raw) && enabled) revoked_enabled) _
                row
                λ _ e4.
                  from_ok
                    (refuse_if
                      (not (
                        is_metadata (get_or "owner" (text "") raw)
                        && is_metadata (get_or "purpose" (text "") raw)))
                      invalid_metadata)
                    _ row
                    λ _ e5 h.
                      let same : checked_row raw own digest enabled scopes ≡ row =
                        ground (arith, h) in
                      subst (λ x. is_revoked_client client_id x ≡ is_revoked_client client_id raw)
                        same (checked_row-revoked client_id raw own digest enabled scopes named)

  abbrev RowKept : String → Json → Fields → Type 0
  RowKept client_id value row =
      has_revoked client_id (dicts (value ∷ [])) ≡ is_revoked_client client_id row

  validate_row-revoked :
      (client_id : String) (version : ℕ) (seen : Seen) (value : Json) (t : String × String × Fields)
      → validate_row is_aware version seen value ≡ ok t
      → (raw : Fields) × (value ≡ obj raw)
        × (is_revoked_client client_id t.2 ≡ is_revoked_client client_id raw)
  unfolding validate_row
  validate_row-revoked client_id version seen value t =
      from_ok (demand (as_dict value) invalid_client) _ t λ raw e1.
        from_ok (refuse_if (not (has_only client_fields raw)) invalid_client) _ t λ _ e2.
          from_ok (demand (as_text (get_or "client_id" null raw)) invalid_client_id) _ t λ own e3.
            from_ok (refuse_if (not (is_client_id own)) invalid_client_id) _ t λ _ e4.
              from_ok (demand (as_text (get_or "token_sha256" null raw)) invalid_digest) _ t
                λ digest e5. from_ok (refuse_if (not (is_digest digest)) invalid_digest) _ t λ _ e6.
                  from_ok
                    (refuse_if (contains own seen.ids || contains (lower_text digest) seen.digests)
                      duplicate_client)
                    _ t
                    λ _ e7.
                      from_ok (finish_row is_aware version raw own (lower_text digest)) _ t
                        λ row e8 h.
                          let same : ◌≡◌ {A = String × String × Fields}
                              (own, lower_text digest, row) t =
                            ground (arith, h) in
                          (
                            raw,
                            as_dict-obj value raw (demand_ok (as_dict value) invalid_client raw e1),
                            subst
                                (λ x.
                                  is_revoked_client client_id x.2 ≡ is_revoked_client client_id raw)
                                same
                                (finish_row-revoked client_id version raw row own
                                  (lower_text digest)
                                  (as_text-text (get_or "client_id" null raw) own (
                                    demand_ok (as_text (get_or "client_id" null raw))
                                      invalid_client_id own e3))
                                  e8),
                          )

  validate_rows-revoked :
      (client_id : String) (version : ℕ) (values : List Json) (seen : Seen) (rows : List Fields)
      → validate_rows is_aware version seen values ≡ ok rows
      → has_revoked client_id rows ≡ has_revoked client_id (dicts values)
  unfolding validate_rows
  validate_rows-revoked client_id version [] seen rows = λ h. ground (arith, h)
  validate_rows-revoked client_id version (value ∷ values) seen rows =
      from_ok (validate_row is_aware version seen value) _ rows λ t e1.
        from_ok
          (validate_rows is_aware version
            (record { ids = t.0 ∷ seen.ids; digests = t.1 ∷ seen.digests }) values)
          _ rows
          λ rest e2 h.
            let same : t.2 ∷ rest ≡ rows = ground (arith, h) in
            let (raw, is_raw, kept) = validate_row-revoked client_id version seen value t e1 in
            let later =
              validate_rows-revoked client_id version values
                (record { ids = t.0 ∷ seen.ids; digests = t.1 ∷ seen.digests }) rest e2 in
            subst (λ v. has_revoked client_id rows ≡ has_revoked client_id (dicts (v ∷ values)))
              (sym is_raw)
              (subst (λ x. has_revoked client_id x ≡ has_revoked client_id (raw ∷ dicts values))
                same
                (ap (λ b. b || has_revoked client_id rest) kept
                  ∙ ap (λ b. is_revoked_client client_id raw || b) later))

  pub validate_registry-revoked :
      (client_id : String) (value : Json) (v : Validated is_aware)
      → validate_registry is_aware value ≡ ok v
      → (has_revoked client_id v.clients ≡ has_revoked client_id (clients_in value))
        × (clients_in (obj v.object) ≡ v.clients)
  unfolding validate_registry
  validate_registry-revoked client_id value v =
      from_ok (demand (as_dict value) unsupported_version) _ v λ data_ e1.
        from_ok (demand (version_of (get_or "version" null data_)) unsupported_version) _ v
          λ version e2.
            from_ok (refuse_if (not (has_only registry_fields data_)) unknown_registry_field) _ v
              λ _ e3.
                from_ok (demand (as_list (get_or "clients" null data_)) invalid_client_list) _ v
                  λ rows e4.
                    from_ok (refuse_if (ltb max_clients (count rows)) invalid_client_list) _ v
                      λ _ e5.
                        from_ok
                          (demand (natural (get_or "revision" (int 0) data_)) invalid_revision) _ v
                          λ revision e6.
                            from_ok (validate_rows is_aware version (no_one is_aware) (items rows))
                              _ v
                              λ clients e7.
                                from_ok
                                  (refuse_if
                                    (not (
                                      may_be_time is_aware "updated_at"
                                        (checked_object is_aware data_ clients revision)))
                                    invalid_timestamp)
                                  _ v
                                  λ _ e8 h.
                                    let clients_same : clients ≡ v.clients = ground (arith, h) in
                                    let object_same : checked_object is_aware data_ clients revision
                                        ≡ v.object =
                                      ground (arith, h) in
                                    let is_dict =
                                      as_dict-obj value data_
                                        (demand_ok (as_dict value) unsupported_version data_ e1) in
                                    let is_list = as_list-arr (get_or "clients" null data_) rows (
                                      demand_ok (as_list (get_or "clients" null data_))
                                        invalid_client_list rows e4) in
                                    (
                                      ap (has_revoked client_id) (sym clients_same)
                                          ∙ validate_rows-revoked client_id version (items rows)
                                              (no_one is_aware) clients e7
                                          ∙ ap (λ x. has_revoked client_id (listed_in x))
                                              (sym is_list)
                                          ∙ ap (λ x. has_revoked client_id (clients_in x))
                                              (sym is_dict),
                                      ap (λ x. clients_in (obj x)) (sym object_same)
                                          ∙ clients_in-set clients (int revision) data_
                                          ∙ clients_same,
                                    )
