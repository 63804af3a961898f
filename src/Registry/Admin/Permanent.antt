-- ===== src/Registry/Admin/Permanent.antt =====
-- Proofs about `mutate` of client_access/admin.py: what it leaves in the registry of revoked clients.
use single_gpu_ai_services.Base.{
  ℕ, ◌+◌, ◌≡◌, ap, subst, ◌∙◌, Bool, true, false, not, Option, none, some, List, [], ◌∷◌, ◌++◌,
  String, ◌==◌, any, Result, ok, err, refuse_if, arith, from_ok, eqb, ltb,
}
use single_gpu_ai_services.Json.{Json, int, text, obj, Fields, set}
use single_gpu_ai_services.Registry.Scopes.{validate_scopes}
use single_gpu_ai_services.Registry.Validation.{
  is_client_id, Validated, validate_registry, RegistryError,
}
use single_gpu_ai_services.Registry.Admin.{
  new_digest, refuse_registered, key_of, change_client, edit, begin, as_data, load_registry,
  read_registry, encode_registry, prepare,
}
use single_gpu_ai_services.Registry.Clients.{
  AdminError, is_row_of, Surroundings, Action, initialize, migrate, show_list, create, change,
  invalid_id, id_exists, checked, new_client, Registry, to_json, not_version_2, max_registry_bytes,
  registry_too_long,
}
use single_gpu_ai_services.Registry.Admin.Revoked.{
  has_revoked, clients_in, clients_in-set, change_client-revoked,
}
use single_gpu_ai_services.Registry.Admin.Kept.{has_revoked-append, validate_registry-revoked}

module _ (is_aware : String → Bool) (sha256 : String → String) (printed_size : Json → ℕ) where
  edited :
      (client_id : String) (rows : List Fields) (key : Option (String × String))
      (t : List Fields × Option (String × String))
      → ◌≡◌ {A = Result AdminError (List Fields × Option (String × String))} (ok (rows, key)) (ok t)
      → has_revoked client_id rows ≡ true
      → has_revoked client_id t.0 ≡ true
  edited client_id rows key t h r =
      let same : rows ≡ t.0 = ground (arith, h) in
      subst (λ x. has_revoked client_id x ≡ true) same r

  edit-revoked :
      (client_id : String) (s : Surroundings) (a : Action) (clients : List Fields)
      (t : List Fields × Option (String × String))
      → (s.timestamp == "") ≡ false
      → has_revoked client_id clients ≡ true
      → edit is_aware sha256 printed_size s a clients ≡ ok t
      → has_revoked client_id t.0 ≡ true
  unfolding edit
  edit-revoked client_id s initialize clients t now r h = edited client_id clients none t h r
  edit-revoked client_id s (migrate old) clients t now r h = edited client_id clients none t h r
  edit-revoked client_id s show_list clients t now r h = edited client_id clients none t h r
  edit-revoked client_id s (create other given owner purpose source) clients t now r h =
      from_ok (new_digest is_aware sha256 printed_size s source) _ t
        (λ key e1.
          from_ok (refuse_registered is_aware sha256 printed_size key.0 clients) _ t λ _ e2.
            from_ok (refuse_if (not (is_client_id other)) invalid_id) _ t λ _ e3.
              from_ok (refuse_if (any (is_row_of other) clients) id_exists) _ t λ _ e4.
                from_ok (checked (validate_scopes given)) _ t λ scopes e5 h1.
                  let added = new_client s.timestamp other scopes owner purpose key.0 in
                  edited client_id (clients ++ added ∷ []) key.1 t h1
                    (has_revoked-append client_id clients (added ∷ []) r))
        h
  edit-revoked client_id s (change other c) clients t now r h =
      from_ok (key_of is_aware sha256 printed_size s c clients) _ t
        (λ key e1.
          from_ok (change_client is_aware sha256 printed_size s other c key.0 clients) _ t
            λ rows e2 h1. edited client_id rows key.1 t h1 (
              change_client-revoked is_aware sha256 printed_size client_id s other c key.0 clients
                rows now r e2))
        h

  -- A client that is revoked, in what the file holds.
  abbrev pub stored_revoked : String → Option Json → Bool
  stored_revoked client_id none = false
  stored_revoked client_id (some value) = has_revoked client_id (clients_in value)

  pub as_data-ok :
      (r : Result RegistryError (Validated is_aware)) (v : Validated is_aware)
      → as_data is_aware sha256 printed_size r ≡ ok v
      → r ≡ ok v
  as_data-ok (ok w) v h = ground arith
  as_data-ok (err e) v h = ground arith

  load_registry-revoked :
      (client_id : String) (value : Json) (r : Registry)
      → has_revoked client_id (clients_in value) ≡ true
      → load_registry is_aware sha256 printed_size (some value) ≡ ok r
      → has_revoked client_id r.clients ≡ true
  unfolding load_registry
  load_registry-revoked client_id value r k =
      from_ok (read_registry is_aware sha256 printed_size (some value)) _ r λ v e1.
        from_ok (refuse_if (not (eqb v.version 2)) not_version_2) _ r λ _ e2 h.
          let same : v.clients ≡ r.clients = ground (arith, h) in
          subst (λ x. has_revoked client_id x ≡ true) same
            ((validate_registry-revoked is_aware client_id value v
                (as_data-ok (validate_registry is_aware value) v e1)).0
              ∙ k)

  begin-revoked :
      (client_id : String) (s : Surroundings) (a : Action) (value : Json) (r : Registry)
      → has_revoked client_id (clients_in value) ≡ true
      → begin is_aware sha256 printed_size s a (some value) ≡ ok r
      → has_revoked client_id r.clients ≡ true
  unfolding begin
  begin-revoked client_id s initialize value r k h = ground (arith, h)
  begin-revoked client_id s (migrate old) value r k h = ground (arith, h)
  begin-revoked client_id s show_list value r k h = load_registry-revoked client_id value r k h
  begin-revoked client_id s (create a b c d e) value r k h =
      load_registry-revoked client_id value r k h
  begin-revoked client_id s (change a c) value r k h = load_registry-revoked client_id value r k h

  encode_registry-revoked :
      (client_id : String) (r : Registry) (value : Json)
      → has_revoked client_id r.clients ≡ true
      → encode_registry is_aware sha256 printed_size r ≡ ok value
      → has_revoked client_id (clients_in value) ≡ true
  unfolding encode_registry
  encode_registry-revoked client_id r value k =
      from_ok (as_data is_aware sha256 printed_size (validate_registry is_aware (to_json r))) _
        value
        λ v e1.
          from_ok
            (refuse_if (ltb max_registry_bytes (printed_size (obj v.object))) registry_too_long) _
            value
            λ _ e2 h.
              let same : obj v.object ≡ value = ground (arith, h) in
              let (rows, object) =
                validate_registry-revoked is_aware client_id (to_json r) v
                  (as_data-ok (validate_registry is_aware (to_json r)) v e1) in
              subst (λ x. has_revoked client_id (clients_in x) ≡ true) same
                (ap (has_revoked client_id) object
                  ∙ rows
                  ∙ ap (has_revoked client_id) (clients_in-set r.clients (int r.revision) r.rest)
                  ∙ k)

  pub prepare-revoked :
      (client_id : String) (s : Surroundings) (a : Action) (value : Json)
      (t : Json × Option (String × String))
      → (s.timestamp == "") ≡ false
      → has_revoked client_id (clients_in value) ≡ true
      → prepare is_aware sha256 printed_size s a (some value) ≡ ok t
      → has_revoked client_id (clients_in t.0) ≡ true
  unfolding prepare
  prepare-revoked client_id s a value t now k =
      from_ok (begin is_aware sha256 printed_size s a (some value)) _ t λ r e1.
        from_ok (edit is_aware sha256 printed_size s a r.clients) _ t λ e e2.
          from_ok
            (encode_registry is_aware sha256 printed_size (record {
              rest = set "updated_at" (text s.timestamp) r.rest;
              revision = r.revision + 1;
              clients = e.0;
            }))
            _ t
            λ new_value e3 h.
              let same : new_value ≡ t.0 = ground (arith, h) in
              subst (λ x. has_revoked client_id (clients_in x) ≡ true) same
                (encode_registry-revoked client_id
                  (record {
                    rest = set "updated_at" (text s.timestamp) r.rest;
                    revision = r.revision + 1;
                    clients = e.0;
                  })
                  new_value
                  (edit-revoked client_id s a r.clients e now
                    (begin-revoked client_id s a value r k e1) e2)
                  e3)
