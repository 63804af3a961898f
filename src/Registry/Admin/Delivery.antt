-- ===== src/Registry/Admin/Delivery.antt =====
-- Proofs about `mutate` of client_access/admin.py: what is written, and in which order.
use single_gpu_ai_services.Base.{
  ℕ, ◌+◌, ◌≡◌, ◌≤◌, ◌⊎◌, refl, inl, inr, sym, ap, subst, ◌∙◌, Bool, true, false, not, Option, none,
  some, List, ◌∷◌, String, ◌+++◌, any, Result, ok, err, refuse_if, arith, from_ok, refuse_if_ok,
  ltb,
}
use single_gpu_ai_services.Json.{Json, text, obj, set}
use single_gpu_ai_services.Registry.Scopes.{validate_scopes}
use single_gpu_ai_services.Registry.Validation.{
  is_client_id, is_digest, Validated, validate_registry,
}
use single_gpu_ai_services.Registry.Admin.{
  new_digest, refuse_registered, key_of, change_client, edit, begin, as_data, encode_registry,
  prepare, replace_registry, deliver_then_replace, finish, mutate,
}
use single_gpu_ai_services.Registry.Clients.{
  AdminError, KeySource, digest_given, token_file, Change, rotate, disable, enable, revoke,
  set_scopes, Action, initialize, migrate, show_list, create, change, Replacement, replaced,
  not_replaced, replaced_unsynced, Host, Surroundings, Registry, to_json, no_digest, invalid_id,
  id_exists, checked, is_row_of, max_registry_bytes, registry_too_long,
}
use single_gpu_ai_services.Registry.Admin.Permanent.{as_data-ok}

-- The token that an action delivers, with its path.
abbrev pub key_delivery : Surroundings → KeySource → Option (String × String)
key_delivery s (digest_given d) = none
key_delivery s (token_file path) = some (path, "ai_" +++ s.minted)

abbrev pub delivery_of : Surroundings → Action → Option (String × String)
delivery_of s (create client_id given owner purpose source) = key_delivery s source
delivery_of s (change client_id (rotate source)) = key_delivery s source
delivery_of s _ = none

abbrev pub add_delivery : Option (String × String) → List (String × String) → List (String × String)
add_delivery none delivered = delivered
add_delivery (some d) delivered = d ∷ delivered

module _ (is_aware : String → Bool) (sha256 : String → String) (printed_size : Json → ℕ) where
  pub new_digest-delivery :
      (s : Surroundings) (source : KeySource) (key : String × Option (String × String))
      → new_digest is_aware sha256 printed_size s source ≡ ok key
      → key.1 ≡ key_delivery s source
  unfolding new_digest
  new_digest-delivery s (digest_given d) key =
      from_ok (refuse_if (not (is_digest d)) no_digest) _ key λ _ e h. ground (arith, h)
  new_digest-delivery s (token_file path) key = λ h. ground (arith, h)

  pub edit-delivery :
      (s : Surroundings) (a : Action) (clients : List _) (t : List _ × Option (String × String))
      → edit is_aware sha256 printed_size s a clients ≡ ok t
      → t.1 ≡ delivery_of s a
  unfolding edit
  edit-delivery s initialize clients t h = ground (arith, h)
  edit-delivery s (migrate old) clients t h = ground (arith, h)
  edit-delivery s show_list clients t h = ground (arith, h)
  edit-delivery s (create other given owner purpose source) clients t h =
      from_ok (new_digest is_aware sha256 printed_size s source) _ t
        (λ key e1.
          from_ok (refuse_registered is_aware sha256 printed_size key.0 clients) _ t λ _ e2.
            from_ok (refuse_if (not (is_client_id other)) invalid_id) _ t λ _ e3.
              from_ok (refuse_if (any (is_row_of other) clients) id_exists) _ t λ _ e4.
                from_ok (checked (validate_scopes given)) _ t λ scopes e5 h1.
                  let same : key.1 ≡ t.1 = ground (arith, h1) in
                  sym same ∙ new_digest-delivery s source key e1)
        h
  edit-delivery s (change other c) clients t h =
      from_ok (key_of is_aware sha256 printed_size s c clients) _ t
        (λ key e1.
          from_ok (change_client is_aware sha256 printed_size s other c key.0 clients) _ t
            λ rows e2 h1.
              let same : key.1 ≡ t.1 = ground (arith, h1) in sym same ∙ of_change c key e1)
        h
    where
      of_change :
          (c : Change) (key : String × Option (String × String))
          → key_of is_aware sha256 printed_size s c clients ≡ ok key
          → key.1 ≡ delivery_of s (change other c)
      of_change (rotate source) key =
          from_ok (new_digest is_aware sha256 printed_size s source) _ key λ k e1.
            from_ok (refuse_registered is_aware sha256 printed_size k.0 clients) _ key λ _ e2 h.
              let same : k.1 ≡ key.1 = ground (arith, h) in
              sym same ∙ new_digest-delivery s source k e1
      of_change disable key = λ h. ground (arith, h)
      of_change enable key = λ h. ground (arith, h)
      of_change revoke key = λ h. ground (arith, h)
      of_change (set_scopes given) key = λ h. ground (arith, h)

  -- A registry that was validated, within the bound of its readers.
  abbrev pub IsStorable : Json → Type 0
  IsStorable value =
      (given : Json) × (v : Validated is_aware) × (validate_registry is_aware given ≡ ok v)
      × (value ≡ obj v.object)
      × (printed_size value ≤ max_registry_bytes)

  pub encode_registry-IsStorable :
      (r : Registry) (value : Json)
      → encode_registry is_aware sha256 printed_size r ≡ ok value
      → IsStorable value
  unfolding encode_registry
  encode_registry-IsStorable r value =
      from_ok (as_data is_aware sha256 printed_size (validate_registry is_aware (to_json r))) _
        value
        λ v e1.
          from_ok
            (refuse_if (ltb max_registry_bytes (printed_size (obj v.object))) registry_too_long) _
            value
            λ _ e2 h.
              let same : obj v.object ≡ value = ground (arith, h) in
              let small : printed_size (obj v.object) ≤ max_registry_bytes = ground (
                arith,
                refuse_if_ok (ltb max_registry_bytes (printed_size (obj v.object)))
                    registry_too_long _ e2,
              ) in
              (
                to_json r,
                v,
                as_data-ok is_aware sha256 printed_size (validate_registry is_aware (to_json r)) v
                    e1,
                sym same,
                subst (λ x. printed_size x ≤ max_registry_bytes) same small,
              )

  pub prepare-Stored :
      (s : Surroundings) (a : Action) (stored : Option Json) (t : Json × Option (String × String))
      → prepare is_aware sha256 printed_size s a stored ≡ ok t
      → IsStorable t.0 × (t.1 ≡ delivery_of s a)
  unfolding prepare
  prepare-Stored s a stored t = from_ok (begin is_aware sha256 printed_size s a stored) _ t λ r e1.
      from_ok (edit is_aware sha256 printed_size s a r.clients) _ t λ e e2.
        from_ok
          (encode_registry is_aware sha256 printed_size (record {
            rest = set "updated_at" (text s.timestamp) r.rest;
            revision = r.revision + 1;
            clients = e.0;
          }))
          _ t
          λ value e3 h.
            let value_same : value ≡ t.0 = ground (arith, h) in
            let key_same : e.1 ≡ t.1 = ground (arith, h) in
            (
              subst IsStorable value_same (
                  encode_registry-IsStorable
                    (record {
                      rest = set "updated_at" (text s.timestamp) r.rest;
                      revision = r.revision + 1;
                      clients = e.0;
                    })
                    value e3),
              sym key_same ∙ edit-delivery s a r.clients e e2,
            )

  -- How the files are left: the registry is as it was, or it is another one, and the token was delivered.
  abbrev pub Rewritten : Result AdminError (Json × Option (String × String)) → Host → Host → Type 0
  Rewritten r h h1 =
      (value : Json) × (delivery : Option (String × String)) × (r ≡ ok (value, delivery))
      × (h1.registry ≡ some value)
      × (h1.delivered ≡ add_delivery delivery h.delivered)

  pub replace-Rewritten :
      (p : Replacement) (value : Json) (h : Host)
      → ((replace_registry is_aware sha256 printed_size p value h).1.registry ≡ h.registry)
        ⊎ (((replace_registry is_aware sha256 printed_size p value h).1.registry ≡ some value)
            × ((replace_registry is_aware sha256 printed_size p value h).1.delivered ≡ h.delivered))
  replace-Rewritten replaced value h = inr (refl, refl)
  replace-Rewritten not_replaced value h = inl refl
  replace-Rewritten replaced_unsynced value h = inr (refl, refl)

  pub delivered-Rewritten :
      (s : Surroundings) (d : Option (String × String)) (delivers : Bool) (value : Json) (h : Host)
      → ((deliver_then_replace is_aware sha256 printed_size
            (record s { delivers = delivers })
            d
            value
            h).1.registry
          ≡ h.registry)
        ⊎ Rewritten
            (ok (value, d))
            h
            (deliver_then_replace is_aware sha256 printed_size
              (record s { delivers = delivers })
              d
              value
              h).1
  delivered-Rewritten s none delivers value h = elim (replace-Rewritten s.replacement value h) [
    | inl e ↦ inl e
    | inr t ↦ inr (value, none, refl, t.0, t.1)
  ]
  delivered-Rewritten s (some d) false value h = inl refl
  delivered-Rewritten s (some d) true value h =
      elim (replace-Rewritten s.replacement value (record h { delivered = d ∷ h.delivered })) [
        | inl e ↦ inl e
        | inr t ↦ inr (value, some d, refl, t.0, t.1)
      ]

  pub finish-Rewritten :
      (s : Surroundings) (h : Host) (r : Result AdminError (Json × Option (String × String)))
      → ((finish is_aware sha256 printed_size s h r).1.registry ≡ h.registry)
        ⊎ Rewritten r h (finish is_aware sha256 printed_size s h r).1
  finish-Rewritten s h (err e) = inl refl
  finish-Rewritten s h (ok (value, d)) = delivered-Rewritten s d s.delivers value h

  -- A registry that was validated is stored, and the action's token was delivered.
  abbrev pub Written : Surroundings → Action → Host → Host → Type 0
  Written s a h h1 =
      (value : Json) × (h1.registry ≡ some value)
      × IsStorable value
      × (h1.delivered ≡ add_delivery (delivery_of s a) h.delivered)

  pub finish-Written :
      (s : Surroundings) (a : Action) (h : Host)
      → ((finish is_aware sha256 printed_size s h
            (prepare is_aware sha256 printed_size s a h.registry)).1.registry
          ≡ h.registry)
        ⊎ Written s a h
            (finish is_aware sha256 printed_size s h
              (prepare is_aware sha256 printed_size s a h.registry)).1
  finish-Written s a h =
      elim (finish-Rewritten s h (prepare is_aware sha256 printed_size s a h.registry)) [
        | inl e ↦ inl e
        | inr (value, delivery, e, stored, delivered) ↦
            let (storable, key) = prepare-Stored s a h.registry (value, delivery) e in
            inr (value, stored, storable, delivered ∙ ap (λ d. add_delivery d h.delivered) key)
      ]

  -- After `mutate`, the registry's file is as it was, or it holds an object that `validate_registry` has
  -- returned and that its readers accept by its size, and a token that the action mints was delivered
  -- to its path.
  pub mutate-Written :
      (s : Surroundings) (a : Action) (h : Host)
      → ((mutate is_aware sha256 printed_size s a h).1.registry ≡ h.registry)
        ⊎ Written s a h (mutate is_aware sha256 printed_size s a h).1
  unfolding mutate
  mutate-Written s initialize h = finish-Written s initialize h
  mutate-Written s (migrate old) h = finish-Written s (migrate old) h
  mutate-Written s show_list h = inl refl
  mutate-Written s (create a b c d e) h = finish-Written s (create a b c d e) h
  mutate-Written s (change client_id c) h = finish-Written s (change client_id c) h
