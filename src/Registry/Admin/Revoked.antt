-- ===== src/Registry/Admin/Revoked.antt =====
-- Proofs about client_access/admin.py: a client that is revoked stays revoked.
use single_gpu_ai_services.Base.{
  ℕ, ◌≡◌, refl, inl, inr, ap, subst, ◌∙◌, Bool, true, false, not, ◌&&◌, Option, none, some, List,
  [], ◌∷◌, String, ◌==◌, if◌then◌else◌, any, map, Result, ok, err, refuse_if, arith, Bool-cases,
  from_ok,
}
use single_gpu_ai_services.Json.{
  Json, null, bool, text, arr, obj, Fields, items, array, get, set, member, is_truthy,
}
use single_gpu_ai_services.Json.Laws.{get-set}
use single_gpu_ai_services.Registry.Scopes.{validate_scopes}
use single_gpu_ai_services.Registry.Admin.{
  changed_at, is_revoke, changed, change_row, change_client,
}
use single_gpu_ai_services.Registry.Clients.{
  AdminError, is_name, is_row_of, is_revoked_row, Surroundings, Change, rotate, disable, enable,
  revoke, set_scopes, client_revoked, checked, scopes_json,
}

abbrev pub is_revoked_client : String → Fields → Bool
is_revoked_client client_id row = is_row_of client_id row && is_revoked_row row

-- A client is among the rows, and is revoked.
abbrev pub has_revoked : String → List Fields → Bool
has_revoked client_id rows = any (is_revoked_client client_id) rows

abbrev pub dicts : List Json → List Fields
dicts [] = []
dicts (obj fs ∷ vs) = fs ∷ dicts vs
dicts (v ∷ vs) = dicts vs

abbrev pub listed_in : Json → List Fields
listed_in (arr xs) = dicts (items xs)
listed_in _ = []

abbrev pub clients_in : Json → List Fields
clients_in value = listed_in (member "clients" value)

pub dicts-obj : (rows : List Fields) → dicts (items (array (map obj rows))) ≡ rows
dicts-obj [] = refl
dicts-obj (row ∷ rows) = ap (λ l. row ∷ l) (dicts-obj rows)

pub clients_in-set :
    (clients : List Fields) (revision : Json) (data_ : Fields)
    → clients_in
        (obj (set "revision" revision (set "clients" (arr (array (map obj clients))) data_)))
      ≡ clients
clients_in-set clients revision data_ =
    ap (λ o. listed_in (elim o [ none ↦ null | some v ↦ v ]))
      (get-set "clients" "revision" revision (set "clients" (arr (array (map obj clients))) data_)
        ∙ get-set "clients" "clients" (arr (array (map obj clients))) data_)
    ∙ dicts-obj clients

-- `is_revoked_client`, by the two entries that it reads.
abbrev pub entry : Option Json → Json
entry o = elim o [ none ↦ null | some v ↦ v ]

abbrev pub judged : String → Option Json → Option Json → Bool
judged client_id who when_ = is_name client_id (entry who) && is_truthy (entry when_)

-- Writing under another key changes neither who a row is nor that it is revoked.
is_revoked_client-set :
    (client_id key : String) (v : Json) (row : Fields)
    → (key == "client_id") ≡ false
    → (key == "revoked_at") ≡ false
    → is_revoked_client client_id (set key v row) ≡ is_revoked_client client_id row
is_revoked_client-set client_id key v row h k =
    ap (λ o. judged client_id o (get "revoked_at" (set key v row)))
      (get-set "client_id" key v row ∙ ap (λ b. if b then some v else get "client_id" row) h)
    ∙ ap (λ o. judged client_id (get "client_id" row) o)
        (get-set "revoked_at" key v row ∙ ap (λ b. if b then some v else get "revoked_at" row) k)

-- Marking a client as revoked, at a time that is not the empty text.
is_revoked_client-revoke :
    (client_id timestamp : String) (row : Fields)
    → (timestamp == "") ≡ false
    → is_row_of client_id row ≡ true
    → is_revoked_client client_id (set "revoked_at" (text timestamp) row) ≡ true
is_revoked_client-revoke client_id timestamp row now r =
    ap (λ o. judged client_id o (get "revoked_at" (set "revoked_at" (text timestamp) row)))
      (get-set "client_id" "revoked_at" (text timestamp) row)
    ∙ ap (λ o. judged client_id (get "client_id" row) o)
        (get-set "revoked_at" "revoked_at" (text timestamp) row)
    ∙ ground (arith, now, r)

module _ (is_aware : String → Bool) (sha256 : String → String) (printed_size : Json → ℕ) where
  changed-revoked :
      (client_id : String) (s : Surroundings) (c : Change) (digest : String) (row new_row : Fields)
      → (s.timestamp == "") ≡ false
      → is_revoked_client client_id row ≡ true
      → changed is_aware sha256 printed_size s c digest row ≡ ok new_row
      → is_revoked_client client_id new_row ≡ true
  unfolding changed
  changed-revoked client_id s (rotate source) digest row new_row now r h =
      let same : set "rotated_at" (text s.timestamp) (set "token_sha256" (text digest) row)
          ≡ new_row =
        ground (arith, h) in
      subst (λ x. is_revoked_client client_id x ≡ true) same
        (is_revoked_client-set client_id "rotated_at" (text s.timestamp)
            (set "token_sha256" (text digest) row) refl refl
          ∙ is_revoked_client-set client_id "token_sha256" (text digest) row refl refl
          ∙ r)
  changed-revoked client_id s disable digest row new_row now r h =
      let same : set "enabled" (bool false) row ≡ new_row = ground (arith, h) in
      subst (λ x. is_revoked_client client_id x ≡ true) same
        (is_revoked_client-set client_id "enabled" (bool false) row refl refl ∙ r)
  changed-revoked client_id s enable digest row new_row now r h =
      let same : set "enabled" (bool true) row ≡ new_row = ground (arith, h) in
      subst (λ x. is_revoked_client client_id x ≡ true) same
        (is_revoked_client-set client_id "enabled" (bool true) row refl refl ∙ r)
  changed-revoked client_id s revoke digest row new_row now r h =
      let same : set "revoked_at" (text s.timestamp) (set "enabled" (bool false) row) ≡ new_row =
        ground (arith, h) in
      let kept = is_revoked_client-set client_id "enabled" (bool false) row refl refl ∙ r in
      subst (λ x. is_revoked_client client_id x ≡ true) same
        (is_revoked_client-revoke client_id s.timestamp (set "enabled" (bool false) row) now
          (ground (arith, kept)))
  changed-revoked client_id s (set_scopes given) digest row new_row now r h =
      from_ok (checked (validate_scopes given)) _ new_row
        (λ scopes e h1.
          let same : set "scopes" (scopes_json scopes) row ≡ new_row = ground (arith, h1) in
          subst (λ x. is_revoked_client client_id x ≡ true) same
            (is_revoked_client-set client_id "scopes" (scopes_json scopes) row refl refl ∙ r))
        h

  change_row-revoked :
      (client_id : String) (s : Surroundings) (c : Change) (digest : String) (row new_row : Fields)
      → (s.timestamp == "") ≡ false
      → is_revoked_client client_id row ≡ true
      → change_row is_aware sha256 printed_size s c digest row ≡ ok new_row
      → is_revoked_client client_id new_row ≡ true
  unfolding change_row
  change_row-revoked client_id s c digest row new_row now r =
      from_ok
        (refuse_if (is_revoked_row row && not (is_revoke is_aware sha256 printed_size c))
          client_revoked)
        _ new_row
        λ _ e1. from_ok (changed is_aware sha256 printed_size s c digest row) _ new_row λ mid e2 h.
          let same : set "updated_at" (text s.timestamp) mid ≡ new_row = ground (arith, h) in
          subst (λ x. is_revoked_client client_id x ≡ true) same
            (is_revoked_client-set client_id "updated_at" (text s.timestamp) mid refl refl
              ∙ changed-revoked client_id s c digest row mid now r e2)

  changed_at-revoked :
      (client_id : String) (b : Bool) (row : Fields) (rows new_rows : List Fields)
      (r : Result AdminError Fields) (rs : Result AdminError (List Fields))
      → ((x : Fields)
          → is_revoked_client client_id row ≡ true
          → r ≡ ok x
          → is_revoked_client client_id x ≡ true)
      → ((xs : List Fields)
          → has_revoked client_id rows ≡ true
          → rs ≡ ok xs
          → has_revoked client_id xs ≡ true)
      → has_revoked client_id (row ∷ rows) ≡ true
      → changed_at is_aware sha256 printed_size b row rows r rs ≡ ok new_rows
      → has_revoked client_id new_rows ≡ true
  changed_at-revoked client_id true row rows new_rows (err e) rs f g h k = ground (arith, k)
  changed_at-revoked client_id true row rows new_rows (ok x) rs f g h k =
      elim (Bool-cases (is_revoked_client client_id row)) [
        | inl e ↦ ground (arith, k, f x e refl)
        | inr e ↦ ground (arith, k, h, e)
      ]
  changed_at-revoked client_id false row rows new_rows r (err e) f g h k = ground (arith, k)
  changed_at-revoked client_id false row rows new_rows r (ok xs) f g h k =
      elim (Bool-cases (has_revoked client_id rows)) [
        | inl e ↦ ground (arith, k, g xs e refl)
        | inr e ↦ ground (arith, k, h, e)
      ]

  pub change_client-revoked :
      (client_id : String) (s : Surroundings) (other : String) (c : Change) (digest : String)
      (rows new_rows : List Fields)
      → (s.timestamp == "") ≡ false
      → has_revoked client_id rows ≡ true
      → change_client is_aware sha256 printed_size s other c digest rows ≡ ok new_rows
      → has_revoked client_id new_rows ≡ true
  unfolding change_client
  change_client-revoked client_id s other c digest [] new_rows now r h = ground (arith, r)
  change_client-revoked client_id s other c digest (row ∷ rows) new_rows now r h =
      changed_at-revoked client_id (is_row_of other row) row rows new_rows
        (change_row is_aware sha256 printed_size s c digest row)
        (change_client is_aware sha256 printed_size s other c digest rows)
        (λ x e k. change_row-revoked client_id s c digest row x now e k)
        (λ xs e k. change_client-revoked client_id s other c digest rows xs now e k) r h
