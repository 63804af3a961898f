-- ===== src/Registry/Admin.antt =====
-- client_access/admin.py: `mutate` and what it calls.
--
-- The time, the token that `secrets` mints, `sha256`, and the number of bytes of a printed registry are
-- parameters; so is how each writing of a file ends, with the checks of its path. A host holds the object
-- in the registry's file and the tokens that were delivered, the last one first.
pub mod Kept
pub mod Permanent
pub mod Delivery
pub mod Writing
mod Tests
pub mod Revoked
use single_gpu_ai_services.Base.{
  ℕ, suc, ◌+◌, Bool, true, false, not, ◌&&◌, ◌||◌, Option, none, some, List, [], ◌∷◌, ◌++◌, String,
  ◌==◌, ◌+++◌, if◌then◌else◌, eqb, ltb, any, contains, codes, map, is_some, Result, ok, err, ◌>>=◌,
  ◌>>◌, refuse_if, demand,
}
use single_gpu_ai_services.Json.{
  Json, null, bool, int, text, arr, obj, Items, nil, Fields, end, field, items, array, get_or,
  has_key, set, member, as_text, is_truthy,
}
use single_gpu_ai_services.Registry.Scopes.{ScopeError, validate_scopes, sorted}
use single_gpu_ai_services.Registry.Validation.{
  RegistryError, is_client_id, is_digest, lower_text, text_list, some_texts, Validated,
  validate_registry,
}
use single_gpu_ai_services.Registry.Clients.{
  AdminError, invalid_registry, registry_missing, registry_exists, not_version_1, not_version_2,
  no_digest, digest_registered, invalid_id, id_exists, client_not_found, client_revoked,
  registry_too_long, write_failed, KeySource, digest_given, token_file, Change, rotate, disable,
  enable, revoke, set_scopes, Action, initialize, migrate, show_list, create, change,
  max_registry_bytes, Replacement, replaced, not_replaced, replaced_unsynced, Host, Surroundings,
  Registry, to_json, is_row_of, is_revoked_row, has_digest, checked, scopes_json, migrated,
  new_client, without_digest,
}

module _ (is_aware : String → Bool) (sha256 : String → String) (printed_size : Json → ℕ) where
  abbrev pub as_data :
      Result RegistryError (Validated is_aware) → Result AdminError (Validated is_aware)
  as_data (ok v) = ok v
  as_data (err e) = err (invalid_registry e)

  -- `read_registry`, of what the file holds.
  abbrev pub read_registry : Option Json → Result AdminError (Validated is_aware)
  read_registry none = err registry_missing
  read_registry (some value) = as_data (validate_registry is_aware value)

  abbrev pub registry_of : Validated is_aware → Registry
  registry_of v = record { rest = v.object; revision = v.revision; clients = v.clients }

  -- `encode_registry`: the object that is printed.
  unfoldable pub encode_registry : Registry → Result AdminError Json
  encode_registry r = do
    v ← as_data (validate_registry is_aware (to_json r))
    refuse_if (ltb max_registry_bytes (printed_size (obj v.object))) registry_too_long
    ok (obj v.object)

  -- `new_digest`: the digest, and the path and the token if one is minted.
  unfoldable pub new_digest :
      Surroundings → KeySource → Result AdminError (String × Option (String × String))
  new_digest s (digest_given d) = do
    refuse_if (not (is_digest d)) no_digest
    ok (lower_text d, none)
  new_digest s (token_file path) =
      let token = "ai_" +++ s.minted in ok (sha256 token, some (path, token))

  abbrev pub refuse_registered : String → List Fields → Result AdminError (Unit {0})
  refuse_registered digest clients = refuse_if (any (has_digest digest) clients) digest_registered

  -- The changes of a row that has not been revoked, and `updated_at`.
  unfoldable pub changed : Surroundings → Change → String → Fields → Result AdminError Fields
  changed s (rotate source) digest row =
      ok (set "rotated_at" (text s.timestamp) (set "token_sha256" (text digest) row))
  changed s disable digest row = ok (set "enabled" (bool false) row)
  changed s enable digest row = ok (set "enabled" (bool true) row)
  changed s revoke digest row =
      ok (set "revoked_at" (text s.timestamp) (set "enabled" (bool false) row))
  changed s (set_scopes given) digest row = do
    scopes ← checked (validate_scopes given)
    ok (set "scopes" (scopes_json scopes) row)

  abbrev pub is_revoke : Change → Bool
  is_revoke revoke = true
  is_revoke _ = false

  unfoldable pub change_row : Surroundings → Change → String → Fields → Result AdminError Fields
  change_row s c digest row = do
    refuse_if (is_revoked_row row && not (is_revoke c)) client_revoked
    new_row ← changed s c digest row
    ok (set "updated_at" (text s.timestamp) new_row)

  -- The first row of a client is changed.
  abbrev pub changed_at :
      Bool
      → Fields
      → List Fields
      → Result AdminError Fields
      → Result AdminError (List Fields)
      → Result AdminError (List Fields)
  changed_at true row rows new_row later = new_row >>= λ r. ok (r ∷ rows)
  changed_at false row rows new_row later = later >>= λ rs. ok (row ∷ rs)

  unfoldable pub change_client :
      Surroundings → String → Change → String → List Fields → Result AdminError (List Fields)
  change_client s client_id c digest [] = err client_not_found
  change_client s client_id c digest (row ∷ rows) =
      changed_at (is_row_of client_id row) row rows (change_row s c digest row)
        (change_client s client_id c digest rows)

  abbrev pub key_of :
      Surroundings → Change → List Fields → Result AdminError (String × Option (String × String))
  key_of s (rotate source) clients = do
    key ← new_digest s source
    refuse_registered key.0 clients
    ok key
  key_of s c clients = ok ("", none)

  -- The clients after an action, with the token that is to be delivered.
  unfoldable pub edit :
      Surroundings
      → Action
      → List Fields
      → Result AdminError (List Fields × Option (String × String))
  edit s (create client_id given owner purpose source) clients = do
    key ← new_digest s source
    refuse_registered key.0 clients
    refuse_if (not (is_client_id client_id)) invalid_id
    refuse_if (any (is_row_of client_id) clients) id_exists
    scopes ← checked (validate_scopes given)
    ok (clients ++ new_client s.timestamp client_id scopes owner purpose key.0 ∷ [], key.1)
  edit s (change client_id c) clients = do
    key ← key_of s c clients
    rows ← change_client s client_id c key.0 clients
    ok (rows, key.1)
  edit s _ clients = ok (clients, none)

  -- The registry that is to be changed, or listed.
  unfoldable pub load_registry : Option Json → Result AdminError Registry
  load_registry stored = do
    v ← read_registry stored
    refuse_if (not (eqb v.version 2)) not_version_2
    ok (registry_of v)

  -- What `mutate` begins with.
  unfoldable pub begin : Surroundings → Action → Option Json → Result AdminError Registry
  begin s initialize stored = do
    refuse_if (is_some stored) registry_exists
    ok (record { rest = field "version" (int 2) end; revision = 0; clients = [] })
  begin s (migrate old) stored = do
    refuse_if (is_some stored) registry_exists
    v ← as_data (validate_registry is_aware old)
    refuse_if (not (eqb v.version 1)) not_version_1
    ok (record {
      rest = field "version" (int 2) end;
      revision = 0;
      clients = map (migrated s.timestamp) v.clients;
    })
  begin s _ stored = load_registry stored

  abbrev pub listing : Registry → Json
  listing r = obj (
      field "version" (int 2) (
        field "revision" (int r.revision)
          (field "clients" (arr (array (map (λ c. obj (without_digest c)) r.clients))) end)))

  -- `atomic_write`
  abbrev pub replace_registry : Replacement → Json → Host → Result AdminError (Unit {0}) × Host
  replace_registry replaced value h = (ok tt, record h { registry = some value })
  replace_registry not_replaced value h = (err write_failed, h)
  replace_registry replaced_unsynced value h =
      (err write_failed, record h { registry = some value })

  -- `write_token`, and the replacement if it succeeds.
  abbrev pub deliver_then_replace :
      Surroundings → Option (String × String) → Json → Host → Result AdminError (Unit {0}) × Host
  deliver_then_replace s none value h = replace_registry s.replacement value h
  deliver_then_replace s (some delivery) value h =
      if s.delivers
      then replace_registry s.replacement value (record h { delivered = delivery ∷ h.delivered })
      else (err write_failed, h)

  -- The object that is stored, and the token that is delivered first.
  unfoldable pub prepare :
      Surroundings → Action → Option Json → Result AdminError (Json × Option (String × String))
  prepare s a stored = do
    r ← begin s a stored
    edited ← edit s a r.clients
    value ← encode_registry (record {
      rest = set "updated_at" (text s.timestamp) r.rest;
      revision = r.revision + 1;
      clients = edited.0;
    })
    ok (value, edited.1)

  abbrev pub finish :
      Surroundings
      → Host
      → Result AdminError (Json × Option (String × String))
      → Result AdminError (Unit {0}) × Host
  finish s h (err e) = (err e, h)
  finish s h (ok (value, delivery)) = deliver_then_replace s delivery value h

  abbrev pub list_clients : Option Json → Result AdminError Json
  list_clients stored = load_registry stored >>= λ r. ok (listing r)

  -- `mutate`, but for the summary that it returns.
  unfoldable pub mutate : Surroundings → Action → Host → Result AdminError (Unit {0}) × Host
  mutate s show_list h = (list_clients h.registry >> ok tt, h)
  mutate s a h = finish s h (prepare s a h.registry)
