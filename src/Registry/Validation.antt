-- ===== src/Registry/Validation.antt =====
-- `validate_registry` of client_access/registry.py, with `_timestamp` and `_unique_object`.
--
-- Whether `datetime.fromisoformat` reads a text as a time with a time zone is a parameter.
pub mod Rows
pub mod Distinct
mod Tests
use Prim.Native.Char.{Char, code}
use single_gpu_ai_services.Base.{
  ℕ, ◌-◌, Bool, true, false, not, ◌&&◌, ◌||◌, Option, none, some, List, [], ◌∷◌, String, ◌==◌,
  if◌then◌else◌, eqb, leb, ltb, all, any, contains, codes, length, map, is_some, Result, ok, err,
  ◌>>=◌, ◌>>◌, refuse_if, demand,
}
use single_gpu_ai_services.Base64.{nth}
use single_gpu_ai_services.Json.{
  Json, null, bool, int, text, arr, obj, Items, nil, cons, Fields, end, field, items, array, count,
  get, get_or, has_key, set, keys, as_dict, as_list, as_text, as_bool, is_text, is_truthy,
}
use single_gpu_ai_services.Registry.{Row}
use single_gpu_ai_services.Registry.Scopes.{ScopeError, validate_scopes}

pub data RegistryError : Type 0 where
  unsupported_version : RegistryError
  unknown_registry_field : RegistryError
  invalid_client_list : RegistryError
  invalid_revision : RegistryError
  invalid_client : RegistryError
  invalid_client_id : RegistryError
  invalid_digest : RegistryError
  duplicate_client : RegistryError
  enabled_no_boolean : RegistryError
  scopes_no_texts : RegistryError
  invalid_scopes : ScopeError → RegistryError
  invalid_timestamp : RegistryError
  revoked_enabled : RegistryError
  invalid_metadata : RegistryError

abbrev pub max_clients : ℕ
max_clients = 4096

abbrev pub is_lower_or_digit : ℕ → Bool
is_lower_or_digit c = leb 97 c && leb c 122 || leb 48 c && leb c 57

abbrev pub is_id_rest : ℕ → Bool
is_id_rest c = is_lower_or_digit c || eqb c 46 || eqb c 95 || eqb c 45

abbrev pub is_hex : ℕ → Bool
is_hex c = leb 48 c && leb c 57 || leb 97 c && leb c 102 || leb 65 c && leb c 70

-- `ID_PATTERN.fullmatch` and `HASH_PATTERN.fullmatch`
abbrev pub is_id_codes : List ℕ → Bool
is_id_codes [] = false
is_id_codes (c ∷ cs) = is_lower_or_digit c && leb (length cs) 63 && all is_id_rest cs

abbrev pub is_client_id : String → Bool
is_client_id s = is_id_codes (codes s)

abbrev pub is_digest : String → Bool
is_digest s = eqb (length (codes s)) 64 && all is_hex (codes s)

-- `digest.lower()`
abbrev pub lower_char : Char → Char
lower_char c =
    if leb 65 (code c) && leb (code c) 90 then nth (code c - 65) "abcdefghijklmnopqrstuvwxyz" else c

unfoldable pub lower_text : String → String
lower_text String.[] = ""
lower_text (String.◌∷◌ c s) = String.◌∷◌ (lower_char c) (lower_text s)

abbrev pub registry_fields : List String
registry_fields = "version" ∷ "clients" ∷ "revision" ∷ "updated_at" ∷ []

abbrev pub client_fields : List String
client_fields =
    "client_id" ∷ "token_sha256" ∷ "scopes" ∷ "enabled" ∷ "created_at" ∷ "updated_at" ∷ "rotated_at"
    ∷ "revoked_at" ∷ "owner" ∷ "purpose" ∷ []

-- `not (set(d) - allowed)`
abbrev pub has_only : List String → Fields → Bool
has_only allowed fs = all (λ k. contains k allowed) (keys fs)

abbrev pub as_texts : List Json → Option (List String)
as_texts [] = some []
as_texts (text s ∷ vs) = elim (as_texts vs) [ none ↦ none | some ss ↦ some (s ∷ ss) ]
as_texts (v ∷ vs) = none

abbrev pub text_list : Json → Option (List String)
text_list (arr xs) = as_texts (items xs)
text_list _ = none

abbrev pub checked_scopes : Result ScopeError (List String) → Result RegistryError (List String)
checked_scopes (ok ss) = ok ss
checked_scopes (err e) = err (invalid_scopes e)

unfoldable pub scopes_of : Json → Result RegistryError (List String)
scopes_of value = do
  given ← demand (text_list value) scopes_no_texts
  checked_scopes (validate_scopes given)

-- `owner` and `purpose`
abbrev pub is_metadata : Json → Bool
is_metadata (text s) = leb (length (codes s)) 512 && not (any (λ c. ltb c 32) (codes s))
is_metadata _ = false

-- `version`, which must be the integer 1 or 2.
abbrev pub version_of : Json → Option ℕ
version_of (int n) = if eqb n 1 || eqb n 2 then some n else none
version_of _ = none

abbrev pub natural : Json → Option ℕ
natural (int n) = some n
natural _ = none

-- What the loop has seen.
pub record Seen : Type 0 where
  pub ids : List String
  pub digests : List String

abbrev pub enabled_of : ℕ → Fields → Json
enabled_of version raw =
    if eqb version 1 then get_or "enabled" (bool true) raw else get_or "enabled" null raw

abbrev pub checked_row : Fields → String → String → Bool → List String → Fields
checked_row raw client_id digest enabled scopes = set "scopes" (arr (array (map text scopes))) (
    set "enabled" (bool enabled)
      (set "token_sha256" (text digest) (set "client_id" (text client_id) raw)))

-- `json.loads` with `_unique_object` as its hook: an object whose keys differ.
unfoldable pub unique_object : List (String × Json) → Option Fields
unique_object [] = some end
unique_object ((key, item) ∷ pairs) = elim (unique_object pairs) [
  | none ↦ none
  | some rest ↦ if has_key key rest then none else some (field key item rest)
]

module _ (is_aware : String → Bool) where
  -- `_timestamp`
  abbrev pub is_timestamp : Json → Bool
  is_timestamp (text s) = leb (length (codes s)) 64 && is_aware s
  is_timestamp _ = false

  -- A field that is absent or a time.
  abbrev pub may_be_time : String → Fields → Bool
  may_be_time key row = not (has_key key row) || is_timestamp (get_or key null row)

  abbrev pub has_times : Fields → Bool
  has_times row =
      may_be_time "created_at" row
      && may_be_time "updated_at" row
      && may_be_time "rotated_at" row
      && may_be_time "revoked_at" row

  -- The checks of a row after its identity is known to be new.
  unfoldable pub finish_row : ℕ → Fields → String → String → Result RegistryError Fields
  finish_row version raw client_id digest = do
    enabled ← demand (as_bool (enabled_of version raw)) enabled_no_boolean
    scopes ← scopes_of (get_or "scopes" null raw)
    refuse_if (not (has_times (checked_row raw client_id digest enabled scopes))) invalid_timestamp
    refuse_if (is_truthy (get_or "revoked_at" null raw) && enabled) revoked_enabled
    refuse_if
        (not (
          is_metadata (get_or "owner" (text "") raw)
          && is_metadata (get_or "purpose" (text "") raw)))
        invalid_metadata
    ok (checked_row raw client_id digest enabled scopes)

  unfoldable pub validate_row : ℕ → Seen → Json → Result RegistryError (String × String × Fields)
  validate_row version seen value = do
    raw ← demand (as_dict value) invalid_client
    refuse_if (not (has_only client_fields raw)) invalid_client
    client_id ← demand (as_text (get_or "client_id" null raw)) invalid_client_id
    refuse_if (not (is_client_id client_id)) invalid_client_id
    digest ← demand (as_text (get_or "token_sha256" null raw)) invalid_digest
    refuse_if (not (is_digest digest)) invalid_digest
    refuse_if (contains client_id seen.ids || contains (lower_text digest) seen.digests)
        duplicate_client
    row ← finish_row version raw client_id (lower_text digest)
    ok (client_id, lower_text digest, row)

  unfoldable pub validate_rows : ℕ → Seen → List Json → Result RegistryError (List Fields)
  validate_rows version seen [] = ok []
  validate_rows version seen (value ∷ values) = do
    checked ← validate_row version seen value
    rest ←
        validate_rows version
          (record { ids = checked.0 ∷ seen.ids; digests = checked.1 ∷ seen.digests }) values
    ok (checked.2 ∷ rest)

  abbrev pub no_one : Seen
  no_one = record { ids = []; digests = [] }

  -- A registry that was validated: its version, its revision, its rows, and the object.
  pub record Validated : Type 0 where
    pub version : ℕ
    pub revision : ℕ
    pub clients : List Fields
    pub object : Fields

  abbrev pub checked_object : Fields → List Fields → ℕ → Fields
  checked_object data_ clients revision =
      set "revision" (int revision) (set "clients" (arr (array (map obj clients))) data_)

  unfoldable pub validate_registry : Json → Result RegistryError Validated
  validate_registry value = do
    data_ ← demand (as_dict value) unsupported_version
    version ← demand (version_of (get_or "version" null data_)) unsupported_version
    refuse_if (not (has_only registry_fields data_)) unknown_registry_field
    rows ← demand (as_list (get_or "clients" null data_)) invalid_client_list
    refuse_if (ltb max_clients (count rows)) invalid_client_list
    revision ← demand (natural (get_or "revision" (int 0) data_)) invalid_revision
    clients ← validate_rows version no_one (items rows)
    refuse_if (not (may_be_time "updated_at" (checked_object data_ clients revision)))
        invalid_timestamp
    ok (record {
      version = version;
      revision = revision;
      clients = clients;
      object = checked_object data_ clients revision;
    })

-- The row of the token store.
abbrev pub text_of : Option Json → String
text_of (some (text s)) = s
text_of _ = ""

abbrev pub some_texts : Option (List String) → List String
some_texts none = []
some_texts (some ss) = ss

abbrev pub row_of : Fields → Row
row_of row = record {
  client_id = text_of (get "client_id" row);
  token_sha256 = text_of (get "token_sha256" row);
  scopes = some_texts (text_list (get_or "scopes" null row));
  enabled = is_truthy (get_or "enabled" null row);
  revoked_at = as_text (get_or "revoked_at" null row);
}
