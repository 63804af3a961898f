-- ===== src/Registry/Clients.antt =====
-- The rows of a registry, and what may be done to them: client_access/admin.py.
use single_gpu_ai_services.Base.{
  ℕ, Bool, true, false, Option, List, [], ◌∷◌, ◌++◌, String, ◌==◌, if◌then◌else◌, any, contains,
  map, Result, ok, err,
}
use single_gpu_ai_services.Json.{
  Json, null, bool, int, text, arr, obj, Fields, end, field, array, get_or, has_key, set, is_truthy,
}
use single_gpu_ai_services.Registry.Scopes.{ScopeError, sorted}
use single_gpu_ai_services.Registry.Validation.{RegistryError, text_list, some_texts}

pub data AdminError : Type 0 where
  invalid_registry : RegistryError → AdminError
  registry_missing : AdminError
  registry_exists : AdminError
  not_version_1 : AdminError
  not_version_2 : AdminError
  no_digest : AdminError
  digest_registered : AdminError
  invalid_id : AdminError
  id_exists : AdminError
  client_not_found : AdminError
  client_revoked : AdminError
  unusable_scopes : ScopeError → AdminError
  registry_too_long : AdminError
  write_failed : AdminError

-- `--token-sha256` or `--token-file`
pub data KeySource : Type 0 where
  digest_given : String → KeySource
  token_file : String → KeySource

-- What is changed of a client that exists.
pub data Change : Type 0 where
  rotate : KeySource → Change
  disable : Change
  enable : Change
  revoke : Change
  set_scopes : List String → Change

-- `args`: the action, with what it needs. `migrate` has the object of the old file.
pub data Action : Type 0 where
  initialize : Action
  migrate : Json → Action
  show_list : Action
  create : String → List String → String → String → KeySource → Action
  change : String → Change → Action

abbrev pub max_registry_bytes : ℕ
max_registry_bytes = 2097152

abbrev pub capability_names : List String
capability_names = "llm" ∷ "embeddings" ∷ "reranker" ∷ "ocr" ∷ "stt" ∷ "tts" ∷ []

-- How the replacement of the registry's file ends: not at all, or with an exception after it.
pub data Replacement : Type 0 where
  replaced : Replacement
  not_replaced : Replacement
  replaced_unsynced : Replacement

pub record Host : Type 0 where
  pub registry : Option Json
  pub delivered : List (String × String)

-- The surroundings of a call.
pub record Surroundings : Type 0 where
  pub timestamp : String
  pub minted : String
  pub delivers : Bool
  pub replacement : Replacement

-- `data`: the object without its clients and revision, and these.
pub record Registry : Type 0 where
  pub rest : Fields
  pub revision : ℕ
  pub clients : List Fields

abbrev pub to_json : Registry → Json
to_json r =
    obj (set "revision" (int r.revision) (set "clients" (arr (array (map obj r.clients))) r.rest))

abbrev pub id_of : Fields → Json
id_of row = get_or "client_id" null row

abbrev pub is_name : String → Json → Bool
is_name client_id (text s) = s == client_id
is_name client_id _ = false

abbrev pub is_row_of : String → Fields → Bool
is_row_of client_id row = is_name client_id (id_of row)

abbrev pub is_revoked_row : Fields → Bool
is_revoked_row row = is_truthy (get_or "revoked_at" null row)

abbrev pub has_digest : String → Fields → Bool
has_digest digest row = elim (get_or "token_sha256" null row) [ text s ↦ s == digest | _ ↦ false ]

abbrev pub checked : Result ScopeError (List String) → Result AdminError (List String)
checked (ok ss) = ok ss
checked (err e) = err (unusable_scopes e)

abbrev pub scopes_json : List String → Json
scopes_json ss = arr (array (map text ss))

-- A client of version 1 in `migrate`.
abbrev pub with_default : String → Json → Fields → Fields
with_default key value row = if has_key key row then row else set key value row

abbrev pub all_capabilities : List String → Fields → Fields
all_capabilities scopes row =
    if any (λ s. contains s capability_names) scopes
    then row
    else set "scopes" (scopes_json (sorted (scopes ++ capability_names))) row

abbrev pub migrated : String → Fields → Fields
migrated timestamp row =
    with_default "created_at" (text timestamp)
      (all_capabilities (some_texts (text_list (get_or "scopes" null row))) row)

abbrev pub new_client : String → String → List String → String → String → String → Fields
new_client timestamp client_id scopes owner purpose digest = field "client_id" (text client_id) (
    field "token_sha256" (text digest) (
      field "scopes" (scopes_json scopes) (
        field "enabled" (bool true) (
          field "created_at" (text timestamp)
            (field "owner" (text owner) (field "purpose" (text purpose) end))))))

-- The listing, without digests.
abbrev pub without_digest : Fields → Fields
without_digest end = end
without_digest (field k v fs) =
    let rest = without_digest fs in if k == "token_sha256" then rest else field k v rest
