-- ===== src/Registry/Validation/Tests.antt =====
-- Runs of `validate_registry` at concrete registries.
use single_gpu_ai_services.Base.{
  ◌≡◌, refl, inl, Bool, true, false, none, some, List, [], ◌∷◌, String, map, All, ok, err,
}
use single_gpu_ai_services.Json.{
  Json, null, bool, int, text, arr, obj, nil, cons, Fields, end, field, array, get, set,
}
use single_gpu_ai_services.Registry.{identity_of, find_client}
use single_gpu_ai_services.Registry.Scopes.{insert, sorted, has_duplicates, validate_scopes}
use single_gpu_ai_services.Registry.Validation.{
  duplicate_client, revoked_enabled, lower_text, scopes_of, finish_row, validate_row, validate_rows,
  Validated, validate_registry, unique_object, row_of,
}
use single_gpu_ai_services.Registry.Validation.Distinct.{validate_registry-Sound, validated-found}
use single_gpu_ai_services.Registry.Validation.Rows.{Sound}

abbrev any_time : String → Bool
any_time s = true

abbrev hex_a : String
hex_a = "aaaaaaaaaaaaaaaaaaaaaaaaaaaaaaaaaaaaaaaaaaaaaaaaaaaaaaaaaaaaaaaa"

abbrev hex_upper_a : String
hex_upper_a = "AAAAAAAAAAAAAAAAAAAAAAAAAAAAAAAAAAAAAAAAAAAAAAAAAAAAAAAAAAAAAAAA"

abbrev client_row : String → String → Fields → Json
client_row client_id digest more = obj (
    field "client_id" (text client_id) (
      field "token_sha256" (text digest) (
        field "scopes" (arr (array (text "llm" ∷ text "gateway" ∷ [])))
          (field "enabled" (bool true) more))))

abbrev registry_of : List Json → Json
registry_of rows = obj (field "version" (int 2) (field "clients" (arr (array rows)) end))

abbrev one_client : Json
one_client = registry_of (client_row "app" hex_upper_a end ∷ [])

abbrev app_fields : Fields
app_fields = field "client_id" (text "app") (
    field "token_sha256" (text hex_a) (
      field "scopes" (arr (array (text "gateway" ∷ text "llm" ∷ [])))
        (field "enabled" (bool true) end)))

abbrev one_validated : Validated any_time
one_validated = record {
  version = 2;
  revision = 0;
  clients = app_fields ∷ [];
  object =
      field "version" (int 2)
        (field "clients" (arr (cons (obj app_fields) nil)) (field "revision" (int 0) end));
}

one_client_validates : validate_registry any_time one_client ≡ ok one_validated
unfolding validate_registry validate_rows validate_row finish_row scopes_of validate_scopes insert
    sorted lower_text get set
one_client_validates = refl

-- The same digest in capital letters.
twice :
    validate_registry any_time
      (registry_of (client_row "app" hex_a end ∷ client_row "web" hex_upper_a end ∷ []))
    ≡ err duplicate_client
unfolding validate_registry validate_rows validate_row finish_row scopes_of validate_scopes insert
    sorted lower_text get set
twice = refl

revoked :
    validate_registry any_time (
      registry_of
        (client_row "app" hex_a (field "revoked_at" (text "2026-01-01T00:00:00Z") end) ∷ []))
    ≡ err revoked_enabled
unfolding validate_registry validate_rows validate_row finish_row scopes_of validate_scopes insert
    sorted lower_text get set
revoked = refl

key_twice : unique_object (("a", null) ∷ ("b", null) ∷ ("a", null) ∷ []) ≡ none
unfolding unique_object get
key_twice = refl

validate_registry-Sound_example :
    (has_duplicates (map (λ r. (row_of r).client_id) (Validated.clients one_validated)) ≡ false)
    × (has_duplicates (map (λ r. (row_of r).token_sha256) (Validated.clients one_validated))
        ≡ false)
    × All (λ r. Sound (row_of r)) (Validated.clients one_validated)
validate_registry-Sound_example =
    validate_registry-Sound any_time one_client one_validated one_client_validates

validated-found_example :
    find_client
      (row_of app_fields).token_sha256
      (some "llm")
      (map row_of (Validated.clients one_validated))
    ≡ identity_of (some "llm") (row_of app_fields)
validated-found_example =
    validated-found any_time one_client one_validated (some "llm") (row_of app_fields)
      one_client_validates (inl refl)
