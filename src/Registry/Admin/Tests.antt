-- ===== src/Registry/Admin/Tests.antt =====
-- Runs of the administration at concrete registries.
use single_gpu_ai_services.Base.{
  ℕ, ◌≡◌, ◌⊎◌, refl, Bool, true, false, none, List, [], ◌∷◌, String, err,
}
use single_gpu_ai_services.Json.{Json, get, set}
use single_gpu_ai_services.Registry.Scopes.{insert, sorted, validate_scopes}
use single_gpu_ai_services.Registry.Validation.{
  lower_text, scopes_of, finish_row, validate_row, validate_rows, validate_registry,
}
use single_gpu_ai_services.Registry.Admin.{
  new_digest, changed, change_row, change_client, edit, begin, load_registry, encode_registry,
  prepare, mutate,
}
use single_gpu_ai_services.Registry.Clients.{
  write_failed, client_revoked, token_file, disable, enable, revoke, Action, initialize, create,
  change, replaced, Host, Surroundings,
}
use single_gpu_ai_services.Registry.Admin.Permanent.{stored_revoked}
use single_gpu_ai_services.Registry.Admin.Delivery.{Written, mutate-Written}
use single_gpu_ai_services.Registry.Admin.Writing.{mutate_all, mutate_all-revoked}

abbrev any_time : String → Bool
any_time s = true

abbrev hex_b : String
hex_b = "bbbbbbbbbbbbbbbbbbbbbbbbbbbbbbbbbbbbbbbbbbbbbbbbbbbbbbbbbbbbbbbb"

abbrev one_digest : String → String
one_digest token = hex_b

abbrev short : Json → ℕ
short value = 100

abbrev at_work : Bool → Surroundings
at_work delivers = record {
  timestamp = "2026-01-01";
  minted = "x";
  delivers = delivers;
  replacement = replaced;
}

abbrev new_host : Host
new_host = record { registry = none; delivered = [] }

abbrev create_app : Action
create_app = create "app" ("gateway" ∷ "llm" ∷ []) "" "" (token_file "/keys/app")

-- An empty registry, then a client, who is revoked, and a try to enable it again.
abbrev history : List (Surroundings × Action)
history =
    (at_work true, initialize)
    ∷ (at_work true, create_app)
    ∷ (at_work true, change "app" revoke)
    ∷ []

abbrev after_history : Host
after_history = mutate_all any_time one_digest short history new_host

after_history-delivered : after_history.delivered ≡ ("/keys/app", "ai_x") ∷ []
unfolding mutate_all mutate prepare begin load_registry edit new_digest changed change_row
    change_client encode_registry validate_registry validate_rows validate_row finish_row scopes_of
    validate_scopes insert sorted lower_text get set
after_history-delivered = refl

after_history-stored_revoked :
    stored_revoked any_time one_digest short "app" after_history.registry ≡ true
unfolding mutate_all mutate prepare begin load_registry edit new_digest changed change_row
    change_client encode_registry validate_registry validate_rows validate_row finish_row scopes_of
    validate_scopes insert sorted lower_text get set
after_history-stored_revoked = refl

enable_refused :
    (mutate any_time one_digest short (at_work true) (change "app" enable) after_history).0
    ≡ err client_revoked
unfolding mutate_all mutate prepare begin load_registry edit new_digest changed change_row
    change_client encode_registry validate_registry validate_rows validate_row finish_row scopes_of
    validate_scopes insert sorted lower_text get set
enable_refused = refl

abbrev empty_registry : Host
empty_registry = (mutate any_time one_digest short (at_work true) initialize new_host).1

undelivered :
    (mutate any_time one_digest short (at_work false) create_app empty_registry).0
    ≡ err write_failed
unfolding mutate prepare begin load_registry edit new_digest changed change_row change_client
    encode_registry validate_registry validate_rows validate_row finish_row scopes_of
    validate_scopes insert sorted lower_text get set
undelivered = refl

mutate-Written_example :
    ((mutate any_time one_digest short (at_work true) create_app empty_registry).1.registry
      ≡ empty_registry.registry)
    ⊎ Written any_time one_digest short
        (at_work true)
        create_app
        empty_registry
        (mutate any_time one_digest short (at_work true) create_app empty_registry).1
mutate-Written_example =
    mutate-Written any_time one_digest short (at_work true) create_app empty_registry

abbrev more_calls : List (Surroundings × Action)
more_calls = (at_work true, change "app" enable) ∷ (at_work true, change "app" disable) ∷ []

mutate_all-revoked_example :
    stored_revoked any_time one_digest short "app"
      (mutate_all any_time one_digest short more_calls after_history).registry
    ≡ true
mutate_all-revoked_example =
    mutate_all-revoked any_time one_digest short "app" more_calls after_history refl
      after_history-stored_revoked
