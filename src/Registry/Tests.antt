-- ===== src/Registry/Tests.antt =====
-- Runs of the token store at concrete files.
use single_gpu_ai_services.Base.{
  arith, ℕ, ◌≡◌, ◌⊎◌, refl, true, none, some, List, [], ◌∷◌, String, eqb, if◌then◌else◌,
}
use single_gpu_ai_services.Registry.{
  Row, ClientIdentity, Fingerprint, Disk, TokenStore, answered, unavailable, forgotten, refresh,
  reload, bearer_token, identity_of, find_client, identify, authenticate,
}
use single_gpu_ai_services.Base.{contains, ok, err}
use single_gpu_ai_services.Registry.Scopes.{
  known_scopes, mcp_without_gateway, insert, sorted, validate_scopes, validate_scopes-gateway,
}
use single_gpu_ai_services.Registry.Store.{
  Loaded, Current, In, Grants, refresh-Current, authenticate-Grants,
}

abbrev first_row : Row
first_row = record {
  client_id = "app";
  token_sha256 = "digest of t1";
  scopes = "gateway" ∷ "llm" ∷ [];
  enabled = true;
  revoked_at = none;
}

abbrev print : ℕ → Fingerprint
print n = record { dev = 1; ino = n; size = 200; mtime = 5; ctime = 5 }

-- The file of inode 1 has one row, and any other file has none.
abbrev table : Fingerprint → List Row
table f = if eqb f.ino 1 then first_row ∷ [] else []

abbrev disk : Disk
disk = record { stat = some (print 1); read = some (first_row ∷ [], print 1) }

abbrev replaced : Disk
replaced = record { stat = some (print 2); read = none }

abbrev loaded : TokenStore
loaded = record { stamp = some (print 1); clients = first_row ∷ [] }

abbrev digest : List ℕ → String
digest token = "digest of t1"

abbrev app : ClientIdentity
app = record { client_id = "app"; scopes = "gateway" ∷ "llm" ∷ [] }

loads : (refresh disk forgotten).1 ≡ loaded
unfolding refresh reload
loads = refl

-- A file that cannot be read denies every request.
broken : authenticate digest (some "Bearer t1") none replaced loaded ≡ (unavailable, forgotten)
unfolding authenticate refresh reload
broken = refl

app_authenticates :
    (authenticate digest (some "Bearer t1") (some "llm") disk forgotten).0 ≡ answered (some app)
unfolding authenticate refresh reload identify bearer_token find_client identity_of
app_authenticates = refl

forgotten-Loaded : Loaded table forgotten
forgotten-Loaded f e = ground arith

refresh-Current_example : Current table disk.stat disk.read (refresh disk forgotten)
refresh-Current_example = refresh-Current table disk forgotten refl forgotten-Loaded

authenticate-Grants_example :
    (f : Fingerprint) × (token : List ℕ) × (r : Row) × ((disk.stat ≡ some f)
      ⊎ (disk.read ≡ some (table f, f)))
    × (bearer_token (some "Bearer t1") ≡ some token)
    × In r (table f)
    × Grants (digest token) (some "llm") app r
authenticate-Grants_example =
    authenticate-Grants digest table (some "Bearer t1") (some "llm") disk forgotten app refl
      forgotten-Loaded app_authenticates

shuffled : validate_scopes ("mcp" ∷ "llm" ∷ "gateway" ∷ []) ≡ ok ("gateway" ∷ "llm" ∷ "mcp" ∷ [])
unfolding validate_scopes sorted insert
shuffled = refl

only_mcp : validate_scopes ("mcp" ∷ []) ≡ err mcp_without_gateway
unfolding validate_scopes
only_mcp = refl

abbrev given_scopes : List String
given_scopes = "mcp" ∷ "llm" ∷ "gateway" ∷ []

abbrev sorted_scopes : List String
sorted_scopes = "gateway" ∷ "llm" ∷ "mcp" ∷ []

validate_scopes-gateway_example :
    (contains "gateway" sorted_scopes ≡ true)
    × ((s : String) → contains s sorted_scopes ≡ contains s given_scopes)
    × ((s : String) → contains s sorted_scopes ≡ true → contains s known_scopes ≡ true)
validate_scopes-gateway_example = validate_scopes-gateway given_scopes sorted_scopes shuffled
