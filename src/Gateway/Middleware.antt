-- ===== src/Gateway/Middleware.antt =====
-- `authenticate_client` of gateway/app/main.py: which requests reach a handler, and the slots of the
-- limiter that they hold.
use single_gpu_ai_services.Base.{
  ℕ, Bool, true, false, not, ◌&&◌, ◌||◌, Option, none, some, List, [], ◌∷◌, String, ◌==◌,
  if◌then◌else◌, eqb, contains, all, codes, eq_codes, starts_codes, reverse, Result, ok, err,
}
use single_gpu_ai_services.Gateway.Limits.{
  RequestCapacityLimiter, LimiterError, try_acquire, release,
}

pub record HttpRequest : Type 0 where
  pub method : String
  pub path : String

-- What `client_tokens.authenticate` does: it raises `RegistryUnavailable`, or returns `None` or the
-- scopes of the client.
pub data Authentication : Type 0 where
  registry_unavailable : Authentication
  no_client : Authentication
  client : List String → Authentication

abbrev pub is_public : String → Bool
is_public path = path == "/health" || path == "/ready"

-- `path.rstrip("/")`, as codes.
abbrev pub skip_slashes : List ℕ → List ℕ
skip_slashes [] = []
skip_slashes (c ∷ cs) = let rest = skip_slashes cs in if eqb c 47 then rest else c ∷ cs

abbrev pub strip_slashes : String → List ℕ
strip_slashes path = reverse (skip_slashes (reverse (codes path)))

unfoldable pub capabilities : List (String × String)
capabilities =
    ("/v1/chat/completions", "llm")
    ∷ ("/v1/embeddings", "embeddings")
    ∷ ("/v1/rerank", "reranker")
    ∷ ("/v1/documents/read", "ocr")
    ∷ ("/v1/audio/transcriptions", "stt")
    ∷ ("/v1/audio/speech", "tts")
    ∷ []

unfoldable pub capability_in : List (String × String) → List ℕ → Option String
capability_in [] path = none
capability_in ((p, c) ∷ rest) path =
    let later = capability_in rest path in if eq_codes path (codes p) then some c else later

unfoldable pub capability : String → Option String
capability path = capability_in capabilities (strip_slashes path)

-- `{"gateway"} | ({capability} if capability else set())`
unfoldable pub required_scopes : String → List String
required_scopes path = elim (capability path) [
  | none ↦ "gateway" ∷ []
  | some c ↦ "gateway" ∷ c ∷ []
]

abbrev pub is_subset : List String → List String → Bool
is_subset required scopes = all (λ s. contains s scopes) required

-- The response that the middleware gives itself, or whether the request goes on, with a slot of the
-- limiter or without one.
pub data Decision : Type 0 where
  rejected : ℕ → Decision
  forwarded : Decision
  admitted : Decision

abbrev pub is_limited : HttpRequest → Bool
is_limited r = r.method == "POST" && starts_codes (codes "/v1/") (codes r.path)

unfoldable pub take_slot : RequestCapacityLimiter → Decision × RequestCapacityLimiter
take_slot l = let (taken, l') = try_acquire l in (if taken then admitted else rejected 429, l')

unfoldable pub decide :
    HttpRequest → Authentication → RequestCapacityLimiter → Decision × RequestCapacityLimiter
decide r a l = if is_public r.path then (forwarded, l) else elim a [
  | registry_unavailable ↦ (rejected 503, l)
  | no_client ↦ (rejected 401, l)
  | client scopes ↦
      if not (is_subset (required_scopes r.path) scopes)
      then (rejected 403, l)
      else (if is_limited r then take_slot l else (forwarded, l))
]

-- The server: the limiter, and the requests that hold a slot, by their numbers.
pub record Server : Type 0 where
  pub limiter : RequestCapacityLimiter
  pub running : List ℕ

-- A request comes in, or the handler of one ends, by a response or an exception.
pub data ServerEvent : Type 0 where
  arrives : ℕ → HttpRequest → Authentication → ServerEvent
  ends : ℕ → ServerEvent

abbrev pub enter : ℕ → Decision → List ℕ → List ℕ
enter n admitted ns = n ∷ ns
enter n _ ns = ns

abbrev pub is_member : ℕ → List ℕ → Bool
is_member n [] = false
is_member n (k ∷ ks) = eqb k n || is_member n ks

-- One occurrence.
unfoldable pub leave : ℕ → List ℕ → List ℕ
leave n [] = []
leave n (k ∷ ks) = let rest = leave n ks in if eqb k n then ks else k ∷ rest

-- `finally: request_limiter.release()`
unfoldable pub finish : ℕ → Server → Result LimiterError Server
finish n v = elim (release v.limiter) [
  | err e ↦ err e
  | ok l ↦ ok (record { limiter = l; running = leave n v.running })
]

unfoldable pub handle : Server → ServerEvent → Result LimiterError Server
handle v (arrives n r a) =
    let (choice, l) = decide r a v.limiter in
    ok (record { limiter = l; running = enter n choice v.running })
handle v (ends n) = elim (is_member n v.running) [ false ↦ ok v | true ↦ finish n v ]

unfoldable pub handle_all : Server → List ServerEvent → Result LimiterError Server
handle_all v [] = ok v
handle_all v (e ∷ es) = elim (handle v e) [ err x ↦ err x | ok v' ↦ handle_all v' es ]
