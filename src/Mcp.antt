-- ===== src/Mcp.antt =====
-- mcp/server.py and mcp/auth.py: the tools that an agent calls, and who may call them.
--
-- The network, the file of the registry at a call, and `sha256` of a token are parameters. The access
-- token of a call is what the framework has verified when the session was set up.
pub mod Decoding
pub mod Access
pub mod Forwarding
mod Tests
use Prim.Native.Char.{code}
use single_gpu_ai_services.Base.{
  ℕ, ◌+◌, ◌*◌, ◌/◌, Bool, true, false, not, Option, none, some, List, [], ◌∷◌, String, ◌==◌, ◌+++◌,
  if◌then◌else◌, eqb, leb, ltb, all, contains, codes, length, map, Result, ok, err, ◌>>=◌, ◌>>◌,
  refuse_if, demand, or_default,
}
use single_gpu_ai_services.Base64.{encode, decode}
use single_gpu_ai_services.Json.{Json, text, arr, obj, Items, array, Fields, end, field}
use single_gpu_ai_services.Registry.{
  Answer as RegistryAnswer, ClientIdentity, Disk, TokenStore, answered, unavailable, authenticate,
}
use single_gpu_ai_services.Registry.Scopes.{sorted}
use single_gpu_ai_services.Gateway.Serving.{Payload, json_payload, form}
use single_gpu_ai_services.Gateway.Endpoints.{
  public_stt_model, public_tts_model, public_embeddings_model, public_rerank_model,
  public_ocr_model,
}

pub data PayloadError : Type 0 where
  not_positive : PayloadError
  too_large : PayloadError
  invalid : PayloadError

-- `decode_base64_payload`
unfoldable pub decode_base64_payload : String → ℕ → Result PayloadError (List ℕ)
decode_base64_payload value max_bytes = do
  refuse_if (leb max_bytes 0) not_positive
  refuse_if (ltb ((max_bytes + 2) / 3 * 4) (length (codes value))) too_large
  decoded ← demand (decode value) invalid
  refuse_if (ltb max_bytes (length decoded)) too_large
  ok decoded

pub data ToolError : Type 0 where
  no_access_token : ToolError
  registry_unavailable : ToolError
  insufficient_scope : ToolError
  value_error : PayloadError → ToolError
  gateway_error : String → ToolError
  not_json : ToolError

pub record AccessToken : Type 0 where
  pub token : String
  pub client_id : String

-- A request of `GatewayClient` to the gateway.
pub record Post : Type 0 where
  pub path : String
  pub bearer : String
  pub payload : Payload

-- A response without an error status, with its JSON if it is such, its content type and its content.
pub record GatewayResponse : Type 0 where
  pub json : Option Json
  pub content_type : Option String
  pub content : List ℕ

pub data GatewayReply : Type 0 where
  gateway_answered : GatewayResponse → GatewayReply
  gateway_failed : String → GatewayReply

-- `str | list[str]`
pub data EmbedInput : Type 0 where
  one : String → EmbedInput
  several : List String → EmbedInput

pub data ToolCall : Type 0 where
  read_document : String → String → String → ToolCall
  transcribe_audio : String → String → String → Option String → ToolCall
  generate_speech : String → ToolCall
  embed_text : EmbedInput → ToolCall
  rerank_documents : String → List String → ToolCall

abbrev pub capability_of : ToolCall → String
capability_of (read_document filename content content_type) = "ocr"
capability_of (transcribe_audio filename content content_type language) = "stt"
capability_of (generate_speech t) = "tts"
capability_of (embed_text input) = "embeddings"
capability_of (rerank_documents q documents) = "reranker"

abbrev pub texts : List String → Json
texts ss = arr (array (map text ss))

abbrev pub embed_json : EmbedInput → Json
embed_json (one s) = text s
embed_json (several ss) = texts ss

abbrev pub embed_fields : EmbedInput → Fields
embed_fields input =
    field "model" (text public_embeddings_model) (field "input" (embed_json input) end)

abbrev pub rerank_fields : String → List String → Fields
rerank_fields q documents =
    field "model" (text public_rerank_model)
      (field "query" (text q) (field "documents" (texts documents) end))

abbrev pub speech_fields : String → Fields
speech_fields t =
    field "model" (text public_tts_model)
      (field "input" (text t) (field "response_format" (text "wav") end))

-- `if language: data["language"] = language`
abbrev pub language_field : Option String → Fields
language_field none = end
language_field (some language) =
    if language == "" then end else field "language" (text language) end

abbrev pub as_value_error : Result PayloadError (List ℕ) → Result ToolError (List ℕ)
as_value_error (ok bytes) = ok bytes
as_value_error (err e) = err (value_error e)

-- The requests of the methods of `GatewayClient`, with the bound of a file.
unfoldable pub post_of : ℕ → String → ToolCall → Result ToolError Post
post_of max_file_bytes bearer (read_document filename content content_type) = do
  bytes ← as_value_error (decode_base64_payload content max_file_bytes)
  ok (record {
    path = "/v1/documents/read";
    bearer = bearer;
    payload = form filename bytes content_type (field "model" (text public_ocr_model) end);
  })
post_of max_file_bytes bearer (transcribe_audio filename content content_type language) = do
  bytes ← as_value_error (decode_base64_payload content max_file_bytes)
  ok (record {
    path = "/v1/audio/transcriptions";
    bearer = bearer;
    payload =
        form filename bytes content_type
          (field "model" (text public_stt_model) (language_field language));
  })
post_of max_file_bytes bearer (generate_speech t) = ok (record {
  path = "/v1/audio/speech";
  bearer = bearer;
  payload = json_payload (speech_fields t);
})
post_of max_file_bytes bearer (embed_text input) = ok (record {
  path = "/v1/embeddings";
  bearer = bearer;
  payload = json_payload (embed_fields input);
})
post_of max_file_bytes bearer (rerank_documents q documents) = ok (record {
  path = "/v1/rerank";
  bearer = bearer;
  payload = json_payload (rerank_fields q documents);
})

-- `text.split(";", 1)[0]`
abbrev pub before_semicolon : String → String
before_semicolon String.[] = ""
before_semicolon (String.◌∷◌ c s) =
    let rest = before_semicolon s in if eqb (code c) 59 then "" else String.◌∷◌ c rest

-- What a method returns of a response.
unfoldable pub tool_result : ToolCall → GatewayResponse → Result ToolError Json
tool_result (generate_speech t) r = ok (
    obj (
      field "media_type" (text (before_semicolon (or_default r.content_type "audio/wav")))
        (field "audio_base64" (text (encode r.content)) end)))
tool_result call r = demand r.json not_json

abbrev pub is_subset : List String → List String → Bool
is_subset required scopes = all (λ s. contains s scopes) required

-- `verify_token` of `HashedTokenVerifier`, after the store has answered.
pub record VerifiedToken : Type 0 where
  pub token : String
  pub client_id : String
  pub scopes : List String

unfoldable pub verified :
    String → List String → RegistryAnswer (Option ClientIdentity) → Option VerifiedToken
verified token required (answered (some i)) =
    if is_subset required i.scopes
    then some (record { token = token; client_id = i.client_id; scopes = sorted i.scopes })
    else none
verified token required _ = none

-- `current_client`, after the store has answered.
unfoldable pub grant :
    AccessToken → String → RegistryAnswer (Option ClientIdentity) → Result ToolError AccessToken
grant access capability unavailable = err registry_unavailable
grant access capability (answered none) = err insufficient_scope
grant access capability (answered (some i)) =
    if is_subset ("mcp" ∷ "gateway" ∷ capability ∷ []) i.scopes
    then ok access
    else err insufficient_scope

module _ (sha256 : List ℕ → String) where
  unfoldable pub verify_token :
      String → List String → Disk → TokenStore → Option VerifiedToken × TokenStore
  verify_token token required d t =
      let (a, t1) = authenticate sha256 (some ("Bearer " +++ token)) none d t in
      (verified token required a, t1)

  unfoldable pub current_client :
      Option AccessToken → String → Disk → TokenStore → Result ToolError AccessToken × TokenStore
  current_client none capability d t = (err no_access_token, t)
  current_client (some access) capability d t =
      let (a, t1) = authenticate sha256 (some ("Bearer " +++ access.token)) none d t in
      (grant access capability a, t1)

module _ (sha256 : List ℕ → String) (max_file_bytes : ℕ) (World : Type 0)
    (post : Post → World → GatewayReply × World) where
  -- The store of the registry, the network, and the requests sent, the last one first.
  pub record McpServer : Type 0 where
    pub store : TokenStore
    pub world : World
    pub sent : List Post

  abbrev pub result_of : ToolCall → GatewayReply → Result ToolError Json
  result_of call (gateway_answered r) = tool_result call r
  result_of call (gateway_failed e) = err (gateway_error e)

  abbrev pub send_post :
      ToolCall → McpServer → Result ToolError Post → Result ToolError Json × McpServer
  send_post call v (err e) = (err e, v)
  send_post call v (ok q) =
      let (reply, w) = post q v.world in
      (result_of call reply, record { store = v.store; world = w; sent = q ∷ v.sent })

  abbrev pub with_access :
      ToolCall
      → McpServer
      → Result ToolError AccessToken × TokenStore
      → Result ToolError Json × McpServer
  with_access call v (err e, t) = (err e, record v { store = t })
  with_access call v (ok access, t) =
      send_post call (record v { store = t }) (post_of max_file_bytes access.token call)

  -- A tool, called with the access token of the session.
  unfoldable pub run_tool :
      ToolCall → Option AccessToken → Disk → McpServer → Result ToolError Json × McpServer
  run_tool call access d v =
      with_access call v (current_client sha256 access (capability_of call) d v.store)
