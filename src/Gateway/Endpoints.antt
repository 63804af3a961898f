-- ===== src/Gateway/Endpoints.antt =====
-- The handlers of gateway/app/main.py: what each checks of a request, the call of its engine, and what it
-- makes of the response.
--
-- FastAPI has parsed the request: a JSON object, or a form with a file.
pub mod Chat
pub mod Documents
pub mod Whitelist
use single_gpu_ai_services.Base.{
  ℕ, Bool, true, false, not, ◌&&◌, ◌||◌, Option, none, some, List, [], ◌∷◌, String, ◌==◌, ◌+++◌,
  if◌then◌else◌, Result, ok, err, ◌>>=◌, ◌>>◌, refuse_if, demand, eqb, leb, any, codes, is_space,
  starts_codes, contains,
}
use single_gpu_ai_services.Json.{
  Json, null, bool, int, text, arr, obj, Items, nil, cons, Fields, end, field, items, count, get,
  get_or, member, set, as_dict, as_list, as_text, as_bool, is_truthy, equal,
}
use single_gpu_ai_services.Base64.{encode}
use single_gpu_ai_services.Gateway.Stream.{Event, StreamError, buffered_sse}
use single_gpu_ai_services.Gateway.Serving.{
  Detail, plain, about, Raised, http_exception, Payload, json_payload, query, form, EngineCall,
  EngineAnswer, Answer, json_answer, wav, event_stream, backend_json,
}

abbrev pub bad_request : String → Raised
bad_request detail = http_exception 400 (plain detail)

abbrev pub bad_gateway : String → Raised
bad_gateway detail = http_exception 502 (plain detail)

-- `if model != PUBLIC_MODEL: raise`
unfoldable pub check_model : String → Json → Result Raised (Unit {0})
check_model public model =
    refuse_if (not (equal model (text public)))
      (http_exception 400 (about "Unsupported model: " model))

abbrev pub public_stt_model : String
public_stt_model = "faster-whisper-large-v3"

abbrev pub public_tts_model : String
public_tts_model = "coqui-es-css10-vits"

abbrev pub public_llm_model : String
public_llm_model = "qwen3-8b"

abbrev pub public_embeddings_model : String
public_embeddings_model = "bge-m3"

abbrev pub public_rerank_model : String
public_rerank_model = "bge-reranker-v2-m3"

abbrev pub public_ocr_model : String
public_ocr_model = "paddleocr-vl-1.6"

-- A file that is uploaded, with the fields of its form; the bytes are read later.
pub record FileForm : Type 0 where
  pub filename : Option String
  pub content_type : Option String
  pub model : String
  pub language : Option String

-- `value or other`, of an optional text.
abbrev pub or_text : Option String → String → String
or_text none other = other
or_text (some s) other = if s == "" then other else s

-- `/v1/models`: the models of the capabilities that the client has.
abbrev pub models : List (String × String)
models =
    ("llm", public_llm_model)
    ∷ ("stt", public_stt_model)
    ∷ ("tts", public_tts_model)
    ∷ ("embeddings", public_embeddings_model)
    ∷ ("reranker", public_rerank_model)
    ∷ ("ocr", public_ocr_model)
    ∷ []

abbrev pub listed : List String → List (String × String) → Items
listed scopes [] = nil
listed scopes ((capability, model) ∷ ms) =
    let rest = listed scopes ms in
    if contains capability scopes
    then cons (obj (field "id" (text model) (field "object" (text "model") end))) rest
    else rest

abbrev pub list_models : List String → Json
list_models scopes =
    obj (field "object" (text "list") (field "data" (arr (listed scopes models)) end))

-- `/v1/audio/transcriptions`
abbrev pub transcription_data : Option String → Fields
transcription_data none = field "model" (text "Systran/faster-whisper-large-v3") end
transcription_data (some language) =
    field "model" (text "Systran/faster-whisper-large-v3")
      (if language == "" then end else field "language" (text language) end)

abbrev pub transcription_call : FileForm → List ℕ → EngineCall
transcription_call f bytes = record {
  url = "http://ai-stt:8000/v1/audio/transcriptions";
  payload =
      form (or_text f.filename "audio") bytes (or_text f.content_type "application/octet-stream")
        (transcription_data f.language);
}

unfoldable pub transcription_answer : EngineAnswer → Result Raised Answer
transcription_answer a = do
  body ← backend_json "STT" a
  t ← demand (as_text (member "text" body)) (bad_gateway "STT backend response missing text")
  ok (json_answer (obj (field "text" (text t) end)))

-- `/v1/audio/speech`
unfoldable pub speech_call : Fields → Result Raised EngineCall
speech_call payload = do
  check_model public_tts_model (get_or "model" (text public_tts_model) payload)
  refuse_if (not (is_truthy (get_or "input" (text "") payload))) (bad_request "input is required")
  refuse_if (not (equal (get_or "response_format" (text "wav") payload) (text "wav"))) (
      http_exception 400
        (about "Unsupported response_format: " (get_or "response_format" (text "wav") payload)))
  ok (record {
    url = "http://ai-tts:5002/api/tts";
    payload = query (field "text" (get_or "input" (text "") payload) end);
  })

abbrev pub speech_answer : EngineAnswer → Result Raised Answer
speech_answer a = ok (wav a.content)

-- `isinstance(item, str) and item.strip()`
abbrev pub is_filled : Json → Bool
is_filled (text s) = any (λ c. not (is_space c)) (codes s)
is_filled _ = false

abbrev pub all_filled : Items → Bool
all_filled nil = true
all_filled (cons x xs) = is_filled x && all_filled xs

abbrev pub is_text_list : Json → Bool
is_text_list (arr xs) = leb 1 (count xs) && leb (count xs) 32 && all_filled xs
is_text_list _ = false

-- `/v1/embeddings`
unfoldable pub embeddings_call : Fields → Result Raised EngineCall
embeddings_call payload = do
  check_model public_embeddings_model (get_or "model" (text public_embeddings_model) payload)
  refuse_if
      (not (is_filled (get_or "input" null payload) || is_text_list (get_or "input" null payload)))
      (bad_request "input must be non-empty text or a list of up to 32 texts")
  ok (record {
    url = "http://ai-embeddings:8080/v1/embeddings";
    payload = json_payload (
        field "model" (text public_embeddings_model)
          (field "input" (get_or "input" null payload) end));
  })

unfoldable pub embeddings_answer : EngineAnswer → Result Raised Answer
embeddings_answer a = do
  body ← backend_json "Embeddings" a
  data_ ←
      demand (as_list (member "data" body))
        (bad_gateway "Embeddings backend response has invalid schema")
  ok (json_answer body)

-- `/v1/rerank`
unfoldable pub rerank_call : Fields → Result Raised EngineCall
rerank_call payload = do
  check_model public_rerank_model (get_or "model" (text public_rerank_model) payload)
  refuse_if (not (is_filled (get_or "query" null payload))) (bad_request "query is required")
  refuse_if (not (is_text_list (get_or "documents" null payload)))
      (bad_request "documents must contain 1 to 32 non-empty texts")
  ok (record {
    url = "http://ai-reranker:8080/rerank";
    payload = json_payload (
        field "query" (get_or "query" null payload)
          (field "texts" (get_or "documents" null payload) end));
  })

unfoldable pub rerank_answer : EngineAnswer → Result Raised Answer
rerank_answer a = do
  body ← backend_json "Reranker" a
  results ← demand (as_list body) (bad_gateway "Reranker backend response has invalid schema")
  ok (
      json_answer
        (obj (field "model" (text public_rerank_model) (field "results" (arr results) end))))
