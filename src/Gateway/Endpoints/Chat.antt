-- ===== src/Gateway/Endpoints/Chat.antt =====
-- `chat_completions` of gateway/app/main.py: its checks, its call and its answer.
use single_gpu_ai_services.Base.{
  ℕ, Bool, true, false, not, Option, none, some, List, [], ◌∷◌, String, if◌then◌else◌, Result, ok,
  err, ◌>>=◌, ◌>>◌, refuse_if, demand,
}
use single_gpu_ai_services.Json.{
  Json, null, bool, int, text, arr, obj, cons, Fields, end, field, items, get, get_or, set, as_dict,
  as_list, as_bool, equal,
}
use single_gpu_ai_services.Gateway.Stream.{Event, StreamError, buffered_sse}
use single_gpu_ai_services.Gateway.Serving.{
  Raised, json_payload, EngineCall, EngineAnswer, Answer, json_answer, event_stream, backend_json,
}
use single_gpu_ai_services.Gateway.Endpoints.{
  bad_request, bad_gateway, check_model, public_llm_model,
}

-- `/v1/chat/completions`
abbrev pub allowed_fields : List String
allowed_fields =
    "model" ∷ "messages" ∷ "temperature" ∷ "max_tokens" ∷ "top_p" ∷ "stop" ∷ "tools" ∷ "tool_choice"
    ∷ "parallel_tool_calls" ∷ []

-- `{key: payload[key] for key in fields if key in payload}`
abbrev pub put_if : String → Option Json → Fields → Fields
put_if key none rest = rest
put_if key (some v) rest = field key v rest

unfoldable pub pick : List String → Fields → Fields
pick [] payload = end
pick (key ∷ keys) payload = put_if key (get key payload) (pick keys payload)

-- A request for a chat, after the checks.
pub record ChatRequest : Type 0 where
  pub backend_payload : Fields
  pub stream : Bool
  pub include_usage : Bool

abbrev pub null_or_dict : Json → Option Fields
null_or_dict null = some end
null_or_dict v = as_dict v

-- The payload where `max_completion_tokens` takes the place of `max_tokens`.
abbrev pub with_limit : Fields → Option Json → Option Json → Result Raised Fields
with_limit payload none _ = ok payload
with_limit payload (some limit) none = ok (set "max_tokens" limit payload)
with_limit payload (some limit) (some other) =
    if equal other limit
    then ok (set "max_tokens" limit payload)
    else err (bad_request "conflicting output token limits")

abbrev pub is_nonempty_list : Json → Bool
is_nonempty_list (arr (cons x xs)) = true
is_nonempty_list _ = false

unfoldable pub backend_payload_of : Fields → Fields
backend_payload_of payload =
    set "stream" (bool false) (set "model" (text public_llm_model) (pick allowed_fields payload))

-- The checks from the token limits on.
unfoldable pub chat_payload : Fields → Result Raised Fields
chat_payload payload = do
  limited ← with_limit payload (get "max_completion_tokens" payload) (get "max_tokens" payload)
  check_model public_llm_model (get_or "model" (text public_llm_model) limited)
  refuse_if (not (is_nonempty_list (get_or "messages" null limited)))
      (bad_request "messages must be a non-empty list")
  ok (backend_payload_of limited)

unfoldable pub chat_request : Fields → Result Raised ChatRequest
chat_request payload = do
  stream ←
      demand (as_bool (get_or "stream" (bool false) payload))
        (bad_request "invalid stream or stream_options")
  options ←
      demand (null_or_dict (get_or "stream_options" (obj end) payload))
        (bad_request "invalid stream or stream_options")
  include_usage ←
      demand (as_bool (get_or "include_usage" (bool false) options))
        (bad_request "include_usage must be boolean")
  refuse_if (not (equal (get_or "n" (int 1) payload) (int 1))) (bad_request "only n=1 is supported")
  backend ← chat_payload payload
  ok (record { backend_payload = backend; stream = stream; include_usage = include_usage })

abbrev pub chat_call : ChatRequest → EngineCall
chat_call q = record {
  url = "http://ai-llm:8080/v1/chat/completions";
  payload = json_payload q.backend_payload;
}

abbrev pub as_stream : Result StreamError (List Event) → Result Raised Answer
as_stream (ok es) = ok (event_stream es)
as_stream (err e) = err (bad_gateway "LLM backend response cannot be encoded as SSE")

-- With the random part of an identifier and the time, which `buffered_sse` takes.
unfoldable pub chat_answer : String → ℕ → ChatRequest → EngineAnswer → Result Raised Answer
chat_answer random now q a = do
  body ← backend_json "LLM" a
  fields ← demand (as_dict body) (bad_gateway "LLM backend response has invalid schema")
  choices ←
      demand (as_list (get_or "choices" null fields))
        (bad_gateway "LLM backend response has invalid schema")
  if q.stream
      then as_stream (buffered_sse random now fields (items choices) q.include_usage)
      else ok (json_answer body)
