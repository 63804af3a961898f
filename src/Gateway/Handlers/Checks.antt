-- ===== src/Gateway/Handlers/Checks.antt =====
-- Proofs about the handlers of gateway/app/main.py: what their checks raise.
use single_gpu_ai_services.Base.{
  ℕ, ◌≡◌, ◌≢◌, refl, List, [], ◌∷◌, String, Bool, true, false, ◌||◌, Option, none, some, Result, ok,
  err, ◌>>=◌, refuse_if, demand, arith, eqb, if◌then◌else◌,
}
use single_gpu_ai_services.Json.{Json, Fields}
use single_gpu_ai_services.Gateway.Stream.{Event, StreamError}
use single_gpu_ai_services.Gateway.Client.{
  ClientError, missing_epoch, invalid_json, task_cancelled, out_of_fuel,
}
use single_gpu_ai_services.Gateway.Upload.{
  Upload, UploadError, upload_too_large, read_upload, read_upload-ne-out_of_fuel,
}
use single_gpu_ai_services.Gateway.Serving.{
  Raised, http_exception, unhandled, uncaught, EngineAnswer, Answer, client_failure,
  inference_failure, backend_json,
}
use single_gpu_ai_services.Gateway.Endpoints.{
  check_model, transcription_answer, speech_call, embeddings_call, embeddings_answer, rerank_call,
  rerank_answer,
}
use single_gpu_ai_services.Gateway.Endpoints.Documents.{
  file_type, page_text, text_parts, document_answer,
}
use single_gpu_ai_services.Gateway.Endpoints.Chat.{
  with_limit, chat_payload, chat_request, ChatRequest, as_stream, chat_answer,
}
use single_gpu_ai_services.Gateway.Handlers.{of_upload}

abbrev pub raises_only : {A : Type 0} → (Raised → Bool) → Result Raised A → Bool
raises_only p (ok a) = true
raises_only p (err e) = p e

-- The exceptions of the dispatcher client that its callers do not catch, and the model's own.
abbrev pub passes : ClientError → Bool
passes missing_epoch = true
passes invalid_json = true
passes task_cancelled = true
passes out_of_fuel = true
passes _ = false

-- What is raised before the dispatcher is asked, by the acquisition, of a response, and at the end.
abbrev pub is_refusal : Raised → Bool
is_refusal (http_exception code detail) = eqb code 400 || eqb code 413
is_refusal _ = false

abbrev pub is_unavailable : Raised → Bool
is_unavailable (http_exception code detail) = eqb code 503
is_unavailable (unhandled e) = passes e
is_unavailable _ = false

abbrev pub is_bad_gateway : Raised → Bool
is_bad_gateway (http_exception code detail) = eqb code 502
is_bad_gateway _ = false

abbrev pub is_failure : Raised → Bool
is_failure (http_exception code detail) = eqb code 502 || eqb code 503 || eqb code 504
is_failure (unhandled e) = passes e
is_failure (uncaught e) = true
is_failure _ = false

pub bind-raises :
    {A B : Type 0}
    → (p : Raised → Bool) (r : Result Raised A) (f : A → Result Raised B) → raises_only p r ≡ true
    → ((a : A) → raises_only p (f a) ≡ true)
    → raises_only p (r >>= f) ≡ true
bind-raises p (ok a) f h g = g a
bind-raises p (err e) f h g = h

demand-raises :
    {A : Type 0}
    → (p : Raised → Bool) (o : Option A) (e : Raised) → p e ≡ true
    → raises_only p (demand o e) ≡ true
demand-raises p none e h = h
demand-raises p (some a) e h = refl

refuse-raises :
    (p : Raised → Bool) (test : Bool) (e : Raised)
    → p e ≡ true
    → raises_only p (refuse_if test e) ≡ true
refuse-raises p true e h = h
refuse-raises p false e h = refl

ruleset raising = (bind-raises, demand-raises, refuse-raises)

pub check_model-refuses :
    (public : String) (model : Json) → raises_only is_refusal (check_model public model) ≡ true
unfolding check_model
check_model-refuses public model = search refuse-raises

pub speech_call-refuses : (payload : Fields) → raises_only is_refusal (speech_call payload) ≡ true
unfolding speech_call
speech_call-refuses payload = search (raising, check_model-refuses)

pub embeddings_call-refuses :
    (payload : Fields) → raises_only is_refusal (embeddings_call payload) ≡ true
unfolding embeddings_call
embeddings_call-refuses payload = search (raising, check_model-refuses)

pub rerank_call-refuses : (payload : Fields) → raises_only is_refusal (rerank_call payload) ≡ true
unfolding rerank_call
rerank_call-refuses payload = search (raising, check_model-refuses)

with_limit-refuses :
    (payload : Fields) (a b : Option Json) → raises_only is_refusal (with_limit payload a b) ≡ true
with_limit-refuses payload none b = refl
with_limit-refuses payload (some a) none = refl
with_limit-refuses payload (some a) (some b) = ground arith

chat_payload-refuses : (payload : Fields) → raises_only is_refusal (chat_payload payload) ≡ true
unfolding chat_payload
chat_payload-refuses payload = search (raising, check_model-refuses, with_limit-refuses)

pub chat_request-refuses : (payload : Fields) → raises_only is_refusal (chat_request payload) ≡ true
unfolding chat_request
chat_request-refuses payload = search (raising, chat_payload-refuses) depth 8

pub file_type-refuses :
    (content_type : String) → raises_only is_refusal (file_type content_type) ≡ true
unfolding file_type
file_type-refuses content_type = ground arith

of_upload-refuses :
    (r : Result UploadError (List ℕ))
    → r ≢ err UploadError.out_of_fuel
    → raises_only is_refusal (of_upload r) ≡ true
of_upload-refuses (ok bytes) h = refl
of_upload-refuses (err upload_too_large) h = refl
of_upload-refuses (err UploadError.out_of_fuel) h = absurd (h refl)

pub upload-refuses :
    (u : Upload) (max_bytes : ℕ) (w : u.World)
    → raises_only is_refusal (of_upload (read_upload u max_bytes w)) ≡ true
upload-refuses u max_bytes w =
    of_upload-refuses (read_upload u max_bytes w) (read_upload-ne-out_of_fuel u max_bytes w)

-- What is made of a response raises 502 only.
backend_json-fails :
    (label : String) (a : EngineAnswer) → raises_only is_bad_gateway (backend_json label a) ≡ true
backend_json-fails label a = search demand-raises

pub transcription_answer-fails :
    (a : EngineAnswer) → raises_only is_bad_gateway (transcription_answer a) ≡ true
unfolding transcription_answer
transcription_answer-fails a = search (raising, backend_json-fails)

as_stream-fails :
    (r : Result StreamError (List Event)) → raises_only is_bad_gateway (as_stream r) ≡ true
as_stream-fails (ok es) = refl
as_stream-fails (err e) = refl

streamed-fails :
    (streamed : Bool) (r : Result StreamError (List Event)) (b : Answer)
    → raises_only is_bad_gateway (if streamed then as_stream r else ok b) ≡ true
streamed-fails true r b = as_stream-fails r
streamed-fails false r b = refl

pub chat_answer-fails :
    (random : String) (now : ℕ) (q : ChatRequest) (a : EngineAnswer)
    → raises_only is_bad_gateway (chat_answer random now q a) ≡ true
unfolding chat_answer
chat_answer-fails random now q a = search (raising, backend_json-fails, streamed-fails)

pub embeddings_answer-fails :
    (a : EngineAnswer) → raises_only is_bad_gateway (embeddings_answer a) ≡ true
unfolding embeddings_answer
embeddings_answer-fails a = search (raising, backend_json-fails)

pub rerank_answer-fails : (a : EngineAnswer) → raises_only is_bad_gateway (rerank_answer a) ≡ true
unfolding rerank_answer
rerank_answer-fails a = search (raising, backend_json-fails)

page_text-fails : (page : Json) → raises_only is_bad_gateway (page_text page) ≡ true
unfolding page_text
page_text-fails page = search (bind-raises, demand-raises)

text_parts-fails : (pages : List Json) → raises_only is_bad_gateway (text_parts pages) ≡ true
unfolding text_parts
text_parts-fails [] = refl
text_parts-fails (page ∷ pages) = search (raising, page_text-fails, text_parts-fails pages)

pub document_answer-fails :
    (a : EngineAnswer) → raises_only is_bad_gateway (document_answer a) ≡ true
unfolding document_answer
document_answer-fails a = search (raising, backend_json-fails, text_parts-fails)

pub client_failure-unavailable :
    (before : String) (e : ClientError) → is_unavailable (client_failure before e) ≡ true
client_failure-unavailable before e = ground arith

pub client_failure-fails :
    (before : String) (e : ClientError) → is_failure (client_failure before e) ≡ true
client_failure-fails before e = ground arith

pub inference_failure-fails :
    (label : String) (e : Raised)
    → is_bad_gateway e ≡ true
    → is_failure (inference_failure label e) ≡ true
inference_failure-fails label e h = ground arith
