-- ===== src/Gateway/Handlers.antt =====
-- The handlers of gateway/app/main.py as a whole: the checks, the upload, and the service of a request.
--
-- `transcribe_audio`, `synthesize_speech`, `chat_completions`, `embeddings`, `rerank`, `read_document`.
pub mod Leasing
pub mod Checks
pub mod Statuses
pub mod Answered
mod Tests
use single_gpu_ai_services.Base.{ℕ, List, String, Result, ok, err, ◌>>=◌, ◌>>◌}
use single_gpu_ai_services.Json.{Fields, text}
use single_gpu_ai_services.Gateway.Client.{ClientError, ClientSettings, Network}
use single_gpu_ai_services.Gateway.Upload.{Upload, UploadError, upload_too_large, read_upload}
use single_gpu_ai_services.Gateway.Serving.{
  plain, Raised, http_exception, unhandled, EngineCall, EngineReply, Answer, Desk, Step, resume,
  serve,
}
use single_gpu_ai_services.Gateway.Endpoints.{
  FileForm, check_model, or_text, public_stt_model, public_ocr_model, transcription_call,
  transcription_answer, speech_call, speech_answer, embeddings_call, embeddings_answer, rerank_call,
  rerank_answer,
}
use single_gpu_ai_services.Gateway.Endpoints.Documents.{file_type, document_call, document_answer}
use single_gpu_ai_services.Gateway.Endpoints.Chat.{
  ChatRequest, chat_request, chat_call, chat_answer,
}

abbrev pub of_upload : Result UploadError (List ℕ) → Result Raised (List ℕ)
of_upload (ok bytes) = ok bytes
of_upload (err upload_too_large) = err (http_exception 413 (plain "upload too large"))
of_upload (err _) = err (unhandled ClientError.out_of_fuel)

-- The bounds of an upload.
pub record UploadLimits : Type 0 where
  pub max_stt : ℕ
  pub max_ocr : ℕ

module _ (m : Network) (s : ClientSettings) (engine : EngineCall → m.World → EngineReply × m.World)
    (u : Upload) (limits : UploadLimits) where
  -- A request with its route, and the file that is to be read.
  pub data ServiceRequest : Type 0 where
    transcription : FileForm → u.World → ServiceRequest
    speech : Fields → ServiceRequest
    chat : Fields → ServiceRequest
    embeddings : Fields → ServiceRequest
    rerank : Fields → ServiceRequest
    document : FileForm → u.World → ServiceRequest

  abbrev pub service_of : ServiceRequest → String
  service_of (transcription f w) = "stt"
  service_of (speech payload) = "tts"
  service_of (chat payload) = "llm"
  service_of (embeddings payload) = "embeddings"
  service_of (rerank payload) = "reranker"
  service_of (document f w) = "ocr"

  -- What is done before the lease is asked for.
  abbrev pub transcription_checked : FileForm → u.World → Result Raised EngineCall
  transcription_checked f w = do
    check_model public_stt_model (text f.model)
    bytes ← of_upload (read_upload u limits.max_stt w)
    ok (transcription_call f bytes)

  abbrev pub document_checked : FileForm → u.World → Result Raised EngineCall
  document_checked f w = do
    check_model public_ocr_model (text f.model)
    kind ← file_type (or_text f.content_type "")
    bytes ← of_upload (read_upload u limits.max_ocr w)
    ok (document_call kind bytes)

  -- The handlers, with the identifier of the request to the dispatcher, and for a chat the random part of
  -- an identifier and the time.
  unfoldable pub handle : ServiceRequest → String → String → ℕ → Step m s engine Answer
  handle (transcription f w) id random now d =
      resume m s engine (λ call. serve m s engine "STT" "stt" id call transcription_answer)
        (transcription_checked f w, d)
  handle (speech payload) id random now d =
      resume m s engine (λ call. serve m s engine "TTS" "tts" id call speech_answer)
        (speech_call payload, d)
  handle (chat payload) id random now d =
      resume m s engine
        (λ q. serve m s engine "LLM" "llm" id (chat_call q) (chat_answer random now q))
        (chat_request payload, d)
  handle (embeddings payload) id random now d =
      resume m s engine
        (λ call. serve m s engine "Embeddings" "embeddings" id call embeddings_answer)
        (embeddings_call payload, d)
  handle (rerank payload) id random now d =
      resume m s engine (λ call. serve m s engine "Reranker" "reranker" id call rerank_answer)
        (rerank_call payload, d)
  handle (document f w) id random now d =
      resume m s engine (λ call. serve m s engine "OCR" "ocr" id call document_answer)
        (document_checked f w, d)
