-- ===== src/Gateway/Handlers/Statuses.antt =====
-- Proofs about the handlers of gateway/app/main.py: the statuses of the exceptions they raise.
use single_gpu_ai_services.Base.{
  ℕ, ◌≡◌, ◌⊎◌, inl, inr, refl, ap, ◌∙◌, String, true, Result, ok, err,
}
use single_gpu_ai_services.Gateway.Client.{
  LeaseHandle, ClientError, ClientSettings, Network, Session, acquire, release,
}
use single_gpu_ai_services.Gateway.Upload.{Upload}
use single_gpu_ai_services.Gateway.Serving.{
  Raised, EngineCall, EngineAnswer, EngineReply, Answer, Desk, Step, of_client, acquire_lease,
  release_lease, note_call, ask, infer, excepted, after_release, finally, give, resume, serve,
}
use single_gpu_ai_services.Gateway.Endpoints.{
  transcription_answer, speech_call, speech_answer, embeddings_call, embeddings_answer, rerank_call,
  rerank_answer,
}
use single_gpu_ai_services.Gateway.Endpoints.Documents.{document_answer}
use single_gpu_ai_services.Gateway.Endpoints.Chat.{chat_request, chat_call, chat_answer}
use single_gpu_ai_services.Gateway.Handlers.{
  UploadLimits, ServiceRequest, service_of, transcription_checked, document_checked, handle,
  transcription, speech, chat, embeddings, rerank, document,
}
use single_gpu_ai_services.Gateway.Handlers.Leasing.{Untouched, Unserved, Served, serve-Served}
use single_gpu_ai_services.Gateway.Handlers.Checks.{
  raises_only, is_refusal, is_unavailable, is_bad_gateway, is_failure, bind-raises,
  check_model-refuses, speech_call-refuses, embeddings_call-refuses, rerank_call-refuses,
  chat_request-refuses, file_type-refuses, upload-refuses, transcription_answer-fails,
  chat_answer-fails, embeddings_answer-fails, rerank_answer-fails, document_answer-fails,
  client_failure-unavailable, client_failure-fails, inference_failure-fails,
}

module _ (m : Network) (s : ClientSettings)
    (engine : EngineCall → m.World → EngineReply × m.World) where
  of_client-fails :
      {A : Type 0}
      → (before : String) (d : Desk m s engine) (t : Result ClientError A × Session m s)
      → raises_only is_failure (of_client m s engine before d t).0 ≡ true
  of_client-fails before d (ok a, n) = refl
  of_client-fails before d (err e, n) = client_failure-fails before e

  resume-fails :
      {A B : Type 0}
      → (f : A → Step m s engine B) (t : Result Raised A × Desk m s engine)
      → raises_only is_failure t.0 ≡ true
      → ((a : A) (d : Desk m s engine) → raises_only is_failure (f a d).0 ≡ true)
      → raises_only is_failure (resume m s engine f t).0 ≡ true
  resume-fails f (ok a, d) h g = g a d
  resume-fails f (err e, d) h g = h

  excepted-fails :
      (label : String) (t : Result Raised Answer × Desk m s engine)
      → raises_only is_bad_gateway t.0 ≡ true
      → raises_only is_failure (excepted m s engine label t).0 ≡ true
  excepted-fails label (ok a, d) h = refl
  excepted-fails label (err e, d) h = inference_failure-fails label e h

  inferred-fails :
      (label : String) (call : EngineCall) (use_answer : EngineAnswer → Result Raised Answer)
      (d : Desk m s engine) (t : EngineReply × m.World)
      → ((a : EngineAnswer) → raises_only is_bad_gateway (use_answer a) ≡ true)
      → raises_only is_failure
          (excepted m s engine label (
            resume m s engine
              (λ a. give m s engine (use_answer a))
              (note_call m s engine call d t))).0
        ≡ true
  inferred-fails label call use_answer d (EngineReply.engine_answered a, w) h =
      excepted-fails label (use_answer a, _) (h a)
  inferred-fails label call use_answer d (EngineReply.engine_timed_out, w) h = refl
  inferred-fails label call use_answer d (EngineReply.engine_failed e, w) h = refl
  inferred-fails label call use_answer d (EngineReply.engine_raised e, w) h = refl
  inferred-fails label call use_answer d (EngineReply.engine_interrupted, w) h = refl

  finally-fails :
      (lease : LeaseHandle) (t : Result Raised Answer × Desk m s engine)
      → raises_only is_failure t.0 ≡ true
      → raises_only is_failure (finally m s engine lease t).0 ≡ true
  unfolding release_lease
  finally-fails lease (r, d) h = after (release_lease m s engine lease d) (
      resume-fails (λ b. give m s engine (ok tt))
        (of_client m s engine "Dispatcher release error: " d (release m s lease d.session))
        (of_client-fails "Dispatcher release error: " d (release m s lease d.session))
        (λ b d1. refl))
    where
      after :
          (t : Result Raised (Unit {0}) × Desk m s engine)
          → raises_only is_failure t.0 ≡ true
          → raises_only is_failure (after_release m s engine r t).0 ≡ true
      after (ok _, d1) k = h
      after (err e, d1) k = k

  serve-fails :
      (label service id : String) (call : EngineCall)
      (use_answer : EngineAnswer → Result Raised Answer) (d : Desk m s engine)
      → ((a : EngineAnswer) → raises_only is_bad_gateway (use_answer a) ≡ true)
      → raises_only is_failure (serve m s engine label service id call use_answer d).0 ≡ true
  unfolding serve acquire_lease ask
  serve-fails label service id call use_answer d h =
      resume-fails _ (acquire_lease m s engine service id d)
        (of_client-fails "Dispatcher acquisition error: " d (acquire m s service id d.session))
        (λ lease d1.
          finally-fails lease (excepted m s engine label (infer m s engine call use_answer d1))
            (inferred-fails label call use_answer d1 (engine call d1.session.world) h))

  -- The end of a handler, with what it may raise there.
  abbrev pub Statuses :
      String → String → Desk m s engine → Result Raised Answer × Desk m s engine → Type 0
  Statuses service id d t =
      (Untouched m s engine d t × (raises_only is_refusal t.0 ≡ true))
      ⊎ ((Unserved m s engine service id d t × (raises_only is_unavailable t.0 ≡ true))
          ⊎ (Served m s engine service id d t × (raises_only is_failure t.0 ≡ true)))

  serve-Statuses :
      (label service id : String) (call : EngineCall)
      (use_answer : EngineAnswer → Result Raised Answer) (d : Desk m s engine)
      → ((a : EngineAnswer) → raises_only is_bad_gateway (use_answer a) ≡ true)
      → Statuses service id d (serve m s engine label service id call use_answer d)
  serve-Statuses label service id call use_answer d h =
      elim (serve-Served m s engine label service id call use_answer d) [
        | inl u ↦ inr (
            inl (
              u,
              ap (raises_only is_unavailable) u.2
                  ∙ client_failure-unavailable "Dispatcher acquisition error: " u.0,
            ))
        | inr v ↦ inr (inr (v, serve-fails label service id call use_answer d h))
      ]

  resume-Statuses :
      {A : Type 0}
      → (service id : String) (f : A → Step m s engine Answer) (r : Result Raised A)
        (d : Desk m s engine)
      → raises_only is_refusal r ≡ true
      → ((a : A) → Statuses service id d (f a d))
      → Statuses service id d (resume m s engine f (r, d))
  resume-Statuses service id f (ok a) d h g = g a
  resume-Statuses service id f (err e) d h g = inl ((e, refl), h)

module _ (m : Network) (s : ClientSettings) (engine : EngineCall → m.World → EngineReply × m.World)
    (u : Upload) (limits : UploadLimits) where
  -- However a handler ends: it leaves the dispatcher and the engines alone and raises an HTTP error with
  -- status 400 or 413; or the acquisition of a lease failed, and it raises an HTTP error with status 503
  -- or an exception of the dispatcher client that is none of those caught; or it acquired a lease,
  -- called an engine once and asked for the release, and what it raises, if anything, is an HTTP error
  -- with status 502, 503 or 504, such an exception of the client, or one of the request to the engine
  -- that is neither a timeout nor an HTTP error. The end of the model's fuel counts as an exception of
  -- the client that is not caught.
  pub handle-Statuses :
      (q : ServiceRequest m s engine u limits) (id random : String) (now : ℕ) (d : Desk m s engine)
      → Statuses m s engine
          (service_of m s engine u limits q)
          id
          d
          (handle m s engine u limits q id random now d)
  unfolding handle
  handle-Statuses (transcription f w) id random now d =
      resume-Statuses m s engine "stt" id _ (transcription_checked m s engine u limits f w) d
        (search (bind-raises, check_model-refuses, upload-refuses))
        (λ call.
          serve-Statuses m s engine "STT" "stt" id call transcription_answer d
            transcription_answer-fails)
  handle-Statuses (speech payload) id random now d =
      resume-Statuses m s engine "tts" id _ (speech_call payload) d (speech_call-refuses payload)
        (λ call. serve-Statuses m s engine "TTS" "tts" id call speech_answer d (λ a. refl))
  handle-Statuses (chat payload) id random now d =
      resume-Statuses m s engine "llm" id _ (chat_request payload) d (chat_request-refuses payload)
        (λ q.
          serve-Statuses m s engine "LLM" "llm" id (chat_call q) (chat_answer random now q) d
            (chat_answer-fails random now q))
  handle-Statuses (embeddings payload) id random now d =
      resume-Statuses m s engine "embeddings" id _ (embeddings_call payload) d
        (embeddings_call-refuses payload)
        (λ call.
          serve-Statuses m s engine "Embeddings" "embeddings" id call embeddings_answer d
            embeddings_answer-fails)
  handle-Statuses (rerank payload) id random now d =
      resume-Statuses m s engine "reranker" id _ (rerank_call payload) d
        (rerank_call-refuses payload)
        (λ call.
          serve-Statuses m s engine "Reranker" "reranker" id call rerank_answer d
            rerank_answer-fails)
  handle-Statuses (document f w) id random now d =
      resume-Statuses m s engine "ocr" id _ (document_checked m s engine u limits f w) d
        (search (bind-raises, check_model-refuses, file_type-refuses, upload-refuses))
        (λ call.
          serve-Statuses m s engine "OCR" "ocr" id call document_answer d document_answer-fails)
