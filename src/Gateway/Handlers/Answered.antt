-- ===== src/Gateway/Handlers/Answered.antt =====
-- Proofs about the handlers of gateway/app/main.py: what stands behind an answer.
use single_gpu_ai_services.Base.{ℕ, ◌≡◌, refl, sym, ap, ◌∙◌, String, Result, ok, err, arith}
use single_gpu_ai_services.Gateway.Client.{
  LeaseHandle, post_release, Body, body_of, Reply, replied, ClientError, ClientSettings, Network,
  Session, fetch, acquire, release,
}
use single_gpu_ai_services.Gateway.Upload.{Upload}
use single_gpu_ai_services.Gateway.Serving.{
  Raised, EngineCall, EngineAnswer, EngineReply, engine_answered, Answer, Desk, Step, of_client,
  acquire_lease, release_lease, note_call, ask, infer, excepted, after_release, finally, give,
  resume, serve,
}
use single_gpu_ai_services.Gateway.Endpoints.{
  transcription_answer, speech_call, speech_answer, embeddings_call, embeddings_answer, rerank_call,
  rerank_answer,
}
use single_gpu_ai_services.Gateway.Endpoints.Documents.{document_answer}
use single_gpu_ai_services.Gateway.Endpoints.Chat.{chat_request, chat_call, chat_answer}
use single_gpu_ai_services.Gateway.Handlers.Leasing.{excepted-desk, infer-desk}
use single_gpu_ai_services.Gateway.Handlers.{
  UploadLimits, ServiceRequest, service_of, transcription_checked, document_checked, handle,
  transcription, speech, chat, embeddings, rerank, document,
}

module _ (m : Network) (s : ClientSettings)
    (engine : EngineCall → m.World → EngineReply × m.World) where
  -- A lease of a service, a response of the engine to a call, and the dispatcher's to the release.
  abbrev pub Behind : String → String → Desk m s engine → Type 0
  Behind service id d =
      (lease : LeaseHandle) × (call : EngineCall) × (response : EngineAnswer) × (body : Body)
      × ((acquire m s service id d.session).0 ≡ ok lease)
      × ((engine call (acquire m s service id d.session).1.world).0 ≡ engine_answered response)
      × ((m.send (post_release lease) (engine call (acquire m s service id d.session).1.world).1).0
          ≡ replied body)

  abbrev Backed : String → String → Desk m s engine → Result Raised Answer → Type 0
  Backed service id d r = (a : Answer) → r ≡ ok a → Behind service id d

  accepted :
      (before : String) (d : Desk m s engine) (reply : Reply) (n : Session m s)
      → (resume m s engine {A = Body}
          (λ b. give m s engine (ok tt))
          (of_client m s engine before d (body_of reply, n))).0
        ≡ ok tt
      → (body : Body) × (reply ≡ replied body)
  accepted before d (replied body) n h = (body, refl)
  accepted before d (Reply.http_error e) n h = ground arith
  accepted before d Reply.not_json n h = ground arith
  accepted before d Reply.interrupted n h = ground arith

  release_lease-accepted :
      (lease : LeaseHandle) (d : Desk m s engine)
      → (release_lease m s engine lease d).0 ≡ ok tt
      → (body : Body) × ((m.send (post_release lease) d.session.world).0 ≡ replied body)
  unfolding release_lease release fetch
  release_lease-accepted lease d h =
      accepted "Dispatcher release error: " d (m.send (post_release lease) d.session.world).0 _ h

  after_release-ok :
      (r : Result Raised Answer) (t : Result Raised (Unit {0}) × Desk m s engine) (a : Answer)
      → (after_release m s engine r t).0 ≡ ok a
      → (r ≡ ok a) × (t.0 ≡ ok tt)
  after_release-ok r (ok _, d) a h = (h, refl)
  after_release-ok r (err e, d) a h = ground arith

  excepted-ok :
      (label : String) (t : Result Raised Answer × Desk m s engine) (a : Answer)
      → (excepted m s engine label t).0 ≡ ok a
      → t.0 ≡ ok a
  excepted-ok label (ok b, d) a h = h
  excepted-ok label (err e, d) a h = ground arith

  infer-answered :
      (call : EngineCall) (use_answer : EngineAnswer → Result Raised Answer) (d : Desk m s engine)
      (t : EngineReply × m.World) (a : Answer)
      → (resume m s engine (λ x. give m s engine (use_answer x)) (note_call m s engine call d t)).0
        ≡ ok a
      → (response : EngineAnswer) × (t.0 ≡ engine_answered response)
  infer-answered call use_answer d (engine_answered response, w) a h = (response, refl)
  infer-answered call use_answer d (EngineReply.engine_timed_out, w) a h = ground arith
  infer-answered call use_answer d (EngineReply.engine_failed e, w) a h = ground arith
  infer-answered call use_answer d (EngineReply.engine_raised e, w) a h = ground arith
  infer-answered call use_answer d (EngineReply.engine_interrupted, w) a h = ground arith

  serve-Backed :
      (label service id : String) (call : EngineCall)
      (use_answer : EngineAnswer → Result Raised Answer) (d : Desk m s engine)
      → Backed service id d (serve m s engine label service id call use_answer d).0
  unfolding serve acquire_lease ask
  serve-Backed label service id call use_answer d = settle (acquire m s service id d.session) refl
    where
      settle :
          (t : Result ClientError LeaseHandle × Session m s)
          → acquire m s service id d.session ≡ t
          → Backed service id d
              (resume m s engine
                (λ lease d1.
                  finally m s engine lease
                    (excepted m s engine label (infer m s engine call use_answer d1)))
                (of_client m s engine "Dispatcher acquisition error: " d t)).0
      settle (ok lease, n) h a e =
          let d1 : Desk m s engine = record d { session = n } in
          let t = excepted m s engine label (infer m s engine call use_answer d1) in
          let (is_ok, released) = after_release-ok t.0 (release_lease m s engine lease t.1) a e in
          let (response, answered) =
            infer-answered call use_answer d1 (engine call n.world) a
              (excepted-ok label (infer m s engine call use_answer d1) a is_ok) in
          let (body, replied_) = release_lease-accepted lease t.1 released in
          let desk =
            excepted-desk m s engine label (infer m s engine call use_answer d1)
            ∙ infer-desk m s engine call use_answer d1 in
          let session = ap (λ x. x.1.world) h in
          (
            lease,
            call,
            response,
            body,
            ap (λ x. x.0) h,
            ap (λ w. (engine call w).0) session ∙ answered,
            ap (λ w. (m.send (post_release lease) (engine call w).1).0) session
                ∙ ap (λ x. (m.send (post_release lease) x.session.world).0) (sym desk)
                ∙ replied_,
          )
      settle (err e1, n) h a e = ground arith

  resume-Backed :
      {A : Type 0}
      → (service id : String) (f : A → Step m s engine Answer) (r : Result Raised A)
        (d : Desk m s engine)
      → ((a : A) → Backed service id d (f a d).0)
      → Backed service id d (resume m s engine f (r, d)).0
  resume-Backed service id f (ok a) d g = g a
  resume-Backed service id f (err e) d g = λ a h. ground arith

module _ (m : Network) (s : ClientSettings) (engine : EngineCall → m.World → EngineReply × m.World)
    (u : Upload) (limits : UploadLimits) where
  handle-Backed :
      (q : ServiceRequest m s engine u limits) (id random : String) (now : ℕ) (d : Desk m s engine)
      → Backed m s engine
          (service_of m s engine u limits q)
          id
          d
          (handle m s engine u limits q id random now d).0
  unfolding handle
  handle-Backed (transcription f w) id random now d =
      resume-Backed m s engine "stt" id _ (transcription_checked m s engine u limits f w) d
        (λ call. serve-Backed m s engine "STT" "stt" id call transcription_answer d)
  handle-Backed (speech payload) id random now d =
      resume-Backed m s engine "tts" id _ (speech_call payload) d
        (λ call. serve-Backed m s engine "TTS" "tts" id call speech_answer d)
  handle-Backed (chat payload) id random now d =
      resume-Backed m s engine "llm" id _ (chat_request payload) d
        (λ q. serve-Backed m s engine "LLM" "llm" id (chat_call q) (chat_answer random now q) d)
  handle-Backed (embeddings payload) id random now d =
      resume-Backed m s engine "embeddings" id _ (embeddings_call payload) d
        (λ call. serve-Backed m s engine "Embeddings" "embeddings" id call embeddings_answer d)
  handle-Backed (rerank payload) id random now d =
      resume-Backed m s engine "reranker" id _ (rerank_call payload) d
        (λ call. serve-Backed m s engine "Reranker" "reranker" id call rerank_answer d)
  handle-Backed (document f w) id random now d =
      resume-Backed m s engine "ocr" id _ (document_checked m s engine u limits f w) d
        (λ call. serve-Backed m s engine "OCR" "ocr" id call document_answer d)

  -- When a handler returns an answer, the client had acquired a lease of the handler's service, the
  -- engine answered a call after that without an error, and after that the dispatcher accepted the release.
  pub handle-Behind :
      (q : ServiceRequest m s engine u limits) (id random : String) (now : ℕ) (d : Desk m s engine)
      (a : Answer)
      → (handle m s engine u limits q id random now d).0 ≡ ok a
      → Behind m s engine (service_of m s engine u limits q) id d
  handle-Behind = handle-Backed
