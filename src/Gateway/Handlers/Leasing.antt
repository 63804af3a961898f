-- ===== src/Gateway/Handlers/Leasing.antt =====
-- Proofs about the handlers of gateway/app/main.py: the lease around an inference.
use single_gpu_ai_services.Base.{
  ℕ, ◌≡◌, ◌⊎◌, inl, inr, refl, sym, ap, ◌∙◌, ◌∷◌, String, Result, ok, err,
}
use single_gpu_ai_services.Gateway.Client.{
  LeaseHandle, post_release, ClientError, ClientSettings, Network, Session, fetch, acquire, release,
}
use single_gpu_ai_services.Gateway.Upload.{Upload}
use single_gpu_ai_services.Gateway.Serving.{
  Raised, EngineCall, EngineAnswer, EngineReply, Answer, client_failure, Desk, Step, of_client,
  acquire_lease, release_lease, note_call, ask, infer, excepted, after_release, finally, give,
  resume, serve,
}
use single_gpu_ai_services.Gateway.Endpoints.{
  transcription_answer, speech_call, speech_answer, embeddings_call, embeddings_answer, rerank_call,
  rerank_answer,
}
use single_gpu_ai_services.Gateway.Endpoints.Documents.{document_answer}
use single_gpu_ai_services.Gateway.Endpoints.Chat.{chat_request, chat_call, chat_answer}
use single_gpu_ai_services.Gateway.Handlers.{
  UploadLimits, ServiceRequest, service_of, transcription_checked, document_checked, handle,
  transcription, speech, chat, embeddings, rerank, document,
}

module _ (m : Network) (s : ClientSettings)
    (engine : EngineCall → m.World → EngineReply × m.World) where
  -- How a handler leaves the desk: a request that is refused before a lease is asked for leaves it as it
  -- was; one without a lease as the acquisition left it; and one with a lease has called an engine once,
  -- and the release of this lease is the last request to the dispatcher.
  abbrev pub Untouched : Desk m s engine → Result Raised Answer × Desk m s engine → Type 0
  Untouched d t = (e : Raised) × (t ≡ (err e, d))

  abbrev pub Unserved :
      String → String → Desk m s engine → Result Raised Answer × Desk m s engine → Type 0
  Unserved service id d t =
      (e : ClientError) × ((acquire m s service id d.session).0 ≡ err e)
      × (t.0 ≡ err (client_failure "Dispatcher acquisition error: " e))
      × (t.1.session ≡ (acquire m s service id d.session).1)
      × (t.1.calls ≡ d.calls)

  abbrev pub Served :
      String → String → Desk m s engine → Result Raised Answer × Desk m s engine → Type 0
  Served service id d t =
      (lease : LeaseHandle) × (call : EngineCall) × ((acquire m s service id d.session).0
        ≡ ok lease)
      × (t.1.calls ≡ call ∷ d.calls)
      × (t.1.session.sent ≡ post_release lease ∷ (acquire m s service id d.session).1.sent)

  abbrev pub Settled :
      String → String → Desk m s engine → Result Raised Answer × Desk m s engine → Type 0
  Settled service id d t = Untouched d t ⊎ (Unserved service id d t ⊎ Served service id d t)

  -- What leaves the desk alone.
  resume-give :
      {A B : Type 0}
      → (f : A → Result Raised B) (t : Result Raised A × Desk m s engine)
      → (resume m s engine (λ a. give m s engine (f a)) t).1 ≡ t.1
  resume-give f (ok a, d) = refl
  resume-give f (err e, d) = refl

  pub excepted-desk :
      (label : String) (t : Result Raised Answer × Desk m s engine)
      → (excepted m s engine label t).1 ≡ t.1
  excepted-desk label (ok a, d) = refl
  excepted-desk label (err e, d) = refl

  after_release-desk :
      (r : Result Raised Answer) (t : Result Raised (Unit {0}) × Desk m s engine)
      → (after_release m s engine r t).1 ≡ t.1
  after_release-desk r (ok _, d) = refl
  after_release-desk r (err e, d) = refl

  of_client-desk :
      {A : Type 0}
      → (before : String) (d : Desk m s engine) (t : Result ClientError A × Session m s)
      → (of_client m s engine before d t).1 ≡ record d { session = t.1 }
  of_client-desk before d (ok a, n) = refl
  of_client-desk before d (err e, n) = refl

  note_call-kept :
      (call : EngineCall) (d : Desk m s engine) (t : EngineReply × m.World)
      → (note_call m s engine call d t).1
        ≡ record { session = record d.session { world = t.1 }; calls = call ∷ d.calls }
  note_call-kept call d (reply, w) = refl

  release_lease-desk :
      (lease : LeaseHandle) (d : Desk m s engine)
      → (release_lease m s engine lease d).1
        ≡ record d { session = (release m s lease d.session).1 }
  unfolding release_lease
  release_lease-desk lease d =
      resume-give (λ b. ok tt)
        (of_client m s engine "Dispatcher release error: " d (release m s lease d.session))
      ∙ of_client-desk "Dispatcher release error: " d (release m s lease d.session)

  pub infer-desk :
      (call : EngineCall) (use_answer : EngineAnswer → Result Raised Answer) (d : Desk m s engine)
      → (infer m s engine call use_answer d).1 ≡ record {
        session = record d.session { world = (engine call d.session.world).1 };
        calls = call ∷ d.calls;
      }
  unfolding ask
  infer-desk call use_answer d =
      resume-give use_answer (ask m s engine call d)
      ∙ note_call-kept call d (engine call d.session.world)

  -- The desk after the `try` and its `finally`.
  finally-desk :
      (label : String) (lease : LeaseHandle) (call : EngineCall)
      (use_answer : EngineAnswer → Result Raised Answer) (d : Desk m s engine)
      → ((finally m s engine lease
            (excepted m s engine label (infer m s engine call use_answer d))).1.session.sent
          ≡ post_release lease ∷ d.session.sent)
        × ((finally m s engine lease
              (excepted m s engine label (infer m s engine call use_answer d))).1.calls
            ≡ call ∷ d.calls)
  unfolding release fetch
  finally-desk label lease call use_answer d =
      let t = excepted m s engine label (infer m s engine call use_answer d) in
      let before : t.1 ≡ _ =
        excepted-desk label (infer m s engine call use_answer d) ∙ infer-desk call use_answer d in
      let e =
        after_release-desk t.0 (release_lease m s engine lease t.1)
        ∙ release_lease-desk lease t.1 in
      (
        ap (λ x. x.session.sent) e ∙ ap (λ x. post_release lease ∷ x.session.sent) before,
        ap (λ x. x.calls) e ∙ ap (λ x. x.calls) before,
      )

  pub serve-Served :
      (label service id : String) (call : EngineCall)
      (use_answer : EngineAnswer → Result Raised Answer) (d : Desk m s engine)
      → Unserved service id d (serve m s engine label service id call use_answer d)
        ⊎ Served service id d (serve m s engine label service id call use_answer d)
  unfolding serve acquire_lease
  serve-Served label service id call use_answer d = settle (acquire m s service id d.session) refl
    where
      settle :
          (t : Result ClientError LeaseHandle × Session m s)
          → acquire m s service id d.session ≡ t
          → let end =
              resume m s engine
                (λ lease d1.
                  finally m s engine lease
                    (excepted m s engine label (infer m s engine call use_answer d1)))
                (of_client m s engine "Dispatcher acquisition error: " d t) in
            Unserved service id d end ⊎ Served service id d end
      settle (ok lease, n) h =
          let (sent, calls) = finally-desk label lease call use_answer (record d { session = n }) in
          inr (
            lease,
            call,
            ap (λ x. x.0) h,
            calls,
            sent ∙ ap (λ x. post_release lease ∷ x.1.sent) (sym h),
          )
      settle (err e, n) h = inl (e, ap (λ x. x.0) h, refl, ap (λ x. x.1) (sym h), refl)

  serve-Settled :
      (label service id : String) (call : EngineCall)
      (use_answer : EngineAnswer → Result Raised Answer) (d : Desk m s engine)
      → Settled service id d (serve m s engine label service id call use_answer d)
  serve-Settled label service id call use_answer d =
      inr (serve-Served label service id call use_answer d)

  resume-Settled :
      {A : Type 0}
      → (service id : String) (f : A → Step m s engine Answer) (r : Result Raised A)
        (d : Desk m s engine)
      → ((a : A) → Settled service id d (f a d))
      → Settled service id d (resume m s engine f (r, d))
  resume-Settled service id f (ok a) d g = g a
  resume-Settled service id f (err e) d g = inl (e, refl)

module _ (m : Network) (s : ClientSettings) (engine : EngineCall → m.World → EngineReply × m.World)
    (u : Upload) (limits : UploadLimits) where
  -- However a handler ends: it refuses the request, and no request was sent; or no lease was acquired, the
  -- dispatcher's error becomes the result, and no engine was called; or a lease was acquired, an engine
  -- was called once, and the release of this lease is the one request to the dispatcher since.
  pub handle-Settled :
      (q : ServiceRequest m s engine u limits) (id random : String) (now : ℕ) (d : Desk m s engine)
      → Settled m s engine
          (service_of m s engine u limits q)
          id
          d
          (handle m s engine u limits q id random now d)
  unfolding handle
  handle-Settled (transcription f w) id random now d =
      resume-Settled m s engine "stt" id _ (transcription_checked m s engine u limits f w) d
        (λ call. serve-Settled m s engine "STT" "stt" id call transcription_answer d)
  handle-Settled (speech payload) id random now d =
      resume-Settled m s engine "tts" id _ (speech_call payload) d
        (λ call. serve-Settled m s engine "TTS" "tts" id call speech_answer d)
  handle-Settled (chat payload) id random now d =
      resume-Settled m s engine "llm" id _ (chat_request payload) d
        (λ q. serve-Settled m s engine "LLM" "llm" id (chat_call q) (chat_answer random now q) d)
  handle-Settled (embeddings payload) id random now d =
      resume-Settled m s engine "embeddings" id _ (embeddings_call payload) d
        (λ call. serve-Settled m s engine "Embeddings" "embeddings" id call embeddings_answer d)
  handle-Settled (rerank payload) id random now d =
      resume-Settled m s engine "reranker" id _ (rerank_call payload) d
        (λ call. serve-Settled m s engine "Reranker" "reranker" id call rerank_answer d)
  handle-Settled (document f w) id random now d =
      resume-Settled m s engine "ocr" id _ (document_checked m s engine u limits f w) d
        (λ call. serve-Settled m s engine "OCR" "ocr" id call document_answer d)
