-- ===== src/Gateway/Handlers/Tests.antt =====
-- Runs of the gateway's handlers at concrete requests.
use single_gpu_ai_services.Base.{◌≡◌, refl, false, some, [], ◌∷◌, ok, err}
use single_gpu_ai_services.Json.{
  Json, bool, int, text, arr, obj, nil, cons, Fields, end, field, get, set, equal,
}
use single_gpu_ai_services.Gateway.Client.{
  replied, post_release, ready, fetch, pause, attempt, poll, guarded, take_lease, acquire, release,
}
use single_gpu_ai_services.Gateway.Client.Cancelling.{first}
use single_gpu_ai_services.Gateway.Tests.{Wire, wire, client_settings, body, pairs}
use single_gpu_ai_services.Gateway.Serving.{
  EngineCall, EngineReply, engine_answered, engine_failed, engine_raised, uncaught, json_answer,
  Desk, acquire_lease, release_lease, ask, serve,
}
use single_gpu_ai_services.Gateway.Endpoints.{check_model, embeddings_call, embeddings_answer}
use single_gpu_ai_services.Gateway.Endpoints.Chat.{pick, backend_payload_of, chat_payload}
use single_gpu_ai_services.Gateway.Endpoints.Whitelist.{forwarded, chat_payload-forwarded}
use single_gpu_ai_services.Gateway.Handlers.{UploadLimits, ServiceRequest, embeddings, handle}
use single_gpu_ai_services.Gateway.Handlers.Leasing.{Settled, handle-Settled}
use single_gpu_ai_services.Gateway.Handlers.Statuses.{Statuses, handle-Statuses}
use single_gpu_ai_services.Gateway.Handlers.Answered.{Behind, handle-Behind}

abbrev vectors : Json
vectors = obj (field "data" (arr nil) end)

abbrev one_engine : EngineCall → Wire → EngineReply × Wire
one_engine call w = (engine_answered (record { json = some vectors; content = [] }), w)

abbrev broken_engine : EngineCall → Wire → EngineReply × Wire
broken_engine call w = (engine_failed "reset", w)

abbrev limits : UploadLimits
limits = record { max_stt = 4; max_ocr = 4 }

abbrev desk_of :
    (engine : EngineCall → Wire → EngineReply × Wire) → Desk wire client_settings engine
desk_of engine = record {
  session = record {
    world = record {
      now = 7;
      replies = replied (body "idle") ∷ replied (body "active") ∷ replied (body "released") ∷ [];
    };
    sent = [];
  };
  calls = [];
}

abbrev request : Fields
request = field "input" (text "hola") end

abbrev embed :
    (engine : EngineCall → Wire → EngineReply × Wire)
    → ServiceRequest wire client_settings engine pairs limits
embed engine = embeddings request

embed_answered :
    (handle wire client_settings one_engine pairs limits
      (embed one_engine)
      "a"
      "r"
      0
      (desk_of one_engine)).0
    ≡ ok (json_answer vectors)
unfolding handle serve acquire_lease release_lease ask release acquire ready take_lease guarded
    attempt poll pause fetch embeddings_call embeddings_answer check_model equal get
embed_answered = refl

abbrev refusing_engine : EngineCall → Wire → EngineReply × Wire
refusing_engine call w = (engine_raised "URL too long", w)

-- The exception comes through, after the release of the lease.
embed_raised :
    ((handle wire client_settings refusing_engine pairs limits
        (embed refusing_engine)
        "a"
        "r"
        0
        (desk_of refusing_engine)).0
      ≡ err (uncaught "URL too long"))
    × (first
          (handle wire client_settings refusing_engine pairs limits
            (embed refusing_engine)
            "a"
            "r"
            0
            (desk_of refusing_engine)).1.session.sent
        ≡ some (post_release (record { request_id = "a"; service = "embeddings"; epoch = "e1" })))
unfolding handle serve acquire_lease release_lease ask release acquire ready take_lease guarded
    attempt poll pause fetch embeddings_call embeddings_answer check_model equal get
embed_raised = (refl, refl)

handle-Settled_example :
    Settled wire client_settings broken_engine "embeddings" "a" (desk_of broken_engine) (
      handle wire client_settings broken_engine pairs limits
        (embed broken_engine)
        "a"
        "r"
        0
        (desk_of broken_engine))
handle-Settled_example =
    handle-Settled wire client_settings broken_engine pairs limits (embed broken_engine) "a" "r" 0
      (desk_of broken_engine)

handle-Statuses_example :
    Statuses wire client_settings broken_engine "embeddings" "a" (desk_of broken_engine) (
      handle wire client_settings broken_engine pairs limits
        (embed broken_engine)
        "a"
        "r"
        0
        (desk_of broken_engine))
handle-Statuses_example =
    handle-Statuses wire client_settings broken_engine pairs limits (embed broken_engine) "a" "r" 0
      (desk_of broken_engine)

handle-Behind_example : Behind wire client_settings one_engine "embeddings" "a" (desk_of one_engine)
handle-Behind_example =
    handle-Behind wire client_settings one_engine pairs limits (embed one_engine) "a" "r" 0
      (desk_of one_engine) (json_answer vectors) embed_answered

abbrev chat_fields : Fields
chat_fields = field "messages" (arr (cons (text "hola") nil)) (
    field "max_completion_tokens" (int 9)
      (field "model" (text "qwen3-8b") (field "user" (text "x") end)))

abbrev chat_backend : Fields
chat_backend = field "model" (text "qwen3-8b") (
    field "messages" (arr (cons (text "hola") nil))
      (field "max_tokens" (int 9) (field "stream" (bool false) end)))

chat_accepted : chat_payload chat_fields ≡ ok chat_backend
unfolding chat_payload check_model backend_payload_of pick equal get set
chat_accepted = refl

chat_payload-forwarded_example : get "max_tokens" chat_backend ≡ forwarded "max_tokens" chat_fields
chat_payload-forwarded_example =
    chat_payload-forwarded "max_tokens" chat_fields chat_backend chat_accepted
