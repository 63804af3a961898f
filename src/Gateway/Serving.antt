-- ===== src/Gateway/Serving.antt =====
-- What the handlers of gateway/app/main.py share: `_backend_json`, `_acquire_lease`, `_release_lease`, and
-- the `try` around an inference.
--
-- The dispatcher client and the engines are reached over the same network. A desk notes the calls of
-- engines, the last one first, beside the client's session; a call that raises before it is sent counts.
use single_gpu_ai_services.Base.{ℕ, Option, List, ◌∷◌, String, ◌+++◌, Result, ok, err, demand}
use single_gpu_ai_services.Json.{Json, Fields, text}
use single_gpu_ai_services.Gateway.Stream.{Event}
use single_gpu_ai_services.Gateway.Client.{
  LeaseHandle, ClientError, incompatible_protocol, not_ready, ended, timed_out, request_failed,
  ClientSettings, Network, Session, acquire, release,
}

-- The detail of an exception: a text, or one followed by `str` of a value or of the client's exception.
pub data Detail : Type 0 where
  plain : String → Detail
  about : String → Json → Detail
  explained : String → ClientError → Detail

pub data Raised : Type 0 where
  http_exception : ℕ → Detail → Raised
  -- `TimeoutError`, and an `httpx.HTTPError` with its text.
  inference_timeout : Raised
  backend_error : String → Raised
  -- An exception of the dispatcher client that is not caught, the cancellation of the task among them.
  unhandled : ClientError → Raised
  -- Another exception of the request to the engine, with its text.
  uncaught : String → Raised

pub data Payload : Type 0 where
  json_payload : Fields → Payload
  query : Fields → Payload
  -- The file's name, its bytes and its type, and the form.
  form : String → List ℕ → String → Fields → Payload

pub record EngineCall : Type 0 where
  pub url : String
  pub payload : Payload

-- A response whose status is no error: `response.json()`, where it is JSON, and `response.content`.
pub record EngineAnswer : Type 0 where
  pub json : Option Json
  pub content : List ℕ

pub data EngineReply : Type 0 where
  engine_answered : EngineAnswer → EngineReply
  engine_timed_out : EngineReply
  engine_failed : String → EngineReply
  -- Another exception, such as `httpx.InvalidURL` or the ValueError of a payload that has no JSON.
  engine_raised : String → EngineReply
  engine_interrupted : EngineReply

-- What a handler returns.
pub data Answer : Type 0 where
  json_answer : Json → Answer
  wav : List ℕ → Answer
  event_stream : List Event → Answer

abbrev pub reply_result : EngineReply → Result Raised EngineAnswer
reply_result (engine_answered a) = ok a
reply_result engine_timed_out = err inference_timeout
reply_result (engine_failed e) = err (backend_error e)
reply_result (engine_raised e) = err (uncaught e)
reply_result engine_interrupted = err (unhandled ClientError.task_cancelled)

-- `_backend_json`
abbrev pub backend_json : String → EngineAnswer → Result Raised Json
backend_json label a =
    demand a.json (http_exception 502 (plain (label +++ " backend returned invalid JSON")))

-- `except (DispatcherAcquireError, httpx.HTTPError)`
abbrev pub client_failure : String → ClientError → Raised
client_failure before incompatible_protocol =
    http_exception 503 (explained before incompatible_protocol)
client_failure before not_ready = http_exception 503 (explained before not_ready)
client_failure before (ended state) = http_exception 503 (explained before (ended state))
client_failure before timed_out = http_exception 503 (explained before timed_out)
client_failure before (request_failed e) = http_exception 503 (explained before (request_failed e))
client_failure before e = unhandled e

-- The `except` clauses after an inference.
abbrev pub inference_failure : String → Raised → Raised
inference_failure label inference_timeout =
    http_exception 504 (plain (label +++ " inference timed out"))
inference_failure label (backend_error e) =
    http_exception 502 (about (label +++ " backend error: ") (text e))
inference_failure label r = r

module _ (m : Network) (s : ClientSettings)
    (engine : EngineCall → m.World → EngineReply × m.World) where
  pub record Desk : Type 0 where
    pub session : Session m s
    pub calls : List EngineCall

  abbrev pub Step : Type 0 → Type 0
  Step A = Desk → Result Raised A × Desk

  abbrev pub resume :
      {A B : Type 0} → (A → Step B) → Result Raised A × Desk → Result Raised B × Desk
  resume k (ok a, d) = k a d
  resume k (err e, d) = (err e, d)

  abbrev pub give : {A : Type 0} → Result Raised A → Step A
  give r d = (r, d)

  -- A method of the client, with what becomes of its exceptions.
  abbrev pub of_client :
      {A : Type 0} → String → Desk → Result ClientError A × Session m s → Result Raised A × Desk
  of_client before d (ok a, n) = (ok a, record d { session = n })
  of_client before d (err e, n) = (err (client_failure before e), record d { session = n })

  -- `_acquire_lease`, with the identifier that the client's factory gives.
  unfoldable pub acquire_lease : String → String → Step LeaseHandle
  acquire_lease service id d =
      of_client "Dispatcher acquisition error: " d (acquire m s service id d.session)

  unfoldable pub release_lease : LeaseHandle → Step (Unit {0})
  release_lease lease d =
      resume (λ b. give (ok tt))
        (of_client "Dispatcher release error: " d (release m s lease d.session))

  abbrev pub note_call :
      EngineCall → Desk → EngineReply × m.World → Result Raised EngineAnswer × Desk
  note_call call d (reply, w) = (
    reply_result reply,
    record { session = record d.session { world = w }; calls = call ∷ d.calls },
  )

  -- The request to the engine and `raise_for_status`.
  unfoldable pub ask : EngineCall → Step EngineAnswer
  ask call d = note_call call d (engine call d.session.world)

  -- The body of the `try`: the request, and what the handler makes of the response.
  abbrev pub infer : EngineCall → (EngineAnswer → Result Raised Answer) → Step Answer
  infer call use_answer d = resume (λ a. give (use_answer a)) (ask call d)

  abbrev pub excepted : String → Result Raised Answer × Desk → Result Raised Answer × Desk
  excepted label (ok a, d) = (ok a, d)
  excepted label (err e, d) = (err (inference_failure label e), d)

  -- `finally`: an exception of the release takes the place of the result.
  abbrev pub after_release :
      Result Raised Answer → Result Raised (Unit {0}) × Desk → Result Raised Answer × Desk
  after_release r (ok _, d) = (r, d)
  after_release r (err e, d) = (err e, d)

  abbrev pub finally : LeaseHandle → Result Raised Answer × Desk → Result Raised Answer × Desk
  finally lease (r, d) = after_release r (release_lease lease d)

  -- From the acquisition to the end of a handler.
  unfoldable pub serve :
      String → String → String → EngineCall → (EngineAnswer → Result Raised Answer) → Step Answer
  serve label service id call use_answer d =
      resume (λ lease d1. finally lease (excepted label (infer call use_answer d1)))
        (acquire_lease service id d)
