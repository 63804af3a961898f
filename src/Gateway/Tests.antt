-- ===== src/Gateway/Tests.antt =====
-- Runs of the gateway's parts at concrete requests.
use single_gpu_ai_services.Base.{
  ℕ, ◌+◌, ◌≡◌, ◌≢◌, refl, true, false, some, List, [], ◌∷◌, String, arith, contains, ok, err,
}
use single_gpu_ai_services.Base.{zero, suc, ◌≤◌, min, ◌++◌, ap}
use single_gpu_ai_services.Gateway.Upload.{
  Upload, Reader, upload_too_large, read_chunks, read_upload, bounded, read_upload-bounded,
}
use single_gpu_ai_services.Gateway.Limits.{RequestCapacityLimiter, try_acquire, release}
use single_gpu_ai_services.Gateway.Middleware.{
  HttpRequest, Authentication, client, no_client, capability, capability_in, capabilities,
  required_scopes, rejected, admitted, is_limited, decide, take_slot, Server, ServerEvent, arrives,
  ends, leave, finish, handle, handle_all,
}
use single_gpu_ai_services.Gateway.Admission.{Counted, handle_all-Counted, decide_authorized}
use single_gpu_ai_services.Gateway.Client.{
  Body, Reply, replied, http_error, request_failed, out_of_fuel, ClientSettings, Network, Session,
  fetch, pause, ready, poll, attempt, guarded, take_lease, acquire,
}
use single_gpu_ai_services.Gateway.Client.Cancelling.{Finished, acquire-Finished}
use single_gpu_ai_services.Gateway.Client.Polling.{Clock, acquire-ne-out_of_fuel}

abbrev chat : HttpRequest
chat = record { method = "POST"; path = "/v1/chat/completions" }

abbrev chatter : Authentication
chatter = client ("gateway" ∷ "llm" ∷ [])

abbrev idle : RequestCapacityLimiter
idle = record { limit = 2; active = 0 }

-- Two slots: the third request is refused, and after one ended the next is admitted.
abbrev busy_day : List ServerEvent
busy_day =
    arrives 1 chat chatter
    ∷ arrives 2 chat chatter
    ∷ arrives 3 chat chatter
    ∷ arrives 4 chat no_client
    ∷ ends 1
    ∷ arrives 5 chat chatter
    ∷ []

abbrev empty_server : Server
empty_server = record { limiter = idle; running = [] }

busy_day-running :
    handle_all empty_server busy_day
    ≡ ok (record { limiter = record { limit = 2; active = 2 }; running = 5 ∷ 2 ∷ [] })
unfolding handle_all handle finish decide take_slot try_acquire release leave required_scopes
    capability capability_in capabilities
busy_day-running = refl

handle_all-Counted_example :
    (v' : Server) × (handle_all empty_server busy_day ≡ ok v') × Counted 2 v'
handle_all-Counted_example =
    handle_all-Counted 2 busy_day empty_server
      (record { counts = refl; bounded = omega arith; fixed = refl })

chat-admitted : (decide chat chatter idle).0 ≡ admitted
unfolding decide take_slot try_acquire required_scopes capability capability_in capabilities
chat-admitted = refl

admitted-ne-rejected : (n : ℕ) → admitted ≢ rejected n
admitted-ne-rejected n h = ground arith

chat-ne-rejected : (n : ℕ) → (decide chat chatter idle).0 ≢ rejected n
chat-ne-rejected n h = admitted-ne-rejected n (rw chat-admitted at h)

decide_authorized_example :
    (scopes : List String) × (chatter ≡ client scopes)
    × (contains "gateway" scopes ≡ true)
    × ((c : String) → capability chat.path ≡ some c → contains c scopes ≡ true)
    × (is_limited chat ≡ true → (decide chat chatter idle).0 ≡ admitted)
decide_authorized_example = decide_authorized chat chatter idle refl chat-ne-rejected

-- A network that answers from a list, and then refuses the connection.
pub record Wire : Type 0 where
  pub now : ℕ
  pub replies : List Reply

abbrev pub next_reply : List Reply → Reply × List Reply
next_reply [] = (http_error "connection refused", [])
next_reply (r ∷ rs) = (r, rs)

abbrev pub wire : Network
wire = record {
  World = Wire;
  time = λ w. (w.now, w);
  sleep = λ t w. (false, record w { now = w.now + t });
  send =
      λ q w. let (r, rs) = next_reply w.replies in (r, record { now = w.now + 1000; replies = rs });
}

abbrev pub client_settings : ClientSettings
client_settings = record {
  queue_wait = 30000000;
  startup_timeout = 120000000;
  poll_interval = 200000;
}

abbrev pub body : String → Body
body state = record { protocol = some 2; ready = true; epoch = some "e1"; state = some state }

abbrev line : Session wire client_settings
line = record {
  world = record {
    now = 7;
    replies = replied (body "idle") ∷ replied (body "queued") ∷ replied (body "queued") ∷ [];
  };
  sent = [];
}

wire-Clock : Clock wire client_settings
wire-Clock = record {
  now = λ w. w.now;
  time_reads = λ w. refl;
  time_later = λ w. omega arith;
  send_later = λ q w. omega arith;
  sleep_later = λ t w h. omega arith;
}

-- The connection breaks at the second poll.
line_fails :
    (acquire wire client_settings "llm" "a" line).0 ≡ err (request_failed "connection refused")
unfolding acquire take_lease guarded attempt poll pause ready fetch
line_fails = refl

acquire-Finished_example :
    Finished wire client_settings "llm" "a" [] (acquire wire client_settings "llm" "a" line)
acquire-Finished_example = acquire-Finished wire client_settings "llm" "a" line

acquire-ne-out_of_fuel_example : (acquire wire client_settings "llm" "a" line).0 ≢ err out_of_fuel
acquire-ne-out_of_fuel_example =
    acquire-ne-out_of_fuel wire client_settings wire-Clock "llm" "a" line (omega arith)

-- A file that gives at most two bytes at a time.
abbrev pub cut : ℕ → List ℕ → List ℕ × List ℕ
cut zero bs = ([], bs)
cut (suc n) [] = ([], [])
cut (suc n) (b ∷ bs) = let t = cut n bs in (b ∷ t.0, t.1)

abbrev pub pairs : Upload
pairs = record { World = List ℕ; read = λ n w. cut (min n 2) w }

cut-append : (n : ℕ) (bs : List ℕ) → bs ≡ (cut n bs).0 ++ (cut n bs).1
cut-append zero bs = refl
cut-append (suc n) [] = refl
cut-append (suc n) (b ∷ bs) = ap (λ v. b ∷ v) (cut-append n bs)

cut-nil : (n : ℕ) (bs : List ℕ) → 1 ≤ n → (cut n bs).0 ≡ [] → bs ≡ []
cut-nil zero bs h e = absurd (omega (arith, h))
cut-nil (suc n) [] h e = refl
cut-nil (suc n) (b ∷ bs) h e = ground arith

pairs-Reader : (limit : ℕ) → Reader pairs limit
pairs-Reader limit = record {
  rest = λ w. w;
  reads = λ n w. cut-append (min n 2) w;
  at_end = λ n w h e. cut-nil (min n 2) w (omega (arith, h)) e;
}

five : read_upload pairs 5 (1 ∷ 2 ∷ 3 ∷ 4 ∷ 5 ∷ []) ≡ ok (1 ∷ 2 ∷ 3 ∷ 4 ∷ 5 ∷ [])
unfolding read_upload read_chunks
five = refl

four : read_upload pairs 4 (1 ∷ 2 ∷ 3 ∷ 4 ∷ 5 ∷ []) ≡ err upload_too_large
unfolding read_upload read_chunks
four = refl

read_upload-bounded_example :
    read_upload pairs 5 (1 ∷ 2 ∷ 3 ∷ [])
    ≡ bounded pairs 5 (Reader.rest (pairs-Reader 5) (1 ∷ 2 ∷ 3 ∷ []))
read_upload-bounded_example = read_upload-bounded pairs 5 (pairs-Reader 5) (1 ∷ 2 ∷ 3 ∷ [])
