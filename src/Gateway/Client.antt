-- ===== src/Gateway/Client.antt =====
-- `DispatcherClient` of gateway/app/dispatcher_client.py.
--
-- The network is a parameter: what each request is answered, the time, and whether the task is cancelled
-- while it waits for an answer or sleeps; the end of `async with` is not a point of cancellation. Times
-- are whole microseconds. The session notes the requests that were sent, the last one first. The loop of `acquire` is a recursion on fuel.
pub mod Cancelling
pub mod Polling
use single_gpu_ai_services.Base.{
  ℕ, zero, suc, ◌+◌, ◌≡◌, Bool, true, false, not, ◌||◌, Option, none, some, List, [], ◌∷◌, String,
  ◌==◌, if◌then◌else◌, leb, eqb, contains, Result, ok, err, or_default,
}

abbrev pub protocol_version : ℕ
protocol_version = 2

abbrev pub terminal_states : List String
terminal_states = "released" ∷ "cancelled" ∷ "expired" ∷ "failed" ∷ []

pub record LeaseHandle : Type 0 where
  pub request_id : String
  pub service : String
  pub epoch : String

pub data ClientRequest : Type 0 where
  get_ready : ClientRequest
  post_acquire : LeaseHandle → ℕ → ClientRequest
  get_lease : LeaseHandle → ClientRequest
  post_release : LeaseHandle → ClientRequest
  post_cancel : LeaseHandle → ClientRequest

-- The fields of a JSON body that the client reads, where they are present.
pub record Body : Type 0 where
  pub protocol : Option ℕ
  pub ready : Bool
  pub epoch : Option String
  pub state : Option String

-- What a request comes to: a body, an error of the transport or the status, a body that is no JSON, or
-- the cancellation of the task.
pub data Reply : Type 0 where
  replied : Body → Reply
  http_error : String → Reply
  not_json : Reply
  interrupted : Reply

pub data ClientError : Type 0 where
  incompatible_protocol : ClientError
  not_ready : ClientError
  missing_epoch : ClientError
  ended : String → ClientError
  timed_out : ClientError
  request_failed : String → ClientError
  invalid_json : ClientError
  task_cancelled : ClientError
  -- No exception: the fuel of the model is used up.
  out_of_fuel : ClientError

pub record ClientSettings : Type 0 where
  pub queue_wait : ℕ
  pub startup_timeout : ℕ
  pub poll_interval : ℕ

-- `sleep` says whether the task is cancelled meanwhile.
pub record Network : Type 1 where
  pub World : Type 0
  pub time : World → ℕ × World
  pub sleep : ℕ → World → Bool × World
  pub send : ClientRequest → World → Reply × World

abbrev pub body_of : Reply → Result ClientError Body
body_of (replied b) = ok b
body_of (http_error e) = err (request_failed e)
body_of not_json = err invalid_json
body_of interrupted = err task_cancelled

abbrev pub state_of : Body → String
state_of b = or_default b.state ""

-- What a state says of the acquisition: it succeeded, it ended, or it goes on.
abbrev pub judge : String → Option (Result ClientError (Unit {0}))
judge state =
    if state == "active"
    then some (ok tt)
    else (if contains state terminal_states then some (err (ended state)) else none)

abbrev pub has_protocol : Option ℕ → Bool
has_protocol none = false
has_protocol (some p) = eqb p protocol_version

abbrev pub epoch_of : Option String → Result ClientError String
epoch_of none = err missing_epoch
epoch_of (some e) = ok e

module _ (m : Network) (s : ClientSettings) where
  pub record Session : Type 0 where
    pub world : m.World
    pub sent : List ClientRequest

  abbrev pub Action : Type 0 → Type 0
  Action A = Session → Result ClientError A × Session

  abbrev pub resume :
      {A B : Type 0}
      → (A → Action B)
      → Result ClientError A × Session
      → Result ClientError B × Session
  resume k (ok a, w) = k a w
  resume k (err e, w) = (err e, w)

  infixl 5 ◌>>=◌ ◌>>◌
  abbrev pub ◌>>=◌ : {A B : Type 0} → Action A → (A → Action B) → Action B
  ◌>>=◌ f k w = resume k (f w)

  abbrev pub ◌>>◌ : {A B : Type 0} → Action A → Action B → Action B
  f >> k = f >>= λ _. k

  abbrev pub give : {A : Type 0} → Result ClientError A → Action A
  give r w = (r, w)

  abbrev pub raise_if : Bool → ClientError → Action (Unit {0})
  raise_if test e w = (if test then err e else ok tt, w)

  unfoldable pub fetch : ClientRequest → Action Body
  fetch q n =
      let (reply, w) = m.send q n.world in (body_of reply, record { world = w; sent = q ∷ n.sent })

  abbrev pub read_time : Action ℕ
  read_time n = let (t, w) = m.time n.world in (ok t, record n { world = w })

  unfoldable pub pause : Action (Unit {0})
  pause n =
      let (cut, w) = m.sleep s.poll_interval n.world in
      (if cut then err task_cancelled else ok tt, record n { world = w })

  -- `ready`
  unfoldable pub ready : Action Body
  ready = do
    b ← fetch get_ready
    raise_if (not (has_protocol b.protocol)) incompatible_protocol
    give (ok b)

  -- The tests of `state` after a response.
  abbrev pub follow :
      LeaseHandle → Option (Result ClientError (Unit {0})) → Action LeaseHandle → Action LeaseHandle
  follow lease (some (ok _)) again n = (ok lease, n)
  follow lease (some (err e)) again n = (err e, n)
  follow lease none again n = again n

  -- The `while` loop of `acquire`.
  unfoldable pub poll : LeaseHandle → ℕ → ℕ → Action LeaseHandle
  poll lease deadline zero n = (err out_of_fuel, n)
  poll lease deadline (suc fuel) n =
      (read_time >>= λ now. raise_if (leb deadline now) timed_out >>= λ _.
      fetch (get_lease lease) >>= λ b.
      follow lease (judge (state_of b)) (pause >>= λ _. poll lease deadline fuel))
        n

  -- How long `acquire` polls, and fuel for it: one turn for each microsecond.
  abbrev pub patience : ℕ
  patience = s.queue_wait + (s.startup_timeout + 5000000)

  -- The body of the `try`.
  unfoldable pub attempt : LeaseHandle → Action LeaseHandle
  attempt lease = do
    b ← fetch (post_acquire lease s.queue_wait)
    follow lease (judge (state_of b))
        (read_time >>= λ now. poll lease (now + patience) (suc patience))

  -- `_best_effort_cancel`, after which the exception is raised again.
  abbrev pub raise_again :
      ClientError → Result ClientError Body × Session → Result ClientError LeaseHandle × Session
  raise_again e (err task_cancelled, n) = (err task_cancelled, n)
  raise_again e (_, n) = (err e, n)

  unfoldable pub guarded :
      LeaseHandle
      → Result ClientError LeaseHandle × Session
      → Result ClientError LeaseHandle × Session
  guarded lease (ok l, n) = (ok l, n)
  guarded lease (err e, n) = raise_again e (fetch (post_cancel lease) n)

  -- `acquire` after the response of `/ready`.
  unfoldable pub take_lease : String → String → Body → Action LeaseHandle
  take_lease service request_id b = do
    raise_if (not b.ready) not_ready
    epoch ← give (epoch_of b.epoch)
    λ n.
        (let lease : LeaseHandle = record {
          request_id = request_id;
          service = service;
          epoch = epoch;
        } in
          guarded lease (attempt lease n))

  -- `acquire`, with the identifier that the factory gives.
  unfoldable pub acquire : String → String → Action LeaseHandle
  acquire service request_id = ready >>= take_lease service request_id

  unfoldable pub release : LeaseHandle → Action Body
  release lease = fetch (post_release lease)

  unfoldable pub cancel : LeaseHandle → Action Body
  cancel lease = fetch (post_cancel lease)
