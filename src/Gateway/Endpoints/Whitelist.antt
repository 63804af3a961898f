-- ===== src/Gateway/Endpoints/Whitelist.antt =====
-- Proofs about `chat_completions` of gateway/app/main.py: what it sends to the language model.
use single_gpu_ai_services.Base.{
  ◌≡◌, refl, sym, ap, ◌∙◌, Bool, true, false, not, ◌||◌, Option, none, some, List, [], ◌∷◌, String,
  ◌==◌, eq_iff, if◌then◌else◌, ok, refuse_if, arith, contains, bind_ok, Bool-cases, inl, inr,
}
use single_gpu_ai_services.Json.{Json, null, bool, text, Fields, get, get_or, set}
use single_gpu_ai_services.Json.Laws.{get-set}
use single_gpu_ai_services.Gateway.Endpoints.{bad_request, check_model, public_llm_model}
use single_gpu_ai_services.Gateway.Endpoints.Chat.{
  allowed_fields, put_if, pick, with_limit, is_nonempty_list, backend_payload_of, chat_payload,
}

get-put_if :
    (key k : String) (o : Option Json) (rest : Fields)
    → get key (put_if k o rest)
      ≡ elim o [ none ↦ get key rest | some v ↦ if k == key then some v else get key rest ]
unfolding get
get-put_if key k none rest = refl
get-put_if key k (some v) rest = refl

get-pick :
    (key : String) (keys : List String) (fs : Fields)
    → get key (pick keys fs) ≡ (if contains key keys then get key fs else none)
unfolding pick get
get-pick key [] fs = refl
get-pick key (k ∷ keys) fs =
    get-put_if key k (get k fs) (pick keys fs)
    ∙ picked key k (contains key keys) (get k fs) (get key fs) (get key (pick keys fs))
        (get-pick key keys fs) (λ e. ap (λ j. get j fs) ((eq_iff k key).0 e))
  where
    picked :
        (key k : String) (listed : Bool) (o p rest : Option Json)
        → rest ≡ (if listed then p else none)
        → ((k == key) ≡ true → o ≡ p)
        → elim o [ none ↦ rest | some v ↦ if k == key then some v else rest ]
          ≡ (if (k == key) || listed then p else none)
    picked key k listed none p rest h same = elim (Bool-cases (k == key)) [
      | inl e ↦ ground (arith, same e, e, h)
      | inr e ↦ ground (arith, e, h)
    ]
    picked key k listed (some v) p rest h same = elim (Bool-cases (k == key)) [
      | inl e ↦ ground (arith, same e, e, h)
      | inr e ↦ ground (arith, e, h)
    ]

-- The value that a request gives under a name, with the limit of the tokens under its old name.
abbrev pub requested : String → Fields → Option Json
requested key payload = elim (get "max_completion_tokens" payload) [
  | none ↦ get key payload
  | some limit ↦ if "max_tokens" == key then some limit else get key payload
]

-- What the language model is sent under a name.
abbrev pub forwarded : String → Fields → Option Json
forwarded key payload =
    if "stream" == key
    then some (bool false)
    else (if "model" == key
        then some (text public_llm_model)
        else (if contains key allowed_fields then requested key payload else none))

with_limit-requested :
    (key : String) (payload limited : Fields) (a b : Option Json)
    → get "max_completion_tokens" payload ≡ a
    → with_limit payload a b ≡ ok limited
    → get key limited ≡ requested key payload
with_limit-requested key payload limited none b e h = ground arith
with_limit-requested key payload limited (some v) none e h =
    ground (arith, get-set key "max_tokens" v payload)
with_limit-requested key payload limited (some v) (some w) e h =
    ground (arith, get-set key "max_tokens" v payload)

get-backend_payload_of :
    (key : String) (limited : Fields)
    → get key (backend_payload_of limited) ≡ (
        if "stream" == key
        then some (bool false)
        else (if "model" == key
            then some (text public_llm_model)
            else (if contains key allowed_fields then get key limited else none)))
unfolding backend_payload_of
get-backend_payload_of key limited =
    get-set key "stream" (bool false)
      (set "model" (text public_llm_model) (pick allowed_fields limited))
    ∙ ap (λ o. if "stream" == key then some (bool false) else o)
        (get-set key "model" (text public_llm_model) (pick allowed_fields limited)
          ∙ ap (λ o. if "model" == key then some (text public_llm_model) else o)
              (get-pick key allowed_fields limited))

-- What `chat_completions` sends to the language model under a name, when it accepts a request: under
-- "stream" `False`, under "model" the public model, and under another of the allowed names what the request
-- has there, with `max_completion_tokens`, if it is given, as the value of "max_tokens"; no other name is
-- sent.
pub chat_payload-forwarded :
    (key : String) (payload backend : Fields)
    → chat_payload payload ≡ ok backend
    → get key backend ≡ forwarded key payload
unfolding chat_payload
chat_payload-forwarded key payload backend h =
    let (limited, e, h1) =
      bind_ok (with_limit payload (get "max_completion_tokens" payload) (get "max_tokens" payload))
        _ backend h in
    let (_, e2, h2) =
      bind_ok (check_model public_llm_model (get_or "model" (text public_llm_model) limited)) _
        backend h1 in
    let (_, e3, h3) =
      bind_ok
        (refuse_if (not (is_nonempty_list (get_or "messages" null limited)))
          (bad_request "messages must be a non-empty list"))
        _ backend h2 in
    let sent : backend_payload_of limited ≡ backend = ground (arith, h3) in
    ap (get key) (sym sent)
    ∙ get-backend_payload_of key limited
    ∙ ap
        (λ o.
          if "stream" == key
          then some (bool false)
          else (if "model" == key
              then some (text public_llm_model)
              else (if contains key allowed_fields then o else none)))
        (with_limit-requested key payload limited (get "max_completion_tokens" payload)
          (get "max_tokens" payload) refl e)
