-- ===== src/Mcp/Forwarding.antt =====
-- Proofs about the MCP server in front of the gateway: mcp/server.py with gateway/app/main.py.
use single_gpu_ai_services.Base.{
  suc, ◌≡◌, refl, ap, Bool, not, ◌&&◌, List, [], ◌∷◌, String, if◌then◌else◌, leb, length, map,
  codes, any, all, is_space, Result, ok, err, arith,
}
use single_gpu_ai_services.Json.{text, array, count, end, field, get, equal}
use single_gpu_ai_services.Gateway.Serving.{json_payload, EngineCall, Raised}
use single_gpu_ai_services.Gateway.Endpoints.{
  bad_request, check_model, embeddings_call, rerank_call, all_filled, is_text_list,
}
use single_gpu_ai_services.Mcp.{
  EmbedInput, one, several, texts, embed_json, embed_fields, rerank_fields,
}

-- What `strip` leaves of a text is not empty.
abbrev pub is_filled_text : String → Bool
is_filled_text s = any (λ c. not (is_space c)) (codes s)

-- One to 32 texts, each with more than white space.
abbrev pub are_few_texts : List String → Bool
are_few_texts ss = leb 1 (length ss) && leb (length ss) 32 && all is_filled_text ss

abbrev pub is_valid_input : EmbedInput → Bool
is_valid_input (one s) = is_filled_text s
is_valid_input (several ss) = are_few_texts ss

count-texts : (ss : List String) → count (array (map text ss)) ≡ length ss
count-texts [] = refl
count-texts (s ∷ ss) = ap suc (count-texts ss)

all_filled-texts : (ss : List String) → all_filled (array (map text ss)) ≡ all is_filled_text ss
all_filled-texts [] = refl
all_filled-texts (s ∷ ss) = ap (λ b. is_filled_text s && b) (all_filled-texts ss)

is_text_list-texts : (ss : List String) → is_text_list (texts ss) ≡ are_few_texts ss
is_text_list-texts ss = rw (count-texts ss, all_filled-texts ss) refl

-- The call of the engine, if the texts are accepted.
abbrev pub embeddings_outcome : EmbedInput → Result Raised EngineCall
embeddings_outcome input =
    if is_valid_input input
    then ok (record {
      url = "http://ai-embeddings:8080/v1/embeddings";
      payload = json_payload (field "model" (text "bge-m3") (field "input" (embed_json input) end));
    })
    else err (bad_request "input must be non-empty text or a list of up to 32 texts")

abbrev pub rerank_outcome : String → List String → Result Raised EngineCall
rerank_outcome question documents =
    if not (is_filled_text question)
    then err (bad_request "query is required")
    else (if are_few_texts documents
        then ok (record {
          url = "http://ai-reranker:8080/rerank";
          payload =
              json_payload (field "query" (text question) (field "texts" (texts documents) end));
        })
        else err (bad_request "documents must contain 1 to 32 non-empty texts"))

embeddings_call-embed :
    (input : EmbedInput) → embeddings_call (embed_fields input) ≡ embeddings_outcome input
unfolding embeddings_call check_model equal get
embeddings_call-embed (one s) = ground arith
embeddings_call-embed (several ss) = ground (arith, is_text_list-texts ss)

rerank_call-rerank :
    (question : String) (documents : List String)
    → rerank_call (rerank_fields question documents) ≡ rerank_outcome question documents
unfolding rerank_call check_model equal get
rerank_call-rerank question documents = ground (arith, is_text_list-texts documents)

-- The gateway takes what `embed_text` sends to the engine with the same input, if that is one text with
-- more than white space or one to 32 such texts, and refuses it otherwise; and it takes what
-- `rerank_documents` sends to the engine with the same query and documents, if the query has more than
-- white space and the documents are one to 32 such texts, and refuses it otherwise.
pub calls-forwarded :
    (input : EmbedInput) (question : String) (documents : List String)
    → (embeddings_call (embed_fields input) ≡ embeddings_outcome input)
      × (rerank_call (rerank_fields question documents) ≡ rerank_outcome question documents)
calls-forwarded input question documents =
    (embeddings_call-embed input, rerank_call-rerank question documents)
