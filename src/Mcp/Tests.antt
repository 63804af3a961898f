-- ===== src/Mcp/Tests.antt =====
-- Runs of the MCP server at concrete calls.
use single_gpu_ai_services.Base.{
  ℕ, ◌≡◌, ◌⊎◌, refl, true, none, some, List, [], ◌∷◌, String, ok, err, arith, length, codes, ◌≤◌,
  ◌+◌, ◌*◌, ◌/◌,
}
use single_gpu_ai_services.Registry.Store.{Loaded}
use single_gpu_ai_services.Json.{null}
use single_gpu_ai_services.Base64.{symbol, value, encode, decode}
use single_gpu_ai_services.Registry.{
  Row, Fingerprint, Disk, forgotten, refresh, reload, bearer_token, identity_of, find_client,
  identify, authenticate,
}
use single_gpu_ai_services.Mcp.{
  invalid, too_large, insufficient_scope, decode_base64_payload, AccessToken, Post, GatewayReply,
  gateway_answered, ToolCall, embed_text, rerank_documents, several, post_of, tool_result, grant,
  current_client, McpServer, run_tool,
}
use single_gpu_ai_services.Mcp.Decoding.{decode_base64_payload-encode, decode_base64_payload-bounds}
use single_gpu_ai_services.Mcp.Access.{Silent, Spoke, run_tool-Spoke}
use single_gpu_ai_services.Mcp.Forwarding.{embeddings_outcome, rerank_outcome, calls-forwarded}
use single_gpu_ai_services.Gateway.Endpoints.{embeddings_call, rerank_call}
use single_gpu_ai_services.Mcp.{embed_fields, rerank_fields}

abbrev hola : List ℕ
hola = 104 ∷ 111 ∷ 108 ∷ 97 ∷ []

hola_encoded : encode hola ≡ "aG9sYQ=="
unfolding encode symbol
hola_encoded = refl

hola_decoded : decode_base64_payload "aG9sYQ==" 4 ≡ ok hola
unfolding decode_base64_payload decode value
hola_decoded = refl

not_base64 : decode_base64_payload "aG9s*Q==" 4 ≡ err invalid
unfolding decode_base64_payload decode value
not_base64 = refl

hola_too_large : decode_base64_payload "aG9sYQ==" 3 ≡ err too_large
unfolding decode_base64_payload decode value
hola_too_large = refl

decode_base64_payload-encode_example : decode_base64_payload (encode hola) 4 ≡ ok hola
decode_base64_payload-encode_example =
    decode_base64_payload-encode hola 4
      (omega arith, (omega arith, (omega arith, (omega arith, tt)))) (omega arith)

decode_base64_payload-bounds_example :
    (decode "aG9sYQ==" ≡ some hola)
    × (length hola ≤ 4)
    × (length (codes "aG9sYQ==") ≤ (4 + 2) / 3 * 4)
decode_base64_payload-bounds_example = decode_base64_payload-bounds "aG9sYQ==" 4 hola hola_decoded

abbrev agent_row : Row
agent_row = record {
  client_id = "agent";
  token_sha256 = "digest of t1";
  scopes = "embeddings" ∷ "gateway" ∷ "mcp" ∷ [];
  enabled = true;
  revoked_at = none;
}

abbrev agent_print : Fingerprint
agent_print = record { dev = 1; ino = 1; size = 200; mtime = 5; ctime = 5 }

abbrev agent_rows : Fingerprint → List Row
agent_rows f = agent_row ∷ []

abbrev agent_disk : Disk
agent_disk = record { stat = some agent_print; read = some (agent_row ∷ [], agent_print) }

abbrev agent_digest : List ℕ → String
agent_digest token = "digest of t1"

abbrev agent_access : AccessToken
agent_access = record { token = "t1"; client_id = "agent" }

abbrev counting : Post → ℕ → GatewayReply × ℕ
counting q n =
    (gateway_answered (record { json = some null; content_type = none; content = [] }), n)

abbrev agent_server : McpServer agent_digest 9 ℕ counting
agent_server = record { store = forgotten; world = 0; sent = [] }

abbrev embed_two : ToolCall
embed_two = embed_text (several ("hola" ∷ "adios" ∷ []))

embed_two_allowed :
    (run_tool agent_digest 9 ℕ counting embed_two (some agent_access) agent_disk agent_server).0
    ≡ ok null
unfolding run_tool current_client grant authenticate refresh reload identify bearer_token
    find_client identity_of post_of tool_result
embed_two_allowed = refl

abbrev rerank_one : ToolCall
rerank_one = rerank_documents "hola" ("adios" ∷ [])

rerank_one_denied :
    (run_tool agent_digest 9 ℕ counting rerank_one (some agent_access) agent_disk agent_server).0
    ≡ err insufficient_scope
unfolding run_tool current_client grant authenticate refresh reload identify bearer_token
    find_client identity_of post_of tool_result
rerank_one_denied = refl

agent_Loaded : Loaded agent_rows agent_server.store
agent_Loaded f e = ground arith

run_tool-Spoke_example :
    Silent agent_digest agent_rows 9 ℕ counting agent_server
      (run_tool agent_digest 9 ℕ counting embed_two (some agent_access) agent_disk agent_server).1
    ⊎ Spoke agent_digest agent_rows 9 ℕ counting "embeddings"
        (some agent_access)
        agent_disk
        agent_server
        (run_tool agent_digest 9 ℕ counting embed_two (some agent_access) agent_disk agent_server).1
run_tool-Spoke_example =
    run_tool-Spoke agent_digest agent_rows 9 ℕ counting embed_two (some agent_access) agent_disk
      agent_server refl agent_Loaded

calls-forwarded_example :
    (embeddings_call (embed_fields (several ("hola" ∷ [])))
      ≡ embeddings_outcome (several ("hola" ∷ [])))
    × (rerank_call (rerank_fields "hola" ("adios" ∷ [])) ≡ rerank_outcome "hola" ("adios" ∷ []))
calls-forwarded_example = calls-forwarded (several ("hola" ∷ [])) "hola" ("adios" ∷ [])
