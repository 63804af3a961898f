-- ===== src/Mcp/Access.antt =====
-- Proofs about mcp/server.py: what the tools send, and on whose behalf.
use single_gpu_ai_services.Base.{
  ℕ, ◌≡◌, ◌⊎◌, refl, inl, inr, ap, ◌∙◌, true, Option, none, some, List, ◌∷◌, String, ◌+++◌,
  contains, Result, ok, err, arith, bind_ok,
}
use single_gpu_ai_services.Registry.{
  Row, Fingerprint, Answer as RegistryAnswer, ClientIdentity, Disk, TokenStore, answered,
  unavailable, bearer_token, authenticate,
}
use single_gpu_ai_services.Registry.Store.{Loaded, Faithful, In, Grants, authenticate-Grants}
use single_gpu_ai_services.Mcp.{
  AccessToken, ToolError, Post, GatewayReply, ToolCall, read_document, transcribe_audio,
  generate_speech, embed_text, rerank_documents, capability_of, as_value_error,
  decode_base64_payload, post_of, grant, current_client, McpServer, send_post, with_access,
  run_tool,
}

post_of-bearer :
    (max_file_bytes : ℕ) (bearer : String) (call : ToolCall) (q : Post)
    → post_of max_file_bytes bearer call ≡ ok q
    → q.bearer ≡ bearer
unfolding post_of
post_of-bearer max_file_bytes bearer (read_document filename content content_type) q h =
    let (bytes, e, h1) =
      bind_ok (as_value_error (decode_base64_payload content max_file_bytes)) _ q h in
    ground arith
post_of-bearer max_file_bytes bearer (transcribe_audio filename content content_type language) q h =
    let (bytes, e, h1) =
      bind_ok (as_value_error (decode_base64_payload content max_file_bytes)) _ q h in
    ground arith
post_of-bearer max_file_bytes bearer (generate_speech t) q h = ground arith
post_of-bearer max_file_bytes bearer (embed_text input) q h = ground arith
post_of-bearer max_file_bytes bearer (rerank_documents query documents) q h = ground arith

module _ (sha256 : List ℕ → String) (rows_of : Fingerprint → List Row) where
  -- The registry grants scopes to a token: a row of the file that was looked at or read has its digest and
  -- is in force.
  abbrev pub InForce : String → Disk → ClientIdentity → Type 0
  InForce token d i =
      (f : Fingerprint) × (presented : List ℕ) × (r : Row) × ((d.stat ≡ some f)
        ⊎ (d.read ≡ some (rows_of f, f)))
      × (bearer_token (some ("Bearer " +++ token)) ≡ some presented)
      × In r (rows_of f)
      × Grants (sha256 presented) none i r

  abbrev pub Permitted : String → ClientIdentity → Type 0
  Permitted capability i =
      (contains "mcp" i.scopes ≡ true)
      × (contains "gateway" i.scopes ≡ true)
      × (contains capability i.scopes ≡ true)

  abbrev pub HasAccess : AccessToken → String → Disk → Type 0
  HasAccess a capability d = (i : ClientIdentity) × Permitted capability i × InForce a.token d i

  grant-Permitted :
      (a b : AccessToken) (capability : String) (r : RegistryAnswer (Option ClientIdentity))
      → grant a capability r ≡ ok b
      → (b ≡ a) × ((i : ClientIdentity) × (r ≡ answered (some i)) × Permitted capability i)
  unfolding grant
  grant-Permitted a b capability unavailable h = ground arith
  grant-Permitted a b capability (answered none) h = ground arith
  grant-Permitted a b capability (answered (some i)) h =
      (ground arith, (i, refl, (ground arith, ground arith, ground arith)))

  current_client-HasAccess :
      (a b : AccessToken) (capability : String) (d : Disk) (t : TokenStore)
      → Faithful rows_of d.read
      → Loaded rows_of t
      → (current_client sha256 (some a) capability d t).0 ≡ ok b
      → (b ≡ a) × HasAccess a capability d
  unfolding current_client
  current_client-HasAccess a b capability d t faithful loaded h =
      let (same, (i, e, permitted)) =
        grant-Permitted a b capability
          (authenticate sha256 (some ("Bearer " +++ a.token)) none d t).0 h in
      (
        same,
        (
          i,
          permitted,
          authenticate-Grants sha256 rows_of (some ("Bearer " +++ a.token)) none d t i faithful
              loaded e,
        ),
      )

module _ (sha256 : List ℕ → String) (rows_of : Fingerprint → List Row) (max_file_bytes : ℕ)
    (World : Type 0) (post : Post → World → GatewayReply × World) where
  -- A tool sends nothing, or one request, with the session's token, which has access.
  abbrev pub Silent :
      McpServer sha256 max_file_bytes World post
      → McpServer sha256 max_file_bytes World post
      → Type 0
  Silent v v1 = v1.sent ≡ v.sent

  abbrev pub Spoke :
      String
      → Option AccessToken
      → Disk
      → McpServer sha256 max_file_bytes World post
      → McpServer sha256 max_file_bytes World post
      → Type 0
  Spoke capability access d v v1 =
      (a : AccessToken) × (q : Post) × (access ≡ some a)
      × (v1.sent ≡ q ∷ v.sent)
      × (q.bearer ≡ a.token)
      × HasAccess sha256 rows_of a capability d

  with_access-Spoke :
      (call : ToolCall) (a : AccessToken) (d : Disk)
      (v : McpServer sha256 max_file_bytes World post)
      (t : Result ToolError AccessToken × TokenStore)
      → ((b : AccessToken)
          → t.0 ≡ ok b
          → (b ≡ a) × HasAccess sha256 rows_of a (capability_of call) d)
      → Silent v (with_access sha256 max_file_bytes World post call v t).1
        ⊎ Spoke
            (capability_of call)
            (some a)
            d
            v
            (with_access sha256 max_file_bytes World post call v t).1
  with_access-Spoke call a d v (err e, t) h = inl refl
  with_access-Spoke call a d v (ok b, t) h = sending (post_of max_file_bytes b.token call) refl
    where
      sending :
          (r : Result ToolError Post)
          → post_of max_file_bytes b.token call ≡ r
          → Silent v (send_post sha256 max_file_bytes World post call (record v { store = t }) r).1
            ⊎ Spoke
                (capability_of call)
                (some a)
                d
                v
                (send_post sha256 max_file_bytes World post call (record v { store = t }) r).1
      sending (err e) k = inl refl
      sending (ok q) k =
          let (same, access) = h b refl in
          inr (
            a,
            q,
            refl,
            refl,
            post_of-bearer max_file_bytes b.token call q k ∙ ap (λ x. x.token) same,
            access,
          )

  -- With a store that holds the rows of its stamp: a tool sends nothing to the gateway, or it sends one
  -- request, with the access token of the session; and then a row of the registry file that was looked at
  -- or read at this call has the token's digest, is enabled and not revoked, and has the scopes "mcp",
  -- "gateway" and the tool's own.
  pub run_tool-Spoke :
      (call : ToolCall) (access : Option AccessToken) (d : Disk)
      (v : McpServer sha256 max_file_bytes World post)
      → Faithful rows_of d.read
      → Loaded rows_of v.store
      → Silent v (run_tool sha256 max_file_bytes World post call access d v).1
        ⊎ Spoke
            (capability_of call)
            access
            d
            v
            (run_tool sha256 max_file_bytes World post call access d v).1
  unfolding run_tool current_client
  run_tool-Spoke call none d v faithful loaded = inl refl
  run_tool-Spoke call (some a) d v faithful loaded =
      with_access-Spoke call a d v (current_client sha256 (some a) (capability_of call) d v.store)
        (λ b h.
          current_client-HasAccess sha256 rows_of a b (capability_of call) d v.store faithful loaded
            h)
