-- ===== src/Mcp/Decoding.antt =====
-- Proofs about `decode_base64_payload` of mcp/server.py.
use single_gpu_ai_services.Base.{
  ℕ, ◌+◌, ◌*◌, ◌/◌, ◌≤◌, ◌<◌, ◌≡◌, ap, ◌∙◌, some, List, String, if◌then◌else◌, leb, ltb, length,
  codes, All, ok, err, refuse_if, demand, arith, bind_ok, refuse_if_ok, demand_ok,
}
use single_gpu_ai_services.Base64.{encode, decode}
use single_gpu_ai_services.Base64.RoundTrip.{decode-encode, length-encode}
use single_gpu_ai_services.Mcp.{not_positive, too_large, invalid, decode_base64_payload}

-- Of the text that `b64encode` makes of bytes, `decode_base64_payload` gives back the bytes if there are
-- at most `max_bytes` of them, and otherwise raises that the payload is too large, for a positive bound.
pub decode_base64_payload-encode :
    (bs : List ℕ) (max_bytes : ℕ)
    → All (λ b. b < 256) bs
    → 1 ≤ max_bytes
    → decode_base64_payload (encode bs) max_bytes
      ≡ (if leb (length bs) max_bytes then ok bs else err too_large)
unfolding decode_base64_payload
decode_base64_payload-encode bs max_bytes h positive =
    rw (length-encode bs, decode-encode bs h) (ground (arith, positive))

-- What `decode_base64_payload` returns is the decoded text, and both the text and the bytes are within
-- the bounds.
pub decode_base64_payload-bounds :
    (value : String) (max_bytes : ℕ) (bs : List ℕ)
    → decode_base64_payload value max_bytes ≡ ok bs
    → (decode value ≡ some bs)
      × (length bs ≤ max_bytes)
      × (length (codes value) ≤ (max_bytes + 2) / 3 * 4)
unfolding decode_base64_payload
decode_base64_payload-bounds value max_bytes bs h =
    let (_, e1, h1) = bind_ok (refuse_if (leb max_bytes 0) not_positive) _ bs h in
    let (_, e2, h2) =
      bind_ok (refuse_if (ltb ((max_bytes + 2) / 3 * 4) (length (codes value))) too_large) _ bs
        h1 in
    let (decoded, e3, h3) = bind_ok (demand (decode value) invalid) _ bs h2 in
    let (_, e4, h4) = bind_ok (refuse_if (ltb max_bytes (length decoded)) too_large) _ bs h3 in
    let fits = refuse_if_ok (ltb max_bytes (length decoded)) too_large _ e4 in
    let same : decoded ≡ bs = ground (arith, e4, h4) in
    (
      demand_ok (decode value) invalid decoded e3 ∙ ap some same,
      ground (arith, fits, same),
      ground (
        arith,
        refuse_if_ok (ltb ((max_bytes + 2) / 3 * 4) (length (codes value))) too_large _ e2,
      ),
    )
