-- ===== src/Gateway/Stream/Pieces.antt =====
-- Proofs about `buffered_sse` of gateway/app/chat_stream.py: what a client reads from the events.
use single_gpu_ai_services.Base.{
  ℕ, ◌≡◌, refl, sym, ap, ◌∙◌, Bool, true, false, none, some, List, [], ◌∷◌, ◌++◌, String, ok, arith,
  bind_ok,
}
use mathlib.Core.List.{append_assoc, append-nil}
use single_gpu_ai_services.Json.{Json, null, arr, Items, nil, cons, Fields, end, field, get_or, set}
use single_gpu_ai_services.Json.Laws.{get-set}
use single_gpu_ai_services.Gateway.Stream.{
  Event, chunk, done, emit, common_fields, all_chunks, emit_each, usage_event, buffered_sse,
}
use single_gpu_ai_services.Gateway.Stream.Chunks.{
  piece_of, pieces_in, choices_of, pieces, texts_in, IsTextField, all_chunks-Yields,
}

emit-chunk :
    (common : Fields) (cs : Items) (e : Event)
    → emit common cs end ≡ ok e
    → e ≡ chunk (set "choices" (arr cs) common)
unfolding emit
emit-chunk common cs e h = ground arith

pieces-emit :
    (name : String) (common : Fields) (c : Json) (e : Event) (es : List Event)
    → emit common (cons c nil) end ≡ ok e
    → pieces name (e ∷ es) ≡ piece_of name c ++ pieces name es
pieces-emit name common c e es h =
    ap (λ x. pieces name (x ∷ es)) (emit-chunk common (cons c nil) e h)
    ∙ ap (λ o. pieces_in name (choices_of (elim o [ none ↦ null | some v ↦ v ])) ++ pieces name es)
        (get-set "choices" "choices" (arr (cons c nil)) common)
    ∙ ap (λ t. t ++ pieces name es) (append-nil (piece_of name c))

emit_each-pieces :
    (name : String) (common : Fields) (cs : List Json) (es : List Event)
    → emit_each common cs ≡ ok es
    → pieces name es ≡ pieces_in name cs
unfolding emit_each
emit_each-pieces name common [] es h = ground arith
emit_each-pieces name common (c ∷ cs) es h =
    let (e, f, h1) = bind_ok (emit common (cons c nil) end) _ es h in
    let (later, g, h2) = bind_ok (emit_each common cs) _ es h1 in
    let ih = emit_each-pieces name common cs later g in
    ground (arith, pieces-emit name common c e later f)

pieces-emit_usage :
    (name : String) (common : Fields) (usage : Json) (e : Event) (es : List Event)
    → emit common nil (field "usage" usage end) ≡ ok e
    → pieces name (e ∷ es) ≡ pieces name es
unfolding emit
pieces-emit_usage name common usage e es h =
    let body = set "usage" usage (set "choices" (arr nil) common) in
    let is_chunk : e ≡ chunk body = ground arith in
    ap (λ x. pieces name (x ∷ es)) is_chunk
    ∙ ap (λ o. pieces_in name (choices_of (elim o [ none ↦ null | some v ↦ v ])) ++ pieces name es)
        (get-set "choices" "usage" usage (set "choices" (arr nil) common)
          ∙ get-set "choices" "choices" (arr nil) common)

usage_event-pieces :
    (name : String) (common body : Fields) (include_usage : Bool) (es : List Event)
    → usage_event common body include_usage ≡ ok es
    → pieces name (es ++ (done ∷ [])) ≡ []
unfolding usage_event
usage_event-pieces name common body false es h = ground arith
usage_event-pieces name common body true es h =
    let (e, f, h1) =
      bind_ok (emit common nil (field "usage" (get_or "usage" null body) end)) _ es h in
    ground (arith, pieces-emit_usage name common (get_or "usage" null body) e (done ∷ []) f)

pieces-append :
    (name : String) (ds es : List Event) → pieces name (ds ++ es) ≡ pieces name ds ++ pieces name es
pieces-append name [] es = refl
pieces-append name (done ∷ ds) es = pieces-append name ds es
pieces-append name (chunk body ∷ ds) es =
    let here = pieces_in name (choices_of (get_or "choices" null body)) in
    ap (λ t. here ++ t) (pieces-append name ds es)
    ∙ sym (append_assoc here (pieces name ds) (pieces name es))

-- When `buffered_sse` succeeds, what a client reads under "content" in the deltas of its events, in
-- their order, are the nonempty contents of the messages of the completion, in the order of the choices;
-- and the same under "reasoning_content".
pub buffered_sse-pieces :
    (name random : String) (now : ℕ) (body : Fields) (choices : List Json) (include_usage : Bool)
    (es : List Event)
    → IsTextField name
    → buffered_sse random now body choices include_usage ≡ ok es
    → pieces name es ≡ texts_in name choices
unfolding buffered_sse
buffered_sse-pieces name random now body choices include_usage es n h =
    let (chunks, e1, h1) = bind_ok (all_chunks 0 choices) _ es h in
    let (events, e2, h2) = bind_ok (emit_each (common_fields random now body) chunks) _ es h1 in
    let (usage, e3, h3) =
      bind_ok (usage_event (common_fields random now body) body include_usage) _ es h2 in
    let of_chunks = all_chunks-Yields name 0 choices n chunks e1 in
    let of_events = emit_each-pieces name (common_fields random now body) chunks events e2 in
    let of_usage =
      usage_event-pieces name (common_fields random now body) body include_usage usage e3 in
    ground
      (arith, pieces-append name events (usage ++ (done ∷ [])), append-nil (texts_in name choices))
