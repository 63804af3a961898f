-- ===== src/Gateway/Stream/Tests.antt =====
-- Runs of `buffered_sse` at concrete completions.
use single_gpu_ai_services.Base.{◌≡◌, refl, inl, true, List, [], ◌∷◌, ok, err}
use single_gpu_ai_services.Json.{Json, int, text, fraction, obj, Fields, end, field, get, set}
use single_gpu_ai_services.Gateway.Stream.{
  Event, invalid_content, not_compliant, has_irregular, emit, text_deltas, numbered, tool_deltas,
  text_chunks, call_chunks, message_chunks, choice_chunks, all_chunks, emit_each, usage_event,
  buffered_sse,
}
use single_gpu_ai_services.Gateway.Stream.Pieces.{buffered_sse-pieces}
use single_gpu_ai_services.Gateway.Stream.Chunks.{pieces, texts_in}

abbrev choice : Json → Json
choice content = obj (
    field "message"
      (obj (
        field "role" (text "assistant")
          (field "reasoning_content" (text "hm") (field "content" content end))))
      (field "finish_reason" (text "stop") end))

abbrev completion : Fields
completion =
    field "id" (text "c1")
      (field "created" (int 5) (field "usage" (obj (field "total_tokens" (int 3) end)) end))

abbrev two_choices : List Json
two_choices = choice (text "Hola") ∷ choice (text "") ∷ []

abbrev events_of : List Event
events_of = elim (buffered_sse "r" 0 completion two_choices true) [ ok es ↦ es | err e ↦ [] ]

two_choices_pieces : pieces "content" events_of ≡ "Hola" ∷ []
unfolding buffered_sse all_chunks choice_chunks message_chunks text_chunks call_chunks text_deltas
    numbered tool_deltas emit emit_each usage_event has_irregular get set
two_choices_pieces = refl

number_as_content : buffered_sse "r" 0 completion (choice (int 1) ∷ []) true ≡ err invalid_content
unfolding buffered_sse all_chunks choice_chunks message_chunks text_chunks call_chunks text_deltas
    numbered tool_deltas emit emit_each usage_event has_irregular get set
number_as_content = refl

irregular_usage :
    buffered_sse "r" 0 (field "usage" (fraction "nan") end) two_choices true ≡ err not_compliant
unfolding buffered_sse all_chunks choice_chunks message_chunks text_chunks call_chunks text_deltas
    numbered tool_deltas emit emit_each usage_event has_irregular get set
irregular_usage = refl

run_succeeds : buffered_sse "r" 0 completion two_choices true ≡ ok events_of
unfolding buffered_sse all_chunks choice_chunks message_chunks text_chunks call_chunks text_deltas
    numbered tool_deltas emit emit_each usage_event has_irregular get set
run_succeeds = refl

buffered_sse-pieces_example : pieces "content" events_of ≡ texts_in "content" two_choices
buffered_sse-pieces_example =
    buffered_sse-pieces "content" "r" 0 completion two_choices true events_of (inl refl)
      run_succeeds
