-- ===== src/Gateway/Stream.antt =====
-- `buffered_sse` of gateway/app/chat_stream.py.
--
-- An event is the object that `json.dumps` is given, or the end mark. The random part of an identifier
-- and the time are parameters. `emit` raises on NaN and infinite numbers, as `allow_nan=False` says.
pub mod Chunks
pub mod Pieces
mod Tests
use single_gpu_ai_services.Base.{
  ℕ, suc, Bool, true, false, not, ◌&&◌, ◌||◌, Option, none, some, List, [], ◌∷◌, ◌++◌, String, ◌==◌,
  ◌+++◌, if◌then◌else◌, is_some, Result, ok, err, ◌>>=◌, ◌>>◌, refuse_if, demand,
}
use single_gpu_ai_services.Json.{
  Json, null, bool, int, fraction, text, arr, obj, Items, nil, cons, Fields, end, field, items,
  array, get, get_or, set, as_dict, as_list, as_text, is_text, is_truthy,
}

-- The exceptions, which the caller handles alike.
pub data StreamError : Type 0 where
  invalid_message : StreamError
  invalid_content : StreamError
  invalid_tool_calls : StreamError
  invalid_tool_call : StreamError
  -- A choice that is no `dict` has no `get`.
  no_attribute : StreamError
  not_compliant : StreamError

abbrev pub is_irregular : String → Bool
is_irregular s = s == "nan" || s == "inf" || s == "-inf"

mutual
  pub has_irregular : Json → Bool
  has_irregular (fraction s) = is_irregular s
  has_irregular (arr xs) = has_irregular_items xs
  has_irregular (obj fs) = has_irregular_fields fs
  has_irregular _ = false

  pub has_irregular_items : Items → Bool
  has_irregular_items nil = false
  has_irregular_items (cons x xs) = has_irregular x || has_irregular_items xs

  pub has_irregular_fields : Fields → Bool
  has_irregular_fields end = false
  has_irregular_fields (field k v fs) = has_irregular v || has_irregular_fields fs

-- `a or b`
abbrev pub or_else : Json → Json → Json
or_else a b = if is_truthy a then a else b

-- `{'index': index, 'delta': delta, 'finish_reason': reason}`
abbrev pub choice_chunk : Json → Fields → Json → Json
choice_chunk index delta reason =
    obj (field "index" index (field "delta" (obj delta) (field "finish_reason" reason end)))

pub data Event : Type 0 where
  chunk : Fields → Event
  done : Event

-- `dict(common, choices=choices, **extra)`
abbrev pub with_choices : Fields → Items → Fields → Fields
with_choices common choices end = set "choices" (arr choices) common
with_choices common choices (field k v rest) = set k v (with_choices common choices rest)

unfoldable pub emit : Fields → Items → Fields → Result StreamError Event
unfolding has_irregular
emit common choices extra =
    let body = with_choices common choices extra in
    if has_irregular_fields body then err not_compliant else ok (chunk body)

abbrev pub common_fields : String → ℕ → Fields → Fields
common_fields random now body =
    field "id" (or_else (get_or "id" null body) (text ("chatcmpl-" +++ random))) (
      field "object" (text "chat.completion.chunk") (
        field "created" (get_or "created" (int now) body)
          (field "model" (get_or "model" (text "qwen3-8b") body) end)))

-- The chunk of one field of the message, if it has text.
unfoldable pub text_deltas : Json → String → Json → Result StreamError (List Json)
text_deltas index name null = ok []
text_deltas index name (text s) =
    if s == "" then ok [] else ok (choice_chunk index (field name (text s) end) null ∷ [])
text_deltas index name _ = err invalid_content

abbrev pub field_deltas : Json → Fields → String → Result StreamError (List Json)
field_deltas index message name = text_deltas index name (get_or name null message)

abbrev pub is_tool_call : Fields → Bool
is_tool_call call = elim (get_or "function" null call) [
  | obj fn ↦
      is_text (get_or "id" null call)
      && is_text (get_or "name" null fn)
      && is_text (get_or "arguments" null fn)
  | _ ↦ false
]

-- `dict(call, index=n)` of each call.
unfoldable pub numbered : ℕ → List Json → Result StreamError (List Json)
numbered n [] = ok []
numbered n (c ∷ cs) = do
  call ← demand (as_dict c) invalid_tool_call
  refuse_if (not (is_tool_call call)) invalid_tool_call
  rest ← numbered (suc n) cs
  ok (obj (set "index" (int n) call) ∷ rest)

unfoldable pub tool_deltas : Json → List Json → Result StreamError (List Json)
tool_deltas index [] = ok []
tool_deltas index (c ∷ cs) = do
  tools ← numbered 0 (c ∷ cs)
  ok (choice_chunk index (field "tool_calls" (arr (array tools)) end) null ∷ [])

abbrev pub is_empty : List Json → Bool
is_empty [] = true
is_empty (x ∷ xs) = false

-- `message.get('tool_calls') or []`
abbrev pub calls_of : Fields → Json
calls_of message = or_else (get_or "tool_calls" null message) (arr nil)

abbrev pub finish_reason : Fields → List Json → Json
finish_reason choice calls =
    or_else (get_or "finish_reason" null choice)
      (text (if is_empty calls then "stop" else "tool_calls"))

abbrev pub opening : Json → Json
opening index =
    choice_chunk index (field "role" (text "assistant") (field "content" (text "") end)) null

-- The chunks of one choice: the loop over the two texts, the tool calls with the last chunk, and both.
unfoldable pub text_chunks : Json → Fields → Result StreamError (List Json)
text_chunks index message = do
  reasoning ← field_deltas index message "reasoning_content"
  content ← field_deltas index message "content"
  ok (reasoning ++ content)

unfoldable pub call_chunks : Json → Fields → Fields → Result StreamError (List Json)
call_chunks index choice message = do
  calls ← demand (as_list (calls_of message)) invalid_tool_calls
  tools ← tool_deltas index (items calls)
  ok (tools ++ (choice_chunk index end (finish_reason choice (items calls)) ∷ []))

unfoldable pub message_chunks : Json → Fields → Fields → Result StreamError (List Json)
message_chunks index choice message = do
  texts ← text_chunks index message
  calls ← call_chunks index choice message
  ok (texts ++ calls)

-- The body of the loop over the choices.
unfoldable pub choice_chunks : ℕ → Json → Result StreamError (List Json)
choice_chunks ordinal value = do
  choice ← demand (as_dict value) no_attribute
  message ← demand (as_dict (get_or "message" null choice)) invalid_message
  rest ← message_chunks (get_or "index" (int ordinal) choice) choice message
  ok (opening (get_or "index" (int ordinal) choice) ∷ rest)

unfoldable pub all_chunks : ℕ → List Json → Result StreamError (List Json)
all_chunks ordinal [] = ok []
all_chunks ordinal (c ∷ cs) = do
  here ← choice_chunks ordinal c
  later ← all_chunks (suc ordinal) cs
  ok (here ++ later)

unfoldable pub emit_each : Fields → List Json → Result StreamError (List Event)
emit_each common [] = ok []
emit_each common (c ∷ cs) = do
  e ← emit common (cons c nil) end
  es ← emit_each common cs
  ok (e ∷ es)

unfoldable pub usage_event : Fields → Fields → Bool → Result StreamError (List Event)
usage_event common body false = ok []
usage_event common body true = do
  e ← emit common nil (field "usage" (get_or "usage" null body) end)
  ok (e ∷ [])

-- `buffered_sse`, given the list `body['choices']`. An exception loses all events, so it does not show
-- which of two is raised first.
unfoldable pub buffered_sse :
    String → ℕ → Fields → List Json → Bool → Result StreamError (List Event)
buffered_sse random now body choices include_usage = do
  chunks ← all_chunks 0 choices
  events ← emit_each (common_fields random now body) chunks
  usage ← usage_event (common_fields random now body) body include_usage
  ok (events ++ (usage ++ (done ∷ [])))

-- The text of an event, with `json.dumps` as a parameter.
abbrev pub frame : (Fields → String) → Event → String
frame dumps (chunk body) = "data: " +++ (dumps body +++ "\n\n")
frame dumps done = "data: [DONE]\n\n"

abbrev pub content : (Fields → String) → List Event → String
content dumps [] = ""
content dumps (e ∷ es) = frame dumps e +++ content dumps es
