-- ===== src/Gateway/Stream/Chunks.antt =====
-- Proofs about the loop of `buffered_sse` of gateway/app/chat_stream.py: what stands in its chunks.
use single_gpu_ai_services.Base.{
  ℕ, suc, ◌≡◌, refl, sym, ap, subst, ◌∙◌, ◌⊎◌, inl, inr, Bool, some, List, [], ◌∷◌, ◌++◌, String,
  ◌==◌, if◌then◌else◌, Result, ok, err, ◌>>=◌, demand, arith, demand_ok,
}
use mathlib.Core.List.{append_assoc, append-nil}
use single_gpu_ai_services.Json.{
  Json, null, int, text, arr, obj, Fields, end, items, get, get_or, member, as_dict, as_list,
}
use single_gpu_ai_services.Gateway.Stream.{
  StreamError, no_attribute, invalid_message, invalid_tool_calls, choice_chunk, Event, chunk, done,
  field_deltas, text_deltas, tool_deltas, calls_of, finish_reason, opening, choice_chunks,
  all_chunks, text_chunks, call_chunks, message_chunks,
}

-- The text of a value, where it is text and not empty.
abbrev pub some_text : Json → List String
some_text (text s) = if s == "" then [] else s ∷ []
some_text _ = []

-- What a client finds under a name in the delta of a choice, and in the choices of an event.
abbrev pub piece_of : String → Json → List String
piece_of name choice = some_text (member name (member "delta" choice))

abbrev pub pieces_in : String → List Json → List String
pieces_in name [] = []
pieces_in name (c ∷ cs) = piece_of name c ++ pieces_in name cs

abbrev pub choices_of : Json → List Json
choices_of (arr xs) = items xs
choices_of _ = []

abbrev pub pieces : String → List Event → List String
pieces name [] = []
pieces name (done ∷ es) = pieces name es
pieces name (chunk body ∷ es) =
    pieces_in name (choices_of (get_or "choices" null body)) ++ pieces name es

-- The same of the choices of the completion.
abbrev pub texts_in : String → List Json → List String
texts_in name [] = []
texts_in name (c ∷ cs) = some_text (member name (member "message" c)) ++ texts_in name cs

-- The names under which a delta holds text.
abbrev pub IsTextField : String → Type 0
IsTextField name = (name ≡ "content") ⊎ (name ≡ "reasoning_content")

pieces_in-append :
    (name : String) (cs ds : List Json)
    → pieces_in name (cs ++ ds) ≡ pieces_in name cs ++ pieces_in name ds
pieces_in-append name [] ds = refl
pieces_in-append name (c ∷ cs) ds =
    ap (λ t. piece_of name c ++ t) (pieces_in-append name cs ds)
    ∙ sym (append_assoc (piece_of name c) (pieces_in name cs) (pieces_in name ds))

-- The chunks of one field of a message, read under a name.
abbrev if_same : Bool → List String → List String
if_same same ts = if same then ts else []

text_deltas-pieces :
    (name key : String) (index v : Json) (ds : List Json)
    → text_deltas index key v ≡ ok ds
    → pieces_in name ds ≡ if_same (key == name) (some_text v)
unfolding text_deltas get
text_deltas-pieces name key index null ds h = ground arith
text_deltas-pieces name key index (text s) ds h = ground arith
text_deltas-pieces name key index v ds h = ground arith

tool_deltas-pieces :
    (name : String) (index : Json) (cs ds : List Json)
    → IsTextField name
    → tool_deltas index cs ≡ ok ds
    → pieces_in name ds ≡ []
unfolding tool_deltas get
tool_deltas-pieces name index [] ds n h = ground arith
tool_deltas-pieces name index (c ∷ cs) ds (inl n) h = ground arith
tool_deltas-pieces name index (c ∷ cs) ds (inr n) h = ground arith

-- What the chunks have under a name, where a computation ends.
abbrev pub Yields : String → Result StreamError (List Json) → List String → Type 0
Yields name r ts = (ds : List Json) → r ≡ ok ds → pieces_in name ds ≡ ts

abbrev pub after : Json → Result StreamError (List Json) → Result StreamError (List Json)
after c r = r >>= λ ds. ok (c ∷ ds)

both-Yields :
    (name : String) (r s : Result StreamError (List Json)) (ts us : List String)
    → Yields name r ts
    → Yields name s us
    → Yields name (r >>= λ cs. s >>= λ ds. ok (cs ++ ds)) (ts ++ us)
both-Yields name (ok cs) (ok bs) ts us f g ds h =
    ground (arith, pieces_in-append name cs bs, f cs refl, g bs refl)
both-Yields name (ok cs) (err e) ts us f g ds h = ground arith
both-Yields name (err e) s ts us f g ds h = ground arith

then-Yields :
    {A : Type 0}
    → (name : String) (r : Result StreamError A) (f : A → Result StreamError (List Json))
      (ts : List String)
    → ((a : A) → r ≡ ok a → Yields name (f a) ts)
    → Yields name (r >>= f) ts
then-Yields name (ok a) f ts g ds h = g a refl ds h
then-Yields name (err e) f ts g ds h = ground arith

-- Of the two fields, a client reads one.
named_field :
    (name : String) (v : String → List String)
    → IsTextField name
    → if_same ("reasoning_content" == name) (v "reasoning_content")
        ++ if_same ("content" == name) (v "content")
      ≡ v name
named_field name v (inl e) =
    subst
      (λ m.
        if_same ("reasoning_content" == m) (v "reasoning_content")
          ++ if_same ("content" == m) (v "content")
        ≡ v m)
      (sym e) refl
named_field name v (inr e) =
    subst
      (λ m.
        if_same ("reasoning_content" == m) (v "reasoning_content")
          ++ if_same ("content" == m) (v "content")
        ≡ v m)
      (sym e) (append-nil (v "reasoning_content"))

text_chunks-Yields :
    (name : String) (index : Json) (message : Fields)
    → IsTextField name
    → Yields name (text_chunks index message) (some_text (get_or name null message))
unfolding text_chunks
text_chunks-Yields name index message n ds h =
    both-Yields name (field_deltas index message "reasoning_content")
      (field_deltas index message "content")
      (if_same ("reasoning_content" == name) (some_text (get_or "reasoning_content" null message)))
      (if_same ("content" == name) (some_text (get_or "content" null message)))
      (text_deltas-pieces name "reasoning_content" index (get_or "reasoning_content" null message))
      (text_deltas-pieces name "content" index (get_or "content" null message)) ds h
    ∙ named_field name (λ m. some_text (get_or m null message)) n

call_chunks-Yields :
    (name : String) (index : Json) (choice message : Fields)
    → IsTextField name
    → Yields name (call_chunks index choice message) []
unfolding call_chunks get
call_chunks-Yields name index choice message n =
    then-Yields name (demand (as_list (calls_of message)) invalid_tool_calls) _ [] (λ calls e.
      both-Yields name (tool_deltas index (items calls))
        (ok (choice_chunk index end (finish_reason choice (items calls)) ∷ [])) [] []
        (λ ds h. tool_deltas-pieces name index (items calls) ds n h) (λ ds h. ground arith))

message_chunks-Yields :
    (name : String) (index : Json) (choice message : Fields)
    → IsTextField name
    → Yields name (message_chunks index choice message) (some_text (get_or name null message))
unfolding message_chunks
message_chunks-Yields name index choice message n ds h =
    both-Yields name (text_chunks index message) (call_chunks index choice message)
      (some_text (get_or name null message)) [] (text_chunks-Yields name index message n)
      (call_chunks-Yields name index choice message n) ds h
    ∙ append-nil (some_text (get_or name null message))

as_dict-obj : (v : Json) (fs : Fields) → as_dict v ≡ some fs → v ≡ obj fs
as_dict-obj (obj gs) fs h = ground arith
as_dict-obj v fs h = ground arith

opening-Yields :
    (name : String) (index : Json) → IsTextField name → Yields name (ok (opening index ∷ [])) []
unfolding get
opening-Yields name index (inl n) ds h = subst (λ m. pieces_in m ds ≡ []) (sym n) (ground arith)
opening-Yields name index (inr n) ds h = subst (λ m. pieces_in m ds ≡ []) (sym n) (ground arith)

choice_chunks-Yields :
    (name : String) (ordinal : ℕ) (value : Json)
    → IsTextField name
    → Yields name (choice_chunks ordinal value) (some_text (member name (member "message" value)))
unfolding choice_chunks
choice_chunks-Yields name ordinal value n =
    then-Yields name (demand (as_dict value) no_attribute) _
      (some_text (member name (member "message" value)))
      (λ choice e.
        then-Yields name (demand (as_dict (get_or "message" null choice)) invalid_message) _
          (some_text (member name (member "message" value)))
          (λ message f ds h.
            both-Yields name (ok (opening (get_or "index" (int ordinal) choice) ∷ []))
              (message_chunks (get_or "index" (int ordinal) choice) choice message) []
              (some_text (get_or name null message))
              (opening-Yields name (get_or "index" (int ordinal) choice) n)
              (message_chunks-Yields name (get_or "index" (int ordinal) choice) choice message n) ds
              h
            ∙ ap (λ v. some_text (member name v))
                (sym (as_dict-obj (get_or "message" null choice) message (demand_ok _ _ message f)))
            ∙ ap (λ v. some_text (member name (member "message" v)))
                (sym (as_dict-obj value choice (demand_ok _ _ choice e)))))

pub all_chunks-Yields :
    (name : String) (ordinal : ℕ) (choices : List Json)
    → IsTextField name
    → Yields name (all_chunks ordinal choices) (texts_in name choices)
unfolding all_chunks
all_chunks-Yields name ordinal [] n = λ ds h. ground arith
all_chunks-Yields name ordinal (c ∷ cs) n =
    both-Yields name (choice_chunks ordinal c) (all_chunks (suc ordinal) cs)
      (some_text (member name (member "message" c))) (texts_in name cs)
      (choice_chunks-Yields name ordinal c n) (all_chunks-Yields name (suc ordinal) cs n)
