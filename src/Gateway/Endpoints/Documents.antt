-- ===== src/Gateway/Endpoints/Documents.antt =====
-- `read_document` of gateway/app/main.py: its checks, its call and its answer.
use single_gpu_ai_services.Base.{
  ℕ, false, some, List, [], ◌∷◌, String, ◌==◌, ◌+++◌, if◌then◌else◌, Result, ok, err, ◌>>=◌, demand,
  codes, starts_codes,
}
use single_gpu_ai_services.Json.{
  Json, bool, int, text, obj, end, field, items, get_or, member, as_dict, as_list, as_text,
}
use single_gpu_ai_services.Base64.{encode}
use single_gpu_ai_services.Gateway.Serving.{
  Raised, json_payload, EngineCall, EngineAnswer, Answer, json_answer, backend_json,
}
use single_gpu_ai_services.Gateway.Endpoints.{bad_request, bad_gateway, public_ocr_model, or_text}

-- `/v1/documents/read`
unfoldable pub file_type : String → Result Raised ℕ
file_type content_type =
    if content_type == "application/pdf"
    then ok 0
    else (if starts_codes (codes "image/") (codes content_type)
        then ok 1
        else err
            (bad_request ("Unsupported file type: " +++ or_text (some content_type) "unknown")))

abbrev pub document_call : ℕ → List ℕ → EngineCall
document_call kind bytes = record {
  url = "http://ai-ocr-api:8080/layout-parsing";
  payload = json_payload (
      field "file" (text (encode bytes)) (
        field "fileType" (int kind)
          (field "visualize" (bool false) (field "restructurePages" (bool false) end))));
}

unfoldable pub page_text : Json → Result Raised String
page_text value = do
  page ← demand (as_dict value) (bad_gateway "OCR backend response has invalid page schema")
  markdown ←
      demand (as_dict (get_or "markdown" (obj end) page))
        (bad_gateway "OCR backend response has invalid markdown schema")
  demand (as_text (get_or "text" (text "") markdown))
      (bad_gateway "OCR backend response has invalid text schema")

-- The texts that are not empty.
unfoldable pub text_parts : List Json → Result Raised (List String)
text_parts [] = ok []
text_parts (page ∷ pages) = do
  t ← page_text page
  rest ← text_parts pages
  ok (if t == "" then rest else t ∷ rest)

-- `separator.join(texts)`
abbrev pub join_after : String → List String → String
join_after separator [] = ""
join_after separator (t ∷ ts) = separator +++ (t +++ join_after separator ts)

abbrev pub join : String → List String → String
join separator [] = ""
join separator (t ∷ ts) = t +++ join_after separator ts

unfoldable pub document_answer : EngineAnswer → Result Raised Answer
document_answer a = do
  body ← backend_json "OCR" a
  pages ←
      demand (as_list (member "layoutParsingResults" (member "result" body)))
        (bad_gateway "OCR backend response has invalid schema")
  parts ← text_parts (items pages)
  ok (
      json_answer
        (obj (field "model" (text public_ocr_model) (field "text" (text (join "\n\n" parts)) end))))
