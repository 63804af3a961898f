-- ===== src/Registry/Validation/Rows.antt =====
-- Proofs about the rows that `validate_registry` of client_access/registry.py makes.
use single_gpu_ai_services.Base.{
  ◌≡◌, refl, inl, inr, sym, ap, subst, ◌∙◌, Bool, true, false, ◌&&◌, none, some, List, [], ◌∷◌,
  String, ◌==◌, eq_iff, eq_refl, if◌then◌else◌, contains, map, Result, ok, err, demand, arith,
  Bool-cases, bind_ok,
}
use single_gpu_ai_services.Json.{
  Json, null, bool, text, arr, Fields, items, array, get, get_or, set, as_text, is_truthy,
}
use single_gpu_ai_services.Json.Laws.{get-set}
use single_gpu_ai_services.Registry.{Row, is_revoked}
use single_gpu_ai_services.Registry.Scopes.{
  has_duplicates, validate_scopes, validate_scopes-gateway,
}
use single_gpu_ai_services.Registry.Validation.{
  scopes_no_texts, is_client_id, text_list, as_texts, checked_scopes, scopes_of, checked_row,
  text_of, some_texts, row_of,
}

-- Texts that differ from each other and from those seen before.
abbrev pub IsNew : List String → List String → Type 0
IsNew seen ss =
    (has_duplicates ss ≡ false) × ((s : String) → contains s seen ≡ true → contains s ss ≡ false)

pub clash :
    (seen : List String) (t s : String)
    → (t == s) ≡ true
    → contains s seen ≡ true
    → contains t seen ≡ false
    → ⊥
clash seen t s same e h =
    let e' : contains t seen ≡ true =
      subst (λ u. contains u seen ≡ true) (sym ((eq_iff t s).0 same)) e in
    ground (arith, e', h)

pub IsNew-cons :
    (seen : List String) (t : String) (ts : List String)
    → contains t seen ≡ false
    → IsNew (t ∷ seen) ts
    → IsNew seen (t ∷ ts)
IsNew-cons seen t ts h (d, f) = (
  ground (arith, d, f t (ground (arith, eq_refl t))),
  λ s e. elim (Bool-cases (t == s)) [
    | inl same ↦ absurd (clash seen t s same e h)
    | inr other ↦ ground (arith, other, f s (ground (arith, e)))
  ],
)

pub get-checked_row :
    (key : String) (raw : Fields) (client_id digest : String) (enabled : Bool)
    (scopes : List String)
    → get key (checked_row raw client_id digest enabled scopes) ≡ (
        if "scopes" == key
        then some (arr (array (map text scopes)))
        else (if "enabled" == key
            then some (bool enabled)
            else (if "token_sha256" == key
                then some (text digest)
                else (if "client_id" == key then some (text client_id) else get key raw))))
get-checked_row key raw client_id digest enabled scopes =
    let r1 = set "client_id" (text client_id) raw in
    let r2 = set "token_sha256" (text digest) r1 in
    let r3 = set "enabled" (bool enabled) r2 in
    get-set key "scopes" (arr (array (map text scopes))) r3
    ∙ ap (λ o. if "scopes" == key then some (arr (array (map text scopes))) else o)
        (get-set key "enabled" (bool enabled) r2
          ∙ ap (λ o. if "enabled" == key then some (bool enabled) else o)
              (get-set key "token_sha256" (text digest) r1
                ∙ ap (λ o. if "token_sha256" == key then some (text digest) else o)
                    (get-set key "client_id" (text client_id) raw)))

as_texts-map : (ss : List String) → as_texts (items (array (map text ss))) ≡ some ss
as_texts-map [] = refl
as_texts-map (s ∷ ss) = ground (arith, as_texts-map ss)

-- What is relied on of a row.
abbrev pub Sound : Row → Type 0
Sound r =
    (is_client_id r.client_id ≡ true)
    × (contains "gateway" r.scopes ≡ true)
    × ((r.enabled && is_revoked r.revoked_at) ≡ false)

pub scopes_of-gateway :
    (value : Json) (scopes : List String)
    → scopes_of value ≡ ok scopes
    → contains "gateway" scopes ≡ true
unfolding scopes_of
scopes_of-gateway value scopes h =
    let (given, e, h1) = bind_ok (demand (text_list value) scopes_no_texts) _ scopes h in
    (validate_scopes-gateway given scopes (unchecked (validate_scopes given) h1)).0
  where
    unchecked : (r : Result _ (List String)) → checked_scopes r ≡ ok scopes → r ≡ ok scopes
    unchecked (ok ss) h = ground arith
    unchecked (err e) h = ground arith

revoked-disabled :
    (v : Json) (enabled : Bool)
    → (is_truthy v && enabled) ≡ false
    → (enabled && is_revoked (as_text v)) ≡ false
revoked-disabled v enabled h = ground arith

pub checked_row-Sound :
    (raw : Fields) (client_id digest : String) (enabled : Bool) (scopes : List String)
    → is_client_id client_id ≡ true
    → contains "gateway" scopes ≡ true
    → (is_truthy (get_or "revoked_at" null raw) && enabled) ≡ false
    → Sound (row_of (checked_row raw client_id digest enabled scopes))
      × ((row_of (checked_row raw client_id digest enabled scopes)).client_id ≡ client_id)
      × ((row_of (checked_row raw client_id digest enabled scopes)).token_sha256 ≡ digest)
checked_row-Sound raw client_id digest enabled scopes named gateway revoked =
    let at = λ (key : String). get-checked_row key raw client_id digest enabled scopes in
    let id = ap text_of (at "client_id") in
    let scopes_ =
      ap (λ o. some_texts (text_list (elim o [ none ↦ null | some v ↦ v ]))) (at "scopes")
      ∙ ap some_texts (as_texts-map scopes) in
    let enabled_ = ap (λ o. is_truthy (elim o [ none ↦ null | some v ↦ v ])) (at "enabled") in
    let revoked_ = ap (λ o. as_text (elim o [ none ↦ null | some v ↦ v ])) (at "revoked_at") in
    (
      (
        ap is_client_id id ∙ named,
        ap (contains "gateway") scopes_ ∙ gateway,
        ap
              (λ b.
                b
                && is_revoked (
                    as_text
                      (get_or "revoked_at" null (checked_row raw client_id digest enabled scopes))))
              enabled_
            ∙ ap (λ o. enabled && is_revoked o) revoked_
            ∙ revoked-disabled (get_or "revoked_at" null raw) enabled revoked,
      ),
      id,
      ap text_of (at "token_sha256"),
    )
