-- ===== src/Registry/Scopes.antt =====
-- `validate_scopes` of client_access/registry.py, on a list of strings.
use single_gpu_ai_services.Base.{
  ◌≡◌, refl, sym, ap, subst, eq_iff, ◌∙◌, Bool, true, false, not, ◌&&◌, ◌||◌, List, [], ◌∷◌, String,
  ◌==◌, arith, if◌then◌else◌, contains, all, Result, ok, err, Bool-cases, inl, inr,
}
use Prim.Native.String.{compare}
use Prim.Native.Nat.{Ordering}

abbrev pub known_scopes : List String
known_scopes = "llm" ∷ "embeddings" ∷ "reranker" ∷ "ocr" ∷ "stt" ∷ "tts" ∷ "gateway" ∷ "mcp" ∷ []

pub data ScopeError : Type 0 where
  unknown_or_duplicate : ScopeError
  no_transport : ScopeError
  mcp_without_gateway : ScopeError

-- `len(value) != len(set(value))`
abbrev pub has_duplicates : List String → Bool
has_duplicates [] = false
has_duplicates (s ∷ ss) = contains s ss || has_duplicates ss

abbrev pub comes_after : String → String → Bool
comes_after s t = elim (compare s t) [ Ordering.gt ↦ true | _ ↦ false ]

-- `sorted(value)`
unfoldable pub insert : String → List String → List String
insert s [] = s ∷ []
insert s (t ∷ ts) = let rest = insert s ts in if comes_after s t then t ∷ rest else s ∷ t ∷ ts

unfoldable pub sorted : List String → List String
sorted [] = []
sorted (s ∷ ss) = insert s (sorted ss)

unfoldable pub validate_scopes : List String → Result ScopeError (List String)
validate_scopes value =
    if has_duplicates value || not (all (λ s. contains s known_scopes) value)
    then err unknown_or_duplicate
    else (if not (contains "gateway" value || contains "mcp" value)
        then err no_transport
        else (if contains "mcp" value && not (contains "gateway" value)
            then err mcp_without_gateway
            else ok (sorted value)))

contains-insert :
    (s t : String) (ts : List String) → contains s (insert t ts) ≡ (t == s || contains s ts)
unfolding insert
contains-insert s t [] = refl
contains-insert s t (u ∷ us) = ground (arith, contains-insert s t us)

contains-sorted : (s : String) (ts : List String) → contains s (sorted ts) ≡ contains s ts
unfolding sorted
contains-sorted s [] = refl
contains-sorted s (t ∷ ts) =
    contains-insert s t (sorted ts) ∙ ap (λ b. t == s || b) (contains-sorted s ts)

all-contains :
    (p : String → Bool) (s : String) (ts : List String)
    → all p ts ≡ true
    → contains s ts ≡ true
    → p s ≡ true
all-contains p s [] h i = ground arith
all-contains p s (t ∷ ts) h i = elim (Bool-cases (t == s)) [
  | inl same ↦
      let own : p t ≡ true = ground (arith, h) in subst (λ u. p u ≡ true) ((eq_iff t s).0 same) own
  | inr other ↦ all-contains p s ts (ground (arith, h)) (ground (arith, i, other))
]

-- The scopes that `validate_scopes` returns are those that were given, each is known, and "gateway" is
-- among them.
pub validate_scopes-gateway :
    (value scopes : List String)
    → validate_scopes value ≡ ok scopes
    → (contains "gateway" scopes ≡ true)
      × ((s : String) → contains s scopes ≡ contains s value)
      × ((s : String) → contains s scopes ≡ true → contains s known_scopes ≡ true)
unfolding validate_scopes
validate_scopes-gateway value scopes h =
    let same : scopes ≡ sorted value = ground arith in
    let base : contains "gateway" value ≡ true = ground arith in
    let known : all (λ s. contains s known_scopes) value ≡ true = ground arith in
    let kept = λ (s : String). ap (contains s) same ∙ contains-sorted s value in
    (
      kept "gateway" ∙ base,
      kept,
      λ s i. all-contains (λ t. contains t known_scopes) s value known (sym (kept s) ∙ i),
    )
