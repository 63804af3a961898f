-- ===== src/Dispatcher/InternalAuth.antt =====
-- dispatcher/internal_auth.py: the token that each endpoint of dispatcher/app.py asks for, but for
-- `/health`.
--
-- `compare_digest` raises TypeError on a text that is not ASCII.
use single_gpu_ai_services.Base.{
  ℕ, ◌≡◌, ◌⊎◌, refl, inl, inr, ap, ◌∙◌, Bool, true, not, ◌&&◌, Option, none, some, List, [], ◌∷◌,
  String, if◌then◌else◌, ltb, all, codes, length, strip, eq_codes, Result, ok, err, refuse_if,
  arith, ◌>>◌,
}
use single_gpu_ai_services.Dispatcher.State.{Dispatcher}
use single_gpu_ai_services.Dispatcher.App.{Response}

pub data TokenError : Type 0 where
  too_short : TokenError

-- `load_internal_token`, of the text of the file.
unfoldable pub load_internal_token : String → Result TokenError (List ℕ)
load_internal_token content = do
  refuse_if (ltb (length (strip (codes content))) 32) too_short
  ok (strip (codes content))

pub data Denial : Type 0 where
  unauthorized : Denial
  type_error : Denial

abbrev pub is_ascii : List ℕ → Bool
is_ascii cs = all (λ c. ltb c 128) cs

-- `require_internal_token`
unfoldable pub require_internal_token : List ℕ → Option String → Result Denial (Unit {0})
require_internal_token token none = err unauthorized
require_internal_token token (some header) =
    if not (is_ascii (codes header) && is_ascii token)
    then err type_error
    else (if eq_codes (codes header) token then ok tt else err unauthorized)

-- An endpoint behind it.
abbrev pub behind :
    Result Denial (Unit {0})
    → (Dispatcher → Response × Dispatcher)
    → Dispatcher
    → Result Denial Response × Dispatcher
behind (err e) endpoint d = (err e, d)
behind (ok _) endpoint d = (ok (endpoint d).0, (endpoint d).1)

unfoldable pub protected :
    List ℕ
    → Option String
    → (Dispatcher → Response × Dispatcher)
    → Dispatcher
    → Result Denial Response × Dispatcher
protected token header endpoint d = behind (require_internal_token token header) endpoint d

eq_codes_eq : (as_ bs : List ℕ) → eq_codes as_ bs ≡ true → as_ ≡ bs
eq_codes_eq [] [] h = refl
eq_codes_eq [] (b ∷ bs) h = ground (arith, h)
eq_codes_eq (a ∷ as_) [] h = ground (arith, h)
eq_codes_eq (a ∷ as_) (b ∷ bs) h = ground (arith, h, eq_codes_eq as_ bs (ground (arith, h)))

require_internal_token-header :
    (token : List ℕ) (header : Option String) (u : Unit {0})
    → require_internal_token token header ≡ ok u
    → (h : String) × (header ≡ some h) × (codes h ≡ token)
unfolding require_internal_token
require_internal_token-header token none u h = ground (arith, h)
require_internal_token-header token (some header) u h =
    (header, refl, eq_codes_eq (codes header) token (ground (arith, h)))

eq_codes_refl : (cs : List ℕ) → eq_codes cs cs ≡ true
eq_codes_refl [] = refl
eq_codes_refl (c ∷ cs) = ground (arith, eq_codes_refl cs)

-- The header is there and is the token.
abbrev pub Presents : List ℕ → Option String → Type 0
Presents token header = (h : String) × (header ≡ some h) × (codes h ≡ token)

require_internal_token-text :
    (token : List ℕ) (h : String)
    → codes h ≡ token
    → is_ascii token ≡ true
    → require_internal_token token (some h) ≡ ok tt
unfolding require_internal_token
require_internal_token-text token h same ascii =
    let ascii_h = ap is_ascii same ∙ ascii in
    let equal = ap (λ cs. eq_codes cs token) same ∙ eq_codes_refl token in
    ground (arith, ascii, ascii_h, equal)

require_internal_token-denied :
    (token : List ℕ) (header : Option String) (e : Denial)
    → require_internal_token token header ≡ err e
    → ¬ (Presents token header × (is_ascii token ≡ true))
require_internal_token-denied token header e denied ((h, is_h, same), ascii) =
    ground (arith, require_internal_token-text token h same ascii, is_h, denied)

-- Behind the check of the internal token: either the endpoint leaves the dispatcher as it was, the request
-- is denied, and the header was not the token or the token is not ASCII; or the header is the token and
-- the endpoint has run.
pub protected-Presents :
    (token : List ℕ) (header : Option String) (endpoint : Dispatcher → Response × Dispatcher)
    (d : Dispatcher)
    → ((¬ (Presents token header × (is_ascii token ≡ true)))
        × (e : Denial) × (protected token header endpoint d ≡ (err e, d)))
      ⊎ (Presents token header
          × (protected token header endpoint d ≡ (ok (endpoint d).0, (endpoint d).1)))
unfolding protected
protected-Presents token header endpoint d = of (require_internal_token token header) refl
  where
    of :
        (r : Result Denial (Unit {0}))
        → require_internal_token token header ≡ r
        → ((¬ (Presents token header × (is_ascii token ≡ true)))
            × (e : Denial) × (behind r endpoint d ≡ (err e, d)))
          ⊎ (Presents token header × (behind r endpoint d ≡ (ok (endpoint d).0, (endpoint d).1)))
    of (err e) k = inl (require_internal_token-denied token header e k, e, refl)
    of (ok u) k = inr (require_internal_token-header token header u k, refl)
