-- ===== src/Base64.antt =====
-- `b64encode` and `b64decode` of Python's `base64`, which the gateway and the MCP server call.
--
-- A byte is a number below 256. `decode` reads with `validate=True`: whole groups of four characters of
-- the alphabet, of which the last may end in one or two `=`. Of a group that ends so, the bits that no
-- byte takes are not looked at; and after a group that does not, any number of `=` is let pass, as CPython
-- 3.12 does.
pub mod RoundTrip
use Prim.Native.Char.{Char, code, nul}
use single_gpu_ai_services.Base.{
  ℕ, zero, suc, ◌+◌, ◌*◌, ◌/◌, Bool, true, false, ◌&&◌, Option, none, some, List, [], ◌∷◌, String,
  if◌then◌else◌, eqb,
}
use Prim.Native.Nat.{◌%◌}

abbrev pub alphabet : String
alphabet = "ABCDEFGHIJKLMNOPQRSTUVWXYZabcdefghijklmnopqrstuvwxyz0123456789+/"

abbrev pub nth : ℕ → String → Char
nth n String.[] = nul
nth zero (String.◌∷◌ c s) = c
nth (suc n) (String.◌∷◌ c s) = nth n s

abbrev pub later : Option ℕ → Option ℕ
later none = none
later (some n) = some (suc n)

abbrev pub index : ℕ → String → Option ℕ
index k String.[] = none
index k (String.◌∷◌ c s) = let rest = index k s in if eqb (code c) k then some 0 else later rest

unfoldable pub symbol : ℕ → Char
symbol n = nth n alphabet

unfoldable pub value : Char → Option ℕ
value c = index (code c) alphabet

abbrev pub pad : Char
pad = nth 0 "="

abbrev pub group : Char → Char → Char → Char → String → String
group a b c d s = String.◌∷◌ a (String.◌∷◌ b (String.◌∷◌ c (String.◌∷◌ d s)))

-- The bits of the bytes, six at a time.
unfoldable pub encode : List ℕ → String
encode [] = ""
encode (a ∷ []) = group (symbol (a / 4)) (symbol (a % 4 * 16)) pad pad ""
encode (a ∷ b ∷ []) =
    group (symbol (a / 4)) (symbol (a % 4 * 16 + b / 16)) (symbol (b % 16 * 4)) pad ""
encode (a ∷ b ∷ c ∷ rest) =
    group (symbol (a / 4)) (symbol (a % 4 * 16 + b / 16)) (symbol (b % 16 * 4 + c / 64))
      (symbol (c % 64)) (encode rest)

abbrev pub first_byte : ℕ → ℕ → ℕ
first_byte p q = p * 4 + q / 16

abbrev pub second_byte : ℕ → ℕ → ℕ
second_byte q r = q % 16 * 16 + r / 4

abbrev pub third_byte : ℕ → ℕ → ℕ
third_byte r t = r % 4 * 64 + t

-- One group, by the values of its characters, and the rest, where there is a rest.
abbrev pub whole_group :
    Option ℕ → Option ℕ → Option ℕ → Option ℕ → Option (List ℕ) → Option (List ℕ)
whole_group (some p) (some q) (some r) (some t) (some bs) =
    some (first_byte p q ∷ second_byte q r ∷ third_byte r t ∷ bs)
whole_group _ _ _ _ _ = none

abbrev pub two_bytes : Option ℕ → Option ℕ → Option ℕ → Option (List ℕ)
two_bytes (some p) (some q) (some r) = some (first_byte p q ∷ second_byte q r ∷ [])
two_bytes _ _ _ = none

abbrev pub one_byte : Option ℕ → Option ℕ → Option (List ℕ)
one_byte (some p) (some q) = some (first_byte p q ∷ [])
one_byte _ _ = none

-- The last group: with two, one or no `=`.
abbrev pub last_group : Char → Char → Char → Char → Option (List ℕ)
last_group a b c d =
    if eqb (code d) 61
    then (if eqb (code c) 61
        then one_byte (value a) (value b)
        else two_bytes (value a) (value b) (value c))
    else whole_group (value a) (value b) (value c) (value d) (some [])

abbrev pub is_pads : String → Bool
is_pads String.[] = true
is_pads (String.◌∷◌ c s) = eqb (code c) 61 && is_pads s

unfoldable pub decode : String → Option (List ℕ)
decode String.[] = some []
decode (String.◌∷◌ a (String.◌∷◌ b (String.◌∷◌ c (String.◌∷◌ d String.[])))) = last_group a b c d
decode (String.◌∷◌ a (String.◌∷◌ b (String.◌∷◌ c (String.◌∷◌ d (String.◌∷◌ e s))))) =
    let rest = decode (String.◌∷◌ e s) in
    whole_group (value a) (value b) (value c) (value d)
      (if is_pads (String.◌∷◌ e s) then some [] else rest)
decode _ = none
