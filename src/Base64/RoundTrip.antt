-- ===== src/Base64/RoundTrip.antt =====
-- Proofs about `base64`: what `b64decode` makes of the text of `b64encode`.
use single_gpu_ai_services.Base.{
  ℕ, zero, suc, ◌+◌, ◌*◌, ◌/◌, ◌<◌, ◌≡◌, refl, Bool, true, false, not, ◌&&◌, ◌⊎◌, some, List, [],
  ◌∷◌, String, eqb, arith, All, ap, ◌∙◌, inl, inr, length, codes,
}
use Prim.Native.Nat.{◌%◌}
use single_gpu_ai_services.Base64.{
  alphabet, nth, index, symbol, value, group, is_pads, encode, decode, whole_group, first_byte,
  second_byte, third_byte,
}
use Prim.Native.Char.{Char, code}

abbrev size : String → ℕ
size String.[] = 0
size (String.◌∷◌ c s) = suc (size s)

-- No two characters of a text are the same.
abbrev has_no : ℕ → String → Bool
has_no k String.[] = true
has_no k (String.◌∷◌ c s) = not (eqb (code c) k) && has_no k s

abbrev is_distinct : String → Bool
is_distinct String.[] = true
is_distinct (String.◌∷◌ c s) = has_no (code c) s && is_distinct s

has_no-nth :
    (k n : ℕ) (s : String) → has_no k s ≡ true → n < size s → eqb k (code (nth n s)) ≡ false
has_no-nth k n String.[] h l = absurd (omega (arith, l))
has_no-nth k zero (String.◌∷◌ c s) h l = ground arith
has_no-nth k (suc n) (String.◌∷◌ c s) h l = has_no-nth k n s (ground arith) (omega (arith, l))

index-nth :
    (n : ℕ) (s : String) → is_distinct s ≡ true → n < size s → index (code (nth n s)) s ≡ some n
index-nth n String.[] h l = absurd (omega (arith, l))
index-nth zero (String.◌∷◌ c s) h l = ground arith
index-nth (suc n) (String.◌∷◌ c s) h l = ground (
  arith,
  has_no-nth (code c) n s (ground arith) (omega (arith, l)),
  index-nth n s (ground arith) (omega (arith, l)),
)

value-symbol : (n : ℕ) → n < 64 → value (symbol n) ≡ some n
unfolding value symbol
value-symbol n l = index-nth n alphabet refl l

symbol-pad : (n : ℕ) → n < 64 → eqb (code (symbol n)) 61 ≡ false
unfolding symbol
symbol-pad n l = ground (arith, has_no-nth 61 n alphabet refl l)

-- A group of four characters of which the last is no `=`, before the end or a character that is none.
decode-group :
    (a b c d : Char) (s : String)
    → eqb (code d) 61 ≡ false
    → (size s ≡ 0) ⊎ (is_pads s ≡ false)
    → decode (group a b c d s) ≡ whole_group (value a) (value b) (value c) (value d) (decode s)
unfolding decode
decode-group a b c d String.[] h p = ground (arith, h)
decode-group a b c d (String.◌∷◌ e s) h (inl p) = absurd (omega (arith, p))
decode-group a b c d (String.◌∷◌ e s) h (inr p) = rw p refl

encode-is_pads :
    (bs : List ℕ) → All (λ b. b < 256) bs → (size (encode bs) ≡ 0) ⊎ (is_pads (encode bs) ≡ false)
unfolding encode
encode-is_pads [] h = inl refl
encode-is_pads (a ∷ []) (k, h) = inr (ground (arith, symbol-pad (a / 4) (omega (arith, k))))
encode-is_pads (a ∷ b ∷ []) (k, h) = inr (ground (arith, symbol-pad (a / 4) (omega (arith, k))))
encode-is_pads (a ∷ b ∷ c ∷ rest) (k, h) =
    inr (ground (arith, symbol-pad (a / 4) (omega (arith, k))))

first-bits : (a b : ℕ) → b < 256 → first_byte (a / 4) (a % 4 * 16 + b / 16) ≡ a
first-bits a b l = omega (arith, l)

second-bits :
    (a b c : ℕ) → b < 256 → c < 256 → second_byte (a % 4 * 16 + b / 16) (b % 16 * 4 + c / 64) ≡ b
second-bits a b c k l = omega (arith, k, l)

third-bits : (b c : ℕ) → c < 256 → third_byte (b % 16 * 4 + c / 64) (c % 64) ≡ c
third-bits b c l = omega (arith, l)

-- The values of the characters of a group, and the bytes that they give back.
whole_group-symbol :
    (a b c : ℕ) (bs : List ℕ)
    → a < 256
    → b < 256
    → c < 256
    → whole_group
        (value (symbol (a / 4)))
        (value (symbol (a % 4 * 16 + b / 16)))
        (value (symbol (b % 16 * 4 + c / 64)))
        (value (symbol (c % 64)))
        (some bs)
      ≡ some (a ∷ b ∷ c ∷ bs)
whole_group-symbol a b c bs k l m =
    rw
      (
        value-symbol (a / 4) (omega (arith, k)),
        value-symbol (a % 4 * 16 + b / 16) (omega (arith, l)),
        value-symbol (b % 16 * 4 + c / 64) (omega (arith, m)),
        value-symbol (c % 64) (omega arith),
      )
      (rw (first-bits a b l, second-bits a b c l m, third-bits b c m) refl)

-- `b64decode` gives back the bytes of which `b64encode` made the text.
pub decode-encode : (bs : List ℕ) → All (λ b. b < 256) bs → decode (encode bs) ≡ some bs
unfolding encode decode
decode-encode [] h = refl
decode-encode (a ∷ []) (k, h) =
    rw (value-symbol (a / 4) (omega (arith, k)), value-symbol (a % 4 * 16) (omega arith))
      (ap (λ x. some (x ∷ [])) (omega arith))
decode-encode (a ∷ b ∷ []) (k, (l, h)) =
    rw
      (
        symbol-pad (b % 16 * 4) (omega arith),
        value-symbol (a / 4) (omega (arith, k)),
        value-symbol (a % 4 * 16 + b / 16) (omega (arith, l)),
        value-symbol (b % 16 * 4) (omega arith),
      )
      (rw (first-bits a b l) (ap (λ x. some (a ∷ x ∷ [])) (omega (arith, l))))
decode-encode (a ∷ b ∷ c ∷ rest) (k, (l, (m, h))) =
    decode-group (symbol (a / 4)) (symbol (a % 4 * 16 + b / 16)) (symbol (b % 16 * 4 + c / 64))
      (symbol (c % 64)) (encode rest) (symbol-pad (c % 64) (omega arith)) (encode-is_pads rest h)
    ∙ ap
        (λ o.
          whole_group (value (symbol (a / 4))) (value (symbol (a % 4 * 16 + b / 16)))
            (value (symbol (b % 16 * 4 + c / 64))) (value (symbol (c % 64))) o)
        (decode-encode rest h)
    ∙ whole_group-symbol a b c rest k l m

-- How long the text is.
pub length-encode : (bs : List ℕ) → length (codes (encode bs)) ≡ (length bs + 2) / 3 * 4
unfolding encode
length-encode [] = refl
length-encode (a ∷ []) = refl
length-encode (a ∷ b ∷ []) = refl
length-encode (a ∷ b ∷ c ∷ rest) = omega (arith, length-encode rest)
