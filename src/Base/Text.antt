-- ===== src/Base/Text.antt =====
-- Texts as lists of code points, for what walks them: Python's `strip`, `lower` and `in`.
use Prim.Native.Nat.{ℕ, ◌+◌}
use Prim.Native.Char.{code}
use Prim.Native.String.{String}
use mathlib.Core.Bool.{Bool, true, false, ◌&&◌, ◌||◌}
use mathlib.Core.List.{List, [], ◌∷◌, map, reverse}
use single_gpu_ai_services.Base.Tests.{leb, eqb, if◌then◌else◌}

abbrev pub codes : String → List ℕ
codes String.[] = []
codes (String.◌∷◌ c s) = code c ∷ codes s

-- `c.isspace()`
abbrev pub is_space : ℕ → Bool
is_space c =
    eqb c 32
    || leb 9 c && leb c 13
    || leb 28 c && leb c 31
    || eqb c 133
    || eqb c 160
    || eqb c 5760
    || leb 8192 c && leb c 8202
    || leb 8232 c && leb c 8233
    || eqb c 8239
    || eqb c 8287
    || eqb c 12288

abbrev pub strip_left : List ℕ → List ℕ
strip_left [] = []
strip_left (c ∷ cs) = let rest = strip_left cs in if is_space c then rest else c ∷ cs

abbrev pub strip : List ℕ → List ℕ
strip cs = reverse (strip_left (reverse (strip_left cs)))

-- `lower`, of ASCII letters.
abbrev pub lower : List ℕ → List ℕ
lower = map λ c. if leb 65 c && leb c 90 then c + 32 else c

abbrev pub eq_codes : List ℕ → List ℕ → Bool
eq_codes [] [] = true
eq_codes (a ∷ as_) (b ∷ bs) = eqb a b && eq_codes as_ bs
eq_codes _ _ = false

-- `text.startswith(prefix)`
abbrev pub starts_codes : List ℕ → List ℕ → Bool
starts_codes [] text = true
starts_codes (a ∷ as_) [] = false
starts_codes (a ∷ as_) (b ∷ bs) = eqb a b && starts_codes as_ bs

-- `part in text`
abbrev pub within : List ℕ → List ℕ → Bool
within part [] = starts_codes part []
within part (c ∷ cs) = starts_codes part (c ∷ cs) || within part cs
