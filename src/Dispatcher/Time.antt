-- ===== src/Dispatcher/Time.antt =====
-- The numbers of seconds in dispatcher/dispatcher.py.
--
-- A time is a whole number of microseconds. A `wait_timeout` comes from a request body, so it is any
-- float: it may be negative, infinite or not a number, and the comparisons are those of IEEE 754.
-- Rounding is not modelled.
use single_gpu_ai_services.Base.{
  ℕ, suc, ◌+◌, ◌-◌, Bool, true, false, List, [], ◌∷◌, leb, ltb, eqb, if◌then◌else◌,
}

-- `minus n` is -(n + 1).
pub data Float : Type 0 where
  whole : ℕ → Float
  minus : ℕ → Float
  infinity : Float
  minus_infinity : Float
  nan : Float

-- `a < b`
abbrev pub lt_float : Float → Float → Bool
lt_float (whole m) (whole n) = ltb m n
lt_float (whole m) infinity = true
lt_float (minus m) (whole n) = true
lt_float (minus m) (minus n) = ltb n m
lt_float (minus m) infinity = true
lt_float minus_infinity (whole n) = true
lt_float minus_infinity (minus n) = true
lt_float minus_infinity infinity = true
lt_float _ _ = false

-- `a <= b`
abbrev pub le_float : Float → Float → Bool
le_float (whole m) (whole n) = leb m n
le_float (whole m) infinity = true
le_float (minus m) (whole n) = true
le_float (minus m) (minus n) = leb n m
le_float (minus m) infinity = true
le_float infinity infinity = true
le_float minus_infinity (whole n) = true
le_float minus_infinity (minus n) = true
le_float minus_infinity infinity = true
le_float minus_infinity minus_infinity = true
le_float _ _ = false

-- `a == b`: `nan` differs from itself.
abbrev pub eq_float : Float → Float → Bool
eq_float (whole m) (whole n) = eqb m n
eq_float (minus m) (minus n) = eqb m n
eq_float infinity infinity = true
eq_float minus_infinity minus_infinity = true
eq_float _ _ = false

-- `now + f`
abbrev pub add_time : ℕ → Float → Float
add_time now (whole n) = whole (now + n)
add_time now (minus n) = if ltb n now then whole (now - suc n) else minus (n - now)
add_time now infinity = infinity
add_time now minus_infinity = minus_infinity
add_time now nan = nan

-- `f - now`
abbrev pub sub_time : Float → ℕ → Float
sub_time (whole n) now = if leb now n then whole (n - now) else minus (now - n - 1)
sub_time (minus n) now = minus (n + now)
sub_time infinity now = infinity
sub_time minus_infinity now = minus_infinity
sub_time nan now = nan

-- Python's `min(a, b)` and `max(a, b)`: the first argument stands unless the second is better.
abbrev pub min_float : Float → Float → Float
min_float a b = if lt_float b a then b else a

abbrev pub max_float : Float → Float → Float
max_float a b = if lt_float a b then b else a

-- `min(f, *fs)`
abbrev pub min_list : Float → List Float → Float
min_list f [] = f
min_list f (g ∷ gs) = min_list (min_float f g) gs
