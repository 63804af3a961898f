-- ===== src/Json.antt =====
-- JSON values as Python's `json` reads them, and what the services do with them: `dict.get`,
-- `isinstance`, `==`, and the assignment of a key.
--
-- A float with a whole value equals the integer, and so does a `bool`. A float without one stands by
-- its text; "nan" differs from itself. A float -0.0 is the float 0.0.
pub mod Laws
mod Tests
use single_gpu_ai_services.Base.{
  ℕ, suc, Bool, true, false, not, ◌&&◌, ◌||◌, Option, none, some, List, [], ◌∷◌, String, ◌==◌, eqb,
  if◌then◌else◌, is_some,
}

mutual
  pub data Json : Type 0 where
    null : Json
    bool : Bool → Json
    -- n, -(n + 1), and the floats of these values.
    int : ℕ → Json
    minus : ℕ → Json
    float : ℕ → Json
    minus_float : ℕ → Json
    fraction : String → Json
    text : String → Json
    arr : Items → Json
    obj : Fields → Json

  pub data Items : Type 0 where
    nil : Items
    cons : Json → Items → Items

  pub data Fields : Type 0 where
    end : Fields
    field : String → Json → Fields → Fields

abbrev pub items : Items → List Json
items nil = []
items (cons x xs) = x ∷ items xs

abbrev pub array : List Json → Items
array [] = nil
array (x ∷ xs) = cons x (array xs)

abbrev pub count : Items → ℕ
count nil = 0
count (cons x xs) = suc (count xs)

-- `d.get(key)`
unfoldable pub get : String → Fields → Option Json
get key end = none
get key (field k v fs) = let rest = get key fs in if k == key then some v else rest

abbrev pub get_or : String → Json → Fields → Json
get_or key other fs = elim (get key fs) [ none ↦ other | some v ↦ v ]

-- `v.get(key) if isinstance(v, dict) else None`
abbrev pub member : String → Json → Json
member key (obj fs) = get_or key null fs
member key _ = null

abbrev pub has_key : String → Fields → Bool
has_key key fs = is_some (get key fs)

-- `d[key] = value`
unfoldable pub set : String → Json → Fields → Fields
set key value end = field key value end
set key value (field k v fs) =
    let rest = set key value fs in if k == key then field k value fs else field k v rest

abbrev pub keys : Fields → List String
keys end = []
keys (field k v fs) = k ∷ keys fs

-- `isinstance(value, dict)`, and so on, with what is in the value.
abbrev pub as_dict : Json → Option Fields
as_dict (obj fs) = some fs
as_dict _ = none

abbrev pub as_list : Json → Option Items
as_list (arr xs) = some xs
as_list _ = none

abbrev pub as_text : Json → Option String
as_text (text s) = some s
as_text _ = none

abbrev pub as_bool : Json → Option Bool
as_bool (bool b) = some b
as_bool _ = none

abbrev pub is_text : Json → Bool
is_text v = is_some (as_text v)

-- `bool(value)`
abbrev pub is_truthy : Json → Bool
is_truthy null = false
is_truthy (bool b) = b
is_truthy (int n) = not (eqb n 0)
is_truthy (float n) = not (eqb n 0)
is_truthy (text s) = not (s == "")
is_truthy (arr nil) = false
is_truthy (obj end) = false
is_truthy _ = true

-- The whole value of a number, and whether it is negative: -(n + 1) has `(true, n)`.
abbrev pub whole_value : Json → Option (Bool × ℕ)
whole_value (bool b) = some (false, if b then 1 else 0)
whole_value (int n) = some (false, n)
whole_value (float n) = some (false, n)
whole_value (minus n) = some (true, n)
whole_value (minus_float n) = some (true, n)
whole_value _ = none

abbrev pub same_sign : Bool → Bool → Bool
same_sign true b = b
same_sign false b = not b

abbrev pub same_number : Option (Bool × ℕ) → Option (Bool × ℕ) → Bool
same_number (some (s, m)) (some (t, n)) = same_sign s t && eqb m n
same_number _ _ = false

abbrev pub length_fields : Fields → ℕ
length_fields end = 0
length_fields (field k v fs) = suc (length_fields fs)

-- `a == b`. The keys of a `dict` differ, so two of the same size are equal when each entry of the one
-- is in the other.
unfoldable mutual
  pub equal : Json → Json → Bool
  equal null null = true
  equal (text s) (text t) = s == t
  equal (fraction s) (fraction t) = s == t && not (s == "nan")
  equal (arr xs) (arr ys) = equal_items xs ys
  equal (obj fs) (obj gs) = eqb (length_fields fs) (length_fields gs) && contained fs gs
  equal a b = same_number (whole_value a) (whole_value b)

  pub equal_items : Items → Items → Bool
  equal_items nil nil = true
  equal_items (cons x xs) (cons y ys) = equal x y && equal_items xs ys
  equal_items _ _ = false

  pub contained : Fields → Fields → Bool
  contained end gs = true
  contained (field k v fs) gs =
      elim (get k gs) [ none ↦ false | some w ↦ equal v w ] && contained fs gs
