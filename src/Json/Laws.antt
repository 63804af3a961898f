-- ===== src/Json/Laws.antt =====
-- The laws of a `dict` with one entry for each key.
use single_gpu_ai_services.Base.{
  ◌≡◌, refl, ◌||◌, some, String, ◌==◌, eq_iff, arith, if◌then◌else◌, contains, is_some,
}
use single_gpu_ai_services.Json.{Json, Fields, end, field, get, set, keys}

pub get-set :
    (j key : String) (v : Json) (fs : Fields)
    → get j (set key v fs) ≡ (if key == j then some v else get j fs)
unfolding get set
get-set j key v end = refl
get-set j key v (field k w fs) =
    ground (arith, get-set j key v fs, eq_iff k key, eq_iff k j, eq_iff key j)

pub contains-keys : (j : String) (fs : Fields) → contains j (keys fs) ≡ is_some (get j fs)
unfolding get
contains-keys j end = refl
contains-keys j (field k w fs) = ground (arith, contains-keys j fs)

pub contains-keys-set :
    (j key : String) (v : Json) (fs : Fields)
    → contains j (keys (set key v fs)) ≡ (key == j || contains j (keys fs))
unfolding set
contains-keys-set j key v end = refl
contains-keys-set j key v (field k w fs) =
    ground (arith, contains-keys-set j key v fs, eq_iff k key, eq_iff k j, eq_iff key j)
