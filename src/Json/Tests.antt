-- ===== src/Json/Tests.antt =====
-- JSON values at concrete data.
use single_gpu_ai_services.Base.{◌≡◌, refl, true, false, some}
use single_gpu_ai_services.Json.{bool, int, float, fraction, text, obj, end, field, get, set, equal}

bool_one : equal (bool true) (int 1) ≡ true
unfolding equal
bool_one = refl

nan_differs : equal (fraction "nan") (fraction "nan") ≡ false
unfolding equal
nan_differs = refl

order_free :
    equal
      (obj (field "a" (int 1) (field "b" (text "x") end)))
      (obj (field "b" (text "x") (field "a" (float 1) end)))
    ≡ true
unfolding equal get
order_free = refl

set_keeps : get "a" (set "a" (int 2) (field "a" (int 1) end)) ≡ some (int 2)
unfolding get set
set_keeps = refl
