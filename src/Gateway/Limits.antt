-- ===== src/Gateway/Limits.antt =====
-- `RequestCapacityLimiter` of gateway/app/limits.py. Each method holds the lock, or has no `await`.
use single_gpu_ai_services.Base.{
  ℕ, ◌+◌, ◌-◌, Bool, true, false, if◌then◌else◌, leb, eqb, Result, ok, err,
}

pub record RequestCapacityLimiter : Type 0 where
  pub limit : ℕ
  pub active : ℕ

pub data LimiterError : Type 0 where
  limit_not_positive : LimiterError
  release_without_acquire : LimiterError

-- `__init__`
unfoldable pub new_limiter : ℕ → Result LimiterError RequestCapacityLimiter
new_limiter limit =
    if eqb limit 0 then err limit_not_positive else ok (record { limit = limit; active = 0 })

unfoldable pub try_acquire : RequestCapacityLimiter → Bool × RequestCapacityLimiter
try_acquire l =
    if leb l.limit l.active then (false, l) else (true, record l { active = l.active + 1 })

unfoldable pub release : RequestCapacityLimiter → Result LimiterError RequestCapacityLimiter
release l =
    if eqb l.active 0 then err release_without_acquire else ok (record l { active = l.active - 1 })
