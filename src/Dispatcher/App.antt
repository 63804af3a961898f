-- ===== src/Dispatcher/App.antt =====
-- dispatcher/app.py: the HTTP answers over the dispatcher's methods.
--
-- A handler runs behind `require_internal_token`, which InternalAuth has.
use single_gpu_ai_services.Base.{ℕ, Bool, true, false, String, Result, ok, err}
use single_gpu_ai_services.Dispatcher.Time.{Float}
use single_gpu_ai_services.Dispatcher.Lease.{LeaseState, Snapshot, released, cancelled, is_active}
use single_gpu_ai_services.Dispatcher.State.{
  Dispatcher, DispatcherError, not_ready, lease_conflict, lease_not_found, stale_epoch,
  unknown_service, bad_wait_timeout, not_positive,
}
use single_gpu_ai_services.Dispatcher.Api.{submit, get_lease, release, cancel}

-- A response: the status, with the snapshot or the exception that its detail is made of.
pub data Response : Type 0 where
  json : ℕ → Snapshot → Response
  failure : ℕ → DispatcherError → Response

-- `_http_error`
abbrev pub error_status : DispatcherError → ℕ
error_status (stale_epoch given current) = 409
error_status (lease_conflict j) = 409
error_status (lease_not_found j) = 404
error_status (not_ready reason) = 503
error_status (unknown_service service) = 400
error_status bad_wait_timeout = 400
error_status (not_positive name) = 400

abbrev respond :
    (LeaseState → Bool) → Result DispatcherError Snapshot × Dispatcher → Response × Dispatcher
respond is_done (err e, d) = (failure (error_status e) e, d)
respond is_done (ok x, d) = (json (elim (is_done x.state) [ true ↦ 200 | false ↦ 202 ]) x, d)

abbrev is_released : LeaseState → Bool
is_released released = true
is_released _ = false

abbrev is_cancelled : LeaseState → Bool
is_cancelled cancelled = true
is_cancelled _ = false

pub post_acquire : String → String → String → Float → Dispatcher → Response × Dispatcher
post_acquire service request_id epoch wait_timeout d =
    respond is_active (submit service request_id epoch wait_timeout d)

pub get_status : String → String → Dispatcher → Response × Dispatcher
get_status request_id epoch d = respond (λ _. true) (get_lease request_id epoch d)

pub post_release : String → String → String → Dispatcher → Response × Dispatcher
post_release service request_id epoch d = respond is_released (release service request_id epoch d)

pub post_cancel : String → String → String → Dispatcher → Response × Dispatcher
post_cancel service request_id epoch d = respond is_cancelled (cancel service request_id epoch d)
