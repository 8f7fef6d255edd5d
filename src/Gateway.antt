-- ===== src/Gateway.antt =====
-- backend/app/services/gateway_setup.py and gateway_service.py: what surrounds the provider call of
-- a gateway request. Clock readings, UUIDs and the provider's answer are inputs.
pub mod Association
pub mod Setup
pub mod Service
pub mod Streaming
pub mod Recording
pub mod Holding
pub mod Beginning
pub mod Sharing
pub mod Tracking
pub mod Settling
use conexus.Prelude.{ℕ, Bool, Option, some, none, ◌≡◌, ◌⊎◌, inl, inr, refl, if◌then◌else◌}
use conexus.Text.{Text, codes, strip, is_blank}
use conexus.Clock.{DateTime}
use conexus.Limits.{LimitBlock}
use conexus.Result.{
  Fault, no_result_found, window_not_allocated, missing_usage_window, assertion_failed,
}
use conexus.Router.{ChatResult}
use conexus.Models.{Db}

-- gateway_errors.py: the request id, the code and the message.
pub data GatewayError : Type 0 where
  client_error upstream_error : ℕ → Text → Text → GatewayError
  limit_error : ℕ → LimitBlock → GatewayError

-- How a call of the service ends: with a value, with one of the gateway's errors, with a fault of the
-- database, or with an exception that is passed on.
pub data Ending {ℓ} (A : Type ℓ) : Type ℓ where
  replied : A → Ending A
  refused : GatewayError → Ending A
  broken : Fault → Ending A
  passed_on : Ending A

-- What a provider call does: it returns, the deadline passes, or one of the exceptions that the
-- service tells apart comes, with its text: a ProviderError with its class, any other Exception with
-- its class, or the CancelledError.
pub data Upstream {ℓ} (A : Type ℓ) : Type ℓ where
  answered : A → Upstream A
  timed_out : Upstream A
  unknown_model all_providers_failed : Text → Upstream A
  provider_error : Text → Text → Upstream A
  other_exception : Text → Upstream A
  cancelled : Upstream A

-- The clock readings at the end of a request: `_utcnow` twice, and the latency.
pub record Finish : Type 0 where
  pub finished_at : DateTime
  pub reconciled_at : DateTime
  pub latency_ms : ℕ

-- `(s or "").strip() or None`
abbrev pub non_blank : Text → Option Text
non_blank s = if is_blank s then none else some s

abbrev pub stripped : Option Text → Option Text
stripped none = none
stripped (some s) = non_blank (strip s)
