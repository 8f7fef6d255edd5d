-- ===== src/Gateway/Service.antt =====
-- `run_chat_completion`: the outcome of the provider call is logged, and the reservation settled.
use conexus.Prelude.{ℕ, Option, some}
use conexus.Text.{Text, codes}
use conexus.Result.{Result, ok, raise}
use conexus.Models.{Db}
use conexus.Pricing.{get_cost}
use conexus.Router.{ChatResult}
use conexus.RequestLog.{SuccessArgs}
use conexus.Gateway.{
  Ending, replied, refused, broken, passed_on, GatewayError, client_error, upstream_error, Finish,
  Upstream, answered, timed_out, unknown_model, all_providers_failed, provider_error,
  other_exception, cancelled,
}
use conexus.Gateway.Setup.{
  ChatArgs, record_failure, finish_success_with_accounting, reserve_and_start_gateway_chat_request,
}

-- gateway_context.py
pub record GatewayResponse : Type 0 where
  pub request_id : ℕ
  pub result : ChatResult
  pub cost_usd : ℕ

-- A transaction at the end of a request: its fault leaves what was there.
abbrev pub ends {ℓ} : {A : Type ℓ} → Ending A → Result Db → Db → Ending A × Db
ends e (ok after) before = (e, after)
ends e (raise f) before = (broken f, before)

-- A failure is logged, and the error raised.
unfoldable pub fails {ℓ} :
    {A : Type ℓ} → Finish → ℕ → Option ℕ → Text → Text → GatewayError → Db → Ending A × Db
unfolding record_failure
fails t request_id limit_reservation_id error_code error_message e db =
    ends (refused e) (record_failure t request_id error_code error_message limit_reservation_id db)
      db

abbrev pub unavailable : Text
unavailable = codes "ProviderUnavailableError"

abbrev pub request_timed_out : Text
request_timed_out = codes "Upstream request timed out."

abbrev pub success_args : ChatArgs → ℕ → ChatResult → SuccessArgs
success_args a latency_ms r = record {
  provider = r.provider;
  model = r.model;
  latency_ms = latency_ms;
  prompt_tokens = some r.usage.input_tokens;
  completion_tokens = some r.usage.output_tokens;
  estimated_cost =
      some (get_cost a.settings.pricing r.model r.usage.input_tokens r.usage.output_tokens);
  fallback_used = r.fallback_used;
}

abbrev pub response_of : ChatArgs → ChatResult → GatewayResponse
response_of a r = record {
  request_id = a.request_id;
  result = r;
  cost_usd = get_cost a.settings.pricing r.model r.usage.input_tokens r.usage.output_tokens;
}

-- What follows the provider call. A deadline is logged in the inner handler, at `early`, and once
-- more in the outer one, which catches the ProviderUnavailableError that the inner one raises.
unfoldable pub settle_call :
    ChatArgs → Finish → Finish → Option ℕ → Upstream ChatResult → Db → Ending GatewayResponse × Db
unfolding record_failure fails finish_success_with_accounting
settle_call a early late res (answered r) db =
    ends (replied (response_of a r))
      (finish_success_with_accounting late a.request_id (success_args a late.latency_ms r) res db)
      db
settle_call a early late res timed_out db =
    elim (record_failure early a.request_id unavailable request_timed_out res db) [
      | raise f ↦ (broken f, db)
      | ok logged ↦
          fails late a.request_id res unavailable request_timed_out
            (upstream_error a.request_id unavailable request_timed_out) logged
    ]
settle_call a early late res (unknown_model message) db =
    fails late a.request_id res (codes "unknown_model") message
      (client_error a.request_id (codes "unknown_model") message) db
settle_call a early late res (all_providers_failed message) db =
    fails late a.request_id res (codes "all_providers_failed") message
      (upstream_error a.request_id (codes "all_providers_failed") message) db
settle_call a early late res (provider_error name message) db =
    fails late a.request_id res name message (upstream_error a.request_id name message) db
settle_call a early late res (other_exception name) db = (passed_on, db)
settle_call a early late res cancelled db = (passed_on, db)

-- The endings of the setup that are not a start.
abbrev pub then_settle {ℓ} :
    {A : Type ℓ} → Ending (ℕ × Option ℕ) × Db → (Option ℕ → Db → Ending A × Db) → Ending A × Db
then_settle (replied (request_id, res), db) k = k res db
then_settle (refused e, db) k = (refused e, db)
then_settle (broken f, db) k = (broken f, db)
then_settle (passed_on, db) k = (passed_on, db)

unfoldable pub run_chat_completion :
    ChatArgs → Finish → Finish → Upstream ChatResult → Db → Ending GatewayResponse × Db
unfolding reserve_and_start_gateway_chat_request settle_call
run_chat_completion a early late call db =
    then_settle (reserve_and_start_gateway_chat_request a db)
      (λ res started. settle_call a early late res call started)
