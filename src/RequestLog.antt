-- ===== src/RequestLog.antt =====
-- backend/app/services/request_log_service.py: the log row of a gateway call is written before the
-- provider is called and completed afterwards.
use conexus.Prelude.{ℕ, ◌+◌, Bool, false, Option, none, some, [], ◌∷◌, ◌++◌}
use conexus.Text.{Text, codes}
use conexus.Clock.{DateTime}
use conexus.Table.{update_row}
use conexus.Models.{GatewayRequest, Db}

-- The arguments of `start_request`.
pub record StartArgs : Type 0 where
  pub request_id : ℕ
  pub project_id : Option ℕ
  pub api_key_id : Option ℕ
  pub requested_model : Text
  pub limit_reservation_id : Option ℕ
  pub gateway_profile_id : Option Text
  pub adapter_profile_id : Option Text
  pub domain_key : Option Text
  pub adaptation_mode : Option Text

abbrev pub started : DateTime → StartArgs → GatewayRequest
started now a = record {
  request_id = a.request_id;
  project_id = a.project_id;
  api_key_id = a.api_key_id;
  requested_model = a.requested_model;
  provider = none;
  model = none;
  status = codes "started";
  latency_ms = none;
  prompt_tokens = none;
  completion_tokens = none;
  total_tokens = none;
  estimated_cost = none;
  fallback_used = false;
  error_code = none;
  error_message = none;
  gateway_profile_id = a.gateway_profile_id;
  adapter_profile_id = a.adapter_profile_id;
  domain_key = a.domain_key;
  adaptation_mode = a.adaptation_mode;
  created_at = now;
  completed_at = none;
  limit_reservation_id = a.limit_reservation_id;
}

unfoldable pub start_request : DateTime → StartArgs → Db → Db
start_request now a db = record db { requests = db.requests ++ started now a ∷ [] }

-- `prompt_tokens + completion_tokens` where both are known
abbrev pub total : Option ℕ → Option ℕ → Option ℕ
total (some p) (some c) = some (p + c)
total (some p) none = none
total none c = none

-- The arguments of `finish_request_success`.
pub record SuccessArgs : Type 0 where
  pub provider : Text
  pub model : Text
  pub latency_ms : ℕ
  pub prompt_tokens : Option ℕ
  pub completion_tokens : Option ℕ
  pub estimated_cost : Option ℕ
  pub fallback_used : Bool

abbrev pub completed : DateTime → SuccessArgs → GatewayRequest → GatewayRequest
completed now a row = record row {
  provider = some a.provider;
  model = some a.model;
  status = codes "completed";
  latency_ms = some a.latency_ms;
  prompt_tokens = a.prompt_tokens;
  completion_tokens = a.completion_tokens;
  total_tokens = total a.prompt_tokens a.completion_tokens;
  estimated_cost = a.estimated_cost;
  fallback_used = a.fallback_used;
  completed_at = some now;
}

unfoldable pub finish_request_success : DateTime → ℕ → SuccessArgs → Db → Db
finish_request_success now request_id a db = record db {
  requests = update_row GatewayRequest.request_id request_id (completed now a) db.requests;
}

-- The arguments of `finish_request_failure`.
pub record FailureArgs : Type 0 where
  pub latency_ms : ℕ
  pub error_code : Text
  pub error_message : Text

abbrev pub failed : DateTime → FailureArgs → GatewayRequest → GatewayRequest
failed now a row = record row {
  status = codes "failed";
  latency_ms = some a.latency_ms;
  error_code = some a.error_code;
  error_message = some a.error_message;
  completed_at = some now;
}

unfoldable pub finish_request_failure : DateTime → ℕ → FailureArgs → Db → Db
finish_request_failure now request_id a db = record db {
  requests = update_row GatewayRequest.request_id request_id (failed now a) db.requests;
}
