-- ===== src/Models.antt =====
-- The rows of backend/app/db/models.py that limits, reservations and the request log use, and the
-- database state. Ids are the numbers that the hexadecimal UUID texts stand for; money is in
-- millionths of a millionth of a dollar, in which a price per million tokens is a whole number.
use conexus.Prelude.{ℕ, Bool, Option, List}
use conexus.Text.{Text}
use conexus.Clock.{DateTime}

pub data LimitMode : Type 0 where
  disabled soft hard : LimitMode

pub data WindowKind : Type 0 where
  daily monthly : WindowKind

pub record ProjectLimit : Type 0 where
  pub project_id : ℕ
  pub monthly_cost_limit : Option ℕ
  pub daily_request_limit : Option ℕ
  pub daily_token_limit : Option ℕ
  pub limit_mode : LimitMode

pub record UsageWindow : Type 0 where
  pub id : ℕ
  pub project_id : ℕ
  pub window_kind : WindowKind
  pub window_start : DateTime
  pub window_end : DateTime
  pub request_count_reserved : ℕ
  pub request_count_completed : ℕ
  pub token_count_reserved : ℕ
  pub token_count_completed : ℕ
  pub cost_reserved : ℕ
  pub cost_completed : ℕ

pub record Reservation : Type 0 where
  pub id : ℕ
  pub project_id : ℕ
  pub daily_window_id : ℕ
  pub monthly_window_id : Option ℕ
  pub request_slots : ℕ
  pub tokens_reserved : ℕ
  pub cost_reserved : ℕ
  pub reconciled_at : Option DateTime
  pub created_at : DateTime

pub record GatewayRequest : Type 0 where
  pub request_id : ℕ
  pub project_id : Option ℕ
  pub api_key_id : Option ℕ
  pub requested_model : Text
  pub provider : Option Text
  pub model : Option Text
  pub status : Text
  pub latency_ms : Option ℕ
  pub prompt_tokens : Option ℕ
  pub completion_tokens : Option ℕ
  pub total_tokens : Option ℕ
  pub estimated_cost : Option ℕ
  pub fallback_used : Bool
  pub error_code : Option Text
  pub error_message : Option Text
  pub gateway_profile_id : Option Text
  pub adapter_profile_id : Option Text
  pub domain_key : Option Text
  pub adaptation_mode : Option Text
  pub created_at : DateTime
  pub completed_at : Option DateTime
  pub limit_reservation_id : Option ℕ

pub record UsageEvent : Type 0 where
  pub gateway_request_id : ℕ
  pub project_id : ℕ
  pub provider : Text
  pub model : Text
  pub requested_model : Text
  pub prompt_tokens : ℕ
  pub completion_tokens : ℕ
  pub total_tokens : ℕ
  pub cost_usd : ℕ

pub data ActivationStatus : Type 0 where
  active canary retired promoted rolled_back : ActivationStatus

-- The composite score, a float that no operation reads, is left out.
pub record AdapterProfile : Type 0 where
  pub gateway_profile_id : Text
  pub adapter_profile_id : Text
  pub domain_key : Text
  pub profile_version : Option Text
  pub status : Text
  pub source_run_id : Option Text
  pub source_plan_id : Option Text
  pub evidence_hash : Option Text
  pub semantic_context_hash : Option Text
  pub slod_model_version : Option Text
  pub metadata_json : Option Text
  pub created_at : DateTime

pub record Activation : Type 0 where
  pub id : ℕ
  pub domain_key : Text
  pub gateway_profile_id : Text
  pub status : ActivationStatus
  pub canary_percent : Option ℕ
  pub previous_gateway_profile_id : Option Text
  pub created_at : DateTime
  pub activated_at : Option DateTime
  pub promoted_at : Option DateTime
  pub rolled_back_at : Option DateTime
  pub metadata_json : Option Text

-- An entry of the audit log; its metadata is that of `Audit`.
pub record AuditLog : Type 0 where
  pub actor_admin_user_id : Option Text
  pub actor_username : Option Text
  pub action : Text
  pub resource_type : Text
  pub resource_id : Option Text
  pub metadata_json : Option Text

pub record Project : Type 0 where
  pub id : ℕ
  pub name : Text

pub record ProjectApiKey : Type 0 where
  pub id : ℕ
  pub project_id : ℕ
  pub prefix : Text
  pub secret_hash : Text
  pub label : Option Text
  pub created_at : DateTime
  pub last_used_at : Option DateTime
  pub revoked_at : Option DateTime

pub record AdminUser : Type 0 where
  pub id : Text
  pub username : Text
  pub is_active : Bool
  pub password_hash : Text
  pub roles_json : Text

pub record Db : Type 0 where
  pub limits : List ProjectLimit
  pub windows : List UsageWindow
  pub reservations : List Reservation
  pub requests : List GatewayRequest
  pub events : List UsageEvent
  pub profiles : List AdapterProfile
  pub activations : List Activation
  pub audit : List AuditLog
  pub projects : List Project
  pub api_keys : List ProjectApiKey
  pub admin_users : List AdminUser
