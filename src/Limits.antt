-- ===== src/Limits.antt =====
-- backend/app/services/project_limits_service.py: the lookup of a project's limits, the usage that
-- the request log shows, and the aggregate check of hard limits.
pub mod Passing
use conexus.Prelude.{
  ℕ, Bool, true, false, ◌&&◌, Option, none, some, List, length, sum_by, leb, ◌==◌, if◌then◌else◌,
}
use conexus.Text.{Text, codes}
use conexus.Clock.{DateTime, Window, utc_day_bounds, utc_month_bounds, in_window}
use conexus.Table.{find_where, select_where}
use conexus.Models.{LimitMode, ProjectLimit, GatewayRequest}

-- A value of a limit: a number of requests or tokens, or money in the unit of `Models`.
pub record LimitBlock : Type 0 where
  pub error_code : Text
  pub error_message : Text
  pub limit_type : Text
  pub current_value : ℕ
  pub limit_value : ℕ
  pub window : Text
  pub reset_at : DateTime

pub record ProjectLimitUsage : Type 0 where
  pub project_id : ℕ
  pub day : Window
  pub daily_request_count : ℕ
  pub daily_total_tokens : ℕ
  pub month : Window
  pub monthly_estimated_cost : ℕ

-- A nullable column compared with a value; NULL equals nothing.
abbrev pub holds : Option ℕ → ℕ → Bool
holds none v = false
holds (some u) v = u == v

-- `COALESCE(column, 0)`
abbrev pub or_zero : Option ℕ → ℕ
or_zero none = 0
or_zero (some n) = n

unfoldable pub is_hard : LimitMode → Bool
is_hard LimitMode.hard = true
is_hard _ = false

unfoldable pub get_project_limits : ℕ → List ProjectLimit → Option ProjectLimit
unfolding find_where
get_project_limits project_id limits = find_where (λ l. l.project_id == project_id) limits

-- The rows of a project whose `created_at` lies in a window.
unfoldable pub requests_in : ℕ → Window → List GatewayRequest → List GatewayRequest
unfolding select_where
requests_in project_id w =
    select_where (λ r. holds r.project_id project_id && in_window w r.created_at)

unfoldable pub request_count : ℕ → Window → List GatewayRequest → ℕ
unfolding requests_in
request_count project_id w rows = length (requests_in project_id w rows)

unfoldable pub token_sum : ℕ → Window → List GatewayRequest → ℕ
unfolding requests_in
token_sum project_id w rows = sum_by (λ r. or_zero r.total_tokens) (requests_in project_id w rows)

unfoldable pub cost_sum : ℕ → Window → List GatewayRequest → ℕ
unfolding requests_in
cost_sum project_id w rows = sum_by (λ r. or_zero r.estimated_cost) (requests_in project_id w rows)

unfoldable pub get_project_limit_usage : ℕ → DateTime → List GatewayRequest → ProjectLimitUsage
unfolding request_count token_sum cost_sum utc_day_bounds utc_month_bounds
get_project_limit_usage project_id now rows =
    let day = utc_day_bounds now in
    let month = utc_month_bounds now in
    record {
      project_id = project_id;
      day = day;
      daily_request_count = request_count project_id day rows;
      daily_total_tokens = token_sum project_id day rows;
      month = month;
      monthly_estimated_cost = cost_sum project_id month rows;
    }

abbrev pub request_block : ℕ → ℕ → DateTime → LimitBlock
request_block current limit reset_at = record {
  error_code = codes "daily_request_limit_exceeded";
  error_message = codes "Daily request limit exceeded for this project.";
  limit_type = codes "daily_request_limit";
  current_value = current;
  limit_value = limit;
  window = codes "utc_day";
  reset_at = reset_at;
}

abbrev pub token_block : ℕ → ℕ → DateTime → LimitBlock
token_block current limit reset_at = record {
  error_code = codes "daily_token_limit_exceeded";
  error_message = codes "Daily token limit exceeded for this project.";
  limit_type = codes "daily_token_limit";
  current_value = current;
  limit_value = limit;
  window = codes "utc_day";
  reset_at = reset_at;
}

abbrev pub cost_block : ℕ → ℕ → DateTime → LimitBlock
cost_block current limit reset_at = record {
  error_code = codes "monthly_cost_limit_exceeded";
  error_message = codes "Monthly cost limit exceeded for this project.";
  limit_type = codes "monthly_cost_limit";
  current_value = current;
  limit_value = limit;
  window = codes "utc_month";
  reset_at = reset_at;
}

-- `if limit is not None and current >= limit: return block`, and then the next check.
abbrev pub block_at : Option ℕ → ℕ → (ℕ → LimitBlock) → Option LimitBlock → Option LimitBlock
block_at none current block next = next
block_at (some limit) current block next = if leb limit current then some (block limit) else next

unfoldable pub check_hard_limits :
    ℕ → ProjectLimit → DateTime → List GatewayRequest → Option LimitBlock
unfolding is_hard request_count token_sum cost_sum utc_day_bounds utc_month_bounds
check_hard_limits project_id limits now rows =
    let day = utc_day_bounds now in
    let month = utc_month_bounds now in
    let count = request_count project_id day rows in
    let tokens = token_sum project_id day rows in
    let cost = cost_sum project_id month rows in
    if is_hard limits.limit_mode
    then block_at limits.daily_request_limit count (λ l. request_block count l day.end)
        (block_at limits.daily_token_limit tokens (λ l. token_block tokens l day.end)
          (block_at limits.monthly_cost_limit cost (λ l. cost_block cost l month.end) none))
    else none
