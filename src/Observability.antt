-- ===== src/Observability.antt =====
-- backend/app/api/internal_adapter_profiles.py, get_observability: the figures of the requests that
-- one adapter profile served in a window of time. The clock and `datetime.fromisoformat`, which
-- reads a moment in UTC, are parameters. A rate is kept as the fraction that the code divides, and a
-- moment as the datetime that the code prints.
pub mod Sorting
pub mod Ranking
pub mod Percentile
use conexus.Prelude.{
  ℕ, suc, ◌+◌, ◌-◌, ◌*◌, ◌/◌, max, Bool, true, false, not, ◌&&◌, Option, none, some, List, [], ◌∷◌,
  ◌++◌, leb, ltb, ◌==◌, if◌then◌else◌, length, sum_by,
}
use conexus.Text.{Text, codes, text_eq, strip, is_blank}
use conexus.Clock.{DateTime, le_time, lt_time, days_in_month}
use conexus.Http.{Http, response, exception, ◌>>=◌}
use conexus.Table.{select_where}
use conexus.Models.{GatewayRequest, AdapterProfile, Db}
use conexus.Profiles.{get_profile_or_404}
use conexus.Observability.Sorting.{sorted, item_at}

pub record Fraction : Type 0 where
  pub numerator : ℕ
  pub denominator : ℕ

pub record ObservabilityResponse : Type 0 where
  pub gateway_profile_id : Text
  pub window_start : DateTime
  pub window_end : DateTime
  pub request_count : ℕ
  pub error_rate : Fraction
  pub latency_p95_ms : Option ℕ
  pub cost_per_answer : Option Fraction

-- `t - timedelta(hours=24)`; before the year 1 it raises.
unfoldable pub day_before : DateTime → Http DateTime
day_before t =
    if ltb 1 t.day
    then response (record t { day = t.day - 1 })
    else if ltb 1 t.month
    then response (record t { month = t.month - 1; day = days_in_month t.year (t.month - 1) })
    else if ltb 1 t.year
    then response (record t { year = t.year - 1; month = 12; day = 31 })
    else exception 500 (codes "Internal Server Error")

-- `raw[:-1] + "+00:00"` if `raw.endswith("Z")`
unfoldable pub without_z : Text → Text
without_z [] = []
without_z (c ∷ []) = if c == b'Z' then codes "+00:00" else c ∷ []
without_z (c ∷ d ∷ raw) = c ∷ without_z (d ∷ raw)

-- `datetime.fromisoformat(raw)`, or the answer for a `ValueError`
abbrev pub read_moment : Option DateTime → Http (Option DateTime)
read_moment none = exception 400 (codes "invalid since/until")
read_moment (some t) = response (some t)

-- `_parse_window_param`
unfoldable pub parse_window_param : (Text → Option DateTime) → Option Text → Http (Option DateTime)
unfolding without_z
parse_window_param fromisoformat none = response none
parse_window_param fromisoformat (some value) =
    if is_blank (strip value)
    then response none
    else read_moment (fromisoformat (without_z (strip value)))

abbrev pub or_now : DateTime → Option DateTime → DateTime
or_now now none = now
or_now now (some t) = t

abbrev pub or_day_before : DateTime → Option DateTime → Http DateTime
or_day_before window_end none = day_before window_end
or_day_before window_end (some t) = response t

-- The filters of the select.
unfoldable pub observed : Text → DateTime → DateTime → GatewayRequest → Bool
observed gateway_profile_id window_start window_end r =
    elim r.gateway_profile_id [ none ↦ false | some id ↦ text_eq id gateway_profile_id ]
    && (le_time window_start r.created_at && le_time r.created_at window_end)

abbrev pub is_failed : GatewayRequest → Bool
is_failed r = text_eq r.status (codes "failed")

abbrev pub is_completed : GatewayRequest → Bool
is_completed r = text_eq r.status (codes "completed")

abbrev pub listed : Option ℕ → List ℕ
listed none = []
listed (some n) = n ∷ []

-- `[field for records if field is not None and status == COMPLETED]`
unfoldable pub completed_values : (GatewayRequest → Option ℕ) → List GatewayRequest → List ℕ
completed_values field [] = []
completed_values field (r ∷ records) =
    let rest = completed_values field records in
    if is_completed r then listed (field r) ++ rest else rest

-- `max(0, math.ceil(0.95 * n) - 1)`
unfoldable pub p95_index : ℕ → ℕ
p95_index n = max 0 ((95 * n + 99) / 100 - 1)

-- An index out of range, which raises, would show as no value for a list that has some.
unfoldable pub latency_p95 : List ℕ → Option ℕ
latency_p95 [] = none
latency_p95 (x ∷ xs) = item_at (sorted (x ∷ xs)) (p95_index (length (x ∷ xs)))

unfoldable pub cost_per_answer : List ℕ → ℕ → Option Fraction
cost_per_answer completed_costs completed_count =
    if ltb 0 completed_count && not (is_blank completed_costs)
    then some
        (record { numerator = sum_by (λ c. c) completed_costs; denominator = completed_count })
    else none

-- The figures of the records, an empty list included.
unfoldable pub summarize : Text → DateTime → DateTime → List GatewayRequest → ObservabilityResponse
summarize gateway_profile_id window_start window_end [] = record {
  gateway_profile_id = gateway_profile_id;
  window_start = window_start;
  window_end = window_end;
  request_count = 0;
  error_rate = record { numerator = 0; denominator = 1 };
  latency_p95_ms = none;
  cost_per_answer = none;
}
summarize gateway_profile_id window_start window_end (r ∷ rs) = record {
  gateway_profile_id = gateway_profile_id;
  window_start = window_start;
  window_end = window_end;
  request_count = length (r ∷ rs);
  error_rate = record {
    numerator = length (select_where is_failed (r ∷ rs));
    denominator = length (r ∷ rs);
  };
  latency_p95_ms = latency_p95 (completed_values GatewayRequest.latency_ms (r ∷ rs));
  cost_per_answer =
      cost_per_answer (completed_values GatewayRequest.estimated_cost (r ∷ rs))
        (length (select_where is_completed (r ∷ rs)));
}

-- The answer for a window whose ends are known.
unfoldable pub observe_window : Text → DateTime → DateTime → Db → Http ObservabilityResponse
observe_window gateway_profile_id window_start window_end db =
    if lt_time window_end window_start
    then exception 400 (codes "since must be <= until")
    else response (
        summarize gateway_profile_id window_start window_end
          (select_where (observed gateway_profile_id window_start window_end) db.requests))

-- The window from the parameters, `since` a day before the end where it is missing.
unfoldable pub observe :
    (Text → Option DateTime)
    → DateTime
    → Text
    → Option Text
    → Option Text
    → Db
    → Http ObservabilityResponse
observe fromisoformat now gateway_profile_id since until db = do
  until_moment ← parse_window_param fromisoformat until
  since_moment ← parse_window_param fromisoformat since
  window_start ← or_day_before (or_now now until_moment) since_moment
  observe_window gateway_profile_id window_start (or_now now until_moment) db

-- `get_observability`
unfoldable pub get_observability :
    (Text → Option DateTime)
    → Bool
    → DateTime
    → Text
    → Option Text
    → Option Text
    → Db
    → Http ObservabilityResponse
get_observability fromisoformat false now gateway_profile_id since until db =
    exception 404 (codes "observability disabled")
get_observability fromisoformat true now gateway_profile_id since until db = do
  profile ← get_profile_or_404 gateway_profile_id db
  observe fromisoformat now gateway_profile_id since until db
