-- ===== src/Tests.antt =====
-- Runs of the model on one project, and the theorems applied to them.
mod Repairs
mod Calls
mod Logins
mod Activations
mod Completions
mod Workflows
mod Accounts
mod Figures
mod Signins
mod Providing
use conexus.Prelude.{
  ℕ, ◌+◌, ◌*◌, ◌≤◌, ◌≡◌, ◌↔◌, refl, pos, negsuc, Bool, true, false, ◌⊎◌, none, some, [], ◌∷◌, arith,
  All,
}
use conexus.Text.{codes, text_eq, strip, lower, starts_with_any}
use conexus.Clock.{
  DateTime, Window, IsDateTime, in_window, since_epoch, day_micros, days_in_month, stamp,
  next_midnight, utc_day_bounds, utc_month_bounds,
}
use conexus.Table.{find_where, select_where, find_row, update_row}
use conexus.Table.Keys.{Distinct}
use conexus.Models.{hard, daily, monthly, ProjectLimit, Reservation, UsageWindow, Db}
use conexus.Aliases.{
  ModelAliasConfig, get_alias, get_alias_folded, match_alias_models,
  resolve_pricing_model_candidates,
}
use conexus.Pricing.{
  get_rates, get_cost, model_has_explicit_rates, estimate_reservation_cost_usd, max_estimate,
  estimate_hard_monthly_reservation_cost_usd,
}
use conexus.Pricing.Estimates.{OutputDearer}
use conexus.Limits.Passing.{Below, check_passes_iff_Below}
use conexus.Limits.{check_hard_limits, is_hard, requests_in, request_count, token_sum, cost_sum}
use conexus.Result.{Result, ok, raise}
use conexus.Reservations.Windows.{is_window, new_window, insert_window, get_or_create_window}
use conexus.Reservations.Admission.{
  Settings, ReserveArgs, Draws, LimitReservationResult, legacy, reserved_tokens, monthly_estimate,
  daily_exceeded, add_daily, add_monthly, commit_reservation, admit_monthly, admit,
  reserve_gateway_request,
}
use conexus.Reservations.Settlement.{
  lock_window, lock_windows, settle_daily, settle_monthly, release_daily, release_monthly,
  end_reservation, reconcile_gateway_request, release_orphan_limit_reservation,
}
use conexus.Reservations.Ledger.{counter, IsBalanced}
use conexus.Reservations.Admitting.{IsFresh}
use conexus.Reservations.Opening.{get_or_create_cases}
use conexus.Reservations.OnWindow.{OnWindow}
use conexus.Reservations.Admitted.{Fits, outstanding_requests, outstanding_tokens, outstanding_cost}
use conexus.Reservations.Enforcement.{
  reserve-IsBalanced, reserve_within_daily_limits, reserve_within_monthly_limit,
}
use conexus.Reservations.Balance.{reconcile-IsBalanced, release-IsBalanced}
use conexus.Reservations.Once.{reconcile_once, release_once}
use conexus.Reservations.Linked.{IsLinked, reconcile_total, release_total}
use conexus.Snapshots.{load_project_limit_reservations_snapshot}
use conexus.Snapshots.Outstanding.{DailyShows, MonthlyShows, snapshot_shows_outstanding}
use conexus.Clock.Bounds.{window_iff_same_date}

unfoldable pub program : Unit {0}
unfolding text_eq strip lower starts_with_any days_in_month stamp next_midnight utc_day_bounds
    utc_month_bounds find_where select_where find_row update_row get_alias get_alias_folded
    match_alias_models resolve_pricing_model_candidates get_rates get_cost model_has_explicit_rates
    estimate_reservation_cost_usd max_estimate estimate_hard_monthly_reservation_cost_usd is_hard
    requests_in request_count token_sum cost_sum insert_window get_or_create_window reserved_tokens
    monthly_estimate daily_exceeded add_daily add_monthly commit_reservation admit_monthly admit
    reserve_gateway_request lock_window lock_windows settle_daily settle_monthly release_daily
    release_monthly end_reservation reconcile_gateway_request release_orphan_limit_reservation
    counter
program = tt

abbrev pub noon : DateTime
noon = record { year = 2024; month = 2; day = 29; micros = 43_200_000_000 }

noon-IsDateTime : IsDateTime noon
unfolding program
noon-IsDateTime = record {
  month_pos = omega arith;
  month_le = omega arith;
  day_pos = omega arith;
  day_le = omega arith;
  micros_lt = omega arith;
}

abbrev morning : DateTime
morning = record noon { micros = 5 }

morning-IsDateTime : IsDateTime morning
unfolding program
morning-IsDateTime = record {
  month_pos = omega arith;
  month_le = omega arith;
  day_pos = omega arith;
  day_le = omega arith;
  micros_lt = omega arith;
}

abbrev pub config : ModelAliasConfig
config = record {
  default_primary_model = codes "claude-a";
  default_fallback_model = codes "gpt-b";
  aliases = (codes "fast", codes "claude-a", codes "gpt-b") ∷ [];
}

abbrev pub settings : Settings
settings = record {
  use_legacy_hard_limit_gateway_fallbacks = true;
  pricing =
      (codes "claude-a", record { input = 3_000_000; output = 15_000_000 })
      ∷ (codes "gpt-b", record { input = 1_000_000; output = 2_000_000 })
      ∷ [];
  alias_cfg = config;
  limit_reservation_force_repair_after_seconds = 3600;
}

abbrev limits : ProjectLimit
limits = record {
  project_id = 1;
  monthly_cost_limit = some 20_000_000_000;
  daily_request_limit = some 3;
  daily_token_limit = some 2000;
  limit_mode = hard;
}

abbrev request : ReserveArgs
request = record {
  project_id = 1;
  limits = limits;
  model = codes "fast";
  requested_max_tokens = pos 500;
  estimated_prompt_tokens = some (pos 100);
  now = noon;
}

-- Windows get even and odd ids.
abbrev pub draws : Draws
draws = record { daily_id = λ n. 2 * n; monthly_id = λ n. 2 * n + 1; reservation_id = 7 }

abbrev pub empty : Db
empty = record {
  limits = limits ∷ [];
  windows = [];
  reservations = [];
  requests = [];
  events = [];
  profiles = [];
  activations = [];
  audit = [];
  projects = [];
  api_keys = [];
  admin_users = [];
}

-- A window that starts at noon.
abbrev lunch : Window
lunch = record { start = noon; end = noon }

pub empty-IsFresh : IsFresh draws empty
unfolding program
empty-IsFresh = record {
  day = λ n. refl;
  month = λ n. refl;
  apart = λ n m e. omega arith;
  reservation = refl;
}

pub empty-IsBalanced : IsBalanced empty
unfolding program
empty-IsBalanced = record { requests = λ w. refl; tokens = λ w. refl; cost = λ w. refl }

abbrev state_of : Result (LimitReservationResult × Db) → Db
state_of (ok (_, db)) = db
state_of (raise _) = empty

abbrev admitted : LimitReservationResult
admitted = record { allowed = true; reservation_id = some 7; block = none }

abbrev pub reserved : Db
reserved = state_of (reserve_gateway_request settings draws request empty)

empty-reserved : reserve_gateway_request settings draws request empty ≡ ok (admitted, reserved)
unfolding program
empty-reserved = refl

abbrev settled : Db
settled = elim (reconcile_gateway_request noon 7 (pos 300) (pos 2_500_000_000) reserved) [
  | ok db ↦ db
  | raise _ ↦ empty
]

reserved-settled :
    reconcile_gateway_request noon 7 (pos 300) (pos 2_500_000_000) reserved ≡ ok settled
unfolding program
reserved-settled = refl

abbrev released : Db
released = elim (release_orphan_limit_reservation noon 7 reserved) [
  | ok (_, db) ↦ db
  | raise _ ↦ empty
]

reserved-released : release_orphan_limit_reservation noon 7 reserved ≡ ok (true, released)
unfolding program
reserved-released = refl

-- The claude price is the dearer one, and 600 tokens are reserved; the settlement moves them.
counters :
    (counter UsageWindow.cost_reserved 31 reserved.windows ≡ 600 * 15_000_000)
    × (counter UsageWindow.request_count_reserved 30 reserved.windows ≡ 1)
    × (counter UsageWindow.token_count_reserved 30 reserved.windows ≡ 600)
    × (counter UsageWindow.token_count_reserved 30 settled.windows ≡ 0)
    × (counter UsageWindow.token_count_completed 30 settled.windows ≡ 300)
    × (counter UsageWindow.cost_completed 31 settled.windows ≡ 2_500_000_000)
    × (counter UsageWindow.token_count_completed 30 released.windows ≡ 0)
unfolding program
counters = (refl, refl, refl, refl, refl, refl, refl)

pub reserved-IsBalanced : IsBalanced reserved
reserved-IsBalanced =
    reserve-IsBalanced settings draws request empty reserved admitted tt empty-IsFresh
      empty-IsBalanced empty-reserved

reserved-IsLinked : IsLinked reserved
unfolding program
reserved-IsLinked = (((_, refl), (_, refl)), tt)

-- A second request of the day, whose ids follow.
abbrev later_draws : Draws
later_draws = record {
  daily_id = λ n. 2 * n + 100;
  monthly_id = λ n. 2 * n + 101;
  reservation_id = 8;
}

abbrev admitted_later : LimitReservationResult
admitted_later = record { allowed = true; reservation_id = some 8; block = none }

abbrev reserved_twice : Db
reserved_twice = state_of (reserve_gateway_request settings later_draws request reserved)

reserved-reserved_twice :
    reserve_gateway_request settings later_draws request reserved
    ≡ ok (admitted_later, reserved_twice)
unfolding program
reserved-reserved_twice = refl

reserved-IsFresh : IsFresh later_draws reserved
unfolding program
reserved-IsFresh = record {
  day = λ n. ground arith;
  month = λ n. ground arith;
  apart = λ n m e. omega arith;
  reservation = refl;
}

reserved-Distinct : Distinct UsageWindow.id reserved.windows
unfolding program
reserved-Distinct = (refl, (refl, tt))

window_iff_same_date_example :
    ((in_window (utc_day_bounds noon) morning ≡ true)
      ↔ ((morning.year ≡ 2024) × (morning.month ≡ 2) × (morning.day ≡ 29)))
    × ((in_window (utc_month_bounds noon) morning ≡ true)
        ↔ ((morning.year ≡ 2024) × (morning.month ≡ 2)))
window_iff_same_date_example =
    window_iff_same_date noon morning (omega arith) noon-IsDateTime morning-IsDateTime

reserve-IsBalanced_example : IsBalanced reserved_twice
reserve-IsBalanced_example =
    reserve-IsBalanced settings later_draws request reserved reserved_twice admitted_later
      reserved-Distinct reserved-IsFresh reserved-IsBalanced reserved-reserved_twice

reconcile-IsBalanced_example : IsBalanced settled
reconcile-IsBalanced_example =
    reconcile-IsBalanced noon 7 (pos 300) (pos 2_500_000_000) reserved settled reserved-IsBalanced
      reserved-settled

release-IsBalanced_example : IsBalanced released
release-IsBalanced_example =
    release-IsBalanced noon 7 reserved released true reserved-IsBalanced reserved-released

reconcile_once_example :
    (reconcile_gateway_request noon 7 (pos 9) (pos 9) settled ≡ ok settled)
    × (release_orphan_limit_reservation noon 7 settled ≡ ok (false, settled))
reconcile_once_example =
    reconcile_once noon noon 7 (pos 300) (pos 2_500_000_000) (pos 9) (pos 9) reserved settled
      reserved-settled

reconcile_total_example :
    (db : Db) × (reconcile_gateway_request noon 7 (pos 9) (negsuc 4) reserved ≡ ok db) × IsLinked db
reconcile_total_example = reconcile_total noon 7 (pos 9) (negsuc 4) reserved reserved-IsLinked

reserve_within_daily_limits_example :
    (r : Reservation) × (find_row Reservation.id 8 reserved_twice.reservations ≡ some r)
    × OnWindow 1 daily (utc_day_bounds noon) r.daily_window_id reserved_twice.windows
    × Fits (some 3) (
        legacy settings (request_count 1 (utc_day_bounds noon) reserved.requests)
        + outstanding_requests r.daily_window_id reserved_twice)
    × Fits (some 2000) (
        legacy settings (token_sum 1 (utc_day_bounds noon) reserved.requests)
        + outstanding_tokens r.daily_window_id reserved_twice)
reserve_within_daily_limits_example =
    reserve_within_daily_limits settings later_draws request reserved reserved_twice admitted_later
      8 reserved-Distinct reserved-IsFresh reserved-IsBalanced reserved-reserved_twice refl

reserve_within_monthly_limit_example :
    (r : Reservation) × (m : ℕ) × (find_row Reservation.id 8 reserved_twice.reservations ≡ some r)
    × (r.monthly_window_id ≡ some m)
    × OnWindow 1 monthly (utc_month_bounds noon) m reserved_twice.windows
    × (legacy settings (cost_sum 1 (utc_month_bounds noon) reserved.requests)
          + outstanding_cost m reserved_twice
        ≤ 20_000_000_000)
reserve_within_monthly_limit_example =
    reserve_within_monthly_limit settings later_draws request reserved reserved_twice admitted_later
      8 20_000_000_000 reserved-Distinct reserved-IsFresh reserved-IsBalanced refl
      reserved-reserved_twice refl

pub prices-OutputDearer : OutputDearer settings.pricing
prices-OutputDearer = (omega arith, (omega arith, tt))

pub fast_estimate :
    estimate_hard_monthly_reservation_cost_usd settings.pricing config (codes "fast") 600
    ≡ some 9_000_000_000
unfolding program
fast_estimate = refl

pub fast_unpriced : model_has_explicit_rates settings.pricing (strip (codes "fast")) ≡ false
unfolding program
fast_unpriced = refl

snapshot_shows_outstanding_example :
    DailyShows 1 noon reserved (load_project_limit_reservations_snapshot 1 noon reserved).daily
    × MonthlyShows 1 noon reserved
        (load_project_limit_reservations_snapshot 1 noon reserved).monthly
snapshot_shows_outstanding_example =
    snapshot_shows_outstanding 1 noon reserved reserved-Distinct reserved-IsBalanced

check_passes_iff_Below_example : (check_hard_limits 1 limits noon empty.requests ≡ none) ↔ (
    Below (some 3) (request_count 1 (utc_day_bounds noon) empty.requests)
    × Below (some 2000) (token_sum 1 (utc_day_bounds noon) empty.requests)
    × Below (some 20_000_000_000) (cost_sum 1 (utc_month_bounds noon) empty.requests))
check_passes_iff_Below_example = check_passes_iff_Below 1 limits noon empty.requests refl
