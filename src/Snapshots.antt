-- ===== src/Snapshots.antt =====
-- backend/app/services/project_limit_reservations_query.py: what an administrator sees of the current
-- usage windows of a project.
pub mod Outstanding
use conexus.Prelude.{ℕ, Option, none, some}
use conexus.Clock.{DateTime, utc_day_bounds, utc_month_bounds}
use conexus.Table.{find_where}
use conexus.Models.{daily, monthly, UsageWindow, Db}
use conexus.Reservations.Windows.{is_window}

pub record DailyUsageWindowSnapshot : Type 0 where
  pub window_start : DateTime
  pub window_end : DateTime
  pub request_count_reserved : ℕ
  pub request_count_completed : ℕ
  pub token_count_reserved : ℕ
  pub token_count_completed : ℕ

pub record MonthlyUsageWindowSnapshot : Type 0 where
  pub window_start : DateTime
  pub window_end : DateTime
  pub cost_reserved : ℕ
  pub cost_completed : ℕ

pub record ProjectLimitReservationsSnapshot : Type 0 where
  pub project_id : ℕ
  pub daily : Option DailyUsageWindowSnapshot
  pub monthly : Option MonthlyUsageWindowSnapshot

unfoldable pub daily_snapshot : UsageWindow → DailyUsageWindowSnapshot
daily_snapshot row = record {
  window_start = row.window_start;
  window_end = row.window_end;
  request_count_reserved = row.request_count_reserved;
  request_count_completed = row.request_count_completed;
  token_count_reserved = row.token_count_reserved;
  token_count_completed = row.token_count_completed;
}

unfoldable pub monthly_snapshot : UsageWindow → MonthlyUsageWindowSnapshot
monthly_snapshot row = record {
  window_start = row.window_start;
  window_end = row.window_end;
  cost_reserved = row.cost_reserved;
  cost_completed = row.cost_completed;
}

unfoldable pub load_project_limit_reservations_snapshot :
    ℕ → DateTime → Db → ProjectLimitReservationsSnapshot
load_project_limit_reservations_snapshot project_id now db = record {
  project_id = project_id;
  daily = elim (find_where (is_window project_id daily (utc_day_bounds now).start) db.windows) [
    | none ↦ none
    | some row ↦ some (daily_snapshot row)
  ];
  monthly =
      elim (find_where (is_window project_id monthly (utc_month_bounds now).start) db.windows) [
        | none ↦ none
        | some row ↦ some (monthly_snapshot row)
      ];
}
