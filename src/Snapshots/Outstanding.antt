-- ===== src/Snapshots/Outstanding.antt =====
-- The reserved counters of a snapshot against the reservations that are outstanding.
use conexus.Prelude.{ℕ, ◌≡◌, sym, ◌∙◌, Option, none, some, Option-cases, inl, inr}
use conexus.Clock.{DateTime, Window, utc_day_bounds, utc_month_bounds}
use conexus.Table.{find_row, find_where}
use conexus.Table.Laws.{holds-find_where}
use conexus.Table.Keys.{Distinct, find_row-find_where}
use conexus.Models.{WindowKind, daily, monthly, UsageWindow, Db}
use conexus.Reservations.Windows.{is_window}
use conexus.Reservations.Ledger.{IsBalanced, counter, counter_of_row}
use conexus.Reservations.OnWindow.{OnWindow}
use conexus.Reservations.Admitted.{outstanding_requests, outstanding_tokens, outstanding_cost}
use conexus.Snapshots.{
  DailyUsageWindowSnapshot, MonthlyUsageWindowSnapshot, daily_snapshot, monthly_snapshot,
  load_project_limit_reservations_snapshot,
}

abbrev NoWindow : ℕ → WindowKind → Window → Db → Type 0
NoWindow project_id kind w db = find_where (is_window project_id kind w.start) db.windows ≡ none

-- The counters of a day against the outstanding reservations on its window.
abbrev pub DailyShows : ℕ → DateTime → Db → Option DailyUsageWindowSnapshot → Type 0
DailyShows project_id now db none = NoWindow project_id daily (utc_day_bounds now) db
DailyShows project_id now db (some d) =
    (id : ℕ) × OnWindow project_id daily (utc_day_bounds now) id db.windows
    × (d.request_count_reserved ≡ outstanding_requests id db)
    × (d.token_count_reserved ≡ outstanding_tokens id db)

abbrev pub MonthlyShows : ℕ → DateTime → Db → Option MonthlyUsageWindowSnapshot → Type 0
MonthlyShows project_id now db none = NoWindow project_id monthly (utc_month_bounds now) db
MonthlyShows project_id now db (some m) =
    (id : ℕ) × OnWindow project_id monthly (utc_month_bounds now) id db.windows
    × (m.cost_reserved ≡ outstanding_cost id db)

module _ (project_id : ℕ) (now : DateTime) (db : Db) (distinct : Distinct UsageWindow.id db.windows)
    (balanced : IsBalanced db) where
  by_id :
      (kind : WindowKind) (w : Window) (row : UsageWindow)
      → find_where (is_window project_id kind w.start) db.windows ≡ some row
      → find_row UsageWindow.id row.id db.windows ≡ some row
  by_id kind w row found =
      find_row-find_where UsageWindow.id (is_window project_id kind w.start) db.windows row distinct
        found

  on_window :
      (kind : WindowKind) (w : Window) (row : UsageWindow)
      → find_where (is_window project_id kind w.start) db.windows ≡ some row
      → OnWindow project_id kind w row.id db.windows
  on_window kind w row found = (
    row,
    by_id kind w row found,
    holds-find_where (is_window project_id kind w.start) db.windows row found,
  )

  counted :
      (kind : WindowKind) (w : Window) (row : UsageWindow) (count : UsageWindow → ℕ)
      → find_where (is_window project_id kind w.start) db.windows ≡ some row
      → count row ≡ counter count row.id db.windows
  counted kind w row count found =
      sym (counter_of_row count row.id db.windows row (by_id kind w row found))

  -- While the ledger balances and the windows have distinct ids, a snapshot shows as reserved for
  -- the day and the month what the outstanding reservations on these windows of the project hold,
  -- and it leaves a window out only if there is none.
  pub snapshot_shows_outstanding :
      DailyShows project_id now db
        (load_project_limit_reservations_snapshot project_id now db).daily
      × MonthlyShows project_id now db
          (load_project_limit_reservations_snapshot project_id now db).monthly
  unfolding load_project_limit_reservations_snapshot daily_snapshot monthly_snapshot
  snapshot_shows_outstanding =
      let day = utc_day_bounds now in
      let month = utc_month_bounds now in
      (
        elim (Option-cases (find_where (is_window project_id daily day.start) db.windows)) [
          | inl missing ↦ rw (DailyShows, missing) missing
          | inr (row, found) ↦
              rw (DailyShows, found)
                (
                  row.id,
                  on_window daily day row found,
                  counted daily day row UsageWindow.request_count_reserved found
                      ∙ balanced.requests row.id,
                  counted daily day row UsageWindow.token_count_reserved found
                      ∙ balanced.tokens row.id,
                )
        ],
        elim (Option-cases (find_where (is_window project_id monthly month.start) db.windows)) [
          | inl missing ↦ rw (MonthlyShows, missing) missing
          | inr (row, found) ↦
              rw (MonthlyShows, found)
                (
                  row.id,
                  on_window monthly month row found,
                  counted monthly month row UsageWindow.cost_reserved found ∙ balanced.cost row.id,
                )
        ],
      )
