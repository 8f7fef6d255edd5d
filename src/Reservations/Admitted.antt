-- ===== src/Reservations/Admitted.antt =====
-- The state after an admission: its ledger, its windows, and what is then outstanding on them.
use conexus.Prelude.{
  ℕ, ◌+◌, ◌≤◌, ◌≡◌, true, Option, none, some, List, ◌∷◌, ◌++◌, [], arith, sum_by, sum_by-append,
  Option-cases, refl, inl, inr, ==_refl, ap,
}
use conexus.Clock.{utc_day_bounds, utc_month_bounds}
use conexus.Table.{find_row, update_row}
use conexus.Table.Laws.{find_row-append}
use conexus.Models.{UsageWindow, Reservation, Db, daily, monthly}
use conexus.Limits.{request_count, token_sum}
use conexus.Reservations.Windows.{is_window, update_optional}
use conexus.Reservations.Admission.{
  Settings, ReserveArgs, Draws, LimitReservationResult, reserved_tokens, legacy, new_reservation,
  commit_reservation, add_daily, add_monthly,
}
use conexus.Reservations.Ledger.{share, daily_column, counter_of_row, IsBalanced}
use conexus.Reservations.Admitting.{HasMonthlyRoom, Committed}
use conexus.Reservations.Outcomes.{Admitted}
use conexus.Reservations.Committing.{IsBalanced-SameCounts, commit-IsBalanced}
use conexus.Reservations.OnWindow.{OnWindow, OnWindow-update_row, OnWindow-update_optional}

-- What the outstanding reservations hold on a window.
abbrev pub outstanding_requests : ℕ → Db → ℕ
outstanding_requests w db = sum_by (share daily_column Reservation.request_slots w) db.reservations

abbrev pub outstanding_tokens : ℕ → Db → ℕ
outstanding_tokens w db = sum_by (share daily_column Reservation.tokens_reserved w) db.reservations

abbrev pub outstanding_cost : ℕ → Db → ℕ
outstanding_cost w db =
    sum_by (share Reservation.monthly_window_id Reservation.cost_reserved w) db.reservations

-- A limit that is not set fits everything.
abbrev pub Fits : Option ℕ → ℕ → Type 0
Fits none n = Unit
Fits (some limit) n = n ≤ limit

pub month_known :
    (cfg : Settings) (a : ReserveArgs) (db : Db) (cost : ℕ) (ws : List UsageWindow)
    (month_id : Option ℕ) (m : ℕ)
    → HasMonthlyRoom cfg a db cost ws month_id
    → month_id ≡ some m
    → (row : UsageWindow) × (find_row UsageWindow.id m ws ≡ some row)
month_known cfg a db cost ws month_id m room e = elim (Option-cases a.limits.monthly_cost_limit) [
  | inl no_limit ↦ absurd (ground (arith, room.unlimited no_limit))
  | inr (limit, limited) ↦
      let (month, at_month, there, _, _) = room.limited limit limited in
      let same : m ≡ month.id = ground arith in (month, cc)
]

pub reservations-admitted :
    (cfg : Settings) (draws : Draws) (a : ReserveArgs) (tokens cost day_id : ℕ) (db db' : Db)
    (res : LimitReservationResult) (c : Committed cfg draws a tokens cost day_id db db' res)
    → db'.reservations
      ≡ db.reservations ++ new_reservation draws a tokens cost day_id c.month_id ∷ []
unfolding commit_reservation
reservations-admitted cfg draws a tokens cost day_id db db' res c =
    ap (λ (p : LimitReservationResult × Db). p.1.reservations) c.after

pub Admitted-IsBalanced :
    (cfg : Settings) (draws : Draws) (a : ReserveArgs) (db db' : Db) (res : LimitReservationResult)
    → IsBalanced db
    → Admitted cfg draws a db db' res
    → IsBalanced db'
Admitted-IsBalanced cfg draws a db db' res b m =
    let c = m.committed in
    let db1 : Db = record db { windows = m.opened } in
    let db2 : Db = record db { windows = c.windows } in
    let tokens = reserved_tokens a.requested_max_tokens a.estimated_prompt_tokens in
    let same : db' ≡ (commit_reservation draws a tokens m.cost m.day.id c.month_id db2).1 =
      ap (λ (p : LimitReservationResult × Db). p.1) c.after in
    rw same (
      commit-IsBalanced draws a tokens m.cost m.day c.month_id db2 (c.keeps m.day.id m.day m.there)
        (λ k e. month_known cfg a db1 m.cost c.windows c.month_id k c.room e)
        (IsBalanced-SameCounts db1 c.windows c.counts
          (IsBalanced-SameCounts db m.opened m.counts b)))

module _ (cfg : Settings) (draws : Draws) (a : ReserveArgs) (db db' : Db)
    (res : LimitReservationResult) (b : IsBalanced db) (m : Admitted cfg draws a db db' res) where
  open m use {day, cost, committed}

  unfoldable pub tokens : ℕ
  tokens = reserved_tokens a.requested_max_tokens a.estimated_prompt_tokens

  unfoldable pub new : Reservation
  unfolding tokens
  new = new_reservation draws a tokens cost day.id committed.month_id

  day-requests : outstanding_requests day.id db' ≡ day.request_count_reserved + 1
  unfolding tokens new
  day-requests = rw (reservations-admitted cfg draws a tokens cost day.id _ db' res committed) (
      ground (
        arith,
        sum_by-append (share daily_column Reservation.request_slots day.id) db.reservations
            (new ∷ []),
        b.requests day.id,
        m.counts.requests day.id,
        counter_of_row UsageWindow.request_count_reserved day.id m.opened day m.there,
        ==_refl day.id,
      ))

  day-tokens : outstanding_tokens day.id db' ≡ day.token_count_reserved + tokens
  unfolding tokens new
  day-tokens = rw (reservations-admitted cfg draws a tokens cost day.id _ db' res committed) (
      ground (
        arith,
        sum_by-append (share daily_column Reservation.tokens_reserved day.id) db.reservations
            (new ∷ []),
        b.tokens day.id,
        m.counts.tokens day.id,
        counter_of_row UsageWindow.token_count_reserved day.id m.opened day m.there,
        ==_refl day.id,
      ))

  pub admitted-requests_fit : Fits a.limits.daily_request_limit (
      legacy cfg (request_count a.project_id (utc_day_bounds a.now) db.requests)
      + outstanding_requests day.id db')
  admitted-requests_fit = elim (Option-cases a.limits.daily_request_limit) [
    | inl no_limit ↦ rw no_limit tt
    | inr (limit, limited) ↦ rw limited (omega (arith, m.room.requests limit limited, day-requests))
  ]

  pub admitted-tokens_fit : Fits a.limits.daily_token_limit (
      legacy cfg (token_sum a.project_id (utc_day_bounds a.now) db.requests)
      + outstanding_tokens day.id db')
  unfolding tokens
  admitted-tokens_fit = elim (Option-cases a.limits.daily_token_limit) [
    | inl no_limit ↦ rw no_limit tt
    | inr (limit, limited) ↦ rw limited (omega (arith, m.room.tokens_fit limit limited, day-tokens))
  ]

  pub month-cost :
      (month : UsageWindow)
      → committed.month_id ≡ some month.id
      → find_row UsageWindow.id month.id committed.windows ≡ some month
      → outstanding_cost month.id db' ≡ month.cost_reserved + cost
  unfolding tokens new
  month-cost month at_month there =
      rw (reservations-admitted cfg draws a tokens cost day.id _ db' res committed) (
        ground (
          arith,
          sum_by-append (share Reservation.monthly_window_id Reservation.cost_reserved month.id)
              db.reservations (new ∷ []),
          b.cost month.id,
          m.counts.cost month.id,
          committed.counts.cost month.id,
          counter_of_row UsageWindow.cost_reserved month.id committed.windows month there,
          ==_refl month.id,
        ))

  pub new-found :
      find_row Reservation.id draws.reservation_id db.reservations ≡ none
      → find_row Reservation.id draws.reservation_id db'.reservations ≡ some new
  unfolding new find_row
  new-found fresh = rw (reservations-admitted cfg draws a tokens cost day.id _ db' res committed) (
      ground (
        arith,
        find_row-append Reservation.id draws.reservation_id db.reservations (new ∷ []),
        ==_refl draws.reservation_id,
      ))

  pub id-admitted : res.reservation_id ≡ some draws.reservation_id
  unfolding commit_reservation
  id-admitted = ap (λ (p : LimitReservationResult × Db). p.0.reservation_id) committed.after

  pub windows-admitted :
      db'.windows
      ≡ update_optional committed.month_id
          (add_monthly cost)
          (update_row UsageWindow.id day.id (add_daily tokens) committed.windows)
  unfolding commit_reservation tokens
  windows-admitted = ap (λ (p : LimitReservationResult × Db). p.1.windows) committed.after

  pub day-OnWindow : OnWindow a.project_id daily (utc_day_bounds a.now) day.id db'.windows
  unfolding add_daily add_monthly
  day-OnWindow = rw windows-admitted (
      OnWindow-update_optional a.project_id daily (utc_day_bounds a.now) committed.month_id day.id
        (add_monthly cost) (update_row UsageWindow.id day.id (add_daily tokens) committed.windows)
        (λ x. refl) (λ x. refl)
        (OnWindow-update_row a.project_id daily (utc_day_bounds a.now) day.id day.id
          (add_daily tokens) committed.windows (λ x. refl) (λ x. refl)
          (day, committed.keeps day.id day m.there, m.window)))

  pub month-OnWindow :
      (month : UsageWindow)
      → find_row UsageWindow.id month.id committed.windows ≡ some month
      → is_window a.project_id monthly (utc_month_bounds a.now).start month ≡ true
      → OnWindow a.project_id monthly (utc_month_bounds a.now) month.id db'.windows
  unfolding add_daily add_monthly
  month-OnWindow month there window = rw windows-admitted (
      OnWindow-update_optional a.project_id monthly (utc_month_bounds a.now) committed.month_id
        month.id (add_monthly cost)
        (update_row UsageWindow.id day.id (add_daily tokens) committed.windows) (λ x. refl)
        (λ x. refl)
        (OnWindow-update_row a.project_id monthly (utc_month_bounds a.now) day.id month.id
          (add_daily tokens) committed.windows (λ x. refl) (λ x. refl) (month, there, window)))
