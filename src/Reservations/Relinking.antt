-- ===== src/Reservations/Relinking.antt =====
-- A reservation always answers, and an admission keeps the windows of every reservation.
use conexus.Prelude.{
  ◌∙◌, ℕ, ◌≡◌, refl, true, some, List, [], ◌∷◌, arith, All-append, Option-cases, inl, inr,
}
use conexus.Clock.{utc_day_bounds, utc_month_bounds}
use conexus.Result.{ok, is_ok}
use conexus.Table.{find_row, update_row}
use conexus.Models.{UsageWindow, Reservation, Db, daily, monthly}
use conexus.Reservations.Admission.{
  Settings, ReserveArgs, Draws, LimitReservationResult, reserved_tokens, monthly_estimate,
  admit_monthly, admit, reserve_gateway_request, add_daily, add_monthly,
}
use conexus.Reservations.Opening.{get_or_create_returns}
use conexus.Reservations.Settlement.{lock_windows}
use conexus.Reservations.Ledger.{IsBalanced}
use conexus.Reservations.Outcomes.{Admitted}
use conexus.Reservations.Admitted.{
  tokens, month_known, reservations-admitted, windows-admitted, new,
}
use conexus.Reservations.Linked.{
  IsLinked, IsLockable, IsLockable-of_IsLinked, IsLinked-of_IsLockable, All-map,
  lock_windows-update_row, lock_windows-update_optional,
}

admit_monthly_returns :
    (cfg : Settings) (draws : Draws) (a : ReserveArgs) (t cost day_id : ℕ) (db : Db)
    → is_ok (admit_monthly cfg draws a t cost day_id db) ≡ true
unfolding admit_monthly
admit_monthly_returns cfg draws a t cost day_id db = ground (
  arith,
  get_or_create_returns 15 draws.monthly_id a.project_id monthly (utc_month_bounds a.now)
      db.windows,
)

admit_returns :
    (cfg : Settings) (draws : Draws) (a : ReserveArgs) (t cost : ℕ) (db : Db)
    → is_ok (admit cfg draws a t cost db) ≡ true
unfolding admit
admit_returns cfg draws a t cost db =
    let (day, ws, opened) =
      get_or_create_returns 15 draws.daily_id a.project_id daily (utc_day_bounds a.now)
        db.windows in
    ground
      (arith, opened, admit_monthly_returns cfg draws a t cost day.id (record db { windows = ws }))

pub reserve_returns :
    (cfg : Settings) (draws : Draws) (a : ReserveArgs) (db : Db)
    → is_ok (reserve_gateway_request cfg draws a db) ≡ true
unfolding reserve_gateway_request
reserve_returns cfg draws a db =
    let t = reserved_tokens a.requested_max_tokens a.estimated_prompt_tokens in
    elim (Option-cases (monthly_estimate cfg a t)) [
      | inl e ↦ ground arith
      | inr (cost, e) ↦ ground (arith, admit_returns cfg draws a t cost db)
    ]

-- A reservation's windows are read where they stay.
lock_windows-keeps :
    (r : Reservation) (ws ws' : List UsageWindow)
    → ((k : ℕ) (row : UsageWindow)
        → find_row UsageWindow.id k ws ≡ some row
        → find_row UsageWindow.id k ws' ≡ some row)
    → lock_windows r ws ≡ ok tt
    → lock_windows r ws' ≡ ok tt
unfolding lock_windows
lock_windows-keeps r ws ws' keeps h =
    elim (Option-cases (find_row UsageWindow.id r.daily_window_id ws)) [
      | inl missing ↦ absurd (ground arith)
      | inr (day, at_day) ↦ elim (Option-cases r.monthly_window_id) [
        | inl no_month ↦ ground (arith, keeps r.daily_window_id day at_day)
        | inr (m, at_m) ↦ elim (Option-cases (find_row UsageWindow.id m ws)) [
          | inl missing ↦ absurd (ground arith)
          | inr (month, at_month) ↦
              ground (arith, keeps r.daily_window_id day at_day, keeps m month at_month)
        ]
      ]
    ]

module _ (cfg : Settings) (draws : Draws) (a : ReserveArgs) (db db' : Db)
    (res : LimitReservationResult) (b : IsBalanced db) (m : Admitted cfg draws a db db' res) where
  open m use {day, cost, committed, opened}

  locked_after :
      (r : Reservation)
      → lock_windows r committed.windows ≡ ok tt
      → lock_windows r db'.windows ≡ ok tt
  unfolding add_daily add_monthly tokens
  locked_after r h =
      let t = reserved_tokens a.requested_max_tokens a.estimated_prompt_tokens in
      rw (windows-admitted cfg draws a db db' res b m) (
        lock_windows-update_optional r committed.month_id (add_monthly cost)
          (update_row UsageWindow.id day.id (add_daily t) committed.windows) (λ x. refl)
        ∙ lock_windows-update_row r day.id (add_daily t) committed.windows (λ x. refl)
        ∙ h)

  new_locked : lock_windows (new cfg draws a db db' res b m) committed.windows ≡ ok tt
  unfolding lock_windows new
  new_locked = elim (Option-cases committed.month_id) [
    | inl no_month ↦ ground (arith, committed.keeps day.id day m.there)
    | inr (k, at_k) ↦ ground (
      arith,
      committed.keeps day.id day m.there,
      month_known cfg a (record db { windows = opened }) cost committed.windows committed.month_id k
          committed.room at_k,
    )
  ]

  admitted-IsLockable : IsLockable db → IsLockable db'
  unfolding new tokens
  admitted-IsLockable linked =
      rw (reservations-admitted cfg draws a _ cost day.id _ db' res committed) (
        All-append _ db.reservations (new cfg draws a db db' res b m ∷ [])
          (All-map (λ r. lock_windows r db.windows ≡ ok tt)
            (λ r. lock_windows r db'.windows ≡ ok tt) db.reservations
            (λ r h. locked_after r (
              lock_windows-keeps r opened committed.windows committed.keeps
                (lock_windows-keeps r db.windows opened m.keeps h)))
            linked)
          (locked_after (new cfg draws a db db' res b m) new_locked, tt))

  -- An admission keeps the windows of every reservation, the new one's among them.
  pub admitted-IsLinked : IsLinked db → IsLinked db'
  admitted-IsLinked linked =
      IsLinked-of_IsLockable db' (admitted-IsLockable (IsLockable-of_IsLinked db linked))
