-- ===== src/Reservations/Enforcement.antt =====
-- An admission keeps the ledger, and what is then outstanding lies within every limit.
use conexus.Prelude.{ℕ, ◌+◌, ◌≤◌, ◌≡◌, some, arith, inl, inr}
use conexus.Result.{ok}
use conexus.Clock.{utc_day_bounds, utc_month_bounds}
use conexus.Table.{find_row}
use conexus.Table.Keys.{Distinct}
use conexus.Models.{UsageWindow, Reservation, Db, daily, monthly}
use conexus.Limits.{request_count, token_sum, cost_sum}
use conexus.Reservations.Admission.{
  Settings, ReserveArgs, Draws, LimitReservationResult, legacy, reserve_gateway_request,
}
use conexus.Reservations.Ledger.{IsBalanced}
use conexus.Reservations.Admitting.{IsFresh}
use conexus.Reservations.Outcomes.{reserve_cases}
use conexus.Reservations.Committing.{IsBalanced-SameCounts}
use conexus.Reservations.OnWindow.{OnWindow}
use conexus.Reservations.Admitted.{
  outstanding_requests, outstanding_tokens, outstanding_cost, Fits, Admitted-IsBalanced, new,
  day-OnWindow, month-OnWindow, new-found, id-admitted, admitted-requests_fit, admitted-tokens_fit,
  month-cost,
}

-- From a balanced ledger, `reserve_gateway_request` leaves a balanced ledger: on each window the
-- reserved requests, tokens and cost are the sums over the outstanding reservations, whether the
-- request is admitted or refused. The ids of the windows are distinct and the drawn UUIDs new.
pub reserve-IsBalanced :
    (cfg : Settings) (draws : Draws) (a : ReserveArgs) (db db' : Db) (res : LimitReservationResult)
    → Distinct UsageWindow.id db.windows
    → IsFresh draws db
    → IsBalanced db
    → reserve_gateway_request cfg draws a db ≡ ok (res, db')
    → IsBalanced db'
reserve-IsBalanced cfg draws a db db' res distinct fresh b h =
    elim (reserve_cases cfg draws a db db' res distinct fresh h) [
      | inl s ↦ rw (s.after) b
      | inr (inl r) ↦ rw (r.after) (IsBalanced-SameCounts db r.windows r.counts b)
      | inr (inr m) ↦ Admitted-IsBalanced cfg draws a db db' res b m
    ]

-- From a balanced ledger with distinct window ids and new UUIDs: after an admission the new
-- reservation is on the window of the project's UTC day, and what is then
-- outstanding on that window, with what the request log counts where the legacy fallback is on, is
-- within the project's daily limits of requests and tokens.
pub reserve_within_daily_limits :
    (cfg : Settings) (draws : Draws) (a : ReserveArgs) (db db' : Db) (res : LimitReservationResult)
    (id : ℕ)
    → Distinct UsageWindow.id db.windows
    → IsFresh draws db
    → IsBalanced db
    → reserve_gateway_request cfg draws a db ≡ ok (res, db')
    → res.reservation_id ≡ some id
    → (r : Reservation) × (find_row Reservation.id id db'.reservations ≡ some r)
      × OnWindow a.project_id daily (utc_day_bounds a.now) r.daily_window_id db'.windows
      × Fits a.limits.daily_request_limit (
          legacy cfg (request_count a.project_id (utc_day_bounds a.now) db.requests)
          + outstanding_requests r.daily_window_id db')
      × Fits a.limits.daily_token_limit (
          legacy cfg (token_sum a.project_id (utc_day_bounds a.now) db.requests)
          + outstanding_tokens r.daily_window_id db')
reserve_within_daily_limits cfg draws a db db' res id distinct fresh b h reserved =
    elim (reserve_cases cfg draws a db db' res distinct fresh h) [
      | inl s ↦ absurd (ground (arith, s.unreserved))
      | inr (inl r) ↦ absurd (ground (arith, r.unreserved))
      | inr (inr m) ↦
          let same : id ≡ draws.reservation_id =
            ground (arith, id-admitted cfg draws a db db' res b m) in
          (
            new cfg draws a db db' res b m,
            rw same (new-found cfg draws a db db' res b m fresh.reservation),
            unfold new in day-OnWindow cfg draws a db db' res b m,
            unfold new in admitted-requests_fit cfg draws a db db' res b m,
            unfold new in admitted-tokens_fit cfg draws a db db' res b m,
          )
    ]

-- From a balanced ledger with distinct window ids and new UUIDs: after an admission under a monthly
-- cost limit the new reservation is on the window of the project's
-- UTC month, and what is then outstanding on that window, with the logged cost where the legacy
-- fallback is on, is within the limit.
pub reserve_within_monthly_limit :
    (cfg : Settings) (draws : Draws) (a : ReserveArgs) (db db' : Db) (res : LimitReservationResult)
    (id limit : ℕ)
    → Distinct UsageWindow.id db.windows
    → IsFresh draws db
    → IsBalanced db
    → a.limits.monthly_cost_limit ≡ some limit
    → reserve_gateway_request cfg draws a db ≡ ok (res, db')
    → res.reservation_id ≡ some id
    → (r : Reservation) × (m : ℕ) × (find_row Reservation.id id db'.reservations ≡ some r)
      × (r.monthly_window_id ≡ some m)
      × OnWindow a.project_id monthly (utc_month_bounds a.now) m db'.windows
      × (legacy cfg (cost_sum a.project_id (utc_month_bounds a.now) db.requests)
            + outstanding_cost m db'
          ≤ limit)
reserve_within_monthly_limit cfg draws a db db' res id limit distinct fresh b limited h reserved =
    elim (reserve_cases cfg draws a db db' res distinct fresh h) [
      | inl s ↦ absurd (ground (arith, s.unreserved))
      | inr (inl r) ↦ absurd (ground (arith, r.unreserved))
      | inr (inr m) ↦
          let (month, at_month, there, window, fits) = m.committed.room.limited limit limited in
          let same : id ≡ draws.reservation_id =
            ground (arith, id-admitted cfg draws a db db' res b m) in
          (
            new cfg draws a db db' res b m,
            month.id,
            rw same (new-found cfg draws a db db' res b m fresh.reservation),
            unfold new in at_month,
            month-OnWindow cfg draws a db db' res b m month there window,
            omega (arith, fits, month-cost cfg draws a db db' res b m month at_month there),
          )
    ]
