-- ===== src/Reservations/Admitting.antt =====
-- The outcomes of `reserve_gateway_request`: no hard limit, a block, or an admission that found room.
use conexus.Prelude.{
  ℕ, ◌+◌, ◌≤◌, ◌<◌, ◌≡◌, ◌≢◌, refl, true, false, Option, none, some, List, arith, Option-cases,
  Bool-cases, inl, inr, ◌⊎◌, ltb,
}
use conexus.Clock.{Window, utc_day_bounds, utc_month_bounds}
use conexus.Result.{ok}
use conexus.Table.{find_row}
use conexus.Table.Keys.{Distinct}
use conexus.Models.{WindowKind, monthly, UsageWindow, Reservation, Db}
use conexus.Limits.{LimitBlock, cost_block, request_count, token_sum, cost_sum}
use conexus.Reservations.Windows.{is_window}
use conexus.Reservations.Admission.{
  Settings, ReserveArgs, Draws, LimitReservationResult, legacy, daily_exceeded, commit_reservation,
  admit_monthly,
}
use conexus.Reservations.Ledger.{counter}
use conexus.Reservations.Opening.{Opened, get_or_create_returns, get_or_create-Opened}

-- The UUIDs drawn are new.
pub record IsFresh (draws : Draws) (db : Db) : Type 0 where
  pub day : (n : ℕ) → find_row UsageWindow.id (draws.daily_id n) db.windows ≡ none
  pub month : (n : ℕ) → find_row UsageWindow.id (draws.monthly_id n) db.windows ≡ none
  pub apart : (n m : ℕ) → draws.daily_id n ≢ draws.monthly_id m
  pub reservation : find_row Reservation.id draws.reservation_id db.reservations ≡ none

-- The windows that a call leaves count as they did.
pub record SameCounts (ws ws' : List UsageWindow) : Type 0 where
  pub requests :
      (w : ℕ)
      → counter UsageWindow.request_count_reserved w ws'
        ≡ counter UsageWindow.request_count_reserved w ws
  pub tokens :
      (w : ℕ)
      → counter UsageWindow.token_count_reserved w ws'
        ≡ counter UsageWindow.token_count_reserved w ws
  pub cost :
      (w : ℕ) → counter UsageWindow.cost_reserved w ws' ≡ counter UsageWindow.cost_reserved w ws

-- The two daily checks passed for `day`.
pub record HasDailyRoom (cfg : Settings) (a : ReserveArgs) (db : Db) (tokens : ℕ)
    (day : UsageWindow) : Type 0 where
  pub requests :
      (limit : ℕ)
      → a.limits.daily_request_limit ≡ some limit
      → legacy cfg (request_count a.project_id (utc_day_bounds a.now) db.requests)
          + day.request_count_reserved
        < limit
  pub tokens_fit :
      (limit : ℕ)
      → a.limits.daily_token_limit ≡ some limit
      → legacy cfg (token_sum a.project_id (utc_day_bounds a.now) db.requests)
          + day.token_count_reserved
          + tokens
        ≤ limit

-- The month's window, where there is a monthly limit, and the room in it.
pub record HasMonthlyRoom (cfg : Settings) (a : ReserveArgs) (db : Db) (cost : ℕ)
    (ws : List UsageWindow) (month_id : Option ℕ) : Type 0 where
  pub unlimited : a.limits.monthly_cost_limit ≡ none → month_id ≡ none
  pub limited :
      (limit : ℕ)
      → a.limits.monthly_cost_limit ≡ some limit
      → (month : UsageWindow) × (month_id ≡ some month.id)
        × (find_row UsageWindow.id month.id ws ≡ some month)
        × (is_window a.project_id monthly (utc_month_bounds a.now).start month ≡ true)
        × (legacy cfg (cost_sum a.project_id (utc_month_bounds a.now) db.requests)
              + month.cost_reserved
              + cost
            ≤ limit)

pub HasDailyRoom-of_none :
    (cfg : Settings) (a : ReserveArgs) (db : Db) (tokens : ℕ) (day : UsageWindow)
    (ws : List UsageWindow)
    → daily_exceeded cfg a tokens day (record db { windows = ws }) ≡ none
    → HasDailyRoom cfg a db tokens day
unfolding daily_exceeded
HasDailyRoom-of_none cfg a db tokens day ws h = record {
  requests = λ limit e. ground arith;
  tokens_fit = λ limit e. ground arith;
}

pub SameCounts-Opened :
    (p : ℕ) (k : WindowKind) (w : Window) (ws ws' : List UsageWindow) (row : UsageWindow)
    → Opened p k w ws row ws'
    → SameCounts ws ws'
SameCounts-Opened p k w ws ws' row o = record {
  requests = o.counts UsageWindow.request_count_reserved (λ id. refl);
  tokens = o.counts UsageWindow.token_count_reserved (λ id. refl);
  cost = o.counts UsageWindow.cost_reserved (λ id. refl);
}

-- A refusal: nothing is reserved, though a window may have been created.
pub record Refused (db db' : Db) (res : LimitReservationResult) : Type 0 where
  pub denied : res.allowed ≡ false
  pub unreserved : res.reservation_id ≡ none
  pub reason : (b : LimitBlock) × (res.block ≡ some b)
  pub windows : List UsageWindow
  pub after : db' ≡ record db { windows = windows }
  pub counts : SameCounts db.windows windows
  pub distinct : Distinct UsageWindow.id windows

-- An admission on the window `day_id`, from the state that the daily check left.
pub record Committed (cfg : Settings) (draws : Draws) (a : ReserveArgs) (tokens cost day_id : ℕ)
    (db db' : Db) (res : LimitReservationResult) : Type 0 where
  pub month_id : Option ℕ
  pub windows : List UsageWindow
  pub after :
      ◌≡◌ {A = LimitReservationResult × Db}
        (res, db')
        (commit_reservation draws a tokens cost day_id month_id (record db { windows = windows }))
  pub counts : SameCounts db.windows windows
  pub distinct : Distinct UsageWindow.id windows
  pub room : HasMonthlyRoom cfg a db cost windows month_id
  pub keeps :
      (k : ℕ) (row : UsageWindow)
      → find_row UsageWindow.id k db.windows ≡ some row
      → find_row UsageWindow.id k windows ≡ some row

pub admit_monthly_cases :
    (cfg : Settings) (draws : Draws) (a : ReserveArgs) (tokens cost day_id : ℕ) (db db' : Db)
    (res : LimitReservationResult)
    → Distinct UsageWindow.id db.windows
    → find_row UsageWindow.id (draws.monthly_id 15) db.windows ≡ none
    → admit_monthly cfg draws a tokens cost day_id db ≡ ok (res, db')
    → Refused db db' res ⊎ Committed cfg draws a tokens cost day_id db db' res
unfolding admit_monthly
admit_monthly_cases cfg draws a tokens cost day_id db db' res distinct fresh h =
    elim (Option-cases a.limits.monthly_cost_limit) [
      | inl no_limit ↦ inr (record {
        month_id = none;
        windows = db.windows;
        after = ground arith;
        counts = record { requests = λ w. refl; tokens = λ w. refl; cost = λ w. refl };
        distinct = distinct;
        room = record { unlimited = λ _. refl; limited = λ l e. absurd (ground arith) };
        keeps = λ k row e. e;
      })
      | inr (limit, limited) ↦
          let w = utc_month_bounds a.now in
          let (month, ws', opened) =
            get_or_create_returns 15 draws.monthly_id a.project_id monthly w db.windows in
          let o =
            get_or_create-Opened 15 draws.monthly_id a.project_id monthly w db.windows ws' month
              distinct fresh opened in
          let committed = legacy cfg (cost_sum a.project_id w db.requests) + month.cost_reserved in
          elim (Bool-cases (ltb limit (committed + cost))) [
            | inl over ↦ inl (record {
              denied = ground arith;
              unreserved = ground arith;
              reason = (cost_block committed limit w.end, ground arith);
              windows = ws';
              after = ground arith;
              counts = SameCounts-Opened a.project_id monthly w db.windows ws' month o;
              distinct = o.distinct;
            })
            | inr fits ↦ inr (record {
              month_id = some month.id;
              windows = ws';
              after = ground arith;
              counts = SameCounts-Opened a.project_id monthly w db.windows ws' month o;
              distinct = o.distinct;
              room = record {
                unlimited = λ e. absurd (ground arith);
                limited = λ l e. (month, refl, o.there, o.window, ground arith);
              };
              keeps = o.keeps;
            })
          ]
    ]
