-- ===== src/Reservations/Outcomes.antt =====
-- The whole of `reserve_gateway_request`, outcome by outcome.
use conexus.Prelude.{
  ℕ, ◌≡◌, refl, true, false, none, some, List, arith, Option-cases, Bool-cases, inl, inr, ◌⊎◌, ◌∙◌,
}
use conexus.Clock.{Window, utc_day_bounds}
use conexus.Result.{ok}
use conexus.Table.{find_row}
use conexus.Table.Keys.{Distinct}
use conexus.Models.{daily, UsageWindow, Db}
use conexus.Limits.{is_hard}
use conexus.Reservations.Windows.{is_window, get_or_create_window}
use conexus.Reservations.Admission.{
  Settings, ReserveArgs, Draws, LimitReservationResult, pricing_block, reserved_tokens,
  daily_exceeded, admit, monthly_estimate, reserve_gateway_request,
}
use conexus.Reservations.Opening.{get_or_create_returns, get_or_create-Opened, get_or_create-fresh}
use conexus.Reservations.Admitting.{
  IsFresh, SameCounts, SameCounts-Opened, HasDailyRoom, HasDailyRoom-of_none, Refused, Committed,
  admit_monthly_cases,
}

-- No hard limit applies: the call goes ahead and nothing is recorded.
pub record Skipped (a : ReserveArgs) (db db' : Db) (res : LimitReservationResult) : Type 0 where
  pub soft : is_hard a.limits.limit_mode ≡ false
  pub allowed : res.allowed ≡ true
  pub unreserved : res.reservation_id ≡ none
  pub after : db' ≡ db

-- An admission: the day's window had room, and then the month's.
pub record Admitted (cfg : Settings) (draws : Draws) (a : ReserveArgs) (db db' : Db)
    (res : LimitReservationResult) : Type 0 where
  pub day : UsageWindow
  pub cost : ℕ
  pub opened : List UsageWindow
  pub priced :
      monthly_estimate cfg a (reserved_tokens a.requested_max_tokens a.estimated_prompt_tokens)
      ≡ some cost
  pub there : find_row UsageWindow.id day.id opened ≡ some day
  pub window : is_window a.project_id daily (utc_day_bounds a.now).start day ≡ true
  pub counts : SameCounts db.windows opened
  pub keeps :
      (k : ℕ) (row : UsageWindow)
      → find_row UsageWindow.id k db.windows ≡ some row
      → find_row UsageWindow.id k opened ≡ some row
  pub room :
      HasDailyRoom cfg a db (reserved_tokens a.requested_max_tokens a.estimated_prompt_tokens) day
  pub committed :
      Committed cfg draws a
        (reserved_tokens a.requested_max_tokens a.estimated_prompt_tokens)
        cost
        day.id
        (record db { windows = opened })
        db'
        res

abbrev pub Outcome : Settings → Draws → ReserveArgs → Db → Db → LimitReservationResult → Type 0
Outcome cfg draws a db db' res =
    Skipped a db db' res ⊎ Refused db db' res ⊎ Admitted cfg draws a db db' res

SameCounts-trans :
    (us vs ws : List UsageWindow) → SameCounts us vs → SameCounts vs ws → SameCounts us ws
SameCounts-trans us vs ws g h = record {
  requests = λ w. h.requests w ∙ g.requests w;
  tokens = λ w. h.tokens w ∙ g.tokens w;
  cost = λ w. h.cost w ∙ g.cost w;
}

Refused-later :
    (db : Db) (opened : List UsageWindow) (db' : Db) (res : LimitReservationResult)
    → SameCounts db.windows opened
    → Refused (record db { windows = opened }) db' res
    → Refused db db' res
Refused-later db opened db' res counts r = record {
  denied = r.denied;
  unreserved = r.unreserved;
  reason = r.reason;
  windows = r.windows;
  after = r.after;
  counts = SameCounts-trans db.windows opened r.windows counts r.counts;
  distinct = r.distinct;
}

-- The month's identifier is still new once the day's window is there.
month_fresh :
    (draws : Draws) (db : Db) (p : ℕ) (w : Window) (ws : List UsageWindow) (row : UsageWindow)
    → IsFresh draws db
    → get_or_create_window 16 draws.daily_id p daily w db.windows ≡ ok (row, ws)
    → find_row UsageWindow.id (draws.monthly_id 15) ws ≡ none
month_fresh draws db p w ws row fresh h =
    get_or_create-fresh 15 draws.daily_id p daily w db.windows ws row (draws.monthly_id 15)
      (fresh.month 15) (fresh.apart 15 15) h

pub admit_cases :
    (cfg : Settings) (draws : Draws) (a : ReserveArgs) (cost : ℕ) (db db' : Db)
    (res : LimitReservationResult)
    → Distinct UsageWindow.id db.windows
    → IsFresh draws db
    → monthly_estimate cfg a (reserved_tokens a.requested_max_tokens a.estimated_prompt_tokens)
      ≡ some cost
    → admit cfg draws a (reserved_tokens a.requested_max_tokens a.estimated_prompt_tokens) cost db
      ≡ ok (res, db')
    → Refused db db' res ⊎ Admitted cfg draws a db db' res
unfolding admit
admit_cases cfg draws a cost db db' res distinct fresh priced h =
    let tokens = reserved_tokens a.requested_max_tokens a.estimated_prompt_tokens in
    let w = utc_day_bounds a.now in
    let (day, ws, opened) =
      get_or_create_returns 15 draws.daily_id a.project_id daily w db.windows in
    let o =
      get_or_create-Opened 15 draws.daily_id a.project_id daily w db.windows ws day distinct
        (fresh.day 15) opened in
    let counts = SameCounts-Opened a.project_id daily w db.windows ws day o in
    let db1 = record db { windows = ws } in
    elim (Option-cases (daily_exceeded cfg a tokens day db1)) [
      | inr (b, over) ↦ inl (record {
        denied = ground arith;
        unreserved = ground arith;
        reason = (b, ground arith);
        windows = ws;
        after = ground arith;
        counts = counts;
        distinct = o.distinct;
      })
      | inl passed ↦
          elim (admit_monthly_cases cfg draws a tokens cost day.id db1 db' res o.distinct
            (month_fresh draws db a.project_id w ws day fresh opened) (ground arith)) [
              | inl refused ↦ inl (Refused-later db ws db' res counts refused)
              | inr committed ↦ inr (record {
                day = day;
                cost = cost;
                opened = ws;
                priced = priced;
                there = o.there;
                window = o.window;
                counts = counts;
                keeps = o.keeps;
                room = HasDailyRoom-of_none cfg a db tokens day ws passed;
                committed = committed;
              })
            ]
    ]

pub reserve_cases :
    (cfg : Settings) (draws : Draws) (a : ReserveArgs) (db db' : Db) (res : LimitReservationResult)
    → Distinct UsageWindow.id db.windows
    → IsFresh draws db
    → reserve_gateway_request cfg draws a db ≡ ok (res, db')
    → Outcome cfg draws a db db' res
unfolding reserve_gateway_request
reserve_cases cfg draws a db db' res distinct fresh h =
    let tokens = reserved_tokens a.requested_max_tokens a.estimated_prompt_tokens in
    elim (Bool-cases (is_hard a.limits.limit_mode)) [
      | inr soft ↦ inl (record {
        soft = soft;
        allowed = ground arith;
        unreserved = ground arith;
        after = ground arith;
      })
      | inl hard ↦ elim (Option-cases (monthly_estimate cfg a tokens)) [
        | inl unpriced ↦ inr (
            inl (record {
              denied = ground arith;
              unreserved = ground arith;
              reason = (pricing_block a, ground arith);
              windows = db.windows;
              after = ground arith;
              counts = record { requests = λ w. refl; tokens = λ w. refl; cost = λ w. refl };
              distinct = distinct;
            }))
        | inr (cost, priced) ↦
            inr (admit_cases cfg draws a cost db db' res distinct fresh priced (ground arith))
      ]
    ]
