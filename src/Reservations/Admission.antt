-- ===== src/Reservations/Admission.antt =====
-- `reserve_gateway_request`: the checks in the source's order, and the rows that an admission writes.
use conexus.Prelude.{
  ℕ, ◌+◌, ℤ, pos_part, Bool, true, false, Option, none, some, [], ◌∷◌, ◌++◌, ltb, leb,
  if◌then◌else◌,
}
use conexus.Text.{Text, codes}
use conexus.Clock.{DateTime, utc_day_bounds, utc_month_bounds}
use conexus.Table.{update_row}
use conexus.Result.{Result, ok, ◌>>=◌}
use conexus.Models.{daily, monthly, ProjectLimit, UsageWindow, Reservation, Db}
use conexus.Aliases.{ModelAliasConfig}
use conexus.Pricing.{PricingTable, estimate_hard_monthly_reservation_cost_usd}
use conexus.Limits.{
  LimitBlock, is_hard, request_count, token_sum, cost_sum, request_block, token_block, cost_block,
}
use conexus.Reservations.Windows.{get_or_create_window, update_optional}

-- The settings and caches that admission reads.
pub record Settings : Type 0 where
  pub use_legacy_hard_limit_gateway_fallbacks : Bool
  pub pricing : PricingTable
  pub alias_cfg : ModelAliasConfig
  pub limit_reservation_force_repair_after_seconds : ℕ

pub record LimitReservationResult : Type 0 where
  pub allowed : Bool
  pub reservation_id : Option ℕ
  pub block : Option LimitBlock

-- The arguments of `reserve_gateway_request`.
pub record ReserveArgs : Type 0 where
  pub project_id : ℕ
  pub limits : ProjectLimit
  pub model : Text
  pub requested_max_tokens : ℤ
  pub estimated_prompt_tokens : Option ℤ
  pub now : DateTime

-- The UUIDs drawn on the way: one for each attempt to create a window, and the reservation's.
pub record Draws : Type 0 where
  pub daily_id : ℕ → ℕ
  pub monthly_id : ℕ → ℕ
  pub reservation_id : ℕ

abbrev pub blocked : LimitBlock → LimitReservationResult
blocked b = record { allowed = false; reservation_id = none; block = some b }

unfoldable pub reserved_tokens : ℤ → Option ℤ → ℕ
reserved_tokens requested_max_tokens none = pos_part requested_max_tokens
reserved_tokens requested_max_tokens (some estimated_prompt_tokens) =
    pos_part requested_max_tokens + pos_part estimated_prompt_tokens

-- The estimate, where a monthly limit asks for one; `none` if a price is missing.
unfoldable pub monthly_estimate : Settings → ReserveArgs → ℕ → Option ℕ
monthly_estimate cfg a tokens = elim a.limits.monthly_cost_limit [
  | none ↦ some 0
  | some _ ↦ estimate_hard_monthly_reservation_cost_usd cfg.pricing cfg.alias_cfg a.model tokens
]

abbrev pub limit_or_zero : Option ℕ → ℕ
limit_or_zero none = 0
limit_or_zero (some l) = l

abbrev pub pricing_block : ReserveArgs → LimitBlock
pricing_block a = record {
  error_code = codes "pricing_unavailable_for_hard_cost_limit";
  error_message =
      codes
        "Monthly cost limit is enabled but this model is not in the pricing table; configure pricing or relax limits.";
  limit_type = codes "monthly_cost_limit";
  current_value = 0;
  limit_value = limit_or_zero a.limits.monthly_cost_limit;
  window = codes "utc_month";
  reset_at = (utc_month_bounds a.now).end;
}

abbrev pub legacy : Settings → ℕ → ℕ
legacy cfg n = if cfg.use_legacy_hard_limit_gateway_fallbacks then n else 0

-- The two daily checks; `committed` is what the log and the window already count.
abbrev pub requests_exceeded : ReserveArgs → ℕ → Option LimitBlock
requests_exceeded a committed = elim a.limits.daily_request_limit [
  | none ↦ none
  | some limit ↦
      if leb limit committed
      then some (request_block committed limit (utc_day_bounds a.now).end)
      else none
]

abbrev pub tokens_exceeded : ReserveArgs → ℕ → ℕ → Option LimitBlock
tokens_exceeded a committed tokens = elim a.limits.daily_token_limit [
  | none ↦ none
  | some limit ↦
      if ltb limit (committed + tokens)
      then some (token_block committed limit (utc_day_bounds a.now).end)
      else none
]

unfoldable pub daily_exceeded : Settings → ReserveArgs → ℕ → UsageWindow → Db → Option LimitBlock
daily_exceeded cfg a tokens day db =
    let w = utc_day_bounds a.now in
    let requests =
      legacy cfg (request_count a.project_id w db.requests) + day.request_count_reserved in
    let committed = legacy cfg (token_sum a.project_id w db.requests) + day.token_count_reserved in
    elim (requests_exceeded a requests) [
      | some b ↦ some b
      | none ↦ tokens_exceeded a committed tokens
    ]

unfoldable pub add_daily : ℕ → UsageWindow → UsageWindow
add_daily tokens w = record w {
  request_count_reserved = w.request_count_reserved + 1;
  token_count_reserved = w.token_count_reserved + tokens;
}

unfoldable pub add_monthly : ℕ → UsageWindow → UsageWindow
add_monthly cost w = record w { cost_reserved = w.cost_reserved + cost }

abbrev pub new_reservation : Draws → ReserveArgs → ℕ → ℕ → ℕ → Option ℕ → Reservation
new_reservation draws a tokens cost daily_id monthly_id = record {
  id = draws.reservation_id;
  project_id = a.project_id;
  daily_window_id = daily_id;
  monthly_window_id = monthly_id;
  request_slots = 1;
  tokens_reserved = tokens;
  cost_reserved = cost;
  reconciled_at = none;
  created_at = a.now;
}

-- The end of a successful admission: the counters, and the new reservation row.
unfoldable pub commit_reservation :
    Draws → ReserveArgs → ℕ → ℕ → ℕ → Option ℕ → Db → LimitReservationResult × Db
unfolding add_daily add_monthly
commit_reservation draws a tokens cost daily_id monthly_id db = (
  record { allowed = true; reservation_id = some draws.reservation_id; block = none },
  record db {
    windows =
        update_optional monthly_id (add_monthly cost)
          (update_row UsageWindow.id daily_id (add_daily tokens) db.windows);
    reservations = db.reservations ++ new_reservation draws a tokens cost daily_id monthly_id ∷ [];
  },
)

-- The monthly check, from the row of the month.
unfoldable pub admit_monthly :
    Settings → Draws → ReserveArgs → ℕ → ℕ → ℕ → Db → Result (LimitReservationResult × Db)
admit_monthly cfg draws a tokens cost daily_id db = elim a.limits.monthly_cost_limit [
  | none ↦ ok (commit_reservation draws a tokens cost daily_id none db)
  | some limit ↦
      let w = utc_month_bounds a.now in
      do
        (month, ws) ← get_or_create_window 16 draws.monthly_id a.project_id monthly w db.windows
        let db' = record db { windows = ws }
        let committed = legacy cfg (cost_sum a.project_id w db.requests) + month.cost_reserved
        let denied = ltb limit (committed + cost)
        if denied
            then ok (blocked (cost_block committed limit w.end), db')
            else ok (commit_reservation draws a tokens cost daily_id (some month.id) db')
]

unfoldable pub admit :
    Settings → Draws → ReserveArgs → ℕ → ℕ → Db → Result (LimitReservationResult × Db)
admit cfg draws a tokens cost db = do
  (day, ws) ←
      get_or_create_window 16 draws.daily_id a.project_id daily (utc_day_bounds a.now) db.windows
  let db' = record db { windows = ws }
  elim (daily_exceeded cfg a tokens day db') [
    | some b ↦ ok (blocked b, db')
    | none ↦ admit_monthly cfg draws a tokens cost day.id db'
  ]

unfoldable pub reserve_gateway_request :
    Settings → Draws → ReserveArgs → Db → Result (LimitReservationResult × Db)
reserve_gateway_request cfg draws a db =
    let tokens = reserved_tokens a.requested_max_tokens a.estimated_prompt_tokens in
    if is_hard a.limits.limit_mode
    then elim (monthly_estimate cfg a tokens) [
      | none ↦ ok (blocked (pricing_block a), db)
      | some cost ↦ admit cfg draws a tokens cost db
    ]
    else ok (record { allowed = true; reservation_id = none; block = none }, db)
