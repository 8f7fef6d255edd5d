-- ===== src/Clock.antt =====
-- UTC datetimes, and the accounting windows of backend/app/services/project_limits_service.py.
pub mod Bounds
use conexus.Prelude.{
  ℕ, zero, suc, ◌+◌, ◌-◌, ◌*◌, ◌/◌, ◌%◌, ◌<◌, ◌≤◌, Bool, ◌&&◌, ◌||◌, not, ltb, leb, ◌==◌,
  if◌then◌else◌,
}

-- A `datetime` in UTC: its date, and the microseconds since midnight.
pub record DateTime : Type 0 where
  pub year : ℕ
  pub month : ℕ
  pub day : ℕ
  pub micros : ℕ

abbrev pub day_micros : ℕ
day_micros = 86_400_000_000

unfoldable pub is_leap : ℕ → Bool
is_leap y = y % 4 == 0 && (not (y % 100 == 0) || y % 400 == 0)

unfoldable pub days_in_month : ℕ → ℕ → ℕ
unfolding is_leap
days_in_month y m =
    if m == 2
    then (if is_leap y then 29 else 28)
    else if m == 4 || m == 6 || m == 9 || m == 11
    then 30
    else 31

-- The values that Python's `datetime` constructor accepts.
pub record IsDateTime (t : DateTime) : Type 0 where
  pub month_pos : 1 ≤ t.month
  pub month_le : t.month ≤ 12
  pub day_pos : 1 ≤ t.day
  pub day_le : t.day ≤ days_in_month t.year t.month
  pub micros_lt : t.micros < day_micros

-- Datetimes are compared by date and then by time, which is the order of this number.
unfoldable pub stamp : DateTime → ℕ
stamp t = ((t.year * 16 + t.month) * 32 + t.day) * day_micros + t.micros

-- `a <= b`, `a < b`
abbrev pub le_time : DateTime → DateTime → Bool
le_time a b = leb (stamp a) (stamp b)

abbrev pub lt_time : DateTime → DateTime → Bool
lt_time a b = ltb (stamp a) (stamp b)

abbrev pub midnight : ℕ → ℕ → ℕ → DateTime
midnight y m d = record { year = y; month = m; day = d; micros = 0 }

-- `t + timedelta(days=1)` at midnight
unfoldable pub next_midnight : DateTime → DateTime
next_midnight t =
    if ltb t.day (days_in_month t.year t.month)
    then midnight t.year t.month (t.day + 1)
    else if ltb t.month 12
    then midnight t.year (t.month + 1) 1
    else midnight (t.year + 1) 1 1

pub record Window : Type 0 where
  pub start : DateTime
  pub end : DateTime

unfoldable pub utc_day_bounds : DateTime → Window
utc_day_bounds now =
    let start = midnight now.year now.month now.day in
    record { start = start; end = next_midnight start }

unfoldable pub utc_month_bounds : DateTime → Window
utc_month_bounds now = record {
  start = midnight now.year now.month 1;
  end =
      if now.month == 12 then midnight (now.year + 1) 1 1 else midnight now.year (now.month + 1) 1;
}

-- `created_at >= start and created_at < end`
abbrev pub in_window : Window → DateTime → Bool
in_window w t = le_time w.start t && lt_time t w.end

-- Days before the first of a month, in its year; months count from 1.
unfoldable pub days_before_month : ℕ → ℕ → ℕ
days_before_month y zero = 0
days_before_month y (suc m) = if m == 0 then 0 else days_before_month y m + days_in_month y m

-- Microseconds since the first of January of the year 1, the scale of datetime subtraction.
unfoldable pub since_epoch : DateTime → ℕ
since_epoch t =
    let y = t.year - 1 in
    let days = y * 365 + y / 4 - y / 100 + y / 400 + days_before_month t.year t.month + t.day in
    days * day_micros + t.micros

-- `max(0, int((now - then).total_seconds()))`
unfoldable pub age_seconds : DateTime → DateTime → ℕ
age_seconds now created_at = (since_epoch now - since_epoch created_at) / 1_000_000
