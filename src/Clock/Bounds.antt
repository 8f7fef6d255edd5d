-- ===== src/Clock/Bounds.antt =====
-- The day and the month that `_utc_day_bounds` and `_utc_month_bounds` compute. On the last day of the
-- year 9999 the code raises an OverflowError, where the model goes on.
use conexus.Prelude.{◌<◌, ◌↔◌, refl, ℕ, ◌≡◌, ◌≤◌, true, arith}
use conexus.Clock.{
  DateTime, IsDateTime, days_in_month, stamp, next_midnight, utc_day_bounds, utc_month_bounds,
  in_window,
}

days_in_month-le : (y m : ℕ) → days_in_month y m ≤ 31
unfolding days_in_month
days_in_month-le y m = ground arith

-- A valid datetime lies in its day.
pub now-in_window-day :
    (now : DateTime) → IsDateTime now → in_window (utc_day_bounds now) now ≡ true
unfolding utc_day_bounds stamp next_midnight
now-in_window-day now h = ground (arith, days_in_month-le now.year now.month)

-- The daily window of a valid datetime lies within its monthly window.
pub day_within_month :
    (now : DateTime)
    → IsDateTime now
    → (stamp (utc_month_bounds now).start ≤ stamp (utc_day_bounds now).start)
      × (stamp (utc_day_bounds now).end ≤ stamp (utc_month_bounds now).end)
unfolding utc_day_bounds utc_month_bounds stamp next_midnight
day_within_month now h = ground (arith, days_in_month-le now.year now.month)

same_month :
    (now t : DateTime)
    → IsDateTime now
    → IsDateTime t
    → in_window (utc_day_bounds now) t ≡ true
    → (t.year ≡ now.year) × (t.month ≡ now.month)
unfolding utc_day_bounds stamp next_midnight
same_month now t h k inside =
    let le = days_in_month-le now.year now.month in
    let le' = days_in_month-le t.year t.month in
    (ground (arith, h, k, inside), ground (arith, h, k, inside))

same_day :
    (now t : DateTime)
    → IsDateTime now
    → IsDateTime t
    → in_window (utc_day_bounds now) t ≡ true
    → t.day ≡ now.day
unfolding utc_day_bounds stamp next_midnight
same_day now t h k inside =
    let (y, m) = same_month now t h k inside in
    let e : days_in_month t.year t.month ≡ days_in_month now.year now.month = rw (y, m) refl in
    ground (arith, h, k, inside, y, m, e)

in_day :
    (now t : DateTime)
    → IsDateTime t
    → (t.year ≡ now.year) × (t.month ≡ now.month) × (t.day ≡ now.day)
    → in_window (utc_day_bounds now) t ≡ true
unfolding utc_day_bounds stamp next_midnight
in_day now t k same = ground (arith, k, same, days_in_month-le t.year t.month)

in_month_iff :
    (now t : DateTime)
    → IsDateTime now
    → IsDateTime t
    → (in_window (utc_month_bounds now) t ≡ true) ↔ ((t.year ≡ now.year) × (t.month ≡ now.month))
unfolding utc_month_bounds stamp
in_month_iff now t h k =
    let le = days_in_month-le t.year t.month in
    (
      λ inside. (ground (arith, h, k, inside), ground (arith, h, k, inside)),
      λ same. ground (arith, h, k, same),
    )

-- For valid datetimes and a `now` before the year 9999, a datetime lies in the daily window of `now`
-- exactly if it has its date, and in the monthly window exactly if it has its year and month.
pub window_iff_same_date :
    (now t : DateTime)
    → now.year < 9999
    → IsDateTime now
    → IsDateTime t
    → ((in_window (utc_day_bounds now) t ≡ true)
        ↔ ((t.year ≡ now.year) × (t.month ≡ now.month) × (t.day ≡ now.day)))
      × ((in_window (utc_month_bounds now) t ≡ true)
          ↔ ((t.year ≡ now.year) × (t.month ≡ now.month)))
window_iff_same_date now t before h k = (
  (
    λ inside. let (y, m) = same_month now t h k inside in (y, m, same_day now t h k inside),
    in_day now t k,
  ),
  in_month_iff now t h k,
)
