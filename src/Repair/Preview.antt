-- ===== src/Repair/Preview.antt =====
-- What a dry run shows, and what the same repair then does.
use conexus.Prelude.{
  ℕ, ◌≡◌, refl, Option, none, some, List, arith, Bool-cases, Option-cases, inl, inr, ◌==◌, ==_refl,
  ap, ◌∙◌, if◌then◌else◌,
}
use conexus.Clock.{DateTime}
use conexus.Result.{ok}
use conexus.Table.{find_row, update_row}
use conexus.Table.Laws.{find_row-update_row}
use conexus.Models.{UsageWindow, Reservation, Db}
use conexus.Reservations.Settlement.{
  mark_reconciled, end_reservation, lock_windows, settle_daily, settle_monthly, release_daily,
  release_monthly,
}
use conexus.Repair.{
  DailyWindowSnapshot, MonthlyWindowSnapshot, ReservationWindowDelta, snap_usage_window, daily_snap,
  monthly_snap, preview_month, reconciled_day, reconciled_month, released_day, released_month,
  build_delta_for_reservation, preview_reconcile_delta, preview_release_delta,
}
use conexus.Repair.Applying.{delta_after}

-- The delta of an unchanged state: before and after are both what a preview announced.
abbrev pub landed : ReservationWindowDelta → ReservationWindowDelta
landed p = record {
  daily_before = p.daily_after;
  daily_after = p.daily_after;
  monthly_before = p.monthly_after;
  monthly_after = p.monthly_after;
}

-- The windows that a delta was built from are there to lock.
pub locked_of_delta :
    (res : Reservation) (ws : List UsageWindow) (before : ReservationWindowDelta)
    → build_delta_for_reservation res ws ≡ ok before
    → lock_windows res ws ≡ ok tt
unfolding build_delta_for_reservation snap_usage_window lock_windows
locked_of_delta res ws before h =
    elim (Option-cases (find_row UsageWindow.id res.daily_window_id ws)) [
      | inl missing ↦ absurd (ground arith)
      | inr (day, there) ↦ elim (Option-cases res.monthly_window_id) [
        | inl no_month ↦ ground arith
        | inr (m, at_m) ↦ elim (Option-cases (find_row UsageWindow.id m ws)) [
          | inl missing ↦ absurd (ground arith)
          | inr (month, month_there) ↦ ground arith
        ]
      ]
    ]

abbrev pub unchanged : DailyWindowSnapshot → Option MonthlyWindowSnapshot → ReservationWindowDelta
unchanged d m = record { daily_before = d; daily_after = d; monthly_before = m; monthly_after = m }

ok-unchanged :
    (d d' : DailyWindowSnapshot) (m m' : MonthlyWindowSnapshot)
    → d ≡ d'
    → m ≡ m'
    → ok (unchanged d (some m)) ≡ ok (unchanged d' (some m'))
ok-unchanged d d' m m' e f = cc (e, f)

delta_none :
    (res : Reservation) (ws : List UsageWindow) (day : UsageWindow)
    → res.monthly_window_id ≡ none
    → find_row UsageWindow.id res.daily_window_id ws ≡ some day
    → build_delta_for_reservation res ws ≡ ok (unchanged (daily_snap day) none)
unfolding build_delta_for_reservation snap_usage_window
delta_none res ws day no_month there = ground arith

delta_some :
    (res : Reservation) (ws : List UsageWindow) (m : ℕ) (day month : UsageWindow)
    → res.monthly_window_id ≡ some m
    → find_row UsageWindow.id res.daily_window_id ws ≡ some day
    → find_row UsageWindow.id m ws ≡ some month
    → build_delta_for_reservation res ws
      ≡ ok (unchanged (daily_snap day) (some (monthly_snap month)))
unfolding build_delta_for_reservation snap_usage_window
delta_some res ws m day month at_m there month_there = ground arith

delta_after-end :
    (clock : DateTime) (res : Reservation) (f g : UsageWindow → UsageWindow) (db : Db)
    → find_row Reservation.id res.id db.reservations ≡ some res
    → delta_after res.id (end_reservation clock res f g db)
      ≡ build_delta_for_reservation res (end_reservation clock res f g db).windows
unfolding delta_after end_reservation build_delta_for_reservation
delta_after-end clock res f g db found = ground (
  arith,
  find_row-update_row Reservation.id res.id res.id (mark_reconciled clock) db.reservations
      (λ x. refl),
  ==_refl res.id,
)

-- The rows after both updates; the two ids may even be the same.
row_updated :
    (d m : ℕ) (f g : UsageWindow → UsageWindow) (ws : List UsageWindow) (j : ℕ) (row : UsageWindow)
    → ((x : UsageWindow) → (f x).id ≡ x.id)
    → ((x : UsageWindow) → (g x).id ≡ x.id)
    → find_row UsageWindow.id j ws ≡ some row
    → find_row UsageWindow.id j (update_row UsageWindow.id m g (update_row UsageWindow.id d f ws))
      ≡ some (if m == j then g (if d == j then f row else row) else if d == j then f row else row)
row_updated d m f g ws j row same_f same_g there =
    rw
      (
        find_row-update_row UsageWindow.id m j g (update_row UsageWindow.id d f ws) same_g,
        find_row-update_row UsageWindow.id d j f ws same_f,
      )
      (ground arith)

module _ (clock : DateTime) (res : Reservation) (f g : UsageWindow → UsageWindow)
    (on_day : DailyWindowSnapshot → DailyWindowSnapshot)
    (on_month : MonthlyWindowSnapshot → MonthlyWindowSnapshot) (db : Db)
    (before : ReservationWindowDelta) where
  day_updated :
      (d m : ℕ) (day : UsageWindow)
      → ((x : UsageWindow) → daily_snap (f x) ≡ on_day (daily_snap x))
      → ((x : UsageWindow) → daily_snap (g x) ≡ daily_snap x)
      → daily_snap
          (if m == d then g (if d == d then f day else day) else if d == d then f day else day)
        ≡ on_day (daily_snap day)
  day_updated d m day day_f day_g = rw (==_refl d) (elim (Bool-cases (m == d)) [
    | inl e ↦ rw e (day_g (f day) ∙ day_f day)
    | inr e ↦ rw e (day_f day)
  ])

  month_updated :
      (d m : ℕ) (month : UsageWindow)
      → ((x : UsageWindow) → monthly_snap (f x) ≡ monthly_snap x)
      → ((x : UsageWindow) → monthly_snap (g x) ≡ on_month (monthly_snap x))
      → monthly_snap (
          if m == m
          then g (if d == m then f month else month)
          else if d == m
          then f month
          else month)
        ≡ on_month (monthly_snap month)
  month_updated d m month month_f month_g = rw (==_refl m) (elim (Bool-cases (d == m)) [
    | inl e ↦ rw e (month_g (f month) ∙ ap on_month (month_f month))
    | inr e ↦ rw e (month_g month)
  ])

  ended_delta :
      ((x : UsageWindow) → (f x).id ≡ x.id)
      → ((x : UsageWindow) → (g x).id ≡ x.id)
      → ((x : UsageWindow) → daily_snap (f x) ≡ on_day (daily_snap x))
      → ((x : UsageWindow) → monthly_snap (f x) ≡ monthly_snap x)
      → ((x : UsageWindow) → daily_snap (g x) ≡ daily_snap x)
      → ((x : UsageWindow) → monthly_snap (g x) ≡ on_month (monthly_snap x))
      → find_row Reservation.id res.id db.reservations ≡ some res
      → build_delta_for_reservation res db.windows ≡ ok before
      → delta_after res.id (end_reservation clock res f g db)
        ≡ ok (
            unchanged
              (on_day before.daily_before)
              (preview_month res.monthly_window_id before.monthly_before on_month).1)
  unfolding end_reservation
  ended_delta same_f same_g day_f month_f day_g month_g found h =
      delta_after-end clock res f g db found
      ∙ elim (Option-cases (find_row UsageWindow.id res.daily_window_id db.windows)) [
        | inl missing ↦
            absurd (unfold build_delta_for_reservation snap_usage_window in ground arith)
        | inr (day, there) ↦ elim (Option-cases res.monthly_window_id) [
          | inl no_month ↦
              let is : before ≡ unchanged (daily_snap day) none =
                ground (arith, delta_none res db.windows day no_month there) in
              let there' : find_row UsageWindow.id res.daily_window_id
                    (update_row UsageWindow.id res.daily_window_id f db.windows)
                  ≡ some (f day) =
                rw
                  (
                    find_row-update_row UsageWindow.id res.daily_window_id res.daily_window_id f
                        db.windows same_f,
                    ==_refl res.daily_window_id,
                    there,
                  )
                  refl in
              simp (is, no_month)
                (delta_none res (update_row UsageWindow.id res.daily_window_id f db.windows) (f day)
                    no_month there'
                  ∙ ap (λ d. ok (unchanged d none)) (day_f day))
          | inr (m, at_m) ↦ elim (Option-cases (find_row UsageWindow.id m db.windows)) [
            | inl missing ↦
                absurd (unfold build_delta_for_reservation snap_usage_window in ground arith)
            | inr (month, month_there) ↦
                let is : before ≡ unchanged (daily_snap day) (some (monthly_snap month)) =
                  ground (arith, delta_some res db.windows m day month at_m there month_there) in
                simp (is, at_m)
                  (delta_some res
                      (update_row UsageWindow.id m g
                        (update_row UsageWindow.id res.daily_window_id f db.windows))
                      m _ _ at_m
                      (row_updated res.daily_window_id m f g db.windows res.daily_window_id day
                        same_f same_g there)
                      (row_updated res.daily_window_id m f g db.windows m month same_f same_g
                        month_there)
                    ∙ ok-unchanged _ _ _ _ (day_updated res.daily_window_id m day day_f day_g)
                        (month_updated res.daily_window_id m month month_f month_g))
          ]
        ]
      ]

pub settled_delta :
    (clock : DateTime) (res : Reservation) (tokens cost : ℕ) (db : Db)
    (before : ReservationWindowDelta)
    → find_row Reservation.id res.id db.reservations ≡ some res
    → build_delta_for_reservation res db.windows ≡ ok before
    → delta_after res.id
        (end_reservation clock res (settle_daily res tokens) (settle_monthly res cost) db)
      ≡ ok (landed (preview_reconcile_delta res before tokens cost))
unfolding settle_daily settle_monthly preview_reconcile_delta
settled_delta clock res tokens cost db before found h =
    ended_delta clock res (settle_daily res tokens) (settle_monthly res cost)
      (reconciled_day res tokens) (reconciled_month res cost) db before (λ x. refl) (λ x. refl)
      (λ x. refl) (λ x. refl) (λ x. refl) (λ x. refl) found h

pub released_delta :
    (clock : DateTime) (res : Reservation) (db : Db) (before : ReservationWindowDelta)
    → find_row Reservation.id res.id db.reservations ≡ some res
    → build_delta_for_reservation res db.windows ≡ ok before
    → delta_after res.id (end_reservation clock res (release_daily res) (release_monthly res) db)
      ≡ ok (landed (preview_release_delta res before))
unfolding release_daily release_monthly preview_release_delta
released_delta clock res db before found h =
    ended_delta clock res (release_daily res) (release_monthly res) (released_day res)
      (released_month res) db before (λ x. refl) (λ x. refl) (λ x. refl) (λ x. refl) (λ x. refl)
      (λ x. refl) found h
