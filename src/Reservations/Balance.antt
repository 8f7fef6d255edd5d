-- ===== src/Reservations/Balance.antt =====
-- Settling and releasing a reservation keep the ledger of `Ledger`.
use conexus.Prelude.{ℕ, ◌≡◌, ℤ, none, some, List, arith, Option-cases, inl, inr, pos_part, Bool}
use conexus.Clock.{DateTime}
use conexus.Result.{ok}
use conexus.Table.{find_row}
use conexus.Table.Laws.{key-find_row}
use conexus.Models.{UsageWindow, Reservation, Db}
use conexus.Reservations.Settlement.{
  end_reservation, lock_windows, reconcile_gateway_request, release_orphan_limit_reservation,
}
use conexus.Reservations.Endings.{reconcile_cases, release_cases}
use conexus.Reservations.Ledger.{IsBalanced}
use conexus.Reservations.Returning.{
  Returns, Returns-settle, Returns-release, end_reservation-IsBalanced,
}

-- The settled reservation's day is locked, so its row is there.
day_of_lock :
    (r : Reservation) (ws : List UsageWindow)
    → lock_windows r ws ≡ ok tt
    → (day : UsageWindow) × (find_row UsageWindow.id r.daily_window_id ws ≡ some day)
unfolding lock_windows
day_of_lock r ws locked = elim (Option-cases (find_row UsageWindow.id r.daily_window_id ws)) [
  | inl missing ↦ absurd (ground arith)
  | inr there ↦ there
]

ends-IsBalanced :
    (now : DateTime) (id : ℕ) (r : Reservation) (on_daily on_monthly : UsageWindow → UsageWindow)
    (db : Db)
    → Returns r on_daily on_monthly
    → find_row Reservation.id id db.reservations ≡ some r
    → r.reconciled_at ≡ none
    → lock_windows r db.windows ≡ ok tt
    → IsBalanced db
    → IsBalanced (end_reservation now r on_daily on_monthly db)
ends-IsBalanced now id r on_daily on_monthly db returns found outstanding locked balanced =
    let (day, there) = day_of_lock r db.windows locked in
    let same : r.id ≡ id = key-find_row Reservation.id id db.reservations r found in
    end_reservation-IsBalanced now r on_daily on_monthly db returns (cc (same, found)) outstanding
      day there balanced locked

-- A reconcile that returns, whatever the usage reported, keeps every window's reserved requests,
-- tokens and cost equal to the sums over the reservations that are still outstanding.
pub reconcile-IsBalanced :
    (now : DateTime) (id : ℕ) (tokens cost : ℤ) (db db' : Db)
    → IsBalanced db
    → reconcile_gateway_request now id tokens cost db ≡ ok db'
    → IsBalanced db'
reconcile-IsBalanced now id tokens cost db db' balanced h =
    elim (reconcile_cases now id tokens cost db db' h) [
      | inl (_, same) ↦ rw same balanced
      | inr e ↦ rw (e.after) (
          ends-IsBalanced now id e.res _ _ db
            (Returns-settle e.res (pos_part tokens) (pos_part cost)) e.found e.outstanding e.locked
            balanced)
    ]

-- A release of an orphan reservation that returns keeps every window's reserved requests, tokens and
-- cost equal to the sums over the reservations that are still outstanding.
pub release-IsBalanced :
    (now : DateTime) (id : ℕ) (db db' : Db) (done : Bool)
    → IsBalanced db
    → release_orphan_limit_reservation now id db ≡ ok (done, db')
    → IsBalanced db'
release-IsBalanced now id db db' done balanced h = elim (release_cases now id db db' done h) [
  | inl (_, _, same) ↦ rw same balanced
  | inr (_, e) ↦ rw (e.after) (
      ends-IsBalanced now id e.res _ _ db (Returns-release e.res) e.found e.outstanding e.locked
        balanced)
]
