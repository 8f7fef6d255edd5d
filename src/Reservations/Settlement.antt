-- ===== src/Reservations/Settlement.antt =====
-- `reconcile_gateway_request` and `release_orphan_limit_reservation`.
use conexus.Prelude.{
  Option, ℕ, ◌+◌, ◌-◌, ℤ, pos_part, Bool, true, false, none, some, is_some, List, if◌then◌else◌,
}
use conexus.Clock.{DateTime}
use conexus.Table.{find_row, update_row}
use conexus.Result.{Result, ok, raise, no_result_found, ◌>>◌}
use conexus.Models.{UsageWindow, Reservation, Db}
use conexus.Reservations.Windows.{update_optional}

-- `_lock_window_by_id`
unfoldable pub lock_window : ℕ → List UsageWindow → Result UsageWindow
lock_window id ws = elim (find_row UsageWindow.id id ws) [
  | none ↦ raise no_result_found
  | some w ↦ ok w
]

-- The rows of a reservation are locked in the order of their ids; what is read does not depend on it.
unfoldable pub lock_windows : Reservation → List UsageWindow → Result (Unit {0})
unfolding lock_window
lock_windows res ws = do
  lock_window res.daily_window_id ws
  elim res.monthly_window_id [ none ↦ ok tt | some id ↦ lock_window id ws >> ok tt ]

unfoldable pub settle_daily : Reservation → ℕ → UsageWindow → UsageWindow
settle_daily res tokens w = record w {
  request_count_reserved = w.request_count_reserved - res.request_slots;
  request_count_completed = w.request_count_completed + res.request_slots;
  token_count_reserved = w.token_count_reserved - res.tokens_reserved;
  token_count_completed = w.token_count_completed + tokens;
}

unfoldable pub settle_monthly : Reservation → ℕ → UsageWindow → UsageWindow
settle_monthly res cost w = record w {
  cost_reserved = w.cost_reserved - res.cost_reserved;
  cost_completed = w.cost_completed + cost;
}

unfoldable pub release_daily : Reservation → UsageWindow → UsageWindow
release_daily res w = record w {
  request_count_reserved = w.request_count_reserved - res.request_slots;
  token_count_reserved = w.token_count_reserved - res.tokens_reserved;
}

unfoldable pub release_monthly : Reservation → UsageWindow → UsageWindow
release_monthly res w = record w { cost_reserved = w.cost_reserved - res.cost_reserved }

abbrev pub mark_reconciled : DateTime → Reservation → Reservation
mark_reconciled now r = record r { reconciled_at = some now }

-- Both ways to end a reservation: the windows change, and the row is marked.
unfoldable pub end_reservation :
    DateTime → Reservation → (UsageWindow → UsageWindow) → (UsageWindow → UsageWindow) → Db → Db
end_reservation now res on_daily on_monthly db = record db {
  windows =
      update_optional res.monthly_window_id on_monthly
        (update_row UsageWindow.id res.daily_window_id on_daily db.windows);
  reservations = update_row Reservation.id res.id (mark_reconciled now) db.reservations;
}

unfoldable pub reconcile_gateway_request : DateTime → ℕ → ℤ → ℤ → Db → Result Db
reconcile_gateway_request now reservation_id actual_tokens actual_cost db =
    elim (find_row Reservation.id reservation_id db.reservations) [
      | none ↦ ok db
      | some res ↦ if is_some res.reconciled_at then ok db else do
        lock_windows res db.windows
        ok (
            end_reservation now res (settle_daily res (pos_part actual_tokens))
              (settle_monthly res (pos_part actual_cost)) db)
    ]

unfoldable pub release_orphan_limit_reservation : DateTime → ℕ → Db → Result (Bool × Db)
release_orphan_limit_reservation now reservation_id db =
    elim (find_row Reservation.id reservation_id db.reservations) [
      | none ↦ ok (false, db)
      | some res ↦ if is_some res.reconciled_at then ok (false, db) else do
        lock_windows res db.windows
        ok (true, end_reservation now res (release_daily res) (release_monthly res) db)
    ]

-- No outstanding reservation has this id.
abbrev pub closed_row : Option Reservation → Bool
closed_row none = true
closed_row (some r) = is_some r.reconciled_at

unfoldable pub closed : ℕ → Db → Bool
closed id db = closed_row (find_row Reservation.id id db.reservations)
