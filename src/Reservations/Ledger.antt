-- ===== src/Reservations/Ledger.antt =====
-- The ledger of the usage windows: what a window counts as reserved is the sum over the reservations
-- on it that are not reconciled. Every operation of the service keeps it.
use conexus.Prelude.{
  ℕ, ◌-◌, ◌≡◌, refl, Option, none, some, is_some, List, arith, sum_by, ◌==◌, if◌then◌else◌,
  Bool-cases, Option-cases, inl, inr, ==_iff,
}
use conexus.Clock.{DateTime}
use conexus.Table.{find_row, update_row}
use conexus.Table.Laws.{find_row-update_row, sum_by-update_row}
use conexus.Models.{UsageWindow, Reservation, Db}
use conexus.Reservations.Windows.{update_optional}
use conexus.Reservations.Settlement.{mark_reconciled}

-- What reservation `r` holds on window `w`, by the column that names its window.
abbrev pub share : (Reservation → Option ℕ) → (Reservation → ℕ) → ℕ → Reservation → ℕ
share column amount w r =
    if is_some r.reconciled_at
    then 0
    else elim (column r) [ none ↦ 0 | some k ↦ if k == w then amount r else 0 ]

abbrev pub daily_column : Reservation → Option ℕ
daily_column r = some r.daily_window_id

-- The counter of a window; a window that is not there counts nothing.
unfoldable pub counter : (UsageWindow → ℕ) → ℕ → List UsageWindow → ℕ
counter count w ws = elim (find_row UsageWindow.id w ws) [ none ↦ 0 | some row ↦ count row ]

pub counter_of_row :
    (count : UsageWindow → ℕ) (w : ℕ) (ws : List UsageWindow) (row : UsageWindow)
    → find_row UsageWindow.id w ws ≡ some row
    → counter count w ws ≡ count row
unfolding counter
counter_of_row count w ws row found = rw (found, counter)

pub record IsBalanced (db : Db) : Type 0 where
  pub requests :
      (w : ℕ)
      → counter UsageWindow.request_count_reserved w db.windows
        ≡ sum_by (share daily_column Reservation.request_slots w) db.reservations
  pub tokens :
      (w : ℕ)
      → counter UsageWindow.token_count_reserved w db.windows
        ≡ sum_by (share daily_column Reservation.tokens_reserved w) db.reservations
  pub cost :
      (w : ℕ)
      → counter UsageWindow.cost_reserved w db.windows
        ≡ sum_by (share Reservation.monthly_window_id Reservation.cost_reserved w) db.reservations

-- A change of a row that is there, read back at a counter of any row.
pub counter-update_row :
    (count : UsageWindow → ℕ) (f : UsageWindow → UsageWindow) (change : ℕ → ℕ) (k w : ℕ)
    (ws : List UsageWindow) (row : UsageWindow)
    → ((x : UsageWindow) → (f x).id ≡ x.id)
    → ((x : UsageWindow) → count (f x) ≡ change (count x))
    → find_row UsageWindow.id k ws ≡ some row
    → counter count w (update_row UsageWindow.id k f ws)
      ≡ (if k == w then change (counter count w ws) else counter count w ws)
unfolding counter
counter-update_row count f change k w ws row same by known =
    rw (find_row-update_row UsageWindow.id k w f ws same, counter)
      (elim (Bool-cases (k == w)) [
        | inl e ↦
            let here : find_row UsageWindow.id w ws ≡ some row = rw (← ((==_iff k w).0 e)) known in
            rw (e, here, counter) (by row)
        | inr e ↦ rw e
      ])

-- A settled reservation gives back its share: every window loses what it held there.
pub sum_by-mark_reconciled :
    (column : Reservation → Option ℕ) (amount : Reservation → ℕ) (w k : ℕ) (now : DateTime)
    (rs : List Reservation) (r : Reservation)
    → find_row Reservation.id k rs ≡ some r
    → sum_by (share column amount w) (update_row Reservation.id k (mark_reconciled now) rs)
      ≡ sum_by (share column amount w) rs - share column amount w r
sum_by-mark_reconciled column amount w k now rs r found = omega (
  arith,
  sum_by-update_row Reservation.id (share column amount w) k (mark_reconciled now) rs r found,
)

-- A window gives back what the reservation holds there, so the subtraction never stops at 0.
-- `f` is what happens to the window's row, which lowers this counter by the reservation's amount.
module _ (column : Reservation → Option ℕ) (amount : Reservation → ℕ) (count : UsageWindow → ℕ)
    (now : DateTime) (r : Reservation) (k : ℕ) (ws : List UsageWindow) (rs : List Reservation)
    (f : UsageWindow → UsageWindow) (row : UsageWindow) where
  pub give_back :
      ((x : UsageWindow) → (f x).id ≡ x.id)
      → ((x : UsageWindow) → count (f x) ≡ count x - amount r)
      → column r ≡ some k
      → r.reconciled_at ≡ none
      → find_row UsageWindow.id k ws ≡ some row
      → find_row Reservation.id r.id rs ≡ some r
      → ((w : ℕ) → counter count w ws ≡ sum_by (share column amount w) rs)
      → (w : ℕ)
      → counter count w (update_row UsageWindow.id k f ws)
        ≡ sum_by (share column amount w) (update_row Reservation.id r.id (mark_reconciled now) rs)
  give_back same by at_k open_ known found balanced w =
      rw
        (
          counter-update_row count f (λ n. n - amount r) k w ws row same by known,
          sum_by-mark_reconciled column amount w r.id now rs r found,
        )
        (ground (arith, balanced w))

-- A change that leaves a counter alone.
pub counter-update_same :
    (count : UsageWindow → ℕ) (f : UsageWindow → UsageWindow) (k w : ℕ) (ws : List UsageWindow)
    → ((x : UsageWindow) → (f x).id ≡ x.id)
    → ((x : UsageWindow) → count (f x) ≡ count x)
    → counter count w (update_row UsageWindow.id k f ws) ≡ counter count w ws
unfolding counter
counter-update_same count f k w ws same keeps =
    rw (find_row-update_row UsageWindow.id k w f ws same, counter)
      (elim (Option-cases (find_row UsageWindow.id w ws)) [
        | inl missing ↦ rw missing (ground arith)
        | inr (row, found) ↦ rw found (ground (arith, keeps row))
      ])

pub counter-update_optional_same :
    (count : UsageWindow → ℕ) (f : UsageWindow → UsageWindow) (o : Option ℕ) (w : ℕ)
    (ws : List UsageWindow)
    → ((x : UsageWindow) → (f x).id ≡ x.id)
    → ((x : UsageWindow) → count (f x) ≡ count x)
    → counter count w (update_optional o f ws) ≡ counter count w ws
counter-update_optional_same count f none w ws same keeps = refl
counter-update_optional_same count f (some k) w ws same keeps =
    counter-update_same count f k w ws same keeps
