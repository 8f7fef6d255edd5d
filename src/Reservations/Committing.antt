-- ===== src/Reservations/Committing.antt =====
-- Writing an admitted reservation keeps the ledger: the counters grow by what the new row holds.
use conexus.Prelude.{
  ℕ, ◌+◌, ◌≡◌, refl, Option, none, some, List, [], ◌∷◌, arith, sum_by, sum_by-append, Option-cases,
  inl, inr, ◌∙◌,
}
use conexus.Table.{find_row, update_row}
use conexus.Models.{UsageWindow, Reservation, Db}
use conexus.Reservations.Admission.{
  ReserveArgs, Draws, add_daily, add_monthly, commit_reservation, new_reservation,
}
use conexus.Reservations.Ledger.{
  share, daily_column, counter, IsBalanced, counter-update_row, counter-update_same,
  counter-update_optional_same,
}
use conexus.Reservations.Returning.{find_row-after}
use conexus.Reservations.Admitting.{SameCounts}

-- The ledger only reads the counters.
pub IsBalanced-SameCounts :
    (db : Db) (ws : List UsageWindow)
    → SameCounts db.windows ws
    → IsBalanced db
    → IsBalanced (record db { windows = ws })
IsBalanced-SameCounts db ws same b = record {
  requests = λ w. same.requests w ∙ b.requests w;
  tokens = λ w. same.tokens w ∙ b.tokens w;
  cost = λ w. same.cost w ∙ b.cost w;
}

module _ (draws : Draws) (a : ReserveArgs) (tokens cost : ℕ) (day : UsageWindow)
    (month_id : Option ℕ) (db : Db) (there : find_row UsageWindow.id day.id db.windows ≡ some day)
    (month_there : (m : ℕ)
      → month_id ≡ some m
      → (row : UsageWindow) × (find_row UsageWindow.id m db.windows ≡ some row))
    (b : IsBalanced db) where
  commit-requests :
      (w : ℕ)
      → counter UsageWindow.request_count_reserved w
          (commit_reservation draws a tokens cost day.id month_id db).1.windows
        ≡ sum_by
            (share daily_column Reservation.request_slots w)
            (commit_reservation draws a tokens cost day.id month_id db).1.reservations
  unfolding commit_reservation add_daily add_monthly
  commit-requests w =
      counter-update_optional_same UsageWindow.request_count_reserved (add_monthly cost) month_id w
        (update_row UsageWindow.id day.id (add_daily tokens) db.windows) (λ x. refl) (λ x. refl)
      ∙ counter-update_row UsageWindow.request_count_reserved (add_daily tokens) (λ n. n + 1) day.id
          w db.windows day (λ x. refl) (λ x. refl) there
      ∙ ground (
        arith,
        b.requests w,
        sum_by-append (share daily_column Reservation.request_slots w) db.reservations
            (new_reservation draws a tokens cost day.id month_id ∷ []),
      )

  commit-tokens :
      (w : ℕ)
      → counter UsageWindow.token_count_reserved w
          (commit_reservation draws a tokens cost day.id month_id db).1.windows
        ≡ sum_by
            (share daily_column Reservation.tokens_reserved w)
            (commit_reservation draws a tokens cost day.id month_id db).1.reservations
  unfolding commit_reservation add_daily add_monthly
  commit-tokens w =
      counter-update_optional_same UsageWindow.token_count_reserved (add_monthly cost) month_id w
        (update_row UsageWindow.id day.id (add_daily tokens) db.windows) (λ x. refl) (λ x. refl)
      ∙ counter-update_row UsageWindow.token_count_reserved (add_daily tokens) (λ n. n + tokens)
          day.id w db.windows day (λ x. refl) (λ x. refl) there
      ∙ ground (
        arith,
        b.tokens w,
        sum_by-append (share daily_column Reservation.tokens_reserved w) db.reservations
            (new_reservation draws a tokens cost day.id month_id ∷ []),
      )

  commit-cost_none :
      month_id ≡ none
      → (w : ℕ)
      → counter UsageWindow.cost_reserved w
          (commit_reservation draws a tokens cost day.id month_id db).1.windows
        ≡ sum_by
            (share Reservation.monthly_window_id Reservation.cost_reserved w)
            (commit_reservation draws a tokens cost day.id month_id db).1.reservations
  unfolding commit_reservation add_daily
  commit-cost_none no_month w = rw no_month (
      counter-update_same UsageWindow.cost_reserved (add_daily tokens) day.id w db.windows
        (λ x. refl) (λ x. refl)
      ∙ ground (
        arith,
        b.cost w,
        sum_by-append (share Reservation.monthly_window_id Reservation.cost_reserved w)
            db.reservations (new_reservation draws a tokens cost day.id none ∷ []),
      ))

  commit-cost_some :
      (m : ℕ)
      → month_id ≡ some m
      → (w : ℕ)
      → counter UsageWindow.cost_reserved w
          (commit_reservation draws a tokens cost day.id month_id db).1.windows
        ≡ sum_by
            (share Reservation.monthly_window_id Reservation.cost_reserved w)
            (commit_reservation draws a tokens cost day.id month_id db).1.reservations
  unfolding commit_reservation add_daily add_monthly
  commit-cost_some m at_m w =
      let (row, known) = month_there m at_m in
      let (row', known') =
        find_row-after day.id m (add_daily tokens) db.windows row (λ x. refl) known in
      rw at_m (
        counter-update_row UsageWindow.cost_reserved (add_monthly cost) (λ n. n + cost) m w
          (update_row UsageWindow.id day.id (add_daily tokens) db.windows) row' (λ x. refl)
          (λ x. refl) known'
        ∙ ground (
          arith,
          b.cost w,
          counter-update_same UsageWindow.cost_reserved (add_daily tokens) day.id w db.windows
              (λ x. refl) (λ x. refl),
          sum_by-append (share Reservation.monthly_window_id Reservation.cost_reserved w)
              db.reservations (new_reservation draws a tokens cost day.id (some m) ∷ []),
        ))

  pub commit-IsBalanced : IsBalanced (commit_reservation draws a tokens cost day.id month_id db).1
  commit-IsBalanced = record {
    requests = commit-requests;
    tokens = commit-tokens;
    cost = elim (Option-cases month_id) [
      | inl no_month ↦ commit-cost_none no_month
      | inr (m, at_m) ↦ commit-cost_some m at_m
    ];
  }
