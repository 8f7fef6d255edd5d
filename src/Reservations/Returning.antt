-- ===== src/Reservations/Returning.antt =====
-- Ending a reservation returns to the windows exactly what it had reserved there.
use conexus.Prelude.{
  ℕ, ◌-◌, ◌≡◌, refl, none, some, List, arith, sum_by, Option-cases, inl, inr, ◌∙◌,
}
use conexus.Clock.{DateTime}
use conexus.Result.{ok}
use conexus.Table.{find_row, update_row}
use conexus.Table.Laws.{find_row-update_row}
use conexus.Models.{UsageWindow, Reservation, Db}
use conexus.Reservations.Settlement.{
  end_reservation, lock_windows, settle_daily, settle_monthly, release_daily, release_monthly,
}
use conexus.Reservations.Ledger.{
  share, daily_column, counter, IsBalanced, give_back, sum_by-mark_reconciled, counter-update_same,
  counter-update_optional_same,
}

-- The changes to the two windows return exactly what `r` reserved.
pub record Returns (r : Reservation) (on_daily on_monthly : UsageWindow → UsageWindow)
    : Type 0 where
  daily_id : (x : UsageWindow) → (on_daily x).id ≡ x.id
  monthly_id : (x : UsageWindow) → (on_monthly x).id ≡ x.id
  requests :
      (x : UsageWindow)
      → (on_daily x).request_count_reserved ≡ x.request_count_reserved - r.request_slots
  tokens :
      (x : UsageWindow)
      → (on_daily x).token_count_reserved ≡ x.token_count_reserved - r.tokens_reserved
  daily_cost : (x : UsageWindow) → (on_daily x).cost_reserved ≡ x.cost_reserved
  cost : (x : UsageWindow) → (on_monthly x).cost_reserved ≡ x.cost_reserved - r.cost_reserved
  monthly_requests :
      (x : UsageWindow) → (on_monthly x).request_count_reserved ≡ x.request_count_reserved
  monthly_tokens : (x : UsageWindow) → (on_monthly x).token_count_reserved ≡ x.token_count_reserved

pub Returns-settle :
    (r : Reservation) (tokens cost : ℕ) → Returns r (settle_daily r tokens) (settle_monthly r cost)
unfolding settle_daily settle_monthly
Returns-settle r tokens cost = record {
  daily_id = λ x. refl;
  monthly_id = λ x. refl;
  requests = λ x. refl;
  tokens = λ x. refl;
  daily_cost = λ x. refl;
  cost = λ x. refl;
  monthly_requests = λ x. refl;
  monthly_tokens = λ x. refl;
}

pub Returns-release : (r : Reservation) → Returns r (release_daily r) (release_monthly r)
unfolding release_daily release_monthly
Returns-release r = record {
  daily_id = λ x. refl;
  monthly_id = λ x. refl;
  requests = λ x. refl;
  tokens = λ x. refl;
  daily_cost = λ x. refl;
  cost = λ x. refl;
  monthly_requests = λ x. refl;
  monthly_tokens = λ x. refl;
}

-- The month's row is still there after the day's row was changed.
pub find_row-after :
    (k j : ℕ) (f : UsageWindow → UsageWindow) (ws : List UsageWindow) (row : UsageWindow)
    → ((x : UsageWindow) → (f x).id ≡ x.id)
    → find_row UsageWindow.id j ws ≡ some row
    → (row' : UsageWindow) × (find_row UsageWindow.id j (update_row UsageWindow.id k f ws)
        ≡ some row')
find_row-after k j f ws row same known =
    elim (Option-cases (find_row UsageWindow.id j (update_row UsageWindow.id k f ws))) [
      | inl missing ↦ absurd (ground (arith, find_row-update_row UsageWindow.id k j f ws same))
      | inr found ↦ found
    ]

module _ (now : DateTime) (r : Reservation) (on_daily on_monthly : UsageWindow → UsageWindow)
    (db : Db) (returns : Returns r on_daily on_monthly)
    (found : find_row Reservation.id r.id db.reservations ≡ some r)
    (outstanding : r.reconciled_at ≡ none) (day : UsageWindow)
    (day_there : find_row UsageWindow.id r.daily_window_id db.windows ≡ some day)
    (balanced : IsBalanced db) where
  end-requests :
      (w : ℕ)
      → counter UsageWindow.request_count_reserved w
          (end_reservation now r on_daily on_monthly db).windows
        ≡ sum_by
            (share daily_column Reservation.request_slots w)
            (end_reservation now r on_daily on_monthly db).reservations
  unfolding end_reservation
  end-requests w =
      counter-update_optional_same UsageWindow.request_count_reserved on_monthly r.monthly_window_id
        w (update_row UsageWindow.id r.daily_window_id on_daily db.windows) returns.monthly_id
        returns.monthly_requests
      ∙ give_back daily_column Reservation.request_slots UsageWindow.request_count_reserved now r
          r.daily_window_id db.windows db.reservations on_daily day returns.daily_id
          returns.requests refl outstanding day_there found balanced.requests w

  end-tokens :
      (w : ℕ)
      → counter UsageWindow.token_count_reserved w
          (end_reservation now r on_daily on_monthly db).windows
        ≡ sum_by
            (share daily_column Reservation.tokens_reserved w)
            (end_reservation now r on_daily on_monthly db).reservations
  unfolding end_reservation
  end-tokens w =
      counter-update_optional_same UsageWindow.token_count_reserved on_monthly r.monthly_window_id w
        (update_row UsageWindow.id r.daily_window_id on_daily db.windows) returns.monthly_id
        returns.monthly_tokens
      ∙ give_back daily_column Reservation.tokens_reserved UsageWindow.token_count_reserved now r
          r.daily_window_id db.windows db.reservations on_daily day returns.daily_id returns.tokens
          refl outstanding day_there found balanced.tokens w

  -- With no month to settle, the reservation holds no cost anywhere.
  end-cost_none :
      r.monthly_window_id ≡ none
      → (w : ℕ)
      → counter UsageWindow.cost_reserved w (end_reservation now r on_daily on_monthly db).windows
        ≡ sum_by
            (share Reservation.monthly_window_id Reservation.cost_reserved w)
            (end_reservation now r on_daily on_monthly db).reservations
  unfolding end_reservation
  end-cost_none no_month w = rw no_month (
      counter-update_same UsageWindow.cost_reserved on_daily r.daily_window_id w db.windows
        returns.daily_id returns.daily_cost
      ∙ ground (
        arith,
        balanced.cost w,
        sum_by-mark_reconciled Reservation.monthly_window_id Reservation.cost_reserved w r.id now
            db.reservations r found,
      ))

  end-cost_some :
      (m : ℕ) (month : UsageWindow)
      → r.monthly_window_id ≡ some m
      → find_row UsageWindow.id m db.windows ≡ some month
      → (w : ℕ)
      → counter UsageWindow.cost_reserved w (end_reservation now r on_daily on_monthly db).windows
        ≡ sum_by
            (share Reservation.monthly_window_id Reservation.cost_reserved w)
            (end_reservation now r on_daily on_monthly db).reservations
  unfolding end_reservation
  end-cost_some m month at_m month_there w =
      let (month', there') =
        find_row-after r.daily_window_id m on_daily db.windows month returns.daily_id month_there in
      rw at_m (
        give_back Reservation.monthly_window_id Reservation.cost_reserved UsageWindow.cost_reserved
          now r m (update_row UsageWindow.id r.daily_window_id on_daily db.windows) db.reservations
          on_monthly month' returns.monthly_id returns.cost at_m outstanding there' found
          (λ j.
            counter-update_same UsageWindow.cost_reserved on_daily r.daily_window_id j db.windows
              returns.daily_id returns.daily_cost
            ∙ balanced.cost j)
          w)

  pub end_reservation-IsBalanced :
      lock_windows r db.windows ≡ ok tt → IsBalanced (end_reservation now r on_daily on_monthly db)
  unfolding lock_windows
  end_reservation-IsBalanced locked = record {
    requests = end-requests;
    tokens = end-tokens;
    cost = elim (Option-cases r.monthly_window_id) [
      | inl no_month ↦ end-cost_none no_month
      | inr (m, at_m) ↦ elim (Option-cases (find_row UsageWindow.id m db.windows)) [
        | inl missing ↦ absurd (ground arith)
        | inr (month, there) ↦ end-cost_some m month at_m there
      ]
    ];
  }
