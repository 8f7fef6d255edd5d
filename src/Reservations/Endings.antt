-- ===== src/Reservations/Endings.antt =====
-- The outcomes of the two calls that end a reservation, on every branch.
use conexus.Prelude.{
  ℕ, ◌≡◌, ℤ, none, some, List, arith, Option-cases, inl, inr, pos_part, Bool, true, false, ◌⊎◌,
}
use conexus.Clock.{DateTime}
use conexus.Result.{ok, raise, no_result_found}
use conexus.Table.{find_row}
use conexus.Models.{UsageWindow, Reservation, Db}
use conexus.Reservations.Settlement.{
  end_reservation, lock_windows, settle_daily, settle_monthly, release_daily, release_monthly,
  closed, reconcile_gateway_request, release_orphan_limit_reservation,
}

locked_cases :
    (r : Reservation) (ws : List UsageWindow)
    → (lock_windows r ws ≡ ok tt) ⊎ (lock_windows r ws ≡ raise no_result_found)
unfolding lock_windows
locked_cases r ws = ground arith

-- What a call of `reconcile_gateway_request` or `release_orphan_limit_reservation` that returns has
-- done: nothing, or the end of an outstanding reservation whose windows are there.
pub record Ended (now : DateTime) (id : ℕ) (db db' : Db)
    (on_daily on_monthly : Reservation → UsageWindow → UsageWindow) : Type 0 where
  pub res : Reservation
  pub found : find_row Reservation.id id db.reservations ≡ some res
  pub outstanding : res.reconciled_at ≡ none
  pub locked : lock_windows res db.windows ≡ ok tt
  pub after : db' ≡ end_reservation now res (on_daily res) (on_monthly res) db

pub reconcile_cases :
    (now : DateTime) (id : ℕ) (tokens cost : ℤ) (db db' : Db)
    → reconcile_gateway_request now id tokens cost db ≡ ok db'
    → ((closed id db ≡ true) × (db' ≡ db))
      ⊎ Ended now id db db'
          (λ r. settle_daily r (pos_part tokens))
          (λ r. settle_monthly r (pos_part cost))
unfolding reconcile_gateway_request closed
reconcile_cases now id tokens cost db db' h =
    elim (Option-cases (find_row Reservation.id id db.reservations)) [
      | inl missing ↦ inl (ground arith)
      | inr (r, found) ↦ elim (Option-cases r.reconciled_at) [
        | inr (t, done) ↦ inl (ground arith)
        | inl open_ ↦ elim (locked_cases r db.windows) [
          | inl locked ↦ inr (record {
            res = r;
            found = found;
            outstanding = open_;
            locked = locked;
            after = ground arith;
          })
          | inr failed ↦ absurd (ground arith)
        ]
      ]
    ]

pub release_cases :
    (now : DateTime) (id : ℕ) (db db' : Db) (done : Bool)
    → release_orphan_limit_reservation now id db ≡ ok (done, db')
    → ((closed id db ≡ true) × (done ≡ false) × (db' ≡ db))
      ⊎ ((done ≡ true) × Ended now id db db' release_daily release_monthly)
unfolding release_orphan_limit_reservation closed
release_cases now id db db' done h =
    elim (Option-cases (find_row Reservation.id id db.reservations)) [
      | inl missing ↦ inl (ground arith)
      | inr (r, found) ↦ elim (Option-cases r.reconciled_at) [
        | inr (t, settled) ↦ inl (ground arith)
        | inl open_ ↦ elim (locked_cases r db.windows) [
          | inl locked ↦ inr (
            ground arith,
            record {
              res = r;
              found = found;
              outstanding = open_;
              locked = locked;
              after = ground arith;
            },
          )
          | inr failed ↦ absurd (ground arith)
        ]
      ]
    ]
