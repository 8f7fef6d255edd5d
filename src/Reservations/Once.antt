-- ===== src/Reservations/Once.antt =====
-- A reservation is settled once: what comes later changes nothing.
use conexus.Prelude.{ℕ, ℤ, ◌≡◌, refl, Bool, true, false, arith, inl, inr, ==_refl}
use conexus.Clock.{DateTime}
use conexus.Result.{ok}
use conexus.Table.Laws.{find_row-update_row, key-find_row}
use conexus.Models.{UsageWindow, Reservation, Db}
use conexus.Reservations.Settlement.{
  closed, mark_reconciled, end_reservation, reconcile_gateway_request,
  release_orphan_limit_reservation,
}
use conexus.Reservations.Endings.{Ended, reconcile_cases, release_cases}

pub reconcile_of_closed :
    (now : DateTime) (id : ℕ) (tokens cost : ℤ) (db : Db)
    → closed id db ≡ true
    → reconcile_gateway_request now id tokens cost db ≡ ok db
unfolding reconcile_gateway_request closed
reconcile_of_closed now id tokens cost db h = ground arith

pub release_of_closed :
    (now : DateTime) (id : ℕ) (db : Db)
    → closed id db ≡ true
    → release_orphan_limit_reservation now id db ≡ ok (false, db)
unfolding release_orphan_limit_reservation closed
release_of_closed now id db h = ground arith

Ended-closed :
    (now : DateTime) (id : ℕ) (db db' : Db) (f g : Reservation → UsageWindow → UsageWindow)
    → Ended now id db db' f g
    → closed id db' ≡ true
unfolding closed end_reservation
Ended-closed now id db db' f g e =
    let same = key-find_row Reservation.id id db.reservations e.res e.found in
    rw (e.after) (
      ground (
        arith,
        same,
        e.found,
        find_row-update_row Reservation.id e.res.id id (mark_reconciled now) db.reservations
            (λ x. refl),
        ==_refl id,
      ))

pub reconcile-closed :
    (now : DateTime) (id : ℕ) (tokens cost : ℤ) (db db' : Db)
    → reconcile_gateway_request now id tokens cost db ≡ ok db'
    → closed id db' ≡ true
reconcile-closed now id tokens cost db db' h = elim (reconcile_cases now id tokens cost db db' h) [
  | inl (done, same) ↦ rw same done
  | inr e ↦ Ended-closed now id db db' _ _ e
]

release-closed :
    (now : DateTime) (id : ℕ) (db db' : Db) (done : Bool)
    → release_orphan_limit_reservation now id db ≡ ok (done, db')
    → closed id db' ≡ true
release-closed now id db db' done h = elim (release_cases now id db db' done h) [
  | inl (was, _, same) ↦ rw same was
  | inr (_, e) ↦ Ended-closed now id db db' _ _ e
]

-- Once a reconcile has returned, any later reconcile or release of the same reservation, whatever its
-- arguments, returns the database unchanged.
pub reconcile_once :
    (now later : DateTime) (id : ℕ) (tokens cost tokens' cost' : ℤ) (db db' : Db)
    → reconcile_gateway_request now id tokens cost db ≡ ok db'
    → (reconcile_gateway_request later id tokens' cost' db' ≡ ok db')
      × (release_orphan_limit_reservation later id db' ≡ ok (false, db'))
reconcile_once now later id tokens cost tokens' cost' db db' h =
    let done = reconcile-closed now id tokens cost db db' h in
    (reconcile_of_closed later id tokens' cost' db' done, release_of_closed later id db' done)

-- Once a release has returned, a later reconcile or release of the same reservation returns the
-- database unchanged.
pub release_once :
    (now later : DateTime) (id : ℕ) (tokens cost : ℤ) (db db' : Db) (released : Bool)
    → release_orphan_limit_reservation now id db ≡ ok (released, db')
    → (reconcile_gateway_request later id tokens cost db' ≡ ok db')
      × (release_orphan_limit_reservation later id db' ≡ ok (false, db'))
release_once now later id tokens cost db db' released h =
    let done = release-closed now id db db' released h in
    (reconcile_of_closed later id tokens cost db' done, release_of_closed later id db' done)
