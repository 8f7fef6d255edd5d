-- ===== src/Repair/Foretelling.antt =====
-- A dry run of `repair_stale_reservation` against the repair that it announces.
use conexus.Prelude.{ℕ, ◌≡◌, refl, false, none, some, arith, Option-cases, inl, inr}
use conexus.Clock.{DateTime}
use conexus.Result.{ok, Result-cases}
use conexus.Table.{find_row}
use conexus.Table.Laws.{key-find_row}
use conexus.Models.{Reservation, Db}
use conexus.Repair.{
  RepairMode, dry_run, apply, unknown, already_reconciled, ReservationWindowDelta, RepairResult,
  build_delta_for_reservation,
}
use conexus.Repair.Applying.{result_of, report, repair_outstanding, repair_stale_reservation}
use conexus.Repair.Agreement.{Agree, Foretells, Agree-same, repair_outstanding-Agree}

repair_of_open :
    (force : ℕ) (mode : RepairMode) (now clock : DateTime) (id : ℕ) (db : Db) (res : Reservation)
    → find_row Reservation.id id db.reservations ≡ some res
    → res.reconciled_at ≡ none
    → repair_stale_reservation force mode now clock id db
      ≡ repair_outstanding force mode now clock res db
unfolding repair_stale_reservation
repair_of_open force mode now clock id db res found open_ = ground arith

repair_of_closed :
    (force : ℕ) (mode : RepairMode) (now clock t : DateTime) (id : ℕ) (db : Db) (res : Reservation)
    (before : ReservationWindowDelta)
    → find_row Reservation.id id db.reservations ≡ some res
    → res.reconciled_at ≡ some t
    → build_delta_for_reservation res db.windows ≡ ok before
    → repair_stale_reservation force mode now clock id db
      ≡ ok (report res unknown already_reconciled false before none, db)
unfolding repair_stale_reservation
repair_of_closed force mode now clock t id db res before found done built = ground arith

repair-Agree :
    (force : ℕ) (now clock : DateTime) (id : ℕ) (db db' : Db) (planned : RepairResult)
    → repair_stale_reservation force dry_run now clock id db ≡ ok (some planned, db')
    → Agree db
        (repair_stale_reservation force dry_run now clock id db)
        (repair_stale_reservation force apply now clock id db)
repair-Agree force now clock id db db' planned h =
    elim (Option-cases (find_row Reservation.id id db.reservations)) [
      | inl missing ↦ absurd (unfold repair_stale_reservation in ground arith)
      | inr (res, found) ↦
          let same = key-find_row Reservation.id id db.reservations res found in
          let found' : find_row Reservation.id res.id db.reservations ≡ some res =
            cc (same, found) in
          elim (Result-cases (build_delta_for_reservation res db.windows)) [
            | inr (e, failed) ↦
                absurd (unfold repair_stale_reservation repair_outstanding in ground arith)
            | inl (before, built) ↦ elim (Option-cases res.reconciled_at) [
              | inr (t, done) ↦
                  rw
                    (
                      repair_of_closed force dry_run now clock t id db res before found done built,
                      repair_of_closed force apply now clock t id db res before found done built,
                    )
                    (Agree-same db (result_of res unknown already_reconciled false before none)
                      refl)
              | inl open_ ↦
                  rw
                    (
                      repair_of_open force dry_run now clock id db res found open_,
                      repair_of_open force apply now clock id db res found open_,
                    )
                    (repair_outstanding-Agree clock res before db found' open_ built force now)
            ]
          ]
    ]

-- A dry run of `repair_stale_reservation` that returns a result changes nothing and reports nothing
-- as applied; the repair itself then returns too, with the same kind, action and counters before it,
-- and the counters on the windows after it are those that the dry run announced.
pub dry_run-Foretells :
    (force : ℕ) (now clock : DateTime) (id : ℕ) (db db' : Db) (planned : RepairResult)
    → repair_stale_reservation force dry_run now clock id db ≡ ok (some planned, db')
    → (db' ≡ db)
      × (planned.applied ≡ false)
      × ((made : RepairResult) × (after : Db) × (repair_stale_reservation force apply now clock id
              db
            ≡ ok (some made, after))
          × Foretells planned made)
dry_run-Foretells force now clock id db db' planned h =
    let a = repair-Agree force now clock id db db' planned h in
    let same_db : db' ≡ db = ground (arith, a.dry_ok) in
    let same : planned ≡ a.planned = ground (arith, a.dry_ok) in
    (same_db, rw same (a.unapplied), (a.made, a.after, a.real_ok, rw same (a.foretells)))
