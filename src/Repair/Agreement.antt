-- ===== src/Repair/Agreement.antt =====
-- Branch by branch, what a dry run announces is what the repair does.
use conexus.Prelude.{
  ℕ, ◌≡◌, refl, ap, ◌∙◌, pos, true, false, Option, none, some, arith, Bool-cases, Option-cases, inl,
  inr, ltb,
}
use conexus.Clock.{DateTime, age_seconds}
use conexus.Result.{ok}
use conexus.Table.{find_row}
use conexus.Models.{Reservation, GatewayRequest, Db}
use conexus.RequestLog.{finish_request_failure}
use conexus.Limits.{or_zero}
use conexus.Reservations.Settlement.{
  end_reservation, lock_windows, settle_daily, settle_monthly, release_daily, release_monthly,
  reconcile_gateway_request, release_orphan_limit_reservation,
}
use conexus.Repair.{
  dry_run, apply, RepairKind, no_gateway_request, gateway_request_failed,
  completed_without_reconcile, started_not_completed, unknown, RepairAction, release_orphan,
  force_fail_and_reconcile, reconcile_failed_request, reconcile_completed_request,
  DailyWindowSnapshot, MonthlyWindowSnapshot, ReservationWindowDelta, RepairResult,
  classify_and_recommend, load_gateway_for_reservation, build_delta_for_reservation,
  preview_reconcile_delta, preview_release_delta,
}
use conexus.Repair.Applying.{
  Repaired, result_of, stale_failure, repair_release, repair_reconcile, repair_with_request,
  repair_outstanding,
}
use conexus.Repair.Preview.{landed, locked_of_delta, settled_delta, released_delta}

-- The counters that a result says will be, or are, on the windows afterwards.
abbrev pub counters_after :
    Option ReservationWindowDelta → Option (DailyWindowSnapshot × Option MonthlyWindowSnapshot)
counters_after none = none
counters_after (some d) = some (d.daily_after, d.monthly_after)

pub record Foretells (planned made : RepairResult) : Type 0 where
  pub kind : planned.repair_kind ≡ made.repair_kind
  pub action : planned.action ≡ made.action
  pub before : planned.before ≡ made.before
  pub after : counters_after planned.after ≡ counters_after made.after

-- A dry run that changed nothing, and the repair that did what it showed.
pub record Agree (db : Db) (dry real : Repaired) : Type 0 where
  pub planned : RepairResult
  pub made : RepairResult
  pub after : Db
  pub dry_ok : dry ≡ ok (some planned, db)
  pub real_ok : real ≡ ok (some made, after)
  pub unapplied : planned.applied ≡ false
  pub foretells : Foretells planned made

pub Agree-same :
    (db : Db) (r : RepairResult) → r.applied ≡ false → Agree db (ok (some r, db)) (ok (some r, db))
Agree-same db r u = record {
  planned = r;
  made = r;
  after = db;
  dry_ok = refl;
  real_ok = refl;
  unapplied = u;
  foretells = record { kind = refl; action = refl; before = refl; after = refl };
}

reconcile_outstanding :
    (clock : DateTime) (res : Reservation) (tokens cost : ℕ) (db : Db)
    → find_row Reservation.id res.id db.reservations ≡ some res
    → res.reconciled_at ≡ none
    → lock_windows res db.windows ≡ ok tt
    → reconcile_gateway_request clock res.id (pos tokens) (pos cost) db
      ≡ ok (end_reservation clock res (settle_daily res tokens) (settle_monthly res cost) db)
unfolding reconcile_gateway_request
reconcile_outstanding clock res tokens cost db found open_ locked = ground arith

release_outstanding :
    (clock : DateTime) (res : Reservation) (db : Db)
    → find_row Reservation.id res.id db.reservations ≡ some res
    → res.reconciled_at ≡ none
    → lock_windows res db.windows ≡ ok tt
    → release_orphan_limit_reservation clock res.id db
      ≡ ok (true, end_reservation clock res (release_daily res) (release_monthly res) db)
unfolding release_orphan_limit_reservation
release_outstanding clock res db found open_ locked = ground arith

module _ (clock : DateTime) (res : Reservation) (before : ReservationWindowDelta) (db : Db)
    (found : find_row Reservation.id res.id db.reservations ≡ some res)
    (outstanding : res.reconciled_at ≡ none)
    (built : build_delta_for_reservation res db.windows ≡ ok before) where
  repair_reconcile-Agree :
      (kind : RepairKind) (action : RepairAction) (tokens cost : ℕ) (prepared : Db)
      → prepared.windows ≡ db.windows
      → prepared.reservations ≡ db.reservations
      → Agree db
          (repair_reconcile dry_run clock kind action res before tokens cost prepared db)
          (repair_reconcile apply clock kind action res before tokens cost prepared db)
  unfolding repair_reconcile
  repair_reconcile-Agree kind action tokens cost prepared same_windows same_reservations =
      let found' : find_row Reservation.id res.id prepared.reservations ≡ some res =
        ap (find_row Reservation.id res.id) same_reservations ∙ found in
      let built' : build_delta_for_reservation res prepared.windows ≡ ok before =
        ap (build_delta_for_reservation res) same_windows ∙ built in
      record {
        planned =
            result_of res kind action false before
              (some (preview_reconcile_delta res before tokens cost));
        made =
            result_of res kind action true before
              (some (landed (preview_reconcile_delta res before tokens cost)));
        after =
            end_reservation clock res (settle_daily res tokens) (settle_monthly res cost) prepared;
        dry_ok = refl;
        real_ok =
            rw
              (
                reconcile_outstanding clock res tokens cost prepared found' outstanding
                    (locked_of_delta res prepared.windows before built'),
                settled_delta clock res tokens cost prepared before found' built',
              )
              refl;
        unapplied = refl;
        foretells = record { kind = refl; action = refl; before = refl; after = refl };
      }

  repair_release-Agree :
      Agree db
        (repair_release dry_run clock res before db)
        (repair_release apply clock res before db)
  unfolding repair_release
  repair_release-Agree = record {
    planned =
        result_of res no_gateway_request release_orphan false before
          (some (preview_release_delta res before));
    made =
        result_of res no_gateway_request release_orphan true before
          (some (landed (preview_release_delta res before)));
    after = end_reservation clock res (release_daily res) (release_monthly res) db;
    dry_ok = refl;
    real_ok =
        rw
          (
            release_outstanding clock res db found outstanding
                (locked_of_delta res db.windows before built),
            released_delta clock res db before found built,
          )
          refl;
    unapplied = refl;
    foretells = record { kind = refl; action = refl; before = refl; after = refl };
  }

  repair_with_request-Agree :
      (force age : ℕ) (kind : RepairKind) (gr : GatewayRequest)
      → Agree db
          (repair_with_request force age dry_run clock kind gr res before db)
          (repair_with_request force age apply clock kind gr res before db)
  unfolding repair_with_request finish_request_failure
  repair_with_request-Agree force age started_not_completed gr = elim (Bool-cases (ltb age force)) [
    | inl young ↦ rw young (Agree-same db _ refl)
    | inr old ↦ rw old (
        repair_reconcile-Agree started_not_completed force_fail_and_reconcile 0 0
          (finish_request_failure clock gr.request_id stale_failure db) refl refl)
  ]
  repair_with_request-Agree force age gateway_request_failed gr =
      repair_reconcile-Agree gateway_request_failed reconcile_failed_request 0 0 db refl refl
  repair_with_request-Agree force age completed_without_reconcile gr =
      repair_reconcile-Agree completed_without_reconcile reconcile_completed_request
        (or_zero gr.total_tokens) (or_zero gr.estimated_cost) db refl refl
  repair_with_request-Agree force age no_gateway_request gr = Agree-same db _ refl
  repair_with_request-Agree force age unknown gr = Agree-same db _ refl

  pub repair_outstanding-Agree :
      (force : ℕ) (now : DateTime)
      → Agree db
          (repair_outstanding force dry_run now clock res db)
          (repair_outstanding force apply now clock res db)
  unfolding repair_outstanding
  repair_outstanding-Agree force now =
      rw built (elim (Option-cases (load_gateway_for_reservation res.id db)) [
        | inl missing ↦ rw missing repair_release-Agree
        | inr (gr, there) ↦ rw there (
            repair_with_request-Agree force (age_seconds now res.created_at)
              (classify_and_recommend (some gr) (age_seconds now res.created_at) force).0 gr)
      ])
