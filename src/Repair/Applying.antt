-- ===== src/Repair/Applying.antt =====
-- `repair_stale_reservation`. The time that the row updates read from the clock is an input of its
-- own, next to the `now` of the caller.
use conexus.Prelude.{ℕ, pos, Bool, true, false, Option, none, some, is_some, ltb, if◌then◌else◌}
use conexus.Text.{codes}
use conexus.Clock.{DateTime, age_seconds}
use conexus.Table.{find_row}
use conexus.Result.{Result, ok, raise, assertion_failed, ◌>>=◌}
use conexus.Models.{Reservation, GatewayRequest, Db}
use conexus.RequestLog.{FailureArgs, finish_request_failure}
use conexus.Limits.{or_zero}
use conexus.Reservations.Settlement.{reconcile_gateway_request, release_orphan_limit_reservation}
use conexus.Repair.{
  RepairMode, dry_run, apply, RepairKind, no_gateway_request, gateway_request_failed,
  completed_without_reconcile, started_not_completed, unknown, RepairAction, already_reconciled,
  repair_skipped, release_orphan, force_fail_and_reconcile, reconcile_failed_request,
  reconcile_completed_request, ReservationWindowDelta, RepairResult, classify_and_recommend,
  load_gateway_for_reservation, build_delta_for_reservation, preview_reconcile_delta,
  preview_release_delta,
}

abbrev pub Repaired : Type 0
Repaired = Result (Option RepairResult × Db)

abbrev pub result_of :
    Reservation
    → RepairKind
    → RepairAction
    → Bool
    → ReservationWindowDelta
    → Option ReservationWindowDelta
    → RepairResult
result_of res kind action applied before after = record {
  reservation_id = res.id;
  project_id = res.project_id;
  repair_kind = kind;
  action = action;
  applied = applied;
  before = before;
  after = after;
}

abbrev pub report :
    Reservation
    → RepairKind
    → RepairAction
    → Bool
    → ReservationWindowDelta
    → Option ReservationWindowDelta
    → Option RepairResult
report res kind action applied before after = some (result_of res kind action applied before after)

-- `session.refresh(res)` or a second read of the row, and the delta built from it.
unfoldable pub delta_after : ℕ → Db → Result ReservationWindowDelta
delta_after id db = elim (find_row Reservation.id id db.reservations) [
  | none ↦ raise assertion_failed
  | some res ↦ build_delta_for_reservation res db.windows
]

-- The branch without a gateway request.
unfoldable pub repair_release :
    RepairMode → DateTime → Reservation → ReservationWindowDelta → Db → Repaired
unfolding delta_after
repair_release dry_run clock res before db = ok (
  report res no_gateway_request release_orphan false before
      (some (preview_release_delta res before)),
  db,
)
repair_release apply clock res before db = do
  (done, db') ← release_orphan_limit_reservation clock res.id db
  if done
      then (delta_after res.id db' >>= λ after.
          ok (report res no_gateway_request release_orphan true before (some after), db'))
      else ok (report res no_gateway_request release_orphan false before none, db')

-- The branches that reconcile; `prepared` is the database with the request's row already failed,
-- where the branch does that first.
unfoldable pub repair_reconcile :
    RepairMode
    → DateTime
    → RepairKind
    → RepairAction
    → Reservation
    → ReservationWindowDelta
    → ℕ
    → ℕ
    → Db
    → Db
    → Repaired
unfolding delta_after
repair_reconcile dry_run clock kind action res before tokens cost prepared db = ok (
  report res kind action false before (some (preview_reconcile_delta res before tokens cost)),
  db,
)
repair_reconcile apply clock kind action res before tokens cost prepared db = do
  db' ← reconcile_gateway_request clock res.id (pos tokens) (pos cost) prepared
  after ← delta_after res.id db'
  ok (report res kind action true before (some after), db')

abbrev pub stale_failure : FailureArgs
stale_failure = record {
  latency_ms = 0;
  error_code = codes "stale_reservation_repair";
  error_message = codes "Marked failed by stale reservation repair (incomplete request).";
}

abbrev pub skipped : Reservation → RepairKind → ReservationWindowDelta → Db → Repaired
skipped res kind before db = ok (report res kind repair_skipped false before (some before), db)

-- The branches after `assert gr is not None`.
unfoldable pub repair_with_request :
    ℕ
    → ℕ
    → RepairMode
    → DateTime
    → RepairKind
    → GatewayRequest
    → Reservation
    → ReservationWindowDelta
    → Db
    → Repaired
unfolding repair_reconcile
repair_with_request force age mode clock started_not_completed gr res before db =
    if ltb age force
    then skipped res started_not_completed before db
    else repair_reconcile mode clock started_not_completed force_fail_and_reconcile res before 0 0
        (finish_request_failure clock gr.request_id stale_failure db) db
repair_with_request force age mode clock gateway_request_failed gr res before db =
    repair_reconcile mode clock gateway_request_failed reconcile_failed_request res before 0 0 db db
repair_with_request force age mode clock completed_without_reconcile gr res before db =
    repair_reconcile mode clock completed_without_reconcile reconcile_completed_request res before
      (or_zero gr.total_tokens) (or_zero gr.estimated_cost) db db
repair_with_request force age mode clock no_gateway_request gr res before db =
    skipped res no_gateway_request before db
repair_with_request force age mode clock unknown gr res before db = skipped res unknown before db

-- An outstanding reservation: the row of its request decides.
unfoldable pub repair_outstanding :
    ℕ → RepairMode → DateTime → DateTime → Reservation → Db → Repaired
unfolding repair_release repair_with_request
repair_outstanding force mode now clock res db = do
  before ← build_delta_for_reservation res db.windows
  let age = age_seconds now res.created_at
  elim (load_gateway_for_reservation res.id db) [
    | none ↦ repair_release mode clock res before db
    | some gr ↦
        repair_with_request force age mode clock (classify_and_recommend (some gr) age force).0 gr
          res before db
  ]

unfoldable pub repair_stale_reservation : ℕ → RepairMode → DateTime → DateTime → ℕ → Db → Repaired
unfolding repair_outstanding
repair_stale_reservation force mode now clock id db =
    elim (find_row Reservation.id id db.reservations) [
      | none ↦ ok (none, db)
      | some res ↦
          if is_some res.reconciled_at
          then (build_delta_for_reservation res db.windows >>= λ before.
              ok (report res unknown already_reconciled false before none, db))
          else repair_outstanding force mode now clock res db
    ]
