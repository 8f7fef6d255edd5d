-- ===== src/Repair/Balanced.antt =====
-- `repair_stale_reservation` keeps the ledger of the usage windows.
use conexus.Prelude.{ℕ, ◌≡◌, pos, Option, some, arith, Bool-cases, Option-cases, inl, inr, ltb}
use conexus.Clock.{DateTime, age_seconds}
use conexus.Result.{ok, Result-cases}
use conexus.Table.{find_row}
use conexus.Models.{Reservation, GatewayRequest, Db}
use conexus.RequestLog.{finish_request_failure}
use conexus.Reservations.Settlement.{reconcile_gateway_request, release_orphan_limit_reservation}
use conexus.Reservations.Ledger.{IsBalanced}
use conexus.Reservations.Balance.{reconcile-IsBalanced, release-IsBalanced}
use conexus.Repair.{
  RepairMode, dry_run, apply, RepairKind, no_gateway_request, gateway_request_failed,
  completed_without_reconcile, started_not_completed, unknown, RepairAction,
  force_fail_and_reconcile, ReservationWindowDelta, RepairResult, classify_and_recommend,
  load_gateway_for_reservation, build_delta_for_reservation,
}
use conexus.Repair.Applying.{
  stale_failure, delta_after, repair_release, repair_reconcile, repair_with_request,
  repair_outstanding, repair_stale_reservation,
}

module _ (clock : DateTime) (res : Reservation) (before : ReservationWindowDelta) (db db' : Db)
    (o : Option RepairResult) (balanced : IsBalanced db) where
  repair_release-IsBalanced :
      (mode : RepairMode) → repair_release mode clock res before db ≡ ok (o, db') → IsBalanced db'
  unfolding repair_release
  repair_release-IsBalanced dry_run h = let same : db' ≡ db = ground arith in rw same balanced
  repair_release-IsBalanced apply h =
      elim (Result-cases (release_orphan_limit_reservation clock res.id db)) [
        | inr (e, failed) ↦ absurd (ground arith)
        | inl ((done, mid), returned) ↦
            let same : db' ≡ mid = elim (Bool-cases done) [
              | inl d ↦ elim (Result-cases (delta_after res.id mid)) [
                | inl (after, built) ↦ ground arith
                | inr (e, failed) ↦ absurd (ground arith)
              ]
              | inr d ↦ ground arith
            ] in
            rw same (release-IsBalanced clock res.id db mid done balanced returned)
      ]

  repair_reconcile-IsBalanced :
      (mode : RepairMode) (kind : RepairKind) (action : RepairAction) (tokens cost : ℕ)
      (prepared : Db)
      → IsBalanced prepared
      → repair_reconcile mode clock kind action res before tokens cost prepared db ≡ ok (o, db')
      → IsBalanced db'
  unfolding repair_reconcile
  repair_reconcile-IsBalanced dry_run kind action tokens cost prepared b h =
      let same : db' ≡ db = ground arith in rw same balanced
  repair_reconcile-IsBalanced apply kind action tokens cost prepared b h =
      elim (Result-cases
        (reconcile_gateway_request clock res.id (pos tokens) (pos cost) prepared)) [
          | inr (e, failed) ↦ absurd (ground arith)
          | inl (mid, returned) ↦ elim (Result-cases (delta_after res.id mid)) [
            | inr (e, failed) ↦ absurd (ground arith)
            | inl (after, built) ↦
                let same : db' ≡ mid = ground arith in
                rw same (
                  reconcile-IsBalanced clock res.id (pos tokens) (pos cost) prepared mid b returned)
          ]
        ]

  failed-IsBalanced :
      (request_id : ℕ) → IsBalanced (finish_request_failure clock request_id stale_failure db)
  unfolding finish_request_failure
  failed-IsBalanced request_id = record {
    requests = balanced.requests;
    tokens = balanced.tokens;
    cost = balanced.cost;
  }

  repair_with_request-IsBalanced :
      (mode : RepairMode) (force age : ℕ) (kind : RepairKind) (gr : GatewayRequest)
      → repair_with_request force age mode clock kind gr res before db ≡ ok (o, db')
      → IsBalanced db'
  unfolding repair_with_request
  repair_with_request-IsBalanced mode force age started_not_completed gr h =
      elim (Bool-cases (ltb age force)) [
        | inl young ↦ let same : db' ≡ db = ground arith in rw same balanced
        | inr old ↦
            repair_reconcile-IsBalanced mode started_not_completed force_fail_and_reconcile 0 0
              (finish_request_failure clock gr.request_id stale_failure db)
              (failed-IsBalanced gr.request_id) (ground arith)
      ]
  repair_with_request-IsBalanced mode force age gateway_request_failed gr h =
      repair_reconcile-IsBalanced mode _ _ _ _ db balanced h
  repair_with_request-IsBalanced mode force age completed_without_reconcile gr h =
      repair_reconcile-IsBalanced mode _ _ _ _ db balanced h
  repair_with_request-IsBalanced mode force age no_gateway_request gr h =
      let same : db' ≡ db = ground arith in rw same balanced
  repair_with_request-IsBalanced mode force age unknown gr h =
      let same : db' ≡ db = ground arith in rw same balanced

repair_outstanding-IsBalanced :
    (force : ℕ) (mode : RepairMode) (now clock : DateTime) (res : Reservation) (db db' : Db)
    (o : Option RepairResult)
    → IsBalanced db
    → repair_outstanding force mode now clock res db ≡ ok (o, db')
    → IsBalanced db'
unfolding repair_outstanding
repair_outstanding-IsBalanced force mode now clock res db db' o b h =
    elim (Result-cases (build_delta_for_reservation res db.windows)) [
      | inr (e, failed) ↦ absurd (ground arith)
      | inl (before, built) ↦ elim (Option-cases (load_gateway_for_reservation res.id db)) [
        | inl missing ↦ repair_release-IsBalanced clock res before db db' o b mode (ground arith)
        | inr (gr, there) ↦
            repair_with_request-IsBalanced clock res before db db' o b mode force
              (age_seconds now res.created_at)
              (classify_and_recommend (some gr) (age_seconds now res.created_at) force).0 gr
              (ground arith)
      ]
    ]

-- Whatever `repair_stale_reservation` returns, in either mode and on every branch, each window's
-- reserved requests, tokens and cost stay the sums over the outstanding reservations.
pub repair-IsBalanced :
    (force : ℕ) (mode : RepairMode) (now clock : DateTime) (id : ℕ) (db db' : Db)
    (o : Option RepairResult)
    → IsBalanced db
    → repair_stale_reservation force mode now clock id db ≡ ok (o, db')
    → IsBalanced db'
unfolding repair_stale_reservation
repair-IsBalanced force mode now clock id db db' o b h =
    elim (Option-cases (find_row Reservation.id id db.reservations)) [
      | inl missing ↦ let same : db' ≡ db = ground arith in rw same b
      | inr (res, found) ↦ elim (Option-cases res.reconciled_at) [
        | inl open_ ↦
            repair_outstanding-IsBalanced force mode now clock res db db' o b (ground arith)
        | inr (t, done) ↦ elim (Result-cases (build_delta_for_reservation res db.windows)) [
          | inr (e, failed) ↦ absurd (ground arith)
          | inl (before, built) ↦ let same : db' ≡ db = ground arith in rw same b
        ]
      ]
    ]
