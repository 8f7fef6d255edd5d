-- ===== src/Repair.antt =====
-- backend/app/services/project_limit_reservation_repair_service.py: the classification of stale
-- reservations, the preview of a repair and the repair. The message for the reader of a result is
-- left out.
pub mod Stale
pub mod Listing
pub mod Applying
pub mod Preview
pub mod Agreement
pub mod Foretelling
pub mod Balanced
use conexus.Prelude.{
  ℕ, ◌+◌, ◌-◌, pos, Bool, true, false, ◌&&◌, Option, none, some, is_some, List, [], ◌∷◌, leb, ltb,
  ◌==◌, if◌then◌else◌,
}
use conexus.Text.{Text, codes, text_eq, lower}
use conexus.Clock.{DateTime, age_seconds}
use conexus.Table.{find_where, find_row}
use conexus.Result.{Result, ok, raise, assertion_failed, missing_usage_window, ◌>>=◌}
use conexus.Models.{UsageWindow, Reservation, GatewayRequest, Db}
use conexus.RequestLog.{FailureArgs, finish_request_failure}
use conexus.Limits.{holds, or_zero}
use conexus.Reservations.Settlement.{reconcile_gateway_request, release_orphan_limit_reservation}

pub data RepairMode : Type 0 where
  dry_run apply : RepairMode

pub data RepairKind : Type 0 where
  no_gateway_request gateway_request_failed completed_without_reconcile : RepairKind
  started_not_completed unknown : RepairKind

pub data Action : Type 0 where
  release reconcile_from_request hold manual_review : Action

pub data RepairAction : Type 0 where
  already_reconciled repair_skipped release_orphan : RepairAction
  force_fail_and_reconcile reconcile_failed_request reconcile_completed_request : RepairAction

pub record DailyWindowSnapshot : Type 0 where
  pub request_count_reserved : ℕ
  pub request_count_completed : ℕ
  pub token_count_reserved : ℕ
  pub token_count_completed : ℕ

pub record MonthlyWindowSnapshot : Type 0 where
  pub cost_reserved : ℕ
  pub cost_completed : ℕ

pub record ReservationWindowDelta : Type 0 where
  pub daily_before : DailyWindowSnapshot
  pub daily_after : DailyWindowSnapshot
  pub monthly_before : Option MonthlyWindowSnapshot
  pub monthly_after : Option MonthlyWindowSnapshot

pub record RepairResult : Type 0 where
  pub reservation_id : ℕ
  pub project_id : ℕ
  pub repair_kind : RepairKind
  pub action : RepairAction
  pub applied : Bool
  pub before : ReservationWindowDelta
  pub after : Option ReservationWindowDelta

-- `_classify_and_recommend`
unfoldable pub classify_and_recommend : Option GatewayRequest → ℕ → ℕ → RepairKind × Action
classify_and_recommend none age_seconds force_after_seconds = (no_gateway_request, release)
classify_and_recommend (some gr) age_seconds force_after_seconds =
    let st = lower gr.status in
    if text_eq st (codes "failed")
    then (gateway_request_failed, reconcile_from_request)
    else if text_eq st (codes "completed")
    then (completed_without_reconcile, reconcile_from_request)
    else if text_eq st (codes "started")
    then if is_some gr.completed_at
      then (unknown, manual_review)
      else if leb force_after_seconds age_seconds
      then (started_not_completed, reconcile_from_request)
      else (started_not_completed, manual_review)
    else (unknown, manual_review)

unfoldable pub load_gateway_for_reservation : ℕ → Db → Option GatewayRequest
load_gateway_for_reservation id db = find_where (λ r. holds r.limit_reservation_id id) db.requests

unfoldable pub snap_usage_window : ℕ → List UsageWindow → Result UsageWindow
snap_usage_window id ws = elim (find_row UsageWindow.id id ws) [
  | none ↦ raise missing_usage_window
  | some w ↦ ok w
]

abbrev pub daily_snap : UsageWindow → DailyWindowSnapshot
daily_snap w = record {
  request_count_reserved = w.request_count_reserved;
  request_count_completed = w.request_count_completed;
  token_count_reserved = w.token_count_reserved;
  token_count_completed = w.token_count_completed;
}

abbrev pub monthly_snap : UsageWindow → MonthlyWindowSnapshot
monthly_snap w = record { cost_reserved = w.cost_reserved; cost_completed = w.cost_completed }

unfoldable pub build_delta_for_reservation :
    Reservation → List UsageWindow → Result ReservationWindowDelta
unfolding snap_usage_window
build_delta_for_reservation res ws = do
  day ← snap_usage_window res.daily_window_id ws
  let db = daily_snap day
  elim res.monthly_window_id [
    | none ↦ ok (record {
      daily_before = db;
      daily_after = db;
      monthly_before = none;
      monthly_after = none;
    })
    | some id ↦ do
      month ← snap_usage_window id ws
      let mb = some (monthly_snap month)
      ok (record { daily_before = db; daily_after = db; monthly_before = mb; monthly_after = mb })
  ]

-- `before.monthly_before is not None and res.monthly_window_id`
abbrev pub preview_month :
    Option ℕ
    → Option MonthlyWindowSnapshot
    → (MonthlyWindowSnapshot → MonthlyWindowSnapshot)
    → Option MonthlyWindowSnapshot × Option MonthlyWindowSnapshot
preview_month none m0 f = (none, none)
preview_month (some id) none f = (none, none)
preview_month (some id) (some m0) f = (some m0, some (f m0))

abbrev pub reconciled_day : Reservation → ℕ → DailyWindowSnapshot → DailyWindowSnapshot
reconciled_day res actual_tokens d0 = record {
  request_count_reserved = d0.request_count_reserved - res.request_slots;
  request_count_completed = d0.request_count_completed + res.request_slots;
  token_count_reserved = d0.token_count_reserved - res.tokens_reserved;
  token_count_completed = d0.token_count_completed + actual_tokens;
}

abbrev pub reconciled_month : Reservation → ℕ → MonthlyWindowSnapshot → MonthlyWindowSnapshot
reconciled_month res actual_cost m0 = record {
  cost_reserved = m0.cost_reserved - res.cost_reserved;
  cost_completed = m0.cost_completed + actual_cost;
}

unfoldable pub preview_reconcile_delta :
    Reservation → ReservationWindowDelta → ℕ → ℕ → ReservationWindowDelta
preview_reconcile_delta res before actual_tokens actual_cost =
    let months =
      preview_month res.monthly_window_id before.monthly_before
        (reconciled_month res actual_cost) in
    record {
      daily_before = before.daily_before;
      daily_after = reconciled_day res actual_tokens before.daily_before;
      monthly_before = months.0;
      monthly_after = months.1;
    }

abbrev pub released_day : Reservation → DailyWindowSnapshot → DailyWindowSnapshot
released_day res d0 = record {
  request_count_reserved = d0.request_count_reserved - res.request_slots;
  request_count_completed = d0.request_count_completed;
  token_count_reserved = d0.token_count_reserved - res.tokens_reserved;
  token_count_completed = d0.token_count_completed;
}

abbrev pub released_month : Reservation → MonthlyWindowSnapshot → MonthlyWindowSnapshot
released_month res m0 = record {
  cost_reserved = m0.cost_reserved - res.cost_reserved;
  cost_completed = m0.cost_completed;
}

unfoldable pub preview_release_delta : Reservation → ReservationWindowDelta → ReservationWindowDelta
preview_release_delta res before =
    let months = preview_month res.monthly_window_id before.monthly_before (released_month res) in
    record {
      daily_before = before.daily_before;
      daily_after = released_day res before.daily_before;
      monthly_before = months.0;
      monthly_after = months.1;
    }
