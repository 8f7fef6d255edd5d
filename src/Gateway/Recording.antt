-- ===== src/Gateway/Recording.antt =====
-- The two ways to record the end of a request settle it.
use conexus.Prelude.{◌∙◌, ℕ, pos, ◌≡◌, refl, Option, some, arith, inl, inr}
use conexus.Text.{Text}
use conexus.Result.{ok}
use conexus.Table.{find_row}
use conexus.Models.{GatewayRequest, Db}
use conexus.RequestLog.{
  SuccessArgs, FailureArgs, completed, failed, finish_request_success, finish_request_failure,
}
use conexus.UsageEvents.{UsageArgs, record_usage_event}
use conexus.Gateway.{Finish}
use conexus.Gateway.Setup.{
  known, used_tokens, reconcile_reservation, load_row, record_failure,
  finish_success_with_accounting,
}
use conexus.Gateway.Tracking.{IsSound, Tracked, Settled, requests-IsSound, ends-Settled}

record_failure_found :
    (t : Finish) (id : ℕ) (code message : Text) (res : Option ℕ) (db : Db) (row : GatewayRequest)
    → find_row GatewayRequest.request_id id db.requests ≡ some row
    → record_failure t id code message res db
      ≡ reconcile_reservation t.reconciled_at res (pos 0) (pos 0) (
          finish_request_failure t.finished_at id
            (record { latency_ms = t.latency_ms; error_code = code; error_message = message })
            db)
unfolding record_failure load_row
record_failure_found t id code message res db row h = rw (record_failure, load_row, h) refl

pub record_failure_settles :
    (t : Finish) (id : ℕ) (code message : Text) (res : Option ℕ) (db : Db)
    → Tracked id res db
    → (after : Db) × (record_failure t id code message res db ≡ ok after) × Settled id res after
unfolding finish_request_failure
record_failure_settles t id code message res db tracked =
    let a : FailureArgs = record {
      latency_ms = t.latency_ms;
      error_code = code;
      error_message = message;
    } in
    let before = finish_request_failure t.finished_at id a db in
    let (r, settled) =
      ends-Settled id res db (failed t.finished_at a) t.reconciled_at (pos 0) (pos 0) tracked
        (λ r. refl) refl (inr refl) before refl
        (requests-IsSound db before.requests tracked.sound) in
    (
      r.after,
      record_failure_found t id code message res db tracked.row tracked.found ∙ r.returns,
      settled,
    )

usage-requests :
    (gr : GatewayRequest) (a : UsageArgs) (db : Db)
    → ((record_usage_event gr a db).1.requests ≡ db.requests)
      × ((record_usage_event gr a db).1.windows ≡ db.windows)
      × ((record_usage_event gr a db).1.reservations ≡ db.reservations)
unfolding record_usage_event
usage-requests gr a db = (ground arith, ground arith, ground arith)

same-IsSound :
    (db db' : Db)
    → db'.windows ≡ db.windows
    → db'.reservations ≡ db.reservations
    → IsSound db
    → IsSound db'
same-IsSound db db' ws rs s = record {
  balanced = record {
    requests = λ w. rw (ws, rs) (s.balanced.requests w);
    tokens = λ w. rw (ws, rs) (s.balanced.tokens w);
    cost = λ w. rw (ws, rs) (s.balanced.cost w);
  };
  linked = rw (ws, rs) (s.linked);
}

usage-IsSound :
    (gr : GatewayRequest) (a : UsageArgs) (db : Db)
    → IsSound db
    → IsSound (record_usage_event gr a db).1
usage-IsSound gr a db s =
    let same = usage-requests gr a db in
    same-IsSound db (record_usage_event gr a db).1 same.1 same.2 s

abbrev usage_args : SuccessArgs → UsageArgs
usage_args a = record {
  provider = a.provider;
  model = a.model;
  prompt_tokens = a.prompt_tokens;
  completion_tokens = a.completion_tokens;
  cost_usd = a.estimated_cost;
}

finish_success_found :
    (t : Finish) (id : ℕ) (a : SuccessArgs) (res : Option ℕ) (db : Db) (row : GatewayRequest)
    → find_row GatewayRequest.request_id id db.requests ≡ some row
    → finish_success_with_accounting t id a res db
      ≡ reconcile_reservation t.reconciled_at res
          (pos (used_tokens a.prompt_tokens a.completion_tokens))
          (pos (known a.estimated_cost))
          (record_usage_event
            (completed t.finished_at a row)
            (usage_args a)
            (finish_request_success t.finished_at id a db)).1
unfolding finish_success_with_accounting load_row
finish_success_found t id a res db row h = rw (finish_success_with_accounting, load_row, h) refl

pub finish_success_settles :
    (t : Finish) (id : ℕ) (a : SuccessArgs) (res : Option ℕ) (db : Db)
    → Tracked id res db
    → (after : Db) × (finish_success_with_accounting t id a res db ≡ ok after)
      × Settled id res after
unfolding finish_request_success
finish_success_settles t id a res db tracked =
    let logged = finish_request_success t.finished_at id a db in
    let usage = usage_args a in
    let counted = (record_usage_event (completed t.finished_at a tracked.row) usage logged).1 in
    let (r, settled) =
      ends-Settled id res db (completed t.finished_at a) t.reconciled_at
        (pos (used_tokens a.prompt_tokens a.completion_tokens)) (pos (known a.estimated_cost))
        tracked (λ r. refl) refl (inl refl) counted
        (usage-requests (completed t.finished_at a tracked.row) usage logged).0
        (usage-IsSound (completed t.finished_at a tracked.row) usage logged
          (requests-IsSound db logged.requests tracked.sound)) in
    (r.after, finish_success_found t id a res db tracked.row tracked.found ∙ r.returns, settled)
