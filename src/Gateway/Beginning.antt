-- ===== src/Gateway/Beginning.antt =====
-- The setup of a request: it starts with its row tracked, or ends with its row failed.
use conexus.Prelude.{
  ℕ, pos, ◌≡◌, refl, false, Option, none, some, arith, ap, Option-cases, inl, inr,
}
use conexus.Text.{Text, codes}
use conexus.Table.{find_row}
use conexus.Table.Keys.{Distinct}
use conexus.Models.{GatewayRequest, UsageWindow, Db}
use conexus.RequestLog.{FailureArgs, failed, start_request, finish_request_failure}
use conexus.Reservations.Admitting.{IsFresh}
use conexus.Reservations.Admitted.{new}
use conexus.Reservations.Settlement.{closed}
use conexus.Gateway.{Ending, replied, refused, GatewayError, client_error, limit_error, stripped}
use conexus.Gateway.Association.{resolve_adapter_profile_association}
use conexus.Gateway.Setup.{
  ChatArgs, Hold, held, blocked_by, start_args, log_failed, asked_for, unknown_code,
  unknown_message, refuse_profile, start_held, no_association, after_hold,
  reserve_and_start_gateway_chat_request,
}
use conexus.Gateway.Tracking.{
  IsSound, Tracked, Settled, start_request-Tracked, row-Settled, ends-Settled, requests-IsSound,
}
use conexus.Gateway.Holding.{hold_returns}

-- The setup is over: the request has started, or it was refused and its row has failed.
pub data SetUp (a : ChatArgs) : Ending (ℕ × Option ℕ) × Db → Type 0 where
  has_started :
      (res : Option ℕ) (db : Db)
      → (t : Tracked a.request_id res db) → t.row.status ≡ codes "started"
      → ((id : ℕ) → res ≡ some id → closed id db ≡ false)
      → SetUp a (replied (a.request_id, res), db)
  was_refused :
      (e : GatewayError) (res : Option ℕ) (db : Db)
      → Settled a.request_id res db
      → SetUp a (refused e, db)

blocked-Settled :
    (a : ChatArgs) (code message : Text) (db : Db)
    → find_row GatewayRequest.request_id a.request_id db.requests ≡ none
    → IsSound db
    → Settled a.request_id none (log_failed a none no_association code message db)
unfolding log_failed finish_request_failure
blocked-Settled a code message db fresh s =
    let t = (start_request-Tracked a.started_at (start_args a none no_association) db fresh s).0 in
    let started = start_request a.started_at (start_args a none no_association) db in
    let f : FailureArgs = record { latency_ms = 0; error_code = code; error_message = message } in
    row-Settled a.request_id none started (failed a.setup.finished_at f) t (λ r. refl) refl
      (inr refl) (log_failed a none no_association code message db) refl
      (requests-IsSound started (log_failed a none no_association code message db).requests t.sound)
      (λ k e. absurd (ground arith))

refuse_profile-SetUp :
    (a : ChatArgs) (res : Option ℕ) (db : Db)
    → find_row GatewayRequest.request_id a.request_id db.requests ≡ none
    → IsSound db
    → SetUp a (refuse_profile a res db)
unfolding refuse_profile log_failed finish_request_failure
refuse_profile-SetUp a res db fresh s =
    let t = (start_request-Tracked a.started_at (start_args a res (asked_for a)) db fresh s).0 in
    let started = start_request a.started_at (start_args a res (asked_for a)) db in
    let logged = log_failed a res (asked_for a) unknown_code unknown_message db in
    let f : FailureArgs = record {
      latency_ms = 0;
      error_code = unknown_code;
      error_message = unknown_message;
    } in
    let (r, settled) =
      ends-Settled a.request_id res started (failed a.setup.finished_at f) a.setup.reconciled_at
        (pos 0) (pos 0) t (λ r. refl) refl (inr refl) logged refl
        (requests-IsSound started logged.requests t.sound) in
    rw (refuse_profile, r.returns)
      (was_refused (client_error a.request_id unknown_code unknown_message) res r.after settled)

start_held-SetUp :
    (a : ChatArgs) (res : Option ℕ) (db : Db)
    → find_row GatewayRequest.request_id a.request_id db.requests ≡ none
    → IsSound db
    → ((id : ℕ) → res ≡ some id → closed id db ≡ false)
    → SetUp a (start_held a res db)
unfolding start_held start_request closed
start_held-SetUp a res db fresh s outstanding =
    elim (Option-cases (
      resolve_adapter_profile_association a.adapter_profile_canary_routing_enabled a.digest
        (stripped a.domain_key) (stripped a.explicit_gateway_profile_id) db)) [
          | inl unknown ↦ rw (start_held, unknown) (refuse_profile-SetUp a res db fresh s)
          | inr (w, e) ↦
              let (t, status) =
                start_request-Tracked a.started_at (start_args a res w) db fresh s in
              rw (start_held, e)
                (has_started res (start_request a.started_at (start_args a res w) db) t status
                  outstanding)
        ]

after_hold-SetUp :
    (a : ChatArgs) (h : Hold) (db : Db)
    → find_row GatewayRequest.request_id a.request_id db.requests ≡ none
    → IsSound db
    → ((id : ℕ) → h ≡ held (some id) → closed id db ≡ false)
    → SetUp a (after_hold a (h, db))
after_hold-SetUp a (held res) db new s outstanding =
    start_held-SetUp a res db new s (λ id e. outstanding id (ap held e))
after_hold-SetUp a (blocked_by b) db new s outstanding =
    was_refused (limit_error a.request_id b) none
      (log_failed a none no_association b.error_code b.error_message db)
      (blocked-Settled a b.error_code b.error_message db new s)

-- With sound ledgers, new UUIDs and a new request id, the setup starts the request, or refuses it and
-- leaves its row failed and its reservation, if any, reconciled.
pub reserve_and_start-SetUp :
    (a : ChatArgs) (db : Db)
    → Distinct UsageWindow.id db.windows
    → IsFresh a.draws db
    → find_row GatewayRequest.request_id a.request_id db.requests ≡ none
    → IsSound db
    → SetUp a (reserve_and_start_gateway_chat_request a db)
unfolding reserve_and_start_gateway_chat_request
reserve_and_start-SetUp a db distinct fresh new s =
    let h = hold_returns a db distinct fresh s in
    let new' : find_row GatewayRequest.request_id a.request_id h.after.requests ≡ none =
      rw (h.requests) new in
    rw (reserve_and_start_gateway_chat_request, h.returns)
      (after_hold-SetUp a h.hold h.after new' (h.sound) (h.outstanding))
