-- ===== src/Gateway/Setup.antt =====
-- The steps that the two kinds of chat request share: the reservation, the log row, and both ends.
use conexus.Prelude.{ℕ, ◌+◌, ℤ, pos, Bool, Option, none, some, if◌then◌else◌}
use conexus.Text.{Text, codes}
use conexus.Clock.{DateTime}
use conexus.Table.{find_row}
use conexus.Result.{Result, ok, raise, no_result_found, assertion_failed, ◌>>=◌, ◌>>◌}
use conexus.Models.{ProjectLimit, GatewayRequest, Db}
use conexus.Limits.{LimitBlock, is_hard, get_project_limits}
use conexus.RequestLog.{
  StartArgs, SuccessArgs, completed, start_request, finish_request_success, finish_request_failure,
}
use conexus.UsageEvents.{record_usage_event}
use conexus.Reservations.Admission.{
  ReserveArgs, Settings, Draws, LimitReservationResult, reserve_gateway_request,
}
use conexus.Reservations.Settlement.{reconcile_gateway_request}
use conexus.Gateway.{Ending, replied, refused, broken, client_error, limit_error, Finish, stripped}
use conexus.Gateway.Association.{Association, resolve_adapter_profile_association}

-- What a request is made with: the settings, the caller's ids, the arguments, the UUIDs and the clock
-- readings.
pub record ChatArgs : Type 0 where
  pub settings : Settings
  pub adapter_profile_canary_routing_enabled : Bool
  pub digest : ℕ
  pub draws : Draws
  pub request_id : ℕ
  pub project_id : ℕ
  pub api_key_id : ℕ
  pub model : Text
  pub max_tokens : ℤ
  pub domain_key : Option Text
  pub explicit_gateway_profile_id : Option Text
  pub reserved_at : DateTime
  pub started_at : DateTime
  pub setup : Finish

-- A reservation if there is one, or `_LimitReservedBlocked`.
pub data Hold : Type 0 where
  held : Option ℕ → Hold
  blocked_by : LimitBlock → Hold

-- A blocked reservation leaves its transaction by an exception, which rolls it back.
abbrev pub hold_of : LimitReservationResult × Db → Db → Result (Hold × Db)
hold_of (r, after) before =
    if r.allowed
    then elim r.reservation_id [
      | none ↦ raise assertion_failed
      | some id ↦ ok (held (some id), after)
    ]
    else elim r.block [ none ↦ raise assertion_failed | some b ↦ ok (blocked_by b, before) ]

abbrev pub reserve_args : ChatArgs → ProjectLimit → ReserveArgs
reserve_args a limits = record {
  project_id = a.project_id;
  limits = limits;
  model = a.model;
  requested_max_tokens = a.max_tokens;
  estimated_prompt_tokens = none;
  now = a.reserved_at;
}

-- `_reserve_hard_limit_or_raise`, under the project's lock.
unfoldable pub reserve_hard_limit_or_raise : ChatArgs → Db → Result (Hold × Db)
unfolding get_project_limits is_hard reserve_gateway_request
reserve_hard_limit_or_raise a db = elim (get_project_limits a.project_id db.limits) [
  | none ↦ ok (held none, db)
  | some limits ↦
      if is_hard limits.limit_mode
      then (reserve_gateway_request a.settings a.draws (reserve_args a limits) db >>= λ r.
          hold_of r db)
      else ok (held none, db)
]

-- `if limit_reservation_id: reconcile_gateway_request(…)`, also `_reconcile_reservation`.
unfoldable pub reconcile_reservation : DateTime → Option ℕ → ℤ → ℤ → Db → Result Db
unfolding reconcile_gateway_request
reconcile_reservation now none tokens cost db = ok db
reconcile_reservation now (some id) tokens cost db = reconcile_gateway_request now id tokens cost db

-- `_load_row`
unfoldable pub load_row : ℕ → Db → Result GatewayRequest
load_row request_id db = elim (find_row GatewayRequest.request_id request_id db.requests) [
  | none ↦ raise no_result_found
  | some row ↦ ok row
]

abbrev pub known : Option ℕ → ℕ
known none = 0
known (some n) = n

abbrev pub used_tokens : Option ℕ → Option ℕ → ℕ
used_tokens (some p) (some c) = p + c
used_tokens (some p) none = 0
used_tokens none c = 0

-- `_finish_success_with_accounting`, one transaction.
unfoldable pub finish_success_with_accounting : Finish → ℕ → SuccessArgs → Option ℕ → Db → Result Db
unfolding load_row finish_request_success record_usage_event reconcile_reservation
finish_success_with_accounting t request_id a limit_reservation_id db = do
  row ← load_row request_id db
  let counted =
      record_usage_event (completed t.finished_at a row)
        (record {
          provider = a.provider;
          model = a.model;
          prompt_tokens = a.prompt_tokens;
          completion_tokens = a.completion_tokens;
          cost_usd = a.estimated_cost;
        })
        (finish_request_success t.finished_at request_id a db)
  reconcile_reservation t.reconciled_at limit_reservation_id
      (pos (used_tokens a.prompt_tokens a.completion_tokens)) (pos (known a.estimated_cost))
      counted.1

-- `_record_failure`, one transaction.
unfoldable pub record_failure : Finish → ℕ → Text → Text → Option ℕ → Db → Result Db
unfolding load_row finish_request_failure reconcile_reservation
record_failure t request_id error_code error_message limit_reservation_id db = do
  load_row request_id db
  reconcile_reservation t.reconciled_at limit_reservation_id (pos 0) (pos 0) (
      finish_request_failure t.finished_at request_id
        (record {
          latency_ms = t.latency_ms;
          error_code = error_code;
          error_message = error_message;
        })
        db)

-- The row of a request, with the association that was found.
abbrev pub start_args : ChatArgs → Option ℕ → Association → StartArgs
start_args a limit_reservation_id w = record {
  request_id = a.request_id;
  project_id = some a.project_id;
  api_key_id = some a.api_key_id;
  requested_model = a.model;
  limit_reservation_id = limit_reservation_id;
  gateway_profile_id = w.gateway_profile_id;
  adapter_profile_id = w.adapter_profile_id;
  domain_key = w.domain_key;
  adaptation_mode = w.adaptation_mode;
}

abbrev pub no_association : Association
no_association = record {
  gateway_profile_id = none;
  adapter_profile_id = none;
  domain_key = none;
  adaptation_mode = none;
}

-- The association that is logged when the explicit profile is unknown.
abbrev pub asked_for : ChatArgs → Association
asked_for a = record {
  gateway_profile_id = stripped a.explicit_gateway_profile_id;
  adapter_profile_id = none;
  domain_key = stripped a.domain_key;
  adaptation_mode = some (codes "explicit");
}

-- A row that starts and fails in one transaction.
unfoldable pub log_failed : ChatArgs → Option ℕ → Association → Text → Text → Db → Db
unfolding start_request finish_request_failure
log_failed a limit_reservation_id w error_code error_message db =
    finish_request_failure a.setup.finished_at a.request_id
      (record { latency_ms = 0; error_code = error_code; error_message = error_message })
      (start_request a.started_at (start_args a limit_reservation_id w) db)

abbrev pub unknown_code : Text
unknown_code = codes "unknown_gateway_profile_id"

abbrev pub unknown_message : Text
unknown_message = codes "Unknown gatewayProfileId."

-- The `except GatewayClientError` of the start.
unfoldable pub refuse_profile : ChatArgs → Option ℕ → Db → Ending (ℕ × Option ℕ) × Db
unfolding log_failed reconcile_reservation
refuse_profile a limit_reservation_id db =
    let logged = log_failed a limit_reservation_id (asked_for a) unknown_code unknown_message db in
    elim (reconcile_reservation a.setup.reconciled_at limit_reservation_id (pos 0) (pos 0) logged) [
      | ok after ↦ (refused (client_error a.request_id unknown_code unknown_message), after)
      | raise f ↦ (broken f, logged)
    ]

-- What follows the reservation.
unfoldable pub start_held : ChatArgs → Option ℕ → Db → Ending (ℕ × Option ℕ) × Db
unfolding resolve_adapter_profile_association start_request refuse_profile
start_held a limit_reservation_id db =
    elim (resolve_adapter_profile_association a.adapter_profile_canary_routing_enabled a.digest
      (stripped a.domain_key) (stripped a.explicit_gateway_profile_id) db) [
        | none ↦ refuse_profile a limit_reservation_id db
        | some w ↦ (
          replied (a.request_id, limit_reservation_id),
          start_request a.started_at (start_args a limit_reservation_id w) db,
        )
      ]

abbrev pub after_hold : ChatArgs → Hold × Db → Ending (ℕ × Option ℕ) × Db
after_hold a (held limit_reservation_id, db) = start_held a limit_reservation_id db
after_hold a (blocked_by b, db) = (
  refused (limit_error a.request_id b),
  log_failed a none no_association b.error_code b.error_message db,
)

unfoldable pub reserve_and_start_gateway_chat_request : ChatArgs → Db → Ending (ℕ × Option ℕ) × Db
unfolding reserve_hard_limit_or_raise log_failed start_held
reserve_and_start_gateway_chat_request a db = elim (reserve_hard_limit_or_raise a db) [
  | raise f ↦ (broken f, db)
  | ok h ↦ after_hold a h
]
