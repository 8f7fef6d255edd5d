-- ===== src/Gateway/Settling.antt =====
-- Whole requests: what the gateway has settled when it answers, and what it leaves open.
use conexus.Prelude.{ap, sym, ℕ, ◌≡◌, refl, Bool, true, false, Option, none, some, List, arith}
use conexus.Text.{Text, codes}
use conexus.Result.{Result, ok}
use conexus.Table.{find_row}
use conexus.Table.Keys.{Distinct}
use conexus.Models.{GatewayRequest, UsageWindow, Db}
use conexus.Router.{ChatResult}
use conexus.Reservations.Admitting.{IsFresh}
use conexus.Reservations.Settlement.{closed}
use conexus.Gateway.{
  Ending, replied, refused, broken, passed_on, GatewayError, upstream_error, Finish, Upstream,
  answered, timed_out, unknown_model, all_providers_failed, provider_error, other_exception,
  cancelled,
}
use conexus.Gateway.Setup.{ChatArgs, record_failure, reserve_and_start_gateway_chat_request}
use conexus.Gateway.Service.{
  ends, fails, unavailable, request_timed_out, success_args, response_of, settle_call, then_settle,
  run_chat_completion,
}
use conexus.Gateway.Streaming.{
  ChatStreamChunk, StreamEnd, ended, generator_closed, Seen, nothing_seen, see_all,
  stream_success_args, stream_timed_out, stream_failed, settle_stream, run_chat_completion_stream,
}
use conexus.Gateway.Tracking.{IsSound, Tracked, Settled}
use conexus.Gateway.Recording.{record_failure_settles, finish_success_settles}
use conexus.Gateway.Beginning.{SetUp, has_started, was_refused, reserve_and_start-SetUp}

abbrev pub is_broken {ℓ} : {A : Type ℓ} → Ending A → Bool
is_broken (broken f) = true
is_broken _ = false

-- No transaction faulted, and the request's row and reservation are settled.
abbrev pub IsOver {ℓ} : {A : Type ℓ} → ℕ → Ending A × Db → Type 0
IsOver id out = (is_broken (out.0) ≡ false) × ((res : Option ℕ) × Settled id res out.1)

-- The outcomes of a provider call that the service handles.
abbrev pub is_handled {ℓ} : {A : Type ℓ} → Upstream A → Bool
is_handled (other_exception name) = false
is_handled cancelled = false
is_handled _ = true

ends-IsOver {ℓ} :
    {A : Type ℓ} (id : ℕ) (res : Option ℕ) (e : Ending A) (m : Result Db) (after db : Db)
    → is_broken e ≡ false
    → m ≡ ok after
    → Settled id res after
    → IsOver id (ends e m db)
ends-IsOver id res e m after db whole h s = rw h (whole, (res, s))

fails-IsOver {ℓ} :
    (A : Type ℓ) (t : Finish) (id : ℕ) (res : Option ℕ) (code message : Text) (e : GatewayError)
    (db : Db)
    → Tracked id res db
    → IsOver {A = A} id (fails t id res code message e db)
unfolding fails
fails-IsOver A t id res code message e db tracked =
    let (after, returns, settled) = record_failure_settles t id code message res db tracked in
    ends-IsOver {A = A} id res (refused e) _ after db refl returns settled

settle_call-IsOver :
    (a : ChatArgs) (early late : Finish) (res : Option ℕ) (call : Upstream ChatResult) (db : Db)
    → Tracked a.request_id res db
    → is_handled call ≡ true
    → IsOver a.request_id (settle_call a early late res call db)
unfolding settle_call
settle_call-IsOver a early late res (answered r) db t h =
    let (after, returns, settled) =
      finish_success_settles late a.request_id (success_args a late.latency_ms r) res db t in
    ends-IsOver a.request_id res (replied (response_of a r)) _ after db refl returns settled
settle_call-IsOver a early late res timed_out db t h =
    let (logged, returns, settled) =
      record_failure_settles early a.request_id unavailable request_timed_out res db t in
    rw (settle_call, returns)
      (fails-IsOver _ late a.request_id res unavailable request_timed_out
        (upstream_error a.request_id unavailable request_timed_out) logged settled.tracked)
settle_call-IsOver a early late res (unknown_model message) db t h =
    fails-IsOver _ late a.request_id res _ message _ db t
settle_call-IsOver a early late res (all_providers_failed message) db t h =
    fails-IsOver _ late a.request_id res _ message _ db t
settle_call-IsOver a early late res (provider_error name message) db t h =
    fails-IsOver _ late a.request_id res name message _ db t
settle_call-IsOver a early late res (other_exception name) db t h = absurd (ground arith)
settle_call-IsOver a early late res cancelled db t h = absurd (ground arith)

then_settle-IsOver {ℓ} :
    {A : Type ℓ} (a : ChatArgs) (out : Ending (ℕ × Option ℕ) × Db)
    (k : Option ℕ → Db → Ending A × Db)
    → SetUp a out
    → ((res : Option ℕ) (db : Db) → Tracked a.request_id res db → IsOver a.request_id (k res db))
    → IsOver a.request_id (then_settle out k)
then_settle-IsOver a _ k (has_started res db t status outstanding) next = next res db t
then_settle-IsOver a _ k (was_refused e res db s) next = (refl, (res, s))

-- From a sound ledger, with new ids, whatever the reservation says and however a handled provider
-- call ends: no transaction of the request faults, afterwards the request's row is completed or
-- failed, the reservation that it names is not outstanding, and the ledger is sound.
pub completion_settles :
    (a : ChatArgs) (early late : Finish) (call : Upstream ChatResult) (db : Db)
    → Distinct UsageWindow.id db.windows
    → IsFresh a.draws db
    → find_row GatewayRequest.request_id a.request_id db.requests ≡ none
    → IsSound db
    → is_handled call ≡ true
    → (is_broken (run_chat_completion a early late call db).0 ≡ false)
      × ((res : Option ℕ) × Settled a.request_id res (run_chat_completion a early late call db).1)
unfolding run_chat_completion
completion_settles a early late call db distinct fresh new s handled =
    then_settle-IsOver a (reserve_and_start_gateway_chat_request a db)
      (λ res started. settle_call a early late res call started)
      (reserve_and_start-SetUp a db distinct fresh new s)
      (λ res started t. settle_call-IsOver a early late res call started t handled)

-- The consumer takes the stream to its end.
abbrev pub is_consumed : StreamEnd → Bool
is_consumed (ended u) = true
is_consumed generator_closed = false

record_failure-IsOver {ℓ} :
    {A : Type ℓ} (t : Finish) (id : ℕ) (res : Option ℕ) (code message : Text) (e : Ending A)
    (db : Db)
    → is_broken e ≡ false
    → Tracked id res db
    → IsOver id (ends e (record_failure t id code message res db) db)
record_failure-IsOver t id res code message e db whole tracked =
    let (after, returns, settled) = record_failure_settles t id code message res db tracked in
    ends-IsOver id res e _ after db whole returns settled

settle_stream-IsOver :
    (a : ChatArgs) (early late : Finish) (res : Option ℕ) (seen : Seen) (end : StreamEnd) (db : Db)
    → Tracked a.request_id res db
    → is_consumed end ≡ true
    → IsOver a.request_id (settle_stream a early late res seen end db)
unfolding settle_stream
settle_stream-IsOver a early late res seen (ended (answered u)) db t h =
    let (after, returns, settled) =
      finish_success_settles late a.request_id (stream_success_args a late.latency_ms seen) res db
        t in
    rw (settle_stream, returns) (refl, (res, settled))
settle_stream-IsOver a early late res seen (ended timed_out) db t h =
    let (logged, returns, settled) =
      record_failure_settles early a.request_id unavailable stream_timed_out res db t in
    rw (settle_stream, returns)
      (fails-IsOver _ late a.request_id res unavailable stream_timed_out
        (upstream_error a.request_id unavailable stream_timed_out) logged settled.tracked)
settle_stream-IsOver a early late res seen (ended (unknown_model message)) db t h =
    fails-IsOver _ late a.request_id res _ message _ db t
settle_stream-IsOver a early late res seen (ended (all_providers_failed message)) db t h =
    fails-IsOver _ late a.request_id res _ message _ db t
settle_stream-IsOver a early late res seen (ended (provider_error name message)) db t h =
    fails-IsOver _ late a.request_id res name message _ db t
settle_stream-IsOver a early late res seen (ended (other_exception name)) db t h =
    record_failure-IsOver late a.request_id res name stream_failed passed_on db refl t
settle_stream-IsOver a early late res seen (ended cancelled) db t h =
    record_failure-IsOver late a.request_id res _ _ passed_on db refl t
settle_stream-IsOver a early late res seen generator_closed db t h = absurd (ground arith)

-- From a sound ledger, with new ids: when a stream is consumed to its end, whichever exception or
-- cancellation ends it, no transaction of the request faults, its row is completed or failed, the
-- reservation that it names is not outstanding, and the ledger is sound.
pub stream_settles :
    (a : ChatArgs) (early late : Finish) (chunks : List ChatStreamChunk) (end : StreamEnd) (db : Db)
    → Distinct UsageWindow.id db.windows
    → IsFresh a.draws db
    → find_row GatewayRequest.request_id a.request_id db.requests ≡ none
    → IsSound db
    → is_consumed end ≡ true
    → (is_broken (run_chat_completion_stream a early late chunks end db).0 ≡ false)
      × ((res : Option ℕ) × Settled a.request_id res
            (run_chat_completion_stream a early late chunks end db).1)
unfolding run_chat_completion_stream
stream_settles a early late chunks end db distinct fresh new s consumed =
    then_settle-IsOver a (reserve_and_start_gateway_chat_request a db)
      (λ res started. settle_stream a early late res (see_all nothing_seen chunks) end started)
      (reserve_and_start-SetUp a db distinct fresh new s)
      (λ res started t.
        settle_stream-IsOver a early late res (see_all nothing_seen chunks) end started t consumed)

-- What a request that is let go leaves: a row that is started, and its reservation outstanding.
pub record LeftOpen (id : ℕ) (res : Option ℕ) (db : Db) : Type 0 where
  pub tracked : Tracked id res db
  pub still_started : tracked.row.status ≡ codes "started"
  pub outstanding : (k : ℕ) → res ≡ some k → closed k db ≡ false

left_open :
    (a : ChatArgs) (out : Ending (ℕ × Option ℕ) × Db) (after : Db) (id : ℕ) (res : Option ℕ)
    → SetUp a out
    → out ≡ (replied (id, res), after)
    → LeftOpen a.request_id res after
left_open a _ after id res (has_started res' db t status outstanding) h =
    let same_db : after ≡ db = sym (ap (λ (p : Ending (ℕ × Option ℕ) × Db). p.1) h) in
    let same : res ≡ res' = ground arith in
    rw (same_db, same) (record { tracked = t; still_started = status; outstanding = outstanding })
left_open a _ after id res (was_refused e res' db s) h = absurd (ground arith)

-- From a sound ledger, with new ids: when the setup starts the request and the provider call ends by
-- an exception that the service does not handle, the exception is passed on, the request's row stays
-- started and its reservation outstanding.
pub unhandled_leaves_open :
    (a : ChatArgs) (early late : Finish) (call : Upstream ChatResult) (db after : Db) (id : ℕ)
    (res : Option ℕ)
    → Distinct UsageWindow.id db.windows
    → IsFresh a.draws db
    → find_row GatewayRequest.request_id a.request_id db.requests ≡ none
    → IsSound db
    → is_handled call ≡ false
    → reserve_and_start_gateway_chat_request a db ≡ (replied (id, res), after)
    → (run_chat_completion a early late call db ≡ (passed_on, after))
      × LeftOpen a.request_id res after
unfolding run_chat_completion settle_call
unhandled_leaves_open a early late call db after id res distinct fresh new s unhandled started = (
  rw (run_chat_completion, started) (ground arith),
  left_open a _ after id res (reserve_and_start-SetUp a db distinct fresh new s) started,
)
