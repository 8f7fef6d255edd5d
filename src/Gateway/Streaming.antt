-- ===== src/Gateway/Streaming.antt =====
-- `run_chat_completion_stream`: the chunks are passed on, and the way the stream ends is logged.
use conexus.Prelude.{ℕ, Bool, false, ◌||◌, Option, none, some, List, [], ◌∷◌}
use conexus.Text.{Text, codes}
use conexus.Result.{
  Fault, ok, raise, no_result_found, window_not_allocated, missing_usage_window, assertion_failed,
}
use conexus.Models.{Db}
use conexus.Pricing.{get_cost}
use conexus.Router.{TokenUsage}
use conexus.RequestLog.{SuccessArgs}
use conexus.Gateway.{
  Ending, replied, broken, passed_on, client_error, upstream_error, Finish, Upstream, answered,
  timed_out, unknown_model, all_providers_failed, provider_error, other_exception, cancelled,
  non_blank,
}
use conexus.Gateway.Setup.{
  ChatArgs, record_failure, finish_success_with_accounting, reserve_and_start_gateway_chat_request,
}
use conexus.Gateway.Service.{ends, fails, unavailable, then_settle}

pub record ChatStreamChunk : Type 0 where
  pub provider : Text
  pub model : Text
  pub role_delta : Option Text
  pub content_delta : Text
  pub finish_reason : Option Text
  pub usage : Option TokenUsage
  pub fallback_used : Bool

-- The provider's stream ends, or the consumer closes the generator (GeneratorExit).
pub data StreamEnd : Type 0 where
  ended : Upstream (Unit {0}) → StreamEnd
  generator_closed : StreamEnd

-- The variables of the loop.
pub record Seen : Type 0 where
  pub seen_provider : Option Text
  pub seen_model : Option Text
  pub seen_fallback_used : Bool
  pub final_usage : Option TokenUsage

abbrev pub nothing_seen : Seen
nothing_seen = record {
  seen_provider = none;
  seen_model = none;
  seen_fallback_used = false;
  final_usage = none;
}

-- The last usage that was reported.
abbrev pub latest_usage : Option TokenUsage → Option TokenUsage → Option TokenUsage
latest_usage (some u) before = some u
latest_usage none before = before

unfoldable pub see : Seen → ChatStreamChunk → Seen
see s c = record {
  seen_provider = some c.provider;
  seen_model = some c.model;
  seen_fallback_used = s.seen_fallback_used || c.fallback_used;
  final_usage = latest_usage c.usage s.final_usage;
}

unfoldable pub see_all : Seen → List ChatStreamChunk → Seen
unfolding see
see_all s [] = s
see_all s (c ∷ cs) = see_all (see s c) cs

-- `s or default`
abbrev pub text_or : Option Text → Text → Text
text_or none default = default
text_or (some s) default = elim (non_blank s) [ none ↦ default | some t ↦ t ]

abbrev pub stream_cost : ChatArgs → Seen → Option ℕ
stream_cost a s = elim s.final_usage [
  | none ↦ none
  | some u ↦
      some
        (get_cost a.settings.pricing (text_or s.seen_model a.model) u.input_tokens u.output_tokens)
]

abbrev pub input_tokens : Option TokenUsage → Option ℕ
input_tokens none = none
input_tokens (some u) = some u.input_tokens

abbrev pub output_tokens : Option TokenUsage → Option ℕ
output_tokens none = none
output_tokens (some u) = some u.output_tokens

abbrev pub stream_success_args : ChatArgs → ℕ → Seen → SuccessArgs
stream_success_args a latency_ms s = record {
  provider = text_or s.seen_provider (codes "unknown");
  model = text_or s.seen_model a.model;
  latency_ms = latency_ms;
  prompt_tokens = input_tokens s.final_usage;
  completion_tokens = output_tokens s.final_usage;
  estimated_cost = stream_cost a s;
  fallback_used = s.seen_fallback_used;
}

-- `type(exc).__name__`
abbrev pub fault_name : Fault → Text
fault_name no_result_found = codes "NoResultFound"
fault_name window_not_allocated = codes "RuntimeError"
fault_name missing_usage_window = codes "ValueError"
fault_name assertion_failed = codes "AssertionError"

abbrev pub stream_timed_out : Text
stream_timed_out = codes "Upstream stream timed out."

abbrev pub stream_failed : Text
stream_failed = codes "stream failed"

-- A fault of a transaction inside the outer `try` is one more exception that is logged.
unfoldable pub logs_fault : ChatArgs → Finish → Option ℕ → Fault → Db → Ending (Unit {0}) × Db
unfolding record_failure
logs_fault a late res f db =
    ends (broken f) (record_failure late a.request_id (fault_name f) stream_failed res db) db

unfoldable pub settle_stream :
    ChatArgs → Finish → Finish → Option ℕ → Seen → StreamEnd → Db → Ending (Unit {0}) × Db
unfolding record_failure fails finish_success_with_accounting logs_fault
settle_stream a early late res seen (ended (answered _)) db =
    elim (finish_success_with_accounting late a.request_id
      (stream_success_args a late.latency_ms seen) res db) [
        | ok after ↦ (replied tt, after)
        | raise f ↦ logs_fault a late res f db
      ]
settle_stream a early late res seen (ended timed_out) db =
    elim (record_failure early a.request_id unavailable stream_timed_out res db) [
      | raise f ↦ logs_fault a late res f db
      | ok logged ↦
          fails late a.request_id res unavailable stream_timed_out
            (upstream_error a.request_id unavailable stream_timed_out) logged
    ]
settle_stream a early late res seen (ended (unknown_model message)) db =
    fails late a.request_id res (codes "unknown_model") message
      (client_error a.request_id (codes "unknown_model") message) db
settle_stream a early late res seen (ended (all_providers_failed message)) db =
    fails late a.request_id res (codes "all_providers_failed") message
      (upstream_error a.request_id (codes "all_providers_failed") message) db
settle_stream a early late res seen (ended (provider_error name message)) db =
    fails late a.request_id res name message (upstream_error a.request_id name message) db
settle_stream a early late res seen (ended cancelled) db =
    ends passed_on
      (record_failure late a.request_id (codes "stream_cancelled") (codes "stream cancelled") res
        db)
      db
settle_stream a early late res seen (ended (other_exception name)) db =
    ends passed_on (record_failure late a.request_id name stream_failed res db) db
settle_stream a early late res seen generator_closed db = (passed_on, db)

-- A stream that is consumed: the chunks that came, and how it ended.
unfoldable pub run_chat_completion_stream :
    ChatArgs → Finish → Finish → List ChatStreamChunk → StreamEnd → Db → Ending (Unit {0}) × Db
unfolding reserve_and_start_gateway_chat_request see_all settle_stream
run_chat_completion_stream a early late chunks end db =
    then_settle (reserve_and_start_gateway_chat_request a db)
      (λ res started. settle_stream a early late res (see_all nothing_seen chunks) end started)
