-- ===== src/Tests/Completions.antt =====
-- A chat completion of a project with hard limits, and the share of a canary.
use conexus.Prelude.{ℕ, ◌≡◌, refl, pos, true, false, Option, none, some, [], ◌∷◌}
use conexus.Text.{codes}
use conexus.Table.{find_row, latest_where}
use conexus.Models.{Activation, GatewayRequest, active, canary, Db}
use conexus.Limits.{get_project_limits}
use conexus.Router.{ChatResult}
use conexus.RequestLog.{start_request, finish_request_failure}
use conexus.Profiles.{new_activation, has_status, active_row, canary_row}
use conexus.Gateway.{Finish, passed_on, replied, answered, other_exception, timed_out, Upstream}
use conexus.Gateway.Association.{
  takes_canary, association_of_domain, resolve_adapter_profile_association,
}
use conexus.Gateway.Setup.{
  ChatArgs, reserve_hard_limit_or_raise, reconcile_reservation, log_failed, refuse_profile,
  start_held, reserve_and_start_gateway_chat_request,
}
use conexus.Gateway.Service.{run_chat_completion}
use conexus.Gateway.Streaming.{ChatStreamChunk, ended, run_chat_completion_stream}
use conexus.Gateway.Tracking.{IsSound, Settled}
use conexus.Gateway.Settling.{
  is_broken, LeftOpen, completion_settles, stream_settles, unhandled_leaves_open,
}
use conexus.Tests.{program, noon, settings, draws, empty, empty-IsFresh, empty-IsBalanced}

gateways : Unit {0}
unfolding program latest_where get_project_limits start_request finish_request_failure has_status
    active_row canary_row takes_canary association_of_domain resolve_adapter_profile_association
    reserve_hard_limit_or_raise reconcile_reservation log_failed refuse_profile start_held
    reserve_and_start_gateway_chat_request
gateways = tt

abbrev finish : Finish
finish = record { finished_at = noon; reconciled_at = noon; latency_ms = 20 }

abbrev request : ChatArgs
request = record {
  settings = settings;
  adapter_profile_canary_routing_enabled = true;
  digest = 5;
  draws = draws;
  request_id = 50;
  project_id = 1;
  api_key_id = 2;
  model = codes "fast";
  max_tokens = pos 500;
  domain_key = none;
  explicit_gateway_profile_id = none;
  reserved_at = noon;
  started_at = noon;
  setup = finish;
}

abbrev result : ChatResult
result = record {
  content = codes "hi";
  model = codes "gpt-b";
  provider = codes "openai";
  usage = record { input_tokens = 10; output_tokens = 5 };
  fallback_used = true;
  cached = false;
}

empty-IsSound : IsSound empty
empty-IsSound = record { balanced = empty-IsBalanced; linked = tt }

new_request : find_row GatewayRequest.request_id 50 empty.requests ≡ none
unfolding program
new_request = refl

completion_settles_example :
    (is_broken (run_chat_completion request finish finish (answered result) empty).0 ≡ false)
    × ((res : Option ℕ) × Settled 50 res
          (run_chat_completion request finish finish (answered result) empty).1)
completion_settles_example =
    completion_settles request finish finish (answered result) empty tt empty-IsFresh new_request
      empty-IsSound refl

abbrev chunk : ChatStreamChunk
chunk = record {
  provider = codes "openai";
  model = codes "gpt-b";
  role_delta = none;
  content_delta = codes "hi";
  finish_reason = none;
  usage = none;
  fallback_used = false;
}

stream_settles_example :
    (is_broken
        (run_chat_completion_stream request finish finish (chunk ∷ []) (ended timed_out) empty).0
      ≡ false)
    × ((res : Option ℕ) × Settled 50 res
          (run_chat_completion_stream request finish finish (chunk ∷ []) (ended timed_out) empty).1)
stream_settles_example =
    stream_settles request finish finish (chunk ∷ []) (ended timed_out) empty tt empty-IsFresh
      new_request empty-IsSound refl

abbrev failure : Upstream ChatResult
failure = other_exception (codes "RuntimeError")

abbrev begun : Db
begun = (reserve_and_start_gateway_chat_request request empty).1

empty-begun : reserve_and_start_gateway_chat_request request empty ≡ (replied (50, some 7), begun)
unfolding gateways
empty-begun = refl

unhandled_leaves_open_example :
    (run_chat_completion request finish finish failure empty ≡ (passed_on, begun))
    × LeftOpen 50 (some 7) begun
unhandled_leaves_open_example =
    unhandled_leaves_open request finish finish failure empty begun 50 (some 7) tt empty-IsFresh
      new_request empty-IsSound refl empty-begun

abbrev running : Activation
running = new_activation 1 noon (codes "cms") (codes "g1") active none none

abbrev trial : Activation
trial = new_activation 2 noon (codes "cms") (codes "g2") canary (some 10) none

abbrev trying : Db
trying = record empty { activations = running ∷ trial ∷ [] }
