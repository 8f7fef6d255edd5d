-- ===== src/Tests/Calls.antt =====
-- Calls of the router in which the first provider is rate limited and the second answers.
use conexus.Prelude.{◌≡◌, ◌≤◌, ◌&&◌, refl, true, false, some, is_some, [], ◌∷◌, arith, All}
use conexus.Text.{codes}
use conexus.Pricing.{get_cost}
use conexus.Router.{
  gateway, resolve_models, ChatRequest, ChatResult, provider_error, returned, raised, Provider,
  primary, fallback, Call, chat_fallback, chat_only, chat_gateway, chat, stream_chat,
}
use conexus.Router.Candidates.{IsCandidate, chat_calls-IsCandidate, chat_calls_within_estimate}
use conexus.Router.Failover.{
  called_both, fails_over, first_call, second_call_iff_failover, IsPlain, stream_calls_first,
}
use conexus.Tests.{program, settings, config, fast_estimate, fast_unpriced, prices-OutputDearer}

abbrev request : ChatRequest
request = record {
  messages = (codes "user", codes "hello") ∷ [];
  model = codes "fast";
  max_tokens = 500;
  temperature = 2;
}

abbrev answer : ChatResult
answer = record {
  content = codes "hi";
  model = codes "gpt-b";
  provider = codes "openai";
  usage = record { input_tokens = 100; output_tokens = 500 };
  fallback_used = false;
  cached = false;
}

abbrev limited : Provider ChatResult
limited req = raised (provider_error true)

abbrev answering : Provider ChatResult
answering req = returned answer

answering-IsPlain : IsPlain (some answering)
answering-IsPlain req r h = ground arith

limited-IsPlain : IsPlain (some limited)
limited-IsPlain req r h = ground arith

calls : Unit {0}
unfolding program resolve_models chat_fallback chat_only chat_gateway chat stream_chat
calls = tt

fast_route : resolve_models config (codes "fast") ≡ some (gateway, codes "claude-a", codes "gpt-b")
unfolding calls
fast_route = refl

fast_chat : chat config (some limited) (some answering) request ≡ (
  (primary, codes "claude-a") ∷ (fallback, codes "gpt-b") ∷ [],
  returned (record answer { fallback_used = true }),
)
unfolding calls
fast_chat = refl

chat_calls-IsCandidate_example :
    All
      (λ (call : Call). IsCandidate config (codes "fast") call.1)
      (chat config (some limited) (some answering) request).0
chat_calls-IsCandidate_example =
    chat_calls-IsCandidate config (some limited) (some answering) request

chat_calls_within_estimate_example :
    All
      (λ (call : Call). get_cost settings.pricing call.1 100 500 ≤ 9_000_000_000)
      (chat config (some limited) (some answering) request).0
chat_calls_within_estimate_example =
    chat_calls_within_estimate settings.pricing config (some limited) (some answering) request 100
      500 600 9_000_000_000 prices-OutputDearer (omega arith) fast_unpriced fast_estimate

second_call_iff_failover_example :
    called_both (chat config (some limited) (some answering) request).0 ≡ (
      is_some (some answering)
      && fails_over (limited (record request { model = codes "claude-a" })))
second_call_iff_failover_example =
    second_call_iff_failover config limited (some answering) request (codes "claude-a")
      (codes "gpt-b") fast_route

fast_chat_result :
    (chat config (some limited) (some answering) request).1
    ≡ returned (record answer { fallback_used = true })
unfolding calls
fast_chat_result = refl

stream_calls_first_example :
    (stream_chat config (some limited) (some answering) request).0
    ≡ first_call (chat config (some limited) (some answering) request).0
stream_calls_first_example =
    stream_calls_first config limited (some answering) limited (some answering) request refl
