-- ===== src/Tests/Figures.antt =====
-- The figures of four requests of one profile: three were completed and one failed.
use conexus.Prelude.{ℕ, ◌≡◌, refl, true, Option, none, some, [], ◌∷◌}
use conexus.Text.{Text, codes, lstrip, rstrip, is_space}
use conexus.Http.{response, exception}
use conexus.Models.{GatewayRequest, AdapterProfile, Db}
use conexus.Profiles.{get_profile_or_404}
use conexus.RequestLog.{started}
use conexus.Observability.{
  ObservabilityResponse, day_before, without_z, parse_window_param, observed, completed_values,
  p95_index, latency_p95, cost_per_answer, summarize, observe_window, observe, get_observability,
}
use conexus.Observability.Sorting.{item_at, insert, sorted, count_if}
use conexus.Observability.Percentile.{AnswerIsRight, observability_percentile}
use conexus.Tests.{program, noon, empty}

figures : Unit {0}
unfolding program is_space lstrip rstrip get_profile_or_404 day_before without_z parse_window_param
    observed completed_values p95_index latency_p95 cost_per_answer summarize observe_window observe
    get_observability item_at insert sorted count_if
figures = tt

abbrev profile : AdapterProfile
profile = record {
  gateway_profile_id = codes "g1";
  adapter_profile_id = codes "a1";
  domain_key = codes "cms";
  profile_version = none;
  status = codes "Registered";
  source_run_id = none;
  source_plan_id = none;
  evidence_hash = none;
  semantic_context_hash = none;
  slod_model_version = none;
  metadata_json = none;
  created_at = noon;
}

abbrev ended : ℕ → Text → Option ℕ → GatewayRequest
ended id status latency =
    record (started noon (record {
      request_id = id;
      project_id = some 1;
      api_key_id = none;
      requested_model = codes "fast";
      limit_reservation_id = none;
      gateway_profile_id = some (codes "g1");
      adapter_profile_id = some (codes "a1");
      domain_key = some (codes "cms");
      adaptation_mode = none;
    })) { status = status; latency_ms = latency; estimated_cost = some 7 }

abbrev observed_db : Db
observed_db = record empty {
  profiles = profile ∷ [];
  requests =
      ended 1 (codes "completed") (some 30)
      ∷ ended 2 (codes "failed") (some 90)
      ∷ ended 3 (codes "completed") (some 10)
      ∷ ended 4 (codes "completed") (some 20)
      ∷ [];
}

abbrev figures_of : ObservabilityResponse
figures_of = record {
  gateway_profile_id = codes "g1";
  window_start = record noon { day = 28 };
  window_end = noon;
  request_count = 4;
  error_rate = record { numerator = 1; denominator = 4 };
  latency_p95_ms = some 30;
  cost_per_answer = some (record { numerator = 21; denominator = 3 });
}

observed_figures :
    get_observability (λ raw. none) true noon (codes "g1") (some (codes " ")) none observed_db
    ≡ response figures_of
unfolding figures
observed_figures = refl

unread_since :
    get_observability (λ raw. none) true noon (codes "g1") (some (codes "x")) none observed_db
    ≡ exception 400 (codes "invalid since/until")
unfolding figures
unread_since = refl

observability_percentile_example : AnswerIsRight (codes "g1") observed_db figures_of
observability_percentile_example =
    observability_percentile (λ raw. none) true noon (codes "g1") (some (codes " ")) none
      observed_db figures_of observed_figures
