-- ===== src/Routing.antt =====
-- backend/app/services/provider_candidate_service.py and routing_policy_service.py: the providers that
-- could be used, and the description of the static routing. The aliases come sorted by name.
use conexus.Prelude.{
  Bool, true, false, Option, none, some, List, [], ◌∷◌, ◌++◌, map, if◌then◌else◌, ℕ, ltb, ◌==◌,
}
use conexus.Text.{Text, codes, is_blank}
use conexus.Clock.{DateTime}
use conexus.Table.{select_where}
use conexus.Aliases.{ModelAliasConfig, concrete_anthropic_prefixes, concrete_openai_prefixes}
use conexus.Providers.{ProviderConfig, is_enabled, order_newest}

pub data ProviderCandidateSource : Type 0 where
  bo_config env : ProviderCandidateSource

pub record ProviderCandidate : Type 0 where
  pub provider : Text
  pub source : ProviderCandidateSource
  pub config_id : Option ℕ
  pub label : Option Text
  pub key_mask : Option Text
  pub is_active : Bool
  pub last_test_status : Option Text
  pub last_tested_at : Option DateTime

-- `s <= t` on texts
unfoldable pub le_text : Text → Text → Bool
le_text [] t = true
le_text (c ∷ s) [] = false
le_text (c ∷ s) (d ∷ t) = let rest = le_text s t in if c == d then rest else ltb c d

-- `order_by(provider.asc(), …)` of rows that are in the second order.
unfoldable pub insert_provider : ProviderConfig → List ProviderConfig → List ProviderConfig
unfolding le_text
insert_provider row [] = row ∷ []
insert_provider row (x ∷ xs) =
    let rest = insert_provider row xs in
    if le_text row.provider x.provider then row ∷ x ∷ xs else x ∷ rest

unfoldable pub order_by_provider : List ProviderConfig → List ProviderConfig
unfolding insert_provider
order_by_provider [] = []
order_by_provider (x ∷ xs) = insert_provider x (order_by_provider xs)

abbrev pub config_candidate : ProviderConfig → ProviderCandidate
config_candidate row = record {
  provider = row.provider;
  source = bo_config;
  config_id = some row.id;
  label = row.label;
  key_mask = some row.key_mask;
  is_active = row.is_active;
  last_test_status = row.last_test_status;
  last_tested_at = row.last_tested_at;
}

abbrev pub env_candidate : Text → ProviderCandidate
env_candidate provider = record {
  provider = provider;
  source = env;
  config_id = none;
  label = some (codes "Environment fallback");
  key_mask = none;
  is_active = true;
  last_test_status = none;
  last_tested_at = none;
}

abbrev pub env_candidate_if : Text → Text → List ProviderCandidate
env_candidate_if api_key provider = if is_blank api_key then [] else env_candidate provider ∷ []

-- `_env_candidates`, from the API keys of the settings, blank if they are not set.
unfoldable pub env_candidates : Text → Text → List ProviderCandidate
env_candidates anthropic_api_key openai_api_key =
    env_candidate_if anthropic_api_key (codes "anthropic")
    ++ env_candidate_if openai_api_key (codes "openai")

unfoldable pub list_provider_candidates : Text → Text → List ProviderConfig → List ProviderCandidate
list_provider_candidates anthropic_api_key openai_api_key rows =
    map config_candidate (order_by_provider (order_newest (select_where is_enabled rows)))
    ++ env_candidates anthropic_api_key openai_api_key

pub record AliasRoute : Type 0 where
  pub alias : Text
  pub primary_provider : Text
  pub primary_model : Text
  pub fallback_provider : Text
  pub fallback_model : Text

pub record DirectRoute : Type 0 where
  pub provider : Text
  pub model_prefixes : List Text
  pub fallback_enabled : Bool

pub record RoutingPolicy : Type 0 where
  pub id : Text
  pub name : Text
  pub mode : Text
  pub default_alias : Text
  pub aliases : List AliasRoute
  pub direct_routes : List DirectRoute

abbrev pub alias_route : Text × Text × Text → AliasRoute
alias_route (alias, anthropic_model, openai_model) = record {
  alias = alias;
  primary_provider = codes "anthropic";
  primary_model = anthropic_model;
  fallback_provider = codes "openai";
  fallback_model = openai_model;
}

unfoldable pub get_default_routing_policy : ModelAliasConfig → RoutingPolicy
get_default_routing_policy cfg = record {
  id = codes "default";
  name = codes "Default gateway policy";
  mode = codes "static";
  default_alias = codes "conexus-default";
  aliases = map alias_route cfg.aliases;
  direct_routes =
      record {
        provider = codes "anthropic";
        model_prefixes = concrete_anthropic_prefixes;
        fallback_enabled = false;
      }
      ∷ record {
        provider = codes "openai";
        model_prefixes = concrete_openai_prefixes;
        fallback_enabled = false;
      }
      ∷ [];
}
