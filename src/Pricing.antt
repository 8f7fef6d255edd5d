-- ===== src/Pricing.antt =====
-- backend/app/llm/pricing.py: the pricing table, the cost of a call and the estimate that a hard
-- monthly limit reserves. A price is in millionths of a dollar per million tokens, so a token times
-- a price is exact in the unit of `cost`. The log lines and the set of models that were warned
-- about are left out.
pub mod Estimates
use conexus.Prelude.{
  ℕ, ◌+◌, ◌*◌, ◌≤◌, max, Bool, Option, none, some, List, [], ◌∷◌, is_some, leb, if◌then◌else◌,
}
use conexus.Text.{Text, text_eq, strip}
use conexus.Aliases.{ModelAliasConfig, resolve_pricing_model_candidates}

pub record Rates : Type 0 where
  pub input : ℕ
  pub output : ℕ

abbrev pub PricingTable : Type 0
PricingTable = List (Text × Rates)

-- `table.get(model)`
unfoldable pub get_rates : Text → PricingTable → Option Rates
get_rates model [] = none
get_rates model ((name, r) ∷ rest) = if text_eq name model then some r else get_rates model rest

-- `table[model] = rates`
unfoldable pub set_rates : Text → Rates → PricingTable → PricingTable
set_rates model r [] = (model, r) ∷ []
set_rates model r ((name, old) ∷ rest) =
    if text_eq name model then (name, r) ∷ rest else (name, old) ∷ set_rates model r rest

unfoldable pub set_all : PricingTable → PricingTable → PricingTable
unfolding set_rates
set_all table [] = table
set_all table ((name, r) ∷ rest) = set_all (set_rates name r table) rest

-- The loop over the providers of the pricing file.
unfoldable pub set_providers : PricingTable → List (Text × PricingTable) → PricingTable
unfolding set_all
set_providers table [] = table
set_providers table ((_, models) ∷ rest) = set_providers (set_all table models) rest

-- `_load_pricing`, from the parsed file and the parsed overrides.
unfoldable pub load_pricing : List (Text × PricingTable) → PricingTable → PricingTable
unfolding set_providers
load_pricing raw overrides = set_all (set_providers [] raw) overrides

abbrev pub fallback_rates : Rates
fallback_rates = record { input = 3_000_000; output = 15_000_000 }

abbrev pub rates_or : Option Rates → Rates
rates_or none = fallback_rates
rates_or (some r) = r

unfoldable pub get_cost : PricingTable → Text → ℕ → ℕ → ℕ
get_cost table model input_tokens output_tokens =
    let r = rates_or (get_rates model table) in input_tokens * r.input + output_tokens * r.output

unfoldable pub model_has_explicit_rates : PricingTable → Text → Bool
model_has_explicit_rates table model = is_some (get_rates model table)

unfoldable pub estimate_reservation_cost_usd : PricingTable → Text → ℕ → Option ℕ
unfolding model_has_explicit_rates
estimate_reservation_cost_usd table model reserved_total_tokens =
    if leb reserved_total_tokens 0
    then some 0
    else if model_has_explicit_rates table model
    then some (get_cost table model 0 reserved_total_tokens)
    else none

abbrev pub max_or : Option ℕ → ℕ → ℕ
max_or none est = est
max_or (some m) est = max m est

-- The loop over the candidates, with `max_est`.
unfoldable pub max_estimate : PricingTable → ℕ → Option ℕ → List Text → Option ℕ
max_estimate table tokens max_est [] = max_est
max_estimate table tokens max_est (c ∷ cs) = elim (estimate_reservation_cost_usd table c tokens) [
  | none ↦ none
  | some est ↦ max_estimate table tokens (some (max_or max_est est)) cs
]

unfoldable pub estimate_hard_monthly_reservation_cost_usd :
    PricingTable → ModelAliasConfig → Text → ℕ → Option ℕ
unfolding max_estimate
estimate_hard_monthly_reservation_cost_usd table alias_cfg requested_model reserved_total_tokens =
    let rm = strip requested_model in
    if leb reserved_total_tokens 0
    then some 0
    else if model_has_explicit_rates table rm
    then estimate_reservation_cost_usd table rm reserved_total_tokens
    else max_estimate table reserved_total_tokens none
        (resolve_pricing_model_candidates requested_model alias_cfg)
