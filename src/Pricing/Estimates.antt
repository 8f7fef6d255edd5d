-- ===== src/Pricing/Estimates.antt =====
-- The reserved estimate covers the cost of every model that may serve the request.
use conexus.Prelude.{
  ℕ, ◌*◌, ◌≤◌, ◌≡◌, Bool-cases, ◌+◌, max, Option, none, some, List, [], ◌∷◌, arith, All, leb, false,
  Option-cases, inl, inr,
}
use conexus.Text.{Text, strip}
use conexus.Aliases.{ModelAliasConfig, resolve_pricing_model_candidates}
use conexus.Pricing.{
  Rates, rates_or, PricingTable, get_rates, get_cost, model_has_explicit_rates,
  estimate_reservation_cost_usd, max_or, max_estimate, estimate_hard_monthly_reservation_cost_usd,
}

-- Output tokens cost at least what input tokens cost.
abbrev pub OutputDearer : PricingTable → Type 0
OutputDearer = All (λ row. row.1.input ≤ row.1.output)

get_rates-OutputDearer :
    (model : Text) (table : PricingTable) (r : Rates)
    → OutputDearer table
    → get_rates model table ≡ some r
    → r.input ≤ r.output
unfolding get_rates
get_rates-OutputDearer model [] r d h = ground arith
get_rates-OutputDearer model ((name, s) ∷ rest) r d h =
    ground (arith, get_rates-OutputDearer model rest r d.1)

mul_mono : (a b c d : ℕ) → a ≤ b → c ≤ d → a * c ≤ b * d
mul_mono a b c d h k = grind arith

cost_bound : (i o tokens a b : ℕ) → i + o ≤ tokens → a ≤ b → i * a + o * b ≤ 0 * a + tokens * b
cost_bound i o tokens a b h k =
    omega (arith, mul_mono i i a b (omega arith) k, mul_mono (i + o) tokens b b h (omega arith))

cost_zero : (i o a b : ℕ) → i + o ≤ 0 → i * a + o * b ≤ 0
cost_zero i o a b h =
    let p : i ≡ 0 = omega arith in let q : o ≡ 0 = omega arith in rw (p, q) (omega arith)

-- One model: a call within the reserved tokens costs no more than the estimate.
pub get_cost-le_estimate :
    (table : PricingTable) (model : Text) (i o tokens e : ℕ)
    → OutputDearer table
    → i + o ≤ tokens
    → estimate_reservation_cost_usd table model tokens ≡ some e
    → get_cost table model i o ≤ e
unfolding estimate_reservation_cost_usd get_cost
get_cost-le_estimate table model i o tokens e d h k = elim (Bool-cases (leb tokens 0)) [
  | inl z ↦
      let r = rates_or (get_rates model table) in ground (arith, cost_zero i o r.input r.output)
  | inr z ↦ elim (Option-cases (get_rates model table)) [
    | inl missing ↦ ground arith
    | inr (r, found) ↦ ground (
      arith,
      cost_bound i o tokens r.input r.output h (get_rates-OutputDearer model table r d found),
    )
  ]
]

-- The running maximum never falls.
max_estimate-ge :
    (table : PricingTable) (tokens m e : ℕ) (cs : List Text)
    → max_estimate table tokens (some m) cs ≡ some e
    → m ≤ e
unfolding max_estimate
max_estimate-ge table tokens m e [] h = ground arith
max_estimate-ge table tokens m e (c ∷ cs) h =
    elim (Option-cases (estimate_reservation_cost_usd table c tokens)) [
      | inl missing ↦ ground arith
      | inr (est, found) ↦ ground (arith, max_estimate-ge table tokens (max m est) e cs)
    ]

max_estimate-covers :
    (table : PricingTable) (i o tokens : ℕ) (m : Option ℕ) (e : ℕ) (cs : List Text)
    → OutputDearer table
    → i + o ≤ tokens
    → max_estimate table tokens m cs ≡ some e
    → All (λ c. get_cost table c i o ≤ e) cs
unfolding max_estimate
max_estimate-covers table i o tokens m e [] d h k = tt
max_estimate-covers table i o tokens m e (c ∷ cs) d h k =
    elim (Option-cases (estimate_reservation_cost_usd table c tokens)) [
      | inl missing ↦ ground arith
      | inr (est, found) ↦ (
        ground (
          arith,
          get_cost-le_estimate table c i o tokens est d h found,
          max_estimate-ge table tokens (max_or m est) e cs,
        ),
        max_estimate-covers table i o tokens (some (max_or m est)) e cs d h (ground arith),
      )
    ]

no_tokens-covers :
    (table : PricingTable) (i o : ℕ) (cs : List Text)
    → i + o ≤ 0
    → All (λ c. get_cost table c i o ≤ 0) cs
unfolding get_cost
no_tokens-covers table i o [] h = tt
no_tokens-covers table i o (c ∷ cs) h =
    let r = rates_or (get_rates c table) in
    (cost_zero i o r.input r.output h, no_tokens-covers table i o cs h)

-- The estimate that a hard monthly limit reserves for a name without a price of its own covers, for
-- each of its concrete models, the cost of any call within the reserved tokens, if output tokens
-- cost at least as much as input tokens.
pub estimate_covers_candidates :
    (table : PricingTable) (cfg : ModelAliasConfig) (model : Text) (i o tokens e : ℕ)
    → OutputDearer table
    → i + o ≤ tokens
    → model_has_explicit_rates table (strip model) ≡ false
    → estimate_hard_monthly_reservation_cost_usd table cfg model tokens ≡ some e
    → All (λ c. get_cost table c i o ≤ e) (resolve_pricing_model_candidates model cfg)
unfolding estimate_hard_monthly_reservation_cost_usd
estimate_covers_candidates table cfg model i o tokens e d h unpriced k =
    elim (Bool-cases (leb tokens 0)) [
      | inl z ↦
          let zero_cost : e ≡ 0 = ground arith in
          rw zero_cost (no_tokens-covers table i o _ (ground arith))
      | inr z ↦
          max_estimate-covers table i o tokens none e (resolve_pricing_model_candidates model cfg) d
            h (ground arith)
    ]
