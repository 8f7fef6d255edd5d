-- ===== src/Router/Candidates.antt =====
-- Every model that the router calls is one that the reservation was priced for.
use conexus.Prelude.{
  ℕ, ◌+◌, ◌≤◌, ◌≡◌, true, false, Option, none, some, List, [], ◌∷◌, arith, All, Bool-cases,
  Option-cases, inl, inr,
}
use conexus.Text.{Text, text_eq, strip}
use conexus.Text.Laws.{text_eq_refl, text_eq→eq}
use conexus.Aliases.{
  ModelAliasConfig, text_in, dedup, match_alias_models, resolve_pricing_model_candidates,
}
use conexus.Pricing.{
  PricingTable, get_cost, model_has_explicit_rates, estimate_hard_monthly_reservation_cost_usd,
}
use conexus.Pricing.Estimates.{OutputDearer, estimate_covers_candidates}
use conexus.Router.{
  Route, gateway, anthropic_only, openai_only, resolve_models, ChatRequest, ChatResult, raised,
  unknown_model, Provider, Side, primary, fallback, Call, chat_fallback, chat_only, chat_gateway,
  chat,
}

abbrev pub IsCandidate : ModelAliasConfig → Text → Text → Type 0
IsCandidate cfg requested m = text_in m (resolve_pricing_model_candidates requested cfg) ≡ true

text_in-dedup : (a o : Text) → (text_in a (dedup a o) ≡ true) × (text_in o (dedup a o) ≡ true)
unfolding text_in dedup
text_in-dedup a o = ground (arith, text_eq_refl a, text_eq_refl o)

-- The models that a route calls.
abbrev Priced : ModelAliasConfig → Text → Route → Text → Text → Type 0
Priced cfg model gateway a o = IsCandidate cfg model a × IsCandidate cfg model o
Priced cfg model anthropic_only a o = IsCandidate cfg model a
Priced cfg model openai_only a o = IsCandidate cfg model o

text_in_self : (m : Text) → text_in m (m ∷ []) ≡ true
unfolding text_in
text_in_self m = ground (arith, text_eq_refl m)

dedup_of_alias :
    (cfg : ModelAliasConfig) (model a o : Text)
    → match_alias_models cfg model ≡ some (a, o)
    → resolve_pricing_model_candidates model cfg ≡ dedup a o
unfolding resolve_pricing_model_candidates
dedup_of_alias cfg model a o found = ground arith

candidates_of_alias :
    (cfg : ModelAliasConfig) (model a o : Text)
    → match_alias_models cfg model ≡ some (a, o)
    → IsCandidate cfg model a × IsCandidate cfg model o
candidates_of_alias cfg model a o found =
    rw (dedup_of_alias cfg model a o found) (text_in-dedup a o)

strip-IsCandidate :
    (cfg : ModelAliasConfig) (model : Text)
    → match_alias_models cfg model ≡ none
    → IsCandidate cfg model (strip model)
unfolding resolve_pricing_model_candidates
strip-IsCandidate cfg model missing = ground (arith, text_in_self (strip model))

resolved-Priced :
    (cfg : ModelAliasConfig) (model : Text) (r : Route) (a o : Text)
    → resolve_models cfg model ≡ some (r, a, o)
    → Priced cfg model r a o
unfolding resolve_models
resolved-Priced cfg model gateway a o h = elim (Option-cases (match_alias_models cfg model)) [
  | inr ((a', o'), found) ↦ candidates_of_alias cfg model a o (ground arith)
  | inl missing ↦ absurd (ground arith)
]
resolved-Priced cfg model anthropic_only a o h =
    elim (Option-cases (match_alias_models cfg model)) [
      | inr ((a', o'), found) ↦ absurd (ground arith)
      | inl missing ↦
          let same : a ≡ strip model = ground arith in rw same (strip-IsCandidate cfg model missing)
    ]
resolved-Priced cfg model openai_only a o h = elim (Option-cases (match_alias_models cfg model)) [
  | inr ((a', o'), found) ↦ absurd (ground arith)
  | inl missing ↦
      let same : o ≡ strip model = ground arith in rw same (strip-IsCandidate cfg model missing)
]

module _ (P : Call → Type 0) where
  chat_fallback-All :
      (p f : Option (Provider ChatResult)) (req : ChatRequest) (o : Text)
      → P (fallback, o)
      → All P (chat_fallback p f req o).0
  unfolding chat_fallback
  chat_fallback-All p none req o h = tt
  chat_fallback-All p (some f) req o h = ground arith

  chat_only-All :
      (side : Side) (p : Option (Provider ChatResult)) (req : ChatRequest) (m : Text)
      → P (side, m)
      → All P (chat_only side p req m).0
  unfolding chat_only
  chat_only-All side none req m h = tt
  chat_only-All side (some p) req m h = (h, tt)

  chat_gateway-All :
      (p f : Option (Provider ChatResult)) (req : ChatRequest) (a o : Text)
      → P (primary, a)
      → P (fallback, o)
      → All P (chat_gateway p f req a o).0
  unfolding chat_gateway
  chat_gateway-All none f req a o h k = chat_fallback-All none f req o k
  chat_gateway-All (some p) f req a o h k = ground (arith, chat_fallback-All (some p) f req o k)

pub chat_of_gateway :
    (cfg : ModelAliasConfig) (p f : Option (Provider ChatResult)) (req : ChatRequest) (a o : Text)
    → resolve_models cfg req.model ≡ some (gateway, a, o)
    → chat cfg p f req ≡ chat_gateway p f req a o
unfolding chat
chat_of_gateway cfg p f req a o found = ground arith

pub chat_of_anthropic :
    (cfg : ModelAliasConfig) (p f : Option (Provider ChatResult)) (req : ChatRequest) (a o : Text)
    → resolve_models cfg req.model ≡ some (anthropic_only, a, o)
    → chat cfg p f req ≡ chat_only primary p req a
unfolding chat
chat_of_anthropic cfg p f req a o found = ground arith

pub chat_of_openai :
    (cfg : ModelAliasConfig) (p f : Option (Provider ChatResult)) (req : ChatRequest) (a o : Text)
    → resolve_models cfg req.model ≡ some (openai_only, a, o)
    → chat cfg p f req ≡ chat_only fallback f req o
unfolding chat
chat_of_openai cfg p f req a o found = ground arith

pub chat_of_unknown :
    (cfg : ModelAliasConfig) (p f : Option (Provider ChatResult)) (req : ChatRequest)
    → resolve_models cfg req.model ≡ none
    → chat cfg p f req ≡ ([], raised unknown_model)
unfolding chat
chat_of_unknown cfg p f req unknown = ground arith

-- Every call that `chat` makes, on either provider and on every route, asks for a model that is among
-- the pricing candidates of the requested model.
pub chat_calls-IsCandidate :
    (cfg : ModelAliasConfig) (p f : Option (Provider ChatResult)) (req : ChatRequest)
    → All (λ call. IsCandidate cfg req.model call.1) (chat cfg p f req).0
chat_calls-IsCandidate cfg p f req =
    let P = λ (call : Call). IsCandidate cfg req.model call.1 in
    elim (Option-cases (resolve_models cfg req.model)) [
      | inl unknown ↦ rw (chat_of_unknown cfg p f req unknown) tt
      | inr ((gateway, a, o), found) ↦
          let priced = resolved-Priced cfg req.model gateway a o found in
          rw (chat_of_gateway cfg p f req a o found)
            (chat_gateway-All P p f req a o priced.0 priced.1)
      | inr ((anthropic_only, a, o), found) ↦
          rw (chat_of_anthropic cfg p f req a o found) (
            chat_only-All P primary p req a
              (resolved-Priced cfg req.model anthropic_only a o found))
      | inr ((openai_only, a, o), found) ↦
          rw (chat_of_openai cfg p f req a o found)
            (chat_only-All P fallback f req o (resolved-Priced cfg req.model openai_only a o found))
    ]

covered :
    (table : PricingTable) (i o e : ℕ) (m : Text) (cs : List Text)
    → All (λ c. get_cost table c i o ≤ e) cs
    → text_in m cs ≡ true
    → get_cost table m i o ≤ e
unfolding text_in
covered table i o e m [] h found = absurd (ground arith)
covered table i o e m (c ∷ cs) h found = elim (Bool-cases (text_eq c m)) [
  | inl same ↦ rw (← (text_eq→eq c m same)) (h.0)
  | inr other ↦ covered table i o e m cs h.1 (ground arith)
]

All-covered :
    (table : PricingTable) (i o e : ℕ) (cs : List Text) (calls : List Call)
    → All (λ c. get_cost table c i o ≤ e) cs
    → All (λ call. text_in call.1 cs ≡ true) calls
    → All (λ call. get_cost table call.1 i o ≤ e) calls
All-covered table i o e cs [] h k = tt
All-covered table i o e cs (call ∷ calls) h k =
    (covered table i o e call.1 cs h k.0, All-covered table i o e cs calls h k.1)

-- The cost reserved for a name without a price of its own covers every call that `chat` makes for it
-- within the reserved tokens, if output tokens cost at least as much as input tokens.
pub chat_calls_within_estimate :
    (table : PricingTable) (cfg : ModelAliasConfig) (p f : Option (Provider ChatResult))
    (req : ChatRequest) (i o tokens e : ℕ)
    → OutputDearer table
    → i + o ≤ tokens
    → model_has_explicit_rates table (strip req.model) ≡ false
    → estimate_hard_monthly_reservation_cost_usd table cfg req.model tokens ≡ some e
    → All (λ call. get_cost table call.1 i o ≤ e) (chat cfg p f req).0
chat_calls_within_estimate table cfg p f req i o tokens e d h unpriced k =
    All-covered table i o e (resolve_pricing_model_candidates req.model cfg) (chat cfg p f req).0
      (estimate_covers_candidates table cfg req.model i o tokens e d h unpriced k)
      (chat_calls-IsCandidate cfg p f req)
