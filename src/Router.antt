-- ===== src/Router.antt =====
-- backend/app/llm/gateway_router.py: a requested model is resolved to a route, and a call goes to the
-- Anthropic provider first and, on an alias, to OpenAI when that fails. The providers are parameters:
-- what a call returns or raises. A run also yields the calls that were made, in their order.
pub mod Candidates
pub mod Failover
use conexus.Prelude.{
  ℕ, Bool, true, false, Option, none, some, is_some, List, [], ◌∷◌, if◌then◌else◌,
}
use conexus.Text.{Text, strip, starts_with_any}
use conexus.Aliases.{
  ModelAliasConfig, match_alias_models, concrete_anthropic_prefixes, concrete_openai_prefixes,
}

pub data Route : Type 0 where
  gateway anthropic_only openai_only : Route

-- `_resolve_models`; `none` stands for the UnknownModelError.
unfoldable pub resolve_models : ModelAliasConfig → Text → Option (Route × Text × Text)
resolve_models cfg model =
    let m = strip model in
    elim (match_alias_models cfg model) [
      | some (anthropic_model, openai_model) ↦ some (gateway, anthropic_model, openai_model)
      | none ↦
          if starts_with_any m concrete_anthropic_prefixes
          then some (anthropic_only, m, cfg.default_fallback_model)
          else if starts_with_any m concrete_openai_prefixes
          then some (openai_only, cfg.default_primary_model, m)
          else none
    ]

pub record ChatRequest : Type 0 where
  pub messages : List (Text × Text)
  pub model : Text
  pub max_tokens : ℕ
  pub temperature : ℕ

pub record TokenUsage : Type 0 where
  pub input_tokens : ℕ
  pub output_tokens : ℕ

pub record ChatResult : Type 0 where
  pub content : Text
  pub model : Text
  pub provider : Text
  pub usage : TokenUsage
  pub fallback_used : Bool
  pub cached : Bool

-- The exceptions of a call: a ProviderError with its `retryable`, one of the SDK errors listed for
-- failover, or anything else; and the two that the router raises itself.
pub data ChatError : Type 0 where
  provider_error : Bool → ChatError
  failover_error other_error unknown_model all_providers_failed : ChatError

pub data Outcome {ℓ} (A : Type ℓ) : Type ℓ where
  returned : A → Outcome A
  raised : ChatError → Outcome A

abbrev pub Provider {ℓ} : Type ℓ → Type ℓ
Provider A = ChatRequest → Outcome A

pub data Side : Type 0 where
  primary fallback : Side

-- A call: the provider, and the model that it was asked for.
abbrev pub Call : Type 0
Call = Side × Text

-- The last part of `chat`: OpenAI after Anthropic was not there or failed over.
unfoldable pub chat_fallback :
    Option (Provider ChatResult)
    → Option (Provider ChatResult)
    → ChatRequest
    → Text
    → List Call × Outcome ChatResult
chat_fallback p none req openai_model = ([], raised all_providers_failed)
chat_fallback p (some f) req openai_model = elim (f (record req { model = openai_model })) [
  | returned r ↦ (
    (fallback, openai_model) ∷ [],
    returned (if is_some p then record r { fallback_used = true } else r),
  )
  | raised (provider_error retryable) ↦ ((fallback, openai_model) ∷ [], raised all_providers_failed)
  | raised failover_error ↦ ((fallback, openai_model) ∷ [], raised all_providers_failed)
  | raised e ↦ ((fallback, openai_model) ∷ [], raised e)
]

-- One provider and no other.
unfoldable pub chat_only {ℓ} :
    {A : Type ℓ} → Side → Option (Provider A) → ChatRequest → Text → List Call × Outcome A
chat_only side none req model = ([], raised all_providers_failed)
chat_only side (some p) req model = ((side, model) ∷ [], p (record req { model = model }))

-- The alias route of `chat`.
unfoldable pub chat_gateway :
    Option (Provider ChatResult)
    → Option (Provider ChatResult)
    → ChatRequest
    → Text
    → Text
    → List Call × Outcome ChatResult
unfolding chat_fallback
chat_gateway none f req anthropic_model openai_model = chat_fallback none f req openai_model
chat_gateway (some p) f req anthropic_model openai_model =
    let second = chat_fallback (some p) f req openai_model in
    let failed_over : List Call × Outcome ChatResult =
      ((primary, anthropic_model) ∷ second.0, second.1) in
    elim (p (record req { model = anthropic_model })) [
      | returned r ↦ ((primary, anthropic_model) ∷ [], returned r)
      | raised (provider_error true) ↦ failed_over
      | raised failover_error ↦ failed_over
      | raised e ↦ ((primary, anthropic_model) ∷ [], raised e)
    ]

unfoldable pub chat :
    ModelAliasConfig
    → Option (Provider ChatResult)
    → Option (Provider ChatResult)
    → ChatRequest
    → List Call × Outcome ChatResult
unfolding chat_gateway chat_only
chat cfg p f req = elim (resolve_models cfg req.model) [
  | none ↦ ([], raised unknown_model)
  | some (openai_only, anthropic_model, openai_model) ↦ chat_only fallback f req openai_model
  | some (anthropic_only, anthropic_model, openai_model) ↦ chat_only primary p req anthropic_model
  | some (gateway, anthropic_model, openai_model) ↦
      chat_gateway p f req anthropic_model openai_model
]

-- `stream_chat`, where `A` is what a provider's stream yields.
unfoldable pub stream_chat {ℓ} :
    {A : Type ℓ}
    → ModelAliasConfig
    → Option (Provider A)
    → Option (Provider A)
    → ChatRequest
    → List Call × Outcome A
unfolding chat_only
stream_chat cfg p f req = elim (resolve_models cfg req.model) [
  | none ↦ ([], raised unknown_model)
  | some (openai_only, anthropic_model, openai_model) ↦ chat_only fallback f req openai_model
  | some (anthropic_only, anthropic_model, openai_model) ↦ chat_only primary p req anthropic_model
  | some (gateway, anthropic_model, openai_model) ↦ chat_only primary p req anthropic_model
]
