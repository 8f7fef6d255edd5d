-- ===== src/Router/Failover.antt =====
-- When the second provider is called, and what the caller is told of it.
use conexus.Prelude.{
  ◌≡◌, ◌&&◌, ◌⊎◌, refl, ap, sym, ◌∙◌, Bool, true, false, Option, none, some, is_some, List, [], ◌∷◌,
  arith, Option-cases, inl, inr,
}
use conexus.Text.{Text}
use conexus.Aliases.{ModelAliasConfig}
use conexus.Router.{
  gateway, anthropic_only, openai_only, resolve_models, ChatRequest, ChatResult, ChatError,
  provider_error, failover_error, Outcome, returned, raised, Provider, Side, primary, fallback,
  Call, chat_fallback, chat_only, chat_gateway, chat, stream_chat,
}
use conexus.Router.Candidates.{chat_of_gateway, chat_of_anthropic, chat_of_openai, chat_of_unknown}

-- Two calls were made.
abbrev pub called_both : List Call → Bool
called_both (c ∷ d ∷ []) = true
called_both _ = false

-- The outcomes after which the other provider is tried.
abbrev pub fails_over : Outcome ChatResult → Bool
fails_over (raised (provider_error retryable)) = retryable
fails_over (raised failover_error) = true
fails_over _ = false

fallback_calls :
    (p : Option (Provider ChatResult)) (f : Option (Provider ChatResult)) (req : ChatRequest)
    (o : Text)
    → (chat_fallback p f req o).0 ≡ elim f [ none ↦ [] | some _ ↦ (fallback, o) ∷ [] ]
unfolding chat_fallback
fallback_calls p none req o = refl
fallback_calls p (some f) req o = ground arith

-- For an alias, with an Anthropic provider, `chat` makes a second call exactly if there is an OpenAI
-- provider and the first call raised a retryable provider error or one of the SDK's failover errors.
pub second_call_iff_failover :
    (cfg : ModelAliasConfig) (p : Provider ChatResult) (f : Option (Provider ChatResult))
    (req : ChatRequest) (a o : Text)
    → resolve_models cfg req.model ≡ some (gateway, a, o)
    → called_both (chat cfg (some p) f req).0
      ≡ (is_some f && fails_over (p (record req { model = a })))
unfolding chat_gateway
second_call_iff_failover cfg p f req a o found =
    rw (chat_of_gateway cfg (some p) f req a o found)
      (ground (arith, fallback_calls (some p) f req o))

-- A provider's own results do not claim a fallback.
abbrev pub IsPlain : Option (Provider ChatResult) → Type 0
IsPlain none = Unit
IsPlain (some p) =
    (req : ChatRequest) (r : ChatResult) → p req ≡ returned r → r.fallback_used ≡ false

Outcome-cases {ℓ} :
    {A : Type ℓ} (m : Outcome A) → ((a : A) × (m ≡ returned a)) ⊎ ((e : ChatError) × (m ≡ raised e))
Outcome-cases (returned a) = inl (a, refl)
Outcome-cases (raised e) = inr (e, refl)

fallback-flag :
    (p f : Option (Provider ChatResult)) (req : ChatRequest) (o : Text) (r : ChatResult)
    → IsPlain f
    → (chat_fallback p f req o).1 ≡ returned r
    → r.fallback_used ≡ is_some p
unfolding chat_fallback
fallback-flag p none req o r plain h = absurd (ground arith)
fallback-flag p (some f) req o r plain h = elim (Outcome-cases (f (record req { model = o }))) [
  | inl (r0, got) ↦ ground (arith, plain (record req { model = o }) r0 got)
  | inr (e, failed) ↦ absurd (ground arith)
]

only-flag :
    (side : Side) (p : Option (Provider ChatResult)) (req : ChatRequest) (m : Text) (r : ChatResult)
    → IsPlain p
    → (chat_only side p req m).1 ≡ returned r
    → r.fallback_used ≡ called_both (chat_only side p req m).0
unfolding chat_only
only-flag side none req m r plain h = absurd (ground arith)
only-flag side (some p) req m r plain h = plain (record req { model = m }) r h

gateway-flag :
    (p f : Option (Provider ChatResult)) (req : ChatRequest) (a o : Text) (r : ChatResult)
    → IsPlain p
    → IsPlain f
    → (chat_gateway p f req a o).1 ≡ returned r
    → r.fallback_used ≡ called_both (chat_gateway p f req a o).0
unfolding chat_gateway
gateway-flag none f req a o r plain plain' h =
    ground (arith, fallback-flag none f req o r plain' h, fallback_calls none f req o)
gateway-flag (some p) none req a o r plain plain' h =
    elim (Outcome-cases (p (record req { model = a }))) [
      | inl (r0, got) ↦ ground (arith, plain (record req { model = a }) r0 got)
      | inr (e, failed) ↦ unfold chat_fallback in absurd (ground arith)
    ]
gateway-flag (some p) (some f) req a o r plain plain' h =
    elim (Outcome-cases (p (record req { model = a }))) [
      | inl (r0, got) ↦ ground (arith, plain (record req { model = a }) r0 got)
      | inr (e, failed) ↦ ground (
        arith,
        fallback-flag (some p) (some f) req o r plain',
        fallback_calls (some p) (some f) req o,
      )
    ]

-- A result of `chat` is marked as a fallback exactly if both providers were called for it, if the
-- providers themselves never mark one.
pub fallback_used_iff_both :
    (cfg : ModelAliasConfig) (p f : Option (Provider ChatResult)) (req : ChatRequest)
    (r : ChatResult)
    → IsPlain p
    → IsPlain f
    → (chat cfg p f req).1 ≡ returned r
    → r.fallback_used ≡ called_both (chat cfg p f req).0
fallback_used_iff_both cfg p f req r plain plain' h =
    elim (Option-cases (resolve_models cfg req.model)) [
      | inl unknown ↦ absurd (ground (arith, chat_of_unknown cfg p f req unknown))
      | inr ((gateway, a, o), found) ↦
          let same = chat_of_gateway cfg p f req a o found in
          rw same (gateway-flag p f req a o r plain plain' (ap (λ c. c.1) (sym same) ∙ h))
      | inr ((anthropic_only, a, o), found) ↦
          let same = chat_of_anthropic cfg p f req a o found in
          rw same (only-flag primary p req a r plain (ap (λ c. c.1) (sym same) ∙ h))
      | inr ((openai_only, a, o), found) ↦
          let same = chat_of_openai cfg p f req a o found in
          rw same (only-flag fallback f req o r plain' (ap (λ c. c.1) (sym same) ∙ h))
    ]

-- The first of the calls.
abbrev pub first_call : List Call → List Call
first_call [] = []
first_call (c ∷ cs) = c ∷ []

first_call-gateway :
    (p : Provider ChatResult) (f : Option (Provider ChatResult)) (req : ChatRequest) (a o : Text)
    → first_call (chat_gateway (some p) f req a o).0 ≡ (primary, a) ∷ []
unfolding chat_gateway
first_call-gateway p f req a o = ground arith

-- With an Anthropic provider, and an OpenAI provider for both or for neither, `stream_chat` makes
-- the first of the calls that `chat` makes, and no other.
pub stream_calls_first {ℓ} :
    {A : Type ℓ} (cfg : ModelAliasConfig) (p : Provider ChatResult)
    (f : Option (Provider ChatResult)) (sp : Provider A) (sf : Option (Provider A))
    (req : ChatRequest)
    → is_some f ≡ is_some sf
    → (stream_chat cfg (some sp) sf req).0 ≡ first_call (chat cfg (some p) f req).0
unfolding stream_chat chat_only
stream_calls_first cfg p f sp sf req same = elim (Option-cases (resolve_models cfg req.model)) [
  | inl unknown ↦ ground (arith, chat_of_unknown cfg (some p) f req unknown)
  | inr ((gateway, a, o), found) ↦
      ground (arith, chat_of_gateway cfg (some p) f req a o found, first_call-gateway p f req a o)
  | inr ((anthropic_only, a, o), found) ↦
      ground (arith, chat_of_anthropic cfg (some p) f req a o found)
  | inr ((openai_only, a, o), found) ↦ ground (arith, chat_of_openai cfg (some p) f req a o found)
]
