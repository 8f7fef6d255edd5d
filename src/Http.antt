-- ===== src/Http.antt =====
-- The outcome of an HTTP endpoint: a response, or an `HTTPException` with its status and detail.
use conexus.Prelude.{ℕ, ◌≡◌, refl, ap, arith}
use conexus.Text.{Text}

pub data Http {ℓ} (A : Type ℓ) : Type ℓ where
  response : A → Http A
  exception : ℕ → Text → Http A

infixl 5 ◌>>=◌
abbrev pub ◌>>=◌ {ℓ κ} : {A : Type ℓ} {B : Type κ} → Http A → (A → Http B) → Http B
response a >>= f = f a
exception code detail >>= f = exception code detail

-- The two steps of a response that came through `>>=`.
pub response_steps {ℓ κ} :
    {A : Type ℓ} {B : Type κ} (m : Http A) (f : A → Http B) (b : B)
    → (m >>= f) ≡ response b
    → (a : A) × (m ≡ response a) × (f a ≡ response b)
response_steps (response a) f b h = (a, refl, h)
response_steps (exception code detail) f b h = ground arith

-- What a response carries.
carried {ℓ} : {A : Type ℓ} → A → Http A → A
carried d (response a) = a
carried d (exception code detail) = d

pub response_inj {ℓ} : {A : Type ℓ} {a b : A} → response a ≡ response b → a ≡ b
unfolding carried
response_inj {a} e = ap (carried a) e

pub exception-not_response {ℓ} :
    {A : Type ℓ} (code : ℕ) (detail : Text) (a : A) → ¬ (exception code detail ≡ response a)
exception-not_response code detail a e = ground arith
