-- ===== src/LoginLimiter/Counting.antt =====
-- The recent failures that the table holds for a key, and what the dictionary operations do to them.
use conexus.Prelude.{
  ℕ, ◌+◌, ◌≤◌, ◌≡◌, true, Option, none, some, List, [], ◌∷◌, ◌++◌, arith, length, leb, Option-cases,
  Bool, inl, inr, if◌then◌else◌, refl, sym, ap, ◌∙◌, false,
}
use conexus.Text.{Text}
use conexus.Text.Laws.{text_eq_refl, text_eq→eq}
use conexus.LoginLimiter.{
  LoginAttemptKey, option_eq, key_eq, Failures, Limiter, get_failures, put_failures, pop_failures,
  prune, login_key, is_rate_limited,
}

option_eq_refl : (o : Option Text) → option_eq o o ≡ true
option_eq_refl none = ground arith
option_eq_refl (some s) = text_eq_refl s

key_eq_refl : (k : LoginAttemptKey) → key_eq k k ≡ true
unfolding key_eq
key_eq_refl k = ground (arith, text_eq_refl k.username, option_eq_refl k.client_ip)

pub get-put_failures :
    (k : LoginAttemptKey) (q : List ℕ) (fs : Failures)
    → get_failures k (put_failures k q fs) ≡ some q
unfolding get_failures put_failures
get-put_failures k q [] = ground (arith, key_eq_refl k)
get-put_failures k q ((j, old) ∷ rest) = ground (arith, get-put_failures k q rest)

-- The failures whose window still holds `now`.
unfoldable pub recent : ℕ → ℕ → List ℕ → ℕ
recent window now [] = 0
recent window now (t ∷ q) = recent window now q + (if leb now (t + window) then 1 else 0)

pub recent-prune :
    (window now t : ℕ) (q : List ℕ)
    → t ≤ now
    → recent window now (prune window t q) ≡ recent window now q
unfolding recent prune
recent-prune window now t [] h = ground arith
recent-prune window now t (s ∷ q) h = ground (arith, recent-prune window now t q h)

abbrev pub one_if : Bool → ℕ
one_if b = if b then 1 else 0

pub recent-append :
    (window now t : ℕ) (q : List ℕ)
    → recent window now (q ++ t ∷ []) ≡ recent window now q + one_if (leb now (t + window))
unfolding recent
recent-append window now t [] = ground arith
recent-append window now t (s ∷ q) = ground (arith, recent-append window now t q)

recent-length : (window now : ℕ) (q : List ℕ) → recent window now q ≤ length q
unfolding recent
recent-length window now [] = ground arith
recent-length window now (s ∷ q) = ground (arith, recent-length window now q)

recent-le : (window now : ℕ) (q : List ℕ) → recent window now q ≤ length (prune window now q)
unfolding recent prune
recent-le window now [] = ground arith
recent-le window now (s ∷ q) = ground (arith, recent-le window now q, recent-length window now q)

-- The recent failures of a key.
unfoldable pub known : Limiter → ℕ → LoginAttemptKey → Failures → ℕ
known l now k fs = elim (get_failures k fs) [ none ↦ 0 | some q ↦ recent l.window_seconds now q ]

pub limited_of_known :
    (l : Limiter) (u : Text) (ip : Option Text) (now : ℕ) (fs : Failures)
    → 1 ≤ l.max_failures
    → l.max_failures ≤ known l now (login_key u ip) fs
    → (is_rate_limited l u ip now fs).0 ≡ true
unfolding known is_rate_limited
limited_of_known l u ip now fs positive enough =
    elim (Option-cases (get_failures (login_key u ip) fs)) [
      | inl absent ↦ absurd (ground arith)
      | inr ([], there) ↦ absurd (unfold recent in ground arith)
      | inr (t ∷ q, there) ↦ ground (arith, recent-le l.window_seconds now (t ∷ q))
    ]

option_eq→eq : (o p : Option Text) → option_eq o p ≡ true → o ≡ p
option_eq→eq none none h = refl
option_eq→eq none (some t) h = ground arith
option_eq→eq (some s) none h = ground arith
option_eq→eq (some s) (some t) h = ap some (text_eq→eq s t h)

-- Equal keys are compared alike.
key_eq-same : (i j k : LoginAttemptKey) → key_eq i j ≡ true → key_eq i k ≡ key_eq j k
unfolding key_eq
key_eq-same i j k h =
    let name : i.username ≡ j.username = text_eq→eq i.username j.username (ground (arith, h)) in
    let ip : i.client_ip ≡ j.client_ip = option_eq→eq i.client_ip j.client_ip (ground (arith, h)) in
    rw (name, ip) refl

key_eq_sym : (i j : LoginAttemptKey) → key_eq i j ≡ true → key_eq j i ≡ true
key_eq_sym i j h = sym (key_eq-same i j i h) ∙ key_eq_refl i

-- Keys that are equal find the same failures.
pub get-same :
    (j k : LoginAttemptKey) (fs : Failures)
    → key_eq j k ≡ true
    → get_failures j fs ≡ get_failures k fs
unfolding get_failures
get-same j k [] h = refl
get-same j k ((i, q) ∷ rest) h =
    ground (arith, get-same j k rest h, key_eq-same i j k, key_eq-same i k j, key_eq_sym j k h, h)

pub get-put_other :
    (j k : LoginAttemptKey) (q : List ℕ) (fs : Failures)
    → key_eq j k ≡ false
    → get_failures k (put_failures j q fs) ≡ get_failures k fs
unfolding get_failures put_failures
get-put_other j k q [] h = ground (arith, h)
get-put_other j k q ((i, old) ∷ rest) h =
    ground (arith, h, get-put_other j k q rest h, key_eq-same i j k)

pub get-pop_other :
    (j k : LoginAttemptKey) (fs : Failures)
    → key_eq j k ≡ false
    → get_failures k (pop_failures j fs) ≡ get_failures k fs
unfolding get_failures pop_failures
get-pop_other j k [] h = refl
get-pop_other j k ((i, old) ∷ rest) h =
    ground (arith, h, get-pop_other j k rest h, key_eq-same i j k)
