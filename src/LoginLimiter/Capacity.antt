-- ===== src/LoginLimiter/Capacity.antt =====
-- The table of failed logins stays within its cap.
use conexus.Prelude.{
  ℕ, suc, ◌≤◌, ◌<◌, ◌≡◌, Option, none, some, List, [], ◌∷◌, ◌++◌, arith, length, Option-cases, inl,
  inr,
}
use conexus.Text.{Text}
use conexus.LoginLimiter.{
  LoginAttemptKey, Failures, Limiter, get_failures, put_failures, pop_failures, prune,
  evict_if_over_cap, login_key, is_rate_limited, record_failure, clear,
}

pub length-put_failures :
    (k : LoginAttemptKey) (q : List ℕ) (fs : Failures)
    → length (put_failures k q fs)
      ≡ elim (get_failures k fs) [ none ↦ suc (length fs) | some _ ↦ length fs ]
unfolding put_failures get_failures
length-put_failures k q [] = ground arith
length-put_failures k q ((j, old) ∷ rest) = ground (arith, length-put_failures k q rest)

pub length-pop_failures :
    (k : LoginAttemptKey) (fs : Failures) → length (pop_failures k fs) ≤ length fs
unfolding pop_failures
length-pop_failures k [] = ground arith
length-pop_failures k ((j, old) ∷ rest) = ground (arith, length-pop_failures k rest)

length-evict : (cap : ℕ) (fs : Failures) → 1 ≤ cap → length (evict_if_over_cap cap fs) < cap
unfolding evict_if_over_cap
length-evict cap [] h = ground arith
length-evict cap (e ∷ rest) h = ground (arith, length-evict cap rest h)

evict-absent :
    (k : LoginAttemptKey) (cap : ℕ) (fs : Failures)
    → get_failures k fs ≡ none
    → get_failures k (evict_if_over_cap cap fs) ≡ none
unfolding evict_if_over_cap get_failures
evict-absent k cap [] h = ground arith
evict-absent k cap ((j, old) ∷ rest) h = ground (arith, evict-absent k cap rest)

record-bounded :
    (l : Limiter) (u : Text) (ip : Option Text) (now : ℕ) (fs : Failures)
    → 1 ≤ l.max_tracked_login_keys
    → length fs ≤ l.max_tracked_login_keys
    → length (record_failure l u ip now fs) ≤ l.max_tracked_login_keys
unfolding record_failure
record-bounded l u ip now fs positive bounded =
    let k = login_key u ip in
    let cap = l.max_tracked_login_keys in
    elim (Option-cases (get_failures k fs)) [
      | inr (q, there) ↦
          ground (arith, length-put_failures k (prune l.window_seconds now q ++ now ∷ []) fs)
      | inl absent ↦ ground (
        arith,
        length-put_failures k (now ∷ []) fs,
        length-put_failures k (now ∷ []) (evict_if_over_cap cap fs),
        length-evict cap fs positive,
        evict-absent k cap fs absent,
      )
    ]

limited-bounded :
    (l : Limiter) (u : Text) (ip : Option Text) (now : ℕ) (fs : Failures)
    → length fs ≤ l.max_tracked_login_keys
    → length (is_rate_limited l u ip now fs).1 ≤ l.max_tracked_login_keys
unfolding is_rate_limited
limited-bounded l u ip now fs bounded =
    let k = login_key u ip in
    elim (Option-cases (get_failures k fs)) [
      | inl absent ↦ ground arith
      | inr ([], there) ↦ ground arith
      | inr (t ∷ q, there) ↦
          ground (arith, length-put_failures k (prune l.window_seconds now (t ∷ q)) fs)
    ]

-- With room for at least one key, none of the limiter's operations lets the number of tracked keys
-- exceed the cap.
pub tracked_keys_bounded :
    (l : Limiter) (u : Text) (ip : Option Text) (now : ℕ) (fs : Failures)
    → 1 ≤ l.max_tracked_login_keys
    → length fs ≤ l.max_tracked_login_keys
    → (length (record_failure l u ip now fs) ≤ l.max_tracked_login_keys)
      × (length (is_rate_limited l u ip now fs).1 ≤ l.max_tracked_login_keys)
      × (length (clear u ip fs) ≤ l.max_tracked_login_keys)
unfolding clear
tracked_keys_bounded l u ip now fs positive bounded = (
  record-bounded l u ip now fs positive bounded,
  limited-bounded l u ip now fs bounded,
  omega (arith, length-pop_failures (login_key u ip) fs),
)
