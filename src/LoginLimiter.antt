-- ===== src/LoginLimiter.antt =====
-- backend/app/services/admin_login_rate_limiter.py: failed logins of a user name and an address are
-- remembered for a window of time, and too many of them in the window block further attempts. Times
-- are whole numbers in a unit of the caller's choice. The singleton around the class is left out.
pub mod Counting
pub mod Blocking
pub mod Capacity
use conexus.Prelude.{
  ℕ, zero, suc, ◌+◌, ◌-◌, Bool, true, false, ◌&&◌, Option, none, some, List, [], ◌∷◌, ◌++◌, length,
  leb, ltb, ◌==◌, if◌then◌else◌,
}
use conexus.Text.{Text, text_eq, strip, lower, is_blank}

pub record LoginAttemptKey : Type 0 where
  pub username : Text
  pub client_ip : Option Text

abbrev pub option_eq : Option Text → Option Text → Bool
option_eq none none = true
option_eq (some s) (some t) = text_eq s t
option_eq _ _ = false

unfoldable pub key_eq : LoginAttemptKey → LoginAttemptKey → Bool
key_eq k j = text_eq k.username j.username && option_eq k.client_ip j.client_ip

-- The failures by key, in the order in which the keys were inserted.
abbrev pub Failures : Type 0
Failures = List (LoginAttemptKey × List ℕ)

-- The constructor's arguments and `_MAX_TRACKED_LOGIN_KEYS`.
pub record Limiter : Type 0 where
  pub max_failures : ℕ
  pub window_seconds : ℕ
  pub max_tracked_login_keys : ℕ

-- `self._failures.get(key)`
unfoldable pub get_failures : LoginAttemptKey → Failures → Option (List ℕ)
get_failures k [] = none
get_failures k ((j, q) ∷ rest) = if key_eq j k then some q else get_failures k rest

-- `self._failures[key] = q`: an existing key keeps its place.
unfoldable pub put_failures : LoginAttemptKey → List ℕ → Failures → Failures
put_failures k q [] = (k, q) ∷ []
put_failures k q ((j, old) ∷ rest) =
    if key_eq j k then (j, q) ∷ rest else (j, old) ∷ put_failures k q rest

-- `self._failures.pop(key, None)`
unfoldable pub pop_failures : LoginAttemptKey → Failures → Failures
pop_failures k [] = []
pop_failures k ((j, old) ∷ rest) = if key_eq j k then rest else (j, old) ∷ pop_failures k rest

-- `_prune`; the test `q[0] < now - window` on numbers that do not go below 0.
unfoldable pub prune : ℕ → ℕ → List ℕ → List ℕ
prune window now [] = []
prune window now (t ∷ q) =
    let rest = prune window now q in if ltb (t + window) now then rest else t ∷ q

-- `_evict_if_over_cap`: the oldest keys go until there is room.
unfoldable pub evict_if_over_cap : ℕ → Failures → Failures
evict_if_over_cap cap [] = []
evict_if_over_cap cap (e ∷ rest) =
    let fewer = evict_if_over_cap cap rest in
    if leb cap (length (e ∷ rest)) then fewer else e ∷ rest

abbrev pub non_blank : Option Text → Option Text
non_blank none = none
non_blank (some s) = if is_blank s then none else some s

-- `_key`
unfoldable pub login_key : Text → Option Text → LoginAttemptKey
login_key username client_ip = record {
  username = lower (strip username);
  client_ip = non_blank client_ip;
}

-- An empty queue is false in Python, and then nothing is pruned.
abbrev pub limited_by : Limiter → LoginAttemptKey → ℕ → Failures → Option (List ℕ) → Bool × Failures
limited_by l k now fs none = (false, fs)
limited_by l k now fs (some []) = (false, fs)
limited_by l k now fs (some (t ∷ q)) =
    let kept = prune l.window_seconds now (t ∷ q) in
    (leb l.max_failures (length kept), put_failures k kept fs)

-- `is_rate_limited`, which also prunes the queue that it reads.
unfoldable pub is_rate_limited : Limiter → Text → Option Text → ℕ → Failures → Bool × Failures
unfolding prune
is_rate_limited l username client_ip now fs =
    let k = login_key username client_ip in limited_by l k now fs (get_failures k fs)

unfoldable pub record_failure : Limiter → Text → Option Text → ℕ → Failures → Failures
unfolding prune
record_failure l username client_ip now fs =
    let k = login_key username client_ip in
    elim (get_failures k fs) [
      | some q ↦ put_failures k (prune l.window_seconds now q ++ now ∷ []) fs
      | none ↦
          let room =
            if leb l.max_tracked_login_keys (length fs)
            then evict_if_over_cap l.max_tracked_login_keys fs
            else fs in
          put_failures k (now ∷ []) room
    ]

unfoldable pub clear : Text → Option Text → Failures → Failures
clear username client_ip fs = pop_failures (login_key username client_ip) fs
