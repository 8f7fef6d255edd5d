-- ===== src/LoginLimiter/Blocking.antt =====
-- Enough recent failures block, whatever the table held and whoever else logs in meanwhile.
use conexus.Prelude.{
  ℕ, suc, ◌+◌, ◌≤◌, ◌<◌, ◌≡◌, true, false, ◌&&◌, Option, none, some, List, [], ◌∷◌, ◌++◌, arith,
  length, leb, All, Option-cases, Bool-cases, inl, inr, refl, sum_by,
}
use conexus.Text.{Text}
use conexus.LoginLimiter.{
  LoginAttemptKey, key_eq, Failures, Limiter, get_failures, put_failures, pop_failures, prune,
  login_key, is_rate_limited, record_failure, clear,
}
use conexus.LoginLimiter.Counting.{
  recent, recent-prune, recent-append, known, limited_of_known, get-put_failures, get-put_other,
  get-pop_other, get-same, one_if,
}
use conexus.LoginLimiter.Capacity.{length-put_failures, length-pop_failures}

-- The calls of the limiter, each with a user name and an address, and with its time where it has one.
pub data LimiterEvent : Type 0 where
  failed_at checked_at : Text → Option Text → ℕ → LimiterEvent
  cleared : Text → Option Text → LimiterEvent

abbrev pub apply_event : Limiter → LimiterEvent → Failures → Failures
apply_event l (failed_at u ip t) fs = record_failure l u ip t fs
apply_event l (checked_at u ip t) fs = (is_rate_limited l u ip t fs).1
apply_event l (cleared u ip) fs = clear u ip fs

abbrev pub apply_events : Limiter → List LimiterEvent → Failures → Failures
apply_events l [] fs = fs
apply_events l (e ∷ es) fs = apply_events l es (apply_event l e fs)

-- No call comes from the future, and none clears the failures of the key.
abbrev pub IsHarmless : ℕ → LoginAttemptKey → LimiterEvent → Type 0
IsHarmless now k (failed_at u ip t) = t ≤ now
IsHarmless now k (checked_at u ip t) = t ≤ now
IsHarmless now k (cleared u ip) = key_eq (login_key u ip) k ≡ false

-- 1 for a failure of the key whose window still holds `now`.
abbrev pub recent_failure : Limiter → ℕ → LoginAttemptKey → LimiterEvent → ℕ
recent_failure l now k (failed_at u ip t) =
    one_if (key_eq (login_key u ip) k && leb now (t + l.window_seconds))
recent_failure l now k (checked_at u ip t) = 0
recent_failure l now k (cleared u ip) = 0

module _ (l : Limiter) (now : ℕ) (k : LoginAttemptKey) where
  -- What the table holds of a key depends on the failures found for it.
  known-get :
      (fs fs' : Failures)
      → get_failures k fs ≡ get_failures k fs'
      → known l now k fs ≡ known l now k fs'
  unfolding known
  known-get fs fs' h = rw (known, h) refl

  known-put_own :
      (j : LoginAttemptKey) (q : List ℕ) (fs : Failures)
      → key_eq j k ≡ true
      → known l now k (put_failures j q fs) ≡ recent l.window_seconds now q
  unfolding known
  known-put_own j q fs h =
      rw (known, ← (get-same j k (put_failures j q fs) h), get-put_failures j q fs) refl

  known_own :
      (j : LoginAttemptKey) (q : List ℕ) (fs : Failures)
      → key_eq j k ≡ true
      → get_failures j fs ≡ some q
      → known l now k fs ≡ recent l.window_seconds now q
  unfolding known
  known_own j q fs h there = rw (known, ← (get-same j k fs h), there) refl

  unknown_own :
      (j : LoginAttemptKey) (fs : Failures)
      → key_eq j k ≡ true
      → get_failures j fs ≡ none
      → known l now k fs ≡ 0
  unfolding known
  unknown_own j fs h absent = rw (known, ← (get-same j k fs h), absent) refl

  known-put_other :
      (j : LoginAttemptKey) (q : List ℕ) (fs : Failures)
      → key_eq j k ≡ false
      → known l now k (put_failures j q fs) ≡ known l now k fs
  known-put_other j q fs other = known-get (put_failures j q fs) fs (get-put_other j k q fs other)

  -- A queue of the key that is put back with at least as many recent failures.
  put_keeps :
      (j : LoginAttemptKey) (q q' : List ℕ) (more : ℕ) (fs : Failures)
      → get_failures j fs ≡ some q
      → recent l.window_seconds now q + more ≤ recent l.window_seconds now q'
      → (key_eq j k ≡ false → more ≡ 0)
      → known l now k fs + more ≤ known l now k (put_failures j q' fs)
  put_keeps j q q' more fs there le none_more = elim (Bool-cases (key_eq j k)) [
    | inl own ↦ omega (arith, known_own j q fs own there, known-put_own j q' fs own, le)
    | inr other ↦ omega (arith, known-put_other j q' fs other, none_more other)
  ]

  record-some :
      (u : Text) (ip : Option Text) (t : ℕ) (q : List ℕ) (fs : Failures)
      → get_failures (login_key u ip) fs ≡ some q
      → record_failure l u ip t fs
        ≡ put_failures (login_key u ip) (prune l.window_seconds t q ++ t ∷ []) fs
  unfolding record_failure
  record-some u ip t q fs there = rw (record_failure, there) refl

  record-none :
      (u : Text) (ip : Option Text) (t : ℕ) (fs : Failures)
      → get_failures (login_key u ip) fs ≡ none
      → length fs < l.max_tracked_login_keys
      → record_failure l u ip t fs ≡ put_failures (login_key u ip) (t ∷ []) fs
  unfolding record_failure
  record-none u ip t fs absent room =
      let free : leb l.max_tracked_login_keys (length fs) ≡ false = ground (arith, room) in
      rw (record_failure, absent, free) refl

  counted_own :
      (j : LoginAttemptKey) (t : ℕ)
      → key_eq j k ≡ false
      → one_if (key_eq j k && leb now (t + l.window_seconds)) ≡ 0
  counted_own j t other = rw other refl

  counted_le :
      (j : LoginAttemptKey) (t : ℕ)
      → one_if (key_eq j k && leb now (t + l.window_seconds))
        ≤ one_if (leb now (t + l.window_seconds))
  counted_le j t = ground arith

  failed-known :
      (u : Text) (ip : Option Text) (t : ℕ) (fs : Failures)
      → t ≤ now
      → length fs < l.max_tracked_login_keys
      → known l now k fs + recent_failure l now k (failed_at u ip t)
        ≤ known l now k (record_failure l u ip t fs)
  failed-known u ip t fs past room =
      let j = login_key u ip in
      let w = l.window_seconds in
      let le = counted_le j t in
      elim (Option-cases (get_failures j fs)) [
        | inr (q, there) ↦ rw (record-some u ip t q fs there) (
            put_keeps j q (prune w t q ++ t ∷ []) _ fs there
              (omega (arith, recent-append w now t (prune w t q), recent-prune w now t q past, le))
              (counted_own j t))
        | inl absent ↦ rw (record-none u ip t fs absent room) (elim (Bool-cases (key_eq j k)) [
          | inl own ↦ omega (
            arith,
            unknown_own j fs own absent,
            known-put_own j (t ∷ []) fs own,
            recent-append w now t [],
            le,
          )
          | inr other ↦ omega (arith, known-put_other j (t ∷ []) fs other, counted_own j t other)
        ])
      ]

  checked-known :
      (u : Text) (ip : Option Text) (t : ℕ) (fs : Failures)
      → t ≤ now
      → known l now k fs ≤ known l now k (is_rate_limited l u ip t fs).1
  unfolding is_rate_limited
  checked-known u ip t fs past =
      let j = login_key u ip in
      let w = l.window_seconds in
      elim (Option-cases (get_failures j fs)) [
        | inl absent ↦ rw (is_rate_limited, absent) (omega arith)
        | inr ([], there) ↦ rw (is_rate_limited, there) (omega arith)
        | inr (s ∷ q, there) ↦
            rw (is_rate_limited, there)
              (omega (
                arith,
                put_keeps j (s ∷ q) (prune w t (s ∷ q)) 0 fs there
                    (omega (arith, recent-prune w now t (s ∷ q) past)) (λ other. refl),
              ))
      ]

  cleared-known :
      (u : Text) (ip : Option Text) (fs : Failures)
      → key_eq (login_key u ip) k ≡ false
      → known l now k fs ≤ known l now k (clear u ip fs)
  unfolding clear
  cleared-known u ip fs other =
      let same =
        known-get (pop_failures (login_key u ip) fs) fs
          (get-pop_other (login_key u ip) k fs other) in
      omega (arith, same)

  event-known :
      (e : LimiterEvent) (fs : Failures)
      → IsHarmless now k e
      → length fs < l.max_tracked_login_keys
      → known l now k fs + recent_failure l now k e ≤ known l now k (apply_event l e fs)
  event-known (failed_at u ip t) fs h room = failed-known u ip t fs h room
  event-known (checked_at u ip t) fs h room = omega (arith, checked-known u ip t fs h)
  event-known (cleared u ip) fs h room = omega (arith, cleared-known u ip fs h)

  checked-length :
      (u : Text) (ip : Option Text) (t : ℕ) (fs : Failures)
      → length (is_rate_limited l u ip t fs).1 ≤ suc (length fs)
  unfolding is_rate_limited
  checked-length u ip t fs =
      let j = login_key u ip in
      elim (Option-cases (get_failures j fs)) [
        | inl absent ↦ ground arith
        | inr ([], there) ↦ ground arith
        | inr (s ∷ q, there) ↦
            ground (arith, length-put_failures j (prune l.window_seconds t (s ∷ q)) fs)
      ]

  length-event :
      (e : LimiterEvent) (fs : Failures)
      → length fs < l.max_tracked_login_keys
      → length (apply_event l e fs) ≤ suc (length fs)
  length-event (failed_at u ip t) fs room =
      let j = login_key u ip in
      elim (Option-cases (get_failures j fs)) [
        | inr (q, there) ↦
            rw (record-some u ip t q fs there)
              (ground (arith, length-put_failures j (prune l.window_seconds t q ++ t ∷ []) fs))
        | inl absent ↦
            rw (record-none u ip t fs absent room)
              (ground (arith, length-put_failures j (t ∷ []) fs))
      ]
  length-event (checked_at u ip t) fs room = checked-length u ip t fs
  length-event (cleared u ip) fs room =
      unfold clear in omega (arith, length-pop_failures (login_key u ip) fs)

  events-known :
      (es : List LimiterEvent) (fs : Failures)
      → All (IsHarmless now k) es
      → length fs + length es ≤ l.max_tracked_login_keys
      → known l now k fs + sum_by (recent_failure l now k) es ≤ known l now k (apply_events l es fs)
  events-known [] fs h room = omega arith
  events-known (e ∷ es) fs h room =
      let space : length fs < l.max_tracked_login_keys = omega (arith, room) in
      omega (
        arith,
        event-known e fs h.0 space,
        events-known es (apply_event l e fs) h.1 (omega (arith, room, length-event e fs space)),
      )

-- Whatever calls the limiter gets, interleaved in any order and for any user names and addresses: if
-- none of them is later than `now`, none clears the failures of a key and there is room for all of
-- them below the cap of tracked keys, so that none is evicted, then as soon as at least
-- `max_failures` of them, a positive number, are failures of that key whose windows still hold `now`,
-- `is_rate_limited` blocks the next attempt of the key at `now`.
pub blocked_after_max_failures :
    (l : Limiter) (u : Text) (ip : Option Text) (now : ℕ) (es : List LimiterEvent) (fs : Failures)
    → 1 ≤ l.max_failures
    → All (IsHarmless now (login_key u ip)) es
    → length fs + length es ≤ l.max_tracked_login_keys
    → l.max_failures ≤ sum_by (recent_failure l now (login_key u ip)) es
    → (is_rate_limited l u ip now (apply_events l es fs)).0 ≡ true
blocked_after_max_failures l u ip now es fs positive harmless room enough =
    limited_of_known l u ip now (apply_events l es fs) positive
      (omega (arith, enough, events-known l now (login_key u ip) es fs harmless room))
