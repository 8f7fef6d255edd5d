-- ===== src/Tests/Logins.antt =====
-- Failed logins of one user, and the table of reserve locks.
use conexus.Prelude.{
  ◌≤◌, ◌≡◌, refl, true, false, none, some, List, [], ◌∷◌, arith, length, All, sum_by, inl, inr,
}
use conexus.Text.{codes, lstrip, rstrip, is_space, lower_char}
use conexus.Tests.{program}
use conexus.LoginLimiter.{Limiter, key_eq, login_key, is_rate_limited, record_failure, clear}
use conexus.LoginLimiter.Capacity.{tracked_keys_bounded}
use conexus.LoginLimiter.Blocking.{
  LimiterEvent, failed_at, checked_at, cleared, apply_events, IsHarmless, recent_failure,
  blocked_after_max_failures,
}
use conexus.ReserveLocks.{Locks, get_lock, evict_free, project_reserve_lock}
use conexus.ReserveLocks.Eviction.{
  HasRoom, AllHeld, reserve_lock_returns, reserve_lock_never_returns,
}

abbrev limiter : Limiter
limiter = record { max_failures = 2; window_seconds = 60; max_tracked_login_keys = 5 }

-- Two failures of one user, with a failure and a success of another between them.
abbrev calls : List LimiterEvent
calls =
    failed_at (codes "admin") none 100
    ∷ failed_at (codes "eve") none 110
    ∷ cleared (codes "eve") none
    ∷ checked_at (codes "ADMIN") none 120
    ∷ failed_at (codes "Admin ") none 130
    ∷ []

logins : Unit {0}
unfolding program key_eq login_key lstrip rstrip is_space lower_char
logins = tt

calls-IsHarmless : All (IsHarmless 150 (login_key (codes " Admin ") none)) calls
unfolding logins
calls-IsHarmless = (omega arith, (omega arith, (refl, (omega arith, (omega arith, tt)))))

calls_enough : sum_by (recent_failure limiter 150 (login_key (codes " Admin ") none)) calls ≡ 2
unfolding logins
calls_enough = refl

blocked_after_max_failures_example :
    (is_rate_limited limiter (codes " Admin ") none 150 (apply_events limiter calls [])).0 ≡ true
blocked_after_max_failures_example =
    blocked_after_max_failures limiter (codes " Admin ") none 150 calls [] (omega arith)
      calls-IsHarmless (omega arith) (omega (arith, calls_enough))

tracked_keys_bounded_example :
    (length (record_failure limiter (codes "admin") none 150 []) ≤ 5)
    × (length (is_rate_limited limiter (codes "admin") none 150 []).1 ≤ 5)
    × (length (clear (codes "admin") none []) ≤ 5)
tracked_keys_bounded_example =
    tracked_keys_bounded limiter (codes "admin") none 150 [] (omega arith) (omega arith)

abbrev held : Locks
held = (1, true) ∷ (2, true) ∷ []

abbrev one_free : Locks
one_free = (1, true) ∷ (2, false) ∷ []

one_free-HasRoom : HasRoom 2 3 one_free
unfolding evict_free
one_free-HasRoom = inr (inl refl)

held-AllHeld : AllHeld held
held-AllHeld = (refl, (refl, tt))

held_absent : get_lock 3 held ≡ none
unfolding get_lock
held_absent = refl

reserve_lock_returns_example :
    (ls : Locks) × (project_reserve_lock 2 2 3 one_free ≡ some ls) × (length ls ≤ 2)
reserve_lock_returns_example =
    reserve_lock_returns 0 2 3 one_free (omega arith) (omega arith) one_free-HasRoom

reserve_lock_never_returns_example : project_reserve_lock 1000 2 3 held ≡ none
reserve_lock_never_returns_example =
    reserve_lock_never_returns 1000 2 3 held held-AllHeld (omega arith) held_absent
