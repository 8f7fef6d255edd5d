-- ===== src/Login/Throttled.antt =====
-- A user name and an address with too many recent failures.
use conexus.Prelude.{◌+◌, ◌≤◌, ◌≡◌, refl, true, List, length, All, sum_by}
use conexus.Text.{strip}
use conexus.LoginLimiter.{login_key, Failures}
use conexus.LoginLimiter.Blocking.{
  LimiterEvent, apply_events, IsHarmless, recent_failure, blocked_after_max_failures,
}
use conexus.Sessions.{is_username_format}
use conexus.Login.{
  LoginSettings, LoginBody, Arrival, LoginState, rate_limited, refusal, refuse, login,
}

-- Whatever calls the limiter got before a login, interleaved in any order: if none of them is later
-- than the login, none clears the failures of its user name and address and there is room for all of
-- them below the cap of tracked keys, so that none is evicted, and at least as many as the limiter
-- allows, a positive number, are failures of that user name and address within the window of time,
-- then the login, its user name without a bar, is answered with 429, whatever its password is and
-- whoever is in the table.
pub throttled_login :
    (s : LoginSettings) (a : Arrival) (body : LoginBody) (st : LoginState) (es : List LimiterEvent)
    (fs : Failures)
    → is_username_format (strip body.username) ≡ true
    → 1 ≤ s.limiter.max_failures
    → All (IsHarmless a.limiter_time (login_key (strip body.username) a.client_ip)) es
    → length fs + length es ≤ s.limiter.max_tracked_login_keys
    → s.limiter.max_failures
      ≤ sum_by
          (recent_failure s.limiter a.limiter_time (login_key (strip body.username) a.client_ip))
          es
    → st.failures ≡ apply_events s.limiter es fs
    → (login s a body st).0 ≡ refusal rate_limited
unfolding login refuse
throttled_login s a body st es fs format positive harmless room enough held =
    let blocked =
      blocked_after_max_failures s.limiter (strip body.username) a.client_ip a.limiter_time es fs
        positive harmless room enough in
    rw (format, held, blocked) refl
