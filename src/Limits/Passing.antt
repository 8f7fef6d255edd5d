-- ===== src/Limits/Passing.antt =====
-- When the aggregate check of hard limits lets a request pass.
use conexus.Prelude.{ℕ, ◌<◌, ◌≡◌, ◌↔◌, refl, Option, none, some, List, arith}
use conexus.Clock.{DateTime, utc_day_bounds, utc_month_bounds}
use conexus.Models.{hard, ProjectLimit, GatewayRequest}
use conexus.Limits.{
  LimitBlock, is_hard, block_at, request_count, token_sum, cost_sum, check_hard_limits,
}

-- A limit that is not set is never reached.
abbrev pub Below : Option ℕ → ℕ → Type 0
Below none n = Unit
Below (some limit) n = n < limit

passed_of_none :
    (limit : Option ℕ) (current : ℕ) (block : ℕ → LimitBlock) (next : Option LimitBlock)
    → block_at limit current block next ≡ none
    → Below limit current × (next ≡ none)
passed_of_none none current block next h = (tt, h)
passed_of_none (some l) current block next h = ground arith

none_of_passed :
    (limit : Option ℕ) (current : ℕ) (block : ℕ → LimitBlock) (next : Option LimitBlock)
    → Below limit current
    → next ≡ none
    → block_at limit current block next ≡ none
none_of_passed none current block next h k = k
none_of_passed (some l) current block next h k = ground arith

-- In hard mode `check_hard_limits` returns no block exactly if the requests and tokens that the
-- request log shows for the UTC day and the cost for the UTC month are below every limit that is set.
pub check_passes_iff_Below :
    (p : ℕ) (limits : ProjectLimit) (now : DateTime) (rows : List GatewayRequest)
    → limits.limit_mode ≡ hard
    → (check_hard_limits p limits now rows ≡ none) ↔ (
        Below limits.daily_request_limit (request_count p (utc_day_bounds now) rows)
        × Below limits.daily_token_limit (token_sum p (utc_day_bounds now) rows)
        × Below limits.monthly_cost_limit (cost_sum p (utc_month_bounds now) rows))
unfolding check_hard_limits is_hard
check_passes_iff_Below p limits now rows mode = rw mode (
  λ h.
      let (requests, next) = passed_of_none limits.daily_request_limit _ _ _ h in
      let (tokens, last) = passed_of_none limits.daily_token_limit _ _ _ next in
      let (cost, _) = passed_of_none limits.monthly_cost_limit _ _ _ last in
      (requests, tokens, cost),
  λ h. none_of_passed limits.daily_request_limit _ _ _ h.0 (
      none_of_passed limits.daily_token_limit _ _ _ h.1
        (none_of_passed limits.monthly_cost_limit _ _ _ h.2 refl)),
)
