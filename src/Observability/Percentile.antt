-- ===== src/Observability/Percentile.antt =====
-- The reported latency against the definition of the 95th percentile by nearest rank.
use conexus.Prelude.{
  ℕ, suc, ◌*◌, ◌≤◌, ◌<◌, ◌≡◌, refl, sym, ap, Bool, true, false, Option, none, some, List, [], ◌∷◌,
  leb, ltb, length, arith, inl, inr, Bool-cases,
}
use conexus.Text.{Text}
use conexus.Clock.{DateTime, lt_time, stamp}
use conexus.Http.{response, response_steps, response_inj, exception-not_response}
use conexus.Table.{select_where}
use conexus.Models.{GatewayRequest, Db}
use conexus.Profiles.{get_profile_or_404}
use conexus.Observability.Sorting.{sorted, insert, count_if, count_if-sorted, sorted-IsSorted}
use conexus.Observability.Ranking.{rank_le, rank_lt, item_within}
use conexus.Observability.{
  ObservabilityResponse, completed_values, p95_index, latency_p95, observed, summarize,
  observe_window, observe, get_observability, or_now, or_day_before, parse_window_param,
}

-- The least number that 95 of 100 members do not exceed; no number for no members.
abbrev pub IsPercentile : Option ℕ → List ℕ → Type 0
IsPercentile none xs = xs ≡ []
IsPercentile (some v) xs =
    (95 * length xs ≤ 100 * count_if (λ x. leb x v) xs)
    × (100 * count_if (λ x. ltb x v) xs < 95 * length xs)

length-insert : (x : ℕ) (ys : List ℕ) → length (insert x ys) ≡ suc (length ys)
unfolding insert
length-insert x [] = ground arith
length-insert x (y ∷ ys) = ground (arith, length-insert x ys)

length-sorted : (xs : List ℕ) → length (sorted xs) ≡ length xs
unfolding sorted
length-sorted [] = ground arith
length-sorted (x ∷ xs) = omega (arith, length-insert x (sorted xs), length-sorted xs)

index_within : (n : ℕ) → p95_index (suc n) < suc n
unfolding p95_index
index_within n = omega arith

index_rank :
    (n : ℕ) → (95 * suc n ≤ 100 * suc (p95_index (suc n))) × (100 * p95_index (suc n) < 95 * suc n)
unfolding p95_index
index_rank n = (omega arith, omega arith)

latency_p95-IsPercentile : (xs : List ℕ) → IsPercentile (latency_p95 xs) xs
unfolding latency_p95
latency_p95-IsPercentile [] = refl
latency_p95-IsPercentile (x ∷ xs) =
    let i = p95_index (suc (length xs)) in
    let (v, at) =
      item_within (sorted (x ∷ xs)) i (rw (length-sorted (x ∷ xs)) (index_within (length xs))) in
    let ascending = sorted-IsSorted (x ∷ xs) in
    let (enough, few) = index_rank (length xs) in
    rw at (
      omega (
        arith,
        enough,
        rank_le (sorted (x ∷ xs)) i v ascending at,
        count_if-sorted (λ y. leb y v) (x ∷ xs),
      ),
      omega (
        arith,
        few,
        rank_lt (sorted (x ∷ xs)) i v ascending at,
        count_if-sorted (λ y. ltb y v) (x ∷ xs),
      ),
    )

summary-IsPercentile :
    (gateway_profile_id : Text) (window_start window_end : DateTime) (rows : List GatewayRequest)
    → IsPercentile
        (summarize gateway_profile_id window_start window_end rows).latency_p95_ms
        (completed_values GatewayRequest.latency_ms rows)
unfolding summarize completed_values
summary-IsPercentile gateway_profile_id window_start window_end [] = refl
summary-IsPercentile gateway_profile_id window_start window_end (r ∷ rs) =
    latency_p95-IsPercentile (completed_values GatewayRequest.latency_ms (r ∷ rs))

-- What an answer says of the requests that it covers.
abbrev pub AnswerIsRight : Text → Db → ObservabilityResponse → Type 0
AnswerIsRight gateway_profile_id db r =
    (stamp r.window_start ≤ stamp r.window_end)
    × IsPercentile r.latency_p95_ms (
        completed_values GatewayRequest.latency_ms
          (select_where (observed gateway_profile_id r.window_start r.window_end) db.requests))

summary_window :
    (gateway_profile_id : Text) (window_start window_end : DateTime) (rows : List GatewayRequest)
    → (r : ObservabilityResponse) → summarize gateway_profile_id window_start window_end rows ≡ r
    → (r.window_start ≡ window_start) × (r.window_end ≡ window_end)
unfolding summarize
summary_window gateway_profile_id window_start window_end [] r e =
    (sym (ap ObservabilityResponse.window_start e), sym (ap ObservabilityResponse.window_end e))
summary_window gateway_profile_id window_start window_end (row ∷ rows) r e =
    (sym (ap ObservabilityResponse.window_start e), sym (ap ObservabilityResponse.window_end e))

window_answer :
    (gateway_profile_id : Text) (window_start window_end : DateTime) (db : Db)
    (r : ObservabilityResponse)
    → observe_window gateway_profile_id window_start window_end db ≡ response r
    → AnswerIsRight gateway_profile_id db r
unfolding observe_window
window_answer gateway_profile_id window_start window_end db r e =
    elim (Bool-cases (lt_time window_end window_start)) [
      | inl reversed ↦ absurd (exception-not_response _ _ r (rw reversed at e))
      | inr ordered ↦
          let rows =
            select_where (observed gateway_profile_id window_start window_end) db.requests in
          let same = response_inj (rw ordered at e) in
          let (of_start, of_end) =
            summary_window gateway_profile_id window_start window_end rows r same in
          let right = summary-IsPercentile gateway_profile_id window_start window_end rows in
          (
            rw (of_start, of_end) (ground (arith, ordered)),
            rw (of_start, of_end) (rw same at right),
          )
    ]

-- An answer of the endpoint covers a window that does not end before it starts, and its latency is
-- the 95th percentile of the latencies of the completed requests that the profile served in that
-- window: the least number that at least 95 of 100 of them do not exceed, or none if there are no
-- such latencies.
pub observability_percentile :
    (fromisoformat : Text → Option DateTime) (enabled : Bool) (now : DateTime)
    (gateway_profile_id : Text) (since until : Option Text) (db : Db) (r : ObservabilityResponse)
    → get_observability fromisoformat enabled now gateway_profile_id since until db ≡ response r
    → AnswerIsRight gateway_profile_id db r
unfolding get_observability observe
observability_percentile fromisoformat false now gateway_profile_id since until db r e =
    absurd (exception-not_response _ _ r e)
observability_percentile fromisoformat true now gateway_profile_id since until db r e =
    let (profile, known, rest) = response_steps (get_profile_or_404 gateway_profile_id db) _ r e in
    let (until_moment, read_until, rest) =
      response_steps (parse_window_param fromisoformat until) _ r rest in
    let (since_moment, read_since, rest) =
      response_steps (parse_window_param fromisoformat since) _ r rest in
    let (window_start, found, answered) =
      response_steps (or_day_before (or_now now until_moment) since_moment) _ r rest in
    window_answer gateway_profile_id window_start (or_now now until_moment) db r answered
