-- ===== src/Observability/Ranking.antt =====
-- The place of a member in a sorted list: how many members are at most it, and how many are less.
use conexus.Prelude.{
  ℕ, zero, suc, ◌≤◌, ◌<◌, ◌≡◌, refl, some, List, [], ◌∷◌, leb, ltb, length, All, arith,
}
use conexus.Observability.Sorting.{item_at, IsSorted, count_if}

bound-item : (x : ℕ) (ys : List ℕ) (i v : ℕ) → All (λ y. x ≤ y) ys → item_at ys i ≡ some v → x ≤ v
unfolding item_at
bound-item x [] i v all e = ground (arith, e)
bound-item x (y ∷ ys) zero v all e = ground (arith, e, all.0)
bound-item x (y ∷ ys) (suc i) v all e = bound-item x ys i v all.1 e

none_less : (x v : ℕ) (ys : List ℕ) → v ≤ x → All (λ y. x ≤ y) ys → count_if (λ y. ltb y v) ys ≡ 0
unfolding count_if
none_less x v [] h all = refl
none_less x v (y ∷ ys) h all = ground (arith, none_less x v ys h all.1, all.0)

-- At least `i + 1` members are at most the member at index `i`.
pub rank_le :
    (s : List ℕ) (i v : ℕ) → IsSorted s → item_at s i ≡ some v → suc i ≤ count_if (λ x. leb x v) s
unfolding item_at count_if
rank_le [] i v s e = ground (arith, e)
rank_le (x ∷ xs) zero v s e = ground (arith, e)
rank_le (x ∷ xs) (suc i) v s e = ground (arith, bound-item x xs i v s.0 e, rank_le xs i v s.1 e)

-- At most `i` members are less than the member at index `i`.
pub rank_lt :
    (s : List ℕ) (i v : ℕ) → IsSorted s → item_at s i ≡ some v → count_if (λ x. ltb x v) s ≤ i
unfolding item_at count_if
rank_lt [] i v s e = ground (arith, e)
rank_lt (x ∷ xs) zero v s e = ground (arith, e, none_less x v xs (ground (arith, e)) s.0)
rank_lt (x ∷ xs) (suc i) v s e = ground (arith, rank_lt xs i v s.1 e)

-- An index below the length has a member.
pub item_within {ℓ} :
    {A : Type ℓ} (s : List A) (i : ℕ) → i < length s → (v : A) × (item_at s i ≡ some v)
unfolding item_at
item_within [] i h = ground (arith, h)
item_within (x ∷ xs) zero h = (x, refl)
item_within (x ∷ xs) (suc i) h = item_within xs i (omega (arith, h))
