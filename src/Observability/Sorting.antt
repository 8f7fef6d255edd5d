-- ===== src/Observability/Sorting.antt =====
-- Python's `sorted` on integers, as an insertion sort, and indexing of a list.
use conexus.Prelude.{
  ℕ, zero, suc, ◌+◌, ◌≤◌, ◌≡◌, Bool, Option, none, some, List, [], ◌∷◌, leb, if◌then◌else◌, All,
  arith, inl, inr, Bool-cases, leb→le, leb-false→lt,
}

-- `l[i]`
unfoldable pub item_at {ℓ} : {A : Type ℓ} → List A → ℕ → Option A
item_at [] i = none
item_at (x ∷ xs) zero = some x
item_at (x ∷ xs) (suc i) = item_at xs i

unfoldable pub insert : ℕ → List ℕ → List ℕ
insert x [] = x ∷ []
insert x (y ∷ ys) = let rest = insert x ys in if leb x y then x ∷ y ∷ ys else y ∷ rest

-- `sorted(l)`
unfoldable pub sorted : List ℕ → List ℕ
unfolding insert
sorted [] = []
sorted (x ∷ xs) = insert x (sorted xs)

abbrev pub IsSorted : List ℕ → Type 0
IsSorted [] = Unit
IsSorted (x ∷ xs) = All (λ y. x ≤ y) xs × IsSorted xs

-- How many members pass a test.
abbrev pub one_if : Bool → ℕ
one_if b = if b then 1 else 0

unfoldable pub count_if : (ℕ → Bool) → List ℕ → ℕ
count_if p [] = 0
count_if p (x ∷ xs) = one_if (p x) + count_if p xs

All-weaken : (x y : ℕ) (ys : List ℕ) → x ≤ y → All (λ z. y ≤ z) ys → All (λ z. x ≤ z) ys
All-weaken x y [] h a = tt
All-weaken x y (z ∷ zs) h a = (omega (arith, h, a.0), All-weaken x y zs h a.1)

All-insert : (a x : ℕ) (ys : List ℕ) → a ≤ x → All (λ z. a ≤ z) ys → All (λ z. a ≤ z) (insert x ys)
unfolding insert
All-insert a x [] h all = (h, tt)
All-insert a x (y ∷ ys) h all = elim (Bool-cases (leb x y)) [
  | inl below ↦ rw below (h, all)
  | inr above ↦ rw above (all.0, All-insert a x ys h all.1)
]

insert-IsSorted : (x : ℕ) (ys : List ℕ) → IsSorted ys → IsSorted (insert x ys)
unfolding insert
insert-IsSorted x [] s = (tt, tt)
insert-IsSorted x (y ∷ ys) s = elim (Bool-cases (leb x y)) [
  | inl below ↦ let le = leb→le x y below in rw below ((le, All-weaken x y ys le s.0), s)
  | inr above ↦
      let lt = leb-false→lt x y above in
      rw above (All-insert y x ys (omega (arith, lt)) s.0, insert-IsSorted x ys s.1)
]

pub sorted-IsSorted : (xs : List ℕ) → IsSorted (sorted xs)
unfolding sorted
sorted-IsSorted [] = tt
sorted-IsSorted (x ∷ xs) = insert-IsSorted x (sorted xs) (sorted-IsSorted xs)

count_if-insert :
    (p : ℕ → Bool) (x : ℕ) (ys : List ℕ) → count_if p (insert x ys) ≡ one_if (p x) + count_if p ys
unfolding insert count_if
count_if-insert p x [] = ground arith
count_if-insert p x (y ∷ ys) = ground (arith, count_if-insert p x ys)

pub count_if-sorted : (p : ℕ → Bool) (xs : List ℕ) → count_if p (sorted xs) ≡ count_if p xs
unfolding sorted count_if
count_if-sorted p [] = ground arith
count_if-sorted p (x ∷ xs) = omega (arith, count_if-insert p x (sorted xs), count_if-sorted p xs)
