-- ===== src/Table/Laws.antt =====
-- What an update or an insertion of one row does to the rows and to the sums over them.
use conexus.Prelude.{
  ℕ, ◌+◌, ◌≤◌, ◌≡◌, Bool-cases, inl, inr, refl, Bool, true, none, some, List, [], ◌∷◌, ◌++◌, arith,
  sum_by, ◌==◌, if◌then◌else◌,
}
use conexus.Table.{find_row, update_row, find_where}
use mathlib.Core.Option

module _ {ℓ} {A : Type ℓ} (key : A → ℕ) where
  pub key-find_row : (k : ℕ) (xs : List A) (x : A) → find_row key k xs ≡ some x → key x ≡ k
  unfolding find_row
  key-find_row k [] x h = ground arith
  key-find_row k (y ∷ xs) x h = ground (arith, key-find_row k xs x)

  pub find_row-update_row :
      (k j : ℕ) (f : A → A) (xs : List A)
      → ((x : A) → key (f x) ≡ key x)
      → find_row key j (update_row key k f xs)
        ≡ (if k == j then Option.map f (find_row key j xs) else find_row key j xs)
  unfolding find_row update_row
  find_row-update_row k j f [] same = ground arith
  find_row-update_row k j f (x ∷ xs) same =
      ground (arith, same x, find_row-update_row k j f xs same)

  -- An updated row exchanges its share of a sum.
  pub sum_by-update_row :
      (m : A → ℕ) (k : ℕ) (f : A → A) (xs : List A) (x : A)
      → find_row key k xs ≡ some x
      → sum_by m (update_row key k f xs) + m x ≡ sum_by m xs + m (f x)
  unfolding find_row update_row
  sum_by-update_row m k f [] x h = ground arith
  sum_by-update_row m k f (y ∷ xs) x h = elim (Bool-cases (key y == k)) [
    | inl e ↦ rw e (ground arith)
    | inr e ↦ rw e (ground (arith, sum_by-update_row m k f xs x))
  ]

  -- A row's share is at most the sum.
  pub le-sum_by :
      (m : A → ℕ) (k : ℕ) (xs : List A) (x : A) → find_row key k xs ≡ some x → m x ≤ sum_by m xs
  unfolding find_row
  le-sum_by m k [] x h = ground arith
  le-sum_by m k (y ∷ xs) x h = ground (arith, le-sum_by m k xs x)

  pub find_row-append :
      (k : ℕ) (xs ys : List A)
      → find_row key k (xs ++ ys)
        ≡ elim (find_row key k xs) [ none ↦ find_row key k ys | some x ↦ some x ]
  unfolding find_row
  find_row-append k [] ys = refl
  find_row-append k (x ∷ xs) ys = ground (arith, find_row-append k xs ys)

module _ {ℓ} {A : Type ℓ} where
  pub holds-find_where :
      (p : A → Bool) (xs : List A) (x : A) → find_where p xs ≡ some x → p x ≡ true
  unfolding find_where
  holds-find_where p [] x h = ground arith
  holds-find_where p (y ∷ xs) x h = ground (arith, holds-find_where p xs x)

  pub find_where-append :
      (p : A → Bool) (xs : List A) (x : A)
      → find_where p xs ≡ none
      → p x ≡ true
      → find_where p (xs ++ x ∷ []) ≡ some x
  unfolding find_where
  find_where-append p [] x h e = rw e refl
  find_where-append p (y ∷ xs) x h e = ground (arith, find_where-append p xs x)

-- A change of the row that was just added.
pub update_row-append {ℓ} :
    {A : Type ℓ} (key : A → ℕ) (k : ℕ) (f : A → A) (xs : List A) (x : A)
    → find_row key k xs ≡ none
    → key x ≡ k
    → update_row key k f (xs ++ x ∷ []) ≡ xs ++ f x ∷ []
unfolding find_row update_row
update_row-append key k f [] x h e = ground (arith, e)
update_row-append key k f (y ∷ xs) x h e = ground (arith, update_row-append key k f xs x)
