-- ===== src/Table/Latest.antt =====
-- The number of the rows that meet a condition, and the latest of them.
use conexus.Prelude.{
  map, ◌≤◌, ◌⊎◌, leb, ℕ, ◌≡◌, refl, Bool, Bool-cases, true, inl, inr, none, some, List, [], ◌∷◌,
  ◌++◌, arith, sum_by, if◌then◌else◌, ==_refl, Option,
}
use conexus.Clock.{DateTime, stamp}
use conexus.Table.{update_row, find_row, find_where, latest_where, later_of}
use conexus.Table.Keys.{Distinct}

abbrev pub indicator {ℓ} : {A : Type ℓ} → (A → Bool) → A → ℕ
indicator p x = if p x then 1 else 0

module _ {ℓ} {A : Type ℓ} where
  abbrev pub count : (A → Bool) → List A → ℕ
  count p xs = sum_by (indicator p) xs

  pub find_where-count : (p : A → Bool) (xs : List A) → count p xs ≡ 0 → find_where p xs ≡ none
  unfolding find_where
  find_where-count p [] h = refl
  find_where-count p (x ∷ xs) h = ground (arith, find_where-count p xs)

  pub count_zero : (p : A → Bool) (xs : List A) → find_where p xs ≡ none → count p xs ≡ 0
  unfolding find_where
  count_zero p [] h = refl
  count_zero p (x ∷ xs) h = ground (arith, count_zero p xs)

  -- A change by which no row comes to meet the condition.
  pub count-update_row :
      (p : A → Bool) (key : A → ℕ) (k : ℕ) (f : A → A) (xs : List A)
      → ((x : A) → indicator p (f x) ≤ indicator p x)
      → count p (update_row key k f xs) ≤ count p xs
  unfolding update_row
  count-update_row p key k f [] h = omega arith
  count-update_row p key k f (x ∷ xs) h = ground (arith, h x, count-update_row p key k f xs h)

  pub count-map :
      (p : A → Bool) (f : A → A) (xs : List A)
      → ((x : A) → indicator p (f x) ≤ indicator p x)
      → count p (map f xs) ≤ count p xs
  count-map p f [] h = omega arith
  count-map p f (x ∷ xs) h = omega (arith, h x, count-map p f xs h)

  pub count-map_zero :
      (p : A → Bool) (f : A → A) (xs : List A)
      → ((x : A) → indicator p (f x) ≡ 0)
      → count p (map f xs) ≡ 0
  count-map_zero p f [] h = refl
  count-map_zero p f (x ∷ xs) h = omega (arith, h x, count-map_zero p f xs h)

module _ {ℓ} {A : Type ℓ} (time : A → DateTime) where
  later_of_cases : (x : A) (o : Option A) → (later_of time x o ≡ x) ⊎ (o ≡ some (later_of time x o))
  later_of_cases x none = inl refl
  later_of_cases x (some y) = elim (Bool-cases (leb (stamp (time y)) (stamp (time x)))) [
    | inl e ↦ inl (rw e refl)
    | inr e ↦ inr (rw e refl)
  ]

  pub count-latest_where :
      (p : A → Bool) (xs : List A) → latest_where time p xs ≡ none → count p xs ≡ 0
  unfolding latest_where
  count-latest_where p [] h = refl
  count-latest_where p (x ∷ xs) h = ground (arith, count-latest_where p xs)

  pub holds-latest_where :
      (p : A → Bool) (xs : List A) (x : A) → latest_where time p xs ≡ some x → p x ≡ true
  unfolding latest_where
  holds-latest_where p [] x h = ground arith
  holds-latest_where p (y ∷ xs) x h =
      ground (arith, holds-latest_where p xs x, later_of_cases y (latest_where time p xs))

  pub none-latest_where :
      (p : A → Bool) (xs : List A) → count p xs ≡ 0 → latest_where time p xs ≡ none
  unfolding latest_where
  none-latest_where p [] h = refl
  none-latest_where p (x ∷ xs) h = ground (arith, none-latest_where p xs)

  -- The row is that of its key.
  pub find_row-latest_where :
      (key : A → ℕ) (p : A → Bool) (xs : List A) (x : A)
      → Distinct key xs
      → latest_where time p xs ≡ some x
      → find_row key (key x) xs ≡ some x
  unfolding find_row latest_where
  find_row-latest_where key p [] x d h = ground arith
  find_row-latest_where key p (y ∷ xs) x d h = ground (
    arith,
    ==_refl (key y),
    find_row-latest_where key p xs x d.1,
    d.0,
    later_of_cases y (latest_where time p xs),
  )

  -- A row that alone meets the condition.
  pub latest_where-append :
      (p : A → Bool) (xs : List A) (x : A)
      → count p xs ≡ 0
      → p x ≡ true
      → latest_where time p (xs ++ x ∷ []) ≡ some x
  unfolding latest_where
  latest_where-append p [] x h e = rw e refl
  latest_where-append p (y ∷ xs) x h e = ground (arith, latest_where-append p xs x)
