-- ===== src/Table/Keys.antt =====
-- Tables whose rows have different keys, as a primary key makes them.
use mathlib.Core.Option
use conexus.Prelude.{map, ℕ, ◌≡◌, refl, Bool, none, some, List, [], ◌∷◌, ◌++◌, arith, ==_refl}
use conexus.Table.{find_row, update_row, find_where}
use conexus.Table.Laws.{find_row-update_row, find_row-append}

module _ {ℓ} {A : Type ℓ} (key : A → ℕ) where
  abbrev pub Distinct : List A → Type ℓ
  Distinct [] = Unit
  Distinct (x ∷ xs) = (find_row key (key x) xs ≡ none) × Distinct xs

  -- A row found by a condition is the row of its key.
  pub find_row-find_where :
      (p : A → Bool) (xs : List A) (x : A)
      → Distinct xs
      → find_where p xs ≡ some x
      → find_row key (key x) xs ≡ some x
  unfolding find_row find_where
  find_row-find_where p [] x d h = ground arith
  find_row-find_where p (y ∷ xs) x d h =
      ground (arith, ==_refl (key y), find_row-find_where p xs x d.1, d.0)

  pub update_row-Distinct :
      (k : ℕ) (f : A → A) (xs : List A)
      → ((x : A) → key (f x) ≡ key x)
      → Distinct xs
      → Distinct (update_row key k f xs)
  unfolding update_row
  update_row-Distinct k f [] same d = tt
  update_row-Distinct k f (y ∷ xs) same d = ground (
    arith,
    same y,
    update_row-Distinct k f xs same d.1,
    find_row-update_row key k (key y) f xs same,
  )

  pub append-Distinct :
      (xs : List A) (x : A) → find_row key (key x) xs ≡ none → Distinct xs → Distinct (xs ++ x ∷ [])
  unfolding find_row
  append-Distinct [] x fresh d = (refl, tt)
  append-Distinct (y ∷ xs) x fresh d =
      ground (arith, append-Distinct xs x, find_row-append key (key y) xs (x ∷ []))

  pub find_row-map :
      (k : ℕ) (f : A → A) (xs : List A)
      → ((x : A) → key (f x) ≡ key x)
      → find_row key k (map f xs) ≡ Option.map f (find_row key k xs)
  unfolding find_row
  find_row-map k f [] same = refl
  find_row-map k f (x ∷ xs) same = ground (arith, same x, find_row-map k f xs same)

  pub map-Distinct :
      (f : A → A) (xs : List A) → ((x : A) → key (f x) ≡ key x) → Distinct xs → Distinct (map f xs)
  map-Distinct f [] same d = tt
  map-Distinct f (x ∷ xs) same d =
      ground (arith, same x, map-Distinct f xs same d.1, find_row-map (key x) f xs same)
