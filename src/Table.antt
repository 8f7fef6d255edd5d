-- ===== src/Table.antt =====
-- Database tables as lists of rows in insertion order, addressed by a numeric key: the selects and
-- the row updates that the services issue through SQLAlchemy sessions.
pub mod Laws
pub mod Keys
pub mod Latest
use conexus.Prelude.{
  ℕ, Bool, true, false, Option, none, some, List, [], ◌∷◌, ◌==◌, leb, if◌then◌else◌,
}
use conexus.Clock.{DateTime, stamp}

abbrev pub later_of {ℓ} : {A : Type ℓ} → (A → DateTime) → A → Option A → A
later_of time x none = x
later_of time x (some y) = if leb (stamp (time y)) (stamp (time x)) then x else y

module _ {ℓ} {A : Type ℓ} where
  -- `select(T).where(p)`, `.scalars().first()`
  unfoldable pub find_where : (A → Bool) → List A → Option A
  find_where p [] = none
  find_where p (x ∷ xs) = if p x then some x else find_where p xs

  -- `select(T).where(p)`, `.scalars().all()`
  unfoldable pub select_where : (A → Bool) → List A → List A
  select_where p [] = []
  select_where p (x ∷ xs) = let rest = select_where p xs in if p x then x ∷ rest else rest

module _ {ℓ} {A : Type ℓ} (time : A → DateTime) where
  -- `select(T).where(p).order_by(desc(time))`, `.scalar()`: the latest row, the first of a tie.
  unfoldable pub latest_where : (A → Bool) → List A → Option A
  latest_where p [] = none
  latest_where p (x ∷ xs) =
      let rest = latest_where p xs in if p x then some (later_of time x rest) else rest

module _ {ℓ} {A : Type ℓ} (key : A → ℕ) where
  -- `session.get(T, k)`
  unfoldable pub find_row : ℕ → List A → Option A
  find_row k [] = none
  find_row k (x ∷ xs) = if key x == k then some x else find_row k xs

  -- A change of the object that stands for row `k`, written back by `flush`.
  unfoldable pub update_row : ℕ → (A → A) → List A → List A
  update_row k f [] = []
  update_row k f (x ∷ xs) = if key x == k then f x ∷ xs else x ∷ update_row k f xs
