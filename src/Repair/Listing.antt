-- ===== src/Repair/Listing.antt =====
-- What the listing of stale reservations shows, against the count of them.
use conexus.Prelude.{
  ℕ, zero, suc, ◌≡◌, Option, none, some, List, [], ◌∷◌, map, arith, length, min, refl, ap, ◌∙◌,
}
use conexus.Clock.{DateTime}
use conexus.Models.{Reservation, Db}
use conexus.Repair.Stale.{
  StaleReservationCandidate, stale_rows, insert_by_age, order_by_age, take_rows, min_created,
  earlier, oldest, count_stale_reservations, candidate, list_stale_reservations,
}

length-map {ℓ κ} :
    {A : Type ℓ} {B : Type κ} (f : A → B) (xs : List A) → length (map f xs) ≡ length xs
length-map f [] = ground arith
length-map f (x ∷ xs) = omega (arith, length-map f xs)

length-take_rows {ℓ} :
    {A : Type ℓ} (n : ℕ) (xs : List A) → length (take_rows n xs) ≡ min n (length xs)
unfolding take_rows
length-take_rows zero xs = omega arith
length-take_rows (suc n) [] = omega arith
length-take_rows (suc n) (x ∷ xs) = omega (arith, length-take_rows n xs)

length-insert :
    (r : Reservation) (xs : List Reservation) → length (insert_by_age r xs) ≡ suc (length xs)
unfolding insert_by_age
length-insert r [] = ground arith
length-insert r (x ∷ xs) = ground (arith, length-insert r xs)

length-order : (xs : List Reservation) → length (order_by_age xs) ≡ length xs
unfolding order_by_age
length-order [] = ground arith
length-order (x ∷ xs) = omega (arith, length-insert x (order_by_age xs), length-order xs)

-- The first row of a listing.
abbrev pub first_age : List StaleReservationCandidate → Option ℕ
first_age [] = none
first_age (c ∷ cs) = some c.age_seconds

-- The creation time of the first row.
first_created : List Reservation → Option DateTime
first_created [] = none
first_created (r ∷ rs) = some r.created_at

first_created-insert :
    (r : Reservation) (xs : List Reservation)
    → first_created (insert_by_age r xs) ≡ earlier r.created_at (first_created xs)
unfolding insert_by_age first_created
first_created-insert r [] = ground arith
first_created-insert r (x ∷ xs) = ground arith

first_created-order : (xs : List Reservation) → first_created (order_by_age xs) ≡ min_created xs
unfolding order_by_age min_created
first_created-order [] = unfold first_created in refl
first_created-order (x ∷ xs) =
    first_created-insert x (order_by_age xs) ∙ ap (earlier x.created_at) (first_created-order xs)

first_age-created :
    (force : ℕ) (now : DateTime) (db : Db) (limit : ℕ) (rows : List Reservation)
    → first_age (map (candidate force now db) (take_rows (suc limit) rows))
      ≡ oldest now (first_created rows)
unfolding take_rows candidate first_created
first_age-created force now db limit [] = ground arith
first_age-created force now db limit (r ∷ rs) = ground arith

-- A listing with room for at least one row has as many rows as there are stale reservations, up to
-- its limit, and its first row has the age that the summary reports as the oldest.
pub list_matches_count :
    (force older : ℕ) (project_id : Option ℕ) (limit : ℕ) (now : DateTime) (db : Db)
    → (length (list_stale_reservations force older project_id (suc limit) now db)
        ≡ min (suc limit) (count_stale_reservations older project_id now db).total_count)
      × (first_age (list_stale_reservations force older project_id (suc limit) now db)
          ≡ (count_stale_reservations older project_id now db).oldest_age_seconds)
unfolding list_stale_reservations count_stale_reservations
list_matches_count force older project_id limit now db =
    let rows = stale_rows older project_id now db in
    (
      omega (
        arith,
        length-map (candidate force now db) (take_rows (suc limit) (order_by_age rows)),
        length-take_rows (suc limit) (order_by_age rows),
        length-order rows,
      ),
      first_age-created force now db limit (order_by_age rows)
          ∙ ap (oldest now) (first_created-order rows),
    )
