-- ===== src/Reservations/Linked.antt =====
-- The foreign keys of the reservations: while the windows that they name are there, settling never
-- fails.
use conexus.Prelude.{
  ℕ, ℤ, ◌≡◌, refl, Bool, true, false, Option, none, some, List, [], ◌∷◌, arith, All, Option-cases,
  Bool-cases, inl, inr, ◌==◌, pos_part, ◌∙◌,
}
use conexus.Clock.{DateTime}
use conexus.Result.{ok, is_ok}
use conexus.Table.{find_row, update_row}
use conexus.Table.Laws.{find_row-update_row}
use conexus.Models.{UsageWindow, Reservation, Db}
use conexus.Reservations.Windows.{update_optional}
use conexus.Reservations.Settlement.{
  mark_reconciled, end_reservation, lock_window, lock_windows, settle_daily, settle_monthly,
  release_daily, release_monthly, reconcile_gateway_request, release_orphan_limit_reservation,
}

-- The foreign keys: every reservation names a daily window of the table, and if it names a monthly
-- window, that is in the table too.
abbrev pub HasRow : Option ℕ → List UsageWindow → Type 0
HasRow none ws = Unit
HasRow (some id) ws = (row : UsageWindow) × (find_row UsageWindow.id id ws ≡ some row)

abbrev pub IsLinked : Db → Type 0
IsLinked db =
    All
      (λ r.
        HasRow (some (Reservation.daily_window_id r)) db.windows
        × HasRow r.monthly_window_id db.windows)
      db.reservations

-- Every reservation can be locked.
abbrev pub IsLockable : Db → Type 0
IsLockable db = All (λ r. lock_windows r db.windows ≡ ok tt) db.reservations

All-find_row {ℓ κ} :
    {A : Type ℓ} (P : A → Type κ) (key : A → ℕ) (k : ℕ) (xs : List A) (x : A)
    → All P xs
    → find_row key k xs ≡ some x
    → P x
unfolding find_row
All-find_row P key k [] x h found = absurd (ground arith)
All-find_row P key k (y ∷ xs) x h found = elim (Bool-cases (key y == k)) [
  | inl e ↦ let same : x ≡ y = ground arith in rw same (h.0)
  | inr e ↦ All-find_row P key k xs x h.1 (ground arith)
]

All-update_row {ℓ κ} :
    {A : Type ℓ} (P : A → Type κ) (key : A → ℕ) (k : ℕ) (f : A → A) (xs : List A)
    → ((x : A) → P x → P (f x))
    → All P xs
    → All P (update_row key k f xs)
unfolding update_row
All-update_row P key k f [] keep h = tt
All-update_row P key k f (y ∷ xs) keep h = elim (Bool-cases (key y == k)) [
  | inl e ↦ rw e (keep y h.0, h.1)
  | inr e ↦ rw e (h.0, All-update_row P key k f xs keep h.1)
]

pub All-map {ℓ κ μ} :
    {A : Type ℓ} (P : A → Type κ) (Q : A → Type μ) (xs : List A)
    → ((x : A) → P x → Q x)
    → All P xs
    → All Q xs
All-map P Q [] keep h = tt
All-map P Q (x ∷ xs) keep h = (keep x h.0, All-map P Q xs keep h.1)

-- Changing a window's counters does not remove it.
pub lock_windows-update_row :
    (r : Reservation) (k : ℕ) (f : UsageWindow → UsageWindow) (ws : List UsageWindow)
    → ((x : UsageWindow) → (f x).id ≡ x.id)
    → lock_windows r (update_row UsageWindow.id k f ws) ≡ lock_windows r ws
unfolding lock_windows
lock_windows-update_row r k f ws same = elim (Option-cases r.monthly_window_id) [
  | inl no_month ↦ ground (arith, find_row-update_row UsageWindow.id k r.daily_window_id f ws same)
  | inr (m, at_m) ↦ ground (
    arith,
    find_row-update_row UsageWindow.id k r.daily_window_id f ws same,
    find_row-update_row UsageWindow.id k m f ws same,
  )
]

pub lock_windows-update_optional :
    (r : Reservation) (o : Option ℕ) (f : UsageWindow → UsageWindow) (ws : List UsageWindow)
    → ((x : UsageWindow) → (f x).id ≡ x.id)
    → lock_windows r (update_optional o f ws) ≡ lock_windows r ws
lock_windows-update_optional r none f ws same = refl
lock_windows-update_optional r (some k) f ws same = lock_windows-update_row r k f ws same

end_reservation-IsLockable :
    (now : DateTime) (r : Reservation) (f g : UsageWindow → UsageWindow) (db : Db)
    → ((x : UsageWindow) → (f x).id ≡ x.id)
    → ((x : UsageWindow) → (g x).id ≡ x.id)
    → IsLockable db
    → IsLockable (end_reservation now r f g db)
unfolding end_reservation lock_windows
end_reservation-IsLockable now r f g db same_f same_g linked =
    All-update_row (λ x. lock_windows x (end_reservation now r f g db).windows ≡ ok tt)
      Reservation.id r.id (mark_reconciled now) db.reservations (λ x h. h)
      (All-map (λ x. lock_windows x db.windows ≡ ok tt)
        (λ x. lock_windows x (end_reservation now r f g db).windows ≡ ok tt) db.reservations
        (λ x locked.
          lock_windows-update_optional x r.monthly_window_id g
            (update_row UsageWindow.id r.daily_window_id f db.windows) same_g
          ∙ lock_windows-update_row x r.daily_window_id f db.windows same_f
          ∙ locked)
        linked)

reconcile-IsLockable :
    (now : DateTime) (id : ℕ) (tokens cost : ℤ) (db : Db)
    → IsLockable db
    → (db' : Db) × (reconcile_gateway_request now id tokens cost db ≡ ok db') × IsLockable db'
unfolding reconcile_gateway_request settle_daily settle_monthly
reconcile-IsLockable now id tokens cost db linked =
    elim (Option-cases (find_row Reservation.id id db.reservations)) [
      | inl missing ↦ (db, ground arith, linked)
      | inr (r, found) ↦
          let locked =
            All-find_row (λ x. lock_windows x db.windows ≡ ok tt) Reservation.id id db.reservations
              r linked found in
          elim (Option-cases r.reconciled_at) [
            | inr (t, done) ↦ (db, ground arith, linked)
            | inl open_ ↦ (
              end_reservation now r (settle_daily r (pos_part tokens))
                  (settle_monthly r (pos_part cost)) db,
              ground arith,
              end_reservation-IsLockable now r (settle_daily r (pos_part tokens))
                  (settle_monthly r (pos_part cost)) db (λ x. refl) (λ x. refl) linked,
            )
          ]
    ]

release-IsLockable :
    (now : DateTime) (id : ℕ) (db : Db)
    → IsLockable db
    → (done : Bool) × (db' : Db) × (release_orphan_limit_reservation now id db ≡ ok (done, db'))
      × IsLockable db'
unfolding release_orphan_limit_reservation release_daily release_monthly
release-IsLockable now id db linked =
    elim (Option-cases (find_row Reservation.id id db.reservations)) [
      | inl missing ↦ (false, db, ground arith, linked)
      | inr (r, found) ↦
          let locked =
            All-find_row (λ x. lock_windows x db.windows ≡ ok tt) Reservation.id id db.reservations
              r linked found in
          elim (Option-cases r.reconciled_at) [
            | inr (t, done) ↦ (false, db, ground arith, linked)
            | inl open_ ↦ (
              true,
              end_reservation now r (release_daily r) (release_monthly r) db,
              ground arith,
              end_reservation-IsLockable now r (release_daily r) (release_monthly r) db (λ x. refl)
                  (λ x. refl) linked,
            )
          ]
    ]

locks :
    (r : Reservation) (o : Option ℕ) (ws : List UsageWindow)
    → r.monthly_window_id ≡ o
    → HasRow (some r.daily_window_id) ws
    → HasRow o ws
    → lock_windows r ws ≡ ok tt
unfolding lock_windows lock_window
locks r none ws at_o (day, found) month = rw (lock_windows, lock_window, at_o, found) refl
locks r (some m) ws at_o (day, found) (month, found') =
    rw (lock_windows, lock_window, at_o, found, found') refl

row_of_lock :
    (id : ℕ) (ws : List UsageWindow) → is_ok (lock_window id ws) ≡ true → HasRow (some id) ws
unfolding lock_window
row_of_lock id ws h = elim (Option-cases (find_row UsageWindow.id id ws)) [
  | inl missing ↦ absurd (ground (arith, missing, h))
  | inr there ↦ there
]

rows_of_lock :
    (r : Reservation) (o : Option ℕ) (ws : List UsageWindow)
    → r.monthly_window_id ≡ o
    → lock_windows r ws ≡ ok tt
    → HasRow (some r.daily_window_id) ws × HasRow o ws
unfolding lock_windows
rows_of_lock r none ws at_o h = (row_of_lock r.daily_window_id ws (ground (arith, h)), tt)
rows_of_lock r (some m) ws at_o h =
    (row_of_lock r.daily_window_id ws (ground (arith, h)), row_of_lock m ws (ground (arith, h)))

-- The foreign keys are what a lock needs, and no more.
pub IsLockable-of_IsLinked : (db : Db) → IsLinked db → IsLockable db
IsLockable-of_IsLinked db linked =
    All-map _ (λ r. lock_windows r db.windows ≡ ok tt) db.reservations
      (λ r (day, month). locks r r.monthly_window_id db.windows refl day month) linked

pub IsLinked-of_IsLockable : (db : Db) → IsLockable db → IsLinked db
IsLinked-of_IsLockable db lockable =
    All-map (λ r. lock_windows r db.windows ≡ ok tt) _ db.reservations
      (λ r locked. rows_of_lock r r.monthly_window_id db.windows refl locked) lockable

-- While the windows that every reservation names are in the table, a reconcile returns, and they are
-- still there.
pub reconcile_total :
    (now : DateTime) (id : ℕ) (tokens cost : ℤ) (db : Db)
    → IsLinked db
    → (db' : Db) × (reconcile_gateway_request now id tokens cost db ≡ ok db') × IsLinked db'
reconcile_total now id tokens cost db linked =
    let (db', done, lockable) =
      reconcile-IsLockable now id tokens cost db (IsLockable-of_IsLinked db linked) in
    (db', done, IsLinked-of_IsLockable db' lockable)

-- While the windows that every reservation names are in the table, a release returns, and they are
-- still there.
pub release_total :
    (now : DateTime) (id : ℕ) (db : Db)
    → IsLinked db
    → (done : Bool) × (db' : Db) × (release_orphan_limit_reservation now id db ≡ ok (done, db'))
      × IsLinked db'
release_total now id db linked =
    let (done, db', ended, lockable) =
      release-IsLockable now id db (IsLockable-of_IsLinked db linked) in
    (done, db', ended, IsLinked-of_IsLockable db' lockable)
