-- ===== src/Profiles/Promoting.antt =====
-- What a promotion and a rollback do to the rows of a domain.
use conexus.Prelude.{ℕ, ◌≤◌, ◌≡◌, refl, Option, none, some, List, [], ◌∷◌, ◌++◌, arith}
use conexus.Text.{Text, codes}
use conexus.Text.Laws.{text_eq_refl}
use conexus.Clock.{DateTime}
use conexus.Http.{response}
use conexus.Table.{latest_where, update_row, find_row}
use conexus.Table.Laws.{sum_by-update_row, find_row-update_row}
use conexus.Table.Keys.{Distinct, update_row-Distinct, append-Distinct, map-Distinct, find_row-map}
use conexus.Table.Latest.{
  indicator, find_where-count, count-latest_where, holds-latest_where, find_row-latest_where,
  latest_where-append, count-map,
}
use conexus.Models.{Activation, Db, active, retired}
use conexus.Profiles.{has_status, add_activation, new_activation, active_row, with_entry}
use conexus.Profiles.Promotion.{
  end_canary, retire_canary, end_canaries, retire_canaries, set_status, rolled, retire_active,
  promote_over, rollback_to, profile_of, active_response,
}
use conexus.Profiles.Rows.{rows_of}

-- The active row is gone when its status has changed.
left :
    (domain : Text) (f : Activation → Activation) (a : Activation) (db : Db)
    → rows_of domain active db.activations ≤ 1
    → Distinct Activation.id db.activations
    → active_row domain db ≡ some a
    → indicator (has_status domain active) (f a) ≡ 0
    → rows_of domain active (update_row Activation.id a.id f db.activations) ≡ 0
unfolding active_row
left domain f a db unique distinct found gone =
    let held =
      holds-latest_where Activation.created_at (has_status domain active) db.activations a found in
    let row =
      find_row-latest_where Activation.created_at Activation.id (has_status domain active)
        db.activations a distinct found in
    let moved =
      sum_by-update_row Activation.id (indicator (has_status domain active)) a.id f db.activations a
        row in
    ground (arith, held, moved, gone, unique)

none_after_retiring :
    (domain : Text) (o : Option Activation) (db : Db)
    → rows_of domain active db.activations ≤ 1
    → Distinct Activation.id db.activations
    → active_row domain db ≡ o
    → rows_of domain active (retire_active o db.activations) ≡ 0
unfolding active_row has_status
none_after_retiring domain none db unique distinct found =
    count-latest_where Activation.created_at (has_status domain active) db.activations found
none_after_retiring domain (some a) db unique distinct found =
    left domain (set_status retired) a db unique distinct found (ground arith)

none_after_end :
    (now : DateTime) (domain g : Text) (rows : List Activation)
    → rows_of domain active rows ≡ 0
    → rows_of domain active (end_canaries now domain g rows) ≡ 0
unfolding end_canary has_status
none_after_end now domain g rows h =
    omega (
      arith,
      count-map (has_status domain active) (end_canary now domain g) rows (λ r. ground arith),
    )

none_after_retire :
    (domain : Text) (rows : List Activation)
    → rows_of domain active rows ≡ 0
    → rows_of domain active (retire_canaries domain rows) ≡ 0
unfolding retire_canary has_status
none_after_retire domain rows h =
    omega
      (arith, count-map (has_status domain active) (retire_canary domain) rows (λ r. ground arith))

pub adds_row :
    (row : Activation) (rows : List Activation)
    → rows_of row.domain_key row.status rows ≡ 0
    → add_activation row rows ≡ response (rows ++ row ∷ [])
unfolding add_activation
adds_row row rows h =
    rw (add_activation, find_where-count (has_status row.domain_key row.status) rows h) refl

-- The row that is added is the active one.
is_latest :
    (row : Activation) (domain : Text) (rows : List Activation)
    → row.domain_key ≡ domain
    → row.status ≡ active
    → rows_of domain active rows ≡ 0
    → latest_where Activation.created_at (has_status domain active) (rows ++ row ∷ []) ≡ some row
unfolding has_status
is_latest row domain rows same is_active h =
    latest_where-append Activation.created_at (has_status domain active) rows row h
      (rw (same, is_active) (ground (arith, text_eq_refl domain)))

module _ (now : DateTime) (id : ℕ) (domain g : Text) (o : Option Activation) (db : Db) where
  abbrev pub promoted_row : Activation
  promoted_row = record (new_activation id now domain g active none (profile_of o)) {
    promoted_at = some now;
  }

  abbrev promoted_rows : List Activation
  promoted_rows = end_canaries now domain g (retire_active o db.activations) ++ promoted_row ∷ []

  abbrev pub promoted_db : Db
  promoted_db = with_entry (codes "gateway.adapter_profile.promoted") g promoted_rows db

  pub promote_over_lem :
      rows_of domain active db.activations ≤ 1
      → Distinct Activation.id db.activations
      → active_row domain db ≡ o
      → (promote_over now id domain g o db
          ≡ response (active_response domain g (profile_of o), promoted_db))
        × (active_row domain promoted_db ≡ some promoted_row)
  unfolding promote_over active_row
  promote_over_lem unique distinct found =
      let zero =
        none_after_end now domain g (retire_active o db.activations)
          (none_after_retiring domain o db unique distinct found) in
      (rw (adds_row promoted_row _ zero) refl, is_latest promoted_row domain _ refl refl zero)

  end_canary_id : (r : Activation) → (end_canary now domain g r).id ≡ r.id
  unfolding end_canary
  end_canary_id r = ground arith

  retire_active_lem :
      (a : Option Activation) (rows : List Activation)
      → Distinct Activation.id rows
      → find_row Activation.id id rows ≡ none
      → Distinct Activation.id (retire_active a rows)
        × (find_row Activation.id id (retire_active a rows) ≡ none)
  retire_active_lem none rows distinct fresh = (distinct, fresh)
  retire_active_lem (some a) rows distinct fresh = (
    update_row-Distinct Activation.id a.id (set_status retired) rows (λ r. refl) distinct,
    ground (
      arith,
      find_row-update_row Activation.id a.id id (set_status retired) rows (λ r. refl),
      fresh,
    ),
  )

  pub promoted_rows-Distinct :
      Distinct Activation.id db.activations
      → find_row Activation.id id db.activations ≡ none
      → Distinct Activation.id promoted_rows
  promoted_rows-Distinct distinct fresh =
      let (still, unused) = retire_active_lem o db.activations distinct fresh in
      append-Distinct Activation.id _ promoted_row
        (ground (
          arith,
          unused,
          find_row-map Activation.id id (end_canary now domain g) (retire_active o db.activations)
              end_canary_id,
        ))
        (map-Distinct Activation.id (end_canary now domain g) (retire_active o db.activations)
          end_canary_id still)

module _ (now : DateTime) (id : ℕ) (domain g : Text) (a : Activation) (previous : Text)
    (db : Db) where
  abbrev pub restored_row : Activation
  restored_row = new_activation id now domain previous active none none

  abbrev pub restored_db : Db
  restored_db =
      with_entry (codes "gateway.adapter_profile.rolled_back") g
        (retire_canaries domain (update_row Activation.id a.id (rolled now) db.activations)
          ++ restored_row ∷ [])
        db

  pub rollback_to_lem :
      rows_of domain active db.activations ≤ 1
      → Distinct Activation.id db.activations
      → active_row domain db ≡ some a
      → (rollback_to now id domain g a previous db
          ≡ response (active_response domain previous none, restored_db))
        × (active_row domain restored_db ≡ some restored_row)
  unfolding rollback_to active_row has_status
  rollback_to_lem unique distinct found =
      let zero =
        none_after_retire domain (update_row Activation.id a.id (rolled now) db.activations)
          (left domain (rolled now) a db unique distinct found (ground arith)) in
      (rw (adds_row restored_row _ zero) refl, is_latest restored_row domain _ refl refl zero)

  retire_canary_id : (r : Activation) → (retire_canary domain r).id ≡ r.id
  unfolding retire_canary
  retire_canary_id r = ground arith

  pub restored_rows-Distinct :
      Distinct Activation.id db.activations
      → find_row Activation.id id db.activations ≡ none
      → Distinct Activation.id restored_db.activations
  restored_rows-Distinct distinct fresh =
      let rows = update_row Activation.id a.id (rolled now) db.activations in
      append-Distinct Activation.id _ restored_row
        (ground (
          arith,
          find_row-update_row Activation.id a.id id (rolled now) db.activations (λ r. refl),
          fresh,
          find_row-map Activation.id id (retire_canary domain) rows retire_canary_id,
        ))
        (map-Distinct Activation.id (retire_canary domain) rows retire_canary_id
          (update_row-Distinct Activation.id a.id (rolled now) db.activations (λ r. refl) distinct))
