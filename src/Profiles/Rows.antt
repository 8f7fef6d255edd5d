-- ===== src/Profiles/Rows.antt =====
-- The active and the canary rows of a domain, under each change of the activations.
use conexus.Prelude.{
  ℕ, ◌≤◌, ◌≡◌, true, Option, none, some, List, [], ◌∷◌, ◌++◌, arith, map, sum_by-append,
}
use conexus.Text.{Text}
use conexus.Text.Laws.{text_eq→eq}
use conexus.Clock.{DateTime}
use conexus.Http.{response}
use conexus.Table.{find_where, update_row}
use conexus.Table.Latest.{count, indicator, count_zero, count-update_row, count-map}
use conexus.Models.{ActivationStatus, active, canary, retired, Activation}
use conexus.Profiles.{has_status, add_activation, status_eq, set_canary}
use conexus.Profiles.Promotion.{
  end_canary, retire_canary, end_canaries, retire_canaries, set_status, rolled, retire_active,
}

-- The number of a domain's rows of a status.
abbrev pub rows_of : Text → ActivationStatus → List Activation → ℕ
rows_of d s rows = count (has_status d s) rows

-- A domain has one active row at most, and one canary.
abbrev pub IsUnique : List Activation → Type 0
IsUnique rows = (d : Text) → (rows_of d active rows ≤ 1) × (rows_of d canary rows ≤ 1)

status_eq→eq : (s t : ActivationStatus) → status_eq s t ≡ true → s ≡ t
status_eq→eq s t h = ground arith

same_rows :
    (row : Activation) (d : Text) (s : ActivationStatus)
    → has_status d s row ≡ true
    → (row.domain_key ≡ d) × (row.status ≡ s)
unfolding has_status
same_rows row d s e =
    (text_eq→eq row.domain_key d (ground arith), status_eq→eq row.status s (ground arith))

none_of :
    (row : Activation) (rows : List Activation) (d : Text) (s : ActivationStatus)
    → find_where (has_status row.domain_key row.status) rows ≡ none
    → has_status d s row ≡ true
    → rows_of d s rows ≡ 0
none_of row rows d s h e =
    let same = same_rows row d s e in count_zero (has_status d s) rows (cc (h, same.0, same.1))

-- A row is added to its domain and status only.
add_one :
    (row : Activation) (rows : List Activation) (d : Text) (s : ActivationStatus)
    → find_where (has_status row.domain_key row.status) rows ≡ none
    → rows_of d s rows ≤ 1
    → rows_of d s (rows ++ row ∷ []) ≤ 1
add_one row rows d s h le =
    ground
      (arith, none_of row rows d s h, sum_by-append (indicator (has_status d s)) rows (row ∷ []))

pub add_activation_adds :
    (row : Activation) (rows rows' : List Activation)
    → add_activation row rows ≡ response rows'
    → (find_where (has_status row.domain_key row.status) rows ≡ none) × (rows' ≡ rows ++ row ∷ [])
unfolding add_activation
add_activation_adds row rows rows' h = ground arith

pub append-IsUnique :
    (row : Activation) (rows : List Activation)
    → find_where (has_status row.domain_key row.status) rows ≡ none
    → IsUnique rows
    → IsUnique (rows ++ row ∷ [])
append-IsUnique row rows h unique d =
    (add_one row rows d active h (unique d).0, add_one row rows d canary h (unique d).1)

pub add_activation-IsUnique :
    (row : Activation) (rows rows' : List Activation)
    → IsUnique rows
    → add_activation row rows ≡ response rows'
    → IsUnique rows'
add_activation-IsUnique row rows rows' unique h =
    let added = add_activation_adds row rows rows' h in
    rw added.1 (append-IsUnique row rows added.0 unique)

-- A change by which no row becomes active or a canary.
abbrev pub Leaves : (Activation → Activation) → Type 0
Leaves f =
    (d : Text) (r : Activation)
    → (indicator (has_status d active) (f r) ≤ indicator (has_status d active) r)
      × (indicator (has_status d canary) (f r) ≤ indicator (has_status d canary) r)

pub update_row-IsUnique :
    (k : ℕ) (f : Activation → Activation) (rows : List Activation)
    → Leaves f
    → IsUnique rows
    → IsUnique (update_row Activation.id k f rows)
update_row-IsUnique k f rows leaves unique d = (
  omega (
    arith,
    count-update_row (has_status d active) Activation.id k f rows (λ r. (leaves d r).0),
    (unique d).0,
  ),
  omega (
    arith,
    count-update_row (has_status d canary) Activation.id k f rows (λ r. (leaves d r).1),
    (unique d).1,
  ),
)

map-IsUnique :
    (f : Activation → Activation) (rows : List Activation)
    → Leaves f
    → IsUnique rows
    → IsUnique (map f rows)
map-IsUnique f rows leaves unique d = (
  omega (arith, count-map (has_status d active) f rows (λ r. (leaves d r).0), (unique d).0),
  omega (arith, count-map (has_status d canary) f rows (λ r. (leaves d r).1), (unique d).1),
)

retired-Leaves : Leaves (set_status retired)
unfolding has_status
retired-Leaves d r = (ground arith, ground arith)

pub rolled-Leaves : (now : DateTime) → Leaves (rolled now)
unfolding has_status
rolled-Leaves now d r = (ground arith, ground arith)

pub set_canary-Leaves :
    (now : DateTime) (percent : ℕ) (metadata : Option Text)
    → Leaves (set_canary now percent metadata)
unfolding has_status
set_canary-Leaves now percent metadata d r = (ground arith, ground arith)

pub retire_active-IsUnique :
    (o : Option Activation) (rows : List Activation)
    → IsUnique rows
    → IsUnique (retire_active o rows)
retire_active-IsUnique none rows unique = unique
retire_active-IsUnique (some a) rows unique =
    update_row-IsUnique a.id (set_status retired) rows retired-Leaves unique

pub end_canaries-IsUnique :
    (now : DateTime) (domain gateway_profile_id : Text) (rows : List Activation)
    → IsUnique rows
    → IsUnique (end_canaries now domain gateway_profile_id rows)
unfolding end_canary has_status
end_canaries-IsUnique now domain gateway_profile_id rows unique =
    map-IsUnique (end_canary now domain gateway_profile_id) rows
      (λ d r. (ground arith, ground arith)) unique

pub retire_canaries-IsUnique :
    (domain : Text) (rows : List Activation)
    → IsUnique rows
    → IsUnique (retire_canaries domain rows)
unfolding retire_canary has_status
retire_canaries-IsUnique domain rows unique =
    map-IsUnique (retire_canary domain) rows (λ d r. (ground arith, ground arith)) unique
