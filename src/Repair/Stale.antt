-- ===== src/Repair/Stale.antt =====
-- `count_stale_reservations` and `list_stale_reservations`: outstanding reservations of a minimal age,
-- the oldest first.
use conexus.Prelude.{
  ℕ, zero, suc, ◌+◌, ◌*◌, Bool, true, not, ◌&&◌, Option, none, some, is_some, List, [], ◌∷◌, map,
  length, leb, ◌==◌, if◌then◌else◌,
}
use conexus.Text.{Text}
use conexus.Clock.{DateTime, since_epoch, age_seconds}
use conexus.Table.{select_where}
use conexus.Models.{Reservation, GatewayRequest, Db}
use conexus.Repair.{RepairKind, Action, classify_and_recommend, load_gateway_for_reservation}

pub record StaleReservationsSummary : Type 0 where
  pub total_count : ℕ
  pub oldest_age_seconds : Option ℕ

pub record StaleReservationCandidate : Type 0 where
  pub reservation_id : ℕ
  pub project_id : ℕ
  pub created_at : DateTime
  pub age_seconds : ℕ
  pub daily_window_id : ℕ
  pub monthly_window_id : Option ℕ
  pub request_slots : ℕ
  pub tokens_reserved : ℕ
  pub cost_reserved : ℕ
  pub gateway_request_id : Option ℕ
  pub gateway_request_status : Option Text
  pub gateway_request_completed_at : Option DateTime
  pub repair_kind : RepairKind
  pub recommended_action : Action

-- The project filter, if there is one.
abbrev pub of_project : Option ℕ → Reservation → Bool
of_project none r = true
of_project (some p) r = r.project_id == p

-- The filters, with `created_at <= now - older_than_seconds`.
abbrev pub is_stale : ℕ → Option ℕ → DateTime → Reservation → Bool
is_stale older_than_seconds project_id now r =
    not (is_some r.reconciled_at)
    && leb (since_epoch r.created_at + older_than_seconds * 1_000_000) (since_epoch now)
    && of_project project_id r

unfoldable pub stale_rows : ℕ → Option ℕ → DateTime → Db → List Reservation
stale_rows older_than_seconds project_id now db =
    select_where (is_stale older_than_seconds project_id now) db.reservations

-- `ORDER BY created_at`; rows of the same time stay in their order.
unfoldable pub insert_by_age : Reservation → List Reservation → List Reservation
insert_by_age r [] = r ∷ []
insert_by_age r (x ∷ xs) =
    if leb (since_epoch r.created_at) (since_epoch x.created_at)
    then r ∷ x ∷ xs
    else x ∷ insert_by_age r xs

unfoldable pub order_by_age : List Reservation → List Reservation
unfolding insert_by_age
order_by_age [] = []
order_by_age (r ∷ rs) = insert_by_age r (order_by_age rs)

-- `LIMIT n`
unfoldable pub take_rows {ℓ} : {A : Type ℓ} → ℕ → List A → List A
take_rows zero xs = []
take_rows (suc n) [] = []
take_rows (suc n) (x ∷ xs) = x ∷ take_rows n xs

-- `func.min(created_at)`
abbrev pub earlier : DateTime → Option DateTime → Option DateTime
earlier t none = some t
earlier t (some u) = if leb (since_epoch t) (since_epoch u) then some t else some u

unfoldable pub min_created : List Reservation → Option DateTime
min_created [] = none
min_created (r ∷ rs) = earlier r.created_at (min_created rs)

abbrev pub oldest : DateTime → Option DateTime → Option ℕ
oldest now none = none
oldest now (some t) = some (age_seconds now t)

unfoldable pub count_stale_reservations : ℕ → Option ℕ → DateTime → Db → StaleReservationsSummary
unfolding stale_rows min_created
count_stale_reservations older_than_seconds project_id now db =
    let rows = stale_rows older_than_seconds project_id now db in
    record { total_count = length rows; oldest_age_seconds = oldest now (min_created rows) }

-- A column of a row that may be missing.
abbrev pub column {ℓ} :
    {A : Type ℓ} → (GatewayRequest → Option A) → Option GatewayRequest → Option A
column f none = none
column f (some gr) = f gr

unfoldable pub candidate : ℕ → DateTime → Db → Reservation → StaleReservationCandidate
candidate force_after now db r =
    let age = age_seconds now r.created_at in
    let gr = load_gateway_for_reservation r.id db in
    let verdict = classify_and_recommend gr age force_after in
    record {
      reservation_id = r.id;
      project_id = r.project_id;
      created_at = r.created_at;
      age_seconds = age;
      daily_window_id = r.daily_window_id;
      monthly_window_id = r.monthly_window_id;
      request_slots = r.request_slots;
      tokens_reserved = r.tokens_reserved;
      cost_reserved = r.cost_reserved;
      gateway_request_id = column (λ g. some g.request_id) gr;
      gateway_request_status = column (λ g. some g.status) gr;
      gateway_request_completed_at = column GatewayRequest.completed_at gr;
      repair_kind = verdict.0;
      recommended_action = verdict.1;
    }

unfoldable pub list_stale_reservations :
    ℕ → ℕ → Option ℕ → ℕ → DateTime → Db → List StaleReservationCandidate
unfolding stale_rows order_by_age take_rows candidate
list_stale_reservations force_after older_than_seconds project_id limit now db =
    map (candidate force_after now db)
      (take_rows limit (order_by_age (stale_rows older_than_seconds project_id now db)))
