-- ===== src/Profiles/Promotion.antt =====
-- `promote` and `rollback` of api/internal_adapter_profiles.py.
use conexus.Prelude.{ℕ, Option, none, some, List, map, if◌then◌else◌}
use conexus.Text.{Text, codes, text_eq, is_blank}
use conexus.Clock.{DateTime}
use conexus.Http.{Http, response, exception, ◌>>=◌}
use conexus.Table.{update_row}
use conexus.Models.{
  ActivationStatus, active, canary, retired, promoted, rolled_back, Activation, Db,
}
use conexus.Profiles.{
  ActivationResponse, active_row, add_activation, get_profile_or_404, has_status, new_activation,
  with_entry,
}

abbrev pub set_status : ActivationStatus → Activation → Activation
set_status s r = record r { status = s }

-- The active row is retired, if there is one.
abbrev pub retire_active : Option Activation → List Activation → List Activation
retire_active none rows = rows
retire_active (some a) rows = update_row Activation.id a.id (set_status retired) rows

-- The loop over the canaries of a domain in `promote`.
unfoldable pub end_canary : DateTime → Text → Text → Activation → Activation
unfolding has_status
end_canary now domain gateway_profile_id c =
    if has_status domain canary c
    then if text_eq c.gateway_profile_id gateway_profile_id
      then record c { status = promoted; promoted_at = some now }
      else set_status retired c
    else c

abbrev pub end_canaries : DateTime → Text → Text → List Activation → List Activation
end_canaries now domain gateway_profile_id rows =
    map (end_canary now domain gateway_profile_id) rows

abbrev pub profile_of : Option Activation → Option Text
profile_of none = none
profile_of (some a) = some a.gateway_profile_id

abbrev pub active_response : Text → Text → Option Text → ActivationResponse
active_response domain_key gateway_profile_id previous = record {
  domain_key = domain_key;
  gateway_profile_id = gateway_profile_id;
  status = active;
  canary_percent = none;
  previous_gateway_profile_id = previous;
}

-- `promote`, from the domain's active row on.
unfoldable pub promote_over :
    DateTime → ℕ → Text → Text → Option Activation → Db → Http (ActivationResponse × Db)
unfolding end_canary add_activation
promote_over now id domain gateway_profile_id current db =
    let previous = profile_of current in
    do
      rows ←
          add_activation
            (record (new_activation id now domain gateway_profile_id active none previous) {
              promoted_at = some now;
            })
            (end_canaries now domain gateway_profile_id (retire_active current db.activations))
      response (
        active_response domain gateway_profile_id previous,
        with_entry (codes "gateway.adapter_profile.promoted") gateway_profile_id rows db,
      )

-- A profile that is active already stays.
unfoldable pub promote_from :
    DateTime → ℕ → Text → Text → Option Activation → Db → Http (ActivationResponse × Db)
unfolding promote_over
promote_from now id domain gateway_profile_id none db =
    promote_over now id domain gateway_profile_id none db
promote_from now id domain gateway_profile_id (some a) db =
    if text_eq a.gateway_profile_id gateway_profile_id
    then response (active_response domain gateway_profile_id a.previous_gateway_profile_id, db)
    else promote_over now id domain gateway_profile_id (some a) db

unfoldable pub promote : DateTime → ℕ → Text → Db → Http (ActivationResponse × Db)
unfolding get_profile_or_404 active_row promote_from
promote now id gateway_profile_id db = do
  profile ← get_profile_or_404 gateway_profile_id db
  promote_from now id profile.domain_key gateway_profile_id (active_row profile.domain_key db) db

abbrev pub rolled : DateTime → Activation → Activation
rolled now r = record r { status = rolled_back; rolled_back_at = some now }

unfoldable pub retire_canary : Text → Activation → Activation
unfolding has_status
retire_canary domain c = if has_status domain canary c then set_status retired c else c

abbrev pub retire_canaries : Text → List Activation → List Activation
retire_canaries domain rows = map (retire_canary domain) rows

unfoldable pub rollback_to :
    DateTime → ℕ → Text → Text → Activation → Text → Db → Http (ActivationResponse × Db)
unfolding retire_canary add_activation
rollback_to now id domain gateway_profile_id a previous db = do
  rows ←
      add_activation (new_activation id now domain previous active none none)
        (retire_canaries domain (update_row Activation.id a.id (rolled now) db.activations))
  response (
    active_response domain previous none,
    with_entry (codes "gateway.adapter_profile.rolled_back") gateway_profile_id rows db,
  )

-- `if not active.previous_gateway_profile_id`
abbrev pub truthy : Option Text → Option Text
truthy none = none
truthy (some s) = if is_blank s then none else some s

unfoldable pub rollback_from :
    DateTime → ℕ → Text → Text → Option Activation → Db → Http (ActivationResponse × Db)
unfolding rollback_to
rollback_from now id domain gateway_profile_id none db =
    exception 404 (codes "active profile not found")
rollback_from now id domain gateway_profile_id (some a) db =
    if text_eq a.gateway_profile_id gateway_profile_id
    then elim (truthy a.previous_gateway_profile_id) [
      | none ↦ exception 409 (codes "no previous profile to roll back to")
      | some previous ↦ rollback_to now id domain gateway_profile_id a previous db
    ]
    else exception 404 (codes "active profile not found")

unfoldable pub rollback : DateTime → ℕ → Text → Db → Http (ActivationResponse × Db)
unfolding get_profile_or_404 active_row rollback_from
rollback now id gateway_profile_id db = do
  profile ← get_profile_or_404 gateway_profile_id db
  rollback_from now id profile.domain_key gateway_profile_id (active_row profile.domain_key db) db
