-- ===== src/Profiles.antt =====
-- backend/app/api/internal_adapter_profiles.py: adapter profiles are registered, tried on a part of
-- the traffic of a domain, promoted and rolled back. The partial unique indexes of the activation
-- table, at most one `Active` and one `Canary` row for a domain, are checked where the code flushes.
-- The metadata of the audit entries is left out; ids and clock readings are inputs.
pub mod Promotion
pub mod Rows
pub mod Registering
pub mod Unique
pub mod Promoting
pub mod Restoring
pub mod Outcomes
pub mod Conflicts
use conexus.Prelude.{
  ℕ, Bool, true, false, ◌&&◌, Option, none, some, List, [], ◌∷◌, ◌++◌, map, if◌then◌else◌,
}
use conexus.Text.{Text, codes, text_eq, strip, is_blank}
use conexus.Clock.{DateTime}
use conexus.Http.{Http, response, exception, ◌>>=◌}
use conexus.Table.{find_where, latest_where, update_row}
use conexus.Models.{
  ActivationStatus, active, canary, retired, promoted, rolled_back, AdapterProfile, Activation,
  AuditLog, Db,
}

abbrev pub status_eq : ActivationStatus → ActivationStatus → Bool
status_eq active active = true
status_eq canary canary = true
status_eq retired retired = true
status_eq promoted promoted = true
status_eq rolled_back rolled_back = true
status_eq _ _ = false

-- The filters `domain_key == domain, status == s`.
unfoldable pub has_status : Text → ActivationStatus → Activation → Bool
has_status domain s r = text_eq r.domain_key domain && status_eq r.status s

-- `log_admin_action` without an actor.
abbrev pub internal_entry : Text → Text → Text → AuditLog
internal_entry action resource_type resource_id = record {
  actor_admin_user_id = none;
  actor_username = none;
  action = action;
  resource_type = resource_type;
  resource_id = some resource_id;
  metadata_json = none;
}

pub record RegisterBody : Type 0 where
  pub adapter_profile_id : Text
  pub domain_key : Text
  pub run_id : Option Text
  pub plan_id : Option Text
  pub evidence_hash : Option Text
  pub semantic_context_hash : Option Text
  pub slod_model_version : Option Text
  pub profile_version : Option Text
  pub metadata_json : Option Text

pub record RegisterResponse : Type 0 where
  pub gateway_profile_id : Text
  pub status : Text

abbrev pub new_profile : Text → Text → Text → DateTime → RegisterBody → AdapterProfile
new_profile gateway_profile_id adapter_profile_id domain_key now body = record {
  gateway_profile_id = gateway_profile_id;
  adapter_profile_id = adapter_profile_id;
  domain_key = domain_key;
  profile_version = body.profile_version;
  status = codes "Registered";
  source_run_id = body.run_id;
  source_plan_id = body.plan_id;
  evidence_hash = body.evidence_hash;
  semantic_context_hash = body.semantic_context_hash;
  slod_model_version = body.slod_model_version;
  metadata_json = body.metadata_json;
  created_at = now;
}

abbrev pub by_adapter : Text → AdapterProfile → Bool
by_adapter adapter_profile_id r = text_eq r.adapter_profile_id adapter_profile_id

abbrev pub registered : AdapterProfile → RegisterResponse
registered row = record { gateway_profile_id = row.gateway_profile_id; status = row.status }

-- The insert meets no concurrent one, so the row that is read back is the new row.
unfoldable pub register_adapter_profile :
    DateTime → Text → RegisterBody → Db → Http (RegisterResponse × Db)
register_adapter_profile now gwid body db =
    let adapter_profile_id = strip body.adapter_profile_id in
    let domain_key = strip body.domain_key in
    if is_blank domain_key
    then exception 400 (codes "domainKey is required")
    else if is_blank adapter_profile_id
    then exception 400 (codes "adapterProfileId is required")
    else elim (find_where (by_adapter adapter_profile_id) db.profiles) [
      | some existing ↦ response (registered existing, db)
      | none ↦
          let row = new_profile gwid adapter_profile_id domain_key now body in
          response (
            registered row,
            record db {
              profiles = db.profiles ++ row ∷ [];
              audit =
                  db.audit
                  ++ internal_entry (codes "gateway.adapter_profile.registered")
                      (codes "gateway_adapter_profile") gwid
                    ∷ [];
            },
          )
    ]

pub record ActivationResponse : Type 0 where
  pub domain_key : Text
  pub gateway_profile_id : Text
  pub status : ActivationStatus
  pub canary_percent : Option ℕ
  pub previous_gateway_profile_id : Option Text

abbrev pub by_gateway : Text → AdapterProfile → Bool
by_gateway gateway_profile_id r = text_eq r.gateway_profile_id gateway_profile_id

-- `_get_profile_or_404`
unfoldable pub get_profile_or_404 : Text → Db → Http AdapterProfile
get_profile_or_404 gateway_profile_id db =
    elim (find_where (by_gateway gateway_profile_id) db.profiles) [
      | none ↦ exception 404 (codes "gateway profile not found")
      | some row ↦ response row
    ]

abbrev pub conflict : Text
conflict = codes "adapter profile activation conflict for this domain"

-- `session.add(row)` and `_flush_adapter_activation_or_conflict`; a conflict rolls everything back.
unfoldable pub add_activation : Activation → List Activation → Http (List Activation)
unfolding has_status
add_activation row rows = elim (find_where (has_status row.domain_key row.status) rows) [
  | some _ ↦ exception 409 conflict
  | none ↦ response (rows ++ row ∷ [])
]

-- The audit entry of a change of activations.
abbrev pub with_entry : Text → Text → List Activation → Db → Db
with_entry action gateway_profile_id rows db = record db {
  activations = rows;
  audit =
      db.audit
      ++ internal_entry action (codes "gateway_adapter_profile_activation") gateway_profile_id ∷ [];
}

abbrev pub new_activation :
    ℕ → DateTime → Text → Text → ActivationStatus → Option ℕ → Option Text → Activation
new_activation id now domain_key gateway_profile_id s percent previous = record {
  id = id;
  domain_key = domain_key;
  gateway_profile_id = gateway_profile_id;
  status = s;
  canary_percent = percent;
  previous_gateway_profile_id = previous;
  created_at = now;
  activated_at = some now;
  promoted_at = none;
  rolled_back_at = none;
  metadata_json = none;
}

abbrev pub set_canary : DateTime → ℕ → Option Text → Activation → Activation
set_canary now percent metadata r = record r {
  canary_percent = some percent;
  activated_at = some now;
  metadata_json = metadata;
}

abbrev pub canary_response : Text → Text → ℕ → ActivationResponse
canary_response domain_key gateway_profile_id percent = record {
  domain_key = domain_key;
  gateway_profile_id = gateway_profile_id;
  status = canary;
  canary_percent = some percent;
  previous_gateway_profile_id = none;
}

-- `activate_canary`, from the domain's canary row on.
unfoldable pub canary_over :
    DateTime
    → ℕ
    → Text
    → Text
    → ℕ
    → Option Text
    → Option Activation
    → Db
    → Http (ActivationResponse × Db)
unfolding add_activation
canary_over now id domain gateway_profile_id percent metadata none db = do
  rows ←
      add_activation
        (record (new_activation id now domain gateway_profile_id canary (some percent) none) {
          metadata_json = metadata;
        })
        db.activations
  response (
    canary_response domain gateway_profile_id percent,
    with_entry (codes "gateway.adapter_profile.canary_activated") gateway_profile_id rows db,
  )
canary_over now id domain gateway_profile_id percent metadata (some existing) db =
    if text_eq existing.gateway_profile_id gateway_profile_id
    then response (
      canary_response domain gateway_profile_id percent,
      with_entry (codes "gateway.adapter_profile.canary_activated") gateway_profile_id
          (update_row Activation.id existing.id (set_canary now percent metadata) db.activations)
          db,
    )
    else exception 409 (codes "domain already has a canary profile")

-- The row that is active for a domain.
unfoldable pub active_row : Text → Db → Option Activation
unfolding has_status
active_row domain db = latest_where Activation.created_at (has_status domain active) db.activations

-- The domain's canary.
unfoldable pub canary_row : Text → Db → Option Activation
unfolding has_status
canary_row domain db = latest_where Activation.created_at (has_status domain canary) db.activations

-- The request model keeps `canary_percent` between 1 and 50.
unfoldable pub activate_canary :
    DateTime → ℕ → Text → ℕ → Option Text → Db → Http (ActivationResponse × Db)
unfolding get_profile_or_404 canary_row canary_over
activate_canary now id gateway_profile_id percent metadata db = do
  profile ← get_profile_or_404 gateway_profile_id db
  canary_over now id profile.domain_key gateway_profile_id percent metadata
      (canary_row profile.domain_key db) db
