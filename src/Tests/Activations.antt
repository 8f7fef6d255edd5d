-- ===== src/Tests/Activations.antt =====
-- Two profiles of one domain: the second is a canary, is promoted over the first, and rolled back.
use conexus.Prelude.{◌≡◌, refl, arith, false, none, some, [], ◌∷◌}
use conexus.Text.{codes, text_eq, strip, is_blank, lstrip, rstrip, is_space}
use conexus.Http.{Http, response, exception}
use conexus.Table.{find_row, latest_where}
use conexus.Table.Keys.{Distinct}
use conexus.Models.{AdapterProfile, Activation, active, canary, Db}
use conexus.Profiles.{
  RegisterBody, RegisterResponse, register_adapter_profile, new_profile, new_activation, has_status,
  ActivationResponse, get_profile_or_404, add_activation, canary_over, canary_row, activate_canary,
  active_row,
}
use conexus.Profiles.Promotion.{
  end_canary, retire_canary, promote_over, promote_from, promote, rollback_to, rollback_from,
  rollback,
}
use conexus.Profiles.Rows.{IsUnique}
use conexus.Profiles.Outcomes.{activate_request, promote_request, serve}
use conexus.Profiles.Conflicts.{OutcomeIsRight, IsSound, unserved, served, requests_never_conflict}
use conexus.Profiles.Registering.{register_once}
use conexus.Profiles.Restoring.{promote_makes_active, rollback_restores}
use conexus.Tests.{program, noon, empty}

activations : Unit {0}
unfolding program is_space lstrip rstrip latest_where register_adapter_profile has_status
    get_profile_or_404 add_activation canary_over canary_row activate_canary active_row end_canary
    retire_canary promote_over promote_from promote rollback_to rollback_from rollback
activations = tt

abbrev body : RegisterBody
body = record {
  adapter_profile_id = codes " a1 ";
  domain_key = codes "cms";
  run_id = none;
  plan_id = none;
  evidence_hash = none;
  semantic_context_hash = none;
  slod_model_version = none;
  profile_version = none;
  metadata_json = none;
}

abbrev first : AdapterProfile
first = new_profile (codes "g1") (codes "a1") (codes "cms") noon body

abbrev second : AdapterProfile
second = new_profile (codes "g2") (codes "a2") (codes "cms") noon body

abbrev answer_of : Http (RegisterResponse × Db) → RegisterResponse × Db
answer_of (response r) = r
answer_of (exception code detail) = (record { gateway_profile_id = []; status = [] }, empty)

abbrev registered_once : RegisterResponse × Db
registered_once = answer_of (register_adapter_profile noon (codes "g1") body empty)

empty-registered : register_adapter_profile noon (codes "g1") body empty ≡ response registered_once
unfolding activations
empty-registered = refl

named : is_blank (strip body.domain_key) ≡ false
unfolding activations
named = refl

register_once_example :
    register_adapter_profile noon (codes "g9") body registered_once.1 ≡ response registered_once
register_once_example =
    register_once noon noon (codes "g1") (codes "g9") body body empty registered_once.1
      registered_once.0 empty-registered refl named

abbrev running : Activation
running = new_activation 1 noon (codes "cms") (codes "g1") active none none

abbrev serving : Db
serving = record empty { profiles = first ∷ second ∷ []; activations = running ∷ [] }

serving-IsUnique : IsUnique serving.activations
unfolding has_status
serving-IsUnique d = (ground arith, ground arith)

serving-Distinct : Distinct Activation.id serving.activations
unfolding activations
serving-Distinct = (refl, tt)

second_known : get_profile_or_404 (codes "g2") serving ≡ response second
unfolding activations
second_known = refl

first_active : active_row second.domain_key serving ≡ some running
unfolding activations
first_active = refl

abbrev tried : Db
tried = elim (activate_canary noon 2 (codes "g2") 10 none serving) [
  | response r ↦ r.1
  | exception code detail ↦ empty
]

abbrev tried_answer : ActivationResponse
tried_answer = record {
  domain_key = codes "cms";
  gateway_profile_id = codes "g2";
  status = canary;
  canary_percent = some 10;
  previous_gateway_profile_id = none;
}

serving-tried : activate_canary noon 2 (codes "g2") 10 none serving ≡ response (tried_answer, tried)
unfolding activations
serving-tried = refl

serving-IsSound : IsSound serving
serving-IsSound = record { unique = serving-IsUnique; distinct = serving-Distinct }

id_free : find_row Activation.id 2 serving.activations ≡ none
unfolding activations
id_free = refl

id_free_later : find_row Activation.id 3 tried.activations ≡ none
unfolding activations
id_free_later = refl

requests_never_conflict_example :
    IsSound tried × OutcomeIsRight tried (serve noon 3 (promote_request (codes "g2")) tried)
requests_never_conflict_example =
    requests_never_conflict serving tried noon 3 (promote_request (codes "g2")) serving-IsSound
      (served unserved noon 2 (activate_request (codes "g2") 10 none) tried_answer id_free
        serving-tried)
      id_free_later

promote_makes_active_example :
    (answer : ActivationResponse) × (db' : Db) × (row : Activation) × (promote noon 2
        (codes "g2")
        serving
      ≡ response (answer, db'))
    × (active_row (codes "cms") db' ≡ some row)
    × (row.gateway_profile_id ≡ codes "g2")
promote_makes_active_example =
    promote_makes_active noon 2 (codes "g2") serving second serving-IsUnique serving-Distinct
      second_known

other : text_eq running.gateway_profile_id (codes "g2") ≡ false
unfolding activations
other = refl

new_id : find_row Activation.id 2 serving.activations ≡ none
unfolding activations
new_id = refl

rollback_restores_example :
    (answer : ActivationResponse) × (answer' : ActivationResponse) × (db' : Db) × (db'' : Db)
    × (row : Activation) × (promote noon 2 (codes "g2") serving ≡ response (answer, db'))
    × (rollback noon 3 (codes "g2") db' ≡ response (answer', db''))
    × (active_row (codes "cms") db'' ≡ some row)
    × (row.gateway_profile_id ≡ codes "g1")
rollback_restores_example =
    rollback_restores noon noon 2 3 (codes "g2") serving second running serving-IsUnique
      serving-Distinct new_id second_known first_active other refl
