-- ===== src/Gateway/Association.antt =====
-- `_resolve_adapter_profile_association`: the adapter profile that a request is tagged with.
use conexus.Prelude.{ℕ, ◌%◌, Bool, ◌&&◌, Option, none, some, leb, ltb, if◌then◌else◌}
use conexus.Text.{Text, codes}
use conexus.Table.{find_where}
use conexus.Models.{AdapterProfile, Activation, Db}
use conexus.Profiles.{by_gateway, active_row, canary_row}

pub record Association : Type 0 where
  pub gateway_profile_id : Option Text
  pub adapter_profile_id : Option Text
  pub domain_key : Option Text
  pub adaptation_mode : Option Text

abbrev pub adapter_of : Option AdapterProfile → Option Text
adapter_of none = none
adapter_of (some row) = some row.adapter_profile_id

-- Whether the canary serves a request in this bucket.
unfoldable pub takes_canary : Bool → ℕ → Option Activation → Option Text
takes_canary enabled bucket none = none
takes_canary enabled bucket (some c) = elim c.canary_percent [
  | none ↦ none
  | some p ↦
      if enabled && leb 1 p && leb p 50 && ltb bucket p then some c.gateway_profile_id else none
]

abbrev pub tagged : Text → Text → Text → Db → Association
tagged domain gateway_profile_id mode db = record {
  gateway_profile_id = some gateway_profile_id;
  adapter_profile_id = adapter_of (find_where (by_gateway gateway_profile_id) db.profiles);
  domain_key = some domain;
  adaptation_mode = some mode;
}

abbrev pub domain_only : Text → Association
domain_only domain = record {
  gateway_profile_id = none;
  adapter_profile_id = none;
  domain_key = some domain;
  adaptation_mode = some (codes "domain_only");
}

unfoldable pub association_of_domain : Bool → ℕ → Text → Db → Association
unfolding active_row canary_row takes_canary
association_of_domain enabled bucket domain db = elim (active_row domain db) [
  | none ↦ domain_only domain
  | some a ↦ elim (takes_canary enabled bucket (canary_row domain db)) [
    | none ↦ tagged domain a.gateway_profile_id (codes "active") db
    | some selected ↦ tagged domain selected (codes "canary") db
  ]
]

abbrev pub untagged : Association
untagged = record {
  gateway_profile_id = none;
  adapter_profile_id = none;
  domain_key = none;
  adaptation_mode = none;
}

abbrev pub explicitly : AdapterProfile → Association
explicitly row = record {
  gateway_profile_id = some row.gateway_profile_id;
  adapter_profile_id = some row.adapter_profile_id;
  domain_key = some row.domain_key;
  adaptation_mode = some (codes "explicit");
}

-- The texts are stripped ones; `digest` is the number that the first two bytes of the SHA-256 digest
-- of the request's ids make. `none` stands for the GatewayClientError of an unknown profile.
unfoldable pub resolve_adapter_profile_association :
    Bool → ℕ → Option Text → Option Text → Db → Option Association
unfolding association_of_domain
resolve_adapter_profile_association enabled digest domain (some explicit) db =
    elim (find_where (by_gateway explicit) db.profiles) [
      | none ↦ none
      | some row ↦ some (explicitly row)
    ]
resolve_adapter_profile_association enabled digest none none db = some untagged
resolve_adapter_profile_association enabled digest (some domain) none db =
    some (association_of_domain enabled (digest % 100) domain db)
