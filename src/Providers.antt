-- ===== src/Providers.antt =====
-- backend/app/services/provider_config_service.py, provider_candidate_service.py and
-- routing_policy_service.py: the configured providers and what the back office shows of the routing.
-- Encryption, the provider call, its text of an error, the redaction patterns and sorted aliases are
-- parameters; ids and clock readings are inputs.
pub mod Disabling
use conexus.Prelude.{
  ℕ, zero, suc, ◌-◌, Bool, true, false, not, Option, none, some, is_some, List, [], ◌∷◌, ◌++◌, map,
  leb, if◌then◌else◌, length,
}
use conexus.Text.{Text, codes, is_blank, starts_with}
use conexus.Clock.{DateTime, stamp}
use conexus.Table.{select_where, update_row}

pub record ProviderConfig : Type 0 where
  pub id : ℕ
  pub provider : Text
  pub label : Option Text
  pub api_key_encrypted : Text
  pub key_mask : Text
  pub is_active : Bool
  pub revoked_at : Option DateTime
  pub last_test_status : Option Text
  pub last_test_error : Option Text
  pub last_tested_at : Option DateTime
  pub created_at : DateTime

-- `s[:n]`
unfoldable pub first_chars : ℕ → Text → Text
first_chars zero s = []
first_chars (suc n) [] = []
first_chars (suc n) (c ∷ s) = c ∷ first_chars n s

-- `s[-n:]` of a text of at least `n` characters
unfoldable pub last_chars : ℕ → Text → Text
last_chars n [] = []
last_chars n (c ∷ s) = let rest = last_chars n s in if leb (length (c ∷ s)) n then c ∷ s else rest

unfoldable pub mask_api_key : Text → Text
unfolding first_chars last_chars
mask_api_key secret =
    if leb (length secret) 8
    then map (λ c. b'*') secret
    else first_chars 4 secret ++ codes "..." ++ last_chars 4 secret

-- `s.replace(old, new)` for a text `old` that is not empty: the characters of an occurrence that
-- was replaced are skipped.
unfoldable pub replace_from : ℕ → Text → Text → Text → Text
unfolding starts_with
replace_from skip old new [] = []
replace_from (suc skip) old new (c ∷ s) = replace_from skip old new s
replace_from zero old new (c ∷ s) =
    let found = replace_from (length old - 1) old new s in
    let rest = replace_from zero old new s in
    if starts_with (c ∷ s) old then new ++ found else c ∷ rest

abbrev pub redact : Option Text → Text → Text
redact none message = message
redact (some sensitive) message =
    if is_blank sensitive then message else replace_from 0 sensitive (codes "[redacted]") message

unfoldable pub sanitize_error : (Text → Text) → Text → Text → Option Text → Option Text → Text
unfolding replace_from first_chars
sanitize_error sanitize_audit_text message secret encrypted_secret key_mask =
    first_chars 240 (
      sanitize_audit_text
        (redact key_mask (redact encrypted_secret (redact (some secret) message))))

-- The filters of an enabled configuration.
abbrev pub is_enabled : ProviderConfig → Bool
is_enabled row = if row.is_active then not (is_some row.revoked_at) else false

-- `order_by(created_at.desc())`: the newest first, rows of one time as they stand.
unfoldable pub insert_newest : ProviderConfig → List ProviderConfig → List ProviderConfig
insert_newest row [] = row ∷ []
insert_newest row (x ∷ xs) =
    let rest = insert_newest row xs in
    if leb (stamp x.created_at) (stamp row.created_at) then row ∷ x ∷ xs else x ∷ rest

unfoldable pub order_newest : List ProviderConfig → List ProviderConfig
unfolding insert_newest
order_newest [] = []
order_newest (x ∷ xs) = insert_newest x (order_newest xs)

unfoldable pub list_provider_configs : List ProviderConfig → List ProviderConfig
list_provider_configs rows = order_newest rows

unfoldable pub list_enabled_provider_configs : List ProviderConfig → List ProviderConfig
list_enabled_provider_configs rows = order_newest (select_where is_enabled rows)

unfoldable pub create_provider_config :
    (Text → Text)
    → ℕ
    → DateTime
    → Text
    → Text
    → Option Text
    → List ProviderConfig
    → ProviderConfig × List ProviderConfig
unfolding mask_api_key
create_provider_config encrypt_secret id now provider api_key label rows =
    let row : ProviderConfig = record {
      id = id;
      provider = provider;
      label = label;
      api_key_encrypted = encrypt_secret api_key;
      key_mask = mask_api_key api_key;
      is_active = true;
      revoked_at = none;
      last_test_status = none;
      last_test_error = none;
      last_tested_at = none;
      created_at = now;
    } in
    (row, rows ++ row ∷ [])

abbrev pub disabled : DateTime → ProviderConfig → ProviderConfig
disabled now row = record row { is_active = false; revoked_at = some now }

unfoldable pub disable_provider_config : DateTime → ℕ → List ProviderConfig → List ProviderConfig
disable_provider_config now id rows = update_row ProviderConfig.id id (disabled now) rows

-- How the call of a provider ended: an answer, or an error with its text, which is the provider's
-- own or another.
pub data Probe : Type 0 where
  answered : Probe
  refused other_error : Text → Probe

pub record ProviderTestResult : Type 0 where
  pub status : Text
  pub error : Option Text

abbrev pub tested : DateTime → Text → Option Text → ProviderConfig → ProviderConfig
tested now status error row = record row {
  last_test_status = some status;
  last_test_error = error;
  last_tested_at = some now;
}

abbrev pub probe_error : (Text → Text) → Text → ProviderConfig → Text → Text
probe_error sanitize_audit_text secret row message =
    sanitize_error sanitize_audit_text message secret (some row.api_key_encrypted)
      (some row.key_mask)

-- `test_provider_config`, once the provider was called with the decrypted secret.
unfoldable pub test_provider_config :
    (Text → Text) → DateTime → Text → Probe → ProviderConfig → ProviderTestResult × ProviderConfig
test_provider_config sanitize_audit_text now secret answered row =
    (record { status = codes "ok"; error = none }, tested now (codes "ok") none row)
test_provider_config sanitize_audit_text now secret (refused message) row =
    let msg = probe_error sanitize_audit_text secret row message in
    (
      record { status = codes "failed"; error = some msg },
      tested now (codes "failed") (some msg) row,
    )
test_provider_config sanitize_audit_text now secret (other_error message) row =
    let msg = probe_error sanitize_audit_text secret row message in
    (
      record { status = codes "failed"; error = some (codes "provider test failed") },
      tested now (codes "failed") (some msg) row,
    )
