-- ===== src/ProjectKeys.antt =====
-- backend/app/services/project_key_service.py: keys `cx_live_<prefix>_<secret>`, of which the table
-- keeps the prefix and a hash of the secret. The SHA-256 hash is a parameter, and the random texts,
-- ids and clock readings are inputs. A prefix that is taken, which the table refuses, is not modelled.
pub mod Verifying
use conexus.Prelude.{
  ℕ, ◌+◌, Bool, true, false, ◌||◌, Option, none, some, is_some, List, [], ◌∷◌, ◌++◌, leb, ◌==◌,
  if◌then◌else◌,
}
use conexus.Text.{Text, codes, text_eq, is_blank}
use conexus.Text.Splitting.{split}
use conexus.Clock.{DateTime, since_epoch}
use conexus.Table.{find_row, find_where, update_row}
use conexus.Models.{Project, ProjectApiKey, Db}

pub record IssuedKey : Type 0 where
  pub plaintext : Text
  pub api_key : ProjectApiKey

abbrev pub key_prefix : Text
key_prefix = codes "cx_live"

-- The four parts of a key.
unfoldable pub parse_parts : List Text → Option (Text × Text)
unfolding text_eq
parse_parts (head ∷ env ∷ prefix ∷ secret ∷ []) =
    if text_eq (head ++ b'_' ∷ env) key_prefix
    then if is_blank prefix || is_blank secret then none else some (prefix, secret)
    else none
parse_parts _ = none

-- `_parse_key`
unfoldable pub parse_key : Text → Option (Text × Text)
unfolding split parse_parts
parse_key token = parse_parts (split b'_' token)

-- `_should_touch_last_used_at`, with the interval of 60 seconds.
unfoldable pub should_touch_last_used_at : Option DateTime → DateTime → Bool
unfolding since_epoch
should_touch_last_used_at none now = true
should_touch_last_used_at (some last_used_at) now =
    leb (since_epoch last_used_at + 60_000_000) (since_epoch now)

abbrev pub new_key :
    (Text → Text) → ℕ → DateTime → Project → Option Text → Text → Text → ProjectApiKey
new_key hash_secret id now project label prefix secret = record {
  id = id;
  project_id = project.id;
  prefix = prefix;
  secret_hash = hash_secret secret;
  label = label;
  created_at = now;
  last_used_at = none;
  revoked_at = none;
}

abbrev pub plaintext_of : Text → Text → Text
plaintext_of prefix secret = key_prefix ++ b'_' ∷ prefix ++ b'_' ∷ secret

unfoldable pub create_api_key :
    (Text → Text) → ℕ → DateTime → Project → Option Text → Text → Text → Db → IssuedKey × Db
create_api_key hash_secret id now project label prefix secret db =
    let api_key = new_key hash_secret id now project label prefix secret in
    (
      record { plaintext = plaintext_of prefix secret; api_key = api_key },
      record db { api_keys = db.api_keys ++ api_key ∷ [] },
    )

-- The join with the projects: the key of a project that is not there is no row of it.
abbrev pub joined : Text → Db → ProjectApiKey → Bool
joined prefix db k =
    if text_eq k.prefix prefix
    then is_some (find_row Project.id k.project_id db.projects)
    else false

abbrev pub touch : DateTime → ProjectApiKey → ProjectApiKey
touch now k = record k { last_used_at = some now }

-- The key that was found, its secret still to be compared.
unfoldable pub verify_row :
    (Text → Text)
    → DateTime
    → Text
    → Project
    → ProjectApiKey
    → Db
    → Option (Project × ProjectApiKey) × Db
unfolding should_touch_last_used_at
verify_row hash_secret now secret project api_key db =
    if is_some api_key.revoked_at
    then (none, db)
    else if text_eq api_key.secret_hash (hash_secret secret)
    then if should_touch_last_used_at api_key.last_used_at now
      then (
        some (project, touch now api_key),
        record db { api_keys = update_row ProjectApiKey.id api_key.id (touch now) db.api_keys },
      )
      else (some (project, api_key), db)
    else (none, db)

unfoldable pub verify_api_key :
    (Text → Text) → DateTime → Text → Db → Option (Project × ProjectApiKey) × Db
unfolding parse_key verify_row
verify_api_key hash_secret now token db = elim (parse_key token) [
  | none ↦ (none, db)
  | some (prefix, secret) ↦ elim (find_where (joined prefix db) db.api_keys) [
    | none ↦ (none, db)
    | some api_key ↦ elim (find_row Project.id api_key.project_id db.projects) [
      | none ↦ (none, db)
      | some project ↦ verify_row hash_secret now secret project api_key db
    ]
  ]
]

unfoldable pub revoke_api_key : DateTime → ℕ → Db → Db
revoke_api_key now id db = record db {
  api_keys = update_row ProjectApiKey.id id (λ k. record k { revoked_at = some now }) db.api_keys;
}
