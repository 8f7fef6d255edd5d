-- ===== src/Tests/Accounts.antt =====
-- A project key, the permissions of a reviewer, and the metadata of an audit entry.
use conexus.Prelude.{◌≡◌, ◌≤◌, refl, true, false, ◌&&◌, Option, none, some, [], ◌∷◌}
use conexus.Text.{Text, codes, text_eq}
use conexus.Text.Splitting.{lacks}
use conexus.Table.{find_where, find_row}
use conexus.Models.{Project, ProjectApiKey, AdminUser, Db}
use conexus.ProjectKeys.{
  IssuedKey, joined, touch, plaintext_of, create_api_key, verify_api_key, revoke_api_key,
}
use conexus.ProjectKeys.Verifying.{issued_key_verifies}
use conexus.Permissions.{
  adaptation_publish, RolesJson, role_list, parse_roles_json, require_adaptation_permission,
}
use conexus.Permissions.Granting.{any_role, is_publisher, publish_requires_role}
use conexus.Audit.{Json, text, null, object, field, no_fields, sanitize_json_value}
use conexus.Audit.Redacting.{is_clean, depth_of, sanitized_is_clean}
use conexus.Tests.{program, noon, empty}

accounts : Unit {0}
unfolding program lacks
accounts = tt

abbrev project : Project
project = record { id = 1; name = codes "cms" }

abbrev owning : Db
owning = record empty { projects = project ∷ [] }

-- A stand-in for the hash.
abbrev hash : Text → Text
hash s = 104 ∷ s

abbrev issued : IssuedKey × Db
issued = create_api_key hash 5 noon project none (codes "a1b2") (codes "c3d4") owning

known : find_row Project.id 1 owning.projects ≡ some project
unfolding accounts
known = refl

free : find_where (joined (codes "a1b2") owning) owning.api_keys ≡ none
unfolding accounts
free = refl

new_key_id : find_row ProjectApiKey.id 5 owning.api_keys ≡ none
unfolding accounts
new_key_id = refl

no_underscore : lacks b'_' (codes "a1b2") ≡ true
unfolding accounts
no_underscore = refl

no_underscore_secret : lacks b'_' (codes "c3d4") ≡ true
unfolding accounts
no_underscore_secret = refl

no_underscore_wrong : lacks b'_' (codes "ffff") ≡ true
unfolding accounts
no_underscore_wrong = refl

other_hash : text_eq (hash (codes "c3d4")) (hash (codes "ffff")) ≡ false
unfolding accounts
other_hash = refl

issued_key_verifies_example :
    ((verify_api_key hash noon issued.0.plaintext issued.1).0
      ≡ some (project, touch noon issued.0.api_key))
    × (verify_api_key hash noon (plaintext_of (codes "a1b2") (codes "ffff")) issued.1
        ≡ (none, issued.1))
    × ((verify_api_key hash noon issued.0.plaintext (revoke_api_key noon 5 issued.1)).0 ≡ none)
issued_key_verifies_example =
    issued_key_verifies hash 5 noon project none (codes "a1b2") (codes "c3d4") owning known free
      noon (codes "ffff") new_key_id no_underscore no_underscore_secret no_underscore_wrong refl
      refl refl other_hash

abbrev reviewer : AdminUser
reviewer = record {
  id = codes "u1";
  username = codes "ada";
  password_hash = [];
  roles_json = codes "[\"AdaptationReviewer\"]";
  is_active = true;
}

abbrev staffed : Db
staffed = record empty { admin_users = reviewer ∷ [] }

abbrev loads : Text → Option RolesJson
loads s = some (role_list (some (codes "AdaptationReviewer") ∷ []))

reviewer_known : find_where (λ u. text_eq u.id (codes "u1")) staffed.admin_users ≡ some reviewer
unfolding accounts
reviewer_known = refl

publish_requires_role_example :
    require_adaptation_permission loads adaptation_publish (some (codes "u1")) staffed
    ≡ (true && any_role is_publisher (parse_roles_json loads reviewer.roles_json))
publish_requires_role_example =
    publish_requires_role loads (codes "u1") staffed reviewer refl reviewer_known

abbrev metadata : Json
metadata =
    object (field (codes "Token") (text (codes "t0k3n")) (field (codes "note") null no_fields))

sanitized_is_clean_example :
    (is_clean (sanitize_json_value 0 metadata) ≡ true)
    × (depth_of (sanitize_json_value 0 metadata) ≤ 7)
sanitized_is_clean_example = sanitized_is_clean metadata
