-- ===== src/Audit.antt =====
-- backend/app/services/audit_service.py: what an audit entry keeps of its metadata. `json.dumps` is a
-- parameter; the patterns of `sanitize_audit_text` are not modelled.
pub mod Redacting
use conexus.Prelude.{
  ℕ, suc, ◌-◌, Bool, true, false, ◌&&◌, ◌||◌, Option, none, some, List, [], ◌∷◌, ◌++◌, max, ltb,
  ◌==◌, if◌then◌else◌,
}
use conexus.Text.{Text, codes, text_eq, lower}
use conexus.Models.{AuditLog, Db}

-- A value of the metadata. A number stands by its text, a datetime by its ISO text, any other object
-- by its `str`, and a key by its `str`.
mutual
  pub data Json : Type 0 where
    null : Json
    boolean : Bool → Json
    number text datetime other_object : Text → Json
    array : Items → Json
    object : Fields → Json

  pub data Items : Type 0 where
    no_items : Items
    item : Json → Items → Items

  pub data Fields : Type 0 where
    no_fields : Fields
    field : Text → Json → Fields → Fields

abbrev pub redact_keys : List Text
redact_keys =
    codes "authorization"
    ∷ codes "cookie"
    ∷ codes "cookies"
    ∷ codes "set-cookie"
    ∷ codes "api_key"
    ∷ codes "api-key"
    ∷ codes "apikey"
    ∷ codes "api_key_encrypted"
    ∷ codes "secret"
    ∷ codes "secret_hash"
    ∷ codes "password"
    ∷ codes "password_hash"
    ∷ codes "token"
    ∷ codes "access_token"
    ∷ codes "refresh_token"
    ∷ codes "prompt"
    ∷ codes "messages"
    ∷ codes "request_body"
    ∷ codes "response_body"
    ∷ codes "input"
    ∷ codes "output"
    ∷ []

abbrev any_eq : List Text → Text → Bool
any_eq [] k = false
any_eq (x ∷ xs) k = text_eq x k || any_eq xs k

-- `key.lower() in _REDACT_KEYS`
unfoldable pub is_redact_key : Text → Bool
unfolding text_eq lower
is_redact_key key = any_eq redact_keys (lower key)

abbrev pub redacted : Json
redacted = text (codes "[redacted]")

abbrev pub truncated : Json
truncated = text (codes "[truncated]")

-- `_sanitize_json_value`: the depth comes first, and for a list the number of the items left of 200.
unfoldable mutual
  unfolding is_redact_key

  pub sanitize_json_value : ℕ → Json → Json
  sanitize_json_value depth null = if ltb 6 depth then truncated else null
  sanitize_json_value depth (boolean b) = if ltb 6 depth then truncated else boolean b
  sanitize_json_value depth (number s) = if ltb 6 depth then truncated else number s
  sanitize_json_value depth (text s) = if ltb 6 depth then truncated else text s
  sanitize_json_value depth (datetime s) = if ltb 6 depth then truncated else text s
  sanitize_json_value depth (other_object s) = if ltb 6 depth then truncated else text s
  sanitize_json_value depth (array xs) =
      let out = sanitize_items depth 200 xs in if ltb 6 depth then truncated else array out
  sanitize_json_value depth (object fs) =
      let out = sanitize_fields depth fs in if ltb 6 depth then truncated else object out

  pub sanitize_items : ℕ → ℕ → Items → Items
  sanitize_items depth left no_items = no_items
  sanitize_items depth left (item v xs) =
      let out = sanitize_json_value (suc depth) v in
      let rest = sanitize_items depth (left - 1) xs in if left == 0 then no_items else item out rest

  pub sanitize_fields : ℕ → Fields → Fields
  sanitize_fields depth no_fields = no_fields
  sanitize_fields depth (field key v fs) =
      let out = sanitize_json_value (suc depth) v in
      let rest = sanitize_fields depth fs in
      field key (if is_redact_key key then redacted else out) rest

-- The actor's id and name, if there is one.
unfoldable pub log_admin_action :
    (Json → Text) → Option (Option Text × Text) → Text → Text → Option Text → Option Json → Db → Db
unfolding sanitize_json_value
log_admin_action dumps actor action resource_type resource_id metadata db = record db {
  audit =
      db.audit
      ++ (record {
        actor_admin_user_id = elim actor [ none ↦ none | some a ↦ a.0 ];
        actor_username = elim actor [ none ↦ none | some a ↦ some a.1 ];
        action = action;
        resource_type = resource_type;
        resource_id = resource_id;
        metadata_json = elim metadata [
          | none ↦ none
          | some m ↦ some (dumps (sanitize_json_value 0 m))
        ];
      })
        ∷ [];
}
