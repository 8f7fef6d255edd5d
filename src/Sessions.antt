-- ===== src/Sessions.antt =====
-- backend/app/services/admin_auth_service.py: the session tokens of administrators, their user names
-- and passwords. The URL-safe base64 codec, the keyed hash and the password hash are parameters. A
-- payload is its text: a part that is no UTF-8 is refused where the code refuses it later.
pub mod Tokens
use conexus.Prelude.{
  ℕ, ◌+◌, ◌*◌, ◌≡◌, ℤ, pos, negsuc, Bool, true, false, not, ◌&&◌, Option, none, some, List, [], ◌∷◌,
  ◌++◌, ltb, ◌==◌, if◌then◌else◌,
}
use conexus.Text.{Text, codes, text_eq, is_blank}
use conexus.Text.Splitting.{split, lacks}
use conexus.Text.Decimal.{decimal, read_int}
use conexus.Http.{Http, response, exception, ◌>>=◌}
use conexus.Table.{find_where}
use conexus.Models.{AdminUser, Db}

-- `_b64_encode` of a text, `_b64_decode` to a text, and `_sign`
pub record TokenCodec : Type 0 where
  pub b64_encode : Text → Text
  pub b64_decode : Text → Option Text
  pub sign : Text → Text

unfoldable pub is_ascii : Text → Bool
is_ascii [] = true
is_ascii (c ∷ s) = ltb c 128 && is_ascii s

-- What is documented of the codec: decoding undoes encoding, and its texts have no dot and only
-- ASCII characters.
pub record IsTokenCodec (k : TokenCodec) : Type 0 where
  pub decodes : (t : Text) → k.b64_decode (k.b64_encode t) ≡ some t
  pub no_dot : (t : Text) → lacks b'.' (k.b64_encode t) ≡ true
  pub ascii_sign : (t : Text) → is_ascii (k.sign t) ≡ true

-- `hmac.compare_digest` of two strings, which raises a `TypeError` for one that is not ASCII.
abbrev pub compare_digest : Text → Text → Http Bool
compare_digest a b =
    if is_ascii a && is_ascii b
    then response (text_eq a b)
    else exception 500 (codes "Internal Server Error")

pub record AdminSession : Type 0 where
  pub username : Text
  pub admin_user_id : Option Text

-- `validate_admin_username_format`: a user name without a bar.
abbrev pub is_username_format : Text → Bool
is_username_format username = lacks b'|' username

abbrev pub text_or_empty : Option Text → Text
text_or_empty none = []
text_or_empty (some t) = t

abbrev pub non_empty : Text → Option Text
non_empty t = if is_blank t then none else some t

-- `f"{username}|{admin_user_id_raw}|{exp}"`
abbrev pub payload_of : Text → Option Text → ℕ → Text
payload_of username admin_user_id exp =
    username ++ b'|' ∷ (text_or_empty admin_user_id ++ b'|' ∷ decimal exp)

abbrev pub expiry : ℕ → ℕ → ℕ
expiry ttl_hours now = now + ttl_hours * 3600

-- `issue_admin_session_token`; the `ValueError` for a bar in the user name is an internal error.
unfoldable pub issue_admin_session_token : TokenCodec → ℕ → ℕ → Text → Option Text → Http Text
issue_admin_session_token k ttl_hours now username admin_user_id =
    let payload = payload_of username admin_user_id (expiry ttl_hours now) in
    if is_username_format username
    then response (k.b64_encode payload ++ b'.' ∷ k.sign payload)
    else exception 500 (codes "Internal Server Error")

-- `s.split(c, 1)`, none if `c` is not in `s`
unfoldable pub split_once : ℕ → Text → Option (Text × Text)
split_once c [] = none
split_once c (d ∷ s) =
    let rest = split_once c s in
    if d == c then some ([], s) else elim rest [ none ↦ none | some (a, b) ↦ some (d ∷ a, b) ]

-- `exp < int(time.time())`
abbrev pub is_expired : ℤ → ℕ → Bool
is_expired (pos exp) now = ltb exp now
is_expired (negsuc exp) now = true

abbrev pub session_until : ℕ → Text → Option Text → Option ℤ → Option AdminSession
session_until now username admin_user_id none = none
session_until now username admin_user_id (some exp) =
    if is_expired exp now
    then none
    else some (record { username = username; admin_user_id = admin_user_id })

-- The parts of a payload, of the present and of the legacy form.
unfoldable pub session_of_parts : ℕ → List Text → Option AdminSession
session_of_parts now (username ∷ exp_raw ∷ []) = session_until now username none (read_int exp_raw)
session_of_parts now (username ∷ admin_user_id_raw ∷ exp_raw ∷ []) =
    session_until now username (non_empty admin_user_id_raw) (read_int exp_raw)
session_of_parts now _ = none

-- A payload whose signature was compared.
abbrev pub session_if : ℕ → Text → Bool → Option AdminSession
session_if now payload true = session_of_parts now (split b'|' payload)
session_if now payload false = none

unfoldable pub parse_admin_session_token : TokenCodec → ℕ → Text → Http (Option AdminSession)
parse_admin_session_token k now token = elim (split_once b'.' token) [
  | none ↦ response none
  | some (payload_b64, signature) ↦ elim (k.b64_decode payload_b64) [
    | none ↦ response none
    | some payload ↦ do
      matches ← compare_digest signature (k.sign payload)
      response (session_if now payload matches)
  ]
]

abbrev pub known_session : Option AdminSession → Http AdminSession
known_session none = exception 401 (codes "invalid admin session")
known_session (some s) = response s

unfoldable pub require_admin_session : TokenCodec → ℕ → Option Text → Http AdminSession
require_admin_session k now none = exception 401 (codes "admin auth required")
require_admin_session k now (some token) =
    if is_blank token
    then exception 401 (codes "admin auth required")
    else do s ← parse_admin_session_token k now token; known_session s

-- `validate_admin_credentials`: the password is compared if the user name matches.
unfoldable pub validate_admin_credentials : Text → Text → Text → Text → Http Bool
validate_admin_credentials admin_username admin_password username password = do
  same ← compare_digest username admin_username
  if same then compare_digest password admin_password else response false

unfoldable pub any_admin_users_exist : Db → Bool
any_admin_users_exist db = elim db.admin_users [ [] ↦ false | u ∷ us ↦ true ]

-- `verify_password` of password_hasher.py around `bcrypt.checkpw`
unfoldable pub verify_password : (Text → Text → Bool) → Text → Text → Bool
verify_password checkpw password password_hash =
    if is_blank password
    then false
    else if is_blank password_hash
    then false
    else checkpw password password_hash

unfoldable pub authenticate_admin_user : (Text → Text → Bool) → Text → Text → Db → Option AdminUser
authenticate_admin_user checkpw username password db =
    elim (find_where (λ u. text_eq (AdminUser.username u) username) db.admin_users) [
      | none ↦ none
      | some user ↦
          if user.is_active && verify_password checkpw password user.password_hash
          then some user
          else none
    ]
