-- ===== src/Login.antt =====
-- backend/app/api/admin_auth.py: the login of an administrator, with its audit entries and the rate
-- limiter, and the logout. A clock reading is one for the request: whole seconds for the token, and a
-- number in the limiter's unit. The time of the last login and the cookie's attributes are left out.
pub mod Answers
pub mod Throttled
use conexus.Prelude.{
  ℕ, Bool, true, false, not, Option, none, some, is_some, List, [], ◌∷◌, if◌then◌else◌,
}
use conexus.Text.{Text, codes, strip, is_blank}
use conexus.Http.{Http, response, exception, ◌>>=◌}
use conexus.Models.{AdminUser, Db}
use conexus.Audit.{Json, text, boolean, null, object, field, no_fields, log_admin_action}
use conexus.LoginLimiter.{Limiter, Failures, non_blank, is_rate_limited, record_failure, clear}
use conexus.Sessions.{
  TokenCodec, AdminSession, is_username_format, issue_admin_session_token,
  validate_admin_credentials, any_admin_users_exist, authenticate_admin_user, require_admin_session,
}

-- The settings, and the functions of libraries that a login uses.
pub record LoginSettings : Type 0 where
  pub limiter : Limiter
  pub effective_allow_env_admin_fallback : Bool
  pub admin_username : Text
  pub admin_password : Text
  pub admin_session_ttl_hours : ℕ
  pub codec : TokenCodec
  pub checkpw : Text → Text → Bool
  pub dumps : Json → Text

pub record LoginBody : Type 0 where
  pub username : Text
  pub password : Text

pub record LoginResponse : Type 0 where
  pub username : Text
  pub admin_user_id : Option Text

-- Where and when the request came in.
pub record Arrival : Type 0 where
  pub client_ip : Option Text
  pub seconds : ℕ
  pub limiter_time : ℕ

-- The failures that the limiter remembers, and the database.
pub record LoginState : Type 0 where
  pub failures : Failures
  pub db : Db

pub data LoginReason : Type 0 where
  success rate_limited invalid_credentials bootstrap_required : LoginReason

abbrev pub reason_text : LoginReason → Text
reason_text success = codes "success"
reason_text rate_limited = codes "rate_limited"
reason_text invalid_credentials = codes "invalid_credentials"
reason_text bootstrap_required = codes "bootstrap_required"

abbrev pub optional_text : Option Text → Json
optional_text none = null
optional_text (some t) = text t

-- Only a success has an actor.
abbrev pub login_actor : Text → Option Text → LoginReason → Option (Option Text × Text)
login_actor username admin_user_id success = some (admin_user_id, username)
login_actor username admin_user_id _ = none

-- `_audit_login`, which commits.
unfoldable pub audit_login :
    LoginSettings → Arrival → Text → Option Text → LoginReason → LoginState → LoginState
audit_login s a username admin_user_id reason st = record st {
  db =
      log_admin_action s.dumps (login_actor username admin_user_id reason) (codes "admin.login")
        (codes "admin_auth") none
        (some (
          object (
            field (codes "username") (text username) (
              field (codes "admin_user_id") (optional_text admin_user_id) (
                field (codes "reason") (text (reason_text reason)) (
                  field (codes "client_ip_present") (boolean (is_some (non_blank a.client_ip)))
                    no_fields))))))
        st.db;
}

-- The exception that a refusal raises.
abbrev pub refusal {ℓ} : {A : Type ℓ} → LoginReason → Http A
refusal rate_limited = exception 429 (codes "too many login attempts")
refusal bootstrap_required = exception 401 (codes "admin bootstrap required")
refusal _ = exception 401 (codes "invalid credentials")

-- The answer and the cookie of a login.
abbrev pub LoginOutcome : Type 0
LoginOutcome = Http (LoginResponse × Text) × LoginState

-- `_raise_rate_limited`, `_raise_invalid_credentials`, `_raise_bootstrap_required`
unfoldable pub refuse : LoginSettings → Arrival → Text → LoginReason → LoginState → LoginOutcome
refuse s a username reason st = (refusal reason, audit_login s a username none reason st)

-- A failure is remembered, and it may be the one that exceeds the limit.
unfoldable pub fail_login : LoginSettings → Arrival → Text → LoginReason → LoginState → LoginOutcome
unfolding refuse
fail_login s a username reason st =
    let recorded = record_failure s.limiter username a.client_ip a.limiter_time st.failures in
    let (limited, failures) =
      is_rate_limited s.limiter username a.client_ip a.limiter_time recorded in
    refuse s a username (if limited then rate_limited else reason)
      (record st { failures = failures })

abbrev pub with_cookie : Text → Option Text → Http Text → Http (LoginResponse × Text)
with_cookie username admin_user_id token = do
  cookie ← token
  response (record { username = username; admin_user_id = admin_user_id }, cookie)

-- A login whose user name and password were accepted.
unfoldable pub accept : LoginSettings → Arrival → Text → Option Text → LoginState → LoginOutcome
accept s a username admin_user_id st = (
  with_cookie username admin_user_id (
      issue_admin_session_token s.codec s.admin_session_ttl_hours a.seconds username admin_user_id),
  record (audit_login s a username admin_user_id success st) {
    failures = clear username a.client_ip st.failures;
  },
)

-- The user of the table, if the password is the user's.
unfoldable pub login_as :
    LoginSettings → Arrival → Text → Option AdminUser → LoginState → LoginOutcome
login_as s a username none st = fail_login s a username invalid_credentials st
login_as s a username (some user) st = accept s a user.username (some user.id) st

-- The administrator of the settings, once the comparison of the credentials has answered.
unfoldable pub login_env : LoginSettings → Arrival → Text → Http Bool → LoginState → LoginOutcome
login_env s a username (exception code detail) st = (exception code detail, st)
login_env s a username (response true) st = accept s a username none st
login_env s a username (response false) st = fail_login s a username invalid_credentials st

-- The checks of a login that is not rate limited.
unfoldable pub login_checked : LoginSettings → Arrival → Text → Text → LoginState → LoginOutcome
unfolding any_admin_users_exist
login_checked s a username password st =
    if any_admin_users_exist st.db
    then login_as s a username (authenticate_admin_user s.checkpw username password st.db) st
    else if s.effective_allow_env_admin_fallback
    then login_env s a username
        (validate_admin_credentials s.admin_username s.admin_password username password) st
    else fail_login s a username bootstrap_required st

abbrev pub bar_message : Text
bar_message = codes "admin username must not contain '|' (reserved for session token encoding)"

unfoldable pub login : LoginSettings → Arrival → LoginBody → LoginState → LoginOutcome
login s a body st =
    let username = strip body.username in
    let (limited, failures) =
      is_rate_limited s.limiter username a.client_ip a.limiter_time st.failures in
    let seen : LoginState = record st { failures = failures } in
    if is_username_format username
    then if limited
      then refuse s a username rate_limited seen
      else login_checked s a username body.password seen
    else (exception 400 bar_message, st)

-- `get_admin_session` and `logout`
unfoldable pub logout : LoginSettings → Arrival → Option Text → Db → Http Db
logout s a session_cookie db = do
  admin ← require_admin_session s.codec a.seconds session_cookie
  response (
      log_admin_action s.dumps (some (admin.admin_user_id, admin.username)) (codes "admin.logout")
        (codes "admin_auth") none
        (some (
          object (
            field (codes "username") (text admin.username)
              (field (codes "admin_user_id") (optional_text admin.admin_user_id) no_fields))))
        db)
