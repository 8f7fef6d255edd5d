-- ===== src/Tests/Signins.antt =====
-- An administrator logs in, and is refused after two failures. The codec shifts the characters from
-- the dot on by one, and the signature is the same for every payload.
use conexus.Prelude.{
  ℕ, sum_by, All, ◌+◌, ◌-◌, List, ◌≡◌, refl, ap, true, false, ◌⊎◌, none, some, [], ◌∷◌, map, ltb,
  arith, if◌then◌else◌,
}
use conexus.Text.{Text, codes, text_eq, strip, lower_char, lstrip, rstrip, is_space}
use conexus.Text.Splitting.{split, lacks}
use conexus.Text.Decimal.{digits, decimal, read_digits, read_signed, read_int}
use conexus.Http.{Http, response}
use conexus.Models.{AdminUser}
use conexus.Audit.{log_admin_action, sanitize_json_value}
use conexus.LoginLimiter.{
  key_eq, get_failures, put_failures, pop_failures, prune, evict_if_over_cap, login_key,
  is_rate_limited, record_failure, clear,
}
use conexus.LoginLimiter.Blocking.{
  LimiterEvent, failed_at, cleared, apply_events, IsHarmless, recent_failure,
}
use conexus.Sessions.{
  TokenCodec, IsTokenCodec, is_ascii, issue_admin_session_token, split_once, session_of_parts,
  parse_admin_session_token, require_admin_session, validate_admin_credentials,
  any_admin_users_exist, verify_password, authenticate_admin_user,
}
use conexus.Sessions.Tokens.{session_round_trip}
use conexus.Login.{
  LoginSettings, LoginBody, LoginResponse, Arrival, LoginState, audit_login, rate_limited, refusal,
  refuse, fail_login, accept, login_as, login_env, login_checked, login,
}
use conexus.Login.Answers.{IsUser, IsEnvAdmin, login_answers}
use conexus.Login.Throttled.{throttled_login}
use conexus.Tests.{program, empty}

signins : Unit {0}
unfolding program is_space lower_char lstrip rstrip split lacks digits decimal read_digits
    read_signed read_int log_admin_action sanitize_json_value key_eq get_failures put_failures
    pop_failures prune evict_if_over_cap login_key is_rate_limited record_failure clear is_ascii
    issue_admin_session_token split_once session_of_parts parse_admin_session_token
    require_admin_session validate_admin_credentials any_admin_users_exist verify_password
    authenticate_admin_user audit_login refuse fail_login accept login_as login_env login_checked
    login
signins = tt

abbrev shift : ℕ → ℕ
shift c = if ltb c b'.' then c else c + 1

abbrev unshift : ℕ → ℕ
unshift c = if ltb c b'.' then c else c - 1

abbrev codec : TokenCodec
codec = record {
  b64_encode = map shift;
  b64_decode = λ t. some (map unshift t);
  sign = λ t. codes "sig";
}

unshift-shift : (t : Text) → map unshift (map shift t) ≡ t
unshift-shift [] = refl
unshift-shift (c ∷ t) = ground (arith, unshift-shift t)

lacks-shift : (t : Text) → lacks b'.' (map shift t) ≡ true
unfolding lacks
lacks-shift [] = refl
lacks-shift (c ∷ t) = ground (arith, lacks-shift t)

codec-IsTokenCodec : IsTokenCodec codec
unfolding signins
codec-IsTokenCodec = record {
  decodes = λ t. ap some (unshift-shift t);
  no_dot = lacks-shift;
  ascii_sign = λ t. refl;
}

abbrev token_of : Http Text → Text
token_of (response t) = t
token_of _ = []

abbrev token : Text
token = token_of (issue_admin_session_token codec 1 100 (codes "ann") (some (codes "7")))

issued_token :
    issue_admin_session_token codec 1 100 (codes "ann") (some (codes "7")) ≡ response token
unfolding signins
issued_token = refl

seven-IsTokenId : (lacks b'|' (codes "7")) ≡ true
unfolding signins
seven-IsTokenId = refl

session_round_trip_example : parse_admin_session_token codec 3701 token ≡ response none
session_round_trip_example =
    session_round_trip codec 1 100 3701 (codes "ann") (some (codes "7")) token codec-IsTokenCodec
      (refl, seven-IsTokenId) issued_token

abbrev ann : AdminUser
ann = record {
  id = codes "7";
  username = codes "ann";
  is_active = true;
  password_hash = codes "secret";
  roles_json = [];
}

abbrev settings : LoginSettings
settings = record {
  limiter = record { max_failures = 2; window_seconds = 60; max_tracked_login_keys = 100 };
  effective_allow_env_admin_fallback = false;
  admin_username = codes "admin";
  admin_password = codes "admin";
  admin_session_ttl_hours = 1;
  codec = codec;
  checkpw = text_eq;
  dumps = λ j. [];
}

abbrev arrival : Arrival
arrival = record { client_ip = none; seconds = 100; limiter_time = 30 }

abbrev body : LoginBody
body = record { username = codes " ann "; password = codes "secret" }

abbrev before : LoginState
before = record { failures = []; db = record empty { admin_users = ann ∷ [] } }

abbrev ann_answer : LoginResponse
ann_answer = record { username = codes "ann"; admin_user_id = some (codes "7") }

ann_login : (login settings arrival body before).0 ≡ response (ann_answer, token)
unfolding signins
ann_login = refl

login_answers_example :
    (IsUser settings (strip body.username) body.password before.db ann_answer
      ⊎ IsEnvAdmin settings (strip body.username) body.password before.db ann_answer)
    × (parse_admin_session_token codec 200 token
        ≡ response (
            some (record {
              username = ann_answer.username;
              admin_user_id = ann_answer.admin_user_id;
            })))
login_answers_example =
    login_answers settings arrival body before ann_answer token 200 codec-IsTokenCodec
      ((refl, seven-IsTokenId), tt) ann_login

-- Two failures of the user, with a success of another in between.
abbrev calls : List LimiterEvent
calls =
    failed_at (codes "ann") none 10
    ∷ cleared (codes "bob") none
    ∷ failed_at (codes "Ann") none 20
    ∷ []

abbrev two_failures : LoginState
two_failures = record before { failures = apply_events settings.limiter calls [] }

ann_format : lacks b'|' (strip body.username) ≡ true
unfolding signins
ann_format = refl

ann-IsHarmless : All (IsHarmless 30 (login_key (strip body.username) none)) calls
unfolding signins
ann-IsHarmless = (omega arith, (refl, (omega arith, tt)))

ann_enough :
    sum_by (recent_failure settings.limiter 30 (login_key (strip body.username) none)) calls ≡ 2
unfolding signins
ann_enough = refl

throttled_login_example : (login settings arrival body two_failures).0 ≡ refusal rate_limited
throttled_login_example =
    throttled_login settings arrival body two_failures calls [] ann_format (omega arith)
      ann-IsHarmless (omega arith) (omega (arith, ann_enough)) refl
