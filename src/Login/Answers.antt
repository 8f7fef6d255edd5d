-- ===== src/Login/Answers.antt =====
-- Who can log in, and what the cookie of a login is good for.
use mathlib.Core.Option.{some-injective}
use conexus.Prelude.{
  ℕ, ◌≡◌, refl, sym, ap, ◌∙◌, ◌&&◌, Bool, true, false, ◌⊎◌, inl, inr, Option, none, some, List, [],
  ◌∷◌, ltb, if◌then◌else◌, All, Bool-cases, Option-cases, arith,
}
use conexus.Text.{Text, text_eq, strip}
use conexus.Http.{Http, response, exception, response_inj, exception-not_response, response_steps}
use conexus.Table.{find_where}
use conexus.Models.{AdminUser, Db}
use conexus.LoginLimiter.{is_rate_limited}
use conexus.Sessions.{
  IsTokenCodec, is_username_format, expiry, issue_admin_session_token, parse_admin_session_token,
  validate_admin_credentials, any_admin_users_exist, verify_password, authenticate_admin_user,
}
use conexus.Sessions.Tokens.{IsTokenId, session_round_trip}
use conexus.Login.{
  LoginSettings, LoginBody, LoginResponse, Arrival, LoginState, accept, login_as, login_env,
  login_checked, login, audit_login, refuse, refusal, fail_login, LoginReason, success,
  rate_limited, invalid_credentials, bootstrap_required,
}

abbrev pub named : Text → AdminUser → Bool
named username u = text_eq u.username username

-- An active user of the table with this password.
pub record IsUser (s : LoginSettings) (username password : Text) (db : Db) (r : LoginResponse)
    : Type 0 where
  pub user : AdminUser
  pub found : find_where (named username) db.admin_users ≡ some user
  pub active : user.is_active ≡ true
  pub verified : verify_password s.checkpw password user.password_hash ≡ true
  pub answer : r ≡ record { username = user.username; admin_user_id = some user.id }

-- The administrator of the settings, who is known while the table of users is empty.
pub record IsEnvAdmin (s : LoginSettings) (username password : Text) (db : Db) (r : LoginResponse)
    : Type 0 where
  pub no_users : any_admin_users_exist db ≡ false
  pub allowed : s.effective_allow_env_admin_fallback ≡ true
  pub verified :
      validate_admin_credentials s.admin_username s.admin_password username password ≡ response true
  pub answer : r ≡ record { username = username; admin_user_id = none }

accepted :
    (s : LoginSettings) (a : Arrival) (username : Text) (id : Option Text) (st : LoginState)
    (r : LoginResponse) (cookie : Text)
    → (accept s a username id st).0 ≡ response (r, cookie)
    → (r ≡ record { username = username; admin_user_id = id })
      × (issue_admin_session_token s.codec s.admin_session_ttl_hours a.seconds username id
          ≡ response cookie)
unfolding accept
accepted s a username id st r cookie e =
    let (token, issued, same) =
      response_steps
        (issue_admin_session_token s.codec s.admin_session_ttl_hours a.seconds username id) _
        (r, cookie) e in
    let pair = response_inj same in
    (sym (ap (λ x. x.0) pair), issued ∙ ap (λ x. response (x.1)) pair)

refusal-not_response {ℓ} :
    {A : Type ℓ} (reason : LoginReason) (x : A) → ¬ (refusal reason ≡ response x)
refusal-not_response success x e = exception-not_response _ _ x e
refusal-not_response rate_limited x e = exception-not_response _ _ x e
refusal-not_response invalid_credentials x e = exception-not_response _ _ x e
refusal-not_response bootstrap_required x e = exception-not_response _ _ x e

failed-not_response :
    (s : LoginSettings) (a : Arrival) (username : Text) (reason : LoginReason) (st : LoginState)
    (x : LoginResponse × Text)
    → ¬ ((fail_login s a username reason st).0 ≡ response x)
unfolding fail_login refuse
failed-not_response s a username reason st x e = refusal-not_response _ x e

none-not_some {ℓ} : {A : Type ℓ} (a : A) → ¬ (none ≡ some a)
none-not_some a e = ground arith

-- What an authenticated user passed.
authenticated :
    (s : LoginSettings) (username password : Text) (db : Db) (user : AdminUser)
    → authenticate_admin_user s.checkpw username password db ≡ some user
    → IsUser s username password db
        (record { username = user.username; admin_user_id = some user.id })
unfolding authenticate_admin_user
authenticated s username password db user e =
    elim (Option-cases (find_where (named username) db.admin_users)) [
      | inl missing ↦ absurd (none-not_some user (rw (authenticate_admin_user, missing) at e))
      | inr (row, found) ↦
          elim (Bool-cases
            (row.is_active && verify_password s.checkpw password row.password_hash)) [
              | inl passed ↦
                  let same : row ≡ user =
                    some-injective row user (rw (authenticate_admin_user, found, passed) at e) in
                  record {
                    user = user;
                    found = found ∙ ap some same;
                    active = rw (sym same) (ground (arith, passed));
                    verified = rw (sym same) (ground (arith, passed));
                    answer = refl;
                  }
              | inr failed ↦
                  absurd (none-not_some user (rw (authenticate_admin_user, found, failed) at e))
            ]
    ]

-- The identity and the token of an answer.
abbrev Answered : LoginSettings → Arrival → Text → Text → Db → LoginResponse → Text → Type 0
Answered s a username password db r cookie =
    (IsUser s username password db r ⊎ IsEnvAdmin s username password db r)
    × (issue_admin_session_token s.codec s.admin_session_ttl_hours a.seconds r.username
          r.admin_user_id
        ≡ response cookie)

user_answers :
    (s : LoginSettings) (a : Arrival) (username password : Text) (st : LoginState)
    (r : LoginResponse) (cookie : Text)
    → (login_as s a username (authenticate_admin_user s.checkpw username password st.db) st).0
      ≡ response (r, cookie)
    → Answered s a username password st.db r cookie
unfolding login_as
user_answers s a username password st r cookie e =
    elim (Option-cases (authenticate_admin_user s.checkpw username password st.db)) [
      | inl missing ↦
          absurd
            (failed-not_response s a username invalid_credentials st (r, cookie) (rw missing at e))
      | inr (user, found) ↦
          let (same, issued) =
            accepted s a user.username (some user.id) st r cookie (rw found at e) in
          rw same (inl (authenticated s username password st.db user found), issued)
    ]

env_answers :
    (s : LoginSettings) (a : Arrival) (username password : Text) (st : LoginState)
    (r : LoginResponse) (cookie : Text) (m : Http Bool)
    → validate_admin_credentials s.admin_username s.admin_password username password ≡ m
    → any_admin_users_exist st.db ≡ false
    → s.effective_allow_env_admin_fallback ≡ true
    → (login_env s a username m st).0 ≡ response (r, cookie)
    → Answered s a username password st.db r cookie
unfolding login_env
env_answers s a username password st r cookie (exception code detail) m none_there allowed e =
    absurd (exception-not_response code detail _ e)
env_answers s a username password st r cookie (response true) m none_there allowed e =
    let (same, issued) = accepted s a username none st r cookie e in
    rw same (
      inr (record { no_users = none_there; allowed = allowed; verified = m; answer = refl }),
      issued,
    )
env_answers s a username password st r cookie (response false) m none_there allowed e =
    absurd (failed-not_response s a username invalid_credentials st (r, cookie) e)

checked_answers :
    (s : LoginSettings) (a : Arrival) (username password : Text) (st : LoginState)
    (r : LoginResponse) (cookie : Text)
    → (login_checked s a username password st).0 ≡ response (r, cookie)
    → Answered s a username password st.db r cookie
unfolding login_checked login_env fail_login accept audit_login
checked_answers s a username password st r cookie e =
    elim (Bool-cases (any_admin_users_exist st.db)) [
      | inl some_there ↦ user_answers s a username password st r cookie (rw some_there at e)
      | inr none_there ↦ elim (Bool-cases s.effective_allow_env_admin_fallback) [
        | inl allowed ↦
            env_answers s a username password st r cookie _ refl none_there allowed
              (rw (none_there, allowed) at e)
        | inr forbidden ↦ absurd (
            failed-not_response s a username bootstrap_required st (r, cookie)
              (rw (none_there, forbidden) at e))
      ]
    ]

found_All {ℓ κ} :
    {A : Type ℓ} (P : A → Type κ) (p : A → Bool) (xs : List A) (x : A)
    → All P xs
    → find_where p xs ≡ some x
    → P x
unfolding find_where
found_All P p [] x all e = absurd (none-not_some x e)
found_All P p (y ∷ ys) x all e = elim (Bool-cases (p y)) [
  | inl at_y ↦ rw (sym (some-injective y x (rw at_y at e))) (all.0)
  | inr not_y ↦ found_All P p ys x all.1 (rw not_y at e)
]

-- The ids of the users can be carried by a token.
abbrev pub HasTokenIds : Db → Type 0
HasTokenIds db = All (λ u. IsTokenId (some (AdminUser.id u))) db.admin_users

id_of_answer :
    (s : LoginSettings) (a : Arrival) (username password : Text) (db : Db) (r : LoginResponse)
    (cookie : Text)
    → HasTokenIds db
    → Answered s a username password db r cookie
    → IsTokenId r.admin_user_id
id_of_answer s a username password db r cookie ids (inl u, issued) = rw (u.answer) (
    found_All (λ x. IsTokenId (some (AdminUser.id x))) (named username) db.admin_users u.user ids
      u.found)
id_of_answer s a username password db r cookie ids (inr e, issued) = rw (e.answer) tt

login-Answered :
    (s : LoginSettings) (a : Arrival) (body : LoginBody) (st : LoginState) (r : LoginResponse)
    (cookie : Text)
    → (login s a body st).0 ≡ response (r, cookie)
    → Answered s a (strip body.username) body.password st.db r cookie
unfolding login refuse
login-Answered s a body st r cookie e =
    let username = strip body.username in
    let looked = is_rate_limited s.limiter username a.client_ip a.limiter_time st.failures in
    elim (Bool-cases (is_username_format username)) [
      | inr barred ↦ absurd (exception-not_response _ _ (r, cookie) (rw barred at e))
      | inl format ↦ elim (Bool-cases looked.0) [
        | inl limited ↦
            absurd (refusal-not_response rate_limited (r, cookie) (rw (format, limited) at e))
        | inr free ↦
            checked_answers s a username body.password (record st { failures = looked.1 }) r cookie
              (rw (format, free) at e)
      ]
    ]

-- A login is answered only to an active user of the table who gives the password, or, while the
-- table is empty and the settings allow it, to one who gives the name and the password of the
-- settings. With the documented behaviour of the codec, and ids in the table that are not empty and
-- have no bar, the cookie of the answer then is the session of that user until its time is over, and
-- no session afterwards.
pub login_answers :
    (s : LoginSettings) (a : Arrival) (body : LoginBody) (st : LoginState) (r : LoginResponse)
    (cookie : Text) (later : ℕ)
    → IsTokenCodec s.codec
    → HasTokenIds st.db
    → (login s a body st).0 ≡ response (r, cookie)
    → (IsUser s (strip body.username) body.password st.db r
        ⊎ IsEnvAdmin s (strip body.username) body.password st.db r)
      × (parse_admin_session_token s.codec later cookie
          ≡ response (
              if ltb (expiry s.admin_session_ttl_hours a.seconds) later
              then none
              else some (record { username = r.username; admin_user_id = r.admin_user_id })))
unfolding login
login_answers s a body st r cookie later codec ids e =
    let answered = login-Answered s a body st r cookie e in
    (
      answered.0,
      session_round_trip s.codec s.admin_session_ttl_hours a.seconds later r.username
          r.admin_user_id cookie codec
          (id_of_answer s a (strip body.username) body.password st.db r cookie ids answered)
          answered.1,
    )
