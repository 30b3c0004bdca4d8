-- ===== src/Auth.antt =====
-- src/services/AuthService.ts (register, login, refresh, logout) and tenantPolicy.ts, on the token pairs
-- of Tokens. Emails are as validation leaves them, trimmed and in lower case.
pub mod Spent
pub mod Kept
pub mod Rotation
pub mod SignOut
mod Tests
use ecommerce_rest_api.Base.{
  String, ◌+◌, Bool, true, false, not, ◌&&◌, ◌||◌, Option, none, some, if◌then◌else◌, ltb, leb,
  ◌==◌, is_some, str_eq, option_eq,
}
use ecommerce_rest_api.Domain.{ObjectId, Date, Tenant, TenantStatus, active, suspended, Role}
use ecommerce_rest_api.Errors.{
  Result, ok, err, AppError, un_authorized, forbidden, conflict, server_error,
}
use ecommerce_rest_api.Access.{User, UserSession, Claims, SessionClaim, absent, malformed, names}
use ecommerce_rest_api.Sessions.{
  Store, AuthDb, Client, RefreshToken, info, medium, record_security_signal, track_session,
  link_session_to_refresh_token, find_user_by_email, find_user_by_id, user_exists_by_email,
  create_user, create_refresh_token, consume_refresh_token, delete_refresh_token_for_user,
}
use ecommerce_rest_api.Durations.{parse_duration_ms}
use ecommerce_rest_api.Tokens.{
  AuthConfig, Packages, TokenIds, TokenPair, TokenPayload, create_token_pair, issue, issued, linked,
  payload_of, refresh_expiry, start_session,
}

abbrev is_active : TenantStatus → Bool
is_active active = true
is_active suspended = false

-- `allowSelfSignup !== false`
abbrev signup_of : Option Bool → Bool
signup_of none = true
signup_of (some allowed) = allowed

abbrev pub is_open : Option Tenant → Bool → Bool
is_open none is_default = is_default
is_open (some tenant) is_default = is_active tenant.status && signup_of tenant.allow_self_signup

unfoldable pub assert_self_signup_allowed : AuthConfig → Store → String → AuthDb → Result (Unit {0})
assert_self_signup_allowed cfg store key db =
    if is_open (store.tenants.find_one (λ t. str_eq t.key key) db.tenants)
      (str_eq key cfg.default_tenant)
    then ok tt
    else err (forbidden "Registration is not available for this store")

abbrev pub registered :
    Packages
    → AuthConfig
    → Store
    → String
    → String
    → String
    → String
    → Client
    → String
    → TokenIds
    → Date
    → AuthDb
    → Bool
    → Result TokenPair × AuthDb
unfolding create_user start_session
registered x cfg store name email password tenant req salt ids now db true =
    (err (conflict "This email is already taken."), db)
registered x cfg store name email password tenant req salt ids now db false =
    let (user, db') = create_user store name email (x.hash password salt) tenant db in
    (start_session x cfg store user req ids now db').1

abbrev pub if_allowed :
    Result (Unit {0}) → AuthDb → Result TokenPair × AuthDb → Result TokenPair × AuthDb
if_allowed (err failure) db rest = (err failure, db)
if_allowed (ok _) db rest = rest

unfoldable pub register :
    Packages
    → AuthConfig
    → Store
    → String
    → String
    → String
    → String
    → Client
    → String
    → TokenIds
    → Date
    → AuthDb
    → Result TokenPair × AuthDb
unfolding assert_self_signup_allowed user_exists_by_email
register x cfg store name email password tenant req salt ids now db =
    if_allowed (assert_self_signup_allowed cfg store tenant db) db (
      registered x cfg store name email password tenant req salt ids now db
        (user_exists_by_email store email db))

pub record LoggedIn : Type 0 where
  pub tokens : TokenPair
  pub step_up_required : Bool

unfoldable pub wrong_credentials : AppError
unfolding un_authorized
wrong_credentials = un_authorized "Username or Password is wrong!"

abbrev pub signed_in :
    Store
    → User
    → String
    → Client
    → Date
    → UserSession × (Result TokenPair × AuthDb)
    → Result LoggedIn × AuthDb
unfolding record_security_signal
signed_in store user tenant req now (session, (err failure, db)) = (err failure, db)
signed_in store user tenant req now (session, (ok tokens, db)) = (
  ok (record { tokens = tokens; step_up_required = session.step_up_required }),
  record_security_signal store "auth.login_succeeded"
      (if session.step_up_required then medium else info) (some user.id) tenant req.ip now db,
)

abbrev pub matched :
    Packages
    → AuthConfig
    → Store
    → User
    → String
    → Client
    → TokenIds
    → Date
    → AuthDb
    → Bool
    → Result LoggedIn × AuthDb
unfolding record_security_signal start_session wrong_credentials
matched x cfg store user tenant req ids now db false = (
  err wrong_credentials,
  record_security_signal store "auth.login_failed" medium (some user.id) tenant req.ip now db,
)
matched x cfg store user tenant req ids now db true =
    signed_in store user tenant req now (start_session x cfg store user req ids now db)

abbrev pub with_account :
    Packages
    → AuthConfig
    → Store
    → String
    → String
    → Client
    → TokenIds
    → Date
    → AuthDb
    → Option User
    → Result LoggedIn × AuthDb
unfolding record_security_signal wrong_credentials
with_account x cfg store password tenant req ids now db none = (
  err wrong_credentials,
  record_security_signal store "auth.login_failed" medium none tenant req.ip now db,
)
with_account x cfg store password tenant req ids now db (some user) =
    matched x cfg store user tenant req ids now db (x.compare password user.password)

unfoldable pub login :
    Packages
    → AuthConfig
    → Store
    → String
    → String
    → String
    → Client
    → TokenIds
    → Date
    → AuthDb
    → Result LoggedIn × AuthDb
unfolding find_user_by_email
login x cfg store email password tenant req ids now db =
    with_account x cfg store password tenant req ids now db (find_user_by_email store email db)

unfoldable pub invalid_refresh_token : AppError
unfolding un_authorized
invalid_refresh_token = un_authorized "Invalid refresh token"

abbrev pub is_signed_out : ObjectId → UserSession → Bool
is_signed_out id s = s.id == id && is_some s.revoked_at

abbrev pub in_session :
    Packages
    → AuthConfig
    → Store
    → User
    → Option ObjectId
    → TokenIds
    → Date
    → AuthDb
    → Result TokenPair × AuthDb
unfolding issue invalid_refresh_token
in_session x cfg store user none ids now db = issue x cfg store user none ids now db
in_session x cfg store user (some sid) ids now db =
    if is_some (store.sessions.find_one (is_signed_out sid) db.sessions)
    then (err invalid_refresh_token, db)
    else issue x cfg store user (some sid) ids now db

abbrev pub holds : ObjectId → ObjectId → UserSession → Bool
holds user row s = s.user == user && option_eq s.refresh_token row

abbrev pub id_of : Option UserSession → Option ObjectId
id_of none = none
id_of (some s) = some s.id

-- A token without the `sid` claim finds its session by the refresh token that the session holds.
abbrev pub for_claim :
    Packages
    → AuthConfig
    → Store
    → User
    → RefreshToken
    → SessionClaim
    → TokenIds
    → Date
    → AuthDb
    → Result TokenPair × AuthDb
for_claim x cfg store user row (names sid) ids now db =
    in_session x cfg store user (some sid) ids now db
for_claim x cfg store user row absent ids now db =
    in_session x cfg store user (id_of (store.sessions.find_one (holds user.id row.id) db.sessions))
      ids now db
for_claim x cfg store user row malformed ids now db = (err x.cast_error, db)

abbrev pub for_user :
    Packages
    → AuthConfig
    → Store
    → RefreshToken
    → Claims
    → TokenIds
    → Date
    → AuthDb
    → Option User
    → Result TokenPair × AuthDb
for_user x cfg store row claims ids now db none = (err (un_authorized "No user found!"), db)
for_user x cfg store row claims ids now db (some user) =
    for_claim x cfg store user row claims.sid ids now db

abbrev pub rotated :
    Packages
    → AuthConfig
    → Store
    → Claims
    → TokenIds
    → Date
    → Option RefreshToken × AuthDb
    → Result TokenPair × AuthDb
unfolding find_user_by_id invalid_refresh_token
rotated x cfg store claims ids now (none, db) = (err invalid_refresh_token, db)
rotated x cfg store claims ids now (some row, db) =
    let found = for_user x cfg store row claims ids now db (find_user_by_id store claims.id db) in
    if row.user == claims.id then found else (err invalid_refresh_token, db)

-- `!typ || typ === "refresh"`
abbrev pub is_refresh : Option String → Bool
is_refresh none = true
is_refresh (some t) = str_eq t "" || str_eq t "refresh"

abbrev pub if_verified :
    Packages
    → AuthConfig
    → Store
    → String
    → TokenIds
    → Date
    → AuthDb
    → Option Claims
    → Result TokenPair × AuthDb
unfolding consume_refresh_token invalid_refresh_token
if_verified x cfg store token ids now db none = (err invalid_refresh_token, db)
if_verified x cfg store token ids now db (some claims) =
    if is_refresh claims.typ
    then rotated x cfg store claims ids now (consume_refresh_token x.sha256 store token now db)
    else (err invalid_refresh_token, db)

unfoldable pub refresh :
    Packages → AuthConfig → Store → String → TokenIds → Date → AuthDb → Result TokenPair × AuthDb
refresh x cfg store token ids now db =
    if_verified x cfg store token ids now db (x.verify token cfg.refresh_secret now)

abbrev pub sign_out : Store → ObjectId → Option ObjectId → Date → AuthDb → AuthDb
sign_out store user none now db = db
sign_out store user (some sid) now db = record db {
  sessions =
      (store.sessions.update_one (λ s. s.id == sid && s.user == user)
        (λ s. record s { revoked_at = some now }) db.sessions).1;
}

unfoldable pub logout :
    Packages → Store → String → ObjectId → Option ObjectId → Date → AuthDb → AuthDb
unfolding delete_refresh_token_for_user
logout x store token user sid now db =
    sign_out store user sid now (delete_refresh_token_for_user x.sha256 store token user db)
