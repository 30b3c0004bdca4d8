-- ===== src/Access.antt =====
-- src/middlewares/auth.ts, authorize.ts, stepUpAuth.ts and apiKeyAuth.ts: who may go on to a handler.
-- `ok` stands for `next()`. Claims are what the verified bearer token holds, none when the header or
-- the token is not valid; a key's hash is an argument, as hashing is Node's.
pub mod Gates
mod Tests
use ecommerce_rest_api.Base.{
  ℕ, String, Bool, true, false, not, ◌&&◌, ◌||◌, Option, none, some, List, [], ◌∷◌, if◌then◌else◌,
  ◌==◌, any, is_some, str_eq, ltb,
}
use ecommerce_rest_api.Domain.{ObjectId, Date, Role}
use ecommerce_rest_api.Errors.{Result, ok, err, un_authorized, forbidden}
use ecommerce_rest_api.Mongo.{Collection}

pub record AuthUser : Type 0 where
  pub id : ObjectId
  pub role : Role

pub record UserSession : Type 0 where
  pub id : ObjectId
  pub user : ObjectId
  pub refresh_token : Option ObjectId
  pub device_id : String
  pub ip : String
  pub risk_score : ℕ
  pub step_up_required : Bool
  pub last_seen_at : Date
  pub revoked_at : Option Date

abbrev role_index : Role → ℕ
role_index Role.user = 0
role_index Role.admin = 1
role_index Role.seller = 2

abbrev pub role_eq : Role → Role → Bool
role_eq a b = role_index a == role_index b

abbrev pub includes : Role → List Role → Bool
includes role = any (role_eq role)

unfoldable pub authorize : List Role → Option AuthUser → Result (Unit {0})
authorize roles none = err (un_authorized "unAuthorized")
authorize roles (some user) =
    if includes user.role roles then ok tt else err (forbidden "Insufficient permissions")

abbrev pub is_live_session : ObjectId → ObjectId → UserSession → Bool
is_live_session id user s = s.id == id && (s.user == user && not (is_some s.revoked_at))

-- A session id that is missing or no ObjectId is `none`.
abbrev pub find_session :
    Collection UserSession → List UserSession → Option ObjectId → ObjectId → Option UserSession
find_session c sessions none user = none
find_session c sessions (some id) user = c.find_one (is_live_session id user) sessions

abbrev pub needs_step_up : Option UserSession → Bool
needs_step_up none = true
needs_step_up (some s) = s.step_up_required

unfoldable pub step_up_auth :
    Collection UserSession
    → List UserSession
    → Option ObjectId
    → Option AuthUser
    → Result (Unit {0})
step_up_auth c sessions session_id none = err (un_authorized "unAuthorized")
step_up_auth c sessions session_id (some user) =
    if needs_step_up (find_session c sessions session_id user.id)
    then err (forbidden "Step-up authentication required")
    else ok tt

pub record User : Type 0 where
  pub id : ObjectId
  pub name : String
  pub email : String
  pub password : String
  pub role : Role
  pub tenant : String
  pub is_active : Bool
  pub deleted_at : Option Date

-- The `sid` claim: absent, no ObjectId, or one.
pub data SessionClaim : Type 0 where
  absent malformed : SessionClaim
  names : ObjectId → SessionClaim

pub record Claims : Type 0 where
  pub id : ObjectId
  pub role : Option Role
  pub typ : Option String
  pub sid : SessionClaim

-- What the middleware leaves on the request.
pub record Identity : Type 0 where
  pub user : AuthUser
  pub session_id : Option ObjectId
  pub tenant : String

-- `!typ || typ === "access"`
abbrev pub is_access : Option String → Bool
is_access none = true
is_access (some t) = str_eq t "" || str_eq t "access"

abbrev pub is_bad : SessionClaim → Bool
is_bad malformed = true
is_bad _ = false

abbrev pub session_of : SessionClaim → Option ObjectId
session_of (names id) = some id
session_of _ = none

abbrev pub is_live_user : ObjectId → User → Bool
is_live_user id u = u.id == id && (u.is_active && not (is_some u.deleted_at))

abbrev pub is_revoked_session : ObjectId → ObjectId → UserSession → Bool
is_revoked_session id user s = s.id == id && (s.user == user && is_some s.revoked_at)

abbrev pub is_revoked : Collection UserSession → List UserSession → SessionClaim → ObjectId → Bool
is_revoked c sessions (names id) user = is_some (c.find_one (is_revoked_session id user) sessions)
is_revoked c sessions _ user = false

abbrev pub found_user : SessionClaim → Bool → Option User → Result Identity
found_user sid revoked none = err (un_authorized "Account is inactive or does not exist")
found_user sid revoked (some u) =
    if revoked
    then err (un_authorized "Session has been signed out")
    else ok (record {
      user = record { id = u.id; role = u.role };
      session_id = session_of sid;
      tenant = u.tenant;
    })

unfoldable pub identify :
    Collection User
    → Collection UserSession
    → List User
    → List UserSession
    → Claims
    → Result Identity
identify cu cs users sessions token =
    found_user token.sid (is_revoked cs sessions token.sid token.id)
      (cu.find_one (is_live_user token.id) users)

unfoldable pub auth :
    Collection User
    → Collection UserSession
    → List User
    → List UserSession
    → Option Claims
    → Result Identity
unfolding identify
auth cu cs users sessions none = err (un_authorized "unAuthorized")
auth cu cs users sessions (some token) =
    let identity = identify cu cs users sessions token in
    if is_access token.typ
    then (if is_bad token.sid then err (un_authorized "unAuthorized") else identity)
    else err (un_authorized "unAuthorized")

pub record ApiKey : Type 0 where
  pub id : ObjectId
  pub key_hash : String
  pub is_active : Bool
  pub expires_at : Option Date
  pub scopes : List String
  pub tenant : String
  pub last_used_at : Option Date

abbrev pub has_hash : String → ApiKey → Bool
has_hash hash k = str_eq k.key_hash hash && k.is_active

abbrev pub is_expired : Option Date → Date → Bool
is_expired none now = false
is_expired (some at) now = ltb at now

abbrev pub allows : List String → List String → Bool
allows granted [] = true
allows granted (scope ∷ scopes) = any (λ s. str_eq s scope) granted && allows granted scopes

abbrev pub used_key : Date → ApiKey → ApiKey
used_key now k = record k { last_used_at = some now }

abbrev pub admit_key :
    Collection ApiKey
    → List String
    → Date
    → List ApiKey
    → Option ApiKey
    → Result ApiKey × List ApiKey
admit_key c required now keys none = (err (un_authorized "Invalid API key"), keys)
admit_key c required now keys (some k) =
    if is_expired k.expires_at now
    then (err (un_authorized "Invalid API key"), keys)
    else if allows k.scopes required
    then (ok k, (c.update_one (λ x. x.id == k.id) (used_key now) keys).1)
    else (err (forbidden "API key scope denied"), keys)

-- `hash` is `hashApiKey` of the header, none when it is missing or empty.
unfoldable pub api_key_auth :
    Collection ApiKey
    → List String
    → Option String
    → Date
    → List ApiKey
    → Result ApiKey × List ApiKey
api_key_auth c required none now keys = (err (un_authorized "API key required"), keys)
api_key_auth c required (some hash) now keys =
    admit_key c required now keys (c.find_one (has_hash hash) keys)
