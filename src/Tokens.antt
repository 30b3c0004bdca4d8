-- ===== src/Tokens.antt =====
-- Token pairs of src/services/AuthService.ts (createTokenPair, refreshExpiry, startSession). What the
-- packages compute (SHA-256, bcrypt, JSON web tokens) is a record of functions; random ids are
-- arguments.
use ecommerce_rest_api.Base.{String, ◌+◌, Bool, Option, none, some}
use ecommerce_rest_api.Domain.{ObjectId, Date, Role}
use ecommerce_rest_api.Errors.{Result, ok, err, AppError, server_error}
use ecommerce_rest_api.Access.{User, UserSession, Claims}
use ecommerce_rest_api.Sessions.{
  Store, AuthDb, Client, RefreshToken, track_session, link_session_to_refresh_token,
  create_refresh_token,
}
use ecommerce_rest_api.Durations.{parse_duration_ms}

pub record TokenPair : Type 0 where
  pub access_token : String
  pub refresh_token : String

pub record TokenPayload : Type 0 where
  pub id : ObjectId
  pub role : Role
  pub sid : Option ObjectId
  pub typ : String

-- The packages and Node. `sign` takes the lifetime, the secret, the token's own id and the time.
pub record Packages : Type 0 where
  pub sha256 : String → String
  pub sign : TokenPayload → String → String → String → Date → String
  pub verify : String → String → Date → Option Claims
  pub hash : String → String → String
  pub compare : String → String → Bool
  -- What Mongoose throws for an id that is no ObjectId.
  pub cast_error : AppError

pub record AuthConfig : Type 0 where
  pub jwt_secret : String
  pub refresh_secret : String
  pub access_token_ttl : String
  pub refresh_token_ttl : String
  pub default_tenant : String

-- The random ids of a pair's tokens.
pub record TokenIds : Type 0 where
  pub access : String
  pub refresh : String

abbrev expiry_of : Date → Option Date → Result Date
expiry_of now none = err (server_error "Invalid duration")
expiry_of now (some ms) = ok (now + ms)

-- The configuration's schema accepts only durations that parse.
unfoldable pub refresh_expiry : AuthConfig → Date → Result Date
refresh_expiry cfg now = expiry_of now (parse_duration_ms cfg.refresh_token_ttl)

unfoldable pub payload_of : User → Option ObjectId → String → TokenPayload
payload_of user sid typ = record { id = user.id; role = user.role; sid = sid; typ = typ }

unfoldable pub create_token_pair :
    Packages → AuthConfig → User → Option ObjectId → TokenIds → Date → TokenPair
unfolding payload_of
create_token_pair x cfg user sid ids now = record {
  access_token =
      x.sign (payload_of user sid "access") cfg.access_token_ttl cfg.jwt_secret ids.access now;
  refresh_token =
      x.sign (payload_of user sid "refresh") cfg.refresh_token_ttl cfg.refresh_secret ids.refresh
        now;
}

unfoldable pub linked : Store → Option ObjectId → Date → RefreshToken × AuthDb → AuthDb
unfolding link_session_to_refresh_token
linked store none now (row, db) = db
linked store (some sid) now (row, db) = link_session_to_refresh_token store sid row.id now db

unfoldable pub issued :
    Packages
    → Store
    → User
    → Option ObjectId
    → TokenPair
    → Date
    → Result Date
    → AuthDb
    → Result TokenPair × AuthDb
unfolding create_refresh_token
issued x store user sid tokens now (err failure) db = (err failure, db)
issued x store user sid tokens now (ok expires_at) db = (
  ok tokens,
  linked store sid now
      (create_refresh_token x.sha256 store tokens.refresh_token user.id expires_at db),
)

-- The tokens, the refresh token's row, and the session's link to it.
unfoldable pub issue :
    Packages
    → AuthConfig
    → Store
    → User
    → Option ObjectId
    → TokenIds
    → Date
    → AuthDb
    → Result TokenPair × AuthDb
unfolding create_token_pair refresh_expiry
issue x cfg store user sid ids now db =
    issued x store user sid (create_token_pair x cfg user sid ids now) now (refresh_expiry cfg now)
      db

unfoldable pub start_session :
    Packages
    → AuthConfig
    → Store
    → User
    → Client
    → TokenIds
    → Date
    → AuthDb
    → UserSession × (Result TokenPair × AuthDb)
unfolding track_session issue
start_session x cfg store user req ids now db =
    let (session, db') = track_session x.sha256 store user.id req now db in
    (session, issue x cfg store user (some session.id) ids now db')
