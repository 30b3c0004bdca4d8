-- ===== src/Auth/Tests.antt =====
-- A user who signs in, rotates the refresh token, and signs out.
use ecommerce_rest_api.Base.{
  String, ◌≡◌, true, false, Option, none, some, [], ◌∷◌, refl, str_eq, if◌then◌else◌,
}
use ecommerce_rest_api.Domain.{Date, Role}
use ecommerce_rest_api.Errors.{ok, err}
use ecommerce_rest_api.Access.{User, UserSession, Claims, names, auth}
use ecommerce_rest_api.Sessions.{AuthDb, Client, RefreshToken}
use ecommerce_rest_api.Sessions.Reference.{reference_store, reference_store-IsStore}
use ecommerce_rest_api.Auth.{
  if_verified, rotated, in_session, with_account, matched, refresh, login, logout,
  invalid_refresh_token,
}
use ecommerce_rest_api.Tokens.{issued, Packages, AuthConfig, TokenIds}
use ecommerce_rest_api.Durations.{parse_duration_ms}
use ecommerce_rest_api.Auth.Rotation.{quiet, logged_out, refresh-once}
use ecommerce_rest_api.Auth.SignOut.{IsRefused, logout-IsRefused}

-- Tokens are their own random ids here, and all of user 7's session 3.
abbrev sha : String → String
sha token = if str_eq token "old" then "digest of old" else "digest of new"

abbrev verified : String → String → Date → Option Claims
verified token secret now =
    if str_eq token "old"
    then some (record { id = 7; role = some Role.user; typ = some "refresh"; sid = names 3 })
    else none

abbrev packages : Packages
packages = record {
  sha256 = sha;
  sign = λ payload ttl secret id now. id;
  verify = verified;
  hash = λ password salt. password;
  compare = str_eq;
  cast_error = record { status = 500; message = "Cast to ObjectId failed" };
}

abbrev config : AuthConfig
config = record {
  jwt_secret = "access secret";
  refresh_secret = "refresh secret";
  access_token_ttl = "15m";
  refresh_token_ttl = "7d";
  default_tenant = "default";
}

abbrev ann : User
ann = record {
  id = 7;
  name = "Ann";
  email = "ann@example.com";
  password = "correct";
  role = Role.user;
  tenant = "default";
  is_active = true;
  deleted_at = none;
}

abbrev phone : UserSession
phone = record {
  id = 3;
  user = 7;
  refresh_token = some 5;
  device_id = "phone";
  ip = "10.0.0.1";
  risk_score = 10;
  step_up_required = false;
  last_seen_at = 0;
  revoked_at = none;
}

abbrev old_row : RefreshToken
old_row = record { id = 5; token = "digest of old"; user = 7; expires_at = 1000; revoked_at = none }

abbrev store_db : AuthDb
store_db = record {
  users = ann ∷ [];
  refresh_tokens = old_row ∷ [];
  sessions = phone ∷ [];
  signals = [];
  tenants = [];
  next_id = 100;
}

abbrev ids : TokenIds
ids = record { access = "new access"; refresh = "new" }

abbrev bearer : Claims
bearer = record { id = 7; role = some Role.user; typ = some "access"; sid = names 3 }

abbrev client : Client
client = record { ip = "10.0.0.1"; device = some "phone"; user_agent = none }

refresh-rotates :
    (refresh packages config reference_store "old" ids 500 store_db).0
    ≡ ok (record { access_token = "new access"; refresh_token = "new" })
unfolding refresh if_verified rotated in_session issued parse_duration_ms
refresh-rotates = refl

login-wrong :
    (login packages config reference_store "ann@example.com" "wrong" "default" client ids 500
      store_db).0
    ≡ err (record { status = 401; message = "Username or Password is wrong!" })
unfolding login with_account matched
login-wrong = refl

refresh-once_example :
    refresh packages config reference_store "old" ids 700 (
      logout packages reference_store "other" 7
        (some 3)
        600
        (refresh packages config reference_store "old" ids 500 store_db).1)
    ≡ (
      err invalid_refresh_token,
      logout packages reference_store "other" 7
          (some 3)
          600
          (refresh packages config reference_store "old" ids 500 store_db).1,
    )
unfolding refresh if_verified rotated in_session issued parse_duration_ms
refresh-once_example =
    refresh-once packages config reference_store "old" ids ids 500 700 store_db
      (logout packages reference_store "other" 7 (some 3) 600
        (refresh packages config reference_store "old" ids 500 store_db).1)
      (record { access_token = "new access"; refresh_token = "new" }) reference_store-IsStore tt
      (λ user sid. refl) refl (logged_out "other" 7 (some 3) 600 quiet)

logout-IsRefused_example :
    IsRefused (
      auth reference_store.users reference_store.sessions
        (logout packages reference_store "old" 7 (some 3) 600 store_db).users
        (logout packages reference_store "old" 7 (some 3) 600 store_db).sessions
        (some bearer))
    × IsRefused
        (refresh packages config reference_store "old" ids 700
          (logout packages reference_store "old" 7 (some 3) 600 store_db)).0
logout-IsRefused_example =
    logout-IsRefused packages config reference_store "old" "old" ids 3 600 700 store_db phone bearer
      (record { id = 7; role = some Role.user; typ = some "refresh"; sid = names 3 })
      reference_store-IsStore refl refl refl refl
