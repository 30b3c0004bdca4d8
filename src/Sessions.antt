-- ===== src/Sessions.antt =====
-- src/services/securityService.ts (signals and sessions), src/repositories/AuthRepository.ts and the
-- models behind them: what signing in stores. The collections are the server's (`Store`); SHA-256
-- is an argument. A session's user agent is left out, as nothing reads it.
pub mod Reference
use ecommerce_rest_api.Base.{
  ℕ, String, ◌+◌, Bool, true, false, not, ◌&&◌, ◌||◌, Option, none, some, List, if◌then◌else◌, ltb,
  leb, ◌==◌, is_some, str_eq, get_or,
}
use ecommerce_rest_api.Domain.{ObjectId, Date, Tenant, Role}
use ecommerce_rest_api.Mongo.{Collection, IsCollection}
use ecommerce_rest_api.Access.{User, UserSession, is_live_user}
use Prim.Native.Char.{Char, code}
use Prim.Native.String as Text

pub data SignalSeverity : Type 0 where
  info low medium high critical : SignalSeverity

pub record SecuritySignal : Type 0 where
  pub id : ObjectId
  pub kind : String
  pub severity : SignalSeverity
  pub user : Option ObjectId
  pub tenant : String
  pub ip : String
  pub created_at : Date

pub record RefreshToken : Type 0 where
  pub id : ObjectId
  pub token : String
  pub user : ObjectId
  pub expires_at : Date
  pub revoked_at : Option Date

pub record Store : Type 0 where
  pub users : Collection User
  pub refresh_tokens : Collection RefreshToken
  pub sessions : Collection UserSession
  pub signals : Collection SecuritySignal
  pub tenants : Collection Tenant

pub record IsStore (store : Store) : Type 0 where
  pub users : IsCollection store.users
  pub refresh_tokens : IsCollection store.refresh_tokens
  pub sessions : IsCollection store.sessions
  pub signals : IsCollection store.signals
  pub tenants : IsCollection store.tenants

-- The contents of the collections. A new document takes `next_id` for its ObjectId.
pub record AuthDb : Type 0 where
  pub users : List User
  pub refresh_tokens : List RefreshToken
  pub sessions : List UserSession
  pub signals : List SecuritySignal
  pub tenants : List Tenant
  pub next_id : ObjectId

-- What the services read of a request.
pub record Client : Type 0 where
  pub ip : String
  pub device : Option String
  pub user_agent : Option String

unfoldable pub record_security_signal :
    Store → String → SignalSeverity → Option ObjectId → String → String → Date → AuthDb → AuthDb
record_security_signal store kind severity user tenant ip now db =
    let signal : SecuritySignal = record {
      id = db.next_id;
      kind = kind;
      severity = severity;
      user = user;
      tenant = tenant;
      ip = ip;
      created_at = now;
    } in
    record db { signals = store.signals.create signal db.signals; next_id = db.next_id + 1 }

-- `[A-Za-z0-9._:-]`
abbrev is_label : Char → Bool
is_label c =
    let n = code c in
    leb 65 n && leb n 90
    || leb 97 n && leb n 122
    || leb 48 n && leb n 58
    || n == 46
    || n == 95
    || n == 45

abbrev all_labels : String → Bool
all_labels Text.[] = true
all_labels (Text.◌∷◌ c s) = is_label c && all_labels s

abbrev is_device_id : String → Bool
is_device_id claimed =
    all_labels claimed && leb 1 (Text.count claimed) && leb (Text.count claimed) 128

-- `userAgent || "unknown"`
abbrev agent_of : Option String → String
agent_of none = "unknown"
agent_of (some agent) = if str_eq agent "" then "unknown" else agent

abbrev hashed_device : (String → String) → Client → String
hashed_device sha256 req = sha256 (Text.◌++◌ (agent_of req.user_agent) (Text.◌++◌ ":" req.ip))

abbrev claimed_device : (String → String) → Client → Option String → String
claimed_device sha256 req none = hashed_device sha256 req
claimed_device sha256 req (some claimed) =
    if is_device_id claimed then claimed else hashed_device sha256 req

unfoldable pub device_id_for : (String → String) → Client → String
device_id_for sha256 req = claimed_device sha256 req req.device

abbrev pub is_recent_failure : String → Date → SecuritySignal → Bool
is_recent_failure ip now signal =
    str_eq signal.kind "auth.login_failed"
    && str_eq signal.ip ip
    && leb now (signal.created_at + 1800000)

abbrev pub risk_score_of : ℕ → ℕ
risk_score_of recent_failed_logins = if leb 5 recent_failed_logins then 80 else 10

abbrev pub is_device_session : ObjectId → String → UserSession → Bool
is_device_session user device_id s = s.user == user && str_eq s.device_id device_id

-- Signing in again on a device reopens its session.
abbrev pub seen : Client → ℕ → Date → UserSession → UserSession
seen req risk now s = record s {
  ip = req.ip;
  risk_score = risk;
  step_up_required = leb 70 risk;
  last_seen_at = now;
  revoked_at = none;
}

abbrev pub upserted :
    Store → UserSession → Option UserSession × List UserSession → AuthDb → UserSession × AuthDb
upserted store created (some session, sessions) db = (session, record db { sessions = sessions })
upserted store created (none, sessions) db = (
  created,
  record db { sessions = store.sessions.create created sessions; next_id = db.next_id + 1 },
)

-- `findOneAndUpdate` with `upsert`: the update applied to the first match, or to a new document.
unfoldable pub track_session :
    (String → String) → Store → ObjectId → Client → Date → AuthDb → UserSession × AuthDb
unfolding device_id_for
track_session sha256 store user req now db =
    let device_id = device_id_for sha256 req in
    let failed = store.signals.count_documents (is_recent_failure req.ip now) db.signals in
    let update = seen req (risk_score_of failed) now in
    let blank : UserSession = record {
      id = db.next_id;
      user = user;
      refresh_token = none;
      device_id = device_id;
      ip = req.ip;
      risk_score = 0;
      step_up_required = false;
      last_seen_at = now;
      revoked_at = none;
    } in
    upserted store (update blank)
      (store.sessions.find_one_and_update (is_device_session user device_id) update db.sessions) db

unfoldable pub link_session_to_refresh_token : Store → ObjectId → ObjectId → Date → AuthDb → AuthDb
link_session_to_refresh_token store session refresh_token now db = record db {
  sessions =
      (store.sessions.update_one (λ s. s.id == session)
        (λ s. record s { refresh_token = some refresh_token; last_seen_at = now }) db.sessions).1;
}

-- Rows are stored under the digest; older rows hold the token itself.
abbrev pub has_token : (String → String) → String → RefreshToken → Bool
has_token sha256 token row = str_eq row.token (sha256 token) || str_eq row.token token

abbrev pub has_email : String → User → Bool
has_email email u = str_eq u.email email

unfoldable pub find_user_by_email : Store → String → AuthDb → Option User
find_user_by_email store email db =
    store.users.find_one (λ u. has_email email u && (u.is_active && not (is_some u.deleted_at)))
      db.users

unfoldable pub find_user_by_id : Store → ObjectId → AuthDb → Option User
find_user_by_id store id db = store.users.find_one (is_live_user id) db.users

unfoldable pub user_exists_by_email : Store → String → AuthDb → Bool
user_exists_by_email store email db = is_some (store.users.find_one (has_email email) db.users)

unfoldable pub create_user : Store → String → String → String → String → AuthDb → User × AuthDb
create_user store name email password tenant db =
    let user : User = record {
      id = db.next_id;
      name = name;
      email = email;
      password = password;
      role = Role.user;
      tenant = tenant;
      is_active = true;
      deleted_at = none;
    } in
    (user, record db { users = store.users.create user db.users; next_id = db.next_id + 1 })

unfoldable pub create_refresh_token :
    (String → String) → Store → String → ObjectId → Date → AuthDb → RefreshToken × AuthDb
create_refresh_token sha256 store token user expires_at db =
    let row : RefreshToken = record {
      id = db.next_id;
      token = sha256 token;
      user = user;
      expires_at = expires_at;
      revoked_at = none;
    } in
    (
      row,
      record db {
        refresh_tokens = store.refresh_tokens.create row db.refresh_tokens;
        next_id = db.next_id + 1;
      },
    )

abbrev pub is_unused : (String → String) → String → Date → RefreshToken → Bool
is_unused sha256 token now row =
    has_token sha256 token row && (not (is_some row.revoked_at) && ltb now row.expires_at)

abbrev pub used : Date → RefreshToken → RefreshToken
used now row = record row { revoked_at = some now }

unfoldable pub consume_refresh_token :
    (String → String) → Store → String → Date → AuthDb → Option RefreshToken × AuthDb
consume_refresh_token sha256 store token now db =
    let (row, rows) =
      store.refresh_tokens.find_one_and_update (is_unused sha256 token now) (used now)
        db.refresh_tokens in
    (row, record db { refresh_tokens = rows })

unfoldable pub delete_refresh_token_for_user :
    (String → String) → Store → String → ObjectId → AuthDb → AuthDb
delete_refresh_token_for_user sha256 store token user db = record db {
  refresh_tokens =
      store.refresh_tokens.delete_one (λ row. has_token sha256 token row && row.user == user)
        db.refresh_tokens;
}
