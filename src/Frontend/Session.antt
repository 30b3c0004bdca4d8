-- ===== src/Frontend/Session.antt =====
-- frontend/src/app/core/auth: auth.service.ts and token-storage.ts. A method that sends a request is
-- split at the answer: what it does before, and what the callbacks do with the answer. Navigation
-- is left out.
use ecommerce_rest_api.Base.{
  String, Bool, true, false, Option, none, some, List, if◌then◌else◌, str_eq, any,
}
use ecommerce_rest_api.Domain.{ObjectId, Role}
use ecommerce_rest_api.Access.{role_eq}
use ecommerce_rest_api.Tokens.{TokenPair}

-- Of the interface `User` what the client's logic reads.
pub record Profile : Type 0 where
  pub id : ObjectId
  pub role : Role

pub data AuthStatus : Type 0 where
  initializing authenticated anonymous : AuthStatus

-- The tab's sessionStorage: whether reading and writing throw, and the item `shop.rt`.
pub record TabStorage : Type 0 where
  pub can_read : Bool
  pub can_write : Bool
  pub item : Option String

pub record AuthService : Type 0 where
  pub access : Option String
  pub storage : TabStorage
  pub user : Option Profile
  pub status : AuthStatus
  pub step_up_required : Bool
  -- `refreshInFlight$`, by the refresh token that it exchanges.
  pub refresh_in_flight : Option String

-- `!text`: neither null nor empty.
abbrev pub non_empty : Option String → Option String
non_empty none = none
non_empty (some text) = if str_eq text "" then none else some text

abbrev pub refresh_token : TabStorage → Option String
refresh_token storage = if storage.can_read then storage.item else none

abbrev pub write_item : Option String → TabStorage → TabStorage
write_item item storage = if storage.can_write then record storage { item = item } else storage

unfoldable pub save : TokenPair → AuthService → AuthService
save tokens s = record s {
  access = some tokens.access_token;
  storage = write_item (some tokens.refresh_token) s.storage;
}

unfoldable pub clear_session : AuthService → AuthService
clear_session s = record s {
  access = none;
  storage = write_item none s.storage;
  user = none;
  step_up_required = false;
  status = anonymous;
}

unfoldable pub is_authenticated : AuthService → Bool
is_authenticated s = elim s.status [ authenticated ↦ true | _ ↦ false ]

abbrev has_role_of : List Role → Option Profile → Bool
has_role_of roles none = false
has_role_of roles (some profile) = any (role_eq profile.role) roles

unfoldable pub has_role : List Role → AuthService → Bool
has_role roles s = has_role_of roles s.user

-- `login` and `register` at the answer; the register response has no risk flag.
unfoldable pub signed_in : TokenPair → Option Bool → AuthService → AuthService
unfolding save
signed_in tokens none s = save tokens s
signed_in tokens (some risky) s = record (save tokens s) { step_up_required = risky }

-- `loadProfile` at the answer.
unfoldable pub profile_loaded : Profile → AuthService → AuthService
profile_loaded profile s = record s { user = some profile; status = authenticated }

-- What a caller of `refreshAccessToken` gets: an error, a new request, or the one on its way.
pub data Refreshing : Type 0 where
  refused : Refreshing
  sent joined : String → Refreshing

abbrev pub share : String → Option String → AuthService → Refreshing × AuthService
share token none s = (sent token, record s { refresh_in_flight = some token })
share token (some other) s = (joined other, s)

abbrev pub refresh_with : Option String → AuthService → Refreshing × AuthService
refresh_with none s = (refused, s)
refresh_with (some token) s = share token s.refresh_in_flight s

unfoldable pub refresh_access_token : AuthService → Refreshing × AuthService
refresh_access_token s = refresh_with (non_empty (refresh_token s.storage)) s

-- The exchange is answered: `saveTokens`, then `finalize`.
unfoldable pub refresh_answered : TokenPair → AuthService → AuthService
unfolding save
refresh_answered tokens s = record (save tokens s) { refresh_in_flight = none }

-- The exchange fails. A caller that still listens ends the session, and `finalize` comes after.
unfoldable pub refresh_failed : Bool → AuthService → AuthService
unfolding clear_session
refresh_failed true s = record (clear_session s) { refresh_in_flight = none }
refresh_failed false s = record s { refresh_in_flight = none }

abbrev both : Option String → Option String → Bool
both (some _) (some _) = true
both _ _ = false

-- The flag: whether the token is revoked on the server in the background.
unfoldable pub logout : AuthService → Bool × AuthService
unfolding clear_session
logout s = (both (non_empty (refresh_token s.storage)) (non_empty s.access), clear_session s)

-- `init`, until the exchange is on its way.
abbrev pub resumed : Option String → AuthService → Refreshing × AuthService
resumed none s = (refused, record s { status = anonymous })
resumed (some token) s = refresh_with (some token) s

unfoldable pub init : AuthService → Refreshing × AuthService
init s = resumed (non_empty (refresh_token s.storage)) s
