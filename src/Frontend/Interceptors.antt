-- ===== src/Frontend/Interceptors.antt =====
-- frontend/src/app/core: interceptors/auth.interceptor.ts and error.interceptor.ts, http/api-error.ts,
-- and `isApiUrl` of api/api-client.service.ts. The interceptor's callbacks run when an answer comes,
-- so each takes the session of its time.
pub mod Laws
use ecommerce_rest_api.Base.{
  ℕ, String, Bool, true, false, not, ◌&&◌, ◌||◌, Option, none, some, List, [], ◌∷◌, if◌then◌else◌,
  ◌==◌, leb, str_eq,
}
use ecommerce_rest_api.Tokens.{TokenPair}
use ecommerce_rest_api.Frontend.Session.{
  AuthService, Refreshing, refused, sent, joined, non_empty, clear_session, is_authenticated,
  refresh_access_token,
}
use Prim.Native.String as Text
use text.Mathlib.Text.{starts_with}

pub record FieldError : Type 0 where
  pub field : String
  pub message : String

pub record ApiError : Type 0 where
  pub status : ℕ
  pub code : String
  pub message : String
  pub field_errors : List FieldError

-- The body of a failed answer: the API's failure, whose details may be a list of field errors, or
-- anything else.
pub data Body : Type 0 where
  api_failure : String → String → Option (List FieldError) → Body
  other : Body

-- What a request's observable throws.
pub data Thrown : Type 0 where
  api_error : ApiError → Thrown
  http_error : ℕ → Body → Thrown
  unknown : Thrown

abbrev fallback_message : ℕ → Option String
fallback_message n =
    if n == 0
    then some "Cannot reach the server. Check your connection and try again."
    else if n == 401
    then some "Please sign in to continue."
    else if n == 403
    then some "You do not have permission to do that."
    else if n == 404
    then some "We could not find what you were looking for."
    else if n == 409
    then some "This changed in the meantime. Please refresh and try again."
    else if n == 413
    then some "That file or request is too large."
    else if n == 423
    then some "Another request is still being processed. Please wait a moment."
    else if n == 429
    then some "Too many attempts. Please wait a few minutes and try again."
    else if n == 503
    then some "The service is temporarily unavailable. Please try again shortly."
    else none

abbrev shown_message : ℕ → String → String
shown_message status message =
    if leb 500 status
    then "The service is temporarily unavailable. Please try again shortly."
    else message

abbrev or_default : Option String → String
or_default none = "Something went wrong. Please try again."
or_default (some message) = message

abbrev details_of : Option (List FieldError) → List FieldError
details_of none = []
details_of (some details) = details

abbrev from_body : ℕ → Body → ApiError
from_body status (api_failure code message details) = record {
  status = status;
  code = code;
  message = shown_message status message;
  field_errors = details_of details;
}
from_body status other = record {
  status = status;
  code = "UNKNOWN";
  message = or_default (fallback_message status);
  field_errors = [];
}

abbrev no_connection : ApiError
no_connection = record {
  status = 0;
  code = "NETWORK_ERROR";
  message = or_default (fallback_message 0);
  field_errors = [];
}

-- `ApiError.from`
unfoldable pub from_error : Thrown → ApiError
from_error (api_error failure) = failure
from_error unknown = record {
  status = 0;
  code = "UNKNOWN";
  message = or_default none;
  field_errors = [];
}
from_error (http_error status body) = if status == 0 then no_connection else from_body status body

pub record HttpRequest : Type 0 where
  pub url : String
  pub tenant_id : Option String
  pub authorization : Option String
  pub skip_auth : Bool
  pub skip_error_toast : Bool

-- The error that the interceptor passes on, and the toast that it shows.
unfoldable pub error_interceptor : HttpRequest → Thrown → Thrown × Option String
unfolding from_error
error_interceptor req failure =
    let failed = from_error failure in
    (
      api_error failed,
      if not req.skip_error_toast && not (failed.status == 401) then some failed.message else none,
    )

pub record AppSettings : Type 0 where
  pub api_base_url : String
  pub tenant_id : String

unfoldable pub is_api_url : AppSettings → String → Bool
is_api_url settings url =
    starts_with url (Text.◌++◌ settings.api_base_url "/") || str_eq url settings.api_base_url

abbrev authorized : Option String → HttpRequest → HttpRequest
authorized none req = req
authorized (some token) req = record req { authorization = some (Text.◌++◌ "Bearer " token) }

abbrev pub with_headers : HttpRequest → String → Option String → HttpRequest
with_headers req tenant token = record (authorized (non_empty token) req) {
  tenant_id = some tenant;
}

unfoldable pub send_request : AppSettings → HttpRequest → AuthService → HttpRequest
unfolding is_api_url
send_request settings req s =
    if is_api_url settings req.url
    then with_headers req settings.tenant_id (if req.skip_auth then none else s.access)
    else req

abbrev is_unauthorized : Thrown → Bool
is_unauthorized (http_error status body) = status == 401
is_unauthorized _ = false

-- Whether a failed answer makes the interceptor ask for a new access token.
unfoldable pub can_refresh : AppSettings → HttpRequest → Thrown → AuthService → Bool
unfolding is_api_url is_authenticated
can_refresh settings req failure s =
    is_api_url settings req.url
    && not req.skip_auth
    && is_unauthorized failure
    && is_authenticated s

-- What the interceptor does at an error of the request: pass it on, or wait for the refresh.
unfoldable pub on_error :
    AppSettings → HttpRequest → Thrown → AuthService → Option Refreshing × AuthService
unfolding can_refresh refresh_access_token
on_error settings req failure s =
    if can_refresh settings req failure s
    then (some (refresh_access_token s).0, (refresh_access_token s).1)
    else (none, s)

-- At the refresh's answer: the then_retry request, or the end of the session.
unfoldable pub on_refreshed :
    AppSettings → HttpRequest → Option TokenPair → AuthService → Option HttpRequest × AuthService
unfolding clear_session
on_refreshed settings req none s = (none, clear_session s)
on_refreshed settings req (some tokens) s =
    (some (with_headers req settings.tenant_id (some tokens.access_token)), s)

abbrev with_retry : HttpRequest → Option HttpRequest × AuthService → List HttpRequest × AuthService
with_retry first (none, s) = (first ∷ [], s)
with_retry first (some second, s) = (first ∷ second ∷ [], s)

-- What a request comes to: the requests that were sent, and the session.
unfoldable pub then_retry :
    AppSettings
    → HttpRequest
    → Option TokenPair
    → HttpRequest
    → AuthService
    → Option Refreshing
    → List HttpRequest × AuthService
unfolding on_refreshed
then_retry settings req refreshed first s none = (first ∷ [], s)
then_retry settings req refreshed first s (some refused) =
    (first ∷ [], (on_refreshed settings req none s).1)
then_retry settings req refreshed first s (some _) =
    with_retry first (on_refreshed settings req refreshed s)

-- `authInterceptor` for a request that is sent in the session `before` and fails in the session `s`;
-- `refreshed` is what the refresh, if one is asked for, comes to, and `answered` saves it.
unfoldable pub auth_interceptor :
    AppSettings
    → HttpRequest
    → AuthService
    → Thrown
    → Option TokenPair
    → AuthService
    → List HttpRequest × AuthService
unfolding send_request on_error then_retry
auth_interceptor settings req before failure refreshed s =
    let reaction = on_error settings req failure s in
    then_retry settings req refreshed (send_request settings req before) reaction.1 reaction.0
