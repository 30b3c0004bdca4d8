-- ===== src/Errors/Handler.antt =====
-- src/middlewares/errorHandler.ts, with the constructor and `codeForStatus` of
-- src/shared/errors/AppError.ts and `errorResponse` of src/utils/apiResponse.ts. Logs are left out.
pub mod Hidden
mod Tests
use ecommerce_rest_api.Base.{
  ℕ, String, Bool, true, false, not, ◌&&◌, ◌||◌, Option, none, some, List, [], ◌∷◌, if◌then◌else◌,
  ◌==◌, leb, ltb, str_eq, map,
}
use Prim.Native.Char.{Char, code as char_code}
use Prim.Native.String as Text

pub record FieldIssue : Type 0 where
  pub field : String
  pub message : String

pub data Details : Type 0 where
  no_details : Details
  issues : List FieldIssue → Details
  stack : Option String → Details

-- An `AppError` with its code and details, which the services' failures are a part of.
pub record AppFailure : Type 0 where
  pub status : ℕ
  pub message : String
  pub code : String
  pub details : Details

-- A field that should be a number.
pub data Field : Type 0 where
  absent not_number : Field
  number : ℕ → Field

-- Any other thrown value: what the handler reads of it.
pub record HttpLikeError : Type 0 where
  pub typ : Option String
  pub status : Field
  pub status_code : Field
  pub expose : Bool
  pub code : Field
  pub key_value : List (String × String)
  pub message : String
  pub stack : Option String

pub data Thrown : Type 0 where
  app_error : AppFailure → Option String → Thrown
  request_validation mongoose_validation : List FieldIssue → Option String → Thrown
  cast_error : String → Option String → Thrown
  version_error : Option String → Thrown
  http_like : HttpLikeError → Thrown

abbrev pub code_for_status : ℕ → String
code_for_status n =
    if n == 400
    then "BAD_REQUEST"
    else if n == 401
    then "UNAUTHORIZED"
    else if n == 403
    then "FORBIDDEN"
    else if n == 404
    then "NOT_FOUND"
    else if n == 409
    then "CONFLICT"
    else if n == 413
    then "PAYLOAD_TOO_LARGE"
    else if n == 422
    then "VALIDATION_FAILED"
    else if n == 423
    then "LOCKED"
    else if n == 429
    then "TOO_MANY_REQUESTS"
    else if n == 503
    then "SERVICE_UNAVAILABLE"
    else if leb 500 n
    then "INTERNAL_ERROR"
    else "BAD_REQUEST"

-- `/[<>{}]/`
abbrev is_markup : Char → Bool
is_markup c = let n = char_code c in n == 60 || n == 62 || n == 123 || n == 125

abbrev pub without_markup : String → String
without_markup Text.[] = Text.[]
without_markup (Text.◌∷◌ c s) =
    let rest = without_markup s in if is_markup c then rest else Text.◌∷◌ c rest

-- `new AppError`
abbrev pub failure : ℕ → String → Details → AppFailure
failure status message details = record {
  status = status;
  message = without_markup (if str_eq message "" then "Error" else message);
  code = code_for_status status;
  details = details;
}

-- `join(", ")`
abbrev joined : List String → String
joined [] = ""
joined (key ∷ []) = key
joined (key ∷ other ∷ keys) = Text.◌++◌ key (Text.◌++◌ ", " (joined (other ∷ keys)))

abbrev pub duplicate_keys : List String → AppFailure
duplicate_keys [] = failure 409 "Duplicate value" no_details
duplicate_keys keys = failure 409 (Text.◌++◌ "Duplicate value for " (joined keys)) no_details

abbrev pub or_else : Field → Field → Field
or_else absent second = second
or_else first second = first

abbrev pub is_type : Option String → String → Bool
is_type none name = false
is_type (some typ) name = str_eq typ name

abbrev pub by_status : HttpLikeError → Field → AppFailure
by_status e (number status) =
    if leb 400 status && ltb status 500
    then if e.expose
      then failure status e.message no_details
      else failure status (if status == 404 then "Not found" else "Bad request") no_details
    else failure 500 "Internal server error" no_details
by_status e _ = failure 500 "Internal server error" no_details

abbrev pub is_duplicate : Field → Bool
is_duplicate (number code) = code == 11000
is_duplicate _ = false

abbrev pub keys_of : HttpLikeError → List String
keys_of e = map (λ (entry : String × String). entry.0) e.key_value

abbrev pub from_http : HttpLikeError → AppFailure
from_http e =
    if is_duplicate e.code
    then duplicate_keys (keys_of e)
    else if is_type e.typ "entity.parse.failed"
    then failure 400 "Malformed JSON body" no_details
    else if is_type e.typ "entity.too.large"
    then failure 413 "Request body too large" no_details
    else by_status e (or_else e.status e.status_code)

unfoldable pub to_app_error : Thrown → AppFailure
to_app_error (app_error thrown trace) = thrown
to_app_error (request_validation details trace) = failure 422 "Validation failed" (issues details)
to_app_error (mongoose_validation details trace) = failure 422 "Validation failed" (issues details)
to_app_error (cast_error path trace) = failure 400 (Text.◌++◌ "Invalid value for " path) no_details
to_app_error (version_error trace) =
    failure 409 "The resource was modified concurrently, please retry" no_details
to_app_error (http_like e) = from_http e

abbrev pub stack_of : Thrown → Option String
stack_of (app_error thrown trace) = trace
stack_of (request_validation details trace) = trace
stack_of (mongoose_validation details trace) = trace
stack_of (cast_error path trace) = trace
stack_of (version_error trace) = trace
stack_of (http_like e) = e.stack

unfoldable pub should_expose_stack : Bool → String → Bool
should_expose_stack debug_mode env = debug_mode && not (str_eq env "production")

-- The status and the body of the answer.
unfoldable pub error_handler : Bool → String → Thrown → AppFailure
unfolding to_app_error should_expose_stack
error_handler debug_mode env thrown =
    let found = to_app_error thrown in
    if should_expose_stack debug_mode env && leb 500 found.status
    then record found { details = Details.stack (stack_of thrown) }
    else found
