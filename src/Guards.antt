-- ===== src/Guards.antt =====
-- Who may call: src/utils/cors.ts, and of src/middlewares adminNetworkPolicy.ts, tenantContext.ts,
-- serviceAuth.ts and preventParameterPollution.ts, with createServiceToken of
-- src/infra/serviceClient.ts. The configuration's texts are arguments.
pub mod Lists
pub mod Services
mod Tests
use ecommerce_rest_api.Base.{
  ℕ, ◌+◌, ◌<◌, String, Bool, true, false, not, ◌&&◌, ◌||◌, Option, none, some, List, [], ◌∷◌,
  if◌then◌else◌, ◌==◌, leb, str_eq, any, get_or, ◌≡◌,
}
use ecommerce_rest_api.Domain.{Date}
use ecommerce_rest_api.Errors.{
  Result, ok, err, require, ◌>>◌, bad_request, un_authorized, forbidden,
}
use ecommerce_rest_api.Durations.{is_space, trim_start}
use Prim.Native.Char.{Char, code}
use Prim.Native.String as Text

abbrev pub is_comma : Char → Bool
is_comma c = code c == 44

abbrev pub cons_first : Char → List String → List String
cons_first c [] = Text.◌∷◌ c Text.[] ∷ []
cons_first c (part ∷ parts) = Text.◌∷◌ c part ∷ parts

-- `split(",")`
abbrev pub split_commas : String → List String
split_commas Text.[] = Text.[] ∷ []
split_commas (Text.◌∷◌ c s) =
    let rest = split_commas s in if is_comma c then Text.[] ∷ rest else cons_first c rest

abbrev put_before : Bool → Char → String → String
put_before true c Text.[] = Text.[]
put_before space c s = Text.◌∷◌ c s

abbrev pub trim_end : String → String
trim_end Text.[] = Text.[]
trim_end (Text.◌∷◌ c s) = put_before (is_space c) c (trim_end s)

abbrev pub trimmed : List String → List String
trimmed [] = []
trimmed (part ∷ parts) =
    let rest = trimmed parts in
    let item = trim_end (trim_start part) in if str_eq item "" then rest else item ∷ rest

-- `parseOriginList`, and `parseList` of adminNetworkPolicy.ts
unfoldable pub parse_list : String → List String
parse_list value = trimmed (split_commas value)

abbrev pub includes : List String → String → Bool
includes items item = any (λ other. str_eq other item) items

unfoldable pub is_origin_allowed : Option String → List String → String → Bool
is_origin_allowed none allowlist env = true
is_origin_allowed (some origin) [] env = str_eq origin "" || not (str_eq env "production")
is_origin_allowed (some origin) allowlist env = str_eq origin "" || includes allowlist origin

abbrev is_nonempty : List String → Bool
is_nonempty [] = false
is_nonempty (_ ∷ _) = true

-- The text after a prefix.
abbrev pub strip : String → String → Option String
strip Text.[] s = some s
strip (Text.◌∷◌ p ps) Text.[] = none
strip (Text.◌∷◌ p ps) (Text.◌∷◌ c s) =
    let rest = strip ps s in if code p == code c then rest else none

abbrev or_kept : Option String → String → String
or_kept none kept = kept
or_kept (some rest) kept = rest

-- `replace(part, "")`, at the first place.
abbrev without : String → String → String
without part Text.[] = or_kept (strip part Text.[]) Text.[]
without part (Text.◌∷◌ c s) =
    let rest = without part s in or_kept (strip part (Text.◌∷◌ c s)) (Text.◌∷◌ c rest)

-- The address that the request comes from, if it is known.
unfoldable pub admin_network_policy : String → String → Option String → Result (Unit {0})
unfolding parse_list
admin_network_policy allowlist denylist address =
    let ip = without "::ffff:" (get_or address "") in
    let allow = parse_list allowlist in
    require (not (includes (parse_list denylist) ip)) (forbidden "Admin IP denied")
    >> require (not (is_nonempty allow && not (includes allow ip)))
        (forbidden "Admin IP not allowed")

abbrev pub or_else : String → String → String
or_else d s = if str_eq s "" then d else s

-- `lower` is `toLowerCase`.
unfoldable pub tenant_context : (String → String) → String → Option String → String
tenant_context lower default_tenant header =
    or_else default_tenant
      (trim_end (trim_start (lower (or_else default_tenant (get_or header "")))))

-- A query parameter and whether it was given as an array.
unfoldable pub prevent_parameter_pollution : List (String × Bool) → Result (Unit {0})
prevent_parameter_pollution [] = ok tt
prevent_parameter_pollution ((key, repeated) ∷ rest) =
    let next = prevent_parameter_pollution rest in
    if repeated && not (str_eq key "category")
    then err (bad_request (Text.◌++◌ "Duplicate query parameter is not allowed: " key))
    else next

-- What a verified token may carry.
pub record ServiceClaims : Type 0 where
  pub service : Option String
  pub scopes : Option (List String)
  pub typ : Option String
  pub tenant : Option String

-- The package jsonwebtoken: signing takes the lifetime, the secret and the time, verifying the token,
-- the secret and the time.
pub record Jwt : Type 0 where
  pub sign : ServiceClaims → ℕ → String → Date → String
  pub verify : String → String → Date → Option ServiceClaims

-- What the package documents of a token that it signed: until its lifetime is over it is verified
-- under the same secret, with the claims that it was made for.
pub record IsSigned (jwt : Jwt) (claims : ServiceClaims) (lifetime : ℕ) (secret : String)
    (now : Date) : Type 0 where
  pub verify_lem :
      (at : Date)
      → at < now + lifetime
      → jwt.verify (jwt.sign claims lifetime secret now) secret at ≡ some claims

abbrev pub five_minutes : ℕ
five_minutes = 300000

abbrev pub service_claims : String → List String → String → ServiceClaims
service_claims service scopes tenant = record {
  service = some service;
  scopes = some scopes;
  typ = some "service";
  tenant = some tenant;
}

unfoldable pub create_service_token : Jwt → String → String → List String → String → Date → String
create_service_token jwt secret service scopes tenant now =
    jwt.sign (service_claims service scopes tenant) five_minutes secret now

abbrev pub covers : List String → List String → Bool
covers scopes [] = true
covers scopes (scope ∷ required) = includes scopes scope && covers scopes required

-- What the middleware leaves on the request.
pub record ServiceCall : Type 0 where
  pub service : Option String
  pub tenant : String

abbrev pub in_tenant : Option String → Option String → Result ServiceCall
in_tenant service tenant =
    let name = get_or tenant "" in
    require (not (str_eq name "")) (forbidden "Service token is not scoped to a tenant")
    >> ok (record { service = service; tenant = name })

abbrev pub admit_claims : List String → Option ServiceClaims → Result ServiceCall
admit_claims required none = err (un_authorized "Invalid service token")
admit_claims required (some claims) =
    require (str_eq (get_or claims.typ "") "service") (un_authorized "Invalid service token")
    >> require (covers (get_or claims.scopes []) required) (forbidden "Service scope denied")
    >> in_tenant claims.service claims.tenant

abbrev pub admit_token : Jwt → String → List String → Date → Option String → Result ServiceCall
admit_token jwt secret required now none = err (un_authorized "Service token required")
admit_token jwt secret required now (some token) =
    admit_claims required (jwt.verify token secret now)

unfoldable pub service_auth : Jwt → String → List String → Option String → Date → Result ServiceCall
service_auth jwt secret required header now =
    admit_token jwt secret required now (strip "Bearer " (get_or header ""))
