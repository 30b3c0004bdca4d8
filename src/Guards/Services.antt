-- ===== src/Guards/Services.antt =====
-- Which calls between services pass, and in which tenant.
use ecommerce_rest_api.Base.{
  ◌+◌, ◌<◌, String, true, false, Option, none, some, List, [], ◌≡◌, refl, ap, subst, if◌then◌else◌,
  str_eq, str_eq_iff, get_or, Bool-cases, inl, inr, ==_refl, arith,
}
use ecommerce_rest_api.Domain.{Date}
use ecommerce_rest_api.Errors.{ok, err, require, >>=-ok, require-ok, forbidden}
use ecommerce_rest_api.Guards.{
  Jwt, IsSigned, service_claims, ServiceClaims, ServiceCall, create_service_token, five_minutes,
  strip, covers, in_tenant, admit_claims, admit_token, service_auth,
}
use Prim.Native.Char.{code}
use Prim.Native.String as Text
use Prim.Native.String.append

strip-append : (prefix s : String) → strip prefix (Text.◌++◌ prefix s) ≡ some s
strip-append Text.[] s = rw (append.nil s) refl
strip-append (Text.◌∷◌ p ps) s = rw (append.cons p ps s, ==_refl (code p), strip-append ps s) refl

-- A token made for a service, its scopes and a tenant, and presented within five minutes, lets a call
-- through, as that service and in that tenant, if the route's scopes are among the token's; otherwise
-- the call is refused for its scope. The package verifies what it has signed, and the tenant is not
-- empty.
pub service_auth-create :
    (jwt : Jwt) (secret service tenant : String) (scopes required : List String) (now at : Date)
    → IsSigned jwt (service_claims service scopes tenant) five_minutes secret now
    → str_eq tenant "" ≡ false
    → at < now + five_minutes
    → (let token = create_service_token jwt secret service scopes tenant now in
        service_auth jwt secret required (some (Text.◌++◌ "Bearer " token)) at ≡ (
          if covers scopes required
          then ok (record { service = some service; tenant = tenant })
          else err (forbidden "Service scope denied")))
unfolding service_auth create_service_token
service_auth-create jwt secret service tenant scopes required now at is named soon =
    let signed = jwt.sign (service_claims service scopes tenant) five_minutes secret now in
    elim (Bool-cases (covers scopes required)) [
      | inl enough ↦ rw (strip-append "Bearer " signed, is.verify_lem at soon, enough, named) refl
      | inr few ↦ rw (strip-append "Bearer " signed, is.verify_lem at soon, few) refl
    ]

-- What is known of a call that passed.
pub record IsVerified (jwt : Jwt) (secret : String) (required : List String)
    (header : Option String) (now : Date) (call : ServiceCall) : Type 0 where
  pub token : String
  pub claims : ServiceClaims
  pub bearer : strip "Bearer " (get_or header "") ≡ some token
  pub verified : jwt.verify token secret now ≡ some claims
  pub typ : claims.typ ≡ some "service"
  pub scopes : covers (get_or claims.scopes []) required ≡ true
  pub tenant : claims.tenant ≡ some call.tenant
  pub named : str_eq call.tenant "" ≡ false

get_or-some : (o : Option String) (t : String) → get_or o "" ≡ t → str_eq t "" ≡ false → o ≡ some t
get_or-some none t e named = absurd (cc)
get_or-some (some u) t e named = ap some e

in_tenant-named :
    (service tenant : Option String) (call : ServiceCall)
    → in_tenant service tenant ≡ ok call
    → (tenant ≡ some call.tenant) × (str_eq call.tenant "" ≡ false)
in_tenant-named service tenant call e =
    let name = get_or tenant "" in
    let (u, passed, there) =
      >>=-ok _ (λ done. ok (record { service = service; tenant = name })) call e in
    let same : name ≡ call.tenant = cc in
    let named : str_eq name "" ≡ false = ground (arith, require-ok _ _ u passed) in
    let here : str_eq call.tenant "" ≡ false = subst (λ t. str_eq t "" ≡ false) same named in
    (get_or-some tenant call.tenant same here, here)

module _ (jwt : Jwt) (secret : String) (required : List String) (header : Option String)
    (now : Date) where
  admit_claims-IsVerified :
      (token : String) (found : Option ServiceClaims) (call : ServiceCall)
      → strip "Bearer " (get_or header "") ≡ some token
      → jwt.verify token secret now ≡ found
      → admit_claims required found ≡ ok call
      → IsVerified jwt secret required header now call
  admit_claims-IsVerified token none call bearer verified e = absurd (cc)
  admit_claims-IsVerified token (some claims) call bearer verified e =
      let (v, both, e2) = >>=-ok _ (λ done. in_tenant claims.service claims.tenant) call e in
      let (u, typed, covered) =
        >>=-ok _
          (λ done.
            require (covers (get_or claims.scopes []) required) (forbidden "Service scope denied"))
          v both in
      let (tenant, named) = in_tenant-named claims.service claims.tenant call e2 in
      record {
        token = token;
        claims = claims;
        bearer = bearer;
        verified = verified;
        typ = get_or-some claims.typ "service" ((str_eq_iff _ _).0 (require-ok _ _ u typed)) refl;
        scopes = require-ok _ _ v covered;
        tenant = tenant;
        named = named;
      }

  admit_token-IsVerified :
      (found : Option String) (call : ServiceCall)
      → strip "Bearer " (get_or header "") ≡ found
      → admit_token jwt secret required now found ≡ ok call
      → IsVerified jwt secret required header now call
  admit_token-IsVerified none call bearer e = absurd (cc)
  admit_token-IsVerified (some token) call bearer e =
      admit_claims-IsVerified token (jwt.verify token secret now) call bearer refl e

-- A call that passes carries a token that the package verified under the service secret, made for
-- services and with every scope that the route asks for, and acts in the tenant that the token
-- names, which is not empty.
pub service_auth-IsVerified :
    (jwt : Jwt) (secret : String) (required : List String) (header : Option String) (now : Date)
    (call : ServiceCall)
    → service_auth jwt secret required header now ≡ ok call
    → IsVerified jwt secret required header now call
unfolding service_auth
service_auth-IsVerified jwt secret required header now call e =
    admit_token-IsVerified jwt secret required header now _ call refl e
