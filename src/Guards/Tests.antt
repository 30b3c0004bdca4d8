-- ===== src/Guards/Tests.antt =====
-- Runs and witnesses of the guards.
use ecommerce_rest_api.Base.{false, none, some, [], ◌∷◌, ◌≡◌, refl, if◌then◌else◌, ltb, arith}
use ecommerce_rest_api.Errors.{Result, ok, err, forbidden}
use ecommerce_rest_api.Guards.{
  Jwt, service_claims, create_service_token, service_auth, parse_list, is_origin_allowed,
  admin_network_policy, tenant_context, ServiceCall,
}
use ecommerce_rest_api.Guards.Services.{service_auth-create, service_auth-IsVerified, IsVerified}

-- One token, for five minutes.
abbrev one_token : Jwt
one_token = record {
  sign = λ claims lifetime secret now. "t";
  verify = λ token secret at.
      if ltb at 300000 then some (service_claims "billing" ("events:read" ∷ []) "shop") else none;
}

abbrev passed : Result ServiceCall
passed = ok (record { service = some "billing"; tenant = "shop" })

service_auth-create_example :
    service_auth one_token "k" ("events:read" ∷ []) (some "Bearer t") 299999 ≡ passed
unfolding create_service_token
service_auth-create_example =
    service_auth-create one_token "k" "billing" "shop" ("events:read" ∷ []) ("events:read" ∷ []) 0
      299999 (record { verify_lem = λ at soon. ground (arith, soon) }) refl (omega arith)

service_auth-IsVerified_example :
    IsVerified one_token "k"
      ("events:read" ∷ [])
      (some "Bearer t")
      0
      (record { service = some "billing"; tenant = "shop" })
unfolding service_auth
service_auth-IsVerified_example =
    service_auth-IsVerified one_token "k" ("events:read" ∷ []) (some "Bearer t") 0
      (record { service = some "billing"; tenant = "shop" }) refl

guarded :
    (admin_network_policy "10.0.0.1 , 10.0.0.2" "10.0.0.2" (some "::ffff:10.0.0.2")
      ≡ err (forbidden "Admin IP denied"))
    × (is_origin_allowed (some "https://evil") [] "production" ≡ false)
    × (tenant_context (λ s. s) "default" (some "  ") ≡ "default")
unfolding admin_network_policy parse_list is_origin_allowed tenant_context
guarded = (refl, refl, refl)
