-- ===== src/Tenants/Tests.antt =====
-- An administrator of one shop closes sign-up, and may not name another.
use ecommerce_rest_api.Base.{◌≡◌, false, true, none, some, [], ◌∷◌, refl}
use ecommerce_rest_api.Domain.{Tenant, active}
use ecommerce_rest_api.Mongo.Laws.{reference_collection}
use ecommerce_rest_api.Tenants.{TenantInput, upsert_tenant}

abbrev shop : Tenant
shop = record { key = "a"; status = active; allow_self_signup = some true; payment_provider = none }

abbrev closing : TenantInput
closing = record {
  key = none;
  status = none;
  payment_provider = none;
  allow_self_signup = some false;
}

upsert-own :
    (upsert_tenant reference_collection "a" closing (shop ∷ [])).1
    ≡ (record shop { allow_self_signup = some false }) ∷ []
unfolding upsert_tenant
upsert-own = refl

upsert-other :
    (upsert_tenant reference_collection "a" (record closing { key = some "b" }) (shop ∷ [])).1
    ≡ shop ∷ []
unfolding upsert_tenant
upsert-other = refl
