-- ===== src/Tenants.antt =====
-- src/controllers/tenantController.ts after validation: an administrator's settings of the tenant they
-- signed in to. The name, currency and locale are left out.
mod Tests
use ecommerce_rest_api.Base.{
  String, Bool, true, not, ◌&&◌, Option, none, some, List, if◌then◌else◌, str_eq,
}
use ecommerce_rest_api.Domain.{Tenant, TenantStatus, active}
use ecommerce_rest_api.Errors.{Result, ok, err, forbidden}
use ecommerce_rest_api.Mongo.{Collection}

pub record TenantInput : Type 0 where
  pub key : Option String
  pub status : Option TenantStatus
  pub payment_provider : Option String
  pub allow_self_signup : Option Bool

-- A field that the body does not have is left alone.
abbrev or_kept {ℓ} : {A : Type ℓ} → Option A → A → A
or_kept none old = old
or_kept (some new) old = new

abbrev or_same : {A : Type 0} → Option A → Option A → Option A
or_same none old = old
or_same (some new) old = some new

abbrev pub configured : String → TenantInput → Tenant → Tenant
configured own value t = record {
  key = own;
  status = or_kept value.status t.status;
  allow_self_signup = or_same value.allow_self_signup t.allow_self_signup;
  payment_provider = or_same value.payment_provider t.payment_provider;
}

abbrev is_foreign : String → Option String → Bool
is_foreign own none = not true
is_foreign own (some key) = not (str_eq key "") && not (str_eq key own)

abbrev pub saved_tenant :
    Collection Tenant → Tenant → Option Tenant × List Tenant → Result Tenant × List Tenant
saved_tenant c created (some tenant, tenants) = (ok tenant, tenants)
saved_tenant c created (none, tenants) = (ok created, c.create created tenants)

-- A new tenant has the schema's defaults, then the body's fields.
unfoldable pub upsert_tenant :
    Collection Tenant → String → TenantInput → List Tenant → Result Tenant × List Tenant
unfolding forbidden
upsert_tenant c own value tenants =
    let defaults : Tenant = record {
      key = own;
      status = active;
      allow_self_signup = some true;
      payment_provider = some "manual";
    } in
    let saved =
      saved_tenant c (configured own value defaults)
        (c.find_one_and_update (λ t. str_eq t.key own) (configured own value) tenants) in
    if is_foreign own value.key
    then (err (forbidden "Cannot modify another tenant"), tenants)
    else saved
