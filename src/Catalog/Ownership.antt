-- ===== src/Catalog/Ownership.antt =====
-- What an edit of a product can reach.
use ecommerce_rest_api.Base.{
  String, ◌≡◌, ◌⊎◌, true, not, ◌||◌, none, some, option_eq, if◌then◌else◌,
}
use ecommerce_rest_api.Domain.{ObjectId, Product, Role}
use ecommerce_rest_api.Errors.{Result, ok, err}
use ecommerce_rest_api.Mongo.{Mongo, Db}
use ecommerce_rest_api.Mongo.Reference.{first, modify_first}
use ecommerce_rest_api.Access.{AuthUser, role_eq}
use ecommerce_rest_api.Cache.{Entries, map_get}
use text.Mathlib.Text.{starts_with}
use ecommerce_rest_api.Catalog.{is_editable}
use ecommerce_rest_api.Catalog.Fields.{IsSameProduct}

module _ {A : Type 0} (user : AuthUser) (id : ObjectId) (tenant : String) (before : Db)
    (entries : Entries A) where
  pub record IsUpdated (new : Product) (after : Db) (entries' : Entries A) : Type 0 where
    pub old : Product
    pub found : first (is_editable user id tenant) before.products ≡ some old
    pub named : old.id ≡ id
    pub same_tenant : old.tenant ≡ tenant
    pub live : old.deleted_at ≡ none
    pub own : (not (role_eq user.role Role.seller) || option_eq old.seller user.id) ≡ true
    pub same : IsSameProduct old new
    pub visibility : (user.role ≡ Role.admin) ⊎ (new.is_active ≡ old.is_active)
    pub buyer : user.role ≡ Role.user → new ≡ old
    pub only : after ≡ record before {
      products = modify_first (is_editable user id tenant) (λ p. new) before.products;
    }
    pub cleared :
        (key : String)
        → map_get key entries' ≡ (if starts_with key "products:" then none else map_get key entries)

  abbrev pub UpdatedIfOk : Result Product × (Db × Entries A) → Type 0
  UpdatedIfOk (ok new, (after, entries')) = IsUpdated new after entries'
  UpdatedIfOk (err failure, (after, entries')) =
      (first (is_editable user id tenant) before.products ≡ none)
      × (after ≡ before)
      × (entries' ≡ entries)
