-- ===== src/Catalog.antt =====
-- src/services/ProductService.ts but its list, src/repositories/ProductRepository.ts and
-- src/utils/fieldPolicy.ts. A validated body is a list of keys and values; of a product's fields those
-- that other components read are kept, so other keys change nothing here. The in-memory cache holds
-- the lists that `list` has stored.
pub mod Fields
pub mod Ownership
mod Tests
use ecommerce_rest_api.Base.{
  ℕ, String, ◌+◌, Bool, true, false, not, ◌&&◌, ◌||◌, Option, none, some, List, [], ◌∷◌,
  if◌then◌else◌, ◌==◌, any, is_some, str_eq, option_eq,
}
use ecommerce_rest_api.Domain.{ObjectId, Date, Amount, Product, Role}
use ecommerce_rest_api.Errors.{Result, ok, err, not_found}
use ecommerce_rest_api.Mongo.{Mongo, Db}
use ecommerce_rest_api.Access.{AuthUser, role_eq}
use ecommerce_rest_api.Cache.{Entries, del}

pub data Value : Type 0 where
  words : String → Value
  amount : Amount → Value
  number : ℕ → Value
  flag : Bool → Value
  object_id : ObjectId → Value
  instant : Date → Value

abbrev pub Body : Type 0
Body = List (String × Value)

pub data PolicyResource : Type 0 where
  product order_update : PolicyResource

abbrev pub allowed_for : PolicyResource → Role → List String
allowed_for product Role.admin =
    "name" ∷ "description" ∷ "price" ∷ "size" ∷ "category" ∷ "sku" ∷ "stock" ∷ "isActive"
    ∷ "variants" ∷ []
allowed_for product Role.seller =
    "name" ∷ "description" ∷ "price" ∷ "size" ∷ "category" ∷ "sku" ∷ "stock" ∷ "variants" ∷ []
allowed_for product Role.user = []
allowed_for order_update Role.admin =
    "status" ∷ "paymentStatus" ∷ "paymentReference" ∷ "trackingNumber" ∷ "carrier" ∷ []
allowed_for order_update Role.seller = "status" ∷ "trackingNumber" ∷ "carrier" ∷ []
allowed_for order_update Role.user = []

abbrev pub names : String → List String → Bool
names key = any (str_eq key)

abbrev pub picked : List String → Body → Body
picked allowed [] = []
picked allowed ((key, v) ∷ body) =
    let rest = picked allowed body in if names key allowed then (key, v) ∷ rest else rest

unfoldable pub pick_allowed_fields : PolicyResource → Role → Body → Body
pick_allowed_fields resource role = picked (allowed_for resource role)

abbrev outside : List String → Body → List String
outside allowed [] = []
outside allowed ((key, v) ∷ body) =
    let rest = outside allowed body in if names key allowed then rest else key ∷ rest

unfoldable pub assert_no_forbidden_fields : PolicyResource → Role → Body → List String
assert_no_forbidden_fields resource role = outside (allowed_for resource role)

-- One key of `$set`: the schema casts the value to the field, or does not know the key.
abbrev pub assign : String → Value → Product → Product
assign key (words s) p =
    if str_eq key "name"
    then record p { name = s }
    else if str_eq key "tenant"
    then record p { tenant = s }
    else p
assign key (amount a) p = if str_eq key "price" then record p { price = a } else p
assign key (number n) p =
    if str_eq key "stock"
    then record p { stock = n }
    else if str_eq key "ratingCount"
    then record p { rating_count = n }
    else p
assign key (flag b) p = if str_eq key "isActive" then record p { is_active = b } else p
assign key (object_id id) p = if str_eq key "seller" then record p { seller = some id } else p
assign key (instant at) p = if str_eq key "deletedAt" then record p { deleted_at = some at } else p

abbrev pub assign_all : Body → Product → Product
assign_all [] p = p
assign_all ((key, v) ∷ body) p = assign_all body (assign key v p)

-- A change of a product removes the cached lists.
abbrev pub and_clear :
    {A : Type 0} → Result Product × Db → Entries A → Result Product × (Db × Entries A)
unfolding del
and_clear (err failure, db) entries = (err failure, (db, entries))
and_clear (ok p, db) entries = (ok p, (db, del "products:" entries))

-- A new product has the schema's defaults, then the body's fields.
unfoldable pub create :
    {A : Type 0}
    → Mongo
    → AuthUser
    → String
    → Body
    → Db
    → Entries A
    → Result Product × (Db × Entries A)
unfolding pick_allowed_fields and_clear
create m user tenant value db entries =
    let blank : Product = record {
      id = db.next_id;
      name = "";
      price = 0;
      stock = 0;
      rating_count = 0;
      is_active = true;
      seller = some user.id;
      tenant = tenant;
      deleted_at = none;
    } in
    let document = assign_all (pick_allowed_fields product user.role value) blank in
    and_clear
      (
        ok document,
        record db { products = m.products.create document db.products; next_id = db.next_id + 1 },
      )
      entries

abbrev pub is_editable : AuthUser → ObjectId → String → Product → Bool
is_editable user id tenant p =
    p.id == id
    && (str_eq p.tenant tenant && not (is_some p.deleted_at))
    && (not (role_eq user.role Role.seller) || option_eq p.seller user.id)

abbrev pub if_found : Db → Option Product × List Product → Result Product × Db
unfolding not_found
if_found db (none, products) = (err (not_found "Product not found"), db)
if_found db (some p, products) = (ok p, record db { products = products })

unfoldable pub update :
    {A : Type 0}
    → Mongo
    → AuthUser
    → ObjectId
    → String
    → Body
    → Db
    → Entries A
    → Result Product × (Db × Entries A)
unfolding pick_allowed_fields and_clear if_found
update m user id tenant value db entries =
    let allowed_value = pick_allowed_fields product user.role value in
    and_clear
      (if_found db (
        m.products.find_one_and_update (is_editable user id tenant) (assign_all allowed_value)
          db.products))
      entries

-- `softDelete`; a product that is deleted already is stamped again.
unfoldable pub delete :
    {A : Type 0}
    → Mongo
    → ObjectId
    → String
    → Date
    → Db
    → Entries A
    → Result Product × (Db × Entries A)
unfolding and_clear if_found
delete m id tenant now db entries =
    and_clear
      (if_found db (
        m.products.find_one_and_update (λ p. p.id == id && str_eq p.tenant tenant)
          (λ p. record p { deleted_at = some now; is_active = false }) db.products))
      entries

abbrev shown : Option Product → Result Product
unfolding not_found
shown none = err (not_found "Product not found")
shown (some p) = ok p

unfoldable pub show : Mongo → ObjectId → String → Db → Result Product
unfolding shown
show m id tenant db = shown (
    m.products.find_one (λ p. p.id == id && (str_eq p.tenant tenant && not (is_some p.deleted_at)))
      db.products)
