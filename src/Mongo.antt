-- ===== src/Mongo.antt =====
-- MongoDB as the code reaches it through Mongoose (src/models): a parameter of the model. The
-- contents of a collection are its documents in natural order; the operations on them belong to the
-- server, so they are fields of a record, and `IsMongo` states what the server documents of them.
pub mod Reference
pub mod Laws
pub mod Documents
pub mod Unique
use ecommerce_rest_api.Base.{ℕ, Bool, Option, List, ◌≡◌}
use ecommerce_rest_api.Domain.{
  PaymentSignal, ObjectId, Product, Cart, Coupon, CouponRedemption, Order, InventoryReservation,
  PaymentEvent, DomainEvent, Shipment, Tenant,
}
use ecommerce_rest_api.Mongo.Reference.{
  first, matching, count_of, modify_first, modify_all, remove_first, inserted, modified_first,
  modified_count,
}

-- A filter is a test on a document, and an update a function on documents.
pub record Collection (A : Type 0) : Type 0 where
  pub find_one : (A → Bool) → List A → Option A
  pub find : (A → Bool) → List A → List A
  pub count_documents : (A → Bool) → List A → ℕ
  pub create : A → List A → List A
  -- With `{ new: true }`: the document as it is after the update.
  pub find_one_and_update : (A → Bool) → (A → A) → List A → Option A × List A
  -- The number of documents that it changed, and the collection after.
  pub update_one : (A → Bool) → (A → A) → List A → ℕ × List A
  pub update_many : (A → Bool) → (A → A) → List A → List A
  pub delete_one : (A → Bool) → List A → List A

-- Each operation on one document acts on the first match in natural order, and atomically.
pub record IsCollection {A : Type 0} (c : Collection A) : Type 0 where
  pub find_one_lem : (p : A → Bool) (xs : List A) → c.find_one p xs ≡ first p xs
  pub find_lem : (p : A → Bool) (xs : List A) → c.find p xs ≡ matching p xs
  pub count_documents_lem : (p : A → Bool) (xs : List A) → c.count_documents p xs ≡ count_of p xs
  pub create_lem : (a : A) (xs : List A) → c.create a xs ≡ inserted a xs
  pub find_one_and_update_lem :
      (p : A → Bool) (f : A → A) (xs : List A)
      → c.find_one_and_update p f xs ≡ (modified_first p f xs, modify_first p f xs)
  pub update_one_lem :
      (p : A → Bool) (f : A → A) (xs : List A)
      → c.update_one p f xs ≡ (modified_count p f xs, modify_first p f xs)
  pub update_many_lem :
      (p : A → Bool) (f : A → A) (xs : List A) → c.update_many p f xs ≡ modify_all p f xs
  pub delete_one_lem : (p : A → Bool) (xs : List A) → c.delete_one p xs ≡ remove_first p xs

-- The collections of src/models that the modelled services use.
pub record Mongo : Type 0 where
  pub products : Collection Product
  pub carts : Collection Cart
  pub coupons : Collection Coupon
  pub redemptions : Collection CouponRedemption
  pub orders : Collection Order
  pub reservations : Collection InventoryReservation
  pub payment_events : Collection PaymentEvent
  pub domain_events : Collection DomainEvent
  pub shipments : Collection Shipment
  pub tenants : Collection Tenant
  pub payment_signals : Collection PaymentSignal

pub record IsMongo (m : Mongo) : Type 0 where
  pub products : IsCollection m.products
  pub carts : IsCollection m.carts
  pub coupons : IsCollection m.coupons
  pub redemptions : IsCollection m.redemptions
  pub orders : IsCollection m.orders
  pub reservations : IsCollection m.reservations
  pub payment_events : IsCollection m.payment_events
  pub domain_events : IsCollection m.domain_events
  pub shipments : IsCollection m.shipments
  pub tenants : IsCollection m.tenants
  pub payment_signals : IsCollection m.payment_signals

-- The contents of the database. A new document takes `next_id` for its ObjectId.
pub record Db : Type 0 where
  pub products : List Product
  pub carts : List Cart
  pub coupons : List Coupon
  pub redemptions : List CouponRedemption
  pub orders : List Order
  pub reservations : List InventoryReservation
  pub payment_events : List PaymentEvent
  pub domain_events : List DomainEvent
  pub shipments : List Shipment
  pub tenants : List Tenant
  pub payment_signals : List PaymentSignal
  pub next_id : ObjectId
