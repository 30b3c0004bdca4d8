-- ===== src/Sellers/Privacy.antt =====
-- What a seller can see of orders.
use ecommerce_rest_api.Base.{
  ◌≡◌, true, List, [], ◌∷◌, map, keep, sum_of, contains, All, Bool-cases, inl, inr, arith, is_some,
}
use ecommerce_rest_api.Domain.{ObjectId, Product, Order, OrderItem, PaymentStatus}
use ecommerce_rest_api.Mongo.{Mongo, IsMongo, Db}
use ecommerce_rest_api.Mongo.Reference.{matching}
use ecommerce_rest_api.Mongo.Laws.{by_reference}
use ecommerce_rest_api.Money.{to_cents}
use ecommerce_rest_api.Money.Rounding.{to_cents-from_cents}
use ecommerce_rest_api.StateMachine.{is_order_in, payment_eq}
use ecommerce_rest_api.Checkout.{Request}
use ecommerce_rest_api.Sellers.{
  fulfillable_statuses, SellerOrder, is_own_product, line_cents, seller_order, has_own_item,
  dashboard,
}

-- A line of one of these products.
abbrev pub IsOwnLine : List ObjectId → OrderItem → Type 0
IsOwnLine own i = contains i.product own ≡ true

-- Only own lines, a subtotal of exactly these, and an address only where one has to ship.
pub record IsPrivate (own : List ObjectId) (o : SellerOrder) : Type 0 where
  pub lines : All (IsOwnLine own) o.items
  pub subtotal : to_cents o.seller_subtotal ≡ sum_of line_cents o.items
  pub address :
      is_some o.shipping_address ≡ true
      → (payment_eq o.payment_status PaymentStatus.paid ≡ true)
        × (is_order_in o.status fulfillable_statuses ≡ true)

keep-IsOwnLine :
    (own : List ObjectId) (items : List OrderItem)
    → All (IsOwnLine own) (keep (λ (i : OrderItem). contains i.product own) items)
keep-IsOwnLine own [] = tt
keep-IsOwnLine own (i ∷ items) = elim (Bool-cases (contains i.product own)) [
  | inl mine ↦ rw mine (mine, keep-IsOwnLine own items)
  | inr other ↦ rw other (keep-IsOwnLine own items)
]

seller_order-IsPrivate : (own : List ObjectId) (o : Order) → IsPrivate own (seller_order own o)
unfolding seller_order
seller_order-IsPrivate own o = record {
  lines = keep-IsOwnLine own o.items;
  subtotal =
      to_cents-from_cents
        (sum_of line_cents (keep (λ (i : OrderItem). contains i.product own) o.items));
  address = λ h. ground arith;
}

map-IsPrivate :
    (own : List ObjectId) (os : List Order) → All (IsPrivate own) (map (seller_order own) os)
map-IsPrivate own [] = tt
map-IsPrivate own (o ∷ os) = (seller_order-IsPrivate own o, map-IsPrivate own os)

abbrev pub own_products : Request → Db → List ObjectId
own_products req db = map (λ (p : Product). p.id) (matching (is_own_product req) db.products)

-- Whatever orders the server returns, every order on a seller's dashboard shows only lines of the
-- seller's own products, a subtotal of exactly these lines, and an address only while the order is
-- paid and still has to be shipped.
pub dashboard-IsPrivate :
    (m : Mongo) (newest : List Order → List Order) (req : Request) (db : Db)
    → IsMongo m
    → All (IsPrivate (own_products req db)) (dashboard m newest req db).recent_orders
unfolding dashboard
dashboard-IsPrivate m newest req db h =
    by_reference
      (λ m. All (IsPrivate (own_products req db)) (dashboard m newest req db).recent_orders) m h
      (map-IsPrivate (own_products req db)
        (newest (matching (has_own_item req (own_products req db)) db.orders)))
