-- ===== src/Sellers.antt =====
-- src/controllers/sellerController.ts. `newest` is the server's sort by creation with its limit of
-- 50; the rating fields of a product are left out.
pub mod Privacy
mod Tests
use ecommerce_rest_api.Base.{
  ℕ, Bool, true, false, not, ◌&&◌, Option, none, some, List, [], ◌∷◌, map, if◌then◌else◌, ◌==◌, leb,
  str_eq, any, keep, length, sum_of, contains, option_eq, is_some, take, ◌*◌,
}
use ecommerce_rest_api.Domain.{
  ObjectId, Amount, Cents, Address, Product, Order, OrderItem, OrderStatus, PaymentStatus,
}
use ecommerce_rest_api.Mongo.{Mongo, Db}
use ecommerce_rest_api.Money.{to_cents, from_cents}
use ecommerce_rest_api.StateMachine.{is_order_in, payment_eq}
use ecommerce_rest_api.Checkout.{Request}

abbrev pub fulfillable_statuses : List OrderStatus
fulfillable_statuses = OrderStatus.confirmed ∷ OrderStatus.processing ∷ OrderStatus.shipped ∷ []

pub record SellerOrder : Type 0 where
  pub id : ObjectId
  pub status : OrderStatus
  pub payment_status : PaymentStatus
  pub items : List OrderItem
  pub seller_subtotal : Amount
  pub shipping_address : Option Address

pub record Dashboard : Type 0 where
  pub product_count : ℕ
  pub recent_orders : List SellerOrder
  pub revenue : Amount
  pub low_stock : List Product

abbrev pub is_own_product : Request → Product → Bool
is_own_product req p =
    option_eq p.seller req.user_id && (str_eq p.tenant req.tenant && not (is_some p.deleted_at))

abbrev pub must_fulfil : Order → Bool
must_fulfil o =
    payment_eq o.payment_status PaymentStatus.paid && is_order_in o.status fulfillable_statuses

abbrev pub line_cents : OrderItem → Cents
line_cents i = to_cents i.price * i.quantity

-- The part of an order that a seller sees.
unfoldable pub seller_order : List ObjectId → Order → SellerOrder
seller_order own o =
    let items = keep (λ (i : OrderItem). contains i.product own) o.items in
    record {
      id = o.id;
      status = o.status;
      payment_status = o.payment_status;
      items = items;
      seller_subtotal = from_cents (sum_of line_cents items);
      shipping_address = if must_fulfil o then some o.shipping_address else none;
    }

abbrev pub revenue_part : SellerOrder → Cents
revenue_part o =
    if payment_eq o.payment_status PaymentStatus.paid then to_cents o.seller_subtotal else 0

abbrev pub has_own_item : Request → List ObjectId → Order → Bool
has_own_item req own o =
    str_eq o.tenant req.tenant && any (λ (i : OrderItem). contains i.product own) o.items

unfoldable pub dashboard : Mongo → (List Order → List Order) → Request → Db → Dashboard
unfolding seller_order
dashboard m newest req db =
    let products = m.products.find (is_own_product req) db.products in
    let own = map (λ (p : Product). p.id) products in
    let orders = newest (m.orders.find (has_own_item req own) db.orders) in
    let recent = map (seller_order own) orders in
    record {
      product_count = length products;
      recent_orders = recent;
      revenue = from_cents (sum_of revenue_part recent);
      low_stock = keep (λ (p : Product). leb p.stock 5) products;
    }
