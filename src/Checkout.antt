-- ===== src/Checkout.antt =====
-- `executeCheckout` and `compensate` of src/services/OrderService.ts.
pub mod Effects
pub mod Reversal
pub mod Undoable
pub mod Steps
pub mod Failure
pub mod Lined
pub mod Success
mod Tests
use ecommerce_rest_api.Base.{
  ℕ, String, ◌+◌, ◌*◌, ◌-◌, max, Bool, true, false, not, ◌&&◌, Option, none, some, List, [], ◌∷◌,
  ◌++◌, if◌then◌else◌, ◌==◌, leb, ltb, str_eq, is_some, contains,
}
use ecommerce_rest_api.Domain.{
  ObjectId, Date, Cents, Amount, Address, Product, Cart, CartItem, Order, OrderItem, OrderStatus,
  PaymentStatus, RefundStatus, Coupon, CouponRedemption, InventoryReservation, ReservationStatus,
  Role,
}
use ecommerce_rest_api.Errors.{AppError, Result, ok, err, bad_request}
use ecommerce_rest_api.Mongo.{Mongo, Db}
use ecommerce_rest_api.Money.{to_cents, from_cents}
use ecommerce_rest_api.Coupon.{validate_coupon_for_user}
use ecommerce_rest_api.Checkout.Effects.{
  Undo, restore_stock, release_reservation, release_coupon, delete_order, run_undo, Run, Tx, pure,
  throw, or_throw, from_result, call, ◌>>=◌, ◌>>◌, push_undo,
}

-- The parts of `AuthedRequest` that the services read.
pub record Request : Type 0 where
  pub user_id : ObjectId
  pub role : Role
  pub tenant : String

pub record CheckoutInput : Type 0 where
  pub shipping_address : Address
  pub payment_provider : String
  pub coupon_code : Option String

-- The variables that the loop over the cart fills.
pub record Lines : Type 0 where
  pub order_items : List OrderItem
  pub reservations : List ObjectId
  pub subtotal_cents : Cents

pub record Outcome : Type 0 where
  pub order : Order
  pub total : Amount
  pub reservations : List ObjectId

abbrev pub is_available : String → CartItem → Product → Bool
is_available tenant item p =
    p.id == item.product
    && (str_eq p.tenant tenant
        && (p.is_active && (not (is_some p.deleted_at) && leb item.quantity p.stock)))

abbrev pub take_stock : ℕ → Product → Product
take_stock quantity p = record p { stock = p.stock - quantity }

abbrev take_product : Mongo → String → CartItem → Db → Option Product × Db
take_product m tenant item db =
    let (product, products) =
      m.products.find_one_and_update (is_available tenant item) (take_stock item.quantity)
        db.products in
    (product, record db { products = products })

abbrev new_reservation : Request → Date → ObjectId → ℕ → ObjectId → InventoryReservation
new_reservation req expires_at product quantity id = record {
  id = id;
  user = req.user_id;
  tenant = req.tenant;
  order = none;
  product = product;
  quantity = quantity;
  status = ReservationStatus.reserved;
  expires_at = expires_at;
}

abbrev create_reservation : Mongo → Request → Date → ObjectId → ℕ → Db → ObjectId × Db
create_reservation m req expires_at product quantity db = (
  db.next_id,
  record db {
    reservations =
        m.reservations.create (new_reservation req expires_at product quantity db.next_id)
          db.reservations;
    next_id = db.next_id + 1;
  },
)

abbrev add_line : Lines → Product → ℕ → ObjectId → Lines
add_line lines p quantity reservation =
    let unit_cents = to_cents p.price in
    record {
      order_items =
          lines.order_items
          ++ (record {
            product = p.id;
            name = p.name;
            price = from_cents unit_cents;
            quantity = quantity;
          })
            ∷ [];
      reservations = lines.reservations ++ reservation ∷ [];
      subtotal_cents = lines.subtotal_cents + unit_cents * quantity;
    }

-- One round of the loop over the cart, from the point where the product was found.
unfoldable pub reserve_product :
    Mongo → (ℕ → Bool) → Request → Date → CartItem → Lines → Option Product → Tx Lines
reserve_product m fails req expires_at item lines found = do
  product ← or_throw found (bad_request "One or more products are unavailable or out of stock")
  push_undo (restore_stock product.id item.quantity)
  reservation ← call fails (create_reservation m req expires_at product.id item.quantity)
  push_undo (release_reservation reservation)
  pure (add_line lines product item.quantity reservation)

unfoldable pub reserve_item : Mongo → (ℕ → Bool) → Request → Date → CartItem → Lines → Tx Lines
unfolding reserve_product
reserve_item m fails req expires_at item lines =
    call fails (take_product m req.tenant item)
    >>= reserve_product m fails req expires_at item lines

unfoldable pub reserve_items :
    Mongo → (ℕ → Bool) → Request → Date → List CartItem → Lines → Tx Lines
unfolding reserve_item
reserve_items m fails req expires_at [] lines = pure lines
reserve_items m fails req expires_at (item ∷ items) lines = do
  lines' ← reserve_item m fails req expires_at item lines
  reserve_items m fails req expires_at items lines'

abbrev pub has_uses_left : Coupon → Coupon → Bool
has_uses_left coupon c = c.id == coupon.id && ltb c.used_count coupon.usage_limit

abbrev pub use_coupon : Coupon → Coupon
use_coupon c = record c { used_count = c.used_count + 1 }

abbrev claim : Mongo → Coupon → Db → ℕ × Db
claim m coupon db =
    let (n, coupons) = m.coupons.update_one (has_uses_left coupon) use_coupon db.coupons in
    (n, record db { coupons = coupons })

abbrev claimed : ℕ → ObjectId → Tx (Unit {0})
claimed n coupon =
    if n == 1
    then push_undo (release_coupon coupon)
    else throw (bad_request "Coupon usage limit reached")

-- `if (coupon) { … }` around the claim.
unfoldable pub claim_coupon : Mongo → (ℕ → Bool) → Option Coupon → Tx (Unit {0})
claim_coupon m fails none = pure tt
claim_coupon m fails (some coupon) = do n ← call fails (claim m coupon); claimed n coupon.id

abbrev coupon_id : Option Coupon → Option ObjectId
coupon_id none = none
coupon_id (some c) = some c.id

abbrev new_order : Request → CheckoutInput → Date → Lines → Option Coupon → Cents → ObjectId → Order
new_order req value now lines coupon discount_cents id = record {
  id = id;
  user = req.user_id;
  tenant = req.tenant;
  items = lines.order_items;
  subtotal = from_cents lines.subtotal_cents;
  discount_total = from_cents discount_cents;
  total = from_cents (lines.subtotal_cents - discount_cents);
  coupon = coupon_id coupon;
  status = OrderStatus.pending;
  payment_status = PaymentStatus.unpaid;
  refund_status = RefundStatus.none;
  payment_provider = value.payment_provider;
  payment_reference = "";
  payment_state_history = [];
  shipping_address = value.shipping_address;
  delivered_at = none;
  refund_requested_at = none;
  refund_reason = none;
  cancelled_at = none;
  cancellation_reason = none;
  updated_at = now;
}

abbrev create_order : Mongo → (ObjectId → Order) → Db → Order × Db
create_order m order db = (
  order db.next_id,
  record db { orders = m.orders.create (order db.next_id) db.orders; next_id = db.next_id + 1 },
)

abbrev pub set_order : ObjectId → InventoryReservation → InventoryReservation
set_order id r = record r { order = some id }

abbrev attach : Mongo → List ObjectId → ObjectId → Db → Unit {0} × Db
attach m ids order db = (
  tt,
  record db {
    reservations =
        m.reservations.update_many (λ r. contains r.id ids) (set_order order) db.reservations;
  },
)

abbrev redeem : Mongo → Request → ObjectId → ObjectId → Db → Unit {0} × Db
redeem m req coupon order db = (
  tt,
  record db {
    redemptions =
        m.redemptions.create
          (record {
            id = db.next_id;
            coupon = coupon;
            tenant = req.tenant;
            user = req.user_id;
            order = order;
          })
          db.redemptions;
    next_id = db.next_id + 1;
  },
)

-- `if (coupon) { … }` around the redemption.
unfoldable pub redeem_coupon :
    Mongo → (ℕ → Bool) → Request → Option Coupon → ObjectId → Tx (Unit {0})
redeem_coupon m fails req none order = pure tt
redeem_coupon m fails req (some coupon) order = call fails (redeem m req coupon.id order)

abbrev empty_items : Cart → Cart
empty_items c = record c { items = [] }

abbrev save_cart : Mongo → ObjectId → Db → Unit {0} × Db
save_cart m id db =
    (tt, record db { carts = (m.carts.update_one (λ c. c.id == id) empty_items db.carts).1 })

abbrev check :
    Mongo → Request → CheckoutInput → Date → Lines → Db → Result (Option Coupon × Cents) × Db
check m req value now lines db = (
  validate_coupon_for_user m now value.coupon_code req.user_id lines.subtotal_cents req.tenant db,
  db,
)

abbrev is_cart_of : Request → Cart → Bool
is_cart_of req c = c.user == req.user_id && str_eq c.tenant req.tenant

abbrev find_cart : Mongo → Request → Db → Option Cart × Db
find_cart m req db = (m.carts.find_one (is_cart_of req) db.carts, db)

abbrev filled : Option Cart → Option Cart
filled none = none
filled (some c) = elim c.items [ [] ↦ none | _ ∷ _ ↦ some c ]

abbrev empty_lines : Lines
empty_lines = record { order_items = []; reservations = []; subtotal_cents = 0 }

-- What follows `Order.create`.
unfoldable pub finish_order :
    Mongo → (ℕ → Bool) → Request → ObjectId → Lines → Option Coupon → Order → Tx Outcome
unfolding redeem_coupon
finish_order m fails req cart_id lines coupon order = do
  push_undo (delete_order order.id)
  call fails (attach m lines.reservations order.id)
  redeem_coupon m fails req coupon order.id
  call fails (save_cart m cart_id)
  pure (record { order = order; total = order.total; reservations = lines.reservations })

-- What follows the check of the coupon.
unfoldable pub place_priced :
    Mongo
    → (ℕ → Bool)
    → Request
    → CheckoutInput
    → Date
    → ObjectId
    → Lines
    → Option Coupon × Cents
    → Tx Outcome
unfolding claim_coupon finish_order
place_priced m fails req value now cart_id lines priced = do
  claim_coupon m fails priced.0
  order ← call fails (create_order m (new_order req value now lines priced.0 priced.1))
  finish_order m fails req cart_id lines priced.0 order

-- What follows the loop: the coupon, the order and the cart.
unfoldable pub place_order :
    Mongo → (ℕ → Bool) → Request → CheckoutInput → Date → ObjectId → Lines → Tx Outcome
unfolding place_priced
place_order m fails req value now cart_id lines = do
  checked ← call fails (check m req value now lines)
  priced ← from_result checked
  place_priced m fails req value now cart_id lines priced

-- What follows the read of the cart.
unfoldable pub checkout_cart :
    Mongo → (ℕ → Bool) → ℕ → Request → CheckoutInput → Date → Option Cart → Tx Outcome
unfolding reserve_items place_order
checkout_cart m fails minutes req value now found = do
  cart ← or_throw (filled found) (bad_request "Cart is empty")
  lines ← reserve_items m fails req (now + minutes * 60 * 1000) cart.items empty_lines
  place_order m fails req value now cart.id lines

-- The body of the `try`.
unfoldable pub checkout_steps : Mongo → (ℕ → Bool) → ℕ → Request → CheckoutInput → Date → Tx Outcome
unfolding checkout_cart
checkout_steps m fails minutes req value now =
    call fails (find_cart m req) >>= checkout_cart m fails minutes req value now

-- `undo_fails` says which undo actions throw; each such is logged and skipped.
unfoldable pub compensate : Mongo → (ℕ → Bool) → ℕ → List Undo → Db → Db
unfolding run_undo
compensate m undo_fails n [] db = db
compensate m undo_fails n (u ∷ us) db =
    compensate m undo_fails (n + 1) us (if undo_fails n then db else run_undo m u db)

-- The `catch`: with a session the caller's transaction rolls back.
settle : Mongo → (ℕ → Bool) → Bool → Result Outcome × Run → Result Outcome × Db
unfolding compensate
settle m undo_fails session (ok outcome, r) = (ok outcome, r.db)
settle m undo_fails session (err e, r) =
    (err e, if session then r.db else compensate m undo_fails 0 r.undo r.db)

unfoldable pub execute_checkout :
    Mongo
    → (ℕ → Bool)
    → (ℕ → Bool)
    → ℕ
    → Bool
    → Request
    → CheckoutInput
    → Date
    → Db
    → Result Outcome × Db
unfolding checkout_steps settle
execute_checkout m fails undo_fails minutes session req value now db =
    settle m undo_fails session
      (checkout_steps m fails minutes req value now (record { db = db; undo = []; calls = 0 }))
