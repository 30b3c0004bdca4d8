-- ===== src/Sample.antt =====
-- A small database and requests for the runs and witnesses of every component: user 7 has a cart
-- with two of product 1 and one of product 2; order 30 is open, 31 is paid, 32 is delivered.
use ecommerce_rest_api.Base.{ℕ, String, true, none, some, [], ◌∷◌, str_eq}
use ecommerce_rest_api.Domain.{
  ObjectId, Address, Product, Cart, Order, OrderStatus, PaymentStatus, RefundStatus, Coupon,
  CouponType, TenantStatus, InventoryReservation, ReservationStatus, Role,
}
use ecommerce_rest_api.Errors.{ok}
use ecommerce_rest_api.Mongo.{Db}
use ecommerce_rest_api.Checkout.{Request, CheckoutInput}
use ecommerce_rest_api.Payments.{Platform, Webhook, payment_succeeded}

abbrev pub shop : String
shop = "default"

abbrev pub home : Address
home = record {
  line1 = "1 Main St";
  line2 = none;
  city = "Springfield";
  state = "IL";
  postal_code = "62701";
  country = "US";
}

abbrev pub product_of : ObjectId → ℕ → ℕ → Product
product_of id price stock = record {
  id = id;
  name = "Thing";
  price = price;
  stock = stock;
  rating_count = 0;
  is_active = true;
  seller = some 8;
  tenant = shop;
  deleted_at = none;
}

abbrev pub sample_cart : Cart
sample_cart = record {
  id = 10;
  user = 7;
  tenant = shop;
  items = (record { product = 1; quantity = 2 }) ∷ (record { product = 2; quantity = 1 }) ∷ [];
}

abbrev pub ten_percent : Coupon
ten_percent = record {
  id = 20;
  code = "TEN";
  kind = CouponType.percentage;
  value = 1_000_000_000;
  max_discount = none;
  min_order_total = 100_000_000;
  usage_limit = 5;
  per_user_limit = 1;
  used_count = 4;
  starts_at = none;
  expires_at = some 900_000;
  is_active = true;
  tenant = shop;
  deleted_at = none;
}

abbrev pub order_of : ObjectId → OrderStatus → PaymentStatus → Order
order_of id status payment_status = record {
  id = id;
  user = 7;
  tenant = shop;
  items = (record { product = 1; name = "Thing"; price = 999_000_000; quantity = 2 }) ∷ [];
  subtotal = 1_998_000_000;
  discount_total = 0;
  total = 1_998_000_000;
  coupon = none;
  status = status;
  payment_status = payment_status;
  refund_status = RefundStatus.none;
  payment_provider = "manual";
  payment_reference = "";
  payment_state_history = [];
  shipping_address = home;
  delivered_at = none;
  refund_requested_at = none;
  refund_reason = none;
  cancelled_at = none;
  cancellation_reason = none;
  updated_at = 400_000;
}

abbrev pub reservation_of : ObjectId → ObjectId → ReservationStatus → InventoryReservation
reservation_of id order_id status = record {
  id = id;
  user = 7;
  tenant = shop;
  order = some order_id;
  product = 1;
  quantity = 2;
  status = status;
  expires_at = 450_000;
}

abbrev pub sample_db : Db
sample_db = record {
  products = product_of 1 999_000_000 5 ∷ product_of 2 2_500_000_000 1 ∷ [];
  carts = sample_cart ∷ [];
  coupons = ten_percent ∷ [];
  redemptions = [];
  orders =
      order_of 30 OrderStatus.pending PaymentStatus.unpaid
      ∷ order_of 31 OrderStatus.confirmed PaymentStatus.paid
      ∷ order_of 32 OrderStatus.delivered PaymentStatus.paid
      ∷ [];
  reservations =
      reservation_of 40 30 ReservationStatus.reserved
      ∷ reservation_of 41 31 ReservationStatus.committed
      ∷ [];
  payment_events = [];
  domain_events = [];
  shipments = [];
  tenants =
      (record {
        key = shop;
        status = TenantStatus.active;
        allow_self_signup = some true;
        payment_provider = none;
      })
      ∷ [];
  payment_signals = [];
  next_id = 100;
}

abbrev pub sample_request : Request
sample_request = record { user_id = 7; role = Role.user; tenant = shop }

abbrev pub sample_input : CheckoutInput
sample_input = record {
  shipping_address = home;
  payment_provider = "manual";
  coupon_code = some "TEN";
}

-- The time of every run.
abbrev pub sample_now : ℕ
sample_now = 500_000

-- A platform whose signature is the timestamp.
abbrev pub sample_platform : Platform
sample_platform = record {
  sha256_hex = λ s. s;
  sign_payload = λ payload at. at;
  same_bytes = str_eq;
  to_milliseconds = λ s. some 500_000;
  signed_content = λ at payload. payload;
  normalized = λ s. s;
  lowered = λ s. s;
  trusted_providers = "manual" ∷ [];
}

abbrev pub paid_webhook : Webhook
paid_webhook = record {
  provider = none;
  event_id = some "evt_1";
  signature = some "500";
  timestamp = some "500";
  raw_payload = "{}";
  body = ok (record { order_id = 30; type_name = payment_succeeded; payment_reference = none });
}
