-- ===== src/Orders/Refund.antt =====
-- When a refund request succeeds, and why it is refused.
use ecommerce_rest_api.Base.{
  ℕ, String, ◌≡◌, ◌≢◌, ◌<◌, true, false, none, some, leb, refl, subst, inl, inr, Option-cases,
  arith,
}
use ecommerce_rest_api.Domain.{ObjectId, Date, Order, OrderStatus, PaymentStatus, RefundStatus}
use ecommerce_rest_api.Errors.{AppError, Result, ok, err, conflict}
use ecommerce_rest_api.Mongo.{Mongo, IsMongo, Db}
use ecommerce_rest_api.Mongo.Reference.{first, modify_first, modified_first}
use ecommerce_rest_api.Mongo.Laws.{reference, by_reference}
use ecommerce_rest_api.Mongo.Documents.{IsUnique}
use ecommerce_rest_api.Mongo.Unique.{modified_first-some, first-weaken, modify_first-weaken}
use ecommerce_rest_api.StateMachine.{payment_eq, refund_eq, is_order_in, refundable_statuses}
use ecommerce_rest_api.Events.{record_event}
use ecommerce_rest_api.Checkout.{Request}
use ecommerce_rest_api.Orders.{
  owned_order, refund_date, is_refundable, refund_fields, window_start, if_refunded, request_refund,
}

-- The requester's order under `id` may be refunded: what the database must hold.
pub record MayRefund (days : ℕ) (req : Request) (id : ObjectId) (now : Date) (db : Db) (o : Order)
    : Type 0 where
  pub owned : first (owned_order req id) db.orders ≡ some o
  pub paid : o.payment_status ≡ PaymentStatus.paid
  pub once : o.refund_status ≡ RefundStatus.none
  pub delivered : is_order_in o.status refundable_statuses ≡ true
  pub in_window : leb (window_start days now) (refund_date o) ≡ true

-- `request_refund` returned `o` and left the database `after`.
pub record IsRequested (days : ℕ) (req : Request) (id : ObjectId) (reason : String) (now : Date)
    (before : Db) (o : Order) (after : Db) : Type 0 where
  pub found : Order
  pub may : MayRefund days req id now before found
  pub order : o ≡ refund_fields reason now found
  pub orders : after.orders ≡ modify_first (owned_order req id) (λ _. o) before.orders
  pub products : after.products ≡ before.products
  pub reservations : after.reservations ≡ before.reservations

paid_eq : (s : PaymentStatus) → payment_eq s PaymentStatus.paid ≡ true → s ≡ PaymentStatus.paid
paid_eq s h = ground arith

none_eq : (s : RefundStatus) → refund_eq s RefundStatus.none ≡ true → s ≡ RefundStatus.none
none_eq s h = ground arith

module _ (days : ℕ) (req : Request) (id : ObjectId) (reason : String) (now : Date) where
  owned_id : (o : Order) → owned_order req id o ≡ true → o.id ≡ id
  owned_id o h = ground arith

  refundable_owned :
      (o : Order)
      → is_refundable req id (window_start days now) o ≡ true
      → owned_order req id o ≡ true
  refundable_owned o h = ground arith

  refundable_facts :
      (o : Order)
      → is_refundable req id (window_start days now) o ≡ true
      → (payment_eq o.payment_status PaymentStatus.paid ≡ true)
        × ((refund_eq o.refund_status RefundStatus.none ≡ true)
            × ((is_order_in o.status refundable_statuses ≡ true)
                × (leb (window_start days now) (refund_date o) ≡ true)))
  refundable_facts o h = ground arith

  abbrev RequestedIfOk : Db → Result Order × Db → Type 0
  RequestedIfOk before (ok o, db) = IsRequested days req id reason now before o db
  RequestedIfOk before (err e, db) = Unit

  requesting :
      (before : Db)
      → IsUnique (λ x. x.id) before.orders
      → RequestedIfOk before (request_refund reference days req id reason now before)
  unfolding request_refund record_event
  requesting before u =
      let p = is_refundable req id (window_start days now) in
      let f = refund_fields reason now in
      elim (Option-cases (modified_first p f before.orders)) [
        | inl missing ↦ rw (missing, if_refunded) tt
        | inr (o, e) ↦
            let (x, first_x, hit, same) = modified_first-some p f before.orders o e in
            let facts = refundable_facts x hit in
            rw (e, if_refunded)
              (record {
                found = x;
                may = record {
                  owned =
                      first-weaken (λ x. x.id) id p (owned_order req id) refundable_owned owned_id
                        before.orders x u first_x;
                  paid = paid_eq x.payment_status facts.0;
                  once = none_eq x.refund_status facts.1.0;
                  delivered = facts.1.1.0;
                  in_window = facts.1.1.1;
                };
                order = same;
                orders = rw same (
                    modify_first-weaken (λ x. x.id) id p (owned_order req id) refundable_owned
                      owned_id f before.orders x u first_x);
                products = refl;
                reservations = refl;
              })
      ]

-- A refund request that succeeds was for the requester's own order (or any of the tenant's, for an
-- administrator), paid, delivered, without a refund before and within the window; it marks exactly
-- this order as requested and leaves stock and reservations alone. Orders have distinct ids.
pub request_refund-IsRequested :
    (m : Mongo) (days : ℕ) (req : Request) (id : ObjectId) (reason : String) (now : Date) (db : Db)
    (o : Order) (db' : Db)
    → IsMongo m
    → IsUnique (λ o. o.id) db.orders
    → request_refund m days req id reason now db ≡ (ok o, db')
    → IsRequested days req id reason now db o db'
request_refund-IsRequested m days req id reason now db o db' h u done =
    subst (RequestedIfOk days req id reason now db) done (
      by_reference
        (λ m. RequestedIfOk days req id reason now db (request_refund m days req id reason now db))
        m h (requesting days req id reason now db u))

-- The last message of `refundRejection`, for a write in between.
abbrev pub changed : AppError
unfolding conflict
changed = conflict "The order changed while processing the refund; retry"

-- The first unmet condition of an order, by the error's status and message.
pub record Explains (start : Date) (o : Order) (e : AppError) : Type 0 where
  pub again :
      o.refund_status ≢ RefundStatus.none
      → e ≡ record { status = 409; message = "A refund has already been requested for this order" }
  pub unpaid :
      o.refund_status ≡ RefundStatus.none
      → o.payment_status ≢ PaymentStatus.paid
      → e ≡ record { status = 400; message = "Only paid orders can be refunded" }
  pub early :
      o.refund_status ≡ RefundStatus.none
      → o.payment_status ≡ PaymentStatus.paid
      → o.status ≢ OrderStatus.delivered
      → e ≡ record {
        status = 400;
        message =
            "Refunds can be requested once the order is delivered; cancel it instead if it has not shipped";
      }
  pub past :
      o.refund_status ≡ RefundStatus.none
      → o.payment_status ≡ PaymentStatus.paid
      → o.status ≡ OrderStatus.delivered
      → (refund_date o < start)
        × (e ≡ record { status = 400; message = "The refund window has passed" })

-- Why a refund request is refused, and that it wrote nothing.
pub record IsRejected (days : ℕ) (req : Request) (id : ObjectId) (now : Date) (before : Db)
    (e : AppError) (after : Db) : Type 0 where
  pub unchanged : after ≡ before
  pub rejected_order :
      (o : Order)
      → first (owned_order req id) before.orders ≡ some o
      → is_refundable req id (window_start days now) o ≡ false
  pub missing :
      first (owned_order req id) before.orders ≡ none
      → e ≡ record { status = 404; message = "Order not found" }
  pub reason :
      (o : Order)
      → first (owned_order req id) before.orders ≡ some o
      → Explains (window_start days now) o e
  pub never_changed : e ≢ changed

module _ (days : ℕ) (req : Request) (id : ObjectId) (reason : String) (now : Date) where
  abbrev RejectedIfError : Db → Result Order × Db → Type 0
  RejectedIfError before (ok o, db) = Unit
  RejectedIfError before (err e, db) = IsRejected days req id now before e db
