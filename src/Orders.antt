-- ===== src/Orders.antt =====
-- `show`, `cancel` and `requestRefund` of src/services/OrderService.ts. `id` is `req.params.id`, and
-- `now` the clock that a handler reads. Audit logs and the delivery of events are left out.
pub mod Cancel
pub mod Refund
mod Tests
use ecommerce_rest_api.Base.{
  ℕ, String, ◌-◌, ◌*◌, Bool, true, false, not, ◌&&◌, ◌||◌, Option, none, some, List, [], ◌∷◌,
  if◌then◌else◌, ◌==◌, leb, ltb, str_eq, is_some, get_or,
}
use ecommerce_rest_api.Domain.{
  ObjectId, Date, Role, Order, OrderStatus, PaymentStatus, RefundStatus,
}
use ecommerce_rest_api.Errors.{AppError, Result, ok, err, not_found, bad_request, conflict}
use ecommerce_rest_api.Mongo.{Mongo, Db}
use ecommerce_rest_api.StateMachine.{
  order_eq, payment_eq, refund_eq, is_order_in, is_payment_in, cancellable_statuses,
  refundable_statuses,
}
use ecommerce_rest_api.Events.{record_event}
use ecommerce_rest_api.Inventory.{ReleaseStatus, release_order_reservations}
use ecommerce_rest_api.Checkout.{Request}

abbrev pub is_admin : Role → Bool
is_admin Role.admin = true
is_admin _ = false

abbrev pub owned_order : Request → ObjectId → Order → Bool
owned_order req id o =
    o.id == id && (str_eq o.tenant req.tenant && (is_admin req.role || o.user == req.user_id))

unfoldable pub show : Mongo → Request → ObjectId → Db → Result Order
show m req id db = elim (m.orders.find_one (owned_order req id) db.orders) [
  | none ↦ err (not_found "Order not found")
  | some order ↦ ok order
]

-- `base` in `cancel`.
abbrev pub is_cancellable : Request → ObjectId → Order → Bool
is_cancellable req id o = owned_order req id o && is_order_in o.status cancellable_statuses

abbrev pub is_unpaid_cancel : Request → ObjectId → Order → Bool
is_unpaid_cancel req id o =
    is_cancellable req id o
    && is_payment_in o.payment_status (PaymentStatus.unpaid ∷ PaymentStatus.failed ∷ [])

abbrev pub is_paid_cancel : Request → ObjectId → Order → Bool
is_paid_cancel req id o =
    is_cancellable req id o
    && (is_payment_in o.payment_status (PaymentStatus.paid ∷ PaymentStatus.authorized ∷ [])
        && refund_eq o.refund_status RefundStatus.none)

abbrev pub cancelled_fields : String → Date → Order → Order
cancelled_fields reason now o = record o {
  status = OrderStatus.cancelled;
  cancelled_at = some now;
  cancellation_reason = some reason;
  updated_at = now;
}

abbrev pub refund_fields : String → Date → Order → Order
refund_fields reason now o = record o {
  refund_status = RefundStatus.requested;
  refund_requested_at = some now;
  refund_reason = some reason;
  updated_at = now;
}

abbrev pub cancelled_refund_fields : String → Date → Order → Order
cancelled_refund_fields reason now o = refund_fields reason now (cancelled_fields reason now o)

pub record Cancelled : Type 0 where
  pub order : Order
  pub refund_opened : Bool

abbrev pub no_match : Mongo → Request → ObjectId → Db → AppError
no_match m req id db =
    if is_some (m.orders.find_one (owned_order req id) db.orders)
    then bad_request "Order cannot be cancelled in its current state"
    else not_found "Order not found"

-- What follows the update of the order.
unfoldable pub after_cancel : Mongo → Request → String → Cancelled → Db → Db
unfolding release_order_reservations record_event
after_cancel m req reason c db =
    let db1 = (release_order_reservations m c.order.id ReleaseStatus.released db).1 in
    let db2 = record_event m "order.cancelled" c.order.id req.tenant reason db1 in
    if c.refund_opened
    then record_event m "refund.requested" c.order.id req.tenant reason db2
    else db2

-- `if (!cancelled)` after an update, with what follows when it matched an order.
abbrev pub if_cancelled :
    Mongo
    → Request
    → String
    → Bool
    → Db
    → Result Cancelled × Db
    → Option Order
    → Result Cancelled × Db
if_cancelled m req reason opened db otherwise none = otherwise
if_cancelled m req reason opened db otherwise (some order) =
    let c : Cancelled = record { order = order; refund_opened = opened } in
    (ok c, after_cancel m req reason c db)

unfoldable pub cancel_paid : Mongo → Request → ObjectId → String → Date → Db → Result Cancelled × Db
cancel_paid m req id reason now db =
    let (cancelled, orders) =
      m.orders.find_one_and_update (is_paid_cancel req id) (cancelled_refund_fields reason now)
        db.orders in
    let db' = record db { orders = orders } in
    if_cancelled m req reason true db' (err (no_match m req id db'), db') cancelled

unfoldable pub cancel : Mongo → Request → ObjectId → String → Date → Db → Result Cancelled × Db
unfolding cancel_paid
cancel m req id reason now db =
    let (cancelled, orders) =
      m.orders.find_one_and_update (is_unpaid_cancel req id) (cancelled_fields reason now)
        db.orders in
    let db' = record db { orders = orders } in
    if_cancelled m req reason false db' (cancel_paid m req id reason now db') cancelled

-- Milliseconds; on ℕ a window older than the epoch starts at the epoch, as no date is before it.
abbrev pub window_start : ℕ → Date → Date
window_start days now = now - days * 24 * 60 * 60 * 1000

-- Both the `$or` of the filter and the comparison in `refundRejection` read this date.
abbrev pub refund_date : Order → Date
refund_date o = get_or o.delivered_at o.updated_at

abbrev pub is_in_window : Date → Order → Bool
is_in_window start o = elim o.delivered_at [
  | some at ↦ leb start at
  | none ↦ leb start o.updated_at
]

abbrev pub is_refundable : Request → ObjectId → Date → Order → Bool
is_refundable req id start o =
    owned_order req id o
    && (payment_eq o.payment_status PaymentStatus.paid
        && (refund_eq o.refund_status RefundStatus.none
            && (is_order_in o.status refundable_statuses && is_in_window start o)))

abbrev pub rejection : Date → Order → AppError
rejection start o =
    if not (refund_eq o.refund_status RefundStatus.none)
    then conflict "A refund has already been requested for this order"
    else if not (payment_eq o.payment_status PaymentStatus.paid)
    then bad_request "Only paid orders can be refunded"
    else if not (is_order_in o.status refundable_statuses)
    then bad_request
        "Refunds can be requested once the order is delivered; cancel it instead if it has not shipped"
    else if ltb (refund_date o) start
    then bad_request "The refund window has passed"
    else conflict "The order changed while processing the refund; retry"

abbrev pub rejected : Date → Option Order → AppError
rejected start none = not_found "Order not found"
rejected start (some order) = rejection start order

abbrev pub refund_rejection : Mongo → Request → ObjectId → Date → Db → AppError
refund_rejection m req id start db =
    rejected start (m.orders.find_one (owned_order req id) db.orders)

unfoldable pub if_refunded :
    Mongo → Request → ObjectId → String → Date → Db → Option Order → Result Order × Db
unfolding record_event
if_refunded m req id reason start db none = (err (refund_rejection m req id start db), db)
if_refunded m req id reason start db (some order) =
    (ok order, record_event m "refund.requested" order.id req.tenant reason db)

-- `days` is REFUND_WINDOW_DAYS.
unfoldable pub request_refund :
    Mongo → ℕ → Request → ObjectId → String → Date → Db → Result Order × Db
unfolding if_refunded
request_refund m days req id reason now db =
    let start = window_start days now in
    let (found, orders) =
      m.orders.find_one_and_update (is_refundable req id start) (refund_fields reason now)
        db.orders in
    if_refunded m req id reason start (record db { orders = orders }) found
