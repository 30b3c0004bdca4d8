-- ===== src/Shipments.antt =====
-- src/controllers/shipmentController.ts. The body is the validated one, and `check_url` stands for
-- `assertSafeExternalUrl` of src/utils/ssrf.ts, so it is an argument. The two reads of
-- `derivedOrderRank` see one database.
pub mod Progress
pub mod Advance
mod Tests
use ecommerce_rest_api.Base.{
  ℕ, zero, suc, String, ◌+◌, Bool, true, false, not, ◌&&◌, ◌||◌, Option, none, some, List, [], ◌∷◌,
  map, if◌then◌else◌, ◌==◌, ltb, min, max, str_eq, option_eq, any, contains, is_some,
}
use ecommerce_rest_api.Domain.{
  ObjectId, Date, Role, Order, OrderItem, OrderStatus, PaymentStatus, Product, Shipment,
  ShipmentStatus,
}
use ecommerce_rest_api.Errors.{
  AppError, Result, ok, err, not_found, conflict, forbidden, require, ◌>>=◌, ◌>>◌,
}
use ecommerce_rest_api.Mongo.{Mongo, Db}
use ecommerce_rest_api.StateMachine.{order_eq, payment_eq, is_order_in, can_transition_order}
use ecommerce_rest_api.Events.{publish_event}
use ecommerce_rest_api.Checkout.{Request}

pub record ShipmentInput : Type 0 where
  pub carrier : String
  pub tracking_number : String
  pub tracking_url : Option String
  pub status : ShipmentStatus

abbrev pub shippable_statuses : List OrderStatus
shippable_statuses = OrderStatus.confirmed ∷ OrderStatus.processing ∷ OrderStatus.shipped ∷ []

abbrev pub order_rank_for_shipment : ShipmentStatus → ℕ
order_rank_for_shipment ShipmentStatus.pending = 1
order_rank_for_shipment ShipmentStatus.label_created = 1
order_rank_for_shipment ShipmentStatus.in_transit = 2
order_rank_for_shipment ShipmentStatus.delivered = 3
order_rank_for_shipment ShipmentStatus.failed = 0

-- `undefined` past the end.
abbrev pub status_for_rank : ℕ → Option OrderStatus
status_for_rank zero = some OrderStatus.confirmed
status_for_rank (suc zero) = some OrderStatus.processing
status_for_rank (suc (suc zero)) = some OrderStatus.shipped
status_for_rank (suc (suc (suc zero))) = some OrderStatus.delivered
status_for_rank _ = none

abbrev pub fulfilment_rank : OrderStatus → Option ℕ
fulfilment_rank OrderStatus.confirmed = some 0
fulfilment_rank OrderStatus.processing = some 1
fulfilment_rank OrderStatus.shipped = some 2
fulfilment_rank OrderStatus.delivered = some 3
fulfilment_rank _ = none

-- One above the rank of the source, whose rank of `failed` is -1.
abbrev pub shipment_rank : ShipmentStatus → ℕ
shipment_rank ShipmentStatus.failed = 0
shipment_rank ShipmentStatus.pending = 1
shipment_rank ShipmentStatus.label_created = 2
shipment_rank ShipmentStatus.in_transit = 3
shipment_rank ShipmentStatus.delivered = 4

abbrev pub shipment_eq : ShipmentStatus → ShipmentStatus → Bool
shipment_eq a b = shipment_rank a == shipment_rank b

unfoldable pub can_transition_shipment : ShipmentStatus → ShipmentStatus → Bool
can_transition_shipment from to =
    if shipment_eq from to
    then true
    else if shipment_eq from ShipmentStatus.delivered
    then false
    else if shipment_eq from ShipmentStatus.failed || shipment_eq to ShipmentStatus.failed
    then true
    else ltb (shipment_rank from) (shipment_rank to)

-- `String(a) === String(b)` on optional seller ids.
abbrev pub same_seller : Option ObjectId → Option ObjectId → Bool
same_seller none none = true
same_seller (some a) (some b) = a == b
same_seller _ _ = false

abbrev pub rank_of_shipment : Option Shipment → ℕ
rank_of_shipment none = 0
rank_of_shipment (some s) = order_rank_for_shipment s.status

abbrev pub first_of : Option ObjectId → List Shipment → Option Shipment
first_of seller [] = none
first_of seller (s ∷ ss) =
    let rest = first_of seller ss in if same_seller s.seller seller then some s else rest

abbrev pub rank_for : List Shipment → Option ObjectId → ℕ
rank_for shipments seller = rank_of_shipment (first_of seller shipments)

abbrev pub seller_of : List Product → ObjectId → Option ObjectId
seller_of [] id = none
seller_of (p ∷ ps) id = let rest = seller_of ps id in if p.id == id then p.seller else rest

-- A product without a seller counts for no seller's shipment, nor does a product that is gone.
abbrev pub seller_rank : List Shipment → Option ObjectId → ℕ
seller_rank shipments none = 0
seller_rank shipments (some seller) = rank_for shipments (some seller)

abbrev pub item_rank : List Product → List Shipment → OrderItem → ℕ
item_rank products shipments item =
    max (rank_for shipments none) (seller_rank shipments (seller_of products item.product))

abbrev pub with_least : ℕ → Option ℕ → Option ℕ
with_least n none = some n
with_least n (some k) = some (min n k)

-- `Math.min` of the ranks; none for no items, where it is infinite.
abbrev pub least : List ℕ → Option ℕ
least [] = none
least (n ∷ ns) = with_least n (least ns)

abbrev pub item_ids : Order → List ObjectId
item_ids order = map (λ (i : OrderItem). i.product) order.items

unfoldable pub derived_order_rank : Mongo → Order → Db → Option ℕ
derived_order_rank m order db =
    let products = m.products.find (λ p. contains p.id (item_ids order)) db.products in
    let shipments = m.shipments.find (λ s. s.order == order.id) db.shipments in
    least (map (item_rank products shipments) order.items)

abbrev pub next_status : Option ℕ → Option OrderStatus
next_status none = none
next_status (some n) = status_for_rank n

-- The comparison of ranks: a missing one is 0 for the next status and -1 for the present one.
abbrev pub is_ahead : Option ℕ → Option ℕ → Bool
is_ahead next none = true
is_ahead none (some b) = false
is_ahead (some a) (some b) = ltb b a

abbrev pub is_behind : OrderStatus → OrderStatus → Bool
is_behind next status = elim (fulfilment_rank status) [
  | none ↦ false
  | some a ↦ elim (fulfilment_rank next) [ none ↦ false | some b ↦ ltb a b ]
]

abbrev pub advanced : OrderStatus → Date → Order → Order
advanced next now o = record o {
  status = next;
  delivered_at = if order_eq next OrderStatus.delivered then some now else o.delivered_at;
  updated_at = now;
}

unfoldable pub advance_order : Mongo → Date → Order → Option OrderStatus → Db → Db
advance_order m now order none db = db
advance_order m now order (some next) db =
    if is_ahead (fulfilment_rank next) (fulfilment_rank order.status)
      && can_transition_order order.status next
    then record db {
      orders =
          (m.orders.update_one (λ o. o.id == order.id && is_behind next o.status)
            (advanced next now) db.orders).1;
    }
    else db

abbrev pub found_order : Option Order → Result Order
found_order none = err (not_found "Order not found")
found_order (some o) = ok o

abbrev pub checked_url : (String → Result (Unit {0})) → Option String → Result (Unit {0})
checked_url check_url none = ok tt
checked_url check_url (some url) = check_url url

-- An administrator's shipment has no seller; a seller's is their own, if an item is.
abbrev pub shipment_seller : Mongo → Request → Order → Db → Role → Result (Option ObjectId)
shipment_seller m req order db Role.seller =
    if is_some (
      m.products.find_one
        (λ p.
          contains p.id (item_ids order)
          && (option_eq p.seller req.user_id && str_eq p.tenant req.tenant))
        db.products)
    then ok (some req.user_id)
    else err (forbidden "Cannot update shipment for another seller's order")
shipment_seller m req order db _ = ok none

abbrev pub is_shipment_of : ObjectId → Option ObjectId → Shipment → Bool
is_shipment_of order seller s = s.order == order && same_seller s.seller seller

abbrev pub may_move : Option Shipment → ShipmentStatus → Result (Unit {0})
may_move none to = ok tt
may_move (some s) to =
    require (can_transition_shipment s.status to) (conflict "Shipment cannot move to this status")

abbrev pub filled_in : Request → Order → Option ObjectId → ShipmentInput → ObjectId → Shipment
filled_in req order seller value id = record {
  id = id;
  order = order.id;
  seller = seller;
  tenant = req.tenant;
  carrier = value.carrier;
  tracking_number = value.tracking_number;
  tracking_url = value.tracking_url;
  status = value.status;
  updated_by = req.user_id;
}

-- An update leaves the tracking URL alone when the body has none.
abbrev pub kept_url : Option String → Option String → Option String
kept_url none old = old
kept_url (some url) old = some url

abbrev pub updated_shipment :
    Request → Order → Option ObjectId → ShipmentInput → Shipment → Shipment
updated_shipment req order seller value s = record (filled_in req order seller value s.id) {
  tracking_url = kept_url value.tracking_url s.tracking_url;
}

-- `findOneAndUpdate` with `upsert: !existing`.
unfoldable pub write_shipment :
    Mongo
    → Request
    → Order
    → Option ObjectId
    → ShipmentInput
    → Option Shipment
    → Db
    → Option Shipment × Db
write_shipment m req order seller value none db =
    let s = filled_in req order seller value db.next_id in
    (some s, record db { shipments = m.shipments.create s db.shipments; next_id = db.next_id + 1 })
write_shipment m req order seller value (some existing) db =
    let (shipment, shipments) =
      m.shipments.find_one_and_update
        (λ s. is_shipment_of order.id seller s && shipment_eq s.status existing.status)
        (updated_shipment req order seller value) db.shipments in
    (shipment, record db { shipments = shipments })

-- Everything that `upsert` checks before its first write.
unfoldable pub admit_shipment :
    Mongo
    → (String → Result (Unit {0}))
    → Request
    → ObjectId
    → ShipmentInput
    → Db
    → Result (Order × Option ObjectId)
admit_shipment m check_url req order_id value db = do
  checked_url check_url value.tracking_url
  order ←
      found_order
        (m.orders.find_one (λ o. o.id == order_id && str_eq o.tenant req.tenant) db.orders)
  require
      (payment_eq order.payment_status PaymentStatus.paid
        && is_order_in order.status shippable_statuses)
      (conflict "Order cannot be shipped in its state")
  seller ← shipment_seller m req order db req.role
  may_move (m.shipments.find_one (is_shipment_of order.id seller) db.shipments) value.status
  ok (order, seller)

unfoldable pub after_shipment : Mongo → Date → Order → Option Shipment × Db → Result Shipment × Db
unfolding derived_order_rank advance_order publish_event
after_shipment m now order (none, db) =
    (err (conflict "The shipment changed while updating; retry"), db)
after_shipment m now order (some shipment, db) =
    let db' = advance_order m now order (next_status (derived_order_rank m order db)) db in
    (ok shipment, publish_event m "shipment.updated" order.id order.tenant "" db')

unfoldable pub run_shipment :
    Mongo
    → Request
    → ShipmentInput
    → Date
    → Db
    → Result (Order × Option ObjectId)
    → Result Shipment × Db
unfolding write_shipment after_shipment
run_shipment m req value now db (err e) = (err e, db)
run_shipment m req value now db (ok (order, seller)) =
    let existing = m.shipments.find_one (is_shipment_of order.id seller) db.shipments in
    after_shipment m now order (write_shipment m req order seller value existing db)

unfoldable pub upsert :
    Mongo
    → (String → Result (Unit {0}))
    → Request
    → ObjectId
    → ShipmentInput
    → Date
    → Db
    → Result Shipment × Db
unfolding run_shipment admit_shipment
upsert m check_url req order_id value now db =
    run_shipment m req value now db (admit_shipment m check_url req order_id value db)
