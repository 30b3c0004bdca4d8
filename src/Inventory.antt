-- ===== src/Inventory.antt =====
-- src/services/inventoryService.ts. A function returns its result and the database after it.
-- `startReservationSweeper` is a timer around `release_expired_reservations`.
pub mod Units
pub mod Release
pub mod Expiry
mod Tests
use ecommerce_rest_api.Base.{
  ℕ, suc, ◌+◌, Bool, true, false, ◌&&◌, ◌||◌, Option, none, some, List, [], ◌∷◌, if◌then◌else◌,
  ◌==◌, leb, any, take, contains, option_eq, is_some,
}
use ecommerce_rest_api.Domain.{
  ObjectId, Date, Product, Order, OrderStatus, PaymentStatus, InventoryReservation,
  ReservationStatus,
}
use ecommerce_rest_api.Mongo.{Mongo, Db}
use ecommerce_rest_api.StateMachine.{order_eq, payment_eq}
use ecommerce_rest_api.Events.{publish_event}

abbrev reservation_index : ReservationStatus → ℕ
reservation_index ReservationStatus.reserved = 0
reservation_index ReservationStatus.committed = 1
reservation_index ReservationStatus.released = 2
reservation_index ReservationStatus.expired = 3

abbrev pub reservation_eq : ReservationStatus → ReservationStatus → Bool
reservation_eq a b = reservation_index a == reservation_index b

abbrev pub is_reservation_in : ReservationStatus → List ReservationStatus → Bool
is_reservation_in s = any (reservation_eq s)

-- The statuses in which a reservation holds stock.
abbrev pub active_statuses : List ReservationStatus
active_statuses = ReservationStatus.reserved ∷ ReservationStatus.committed ∷ []

-- `Extract<ReservationStatus, "released" | "expired">`
pub data ReleaseStatus : Type 0 where
  released expired : ReleaseStatus

abbrev pub to_status : ReleaseStatus → ReservationStatus
to_status ReleaseStatus.released = ReservationStatus.released
to_status ReleaseStatus.expired = ReservationStatus.expired

abbrev pub is_releasable : ObjectId → List ReservationStatus → InventoryReservation → Bool
is_releasable reservation_id from r = r.id == reservation_id && is_reservation_in r.status from

abbrev pub set_status : ReservationStatus → InventoryReservation → InventoryReservation
set_status to r = record r { status = to }

abbrev pub has_id : ObjectId → Product → Bool
has_id id p = p.id == id

abbrev pub add_stock : ℕ → Product → Product
add_stock quantity p = record p { stock = p.stock + quantity }

abbrev return_stock : Mongo → Option InventoryReservation → Db → Bool × Db
return_stock m none db = (false, db)
return_stock m (some r) db = (
  true,
  record db {
    products = (m.products.update_one (has_id r.product) (add_stock r.quantity) db.products).1;
  },
)

unfoldable pub release_reservation :
    Mongo → ObjectId → ReleaseStatus → List ReservationStatus → Db → Bool × Db
release_reservation m reservation_id to from db =
    let (reservation, reservations) =
      m.reservations.find_one_and_update (is_releasable reservation_id from)
        (set_status (to_status to)) db.reservations in
    return_stock m reservation (record db { reservations = reservations })

abbrev pub holds_for : ObjectId → InventoryReservation → Bool
holds_for order_id r = option_eq r.order order_id && is_reservation_in r.status active_statuses

abbrev count_if : Bool → ℕ → ℕ
count_if true n = n + 1
count_if false n = n

-- The loop of `releaseOrderReservations`.
unfoldable pub release_each : Mongo → ReleaseStatus → List InventoryReservation → ℕ → Db → ℕ × Db
unfolding release_reservation
release_each m to [] n db = (n, db)
release_each m to (r ∷ rs) n db =
    let (done, db') = release_reservation m r.id to active_statuses db in
    release_each m to rs (count_if done n) db'

unfoldable pub release_order_reservations : Mongo → ObjectId → ReleaseStatus → Db → ℕ × Db
unfolding release_each
release_order_reservations m order_id to db =
    release_each m to (m.reservations.find (holds_for order_id) db.reservations) 0 db

-- The counters of a sweep and the orders that it has handled.
pub record Sweep : Type 0 where
  pub released : ℕ
  pub cancelled : ℕ
  pub handled_orders : List ObjectId

abbrev pub is_unpaid_order : ObjectId → Order → Bool
is_unpaid_order id o =
    o.id == id
    && (order_eq o.status OrderStatus.pending && payment_eq o.payment_status PaymentStatus.unpaid)

abbrev pub expire_order : Date → Order → Order
expire_order now o = record o {
  status = OrderStatus.cancelled;
  cancelled_at = some now;
  cancellation_reason = some "Payment window expired";
  updated_at = now;
}

abbrev pub is_reserved_for : ObjectId → InventoryReservation → Bool
is_reserved_for order_id r =
    option_eq r.order order_id && reservation_eq r.status ReservationStatus.reserved

-- The order was not cancelled here: gone, paid, or in another state.
sweep_uncancelled : Mongo → ObjectId → Option Order → Sweep → Db → Sweep × Db
unfolding release_order_reservations
sweep_uncancelled m order_id none s db =
    let (n, db') = release_order_reservations m order_id ReleaseStatus.expired db in
    (record s { released = s.released + n }, db')
sweep_uncancelled m order_id (some order) s db =
    if payment_eq order.payment_status PaymentStatus.paid
      || payment_eq order.payment_status PaymentStatus.authorized
    then (
      s,
      record db {
        reservations =
            m.reservations.update_many (is_reserved_for order.id)
              (set_status ReservationStatus.committed) db.reservations;
      },
    )
    else (s, db)

sweep_order : Mongo → ObjectId → Option Order → Sweep → Db → Sweep × Db
unfolding sweep_uncancelled release_order_reservations publish_event
sweep_order m order_id (some order) s db =
    let (n, db') = release_order_reservations m order.id ReleaseStatus.expired db in
    (
      record s { cancelled = s.cancelled + 1; released = s.released + n },
      publish_event m "order.cancelled" order.id order.tenant "Payment window expired" db',
    )
sweep_order m order_id none s db =
    sweep_uncancelled m order_id (m.orders.find_one (λ o. o.id == order_id) db.orders) s db

-- One round of the loop, by the order that the reservation names.
sweep_reservation : Mongo → Date → ObjectId → Option ObjectId → Sweep → Db → Sweep × Db
unfolding sweep_order release_reservation
sweep_reservation m now id none s db =
    let (done, db') =
      release_reservation m id ReleaseStatus.expired (ReservationStatus.reserved ∷ []) db in
    (record s { released = count_if done s.released }, db')
sweep_reservation m now id (some order_id) s db =
    if contains order_id s.handled_orders
    then (s, db)
    else let (cancelled_order, orders) =
        m.orders.find_one_and_update (is_unpaid_order order_id) (expire_order now) db.orders in
      sweep_order m order_id cancelled_order
        (record s { handled_orders = order_id ∷ s.handled_orders }) (record db { orders = orders })

unfoldable pub sweep_each : Mongo → Date → List InventoryReservation → Sweep → Db → Sweep × Db
unfolding sweep_reservation
sweep_each m now [] s db = (s, db)
sweep_each m now (r ∷ rs) s db =
    let (s', db') = sweep_reservation m now r.id r.order s db in sweep_each m now rs s' db'

abbrev pub is_expired : Date → InventoryReservation → Bool
is_expired now r = reservation_eq r.status ReservationStatus.reserved && leb r.expires_at now

-- `sorted` is the server's `sort({ expiresAt: 1 })`.
unfoldable pub release_expired_reservations :
    Mongo → (List InventoryReservation → List InventoryReservation) → Date → ℕ → Db → Sweep × Db
unfolding sweep_each
release_expired_reservations m sorted now batch_size db =
    sweep_each m now
      (take batch_size (sorted (m.reservations.find (is_expired now) db.reservations)))
      (record { released = 0; cancelled = 0; handled_orders = [] }) db
