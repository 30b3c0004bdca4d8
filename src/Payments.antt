-- ===== src/Payments.antt =====
-- src/services/PaymentService.ts, src/repositories/PaymentRepository.ts and src/utils/webhook.ts.
-- Alerts and audit logs are left out; so are `afterWebhook`'s deliveries, of which
-- the outbox record is kept.
pub mod Admitted
pub mod Effects
pub mod Settled
mod Tests
use ecommerce_rest_api.Base.{
  ℕ, String, ◌+◌, ◌-◌, ◌*◌, Bool, true, false, not, ◌&&◌, ◌||◌, Option, none, some, List, [], ◌∷◌,
  ◌++◌, if◌then◌else◌, ◌==◌, leb, str_eq, any, get_or,
}
use ecommerce_rest_api.Domain.{
  ObjectId, Date, Order, OrderStatus, PaymentStatus, RefundStatus, PaymentEvent, PaymentTransition,
  Tenant, PaymentSignal,
}
use ecommerce_rest_api.Errors.{
  AppError, Result, ok, err, bad_request, un_authorized, not_found, conflict, require, ◌>>=◌, ◌>>◌,
}
use ecommerce_rest_api.Mongo.{Mongo, Db}
use ecommerce_rest_api.StateMachine.{order_eq, payment_eq, assert_payment_transition}
use ecommerce_rest_api.Events.{publish_event}
use ecommerce_rest_api.Inventory.{
  ReleaseStatus, set_status, is_reserved_for, release_order_reservations,
}
use ecommerce_rest_api.Domain.{ReservationStatus}

-- Node's crypto with WEBHOOK_SECRET, JavaScript's text and number functions, and the configuration.
pub record Platform : Type 0 where
  pub sha256_hex : String → String
  -- The HMAC of `${timestamp}.${payload}`, in hexadecimal.
  pub sign_payload : String → String → String
  -- Whether two hexadecimal texts decode to the same bytes, by `timingSafeEqual`.
  pub same_bytes : String → String → Bool
  -- `Number(timestamp) * 1000`; none when it is not finite or negative, which is always stale.
  pub to_milliseconds : String → Option ℕ
  -- `${timestamp}.${payload}`
  pub signed_content : String → String → String
  -- `trim().toLowerCase()`, and `toLowerCase()` alone
  pub normalized : String → String
  pub lowered : String → String
  -- WEBHOOK_PROVIDERS, split at commas and trimmed.
  pub trusted_providers : List String

pub data WebhookType : Type 0 where
  payment_succeeded payment_failed payment_refunded : WebhookType

pub record WebhookBody : Type 0 where
  pub order_id : ObjectId
  pub type_name : WebhookType
  pub payment_reference : Option String

-- A request as the controller hands it over; `body` is what the validator makes of it.
pub record Webhook : Type 0 where
  pub provider : Option String
  pub event_id : Option String
  pub signature : Option String
  pub timestamp : Option String
  pub raw_payload : String
  pub body : Result WebhookBody

pub data Reply : Type 0 where
  replay : Reply
  updated : Order → Reply

unfoldable pub target_state : WebhookType → PaymentStatus
target_state payment_succeeded = PaymentStatus.paid
target_state payment_failed = PaymentStatus.failed
target_state payment_refunded = PaymentStatus.refunded

abbrev pub type_text : WebhookType → String
type_text payment_succeeded = "payment.succeeded"
type_text payment_failed = "payment.failed"
type_text payment_refunded = "payment.refunded"

unfoldable pub next_order_status : Order → PaymentStatus → OrderStatus
next_order_status order to =
    if payment_eq to PaymentStatus.paid && order_eq order.status OrderStatus.pending
    then OrderStatus.confirmed
    else order.status

-- `!text` on a header: missing or empty.
abbrev pub present : Option String → AppError → Result String
present none e = err e
present (some s) e = if str_eq s "" then err e else ok s

abbrev pub distance : ℕ → ℕ → ℕ
distance a b = (a - b) + (b - a)

abbrev pub fresh : Option ℕ → Date → Result (Unit {0})
fresh none now = err (un_authorized "Stale webhook")
fresh (some at) now = require (leb (distance now at) (300 * 1000)) (un_authorized "Stale webhook")

unfoldable pub verify_webhook_signature :
    Platform → String → Option String → Option String → Date → Result (Unit {0})
verify_webhook_signature pf raw_payload signature timestamp now = do
  let missing : AppError = un_authorized "Missing webhook signature"
  body ← present (some raw_payload) missing
  sig ← present signature missing
  at ← present timestamp missing
  fresh (pf.to_milliseconds at) now
  require (pf.same_bytes sig (pf.sign_payload body at)) (un_authorized "Invalid webhook signature")

-- `provider || "manual"`
abbrev pub or_manual : Option String → String
or_manual none = "manual"
or_manual (some s) = if str_eq s "" then "manual" else s

abbrev pub provider_of : Platform → Webhook → String
provider_of pf w = pf.normalized (or_manual w.provider)

abbrev pub digest_of : Platform → Webhook → String
digest_of pf w = pf.sha256_hex (pf.signed_content (get_or w.timestamp "undefined") w.raw_payload)

abbrev pub has_digest : Option String → String → Bool
has_digest none digest = false
has_digest (some d) digest = str_eq d digest

abbrev pub is_event : String → String → String → PaymentEvent → Bool
is_event provider event_id digest e =
    (str_eq e.provider provider && str_eq e.event_id event_id) || has_digest e.signed_digest digest

-- What the checks before the transaction find.
pub data Alarm : Type 0 where
  provider_mismatch on_cancelled_order : Alarm

pub data Admission : Type 0 where
  replayed : Admission
  -- A refusal that records a security signal first.
  alarmed : Alarm → String → Order → Admission
  admitted : String → WebhookBody → Order → Admission

abbrev pub found_order : Option Order → Result Order
found_order none = err (not_found "Order not found")
found_order (some order) = ok order

abbrev pub tenant_provider : Option Tenant → String
tenant_provider none = "manual"
tenant_provider (some t) = or_manual t.payment_provider

abbrev pub lands_on_cancelled : Order → PaymentStatus → Bool
lands_on_cancelled order to =
    order_eq order.status OrderStatus.cancelled
    && (payment_eq to PaymentStatus.paid || payment_eq to PaymentStatus.authorized)

-- What an alarm's signal is called, and the error that follows it.
abbrev pub signal_name : Alarm → String
signal_name provider_mismatch = "payment.provider_mismatch"
signal_name on_cancelled_order = "payment.on_cancelled_order"

unfoldable pub failure_after : Alarm → AppError
unfolding not_found conflict
failure_after provider_mismatch = not_found "Order not found"
failure_after on_cancelled_order = conflict "Order is cancelled; payment must be refunded"

abbrev pub is_own_provider : Mongo → Platform → Webhook → Order → Db → Bool
is_own_provider m pf w order db =
    let own = tenant_provider (m.tenants.find_one (λ t. str_eq t.key order.tenant) db.tenants) in
    str_eq (pf.lowered own) (provider_of pf w)

-- The checks of the order that was found.
abbrev pub check_order :
    Mongo → Platform → Webhook → String → WebhookBody → Db → Order → Result Admission
check_order m pf w event_id body db order =
    let to = target_state body.type_name in
    if not (is_own_provider m pf w order db)
    then ok (alarmed provider_mismatch event_id order)
    else if lands_on_cancelled order to
    then ok (alarmed on_cancelled_order event_id order)
    else assert_payment_transition order.payment_status to >> ok (admitted event_id body order)

-- From the body's validation to `assertPaymentTransition`.
unfoldable pub admit_order :
    Mongo → Platform → Webhook → String → WebhookBody → Db → Result Admission
admit_order m pf w event_id body db =
    found_order (m.orders.find_one (λ o. o.id == body.order_id) db.orders)
    >>= check_order m pf w event_id body db

abbrev pub if_new :
    Mongo → Platform → Webhook → String → Db → Option PaymentEvent → Result Admission
if_new m pf w event_id db (some e) = ok replayed
if_new m pf w event_id db none = w.body >>= λ body. admit_order m pf w event_id body db

abbrev pub check_event : Mongo → Platform → Webhook → String → Db → Result Admission
check_event m pf w event_id db = if_new m pf w event_id db (
    m.payment_events.find_one (is_event (provider_of pf w) event_id (digest_of pf w))
      db.payment_events)

abbrev pub is_trusted : Platform → Webhook → Bool
is_trusted pf w = any (λ p. str_eq p (provider_of pf w)) pf.trusted_providers

abbrev pub check_provider : Mongo → Platform → Webhook → String → Db → Result Admission
check_provider m pf w event_id db =
    require (is_trusted pf w) (un_authorized "Unknown payment provider")
    >> check_event m pf w event_id db

unfoldable pub admit : Mongo → Platform → Webhook → Date → Db → Result Admission
admit m pf w now db = do
  event_id ← present w.event_id (bad_request "Webhook event id is required")
  verify_webhook_signature pf w.raw_payload w.signature w.timestamp now
  check_provider m pf w event_id db

-- `transitionOrder`: the order must still be as it was read.
abbrev pub is_unchanged : Order → Order → Bool
is_unchanged order o =
    o.id == order.id
    && (payment_eq o.payment_status order.payment_status && order_eq o.status order.status)

abbrev pub refund_after : PaymentStatus → RefundStatus → RefundStatus
refund_after to status =
    if payment_eq to PaymentStatus.refunded then RefundStatus.processed else status

abbrev pub reference_after : Option String → String → String
reference_after none old = old
reference_after (some r) old = if str_eq r "" then old else r

abbrev pub transitioned : Platform → Webhook → WebhookBody → Order → Date → Order → Order
transitioned pf w body order now o = record o {
  payment_status = target_state body.type_name;
  status = next_order_status order (target_state body.type_name);
  refund_status = refund_after (target_state body.type_name) o.refund_status;
  payment_provider = provider_of pf w;
  payment_reference = reference_after body.payment_reference o.payment_reference;
  payment_state_history =
      o.payment_state_history
      ++ (record {
        from = order.payment_status;
        to = target_state body.type_name;
        at = now;
        reason = type_text body.type_name;
      })
        ∷ [];
  updated_at = now;
}

unfoldable pub commit_reservations : Mongo → ObjectId → Db → Db
commit_reservations m order_id db = record db {
  reservations =
      m.reservations.update_many (is_reserved_for order_id) (set_status ReservationStatus.committed)
        db.reservations;
}

unfoldable pub settle_reservations : Mongo → PaymentStatus → ObjectId → Db → Db
unfolding commit_reservations release_order_reservations
settle_reservations m to order_id db =
    if payment_eq to PaymentStatus.paid
    then commit_reservations m order_id db
    else (release_order_reservations m order_id ReleaseStatus.released db).1

abbrev pub new_event :
    Platform → Webhook → String → WebhookBody → ObjectId → ObjectId → PaymentEvent
new_event pf w event_id body order_id id = record {
  id = id;
  provider = provider_of pf w;
  event_id = event_id;
  signed_digest = some (digest_of pf w);
  order = order_id;
  type_name = type_text body.type_name;
  payload_hash = pf.sha256_hex w.raw_payload;
}

unfoldable pub create_event : Mongo → Platform → Webhook → String → WebhookBody → ObjectId → Db → Db
create_event m pf w event_id body order_id db = record db {
  payment_events =
      m.payment_events.create (new_event pf w event_id body order_id db.next_id) db.payment_events;
  next_id = db.next_id + 1;
}

abbrev pub event_type : PaymentStatus → String
event_type to =
    if payment_eq to PaymentStatus.paid
    then "payment.completed"
    else if payment_eq to PaymentStatus.failed
    then "payment.failed"
    else "payment.refunded"

-- What follows the transition, `afterWebhook` included; `none` is a lost compare-and-set.
unfoldable pub settle_webhook :
    Mongo → Platform → Webhook → String → WebhookBody → Option Order → Db → Result Reply × Db
unfolding settle_reservations create_event publish_event
settle_webhook m pf w event_id body none db =
    (err (conflict "Order changed while processing the payment; retry"), db)
settle_webhook m pf w event_id body (some order) db =
    let to = target_state body.type_name in
    let db1 = settle_reservations m to order.id db in
    let db2 = create_event m pf w event_id body order.id db1 in
    (ok (updated order), publish_event m (event_type to) order.id order.tenant "" db2)

unfoldable pub transition_order :
    Mongo → Platform → Webhook → WebhookBody → Order → Date → Db → Option Order × Db
transition_order m pf w body order now db =
    let (current, orders) =
      m.orders.find_one_and_update (is_unchanged order) (transitioned pf w body order now)
        db.orders in
    (current, record db { orders = orders })

unfoldable pub current_order :
    Mongo → Platform → Webhook → WebhookBody → Order → Date → Db → Option Order × Db
unfolding transition_order
current_order m pf w body order now db =
    if payment_eq order.payment_status (target_state body.type_name)
    then (some order, db)
    else transition_order m pf w body order now db

-- `recordSecuritySignal` before the error is thrown.
abbrev pub new_signal : Platform → Webhook → Alarm → String → Order → ObjectId → PaymentSignal
new_signal pf w alarm event_id order id = record {
  id = id;
  kind = signal_name alarm;
  tenant = order.tenant;
  order = order.id;
  provider = provider_of pf w;
  event_id = event_id;
}

unfoldable pub record_signal : Mongo → Platform → Webhook → Alarm → String → Order → Db → Db
record_signal m pf w alarm event_id order db = record db {
  payment_signals =
      m.payment_signals.create (new_signal pf w alarm event_id order db.next_id) db.payment_signals;
  next_id = db.next_id + 1;
}

unfoldable pub run_webhook :
    Mongo → Platform → Webhook → Date → Db → Result Admission → Result Reply × Db
unfolding settle_webhook current_order record_signal failure_after
run_webhook m pf w now db (err e) = (err e, db)
run_webhook m pf w now db (ok replayed) = (ok replay, db)
run_webhook m pf w now db (ok (alarmed alarm event_id order)) =
    (err (failure_after alarm), record_signal m pf w alarm event_id order db)
run_webhook m pf w now db (ok (admitted event_id body order)) =
    let (current, db') = current_order m pf w body order now db in
    settle_webhook m pf w event_id body current db'

unfoldable pub process_webhook : Mongo → Platform → Webhook → Date → Db → Result Reply × Db
unfolding run_webhook admit
process_webhook m pf w now db = run_webhook m pf w now db (admit m pf w now db)
