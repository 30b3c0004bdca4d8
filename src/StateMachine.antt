-- ===== src/StateMachine.antt =====
-- src/services/orderStateMachine.ts and src/services/paymentStateMachine.ts. A transition table is
-- a function from a status to the list of its successors.
pub mod Paths
mod Tests
use ecommerce_rest_api.Base.{
  ℕ, String, Bool, ◌||◌, ◌&&◌, List, [], ◌∷◌, ◌++◌, if◌then◌else◌, any, ◌==◌,
}
use ecommerce_rest_api.Domain.{
  OrderStatus, PaymentStatus, RefundStatus, Date, PaymentTransition, Order,
}
use ecommerce_rest_api.Errors.{Result, ok, err, bad_request, conflict, ◌>>=◌, ◌>>◌}

-- `===` on the string unions, by the position of each value.
abbrev order_index : OrderStatus → ℕ
order_index OrderStatus.pending = 0
order_index OrderStatus.confirmed = 1
order_index OrderStatus.processing = 2
order_index OrderStatus.shipped = 3
order_index OrderStatus.delivered = 4
order_index OrderStatus.cancelled = 5
order_index OrderStatus.refund_requested = 6
order_index OrderStatus.refunded = 7

abbrev pub order_eq : OrderStatus → OrderStatus → Bool
order_eq a b = order_index a == order_index b

abbrev payment_index : PaymentStatus → ℕ
payment_index PaymentStatus.unpaid = 0
payment_index PaymentStatus.authorized = 1
payment_index PaymentStatus.paid = 2
payment_index PaymentStatus.failed = 3
payment_index PaymentStatus.refunded = 4

abbrev pub payment_eq : PaymentStatus → PaymentStatus → Bool
payment_eq a b = payment_index a == payment_index b

abbrev refund_index : RefundStatus → ℕ
refund_index RefundStatus.none = 0
refund_index RefundStatus.requested = 1
refund_index RefundStatus.approved = 2
refund_index RefundStatus.rejected = 3
refund_index RefundStatus.processed = 4

abbrev pub refund_eq : RefundStatus → RefundStatus → Bool
refund_eq a b = refund_index a == refund_index b

abbrev pub is_order_in : OrderStatus → List OrderStatus → Bool
is_order_in s = any (order_eq s)

abbrev pub is_payment_in : PaymentStatus → List PaymentStatus → Bool
is_payment_in s = any (payment_eq s)

abbrev fulfilment_transitions : OrderStatus → List OrderStatus
fulfilment_transitions OrderStatus.pending = OrderStatus.confirmed ∷ OrderStatus.cancelled ∷ []
fulfilment_transitions OrderStatus.confirmed =
    OrderStatus.processing ∷ OrderStatus.shipped ∷ OrderStatus.delivered ∷ OrderStatus.cancelled
    ∷ []
fulfilment_transitions OrderStatus.processing = OrderStatus.shipped ∷ OrderStatus.delivered ∷ []
fulfilment_transitions OrderStatus.shipped = OrderStatus.delivered ∷ []
fulfilment_transitions _ = []

unfoldable pub can_transition_order : OrderStatus → OrderStatus → Bool
can_transition_order from to = order_eq from to || is_order_in to (fulfilment_transitions from)

unfoldable pub assert_order_transition : OrderStatus → OrderStatus → Result (Unit {0})
unfolding can_transition_order
assert_order_transition from to =
    if can_transition_order from to then ok tt else err (conflict "Invalid order transition")

abbrev refund_transitions : RefundStatus → List RefundStatus
refund_transitions RefundStatus.none = RefundStatus.requested ∷ []
refund_transitions RefundStatus.requested =
    RefundStatus.approved ∷ RefundStatus.rejected ∷ RefundStatus.processed ∷ []
refund_transitions RefundStatus.approved = RefundStatus.processed ∷ []
refund_transitions _ = []

unfoldable pub can_transition_refund : RefundStatus → RefundStatus → Bool
can_transition_refund from to = any (refund_eq to) (refund_transitions from)

abbrev pub cancellable_statuses : List OrderStatus
cancellable_statuses = OrderStatus.pending ∷ OrderStatus.confirmed ∷ []

abbrev pub refundable_statuses : List OrderStatus
refundable_statuses = OrderStatus.delivered ∷ []

abbrev allowed_transitions : PaymentStatus → List PaymentStatus
allowed_transitions PaymentStatus.unpaid =
    PaymentStatus.authorized ∷ PaymentStatus.paid ∷ PaymentStatus.failed ∷ []
allowed_transitions PaymentStatus.authorized =
    PaymentStatus.paid ∷ PaymentStatus.failed ∷ PaymentStatus.refunded ∷ []
allowed_transitions PaymentStatus.paid = PaymentStatus.refunded ∷ []
allowed_transitions _ = []

unfoldable pub assert_payment_transition : PaymentStatus → PaymentStatus → Result (Unit {0})
assert_payment_transition from to =
    if payment_eq from to || is_payment_in to (allowed_transitions from)
    then ok tt
    else err (bad_request "Invalid payment transition")

-- The new order stands for the mutated one; `now` is the default of the entry's `at`.
unfoldable pub apply_payment_transition : Order → PaymentStatus → String → Date → Result Order
unfolding assert_payment_transition
apply_payment_transition order to reason now = do
  assert_payment_transition order.payment_status to
  let entry : PaymentTransition = record {
    from = order.payment_status;
    to = to;
    at = now;
    reason = reason;
  }
  ok (record order {
    payment_state_history = order.payment_state_history ++ entry ∷ [];
    payment_status = to;
    status =
        if payment_eq to PaymentStatus.paid && order_eq order.status OrderStatus.pending
        then OrderStatus.confirmed
        else order.status;
  })
