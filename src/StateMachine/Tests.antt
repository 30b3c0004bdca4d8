-- ===== src/StateMachine/Tests.antt =====
-- Witnesses for the state machines.
use ecommerce_rest_api.Base.{◌≡◌, ◌≢◌, ◌<◌, ◌≤◌, ◌⊎◌, [], ◌∷◌, refl}
use ecommerce_rest_api.Domain.{Order, OrderStatus, PaymentStatus}
use ecommerce_rest_api.Errors.{ok}
use ecommerce_rest_api.Sample.{order_of}
use ecommerce_rest_api.StateMachine.{
  assert_order_transition, assert_payment_transition, apply_payment_transition,
}
use ecommerce_rest_api.StateMachine.Paths.{
  OrderPath, PaymentPath, progress, settled, Leads, paths_forward, apply_payment_transition-Leads,
}

confirmed_path : OrderPath OrderStatus.pending OrderStatus.confirmed
unfolding assert_order_transition
confirmed_path = OrderPath.then OrderPath.here refl

shipped_path : OrderPath OrderStatus.pending OrderStatus.shipped
unfolding assert_order_transition
shipped_path = OrderPath.then confirmed_path refl

paid_path : PaymentPath PaymentStatus.unpaid PaymentStatus.paid
unfolding assert_payment_transition
paid_path = PaymentPath.then PaymentPath.here refl

paths_forward_example :
    ((OrderStatus.pending ≡ OrderStatus.shipped)
      ⊎ (progress OrderStatus.pending < progress OrderStatus.shipped))
    × (OrderStatus.shipped ≡ OrderStatus.cancelled
        → OrderStatus.pending ≢ OrderStatus.cancelled
        → progress OrderStatus.pending ≤ 1)
    × ((PaymentStatus.unpaid ≡ PaymentStatus.paid)
        ⊎ (settled PaymentStatus.unpaid < settled PaymentStatus.paid))
    × ((PaymentStatus.unpaid ≡ PaymentStatus.failed)
          ⊎ (PaymentStatus.unpaid ≡ PaymentStatus.refunded)
        → PaymentStatus.paid ≡ PaymentStatus.unpaid)
    × (PaymentStatus.unpaid ≡ PaymentStatus.paid
        → (PaymentStatus.paid ≡ PaymentStatus.paid) ⊎ (PaymentStatus.paid ≡ PaymentStatus.refunded))
paths_forward_example = paths_forward shipped_path paid_path

abbrev open_order : Order
open_order = order_of 30 OrderStatus.pending PaymentStatus.unpaid

abbrev paid_order : Order
paid_order = record open_order {
  payment_state_history =
      (record {
        from = PaymentStatus.unpaid;
        to = PaymentStatus.paid;
        at = 5;
        reason = "payment.succeeded";
      })
      ∷ [];
  payment_status = PaymentStatus.paid;
  status = OrderStatus.confirmed;
}

apply_payment_transition-Leads_example :
    Leads PaymentStatus.unpaid paid_order.payment_state_history paid_order.payment_status
    × (paid_order.payment_status ≡ PaymentStatus.paid)
    × (assert_order_transition open_order.status paid_order.status ≡ ok tt)
    × (paid_order.status ≢ open_order.status → PaymentStatus.paid ≡ PaymentStatus.paid)
unfolding apply_payment_transition
apply_payment_transition-Leads_example =
    apply_payment_transition-Leads PaymentStatus.unpaid open_order PaymentStatus.paid
      "payment.succeeded" 5 {o' = paid_order} refl refl
