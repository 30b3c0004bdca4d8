-- ===== src/Orders/Tests.antt =====
-- Witnesses for cancellations and refunds.
use ecommerce_rest_api.Base.{true, refl, arith}
use ecommerce_rest_api.Domain.{Order, OrderStatus, PaymentStatus}
use ecommerce_rest_api.Errors.{Result, bad_request}
use ecommerce_rest_api.Mongo.{Db}
use ecommerce_rest_api.Mongo.Documents.{IsUnique}
use ecommerce_rest_api.Mongo.Laws.{reference, reference-IsMongo}
use ecommerce_rest_api.Sample.{order_of, sample_db, sample_request, sample_now}
use ecommerce_rest_api.Inventory.Units.{IsBacked}
use ecommerce_rest_api.Orders.{
  Cancelled, cancel, request_refund, refund_fields, cancelled_refund_fields,
}
use ecommerce_rest_api.Orders.Cancel.{IsCancelled, IsRefused, cancel-IsCancelled, cancel-IsRefused}
use ecommerce_rest_api.Orders.Refund.{IsRequested, request_refund-IsRequested}

orders-IsUnique : IsUnique (λ o. o.id) sample_db.orders
orders-IsUnique = ground arith

reservations-IsUnique : IsUnique (λ r. r.id) sample_db.reservations
reservations-IsUnique = ground arith

sample_db-IsBacked : IsBacked sample_db
sample_db-IsBacked = (refl, (refl, tt))

-- The paid order 31, cancelled with its refund.
abbrev cancelled_31 : Cancelled
cancelled_31 = record {
  order =
      cancelled_refund_fields "late" sample_now
        (order_of 31 OrderStatus.confirmed PaymentStatus.paid);
  refund_opened = true;
}

abbrev cancel_run : Result Cancelled × Db
unfolding cancel
cancel_run = cancel reference sample_request 31 "late" sample_now sample_db

cancel-IsCancelled_example :
    IsCancelled sample_request 31 "late" sample_now sample_db cancelled_31 cancel_run.1
unfolding cancel_run cancel
cancel-IsCancelled_example =
    cancel-IsCancelled reference sample_request 31 "late" sample_now sample_db cancelled_31
      cancel_run.1 reference-IsMongo orders-IsUnique sample_db-IsBacked reservations-IsUnique refl

cancel-IsRefused_example :
    IsRefused sample_request 32 sample_db
      (bad_request "Order cannot be cancelled in its current state")
      sample_db
unfolding cancel bad_request
cancel-IsRefused_example =
    cancel-IsRefused reference sample_request 32 "late" sample_now sample_db
      (bad_request "Order cannot be cancelled in its current state") sample_db reference-IsMongo
      refl

abbrev refunded_32 : Order
refunded_32 =
    refund_fields "broken" sample_now (order_of 32 OrderStatus.delivered PaymentStatus.paid)

abbrev refund_run : Result Order × Db
unfolding request_refund
refund_run = request_refund reference 30 sample_request 32 "broken" sample_now sample_db

request_refund-IsRequested_example :
    IsRequested 30 sample_request 32 "broken" sample_now sample_db refunded_32 refund_run.1
unfolding refund_run request_refund
request_refund-IsRequested_example =
    request_refund-IsRequested reference 30 sample_request 32 "broken" sample_now sample_db
      refunded_32 refund_run.1 reference-IsMongo orders-IsUnique refl
