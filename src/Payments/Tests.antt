-- ===== src/Payments/Tests.antt =====
-- Witnesses for webhooks.
use ecommerce_rest_api.Base.{◌≡◌, refl, some, arith, ◌⊎◌, ◌∷◌, []}
use ecommerce_rest_api.Domain.{Order, OrderStatus, PaymentStatus}
use ecommerce_rest_api.Errors.{Result, ok, not_found}
use ecommerce_rest_api.Mongo.{Db}
use ecommerce_rest_api.Mongo.Documents.{IsUnique}
use ecommerce_rest_api.Mongo.Laws.{reference, reference-IsMongo}
use ecommerce_rest_api.Sample.{order_of, sample_db, sample_now, sample_platform, paid_webhook}
use ecommerce_rest_api.Inventory.Units.{IsBacked, Conserves}
use ecommerce_rest_api.Payments.{
  Platform, record_signal, failure_after, Webhook, Reply, updated, target_state,
  verify_webhook_signature, admit_order, process_webhook,
}
use ecommerce_rest_api.StateMachine.{assert_payment_transition}
use ecommerce_rest_api.Payments.Effects.{
  HasNoEffect, process_webhook-Conserves, process_webhook-HasNoEffect, process_webhook-error,
  IsSignalled,
}
use ecommerce_rest_api.Payments.Settled.{IsSettled, process_webhook-IsSettled}

orders-IsUnique : IsUnique (λ o. o.id) sample_db.orders
orders-IsUnique = ground arith

sample_db-IsBacked : IsBacked sample_db
sample_db-IsBacked = (refl, (refl, tt))

abbrev webhook_run : Result Reply × Db
unfolding process_webhook
webhook_run = process_webhook reference sample_platform paid_webhook sample_now sample_db

abbrev order_in : Result Reply → Order
order_in (ok (updated o)) = o
order_in _ = order_of 0 OrderStatus.pending PaymentStatus.unpaid

-- The same content under another event id.
abbrev replayed_webhook : Webhook
replayed_webhook = record paid_webhook { event_id = some "evt_2" }

-- A trusted provider that is not the one of the order's tenant.
abbrev open_platform : Platform
open_platform = record sample_platform { trusted_providers = "other" ∷ [] }

abbrev foreign_webhook : Webhook
foreign_webhook = record paid_webhook { provider = some "other" }

abbrev after_foreign : Db
unfolding process_webhook
after_foreign = (process_webhook reference open_platform foreign_webhook sample_now sample_db).1

process_webhook-Conserves_example : Conserves sample_db webhook_run.1
unfolding webhook_run
process_webhook-Conserves_example =
    process_webhook-Conserves reference sample_platform paid_webhook sample_now sample_db
      reference-IsMongo sample_db-IsBacked

process_webhook-HasNoEffect_example :
    HasNoEffect webhook_run.1
      (process_webhook reference sample_platform replayed_webhook sample_now webhook_run.1)
unfolding webhook_run process_webhook verify_webhook_signature admit_order assert_payment_transition
    target_state
process_webhook-HasNoEffect_example =
    process_webhook-HasNoEffect reference sample_platform paid_webhook replayed_webhook sample_now
      sample_now sample_db (order_in webhook_run.0) webhook_run.1 reference-IsMongo refl refl

process_webhook-error_example :
    (after_foreign ≡ sample_db)
    ⊎ IsSignalled open_platform foreign_webhook sample_now sample_db
        (record { status = 404; message = "Order not found" })
        after_foreign
unfolding process_webhook not_found verify_webhook_signature admit_order record_signal failure_after
    after_foreign
process_webhook-error_example =
    process_webhook-error reference open_platform foreign_webhook sample_now sample_db
      (not_found "Order not found") after_foreign reference-IsMongo refl

process_webhook-IsSettled_example :
    IsSettled sample_platform paid_webhook sample_now sample_db
      (order_in webhook_run.0)
      webhook_run.1
unfolding webhook_run process_webhook verify_webhook_signature admit_order assert_payment_transition
    target_state
process_webhook-IsSettled_example =
    process_webhook-IsSettled reference sample_platform paid_webhook sample_now sample_db
      (order_in webhook_run.0) webhook_run.1 reference-IsMongo orders-IsUnique refl
