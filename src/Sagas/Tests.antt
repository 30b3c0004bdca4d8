-- ===== src/Sagas/Tests.antt =====
-- A follow-up that stops at the event of the saga, and an event that is consumed.
use ecommerce_rest_api.Base.{◌≡◌, false, none, [], refl, ◌==◌}
use ecommerce_rest_api.Domain.{DomainEvent}
use ecommerce_rest_api.Errors.{ok}
use ecommerce_rest_api.Sagas.{
  Outbox, after_checkout, start_order_saga, queue_info, queue_notification, consume_event,
}
use ecommerce_rest_api.Sagas.Committed.{reference_channels}

abbrev empty : Outbox
empty = record {
  notifications = [];
  sagas = [];
  events = [];
  processed = [];
  jobs = [];
  next_id = 50;
}

stops-at_event :
    queue_info (after_checkout reference_channels (λ n. n == 2) 7 "default" 30 empty).1 ≡ 1
unfolding after_checkout start_order_saga queue_info queue_notification
stops-at_event = refl

abbrev created : DomainEvent
created = record {
  id = 52;
  type_name = "order.created";
  aggregate_id = 30;
  tenant = "default";
  reason = "";
}

consume-unknown : consume_event (λ kind. none) created empty ≡ (ok false, empty)
unfolding consume_event
consume-unknown = refl
