-- ===== src/Events.antt =====
-- src/infra/events/eventBus.ts: the outbox. An event is a document; of its payload the reason is
-- kept. Delivery (`dispatchEvent`) puts a job on an in-process queue and writes a log line, which
-- change no document, so `publish_event` is here the record alone.
use ecommerce_rest_api.Base.{String, ◌+◌}
use ecommerce_rest_api.Domain.{ObjectId, DomainEvent}
use ecommerce_rest_api.Mongo.{Mongo, Db}

unfoldable pub record_event : Mongo → String → ObjectId → String → String → Db → Db
record_event m type_name aggregate_id tenant reason db =
    let event : DomainEvent = record {
      id = db.next_id;
      type_name = type_name;
      aggregate_id = aggregate_id;
      tenant = tenant;
      reason = reason;
    } in
    record db {
      domain_events = m.domain_events.create event db.domain_events;
      next_id = db.next_id + 1;
    }

unfoldable pub publish_event : Mongo → String → ObjectId → String → String → Db → Db
unfolding record_event
publish_event = record_event
