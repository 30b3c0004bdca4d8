-- ===== src/Sagas.antt =====
-- What follows a committed checkout: `afterCheckout` of src/services/OrderService.ts with
-- src/services/notificationService.ts, src/infra/saga/sagaOrchestrator.ts, src/utils/queue.ts and the
-- delivery half of src/infra/events/eventBus.ts. Any awaited call may throw: `fails` says which, by
-- its number. Payloads, job ids and dates are left out; alerts and logs are output.
pub mod Committed
mod Tests
use ecommerce_rest_api.Base.{
  ℕ, String, ◌+◌, Bool, true, false, Option, none, some, List, [], ◌∷◌, ◌++◌, if◌then◌else◌, str_eq,
  ◌==◌, ◌&&◌, length, keep,
}
use ecommerce_rest_api.Domain.{ObjectId, DomainEvent, Order}
use ecommerce_rest_api.Errors.{AppError, Result, ok, err, server_error}
use ecommerce_rest_api.Mongo.{Collection}

pub data JobStatus : Type 0 where
  queued running done failed : JobStatus

pub record Job : Type 0 where
  pub name : String
  pub subject : ObjectId
  pub status : JobStatus

pub record Notification : Type 0 where
  pub id : ObjectId
  pub user : ObjectId
  pub tenant : String
  pub template : String

pub data StepStatus : Type 0 where
  pending completed : StepStatus

pub data SagaStatus : Type 0 where
  is_running is_compensating : SagaStatus

pub record SagaInstance : Type 0 where
  pub id : ObjectId
  pub aggregate_id : ObjectId
  pub tenant : String
  pub status : SagaStatus
  pub steps : List (String × StepStatus)
  pub compensations : List String

-- What the follow-up writes to; `processed` are the events marked so.
pub record Outbox : Type 0 where
  pub notifications : List Notification
  pub sagas : List SagaInstance
  pub events : List DomainEvent
  pub processed : List ObjectId
  pub jobs : List Job
  pub next_id : ObjectId

pub record Channels : Type 0 where
  pub notifications : Collection Notification
  pub sagas : Collection SagaInstance
  pub events : Collection DomainEvent

abbrev pub Step : Type 0
Step = Outbox → Result (Unit {0}) × Outbox

abbrev and_next : Result (Unit {0}) × Outbox → Step → Result (Unit {0}) × Outbox
and_next (err failure, box) next = (err failure, box)
and_next (ok _, box) next = next box

-- An awaited call, which throws or writes.
abbrev pub call : (ℕ → Bool) → ℕ → (Outbox → Outbox) → Step
call fails n write box =
    if fails n then (err (server_error "Database unavailable"), box) else (ok tt, write box)

infixr 30 ◌then_do◌
abbrev pub ◌then_do◌ : Step → Step → Step
(first then_do next) box = and_next (first box) next

-- In memory; it does not throw.
unfoldable pub enqueue_job : String → ObjectId → Outbox → Outbox
enqueue_job name subject box = record box {
  jobs = box.jobs ++ (record { name = name; subject = subject; status = queued }) ∷ [];
}

abbrev is_queued : JobStatus → Bool
is_queued queued = true
is_queued _ = false

unfoldable pub queue_info : Outbox → ℕ
queue_info box = length (keep (λ job. is_queued job.status) box.jobs)

unfoldable pub queue_notification : Channels → ObjectId → String → String → Outbox → Outbox
unfolding enqueue_job
queue_notification c user tenant template box =
    let note : Notification = record {
      id = box.next_id;
      user = user;
      tenant = tenant;
      template = template;
    } in
    enqueue_job "notification.send" note.id (record box {
      notifications = c.notifications.create note box.notifications;
      next_id = box.next_id + 1;
    })

-- `recordEvent`, then `dispatchEvent`.
unfoldable pub publish : Channels → String → ObjectId → String → String → Outbox → Outbox
unfolding enqueue_job
publish c type_name aggregate_id tenant reason box =
    let event : DomainEvent = record {
      id = box.next_id;
      type_name = type_name;
      aggregate_id = aggregate_id;
      tenant = tenant;
      reason = reason;
    } in
    enqueue_job "domain.event.dispatch" event.id
      (record box { events = c.events.create event box.events; next_id = box.next_id + 1 })

abbrev pub create_saga : Channels → ObjectId → String → Outbox → Outbox
create_saga c order tenant box =
    let saga : SagaInstance = record {
      id = box.next_id;
      aggregate_id = order;
      tenant = tenant;
      status = is_running;
      steps =
          ("order.created", completed)
          ∷ ("inventory.reserved", completed)
          ∷ ("payment.pending", pending)
          ∷ ("shipment.pending", pending)
          ∷ [];
      compensations = [];
    } in
    record box { sagas = c.sagas.create saga box.sagas; next_id = box.next_id + 1 }

unfoldable pub start_order_saga : Channels → (ℕ → Bool) → ObjectId → String → Step
unfolding publish
start_order_saga c fails order tenant =
    call fails 1 (create_saga c order tenant)
    then_do call fails 2 (publish c "order.created" order tenant "")

unfoldable pub compensate_order_saga : Channels → (ℕ → Bool) → ObjectId → String → String → Step
unfolding publish
compensate_order_saga c fails order tenant reason =
    call fails 0 (λ box. record box {
      sagas =
          (c.sagas.update_one (λ s. s.aggregate_id == order)
            (λ s. record s {
              status = is_compensating;
              compensations = s.compensations ++ reason ∷ [];
            })
            box.sagas).1;
    })
    then_do call fails 1 (publish c "order.compensation_requested" order tenant reason)

unfoldable pub after_checkout : Channels → (ℕ → Bool) → ObjectId → String → ObjectId → Step
unfolding queue_notification start_order_saga publish
after_checkout c fails user tenant order =
    call fails 0 (queue_notification c user tenant "order.created")
    then_do start_order_saga c fails order tenant
    then_do call fails 3 (publish c "inventory.reserved" order tenant "")

-- The end of `checkout`: a committed order is the answer, whatever the follow-up does.
abbrev pub follow_up :
    Channels → (ℕ → Bool) → ObjectId → String → Result Order → Outbox → Result Order × Outbox
unfolding after_checkout
follow_up c fails user tenant (err failure) box = (err failure, box)
follow_up c fails user tenant (ok order) box =
    (ok order, (after_checkout c fails user tenant order.id box).1)

-- The result of a handler that may throw; `none` is an event type without a handler.
abbrev pub handled : ObjectId → Outbox → Option (Result (Unit {0})) → Result Bool × Outbox
handled id box none = (ok false, box)
handled id box (some (err failure)) = (err failure, box)
handled id box (some (ok _)) = (ok true, record box { processed = id ∷ box.processed })

abbrev applied : {A B : Type 0} → Option (A → B) → A → Option B
applied none a = none
applied (some f) a = some (f a)

unfoldable pub consume_event :
    (String → Option (DomainEvent → Result (Unit {0})))
    → DomainEvent
    → Outbox
    → Result Bool × Outbox
consume_event handlers event box = handled event.id box (applied (handlers event.type_name) event)
