-- ===== src/Sagas/Committed.antt =====
-- What the follow-up of a committed checkout leaves, at whichever call it stops.
use ecommerce_rest_api.Base.{
  ℕ, String, ◌≡◌, Bool, true, ◌&&◌, List, [], ◌∷◌, ◌++◌, refl, Bool-cases, inl, inr, str_eq, ◌==◌,
  ==_refl, any, All,
}
use ecommerce_rest_api.Domain.{ObjectId, DomainEvent, Order}
use ecommerce_rest_api.Errors.{Result, ok, err}
use ecommerce_rest_api.Mongo.Documents.{All-concat, All-mono}
use ecommerce_rest_api.Mongo.Laws.{reference_collection}
use ecommerce_rest_api.Sagas.{
  Job, queued, Notification, Outbox, Channels, Step, call, and_next, ◌then_do◌, enqueue_job,
  queue_notification, publish, create_saga, start_order_saga, after_checkout, follow_up,
}

abbrev pub reference_channels : Channels
reference_channels = record {
  notifications = reference_collection;
  sagas = reference_collection;
  events = reference_collection;
}

abbrev pub is_job_for : String → ObjectId → Job → Bool
is_job_for name subject job = str_eq job.name name && job.subject == subject

-- Everything recorded has its job.
pub record IsQueued (box : Outbox) : Type 0 where
  pub notes :
      All (λ note. any (is_job_for "notification.send" note.id) box.jobs ≡ true) box.notifications
  pub dispatches :
      All (λ event. any (is_job_for "domain.event.dispatch" event.id) box.jobs ≡ true) box.events

any-left : {A : Type 0} (p : A → Bool) (xs ys : List A) → any p xs ≡ true → any p (xs ++ ys) ≡ true
any-left p [] ys h = cc
any-left p (x ∷ xs) ys h = elim (Bool-cases (p x)) [
  | inl hit ↦ rw (hit) refl
  | inr miss ↦ let ih = any-left p xs ys (rw (miss) at h) in rw (miss, ih) refl
]

any-right :
    {A : Type 0} (p : A → Bool) (xs : List A) (y : A) → p y ≡ true → any p (xs ++ y ∷ []) ≡ true
any-right p [] y h = rw (h) refl
any-right p (x ∷ xs) y h = elim (Bool-cases (p x)) [
  | inl hit ↦ rw (hit) refl
  | inr miss ↦ let ih = any-right p xs y h in rw (miss, ih) refl
]

abbrev KeepsQueued : Step → Type 0
KeepsQueued step = (box : Outbox) → IsQueued box → IsQueued (step box).1

call-KeepsQueued :
    (fails : ℕ → Bool) (n : ℕ) (write : Outbox → Outbox)
    → ((box : Outbox) → IsQueued box → IsQueued (write box))
    → KeepsQueued (call fails n write)
call-KeepsQueued fails n write k box h = elim (Bool-cases (fails n)) [
  | inl thrown ↦ rw (thrown) h
  | inr done ↦ rw (done) (k box h)
]

and_next-KeepsQueued :
    (outcome : Result (Unit {0}) × Outbox) (next : Step)
    → IsQueued outcome.1
    → KeepsQueued next
    → IsQueued (and_next outcome next).1
and_next-KeepsQueued (err failure, box) next h k = h
and_next-KeepsQueued (ok _, box) next h k = k box h

then-KeepsQueued :
    (first next : Step) → KeepsQueued first → KeepsQueued next → KeepsQueued (first then_do next)
then-KeepsQueued first next h k box q = and_next-KeepsQueued (first box) next (h box q) k

-- One more job takes none away.
queued_before :
    {A : Type 0} (name : String) (id : A → ObjectId) (jobs : List Job) (job : Job) (xs : List A)
    → All (λ x. any (is_job_for name (id x)) jobs ≡ true) xs
    → All (λ x. any (is_job_for name (id x)) (jobs ++ job ∷ []) ≡ true) xs
queued_before name id jobs job xs h =
    All-mono (λ x. any (is_job_for name (id x)) jobs ≡ true)
      (λ x. any (is_job_for name (id x)) (jobs ++ job ∷ []) ≡ true) xs
      (λ x. any-left (is_job_for name (id x)) jobs (job ∷ [])) h

notified-IsQueued :
    (user : ObjectId) (tenant template : String) (box : Outbox)
    → IsQueued box
    → IsQueued (queue_notification reference_channels user tenant template box)
unfolding queue_notification enqueue_job
notified-IsQueued user tenant template box h =
    let job : Job = record { name = "notification.send"; subject = box.next_id; status = queued } in
    record {
      notes =
          All-concat
            (λ note. any (is_job_for "notification.send" note.id) (box.jobs ++ job ∷ []) ≡ true)
            box.notifications _
            (queued_before "notification.send" (λ (note : Notification). note.id) box.jobs job
              box.notifications h.notes)
            (
              any-right (is_job_for "notification.send" box.next_id) box.jobs job
                  (==_refl box.next_id),
              tt,
            );
      dispatches =
          queued_before "domain.event.dispatch" (λ (event : DomainEvent). event.id) box.jobs job
            box.events h.dispatches;
    }

published-IsQueued :
    (type_name : String) (aggregate_id : ObjectId) (tenant reason : String) (box : Outbox)
    → IsQueued box
    → IsQueued (publish reference_channels type_name aggregate_id tenant reason box)
unfolding publish enqueue_job
published-IsQueued type_name aggregate_id tenant reason box h =
    let job : Job = record {
      name = "domain.event.dispatch";
      subject = box.next_id;
      status = queued;
    } in
    record {
      notes =
          queued_before "notification.send" (λ (note : Notification). note.id) box.jobs job
            box.notifications h.notes;
      dispatches =
          All-concat
            (λ event.
              any (is_job_for "domain.event.dispatch" event.id) (box.jobs ++ job ∷ []) ≡ true)
            box.events _
            (queued_before "domain.event.dispatch" (λ (event : DomainEvent). event.id) box.jobs job
              box.events h.dispatches)
            (
              any-right (is_job_for "domain.event.dispatch" box.next_id) box.jobs job
                  (==_refl box.next_id),
              tt,
            );
    }

-- At whichever call the follow-up of a committed checkout stops, the answer is the order, and every
-- notification and event that it recorded has its job on the queue.
follow_up-IsQueued :
    (fails : ℕ → Bool) (user : ObjectId) (tenant : String) (order : Order) (box : Outbox)
    → IsQueued box
    → ((follow_up reference_channels fails user tenant (ok order) box).0 ≡ ok order)
      × IsQueued (follow_up reference_channels fails user tenant (ok order) box).1
unfolding follow_up after_checkout start_order_saga
follow_up-IsQueued fails user tenant order box h =
    let c = reference_channels in
    let notify : Step = call fails 0 (queue_notification c user tenant "order.created") in
    let saga : Step = call fails 1 (create_saga c order.id tenant) in
    let created : Step = call fails 2 (publish c "order.created" order.id tenant "") in
    let reserved : Step = call fails 3 (publish c "inventory.reserved" order.id tenant "") in
    let started : Step = saga then_do created in
    let notify_keeps : KeepsQueued notify =
      call-KeepsQueued fails 0 (queue_notification c user tenant "order.created")
        (notified-IsQueued user tenant "order.created") in
    let saga_keeps : KeepsQueued saga =
      call-KeepsQueued fails 1 (create_saga c order.id tenant)
        (λ box h. record { notes = h.notes; dispatches = h.dispatches }) in
    let created_keeps : KeepsQueued created =
      call-KeepsQueued fails 2 (publish c "order.created" order.id tenant "")
        (published-IsQueued "order.created" order.id tenant "") in
    let reserved_keeps : KeepsQueued reserved =
      call-KeepsQueued fails 3 (publish c "inventory.reserved" order.id tenant "")
        (published-IsQueued "inventory.reserved" order.id tenant "") in
    (
      refl,
      then-KeepsQueued notify (started then_do reserved) notify_keeps
          (then-KeepsQueued started reserved
            (then-KeepsQueued saga created saga_keeps created_keeps) reserved_keeps)
          box h,
    )
