-- ===== src/Payments/Effects.antt =====
-- What a webhook may change, and that a replayed one changes nothing.
use ecommerce_rest_api.Base.{
  String, ◌≡◌, Bool, true, Option, none, some, List, [], ◌∷◌, ◌++◌, ◌+◌, ◌⊎◌, refl, ap, subst, inl,
  inr, Bool-cases, arith, str_eq_refl, any,
}
use ecommerce_rest_api.Domain.{ObjectId, Date, Order, PaymentStatus, PaymentEvent, PaymentSignal}
use ecommerce_rest_api.Errors.{
  AppError, Result, ok, err, require, bad_request, un_authorized, not_found, conflict, ◌>>=◌, ◌>>◌,
}
use ecommerce_rest_api.Mongo.{Mongo, IsMongo, Db}
use ecommerce_rest_api.Mongo.Reference.{first}
use ecommerce_rest_api.Mongo.Laws.{reference, by_reference}
use ecommerce_rest_api.Mongo.Documents.{modify_first-eq_of_none}
use ecommerce_rest_api.StateMachine.{payment_eq}
use ecommerce_rest_api.Events.{publish_event}
use ecommerce_rest_api.Inventory.{ReleaseStatus}
use ecommerce_rest_api.Inventory.Units.{
  IsBacked, Conserves, commit-Conserves, release_order-Conserves,
}
use ecommerce_rest_api.Payments.Admitted.{IsAlarmed, admit-AdmittedFor}
use ecommerce_rest_api.Payments.{
  Platform, Webhook, WebhookBody, Reply, replay, updated, Admission, replayed, alarmed, admitted,
  Alarm, provider_mismatch, on_cancelled_order, signal_name, failure_after, new_signal,
  record_signal, target_state, provider_of, digest_of, has_digest, is_event, if_new, present,
  check_event, check_provider, is_trusted, verify_webhook_signature, admit, is_unchanged,
  transitioned, transition_order, current_order, settle_reservations, commit_reservations,
  create_event, settle_webhook, run_webhook, process_webhook,
}

module _ (pf : Platform) (w : Webhook) (now : Date) where
  settle_reservations-Conserves :
      (to : PaymentStatus) (id : ObjectId) (db : Db)
      → IsBacked db
      → Conserves db (settle_reservations reference to id db)
  unfolding settle_reservations commit_reservations
  settle_reservations-Conserves to id db b = elim (Bool-cases (payment_eq to PaymentStatus.paid)) [
    | inl paid ↦ rw paid (commit-Conserves id db b)
    | inr other ↦ rw other (release_order-Conserves id ReleaseStatus.released db b)
  ]

  settle_webhook-Conserves :
      (event_id : String) (body : WebhookBody) (current : Option Order) (db : Db)
      → IsBacked db
      → Conserves db (settle_webhook reference pf w event_id body current db).1
  unfolding settle_webhook create_event publish_event
  settle_webhook-Conserves event_id body none db b = (b, λ id. refl)
  settle_webhook-Conserves event_id body (some order) db b =
      let c = settle_reservations-Conserves (target_state body.type_name) order.id db b in
      (c.0, c.1)

  run_webhook-Conserves :
      (x : Result Admission) (db : Db)
      → IsBacked db
      → Conserves db (run_webhook reference pf w now db x).1
  unfolding run_webhook record_signal
  run_webhook-Conserves (err e) db b = (b, λ id. refl)
  run_webhook-Conserves (ok replayed) db b = (b, λ id. refl)
  run_webhook-Conserves (ok (alarmed alarm event_id order)) db b = (b, λ id. refl)
  run_webhook-Conserves (ok (admitted event_id body order)) db b =
      let same = payment_eq order.payment_status (target_state body.type_name) in
      elim (Bool-cases same) [
        | inl done ↦
            rw (done, current_order) (settle_webhook-Conserves event_id body (some order) db b)
        | inr fresh ↦
            rw (fresh, current_order)
              (let c =
                  settle_webhook-Conserves event_id body
                    (transition_order reference pf w body order now db).0
                    (transition_order reference pf w body order now db).1 b in
                (c.0, c.1))
      ]

-- Whatever a webhook does, however it ends, the stock of a product and the units that its active
-- reservations hold have the same sum as before, when the products of reservations exist.
pub process_webhook-Conserves :
    (m : Mongo) (pf : Platform) (w : Webhook) (now : Date) (db : Db)
    → IsMongo m
    → IsBacked db
    → Conserves db (process_webhook m pf w now db).1
unfolding process_webhook
process_webhook-Conserves m pf w now db h b =
    by_reference (λ m. Conserves db (process_webhook m pf w now db).1) m h
      (run_webhook-Conserves pf w now (admit reference pf w now db) db b)

-- An event with this digest is on record.
abbrev pub is_recorded : String → Db → Bool
is_recorded digest db =
    any (λ (e : PaymentEvent). has_digest e.signed_digest digest) db.payment_events

any-concat {ℓ} :
    {A : Type ℓ} (p : A → Bool) (xs : List A) (x : A) → p x ≡ true → any p (xs ++ x ∷ []) ≡ true
any-concat p [] x h = ground (arith, h)
any-concat p (y ∷ xs) x h = ground (arith, any-concat p xs x h)

first-recorded :
    (provider event_id digest : String) (es : List PaymentEvent)
    → any (λ e. has_digest e.signed_digest digest) es ≡ true
    → (e : PaymentEvent) × (first (is_event provider event_id digest) es ≡ some e)
first-recorded provider event_id digest [] h = cc
first-recorded provider event_id digest (e ∷ es) h =
    elim (Bool-cases (is_event provider event_id digest e)) [
      | inl hit ↦ (e, rw hit refl)
      | inr miss ↦
          let (x, later) = first-recorded provider event_id digest es (ground arith) in
          (x, rw miss later)
    ]

-- Neither an order nor an error of a later check: a refusal, or a replay.
abbrev NotAdmitted : Result Admission → Type 0
NotAdmitted (err e) = Unit
NotAdmitted (ok replayed) = Unit
NotAdmitted (ok (alarmed alarm event_id order)) = ⊥
NotAdmitted (ok (admitted event_id body order)) = ⊥

NotAdmitted->>= :
    {A : Type 0} (r : Result A) (k : A → Result Admission)
    → ((a : A) → NotAdmitted (k a))
    → NotAdmitted (r >>= k)
NotAdmitted->>= (ok a) k h = h a
NotAdmitted->>= (err e) k h = tt

check_event-recorded :
    (pf : Platform) (w : Webhook) (event_id : String) (db : Db)
    → is_recorded (digest_of pf w) db ≡ true
    → NotAdmitted (check_event reference pf w event_id db)
check_event-recorded pf w event_id db h =
    let (e, found) =
      first-recorded (provider_of pf w) event_id (digest_of pf w) db.payment_events h in
    rw (found, if_new) tt

admit-recorded :
    (pf : Platform) (w : Webhook) (now : Date) (db : Db)
    → is_recorded (digest_of pf w) db ≡ true
    → NotAdmitted (admit reference pf w now db)
unfolding admit
admit-recorded pf w now db h =
    let verified = verify_webhook_signature pf w.raw_payload w.signature w.timestamp now in
    let trusted = require (is_trusted pf w) (un_authorized "Unknown payment provider") in
    NotAdmitted->>= (present w.event_id (bad_request "Webhook event id is required"))
      (λ event_id. verified >> check_provider reference pf w event_id db)
      (λ event_id.
        NotAdmitted->>= verified (λ _. check_provider reference pf w event_id db)
          (λ _.
            NotAdmitted->>= trusted (λ _. check_event reference pf w event_id db)
              (λ _. check_event-recorded pf w event_id db h)))

-- Nothing is written, and no order is returned.
abbrev pub HasNoEffect : Db → Result Reply × Db → Type 0
HasNoEffect db (err e, db') = db' ≡ db
HasNoEffect db (ok replay, db') = db' ≡ db
HasNoEffect db (ok (updated order), db') = ⊥

run_webhook-HasNoEffect :
    (pf : Platform) (w : Webhook) (now : Date) (db : Db) (x : Result Admission)
    → NotAdmitted x
    → HasNoEffect db (run_webhook reference pf w now db x)
unfolding run_webhook
run_webhook-HasNoEffect pf w now db (err e) n = refl
run_webhook-HasNoEffect pf w now db (ok replayed) n = refl
run_webhook-HasNoEffect pf w now db (ok (alarmed alarm event_id order)) n = absurd n
run_webhook-HasNoEffect pf w now db (ok (admitted event_id body order)) n = absurd n

-- The kind of an alarm's signal and the error that follows it.
abbrev pub Explains : Alarm → String → AppError → Type 0
Explains provider_mismatch kind e =
    (kind ≡ "payment.provider_mismatch")
    × (e ≡ record { status = 404; message = "Order not found" })
Explains on_cancelled_order kind e =
    (kind ≡ "payment.on_cancelled_order")
    × (e ≡ record { status = 409; message = "Order is cancelled; payment must be refunded" })

-- One signal was written, about the stored order that the body names, after the checks that
-- `IsAlarmed` lists.
pub record IsSignalled (pf : Platform) (w : Webhook) (now : Date) (before : Db) (e : AppError)
    (after : Db) : Type 0 where
  pub alarm : Alarm
  pub order : Order
  pub checks : IsAlarmed pf w now before alarm order
  pub signal : PaymentSignal
  pub kind : Explains alarm signal.kind e
  pub sender : signal.provider ≡ provider_of pf w
  pub subject : (signal.order ≡ order.id) × (signal.tenant ≡ order.tenant)
  pub only : after ≡ record before {
    payment_signals = before.payment_signals ++ signal ∷ [];
    next_id = before.next_id + 1;
  }

-- A webhook that returns an order is on record; one that fails writes a signal at most.
abbrev Outcome : Platform → Webhook → Date → Db → Result Reply × Db → Type 0
Outcome pf w now db (err e, db') = (db' ≡ db) ⊎ IsSignalled pf w now db e db'
Outcome pf w now db (ok replay, db') = db' ≡ db
Outcome pf w now db (ok (updated order), db') = is_recorded (digest_of pf w) db' ≡ true

transition_order-none :
    (pf : Platform) (w : Webhook) (body : WebhookBody) (order : Order) (now : Date) (db : Db)
    → (transition_order reference pf w body order now db).0 ≡ none
    → (transition_order reference pf w body order now db).1 ≡ db
unfolding transition_order
transition_order-none pf w body order now db missing =
    ap (λ os. record db { orders = os })
      (modify_first-eq_of_none (is_unchanged order) (transitioned pf w body order now) db.orders
        missing)

settle_webhook-Outcome :
    (pf : Platform) (w : Webhook) (now : Date) (event_id : String) (body : WebhookBody)
    (current : Option Order) (before db : Db)
    → (current ≡ none → db ≡ before)
    → Outcome pf w now before (settle_webhook reference pf w event_id body current db)
unfolding settle_webhook create_event publish_event
settle_webhook-Outcome pf w now event_id body none before db h = inl (h refl)
settle_webhook-Outcome pf w now event_id body (some order) before db h =
    any-concat (λ (e : PaymentEvent). has_digest e.signed_digest (digest_of pf w))
      (settle_reservations reference (target_state body.type_name) order.id db).payment_events _
      (str_eq_refl (digest_of pf w))

alarm-Explains : (alarm : Alarm) → Explains alarm (signal_name alarm) (failure_after alarm)
unfolding failure_after not_found conflict
alarm-Explains provider_mismatch = (refl, refl)
alarm-Explains on_cancelled_order = (refl, refl)

run_webhook-Outcome :
    (pf : Platform) (w : Webhook) (now : Date) (db : Db) (x : Result Admission)
    → admit reference pf w now db ≡ x
    → Outcome pf w now db (run_webhook reference pf w now db x)
unfolding run_webhook record_signal
run_webhook-Outcome pf w now db (err e) h = inl refl
run_webhook-Outcome pf w now db (ok replayed) h = refl
run_webhook-Outcome pf w now db (ok (alarmed alarm event_id order)) h = inr (record {
  alarm = alarm;
  order = order;
  checks = admit-AdmittedFor pf w now db (alarmed alarm event_id order) h;
  signal = new_signal pf w alarm event_id order db.next_id;
  kind = alarm-Explains alarm;
  sender = refl;
  subject = (refl, refl);
  only = refl;
})
run_webhook-Outcome pf w now db (ok (admitted event_id body order)) h =
    elim (Bool-cases (payment_eq order.payment_status (target_state body.type_name))) [
      | inl done ↦
          rw (done, current_order)
            (settle_webhook-Outcome pf w now event_id body (some order) db db (λ e. refl))
      | inr fresh ↦
          rw (fresh, current_order)
            (settle_webhook-Outcome pf w now event_id body
              (transition_order reference pf w body order now db).0 db
              (transition_order reference pf w body order now db).1
              (transition_order-none pf w body order now db))
    ]

abbrev ReplayedAfter : Mongo → Platform → Webhook → Date → Result Reply × Db → Type 0
ReplayedAfter m pf w now (ok (updated order), db') =
    HasNoEffect db' (process_webhook m pf w now db')
ReplayedAfter m pf w now (ok replay, db') = Unit
ReplayedAfter m pf w now (err e, db') = Unit

replaying :
    (pf : Platform) (w w' : Webhook) (now now' : Date) (db : Db) (x : Result Reply × Db)
    → digest_of pf w' ≡ digest_of pf w
    → Outcome pf w now db x
    → ReplayedAfter reference pf w' now' x
unfolding process_webhook
replaying pf w w' now now' db (ok (updated order), db') same h =
    run_webhook-HasNoEffect pf w' now' db' (admit reference pf w' now' db')
      (admit-recorded pf w' now' db' (rw same h))
replaying pf w w' now now' db (ok replay, db') same h = tt
replaying pf w w' now now' db (err e, db') same h = tt

processed :
    (pf : Platform) (w : Webhook) (now : Date) (db : Db)
    → Outcome pf w now db (process_webhook reference pf w now db)
unfolding process_webhook
processed pf w now db = run_webhook-Outcome pf w now db (admit reference pf w now db) refl

-- Once a webhook has updated an order, any webhook with the same signed content (timestamp and
-- payload, hence digest) has no effect, whatever event id, provider or signature it carries and
-- whenever it comes: it is refused, or answered as a replay, and nothing is written.
pub process_webhook-HasNoEffect :
    (m : Mongo) (pf : Platform) (w w' : Webhook) (now now' : Date) (db : Db) (order : Order)
    (db' : Db)
    → IsMongo m
    → digest_of pf w' ≡ digest_of pf w
    → process_webhook m pf w now db ≡ (ok (updated order), db')
    → HasNoEffect db' (process_webhook m pf w' now' db')
process_webhook-HasNoEffect m pf w w' now now' db order db' h same done =
    subst (ReplayedAfter m pf w' now') done (
      by_reference (λ m. ReplayedAfter m pf w' now' (process_webhook m pf w now db)) m h
        (replaying pf w w' now now' db (process_webhook reference pf w now db) same
          (processed pf w now db)))

abbrev SignalledIfError : Platform → Webhook → Date → Db → Result Reply × Db → Type 0
SignalledIfError pf w now db (err e, db') = (db' ≡ db) ⊎ IsSignalled pf w now db e db'
SignalledIfError pf w now db (ok r, db') = Unit

failing :
    (pf : Platform) (w : Webhook) (now : Date) (db : Db) (x : Result Reply × Db)
    → Outcome pf w now db x
    → SignalledIfError pf w now db x
failing pf w now db (err e, db') h = h
failing pf w now db (ok r, db') h = tt

-- A webhook that ends in an error has written nothing, or exactly one security signal, which names
-- the webhook's provider, the stored order that a valid body names, and that order's tenant, and is
-- written only after the signature and the provider were accepted: of kind
-- "payment.provider_mismatch" with status 404 if the tenant pays through another provider, or of
-- kind "payment.on_cancelled_order" with status 409 if the order is cancelled and the event says
-- paid. Orders, reservations, products, payment events and everything else are as before.
pub process_webhook-error :
    (m : Mongo) (pf : Platform) (w : Webhook) (now : Date) (db : Db) (e : AppError) (db' : Db)
    → IsMongo m
    → process_webhook m pf w now db ≡ (err e, db')
    → (db' ≡ db) ⊎ IsSignalled pf w now db e db'
process_webhook-error m pf w now db e db' h failed = subst (SignalledIfError pf w now db) failed (
    by_reference (λ m. SignalledIfError pf w now db (process_webhook m pf w now db)) m h
      (failing pf w now db (process_webhook reference pf w now db) (processed pf w now db)))
