-- ===== src/Payments/Settled.antt =====
-- What holds when a webhook has updated an order.
use ecommerce_rest_api.Base.{
  ℕ, String, ◌≡◌, Bool, true, false, Option, none, some, List, [], ◌∷◌, ◌==◌, if◌then◌else◌, refl,
  sym, ap, subst, ◌∙◌, inl, inr, Option-cases, Bool-cases, arith,
}
use ecommerce_rest_api.Domain.{ObjectId, Date, Order, PaymentStatus}
use ecommerce_rest_api.Errors.{Result, ok, err}
use ecommerce_rest_api.Mongo.{Mongo, IsMongo, Db}
use ecommerce_rest_api.Mongo.Reference.{first, modify_first, modified_first}
use ecommerce_rest_api.Mongo.Laws.{reference, by_reference}
use ecommerce_rest_api.Mongo.Documents.{IsUnique}
use ecommerce_rest_api.Mongo.Unique.{
  modified_first-some, first-weaken, first-hit, modify_first-weaken,
}
use ecommerce_rest_api.StateMachine.{payment_eq}
use ecommerce_rest_api.Events.{publish_event}
use ecommerce_rest_api.Inventory.Units.{release_order-orders}
use ecommerce_rest_api.Inventory.{ReleaseStatus}
use ecommerce_rest_api.Payments.{
  Platform, Webhook, WebhookBody, Reply, replay, updated, Admission, replayed, alarmed, admitted,
  target_state, admit, is_unchanged, transitioned, transition_order, current_order,
  settle_reservations, commit_reservations, create_event, settle_webhook, run_webhook,
  process_webhook,
}
use ecommerce_rest_api.Payments.Admitted.{IsAdmitted, admit-AdmittedFor}

-- `process_webhook` updated `order` and left the database `after`.
pub record IsSettled (pf : Platform) (w : Webhook) (now : Date) (before : Db) (order : Order)
    (after : Db) : Type 0 where
  pub body : WebhookBody
  pub found : Order
  pub admission : IsAdmitted pf w now before body found
  pub result : order ≡ (
      if payment_eq found.payment_status (target_state body.type_name)
      then found
      else transitioned pf w body found now found)
  pub orders : after.orders ≡ modify_first (λ o. o.id == body.order_id) (λ _. order) before.orders

modify_first-found :
    {A : Type 0} (p : A → Bool) (xs : List A) (x : A)
    → first p xs ≡ some x
    → modify_first p (λ _. x) xs ≡ xs
modify_first-found p [] x e = cc
modify_first-found p (y ∷ xs) x e = elim (Bool-cases (p y)) [
  | inl hit ↦
      let found : some y ≡ some x = rw hit at e in
      let same : y ≡ x = cc in rw hit (ap (λ z. z ∷ xs) (sym same))
  | inr miss ↦ rw miss (ap (λ l. y ∷ l) (modify_first-found p xs x (rw miss at e)))
]

settle_reservations-orders :
    (to : PaymentStatus) (id : ObjectId) (db : Db)
    → (settle_reservations reference to id db).orders ≡ db.orders
unfolding settle_reservations commit_reservations
settle_reservations-orders to id db = elim (Bool-cases (payment_eq to PaymentStatus.paid)) [
  | inl paid ↦ rw paid refl
  | inr other ↦ rw other (release_order-orders id ReleaseStatus.released db)
]

-- The transition, without its effect on reservations.
record IsMoved (pf : Platform) (w : Webhook) (now : Date) (body : WebhookBody) (found : Order)
    (before : Db) (order : Order) (db : Db) : Type 0 where
  result : order ≡ (
      if payment_eq found.payment_status (target_state body.type_name)
      then found
      else transitioned pf w body found now found)
  orders : db.orders ≡ modify_first (λ o. o.id == body.order_id) (λ _. order) before.orders

abbrev MovedIfSome :
    Platform → Webhook → Date → WebhookBody → Order → Db → Option Order × Db → Type 0
MovedIfSome pf w now body found before (none, db) = Unit
MovedIfSome pf w now body found before (some order, db) =
    IsMoved pf w now body found before order db

unchanged_same : (o : Order) (x : Order) → is_unchanged o x ≡ true → x.id ≡ o.id
unchanged_same o x h = ground arith

same_id : (n : ℕ) (o : Order) → (o.id == n) ≡ true → o.id ≡ n
same_id n o h = ground arith

id_matches : (n : ℕ) (o x : Order) → o.id ≡ n → is_unchanged o x ≡ true → (x.id == n) ≡ true
id_matches n o x e h = ground arith

module _ (pf : Platform) (w : Webhook) (now : Date) (body : WebhookBody) (found : Order)
    (before : Db) where
  transition_order-IsMoved :
      IsUnique (λ o. o.id) before.orders
      → first (λ o. o.id == body.order_id) before.orders ≡ some found
      → payment_eq found.payment_status (target_state body.type_name) ≡ false
      → MovedIfSome pf w now body found before
          (transition_order reference pf w body found now before)
  unfolding transition_order
  transition_order-IsMoved u stored fresh =
      let p = is_unchanged found in
      let q = λ (o : Order). o.id == body.order_id in
      let f = transitioned pf w body found now in
      let here : found.id ≡ body.order_id =
        same_id body.order_id found (first-hit q before.orders found stored) in
      elim (Option-cases (modified_first p f before.orders)) [
        | inl lost ↦ rw lost tt
        | inr (order, e) ↦
            let (x, first_x, hit, same) = modified_first-some p f before.orders order e in
            let found_x =
              first-weaken (λ (o : Order). o.id) body.order_id p q
                (λ y. id_matches body.order_id found y here) (same_id body.order_id) before.orders x
                u first_x in
            let is_found : x ≡ found = cc in
            rw e (record {
              result = rw fresh (same ∙ ap f is_found);
              orders = rw same (
                  modify_first-weaken (λ (o : Order). o.id) body.order_id p q
                    (λ y. id_matches body.order_id found y here) (same_id body.order_id) f
                    before.orders x u first_x);
            })
      ]

  current_order-IsMoved :
      IsUnique (λ o. o.id) before.orders
      → first (λ o. o.id == body.order_id) before.orders ≡ some found
      → MovedIfSome pf w now body found before (current_order reference pf w body found now before)
  unfolding current_order
  current_order-IsMoved u stored =
      elim (Bool-cases (payment_eq found.payment_status (target_state body.type_name))) [
        | inr fresh ↦ rw fresh (transition_order-IsMoved u stored fresh)
        | inl done ↦ rw done (record {
          result = rw done refl;
          orders = sym (modify_first-found (λ o. o.id == body.order_id) before.orders found stored);
        })
      ]

abbrev SettledIfUpdated : Platform → Webhook → Date → Db → Result Reply × Db → Type 0
SettledIfUpdated pf w now before (ok (updated order), db) = IsSettled pf w now before order db
SettledIfUpdated pf w now before (ok replay, db) = Unit
SettledIfUpdated pf w now before (err e, db) = Unit

settle_webhook-SettledIfUpdated :
    (pf : Platform) (w : Webhook) (now : Date) (before : Db) (event_id : String)
    (body : WebhookBody) (found : Order) (x : Option Order × Db)
    → IsAdmitted pf w now before body found
    → MovedIfSome pf w now body found before x
    → SettledIfUpdated pf w now before (settle_webhook reference pf w event_id body x.0 x.1)
unfolding settle_webhook create_event publish_event
settle_webhook-SettledIfUpdated pf w now before event_id body found (none, db) a h = tt
settle_webhook-SettledIfUpdated pf w now before event_id body found (some order, db) a h = record {
  body = body;
  found = found;
  admission = a;
  result = h.result;
  orders = settle_reservations-orders (target_state body.type_name) order.id db ∙ h.orders;
}

run_webhook-SettledIfUpdated :
    (pf : Platform) (w : Webhook) (now : Date) (before : Db) (x : Result Admission)
    → IsUnique (λ o. o.id) before.orders
    → admit reference pf w now before ≡ x
    → SettledIfUpdated pf w now before (run_webhook reference pf w now before x)
unfolding run_webhook
run_webhook-SettledIfUpdated pf w now before (err e) u h = tt
run_webhook-SettledIfUpdated pf w now before (ok replayed) u h = tt
run_webhook-SettledIfUpdated pf w now before (ok (alarmed alarm event_id order)) u h = tt
run_webhook-SettledIfUpdated pf w now before (ok (admitted event_id body order)) u h =
    let a = admit-AdmittedFor pf w now before (admitted event_id body order) h in
    settle_webhook-SettledIfUpdated pf w now before event_id body order
      (current_order reference pf w body order now before) a
      (current_order-IsMoved pf w now body order before u a.stored)

settling :
    (pf : Platform) (w : Webhook) (now : Date) (before : Db)
    → IsUnique (λ o. o.id) before.orders
    → SettledIfUpdated pf w now before (process_webhook reference pf w now before)
unfolding process_webhook
settling pf w now before u =
    run_webhook-SettledIfUpdated pf w now before (admit reference pf w now before) u refl

-- A webhook that updates an order was signed with the shared secret within the tolerance, comes
-- from a trusted provider, which is the one that the order's tenant pays through, and names the
-- order by a valid body; the order was not cancelled if the event says paid, and the payment state
-- machine allows the step. Only that order changes: it is as it was if its payment already had the
-- target state, and otherwise moved by this event. Orders have distinct ids.
pub process_webhook-IsSettled :
    (m : Mongo) (pf : Platform) (w : Webhook) (now : Date) (db : Db) (order : Order) (db' : Db)
    → IsMongo m
    → IsUnique (λ o. o.id) db.orders
    → process_webhook m pf w now db ≡ (ok (updated order), db')
    → IsSettled pf w now db order db'
process_webhook-IsSettled m pf w now db order db' h u done =
    subst (SettledIfUpdated pf w now db) done (
      by_reference (λ m. SettledIfUpdated pf w now db (process_webhook m pf w now db)) m h
        (settling pf w now db u))
