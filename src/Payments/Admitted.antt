-- ===== src/Payments/Admitted.antt =====
-- What the checks of a webhook before the transaction establish.
use ecommerce_rest_api.Base.{
  String, ◌≡◌, true, false, Option, none, some, ◌==◌, subst, inl, inr, Option-cases, Bool-cases,
  str_eq,
}
use ecommerce_rest_api.Domain.{Date, Order}
use ecommerce_rest_api.Errors.{
  ok, require, bad_request, un_authorized, ◌>>=◌, ◌>>◌, >>=-ok, require-ok,
}
use ecommerce_rest_api.Mongo.{Db}
use ecommerce_rest_api.Mongo.Reference.{first}
use ecommerce_rest_api.Mongo.Laws.{reference}
use ecommerce_rest_api.StateMachine.{assert_payment_transition}
use ecommerce_rest_api.Payments.{
  Platform, Webhook, WebhookBody, Admission, replayed, alarmed, admitted, Alarm, provider_mismatch,
  on_cancelled_order, is_own_provider, check_order, target_state, provider_of, digest_of, is_event,
  if_new, present, check_event, check_provider, is_trusted, verify_webhook_signature, found_order,
  tenant_provider, lands_on_cancelled, admit_order, admit,
}

-- What the checks before the transaction have established.
pub record IsAdmitted (pf : Platform) (w : Webhook) (now : Date) (db : Db) (body : WebhookBody)
    (order : Order) : Type 0 where
  pub signed : verify_webhook_signature pf w.raw_payload w.signature w.timestamp now ≡ ok tt
  pub trusted : is_trusted pf w ≡ true
  pub valid : w.body ≡ ok body
  pub stored : first (λ o. o.id == body.order_id) db.orders ≡ some order
  pub own_provider :
      str_eq
        (pf.lowered (tenant_provider (first (λ t. str_eq t.key order.tenant) db.tenants)))
        (provider_of pf w)
      ≡ true
  pub not_cancelled : lands_on_cancelled order (target_state body.type_name) ≡ false
  pub allowed : assert_payment_transition order.payment_status (target_state body.type_name) ≡ ok tt

found_order-ok : (o : Option Order) (order : Order) → found_order o ≡ ok order → o ≡ some order
found_order-ok none order e = cc
found_order-ok (some x) order e = cc

-- What the checks have established when they stop with an alarm.
abbrev pub Reason : Platform → Webhook → Db → WebhookBody → Order → Alarm → Type 0
Reason pf w db body order provider_mismatch = is_own_provider reference pf w order db ≡ false
Reason pf w db body order on_cancelled_order =
    (is_own_provider reference pf w order db ≡ true)
    × (lands_on_cancelled order (target_state body.type_name) ≡ true)

pub record IsAlarmed (pf : Platform) (w : Webhook) (now : Date) (db : Db) (alarm : Alarm)
    (order : Order) : Type 0 where
  pub body : WebhookBody
  pub signed : verify_webhook_signature pf w.raw_payload w.signature w.timestamp now ≡ ok tt
  pub trusted : is_trusted pf w ≡ true
  pub valid : w.body ≡ ok body
  pub stored : first (λ o. o.id == body.order_id) db.orders ≡ some order
  pub reason : Reason pf w db body order alarm

-- The order that an admission carries, if it is one.
abbrev pub AdmittedFor : Platform → Webhook → Date → Db → Admission → Type 0
AdmittedFor pf w now db replayed = Unit
AdmittedFor pf w now db (alarmed alarm event_id order) = IsAlarmed pf w now db alarm order
AdmittedFor pf w now db (admitted event_id body order) = IsAdmitted pf w now db body order

module _ (pf : Platform) (w : Webhook) (now : Date) (db : Db)
    (signed : verify_webhook_signature pf w.raw_payload w.signature w.timestamp now ≡ ok tt)
    (trusted : is_trusted pf w ≡ true) where
  check_order-AdmittedFor :
      (event_id : String) (body : WebhookBody) (order : Order) (a : Admission)
      → w.body ≡ ok body
      → first (λ o. o.id == body.order_id) db.orders ≡ some order
      → check_order reference pf w event_id body db order ≡ ok a
      → AdmittedFor pf w now db a
  check_order-AdmittedFor event_id body order a valid stored e =
      let to = target_state body.type_name in
      elim (Bool-cases (is_own_provider reference pf w order db)) [
        | inr foreign ↦
            let stop : ok (alarmed provider_mismatch event_id order) ≡ ok a = rw foreign at e in
            let same : alarmed provider_mismatch event_id order ≡ a = cc in
            subst (AdmittedFor pf w now db) same (record {
              body = body;
              signed = signed;
              trusted = trusted;
              valid = valid;
              stored = stored;
              reason = foreign;
            })
        | inl own ↦ elim (Bool-cases (lands_on_cancelled order to)) [
          | inl late ↦
              let stop : ok (alarmed on_cancelled_order event_id order) ≡ ok a =
                rw (own, late) at e in
              let same : alarmed on_cancelled_order event_id order ≡ a = cc in
              subst (AdmittedFor pf w now db) same (record {
                body = body;
                signed = signed;
                trusted = trusted;
                valid = valid;
                stored = stored;
                reason = (own, late);
              })
          | inr live ↦
              let pass : (assert_payment_transition order.payment_status to
                    >> ok (admitted event_id body order))
                  ≡ ok a =
                rw (own, live) at e in
              let (u, allowed, e1) =
                >>=-ok (assert_payment_transition order.payment_status to)
                  (λ _. ok (admitted event_id body order)) a pass in
              let same : admitted event_id body order ≡ a = cc in
              subst (AdmittedFor pf w now db) same (record {
                signed = signed;
                trusted = trusted;
                valid = valid;
                stored = stored;
                own_provider = own;
                not_cancelled = live;
                allowed = allowed;
              })
        ]
      ]

  admit_order-AdmittedFor :
      (event_id : String) (body : WebhookBody) (a : Admission)
      → w.body ≡ ok body
      → admit_order reference pf w event_id body db ≡ ok a
      → AdmittedFor pf w now db a
  unfolding admit_order
  admit_order-AdmittedFor event_id body a valid e =
      let stored = first (λ o. o.id == body.order_id) db.orders in
      let (order, f, e1) =
        >>=-ok (found_order stored) (check_order reference pf w event_id body db) a e in
      check_order-AdmittedFor event_id body order a valid (found_order-ok stored order f) e1

  if_new-AdmittedFor :
      (event_id : String) (a : Admission)
      → check_event reference pf w event_id db ≡ ok a
      → AdmittedFor pf w now db a
  if_new-AdmittedFor event_id a e =
      elim (Option-cases
        (first (is_event (provider_of pf w) event_id (digest_of pf w)) db.payment_events)) [
          | inr (x, found) ↦
              let again : ok replayed ≡ ok a = rw (found, if_new) at e in
              let same : replayed ≡ a = cc in subst (AdmittedFor pf w now db) same tt
          | inl new ↦
              let fresh : (w.body >>= λ body. admit_order reference pf w event_id body db) ≡ ok a =
                rw (new, if_new) at e in
              let (body, valid, e1) =
                >>=-ok w.body (λ body. admit_order reference pf w event_id body db) a fresh in
              admit_order-AdmittedFor event_id body a valid e1
        ]

pub admit-AdmittedFor :
    (pf : Platform) (w : Webhook) (now : Date) (db : Db) (a : Admission)
    → admit reference pf w now db ≡ ok a
    → AdmittedFor pf w now db a
unfolding admit
admit-AdmittedFor pf w now db a e =
    let verified = verify_webhook_signature pf w.raw_payload w.signature w.timestamp now in
    let (event_id, f, e1) =
      >>=-ok (present w.event_id (bad_request "Webhook event id is required"))
        (λ event_id. verified >> check_provider reference pf w event_id db) a e in
    let (u, signed, e2) = >>=-ok verified (λ _. check_provider reference pf w event_id db) a e1 in
    let (v, known, e3) =
      >>=-ok (require (is_trusted pf w) (un_authorized "Unknown payment provider"))
        (λ _. check_event reference pf w event_id db) a e2 in
    if_new-AdmittedFor pf w now db signed
      (require-ok (is_trusted pf w) (un_authorized "Unknown payment provider") v known) event_id a
      e3
