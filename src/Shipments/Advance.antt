-- ===== src/Shipments/Advance.antt =====
-- How far a shipment's update carries its order.
use ecommerce_rest_api.Base.{
  ℕ, ◌≤◌, String, str_eq, true, ◌&&◌, ◌⊎◌, inl, inr, Option, none, some, List, [], ◌∷◌, ◌≡◌, ◌≢◌,
  refl, ap, Option-cases, ◌==◌, All, map, contains, Bool-cases, arith, min, ◌∙◌, subst,
}
use ecommerce_rest_api.Domain.{ObjectId, Date, Order, OrderStatus, PaymentStatus, Product, Shipment}
use ecommerce_rest_api.Errors.{Result, ok, err, require, conflict, >>=-ok, require-ok}
use ecommerce_rest_api.Mongo.{Mongo, IsMongo, Db}
use ecommerce_rest_api.Mongo.Reference.{matching, first, modify_first}
use ecommerce_rest_api.Mongo.Laws.{reference, by_reference}
use ecommerce_rest_api.StateMachine.{can_transition_order, is_order_in, payment_eq}
use ecommerce_rest_api.Checkout.{Request}
use ecommerce_rest_api.Events.{publish_event, record_event}
use ecommerce_rest_api.Shipments.{
  ShipmentInput, item_ids, item_rank, least, with_least, derived_order_rank, status_for_rank,
  next_status, is_ahead, is_behind, fulfilment_rank, advanced, advance_order, write_shipment,
  is_shipment_of, after_shipment, admit_shipment, run_shipment, upsert, shippable_statuses,
  found_order, checked_url, shipment_seller, may_move,
}

All-le : (k j : ℕ) (ns : List ℕ) → k ≤ j → All (λ n. j ≤ n) ns → All (λ n. k ≤ n) ns
All-le k j [] h a = tt
All-le k j (n ∷ ns) h a = (omega (arith, a.0), All-le k j ns h a.1)

with_least-none : (n : ℕ) (rest : Option ℕ) → with_least n rest ≢ none
with_least-none n none e = cc
with_least-none n (some j) e = cc

with_least-some :
    (n j k : ℕ) (rest : Option ℕ) → rest ≡ some j → with_least n rest ≡ some k → min n j ≡ k
with_least-some n j k none h e = cc
with_least-some n j k (some i) h e = cc

-- The least of some ranks is none of them behind.
least-le : (ns : List ℕ) (k : ℕ) → least ns ≡ some k → All (λ n. k ≤ n) ns
least-le [] k e = tt
least-le (n ∷ []) k e = let same : n ≡ k = cc e in (omega (arith, same), tt)
least-le (n ∷ m ∷ ns) k e =
    let ih = least-le (m ∷ ns) in
    elim (Option-cases (least (m ∷ ns))) [
      | inl empty ↦ absurd (with_least-none m (least ns) empty)
      | inr (j, found) ↦
          let same = with_least-some n j k (least (m ∷ ns)) found e in
          (omega (arith, same), All-le k j (m ∷ ns) (omega (arith, same)) (ih j found))
    ]

-- The order's products and shipments.
abbrev pub products_of : Order → Db → List Product
products_of order db = matching (λ p. contains p.id (item_ids order)) db.products

abbrev pub shipments_of : Order → Db → List Shipment
shipments_of order db = matching (λ s. s.order == order.id) db.shipments

-- The orders are as they were, or the one shipped for has moved to a status whose rank no item's
-- shipments are behind.
pub record Moved (now : Date) (order : Order) (next : OrderStatus) (rank : ℕ) (db db' : Db)
    : Type 0 where
  pub status : status_for_rank rank ≡ some next
  pub forward : is_ahead (fulfilment_rank next) (fulfilment_rank order.status) ≡ true
  pub allowed : can_transition_order order.status next ≡ true
  pub covered :
      All
        (λ item. rank ≤ item_rank (products_of order db') (shipments_of order db') item)
        order.items
  pub orders :
      db'.orders
      ≡ modify_first
          (λ o. o.id == order.id && is_behind next o.status)
          (advanced next now)
          db.orders

All-map {ℓ κ υ} :
    {A : Type ℓ} {B : Type κ} (P : B → Type υ) (f : A → B) (xs : List A)
    → All P (map f xs)
    → All (λ x. P (f x)) xs
All-map P f [] h = tt
All-map P f (x ∷ xs) h = (h.0, All-map P f xs h.1)

module _ (now : Date) (order : Order) where
  advance-Moved :
      (db : Db) (rank : Option ℕ)
      → derived_order_rank reference order db ≡ rank
      → (let db' = advance_order reference now order (next_status rank) db in
          (db'.orders ≡ db.orders)
          ⊎ ((next : OrderStatus) × (k : ℕ) × Moved now order next k db db'))
  unfolding advance_order derived_order_rank
  advance-Moved db none e = inl refl
  advance-Moved db (some k) e = go (status_for_rank k) refl
    where
      go :
          (next : Option OrderStatus)
          → status_for_rank k ≡ next
          → (let db' = advance_order reference now order next db in
              (db'.orders ≡ db.orders) ⊎ ((n : OrderStatus) × (j : ℕ) × Moved now order n j db db'))
      go none f = inl refl
      go (some next) f =
          elim (Bool-cases (
            is_ahead (fulfilment_rank next) (fulfilment_rank order.status)
            && can_transition_order order.status next)) [
              | inl moves ↦ rw (moves) (
                  inr (
                    next,
                    k,
                    record {
                      status = f;
                      forward = ground (arith, moves);
                      allowed = ground (arith, moves);
                      covered =
                          All-map (λ n. k ≤ n)
                            (item_rank (products_of order db) (shipments_of order db)) order.items
                            (least-le _ k e);
                      orders = refl;
                    },
                  ))
              | inr stays ↦ rw (stays) (inl refl)
            ]

-- What a shipment's update that succeeds has done.
pub record IsUpserted (req : Request) (order_id : ObjectId) (now : Date) (db db' : Db)
    : Type 0 where
  pub order : Order
  pub found : first (λ o. o.id == order_id && str_eq o.tenant req.tenant) db.orders ≡ some order
  pub paid : order.payment_status ≡ PaymentStatus.paid
  pub shippable : is_order_in order.status shippable_statuses ≡ true
  pub moved :
      (db'.orders ≡ db.orders)
      ⊎ ((next : OrderStatus) × (rank : ℕ) × Moved now order next rank db db')

found_order-ok : (o : Option Order) (order : Order) → found_order o ≡ ok order → o ≡ some order
found_order-ok none order e = cc
found_order-ok (some o) order e = cc

module _ (check_url : String → Result (Unit {0})) (req : Request) (order_id : ObjectId)
    (value : ShipmentInput) (now : Date) (db : Db) where
  after_shipment-Moved :
      (order : Order) (written : Option Shipment) (db1 db' : Db) (shipment : Shipment)
      → db1.orders ≡ db.orders
      → after_shipment reference now order (written, db1) ≡ (ok shipment, db')
      → (db'.orders ≡ db.orders)
        ⊎ ((next : OrderStatus) × (rank : ℕ) × Moved now order next rank db db')
  unfolding after_shipment publish_event record_event
  after_shipment-Moved order none db1 db' shipment same e = absurd (cc)
  after_shipment-Moved order (some s) db1 db' shipment same e =
      let db2 =
        advance_order reference now order (next_status (derived_order_rank reference order db1))
          db1 in
      let moved = advance-Moved now order db1 (derived_order_rank reference order db1) refl in
      subst
        (λ d.
          (d.orders ≡ db.orders)
          ⊎ ((next : OrderStatus) × (rank : ℕ) × Moved now order next rank db d))
        (ap (λ r. r.1) e)
        (elim moved [
          | inl kept ↦ inl (kept ∙ same)
          | inr (next, rank, m) ↦ inr (
            next,
            rank,
            record {
              status = m.status;
              forward = m.forward;
              allowed = m.allowed;
              covered = m.covered;
              orders = m.orders ∙ ap (modify_first _ (advanced next now)) same;
            },
          )
        ])

  write_shipment-orders :
      (order : Order) (seller : Option ObjectId) (existing : Option Shipment)
      → (write_shipment reference req order seller value existing db).1.orders ≡ db.orders
  unfolding write_shipment
  write_shipment-orders order seller none = refl
  write_shipment-orders order seller (some s) = refl

  record IsAdmitted (order : Order) : Type 0 where
    found : first (λ o. o.id == order_id && str_eq o.tenant req.tenant) db.orders ≡ some order
    paid : order.payment_status ≡ PaymentStatus.paid
    shippable : is_order_in order.status shippable_statuses ≡ true

  admit_shipment-IsAdmitted :
      (order : Order) (seller : Option ObjectId)
      → admit_shipment reference check_url req order_id value db ≡ ok (order, seller)
      → IsAdmitted order
  unfolding admit_shipment
  admit_shipment-IsAdmitted order seller e =
      let (u1, f1, e1) = >>=-ok (checked_url check_url value.tracking_url) _ (order, seller) e in
      let (o, f2, e2) =
        >>=-ok (found_order (first (λ o. o.id == order_id && str_eq o.tenant req.tenant) db.orders))
          _ (order, seller) e1 in
      let (u3, f3, e3) =
        >>=-ok
          (require
            (payment_eq o.payment_status PaymentStatus.paid
              && is_order_in o.status shippable_statuses)
            (conflict "Order cannot be shipped in its state"))
          _ (order, seller) e2 in
      let (who, f4, e4) =
        >>=-ok (shipment_seller reference req o db req.role) _ (order, seller) e3 in
      let (u5, f5, e5) =
        >>=-ok (may_move (first (is_shipment_of o.id who) db.shipments) value.status) _
          (order, seller) e4 in
      let same : o ≡ order = cc e5 in
      let both = require-ok _ _ u3 f3 in
      subst IsAdmitted same
        (record { found = found_order-ok _ o f2; paid = ground arith; shippable = ground arith })

  run_shipment-IsUpserted :
      (admitted : Result (Order × Option ObjectId)) (db' : Db) (shipment : Shipment)
      → admit_shipment reference check_url req order_id value db ≡ admitted
      → run_shipment reference req value now db admitted ≡ (ok shipment, db')
      → IsUpserted req order_id now db db'
  unfolding run_shipment
  run_shipment-IsUpserted (err x) db' shipment a e = absurd (cc)
  run_shipment-IsUpserted (ok (order, seller)) db' shipment a e =
      let h = admit_shipment-IsAdmitted order seller a in
      let existing = first (is_shipment_of order.id seller) db.shipments in
      let written = write_shipment reference req order seller value existing db in
      record {
        order = order;
        found = h.found;
        paid = h.paid;
        shippable = h.shippable;
        moved =
            after_shipment-Moved order written.0 written.1 db' shipment
              (write_shipment-orders order seller existing) e;
      }

  -- A shipment's update that succeeds was for a paid order of the caller's tenant that was confirmed
  -- and not yet delivered. Orders stay as they were, but that this one may move to the status of a
  -- rank that its transitions allow, and that no item of it is behind: for each item a shipment of
  -- its seller, or one without a seller, has come that far.
  pub upsert-IsUpserted :
      (m : Mongo) (db' : Db) (shipment : Shipment)
      → IsMongo m
      → upsert m check_url req order_id value now db ≡ (ok shipment, db')
      → IsUpserted req order_id now db db'
  unfolding upsert
  upsert-IsUpserted m db' shipment is =
      by_reference
        (λ m.
          upsert m check_url req order_id value now db ≡ (ok shipment, db')
          → IsUpserted req order_id now db db')
        m is
        (run_shipment-IsUpserted (admit_shipment reference check_url req order_id value db) db'
          shipment refl)
