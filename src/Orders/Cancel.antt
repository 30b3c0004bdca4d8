-- ===== src/Orders/Cancel.antt =====
-- What cancelling an order does.
use ecommerce_rest_api.Base.{
  String, ◌≡◌, Bool, true, false, none, some, List, [], ◌∷◌, if◌then◌else◌, refl, sym, ap, subst,
  ◌∙◌, inl, inr, Option-cases, Bool-cases, All, arith,
}
use ecommerce_rest_api.Domain.{ObjectId, Date, Order, PaymentStatus}
use ecommerce_rest_api.Errors.{AppError, Result, ok, err, bad_request, not_found}
use ecommerce_rest_api.Mongo.{Mongo, IsMongo, Db}
use ecommerce_rest_api.Mongo.Reference.{first, modify_first, modified_first}
use ecommerce_rest_api.Mongo.Laws.{reference, by_reference}
use ecommerce_rest_api.Mongo.Documents.{IsUnique, modify_first-eq_of_none}
use ecommerce_rest_api.Mongo.Unique.{
  modified_first-none, modified_first-some, first-weaken, modify_first-weaken,
}
use ecommerce_rest_api.StateMachine.{is_order_in, is_payment_in, cancellable_statuses}
use ecommerce_rest_api.Events.{record_event}
use ecommerce_rest_api.Inventory.{ReleaseStatus}
use ecommerce_rest_api.Inventory.Units.{IsBacked, release_order-orders}
use ecommerce_rest_api.Inventory.Release.{IsReleased, release_order-IsReleased}
use ecommerce_rest_api.Checkout.{Request}
use ecommerce_rest_api.Orders.{
  owned_order, is_unpaid_cancel, is_paid_cancel, cancelled_fields, cancelled_refund_fields,
  Cancelled, no_match, after_cancel, if_cancelled, cancel_paid, cancel,
}

abbrev pub captured : List PaymentStatus
captured = PaymentStatus.paid ∷ PaymentStatus.authorized ∷ []

-- `cancel` returned `c` and left the database `after`.
pub record IsCancelled (req : Request) (id : ObjectId) (reason : String) (now : Date) (before : Db)
    (c : Cancelled) (after : Db) : Type 0 where
  pub found : Order
  pub owned : first (owned_order req id) before.orders ≡ some found
  pub cancellable : is_order_in found.status cancellable_statuses ≡ true
  pub refund : c.refund_opened ≡ is_payment_in found.payment_status captured
  pub order : c.order ≡ (
      if c.refund_opened
      then cancelled_refund_fields reason now found
      else cancelled_fields reason now found)
  pub orders : after.orders ≡ modify_first (owned_order req id) (λ _. c.order) before.orders
  pub released : IsReleased id ReleaseStatus.released before after

module _ (req : Request) (id : ObjectId) (reason : String) (now : Date) where
  owned_id : (o : Order) → owned_order req id o ≡ true → o.id ≡ id
  owned_id o h = ground arith

  unpaid_owned : (o : Order) → is_unpaid_cancel req id o ≡ true → owned_order req id o ≡ true
  unpaid_owned o h = ground arith

  paid_owned : (o : Order) → is_paid_cancel req id o ≡ true → owned_order req id o ≡ true
  paid_owned o h = ground arith

  unpaid_facts :
      (o : Order)
      → is_unpaid_cancel req id o ≡ true
      → (is_order_in o.status cancellable_statuses ≡ true)
        × (is_payment_in o.payment_status captured ≡ false)
  unpaid_facts o h = ground arith

  paid_facts :
      (o : Order)
      → is_paid_cancel req id o ≡ true
      → (is_order_in o.status cancellable_statuses ≡ true)
        × (is_payment_in o.payment_status captured ≡ true)
  paid_facts o h = ground arith

  after_cancel-orders :
      (c : Cancelled) (db : Db) → (after_cancel reference req reason c db).orders ≡ db.orders
  unfolding after_cancel record_event
  after_cancel-orders c db = elim (Bool-cases c.refund_opened) [
    | inl opened ↦ rw opened (release_order-orders c.order.id ReleaseStatus.released db)
    | inr kept ↦ rw kept (release_order-orders c.order.id ReleaseStatus.released db)
  ]

  after_cancel-IsReleased :
      (before : Db) (orders : List Order) (c : Cancelled)
      → c.order.id ≡ id
      → IsBacked before
      → IsUnique (λ r. r.id) before.reservations
      → IsReleased id ReleaseStatus.released before
          (after_cancel reference req reason c (record before { orders = orders }))
  unfolding after_cancel record_event
  after_cancel-IsReleased before orders c e b u =
      let db = record before { orders = orders } in
      let r = release_order-IsReleased id ReleaseStatus.released db b u in
      elim (Bool-cases c.refund_opened) [
        | inl opened ↦
            rw (opened, e)
              (record { exactly = r.exactly; returned = r.returned; none_left = r.none_left })
        | inr kept ↦
            rw (kept, e)
              (record { exactly = r.exactly; returned = r.returned; none_left = r.none_left })
      ]

  -- Either update, by the filter that matched.
  matched-IsCancelled :
      (p : Order → Bool) (f : Order → Order) (opened : Bool) (before : Db) (o : Order)
      → ((x : Order) → p x ≡ true → owned_order req id x ≡ true)
      → ((x : Order)
          → p x ≡ true
          → (is_order_in x.status cancellable_statuses ≡ true)
            × (is_payment_in x.payment_status captured ≡ opened))
      → ((x : Order) → (f x).id ≡ x.id)
      → ((x : Order)
          → f x ≡ (
              if opened
              then cancelled_refund_fields reason now x
              else cancelled_fields reason now x))
      → modified_first p f before.orders ≡ some o
      → IsUnique (λ x. x.id) before.orders
      → IsBacked before
      → IsUnique (λ r. r.id) before.reservations
      → IsCancelled req id reason now before
          (record { order = o; refund_opened = opened })
          (after_cancel reference req reason
            (record { order = o; refund_opened = opened })
            (record before { orders = modify_first p f before.orders }))
  matched-IsCancelled p f opened before o narrow facts keep_id fields e uo b ur =
      let c : Cancelled = record { order = o; refund_opened = opened } in
      let orders = modify_first p f before.orders in
      let (x, first_x, hit, same) = modified_first-some p f before.orders o e in
      record {
        found = x;
        owned =
            first-weaken (λ x. x.id) id p (owned_order req id) narrow owned_id before.orders x uo
              first_x;
        cancellable = (facts x hit).0;
        refund = sym (facts x hit).1;
        order = same ∙ fields x;
        orders =
            after_cancel-orders c (record before { orders = orders })
            ∙ (rw same (
                modify_first-weaken (λ x. x.id) id p (owned_order req id) narrow owned_id f
                  before.orders x uo first_x));
        released =
            after_cancel-IsReleased before orders c
              (ap (λ (y : Order). y.id) same ∙ keep_id x ∙ owned_id x (narrow x hit)) b ur;
      }

  abbrev CancelledIfOk : Db → Result Cancelled × Db → Type 0
  CancelledIfOk before (ok c, db) = IsCancelled req id reason now before c db
  CancelledIfOk before (err e, db) = Unit

  cancel-cancel_paid :
      (before : Db)
      → modified_first (is_unpaid_cancel req id) (cancelled_fields reason now) before.orders ≡ none
      → cancel reference req id reason now before ≡ cancel_paid reference req id reason now before
  unfolding cancel
  cancel-cancel_paid before missing =
      rw (missing, if_cancelled)
        (ap (λ os. cancel_paid reference req id reason now (record before { orders = os }))
          (modify_first-eq_of_none (is_unpaid_cancel req id) (cancelled_fields reason now)
            before.orders missing))

  cancelling_paid :
      (before : Db)
      → IsUnique (λ x. x.id) before.orders
      → IsBacked before
      → IsUnique (λ r. r.id) before.reservations
      → CancelledIfOk before (cancel_paid reference req id reason now before)
  unfolding cancel_paid
  cancelling_paid before uo b ur =
      elim (Option-cases (
        modified_first (is_paid_cancel req id) (cancelled_refund_fields reason now)
          before.orders)) [
            | inl missing ↦ rw (missing, if_cancelled) tt
            | inr (o, e) ↦
                rw (e, if_cancelled)
                  (matched-IsCancelled (is_paid_cancel req id) (cancelled_refund_fields reason now)
                    true before o paid_owned paid_facts (λ x. refl) (λ x. refl) e uo b ur)
          ]

  cancelling :
      (before : Db)
      → IsUnique (λ x. x.id) before.orders
      → IsBacked before
      → IsUnique (λ r. r.id) before.reservations
      → CancelledIfOk before (cancel reference req id reason now before)
  unfolding cancel
  cancelling before uo b ur =
      elim (Option-cases
        (modified_first (is_unpaid_cancel req id) (cancelled_fields reason now) before.orders)) [
          | inr (o, e) ↦
              rw (e, if_cancelled)
                (matched-IsCancelled (is_unpaid_cancel req id) (cancelled_fields reason now) false
                  before o unpaid_owned unpaid_facts (λ x. refl) (λ x. refl) e uo b ur)
          | inl missing ↦
              subst (CancelledIfOk before) (sym (cancel-cancel_paid before missing))
                (cancelling_paid before uo b ur)
        ]

-- A cancellation that succeeds was of the requester's order (or any of the tenant's, for an
-- administrator), pending or confirmed; it opens a refund exactly if the payment was captured or
-- authorized; only this order changes, and it is the order returned; every unit that the order's
-- active reservations held is back in the stock, and none of them stays active. Orders and
-- reservations have distinct ids, and the products of reservations exist.
pub cancel-IsCancelled :
    (m : Mongo) (req : Request) (id : ObjectId) (reason : String) (now : Date) (db : Db)
    (c : Cancelled) (db' : Db)
    → IsMongo m
    → IsUnique (λ o. o.id) db.orders
    → IsBacked db
    → IsUnique (λ r. r.id) db.reservations
    → cancel m req id reason now db ≡ (ok c, db')
    → IsCancelled req id reason now db c db'
cancel-IsCancelled m req id reason now db c db' h uo b ur done =
    subst (CancelledIfOk req id reason now db) done (
      by_reference (λ m. CancelledIfOk req id reason now db (cancel m req id reason now db)) m h
        (cancelling req id reason now db uo b ur))

-- Why a cancellation is refused, and that it wrote nothing.
pub record IsRefused (req : Request) (id : ObjectId) (before : Db) (e : AppError) (after : Db)
    : Type 0 where
  pub unchanged : after ≡ before
  pub not_unpaid : All (λ o. is_unpaid_cancel req id o ≡ false) before.orders
  pub not_paid : All (λ o. is_paid_cancel req id o ≡ false) before.orders
  pub missing :
      first (owned_order req id) before.orders ≡ none
      → e ≡ record { status = 404; message = "Order not found" }
  pub held :
      (o : Order)
      → first (owned_order req id) before.orders ≡ some o
      → e ≡ record { status = 400; message = "Order cannot be cancelled in its current state" }

no_match-missing :
    (req : Request) (id : ObjectId) (db : Db)
    → first (owned_order req id) db.orders ≡ none
    → no_match reference req id db ≡ record { status = 404; message = "Order not found" }
unfolding bad_request not_found
no_match-missing req id db nobody = rw (nobody) refl

no_match-held :
    (req : Request) (id : ObjectId) (db : Db) (o : Order)
    → first (owned_order req id) db.orders ≡ some o
    → no_match reference req id db
      ≡ record { status = 400; message = "Order cannot be cancelled in its current state" }
unfolding bad_request not_found
no_match-held req id db o found = rw (found) refl

module _ (req : Request) (id : ObjectId) (reason : String) (now : Date) where
  abbrev RefusedIfError : Db → Result Cancelled × Db → Type 0
  RefusedIfError before (ok c, db) = Unit
  RefusedIfError before (err e, db) = IsRefused req id before e db

  refusing_paid :
      (before : Db)
      → modified_first (is_unpaid_cancel req id) (cancelled_fields reason now) before.orders ≡ none
      → RefusedIfError before (cancel_paid reference req id reason now before)
  unfolding cancel_paid
  refusing_paid before missing =
      let p = is_paid_cancel req id in
      let f = cancelled_refund_fields reason now in
      elim (Option-cases (modified_first p f before.orders)) [
        | inr (o, e) ↦ rw (e, if_cancelled) tt
        | inl none_paid ↦
            let same : record before { orders = modify_first p f before.orders } ≡ before =
              ap (λ os. record before { orders = os })
                (modify_first-eq_of_none p f before.orders none_paid) in
            rw (none_paid, if_cancelled)
              (record {
                unchanged = same;
                not_unpaid =
                    modified_first-none (is_unpaid_cancel req id) (cancelled_fields reason now)
                      before.orders missing;
                not_paid = modified_first-none p f before.orders none_paid;
                missing = λ nobody.
                    ap (no_match reference req id) same ∙ no_match-missing req id before nobody;
                held = λ o found.
                    ap (no_match reference req id) same ∙ no_match-held req id before o found;
              })
      ]

  refusing : (before : Db) → RefusedIfError before (cancel reference req id reason now before)
  unfolding cancel
  refusing before =
      elim (Option-cases
        (modified_first (is_unpaid_cancel req id) (cancelled_fields reason now) before.orders)) [
          | inr (o, e) ↦ rw (e, if_cancelled) tt
          | inl missing ↦
              subst (RefusedIfError before)
                (sym (cancel-cancel_paid req id reason now before missing))
                (refusing_paid before missing)
        ]

-- A cancellation that is refused writes nothing; then no order of the requester under this id was
-- cancellable with a payment open or failed, nor with one captured and no refund asked for; and the
-- error has status 404 with "Order not found" if the requester has no such order, and status 400
-- with "Order cannot be cancelled in its current state" if there is one.
pub cancel-IsRefused :
    (m : Mongo) (req : Request) (id : ObjectId) (reason : String) (now : Date) (db : Db)
    (e : AppError) (db' : Db)
    → IsMongo m
    → cancel m req id reason now db ≡ (err e, db')
    → IsRefused req id db e db'
cancel-IsRefused m req id reason now db e db' h failed =
    subst (RefusedIfError req id reason now db) failed (
      by_reference (λ m. RefusedIfError req id reason now db (cancel m req id reason now db)) m h
        (refusing req id reason now db))
