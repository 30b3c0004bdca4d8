-- ===== src/Inventory/Expiry.antt =====
-- A sweep over expired reservations keeps the units of every product and cancels no order that is
-- paid or under way.
use ecommerce_rest_api.Base.{
  ℕ, ◌≡◌, ◌⊎◌, Option, some, none, List, [], ◌∷◌, contains, take, refl, Bool-cases, inl, inr, arith,
  ◌||◌, ◌==◌,
}
use ecommerce_rest_api.Domain.{
  ObjectId, Date, Order, OrderStatus, PaymentStatus, InventoryReservation, ReservationStatus,
}
use ecommerce_rest_api.Mongo.{Mongo, IsMongo, Db}
use ecommerce_rest_api.Mongo.Reference.{first, matching, modify_first, modified_first}
use ecommerce_rest_api.Mongo.Laws.{reference, by_reference}
use ecommerce_rest_api.StateMachine.{payment_eq}
use ecommerce_rest_api.Inventory.{
  ReleaseStatus, Sweep, is_unpaid_order, expire_order, is_expired, sweep_uncancelled, sweep_order,
  sweep_reservation, sweep_each, release_expired_reservations,
}
use ecommerce_rest_api.Inventory.Units.{
  IsBacked, Conserves, Conserves-trans, release_reservation-Conserves, release_order-Conserves,
  commit-Conserves, release_order-orders, release_reservation-orders,
}

sweep_uncancelled-Conserves :
    (oid : ObjectId) (o : Option Order) (s : Sweep) (db : Db)
    → IsBacked db
    → Conserves db (sweep_uncancelled reference oid o s db).1
unfolding sweep_uncancelled
sweep_uncancelled-Conserves oid none s db b = release_order-Conserves oid ReleaseStatus.expired db b
sweep_uncancelled-Conserves oid (some o) s db b =
    elim (Bool-cases (
      payment_eq o.payment_status PaymentStatus.paid
      || payment_eq o.payment_status PaymentStatus.authorized)) [
        | inl p ↦ rw p (commit-Conserves o.id db b)
        | inr other ↦ rw other (b, λ id. refl)
      ]

sweep_order-Conserves :
    (oid : ObjectId) (o : Option Order) (s : Sweep) (db : Db)
    → IsBacked db
    → Conserves db (sweep_order reference oid o s db).1
unfolding sweep_order
sweep_order-Conserves oid none s db b =
    sweep_uncancelled-Conserves oid (first (λ o. o.id == oid) db.orders) s db b
sweep_order-Conserves oid (some o) s db b = release_order-Conserves o.id ReleaseStatus.expired db b

sweep_reservation-Conserves :
    (now : Date) (rid : ObjectId) (o : Option ObjectId) (s : Sweep) (db : Db)
    → IsBacked db
    → Conserves db (sweep_reservation reference now rid o s db).1
unfolding sweep_reservation
sweep_reservation-Conserves now rid none s db b =
    release_reservation-Conserves rid ReleaseStatus.expired (ReservationStatus.reserved ∷ []) db
      (refl, tt) b
sweep_reservation-Conserves now rid (some oid) s db b =
    elim (Bool-cases (contains oid s.handled_orders)) [
      | inl seen ↦ rw seen (b, λ id. refl)
      | inr new ↦ rw new (
          sweep_order-Conserves oid
            (modified_first (is_unpaid_order oid) (expire_order now) db.orders)
            (record s { handled_orders = oid ∷ s.handled_orders })
            (record db { orders = modify_first (is_unpaid_order oid) (expire_order now) db.orders })
            b)
    ]

sweep_each-Conserves :
    (now : Date) (rs : List InventoryReservation) (s : Sweep) (db : Db)
    → IsBacked db
    → Conserves db (sweep_each reference now rs s db).1
unfolding sweep_each
sweep_each-Conserves now [] s db b = (b, λ id. refl)
sweep_each-Conserves now (r ∷ rs) s db b =
    let (s', db') = sweep_reservation reference now r.id r.order s db in
    let step = sweep_reservation-Conserves now r.id r.order s db b in
    Conserves-trans db db' (sweep_each reference now rs s' db').1 step
      (sweep_each-Conserves now rs s' db' step.0)

release_expired_reservations-Conserves :
    (m : Mongo) (sorted : List InventoryReservation → List InventoryReservation) (now : Date)
    (batch_size : ℕ) (db : Db)
    → IsMongo m
    → IsBacked db
    → Conserves db (release_expired_reservations m sorted now batch_size db).1
unfolding release_expired_reservations
release_expired_reservations-Conserves m sorted now batch_size db h b =
    by_reference (λ m. Conserves db (release_expired_reservations m sorted now batch_size db).1) m h
      (sweep_each-Conserves now
        (take batch_size (sorted (matching (is_expired now) db.reservations)))
        (record { released = 0; cancelled = 0; handled_orders = [] }) db b)

-- Each order is as it was, or it was pending and unpaid and is now cancelled as expired.
abbrev pub OnlyExpires : Date → List Order → List Order → Type 0
OnlyExpires now [] [] = Unit
OnlyExpires now (o ∷ os) (o' ∷ os') =
    ((o' ≡ o)
      ⊎ ((o.status ≡ OrderStatus.pending)
          × (o.payment_status ≡ PaymentStatus.unpaid)
          × (o' ≡ expire_order now o)))
    × OnlyExpires now os os'
OnlyExpires now _ _ = ⊥

OnlyExpires-refl : (now : Date) (os : List Order) → OnlyExpires now os os
OnlyExpires-refl now [] = tt
OnlyExpires-refl now (o ∷ os) = (inl refl, OnlyExpires-refl now os)

OnlyExpires-trans :
    (now : Date) (a b c : List Order)
    → OnlyExpires now a b
    → OnlyExpires now b c
    → OnlyExpires now a c
OnlyExpires-trans now [] [] [] h k = tt
OnlyExpires-trans now (x ∷ xs) (y ∷ ys) (z ∷ zs) h k =
    (ground (arith, h.0, k.0), OnlyExpires-trans now xs ys zs h.1 k.1)
OnlyExpires-trans now [] (y ∷ ys) c h k = absurd h
OnlyExpires-trans now (x ∷ xs) [] c h k = absurd h
OnlyExpires-trans now [] [] (z ∷ zs) h k = absurd k
OnlyExpires-trans now (x ∷ xs) (y ∷ ys) [] h k = absurd k

modify_first-OnlyExpires :
    (now : Date) (oid : ObjectId) (os : List Order)
    → OnlyExpires now os (modify_first (is_unpaid_order oid) (expire_order now) os)
modify_first-OnlyExpires now oid [] = tt
modify_first-OnlyExpires now oid (o ∷ os) = elim (Bool-cases (is_unpaid_order oid o)) [
  | inl hit ↦ rw hit (inr (ground arith, ground arith, refl), OnlyExpires-refl now os)
  | inr miss ↦ rw miss (inl refl, modify_first-OnlyExpires now oid os)
]

sweep_uncancelled-orders :
    (oid : ObjectId) (o : Option Order) (s : Sweep) (db : Db)
    → (sweep_uncancelled reference oid o s db).1.orders ≡ db.orders
unfolding sweep_uncancelled
sweep_uncancelled-orders oid none s db = release_order-orders oid ReleaseStatus.expired db
sweep_uncancelled-orders oid (some o) s db = ground arith

sweep_order-orders :
    (oid : ObjectId) (o : Option Order) (s : Sweep) (db : Db)
    → (sweep_order reference oid o s db).1.orders ≡ db.orders
unfolding sweep_order
sweep_order-orders oid none s db =
    sweep_uncancelled-orders oid (first (λ o. o.id == oid) db.orders) s db
sweep_order-orders oid (some o) s db = release_order-orders o.id ReleaseStatus.expired db

sweep_reservation-OnlyExpires :
    (now : Date) (rid : ObjectId) (o : Option ObjectId) (s : Sweep) (db : Db)
    → OnlyExpires now db.orders (sweep_reservation reference now rid o s db).1.orders
unfolding sweep_reservation
sweep_reservation-OnlyExpires now rid none s db =
    rw (release_reservation-orders rid ReleaseStatus.expired (ReservationStatus.reserved ∷ []) db)
      (OnlyExpires-refl now db.orders)
sweep_reservation-OnlyExpires now rid (some oid) s db =
    elim (Bool-cases (contains oid s.handled_orders)) [
      | inl seen ↦ rw seen (OnlyExpires-refl now db.orders)
      | inr new ↦ rw new (
          rw
            (sweep_order-orders oid
              (modified_first (is_unpaid_order oid) (expire_order now) db.orders)
              (record s { handled_orders = oid ∷ s.handled_orders })
              (record db {
                orders = modify_first (is_unpaid_order oid) (expire_order now) db.orders;
              }))
            (modify_first-OnlyExpires now oid db.orders))
    ]

sweep_each-OnlyExpires :
    (now : Date) (rs : List InventoryReservation) (s : Sweep) (db : Db)
    → OnlyExpires now db.orders (sweep_each reference now rs s db).1.orders
unfolding sweep_each
sweep_each-OnlyExpires now [] s db = OnlyExpires-refl now db.orders
sweep_each-OnlyExpires now (r ∷ rs) s db =
    let (s', db') = sweep_reservation reference now r.id r.order s db in
    OnlyExpires-trans now db.orders db'.orders (sweep_each reference now rs s' db').1.orders
      (sweep_reservation-OnlyExpires now r.id r.order s db) (sweep_each-OnlyExpires now rs s' db')

release_expired_reservations-OnlyExpires :
    (m : Mongo) (sorted : List InventoryReservation → List InventoryReservation) (now : Date)
    (batch_size : ℕ) (db : Db)
    → IsMongo m
    → OnlyExpires now db.orders (release_expired_reservations m sorted now batch_size db).1.orders
unfolding release_expired_reservations
release_expired_reservations-OnlyExpires m sorted now batch_size db h =
    by_reference
      (λ m.
        OnlyExpires now db.orders
          (release_expired_reservations m sorted now batch_size db).1.orders)
      m h
      (sweep_each-OnlyExpires now
        (take batch_size (sorted (matching (is_expired now) db.reservations)))
        (record { released = 0; cancelled = 0; handled_orders = [] }) db)

-- A sweep over expired reservations keeps, for every product, the sum of the units in stock and the
-- units that active reservations hold, whatever order the server returns the reservations in; and it
-- leaves every order as it was, or cancels it as expired if it was pending and unpaid.
pub release_expired_reservations-IsSwept :
    (m : Mongo) (sorted : List InventoryReservation → List InventoryReservation) (now : Date)
    (batch_size : ℕ) (db : Db)
    → IsMongo m
    → IsBacked db
    → (let db' = (release_expired_reservations m sorted now batch_size db).1 in
        Conserves db db' × OnlyExpires now db.orders db'.orders)
release_expired_reservations-IsSwept m sorted now batch_size db h b = (
  release_expired_reservations-Conserves m sorted now batch_size db h b,
  release_expired_reservations-OnlyExpires m sorted now batch_size db h,
)
