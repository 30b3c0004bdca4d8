-- ===== src/Inventory/Units.antt =====
-- The units of a product: those in stock and those that active reservations hold. Every operation
-- on reservations keeps their sum.
use ecommerce_rest_api.Base.{
  ℕ, ◌+◌, ◌≡◌, Bool, true, ◌&&◌, some, List, [], ◌∷◌, if◌then◌else◌, ◌==◌, Bool-cases, any, sum_of,
  All, refl, ap, ◌∙◌, arith, Option-cases, inl, inr,
}
use ecommerce_rest_api.Domain.{ObjectId, Product, InventoryReservation, ReservationStatus}
use ecommerce_rest_api.Mongo.{Db}
use ecommerce_rest_api.Mongo.Reference.{modify_first, modified_first, modify_all, matching}
use ecommerce_rest_api.Mongo.Laws.{reference}
use ecommerce_rest_api.Mongo.Documents.{
  modify_first-eq_of_none, All-modified_first, All-modify_first, All-mono, All-modify_all,
}
use ecommerce_rest_api.Inventory.{
  holds_for, return_stock, count_if, ReleaseStatus, to_status, active_statuses, is_reservation_in,
  is_releasable, set_status, has_id, add_stock, is_reserved_for, release_reservation, release_each,
  release_order_reservations,
}

abbrev pub stock_part : ObjectId → Product → ℕ
stock_part id p = if p.id == id then p.stock else 0

abbrev pub stock_of : ObjectId → List Product → ℕ
stock_of id = sum_of (stock_part id)

abbrev pub held_part : ObjectId → InventoryReservation → ℕ
held_part id r =
    if r.product == id && is_reservation_in r.status active_statuses then r.quantity else 0

abbrev pub held_of : ObjectId → List InventoryReservation → ℕ
held_of id = sum_of (held_part id)

abbrev pub units : ObjectId → Db → ℕ
units id db = stock_of id db.products + held_of id db.reservations

abbrev pub is_stored : List Product → ObjectId → Bool
is_stored ps id = any (has_id id) ps

-- Every reservation is for a product that the database has; products are deleted by a flag only.
abbrev pub IsBacked : Db → Type 0
IsBacked db = All (λ r. is_stored db.products r.product ≡ true) db.reservations

stock_of-add :
    (id q n : ℕ) (ps : List Product)
    → is_stored ps q ≡ true
    → stock_of id (modify_first (has_id q) (add_stock n) ps)
      ≡ stock_of id ps + (if q == id then n else 0)
stock_of-add id q n [] h = ground arith
stock_of-add id q n (p ∷ ps) h = ground (arith, stock_of-add id q n ps)

pub is_stored-add :
    (id q n : ℕ) (ps : List Product)
    → is_stored (modify_first (has_id q) (add_stock n) ps) id ≡ is_stored ps id
is_stored-add id q n [] = refl
is_stored-add id q n (p ∷ ps) = ground (arith, is_stored-add id q n ps)

-- Only statuses in which a reservation is active may be released.
abbrev pub AreActive : List ReservationStatus → Type 0
AreActive from = All (λ s. is_reservation_in s active_statuses ≡ true) from

active_statuses-AreActive : AreActive active_statuses
active_statuses-AreActive = (refl, (refl, tt))

active_of_in :
    (s : ReservationStatus) (from : List ReservationStatus)
    → AreActive from
    → is_reservation_in s from ≡ true
    → is_reservation_in s active_statuses ≡ true
active_of_in s [] a h = ground arith
active_of_in s (t ∷ from) a h = ground (arith, active_of_in s from a.1)

pub held_part-released :
    (id : ℕ) (to : ReleaseStatus) (r : InventoryReservation)
    → held_part id (set_status (to_status to) r) ≡ 0
held_part-released id ReleaseStatus.released r = ground arith
held_part-released id ReleaseStatus.expired r = ground arith

held_part-active :
    (id rid : ℕ) (from : List ReservationStatus) (r : InventoryReservation)
    → AreActive from
    → is_releasable rid from r ≡ true
    → held_part id r ≡ (if r.product == id then r.quantity else 0)
held_part-active id rid from r a h = ground (arith, active_of_in r.status from a)

held_of-release :
    (id rid : ℕ) (to : ReleaseStatus) (from : List ReservationStatus)
    (rs : List InventoryReservation) (r : InventoryReservation)
    → AreActive from
    → modified_first (is_releasable rid from) (set_status (to_status to)) rs ≡ some r
    → held_of id (modify_first (is_releasable rid from) (set_status (to_status to)) rs)
        + (if r.product == id then r.quantity else 0)
      ≡ held_of id rs
held_of-release id rid to from [] r a h = cc
held_of-release id rid to from (x ∷ rs) r a h = elim (Bool-cases (is_releasable rid from x)) [
  | inl hit ↦
      let e : some (set_status (to_status to) x) ≡ some r = rw hit at h in
      rw hit (ground (arith, e, held_part-released id to x, held_part-active id rid from x a hit))
  | inr miss ↦ rw miss (omega (arith, held_of-release id rid to from rs r a (rw miss at h)))
]

-- The two updates of a release together.
units-release :
    (id rid : ObjectId) (to : ReleaseStatus) (from : List ReservationStatus) (db : Db)
    → AreActive from
    → IsBacked db
    → units id (release_reservation reference rid to from db).1 ≡ units id db
unfolding release_reservation
units-release id rid to from db a b =
    elim (Option-cases
      (modified_first (is_releasable rid from) (set_status (to_status to)) db.reservations)) [
        | inl missing ↦
            rw (missing, return_stock) (rw (modify_first-eq_of_none _ _ db.reservations missing))
        | inr (r, found) ↦
            let stored =
              All-modified_first (λ x. is_stored db.products x.product ≡ true) _ _ db.reservations r
                b found in
            let backed : is_stored db.products r.product ≡ true = rw (← stored.3) stored.1 in
            rw (found, return_stock)
              (omega (
                arith,
                stock_of-add id r.product r.quantity db.products backed,
                held_of-release id rid to from db.reservations r a found,
              ))
      ]

release-IsBacked :
    (rid : ObjectId) (to : ReleaseStatus) (from : List ReservationStatus) (db : Db)
    → IsBacked db
    → IsBacked (release_reservation reference rid to from db).1
unfolding release_reservation
release-IsBacked rid to from db b =
    let kept =
      All-modify_first (λ r. is_stored db.products r.product ≡ true) (is_releasable rid from)
        (set_status (to_status to)) db.reservations (λ r h s. s) b in
    elim (Option-cases
      (modified_first (is_releasable rid from) (set_status (to_status to)) db.reservations)) [
        | inl missing ↦ rw (missing, return_stock) kept
        | inr (r, found) ↦
            rw (found, return_stock)
              (All-mono (λ x. is_stored db.products x.product ≡ true)
                (λ x.
                  is_stored (modify_first (has_id r.product) (add_stock r.quantity) db.products)
                    x.product
                  ≡ true)
                _ (λ x s. is_stored-add x.product r.product r.quantity db.products ∙ s) kept)
      ]

-- The second database accounts for the same units of every product as the first.
abbrev pub Conserves : Db → Db → Type 0
Conserves db db' = IsBacked db' × ((id : ObjectId) → units id db' ≡ units id db)

pub Conserves-trans : (a b c : Db) → Conserves a b → Conserves b c → Conserves a c
Conserves-trans a b c h k = (k.0, λ id. k.1 id ∙ h.1 id)

pub release_reservation-Conserves :
    (rid : ObjectId) (to : ReleaseStatus) (from : List ReservationStatus) (db : Db)
    → AreActive from
    → IsBacked db
    → Conserves db (release_reservation reference rid to from db).1
release_reservation-Conserves rid to from db a b =
    (release-IsBacked rid to from db b, λ id. units-release id rid to from db a b)

pub release_each-Conserves :
    (to : ReleaseStatus) (rs : List InventoryReservation) (n : ℕ) (db : Db)
    → IsBacked db
    → Conserves db (release_each reference to rs n db).1
unfolding release_each
release_each-Conserves to [] n db b = (b, λ id. refl)
release_each-Conserves to (r ∷ rs) n db b =
    let (done, db') = release_reservation reference r.id to active_statuses db in
    let step =
      release_reservation-Conserves r.id to active_statuses db active_statuses-AreActive b in
    Conserves-trans db db' (release_each reference to rs (count_if done n) db').1 step
      (release_each-Conserves to rs (count_if done n) db' step.0)

pub release_order-Conserves :
    (oid : ObjectId) (to : ReleaseStatus) (db : Db)
    → IsBacked db
    → Conserves db (release_order_reservations reference oid to db).1
unfolding release_order_reservations
release_order-Conserves oid to db b =
    release_each-Conserves to (matching (holds_for oid) db.reservations) 0 db b

held_of-commit :
    (id oid : ObjectId) (rs : List InventoryReservation)
    → held_of id (modify_all (is_reserved_for oid) (set_status ReservationStatus.committed) rs)
      ≡ held_of id rs
held_of-commit id oid [] = refl
held_of-commit id oid (r ∷ rs) = elim (Bool-cases (is_reserved_for oid r)) [
  | inl hit ↦ rw hit (ground (arith, held_of-commit id oid rs))
  | inr miss ↦ rw miss (ground (arith, held_of-commit id oid rs))
]

-- Reservations of a paid order change from reserved to committed, and go on holding their stock.
pub commit-Conserves :
    (oid : ObjectId) (db : Db)
    → IsBacked db
    → Conserves db (record db {
      reservations =
          reference.reservations.update_many
            (is_reserved_for oid)
            (set_status ReservationStatus.committed)
            db.reservations;
    })
commit-Conserves oid db b = (
  All-modify_all (λ r. is_stored db.products r.product ≡ true) (is_reserved_for oid)
      (set_status ReservationStatus.committed) db.reservations (λ r h s. s) b,
  λ id. ap (λ n. stock_of id db.products + n) (held_of-commit id oid db.reservations),
)

-- Releasing touches products and reservations alone.
pub release_reservation-orders :
    (rid : ObjectId) (to : ReleaseStatus) (from : List ReservationStatus) (db : Db)
    → (release_reservation reference rid to from db).1.orders ≡ db.orders
unfolding release_reservation
release_reservation-orders rid to from db =
    elim (Option-cases
      (modified_first (is_releasable rid from) (set_status (to_status to)) db.reservations)) [
        | inl missing ↦ rw (missing, return_stock)
        | inr (r, found) ↦ rw (found, return_stock)
      ]

release_each-orders :
    (to : ReleaseStatus) (rs : List InventoryReservation) (n : ℕ) (db : Db)
    → (release_each reference to rs n db).1.orders ≡ db.orders
unfolding release_each
release_each-orders to [] n db = refl
release_each-orders to (r ∷ rs) n db =
    let (done, db') = release_reservation reference r.id to active_statuses db in
    release_each-orders to rs (count_if done n) db'
    ∙ release_reservation-orders r.id to active_statuses db

pub release_order-orders :
    (oid : ObjectId) (to : ReleaseStatus) (db : Db)
    → (release_order_reservations reference oid to db).1.orders ≡ db.orders
unfolding release_order_reservations
release_order-orders oid to db =
    release_each-orders to (matching (holds_for oid) db.reservations) 0 db
