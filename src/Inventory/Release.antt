-- ===== src/Inventory/Release.antt =====
-- Releasing the reservations of one order, exactly.
use ecommerce_rest_api.Base.{
  ℕ, ◌+◌, ◌≡◌, ◌≢◌, true, false, ◌&&◌, List, [], ◌∷◌, if◌then◌else◌, ◌==◌, sum_of, All, refl, ap,
  ◌∙◌, Option-cases, Bool-cases, inl, inr, arith,
}
use ecommerce_rest_api.Domain.{ObjectId, InventoryReservation}
use ecommerce_rest_api.Mongo.{Mongo, IsMongo, Db}
use ecommerce_rest_api.Mongo.Reference.{matching, modify_first, modified_first, modify_all}
use ecommerce_rest_api.Mongo.Laws.{reference, by_reference}
use ecommerce_rest_api.Mongo.Documents.{IsUnique, All-matching}
use ecommerce_rest_api.Inventory.{
  ReleaseStatus, to_status, active_statuses, is_releasable, set_status, holds_for, count_if,
  return_stock, release_reservation, release_each, release_order_reservations,
}
use ecommerce_rest_api.Inventory.Units.{
  IsBacked, stock_of, held_of, held_part-released, release_order-Conserves,
}

abbrev release_one :
    ReleaseStatus → ObjectId → List InventoryReservation → List InventoryReservation
release_one to rid = modify_first (is_releasable rid active_statuses) (set_status (to_status to))

-- The reservations alone, through the loop.
abbrev release_list :
    ReleaseStatus
    → List InventoryReservation
    → List InventoryReservation
    → List InventoryReservation
release_list to [] rs = rs
release_list to (t ∷ ts) rs = release_list to ts (release_one to t.id rs)

release_reservation-reservations :
    (rid : ObjectId) (to : ReleaseStatus) (db : Db)
    → (release_reservation reference rid to active_statuses db).1.reservations
      ≡ release_one to rid db.reservations
unfolding release_reservation
release_reservation-reservations rid to db =
    elim (Option-cases (
      modified_first (is_releasable rid active_statuses) (set_status (to_status to))
        db.reservations)) [
          | inl missing ↦ rw (missing, return_stock)
          | inr (r, found) ↦ rw (found, return_stock)
        ]

release_each-reservations :
    (to : ReleaseStatus) (ts : List InventoryReservation) (n : ℕ) (db : Db)
    → (release_each reference to ts n db).1.reservations ≡ release_list to ts db.reservations
unfolding release_each
release_each-reservations to [] n db = refl
release_each-reservations to (t ∷ ts) n db =
    let (done, db') = release_reservation reference t.id to active_statuses db in
    release_each-reservations to ts (count_if done n) db'
    ∙ ap (release_list to ts) (release_reservation-reservations t.id to db)

release_list-cons :
    (to : ReleaseStatus) (ts rs : List InventoryReservation) (r : InventoryReservation)
    → All (λ t. t.id ≢ r.id) ts
    → release_list to ts (r ∷ rs) ≡ r ∷ release_list to ts rs
release_list-cons to [] rs r h = refl
release_list-cons to (t ∷ ts) rs r h =
    let other : (r.id == t.id) ≡ false = ground (arith, h.0) in
    rw other (release_list-cons to ts (release_one to t.id rs) r h.1)

-- One update for each document that the query found is one update of all that match.
release_list-matching :
    (to : ReleaseStatus) (oid : ObjectId) (rs : List InventoryReservation)
    → IsUnique (λ r. r.id) rs
    → release_list to (matching (holds_for oid) rs) rs
      ≡ modify_all (holds_for oid) (set_status (to_status to)) rs
release_list-matching to oid [] u = refl
release_list-matching to oid (r ∷ rs) u =
    let later = All-matching (λ t. t.id ≢ r.id) (holds_for oid) rs u.0 in
    elim (Bool-cases (holds_for oid r)) [
      | inl hit ↦
          let releasable : is_releasable r.id active_statuses r ≡ true = ground arith in
          let once : release_one to r.id (r ∷ rs) ≡ set_status (to_status to) r ∷ rs =
            rw releasable in
          rw hit (
            ap (release_list to (matching (holds_for oid) rs)) once
            ∙ release_list-cons to (matching (holds_for oid) rs) rs (set_status (to_status to) r)
                later
            ∙ ap (λ l. set_status (to_status to) r ∷ l) (release_list-matching to oid rs u.1))
      | inr miss ↦ rw miss (
          release_list-cons to (matching (holds_for oid) rs) rs r later
          ∙ ap (λ l. r ∷ l) (release_list-matching to oid rs u.1))
    ]

-- What the active reservations of one order hold of a product.
abbrev pub order_part : ObjectId → ObjectId → InventoryReservation → ℕ
order_part oid id r = if holds_for oid r && r.product == id then r.quantity else 0

abbrev pub held_by_order : ObjectId → ObjectId → List InventoryReservation → ℕ
held_by_order oid id = sum_of (order_part oid id)

held_of-modify_all :
    (to : ReleaseStatus) (oid id : ObjectId) (rs : List InventoryReservation)
    → held_of id (modify_all (holds_for oid) (set_status (to_status to)) rs)
        + held_by_order oid id rs
      ≡ held_of id rs
held_of-modify_all to oid id [] = refl
held_of-modify_all to oid id (r ∷ rs) = elim (Bool-cases (holds_for oid r)) [
  | inl hit ↦ rw hit (ground (arith, held_part-released id to r, held_of-modify_all to oid id rs))
  | inr miss ↦ rw miss (ground (arith, held_of-modify_all to oid id rs))
]

released_exactly :
    (oid : ObjectId) (to : ReleaseStatus) (db : Db)
    → IsUnique (λ r. r.id) db.reservations
    → (release_order_reservations reference oid to db).1.reservations
      ≡ modify_all (holds_for oid) (set_status (to_status to)) db.reservations
unfolding release_order_reservations
released_exactly oid to db u =
    release_each-reservations to (matching (holds_for oid) db.reservations) 0 db
    ∙ release_list-matching to oid db.reservations u

stock_returned :
    (oid id : ObjectId) (to : ReleaseStatus) (db : Db)
    → IsBacked db
    → IsUnique (λ r. r.id) db.reservations
    → stock_of id (release_order_reservations reference oid to db).1.products
      ≡ stock_of id db.products + held_by_order oid id db.reservations
stock_returned oid id to db b u =
    let kept = (release_order-Conserves oid to db b).1 id in
    let held = ap (held_of id) (released_exactly oid to db u) in
    omega (arith, kept, held, held_of-modify_all to oid id db.reservations)

none_held :
    (to : ReleaseStatus) (oid : ObjectId) (rs : List InventoryReservation)
    → All (λ r. holds_for oid r ≡ false) (modify_all (holds_for oid) (set_status (to_status to)) rs)
none_held to oid [] = tt
none_held ReleaseStatus.released oid (r ∷ rs) = elim (Bool-cases (holds_for oid r)) [
  | inl hit ↦ rw hit (ground arith, none_held ReleaseStatus.released oid rs)
  | inr miss ↦ rw miss (miss, none_held ReleaseStatus.released oid rs)
]
none_held ReleaseStatus.expired oid (r ∷ rs) = elim (Bool-cases (holds_for oid r)) [
  | inl hit ↦ rw hit (ground arith, none_held ReleaseStatus.expired oid rs)
  | inr miss ↦ rw miss (miss, none_held ReleaseStatus.expired oid rs)
]

-- What has happened when the reservations of an order were released.
pub record IsReleased (oid : ObjectId) (to : ReleaseStatus) (db db' : Db) : Type 0 where
  pub exactly :
      db'.reservations ≡ modify_all (holds_for oid) (set_status (to_status to)) db.reservations
  pub returned :
      (id : ObjectId)
      → stock_of id db'.products ≡ stock_of id db.products + held_by_order oid id db.reservations
  pub none_left : All (λ r. holds_for oid r ≡ false) db'.reservations

pub release_order-IsReleased :
    (oid : ObjectId) (to : ReleaseStatus) (db : Db)
    → IsBacked db
    → IsUnique (λ r. r.id) db.reservations
    → IsReleased oid to db (release_order_reservations reference oid to db).1
release_order-IsReleased oid to db b u =
    let exactly = released_exactly oid to db u in
    record {
      exactly = exactly;
      returned = λ id. stock_returned oid id to db b u;
      none_left = rw exactly (none_held to oid db.reservations);
    }

-- Releasing an order's reservations sets the status of exactly its active ones, returns to the
-- stock of every product exactly the units that they held, and leaves none of them active, when the
-- reservations have distinct ids and their products exist.
pub release_order_reservations-IsReleased :
    (m : Mongo) (oid : ObjectId) (to : ReleaseStatus) (db : Db)
    → IsMongo m
    → IsBacked db
    → IsUnique (λ r. r.id) db.reservations
    → IsReleased oid to db (release_order_reservations m oid to db).1
release_order_reservations-IsReleased m oid to db h b u =
    by_reference (λ m. IsReleased oid to db (release_order_reservations m oid to db).1) m h
      (release_order-IsReleased oid to db b u)
