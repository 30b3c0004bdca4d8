-- ===== src/Checkout/Reversal.antt =====
-- Each undo action takes back the step that registered it, exactly.
use ecommerce_rest_api.Base.{
  ℕ, ◌+◌, ◌<◌, ◌≤◌, ◌≡◌, ◌≢◌, Bool, false, some, List, [], ◌∷◌, ◌++◌, ◌==◌, contains, All, refl, ap,
  ◌∙◌, Bool-cases, inl, inr, arith, String,
}
use ecommerce_rest_api.Domain.{
  ObjectId, Product, CartItem, Coupon, Order, InventoryReservation, ReservationStatus,
}
use ecommerce_rest_api.Mongo.{Db}
use ecommerce_rest_api.Mongo.Reference.{modify_first, modified_first, modify_all, remove_first}
use ecommerce_rest_api.Mongo.Laws.{reference}
use ecommerce_rest_api.Mongo.Documents.{IsUnique, All-modified_first}
use ecommerce_rest_api.Inventory.{has_id, add_stock, set_status}
use ecommerce_rest_api.Checkout.{
  is_available, take_stock, has_uses_left, use_coupon, set_order, compensate,
}
use ecommerce_rest_api.Checkout.Effects.{
  Undo, restore_stock, release_reservation, release_coupon, delete_order, is_used_coupon,
  unuse_coupon, run_undo,
}

abbrev release_id : ObjectId → List InventoryReservation → List InventoryReservation
release_id id = modify_first (λ r. r.id == id) (set_status ReservationStatus.released)

-- What a list of undo actions, newest first, does to each collection.
abbrev pub undo_products : List Undo → List Product → List Product
undo_products [] ps = ps
undo_products (restore_stock id q ∷ us) ps =
    undo_products us (modify_first (has_id id) (add_stock q) ps)
undo_products (_ ∷ us) ps = undo_products us ps

abbrev pub undo_coupons : List Undo → List Coupon → List Coupon
undo_coupons [] cs = cs
undo_coupons (release_coupon id ∷ us) cs =
    undo_coupons us (modify_first (is_used_coupon id) unuse_coupon cs)
undo_coupons (_ ∷ us) cs = undo_coupons us cs

abbrev pub undo_orders : List Undo → List Order → List Order
undo_orders [] os = os
undo_orders (delete_order id ∷ us) os = undo_orders us (remove_first (λ o. o.id == id) os)
undo_orders (_ ∷ us) os = undo_orders us os

abbrev pub undo_reservations : List Undo → List InventoryReservation → List InventoryReservation
undo_reservations [] rs = rs
undo_reservations (release_reservation id ∷ us) rs = undo_reservations us (release_id id rs)
undo_reservations (_ ∷ us) rs = undo_reservations us rs

-- With no undo action failing, `compensate` is those four functions.
pub compensate_lem :
    (undo_fails : ℕ → Bool) (n : ℕ) (us : List Undo) (db : Db)
    → ((k : ℕ) → undo_fails k ≡ false)
    → compensate reference undo_fails n us db ≡ record db {
      products = undo_products us db.products;
      coupons = undo_coupons us db.coupons;
      orders = undo_orders us db.orders;
      reservations = undo_reservations us db.reservations;
    }
unfolding compensate
compensate_lem undo_fails n [] db h = refl
compensate_lem undo_fails n (restore_stock id q ∷ us) db h =
    rw (h n) (compensate_lem undo_fails (n + 1) us (run_undo reference (restore_stock id q) db) h)
compensate_lem undo_fails n (release_reservation id ∷ us) db h =
    rw (h n)
      (compensate_lem undo_fails (n + 1) us (run_undo reference (release_reservation id) db) h)
compensate_lem undo_fails n (release_coupon id ∷ us) db h =
    rw (h n) (compensate_lem undo_fails (n + 1) us (run_undo reference (release_coupon id) db) h)
compensate_lem undo_fails n (delete_order id ∷ us) db h =
    rw (h n) (compensate_lem undo_fails (n + 1) us (run_undo reference (delete_order id) db) h)

-- Stock that was taken and given back leaves the products as they were.
pub add_stock-take_stock :
    (tenant : String) (item : CartItem) (ps : List Product) (p : Product)
    → IsUnique (λ x. x.id) ps
    → modified_first (is_available tenant item) (take_stock item.quantity) ps ≡ some p
    → modify_first
        (has_id p.id)
        (add_stock item.quantity)
        (modify_first (is_available tenant item) (take_stock item.quantity) ps)
      ≡ ps
add_stock-take_stock tenant item [] p u e = cc
add_stock-take_stock tenant item (x ∷ ps) p u e = elim (Bool-cases (is_available tenant item x)) [
  | inl hit ↦
      let taken : some (take_stock item.quantity x) ≡ some p = rw hit at e in
      rw hit (ground (arith, taken))
  | inr miss ↦
      let later : modified_first (is_available tenant item) (take_stock item.quantity) ps ≡ some p =
        rw miss at e in
      let (y, fresh, _, image) = All-modified_first (λ y. y.id ≢ x.id) _ _ ps p u.0 later in
      let other : (x.id == p.id) ≡ false = ground (arith, fresh, image) in
      rw (miss, other) (ap (λ l. x ∷ l) (add_stock-take_stock tenant item ps p u.1 later))
]

pub unuse_coupon-use_coupon :
    (coupon : Coupon) (cs : List Coupon) (c : Coupon)
    → IsUnique (λ x. x.id) cs
    → modified_first (has_uses_left coupon) use_coupon cs ≡ some c
    → modify_first
        (is_used_coupon coupon.id)
        unuse_coupon
        (modify_first (has_uses_left coupon) use_coupon cs)
      ≡ cs
unuse_coupon-use_coupon coupon [] c u e = cc
unuse_coupon-use_coupon coupon (x ∷ cs) c u e = elim (Bool-cases (has_uses_left coupon x)) [
  | inl hit ↦ rw hit (ground arith)
  | inr miss ↦
      let later : modified_first (has_uses_left coupon) use_coupon cs ≡ some c = rw miss at e in
      let (y, fresh, found, image) = All-modified_first (λ y. y.id ≢ x.id) _ _ cs c u.0 later in
      let other : (x.id == coupon.id) ≡ false = ground (arith, fresh, found) in
      rw (miss, other) (ap (λ l. x ∷ l) (unuse_coupon-use_coupon coupon cs c u.1 later))
]

-- An order that was appended and deleted by its new id leaves the orders as they were.
pub remove_first-append :
    (o : Order) (os : List Order)
    → All (λ x. x.id < o.id) os
    → remove_first (λ x. x.id == o.id) (os ++ o ∷ []) ≡ os
remove_first-append o [] h = ground arith
remove_first-append o (x ∷ os) h =
    let other : (x.id == o.id) ≡ false = ground (arith, h.0) in
    rw other (ap (λ l. x ∷ l) (remove_first-append o os h.1))

-- A new reservation is released by its own undo action, and by no older one.
release_id-append_self :
    (r : InventoryReservation) (rs : List InventoryReservation)
    → All (λ x. x.id < r.id) rs
    → release_id r.id (rs ++ r ∷ []) ≡ rs ++ set_status ReservationStatus.released r ∷ []
release_id-append_self r [] h = ground arith
release_id-append_self r (x ∷ rs) h =
    let other : (x.id == r.id) ≡ false = ground (arith, h.0) in
    rw other (ap (λ l. x ∷ l) (release_id-append_self r rs h.1))

release_id-append_other :
    (id : ObjectId) (r : InventoryReservation) (rs : List InventoryReservation)
    → id < r.id
    → release_id id (rs ++ r ∷ []) ≡ release_id id rs ++ r ∷ []
release_id-append_other id r [] h = ground arith
release_id-append_other id r (x ∷ rs) h = elim (Bool-cases (x.id == id)) [
  | inl hit ↦ rw hit
  | inr miss ↦ rw miss (ap (λ l. x ∷ l) (release_id-append_other id r rs h))
]

-- The undo actions release only reservations made before `n`.
abbrev pub IsOlder : ObjectId → Undo → Type 0
IsOlder n (release_reservation id) = id < n
IsOlder n _ = Unit

undo_reservations-append :
    (us : List Undo) (r : InventoryReservation) (rs : List InventoryReservation)
    → All (IsOlder r.id) us
    → undo_reservations us (rs ++ r ∷ []) ≡ undo_reservations us rs ++ r ∷ []
undo_reservations-append [] r rs h = refl
undo_reservations-append (restore_stock id q ∷ us) r rs h = undo_reservations-append us r rs h.1
undo_reservations-append (release_coupon id ∷ us) r rs h = undo_reservations-append us r rs h.1
undo_reservations-append (delete_order id ∷ us) r rs h = undo_reservations-append us r rs h.1
undo_reservations-append (release_reservation id ∷ us) r rs h =
    ap (undo_reservations us) (release_id-append_other id r rs h.0)
    ∙ undo_reservations-append us r (release_id id rs) h.1

-- After a reservation was created, undoing leaves it behind as released and nothing else changes.
pub undo_reservations-create :
    (us : List Undo) (r : InventoryReservation) (rs : List InventoryReservation)
    → All (λ x. x.id < r.id) rs
    → All (IsOlder r.id) us
    → undo_reservations (release_reservation r.id ∷ us) (rs ++ r ∷ [])
      ≡ undo_reservations us rs ++ set_status ReservationStatus.released r ∷ []
undo_reservations-create us r rs h k =
    ap (undo_reservations us) (release_id-append_self r rs h)
    ∙ undo_reservations-append us (set_status ReservationStatus.released r) rs k

release_id-attach :
    (id oid : ObjectId) (ids : List ObjectId) (rs : List InventoryReservation)
    → release_id id (modify_all (λ r. contains r.id ids) (set_order oid) rs)
      ≡ modify_all (λ r. contains r.id ids) (set_order oid) (release_id id rs)
release_id-attach id oid ids [] = refl
release_id-attach id oid ids (x ∷ rs) = elim (Bool-cases (x.id == id)) [
  | inl hit ↦ elim (Bool-cases (contains x.id ids)) [
    | inl mine ↦ rw mine (rw hit (rw mine))
    | inr other ↦ rw other (rw hit (rw other))
  ]
  | inr miss ↦ elim (Bool-cases (contains x.id ids)) [
    | inl mine ↦
        rw mine
          (rw miss (rw mine (ap (λ l. set_order oid x ∷ l) (release_id-attach id oid ids rs))))
    | inr other ↦ rw other (rw miss (rw other (ap (λ l. x ∷ l) (release_id-attach id oid ids rs))))
  ]
]

pub undo_reservations-attach :
    (us : List Undo) (oid : ObjectId) (ids : List ObjectId) (rs : List InventoryReservation)
    → undo_reservations us (modify_all (λ r. contains r.id ids) (set_order oid) rs)
      ≡ modify_all (λ r. contains r.id ids) (set_order oid) (undo_reservations us rs)
undo_reservations-attach [] oid ids rs = refl
undo_reservations-attach (restore_stock id q ∷ us) oid ids rs =
    undo_reservations-attach us oid ids rs
undo_reservations-attach (release_coupon id ∷ us) oid ids rs =
    undo_reservations-attach us oid ids rs
undo_reservations-attach (delete_order id ∷ us) oid ids rs = undo_reservations-attach us oid ids rs
undo_reservations-attach (release_reservation id ∷ us) oid ids rs =
    ap (undo_reservations us) (release_id-attach id oid ids rs)
    ∙ undo_reservations-attach us oid ids (release_id id rs)

contains-eq-false : (k n : ℕ) (ids : List ℕ) → k < n → All (λ i. n ≤ i) ids → contains k ids ≡ false
contains-eq-false k n [] h a = refl
contains-eq-false k n (i ∷ ids) h a = ground (arith, contains-eq-false k n ids h a.1)

-- Reservations of before the checkout are not among those that it attaches to its order.
pub attach-append :
    (n oid : ObjectId) (ids : List ObjectId) (old new : List InventoryReservation)
    → All (λ r. r.id < n) old
    → All (λ i. n ≤ i) ids
    → modify_all (λ r. contains r.id ids) (set_order oid) (old ++ new)
      ≡ old ++ modify_all (λ r. contains r.id ids) (set_order oid) new
attach-append n oid ids [] new h a = refl
attach-append n oid ids (x ∷ old) new h a =
    let mine : contains x.id ids ≡ false = contains-eq-false x.id n ids h.0 a in
    rw mine (ap (λ l. x ∷ l) (attach-append n oid ids old new h.1 a))
