-- ===== src/Checkout/Steps.antt =====
-- Each step of a checkout keeps what can be undone.
use ecommerce_rest_api.Base.{
  ℕ, ◌+◌, ◌<◌, ◌≤◌, ◌≡◌, Option, some, none, List, [], ◌∷◌, ◌++◌, if◌then◌else◌, ◌==◌, contains,
  All, refl, sym, ap, ◌∙◌, arith, String,
}
use mathlib.Core.List.{append-nil, append_assoc}
use ecommerce_rest_api.Domain.{
  ObjectId, Date, Product, CartItem, Coupon, Order, InventoryReservation, ReservationStatus,
}
use ecommerce_rest_api.Mongo.{Db}
use ecommerce_rest_api.Mongo.Reference.{modify_first, modified_first, modify_all}
use ecommerce_rest_api.Mongo.Laws.{reference}
use ecommerce_rest_api.Mongo.Documents.{
  IsUnique-modify_first, modify_first-eq_of_none, All-mono, All-concat, All-modify_all,
}
use ecommerce_rest_api.Inventory.{set_status}
use ecommerce_rest_api.Checkout.{
  Request, is_available, take_stock, take_product, create_reservation, new_reservation,
  has_uses_left, use_coupon, set_order, claim, create_order, attach, redeem,
}
use ecommerce_rest_api.Checkout.Effects.{
  Undo, restore_stock, release_reservation, release_coupon, delete_order,
}
use ecommerce_rest_api.Checkout.Reversal.{
  undo_products, undo_coupons, undo_orders, IsOlder, add_stock-take_stock, unuse_coupon-use_coupon,
  remove_first-append, undo_reservations-create, undo_reservations-attach, attach-append,
}
use ecommerce_rest_api.Checkout.Undoable.{IsNumbered, Undoable}

pub start-Undoable : (db : Db) → IsNumbered db → Undoable db [] db
start-Undoable db n = record {
  numbered = n;
  products = refl;
  coupons = refl;
  orders = refl;
  left = [];
  reservations = sym (append-nil db.reservations);
  released = tt;
  undo_ids = tt;
  carts = refl;
  newer = omega arith;
}

-- The undo actions once the action for what was found is registered.
abbrev pub with_restore : Option Product → ℕ → List Undo → List Undo
with_restore none quantity us = us
with_restore (some p) quantity us = restore_stock p.id quantity ∷ us

module _ (before : Db) (us : List Undo) (db : Db) (h : Undoable before us db) where
  taken-Undoable :
      (tenant : String) (item : CartItem) (found : Option Product)
      → modified_first (is_available tenant item) (take_stock item.quantity) db.products ≡ found
      → Undoable before (with_restore found item.quantity us) (record db {
        products = modify_first (is_available tenant item) (take_stock item.quantity) db.products;
      })
  taken-Undoable tenant item none e = record {
    numbered = record {
      product_ids =
          IsUnique-modify_first (λ p. p.id) _ _ db.products (λ p. refl) h.numbered.product_ids;
      coupon_ids = h.numbered.coupon_ids;
      order_ids = h.numbered.order_ids;
      reservation_ids = h.numbered.reservation_ids;
    };
    products = ap (undo_products us) (modify_first-eq_of_none _ _ db.products e) ∙ h.products;
    coupons = h.coupons;
    orders = h.orders;
    left = h.left;
    reservations = h.reservations;
    released = h.released;
    undo_ids = h.undo_ids;
    carts = h.carts;
    newer = h.newer;
  }
  taken-Undoable tenant item (some p) e = record {
    numbered = record {
      product_ids =
          IsUnique-modify_first (λ p. p.id) _ _ db.products (λ p. refl) h.numbered.product_ids;
      coupon_ids = h.numbered.coupon_ids;
      order_ids = h.numbered.order_ids;
      reservation_ids = h.numbered.reservation_ids;
    };
    products =
        ap (undo_products us)
          (add_stock-take_stock tenant item db.products p h.numbered.product_ids e)
        ∙ h.products;
    coupons = h.coupons;
    orders = h.orders;
    left = h.left;
    reservations = h.reservations;
    released = h.released;
    undo_ids = (tt, h.undo_ids);
    carts = h.carts;
    newer = h.newer;
  }

  pub take_product-Undoable :
      (tenant : String) (item : CartItem)
      → let (found, db') = take_product reference tenant item db in
        Undoable before (with_restore found item.quantity us) db'
  take_product-Undoable tenant item = taken-Undoable tenant item _ refl

  IsOlder-suc : (u : Undo) → IsOlder db.next_id u → IsOlder (db.next_id + 1) u
  IsOlder-suc (restore_stock id q) k = k
  IsOlder-suc (release_reservation id) k = omega arith
  IsOlder-suc (release_coupon id) k = k
  IsOlder-suc (delete_order id) k = k

  pub create_reservation-Undoable :
      (req : Request) (at : Date) (product : ObjectId) (q : ℕ)
      → let (id, db') = create_reservation reference req at product q db in
        Undoable before (release_reservation id ∷ us) db'
  create_reservation-Undoable req at product q =
      let r : InventoryReservation = new_reservation req at product q db.next_id in
      record {
        numbered = record {
          product_ids = h.numbered.product_ids;
          coupon_ids = h.numbered.coupon_ids;
          order_ids =
              All-mono (λ o. o.id < db.next_id) (λ o. o.id < db.next_id + 1) db.orders
                (λ o k. omega arith) h.numbered.order_ids;
          reservation_ids =
              All-concat (λ x. x.id < db.next_id + 1) db.reservations (r ∷ [])
                (All-mono (λ x. x.id < db.next_id) (λ x. x.id < db.next_id + 1) db.reservations
                  (λ x k. omega arith) h.numbered.reservation_ids)
                (omega arith, tt);
        };
        products = h.products;
        coupons = h.coupons;
        orders = h.orders;
        left = h.left ++ set_status ReservationStatus.released r ∷ [];
        reservations =
            undo_reservations-create us r db.reservations h.numbered.reservation_ids h.undo_ids
            ∙ ap (λ l. l ++ set_status ReservationStatus.released r ∷ []) h.reservations
            ∙ append_assoc before.reservations h.left
                (set_status ReservationStatus.released r ∷ []);
        released =
            All-concat (λ x. x.status ≡ ReservationStatus.released) h.left
              (set_status ReservationStatus.released r ∷ []) h.released (refl, tt);
        undo_ids = (
          omega arith,
          All-mono (IsOlder db.next_id) (IsOlder (db.next_id + 1)) us IsOlder-suc h.undo_ids,
        );
        carts = h.carts;
        newer = omega (arith, h.newer);
      }

  claimed-Undoable :
      (coupon : Coupon) (c : Option Coupon)
      → modified_first (has_uses_left coupon) use_coupon db.coupons ≡ c
      → Undoable before
          (if (elim c [ none ↦ 0 | some _ ↦ 1 ]) == 1 then release_coupon coupon.id ∷ us else us)
          (record db { coupons = modify_first (has_uses_left coupon) use_coupon db.coupons })
  claimed-Undoable coupon none e = record {
    numbered = record {
      product_ids = h.numbered.product_ids;
      coupon_ids =
          IsUnique-modify_first (λ c. c.id) _ _ db.coupons (λ c. refl) h.numbered.coupon_ids;
      order_ids = h.numbered.order_ids;
      reservation_ids = h.numbered.reservation_ids;
    };
    products = h.products;
    coupons = ap (undo_coupons us) (modify_first-eq_of_none _ _ db.coupons e) ∙ h.coupons;
    orders = h.orders;
    left = h.left;
    reservations = h.reservations;
    released = h.released;
    undo_ids = h.undo_ids;
    carts = h.carts;
    newer = h.newer;
  }
  claimed-Undoable coupon (some c) e = record {
    numbered = record {
      product_ids = h.numbered.product_ids;
      coupon_ids =
          IsUnique-modify_first (λ c. c.id) _ _ db.coupons (λ c. refl) h.numbered.coupon_ids;
      order_ids = h.numbered.order_ids;
      reservation_ids = h.numbered.reservation_ids;
    };
    products = h.products;
    coupons =
        ap (undo_coupons us) (unuse_coupon-use_coupon coupon db.coupons c h.numbered.coupon_ids e)
        ∙ h.coupons;
    orders = h.orders;
    left = h.left;
    reservations = h.reservations;
    released = h.released;
    undo_ids = (tt, h.undo_ids);
    carts = h.carts;
    newer = h.newer;
  }

  pub claim-Undoable :
      (coupon : Coupon)
      → let (n, db') = claim reference coupon db in
        Undoable before (if n == 1 then release_coupon coupon.id ∷ us else us) db'
  claim-Undoable coupon = claimed-Undoable coupon _ refl

  pub create_order-Undoable :
      (order : ObjectId → Order)
      → (order db.next_id).id ≡ db.next_id
      → let (o, db') = create_order reference order db in
        Undoable before (delete_order o.id ∷ us) db'
  create_order-Undoable order own =
      let o : Order = order db.next_id in
      let earlier : All (λ x. x.id < o.id) db.orders =
        All-mono (λ x. x.id < db.next_id) (λ x. x.id < o.id) db.orders (λ x k. rw own k)
          h.numbered.order_ids in
      record {
        numbered = record {
          product_ids = h.numbered.product_ids;
          coupon_ids = h.numbered.coupon_ids;
          order_ids =
              All-concat (λ x. x.id < db.next_id + 1) db.orders (o ∷ [])
                (All-mono (λ x. x.id < db.next_id) (λ x. x.id < db.next_id + 1) db.orders
                  (λ x k. omega arith) h.numbered.order_ids)
                (omega (arith, own), tt);
          reservation_ids =
              All-mono (λ x. x.id < db.next_id) (λ x. x.id < db.next_id + 1) db.reservations
                (λ x k. omega arith) h.numbered.reservation_ids;
        };
        products = h.products;
        coupons = h.coupons;
        orders = ap (undo_orders us) (remove_first-append o db.orders earlier) ∙ h.orders;
        left = h.left;
        reservations = h.reservations;
        released = h.released;
        undo_ids = (
          tt,
          All-mono (IsOlder db.next_id) (IsOlder (db.next_id + 1)) us IsOlder-suc h.undo_ids,
        );
        carts = h.carts;
        newer = omega (arith, h.newer);
      }

  pub attach-Undoable :
      (ids : List ObjectId) (oid : ObjectId)
      → IsNumbered before
      → All (λ i. before.next_id ≤ i) ids
      → Undoable before us (attach reference ids oid db).1
  attach-Undoable ids oid n mine = record {
    numbered = record {
      product_ids = h.numbered.product_ids;
      coupon_ids = h.numbered.coupon_ids;
      order_ids = h.numbered.order_ids;
      reservation_ids =
          All-modify_all (λ x. x.id < db.next_id) (λ r. contains r.id ids) (set_order oid)
            db.reservations (λ x k e. e) h.numbered.reservation_ids;
    };
    products = h.products;
    coupons = h.coupons;
    orders = h.orders;
    left = modify_all (λ r. contains r.id ids) (set_order oid) h.left;
    reservations =
        undo_reservations-attach us oid ids db.reservations
        ∙ ap (modify_all (λ r. contains r.id ids) (set_order oid)) h.reservations
        ∙ attach-append before.next_id oid ids before.reservations h.left n.reservation_ids mine;
    released =
        All-modify_all (λ x. x.status ≡ ReservationStatus.released) (λ r. contains r.id ids)
          (set_order oid) h.left (λ x k e. e) h.released;
    undo_ids = h.undo_ids;
    carts = h.carts;
    newer = h.newer;
  }

  pub redeem-Undoable :
      (req : Request) (coupon order : ObjectId)
      → Undoable before us (redeem reference req coupon order db).1
  redeem-Undoable req coupon order = record {
    numbered = record {
      product_ids = h.numbered.product_ids;
      coupon_ids = h.numbered.coupon_ids;
      order_ids =
          All-mono (λ o. o.id < db.next_id) (λ o. o.id < db.next_id + 1) db.orders
            (λ o k. omega arith) h.numbered.order_ids;
      reservation_ids =
          All-mono (λ x. x.id < db.next_id) (λ x. x.id < db.next_id + 1) db.reservations
            (λ x k. omega arith) h.numbered.reservation_ids;
    };
    products = h.products;
    coupons = h.coupons;
    orders = h.orders;
    left = h.left;
    reservations = h.reservations;
    released = h.released;
    undo_ids = All-mono (IsOlder db.next_id) (IsOlder (db.next_id + 1)) us IsOlder-suc h.undo_ids;
    carts = h.carts;
    newer = omega (arith, h.newer);
  }
