-- ===== src/Checkout/Failure.antt =====
-- A checkout that fails without a transaction takes back what it did.
use ecommerce_rest_api.Base.{
  ℕ, ◌+◌, ◌≤◌, ◌≡◌, Bool, false, Option, some, none, List, [], ◌∷◌, ◌++◌, if◌then◌else◌, ◌==◌, All,
  refl, subst, ◌*◌, Bool-cases, Option-cases, inl, inr,
}
use ecommerce_rest_api.Domain.{
  ObjectId, Date, Cents, Product, Cart, CartItem, Coupon, Order, InventoryReservation,
  ReservationStatus,
}
use ecommerce_rest_api.Errors.{AppError, Result, ok, err}
use ecommerce_rest_api.Mongo.{Mongo, IsMongo, Db}
use ecommerce_rest_api.Mongo.Documents.{All-concat}
use ecommerce_rest_api.Mongo.Laws.{reference, by_reference}
use ecommerce_rest_api.Checkout.{
  Request, CheckoutInput, Lines, Outcome, take_product, create_reservation, add_line,
  reserve_product, reserve_item, reserve_items, claim, claimed, claim_coupon, create_order,
  new_order, attach, redeem, redeem_coupon, save_cart, find_cart, filled, check, empty_lines,
  place_order, finish_order, place_priced, checkout_cart, checkout_steps, compensate, settle,
  execute_checkout,
}
use ecommerce_rest_api.Checkout.Effects.{
  Undo, restore_stock, release_reservation, release_coupon, delete_order, Run, pure, call, or_throw,
  from_result, push_undo, ◌>>=◌, ◌>>◌,
}
use ecommerce_rest_api.Checkout.Reversal.{compensate_lem}
use ecommerce_rest_api.Checkout.Undoable.{IsNumbered, Undoable, Ensures, Ensures-call, Ensures->>=}
use ecommerce_rest_api.Checkout.Steps.{
  start-Undoable, with_restore, take_product-Undoable, create_reservation-Undoable, claim-Undoable,
  create_order-Undoable, attach-Undoable, redeem-Undoable,
}

module _ (before : Db) (numbered : IsNumbered before) (fails : ℕ → Bool) (req : Request) where
  -- Every reservation of the lines is newer than the database at the start.
  abbrev AreNew : Lines → Type 0
  AreNew lines = All (λ i. before.next_id ≤ i) lines.reservations

  abbrev Reserved : Lines → List Undo → Db → Type 0
  Reserved lines us db = Undoable before us db × AreNew lines

  abbrev Created : ObjectId → List Undo → Db → Type 0
  Created id us db = Undoable before (release_reservation id ∷ us) db × (before.next_id ≤ id)

  abbrev Found : ℕ → Option Product → List Undo → Db → Type 0
  Found quantity found us db = Undoable before (with_restore found quantity us) db

  reserve_product-Ensures :
      (at : Date) (item : CartItem) (lines : Lines) (found : Option Product) (r : Run)
      → Undoable before (with_restore found item.quantity r.undo) r.db
      → AreNew lines
      → Ensures Reserved
          (Undoable before)
          (reserve_product reference fails req at item lines found r)
  unfolding reserve_product
  reserve_product-Ensures at item lines none r h a = h
  reserve_product-Ensures at item lines (some p) r h a =
      let us = restore_stock p.id item.quantity ∷ r.undo in
      let op = create_reservation reference req at p.id item.quantity in
      Ensures->>= Created Reserved (Undoable before) (call fails op)
        (λ id. push_undo (release_reservation id) >> pure (add_line lines p item.quantity id))
        (record r { undo = us })
        (Ensures-call Created (Undoable before) fails op (record r { undo = us }) h
          (create_reservation-Undoable before us r.db h req at p.id item.quantity, h.newer))
        (λ id r' k.
          (k.0, All-concat (λ i. before.next_id ≤ i) lines.reservations (id ∷ []) a (k.1, tt)))

  reserve_item-Ensures :
      (at : Date) (item : CartItem) (lines : Lines) (r : Run)
      → Reserved lines r.undo r.db
      → Ensures Reserved (Undoable before) (reserve_item reference fails req at item lines r)
  unfolding reserve_item
  reserve_item-Ensures at item lines r h =
      let op = take_product reference req.tenant item in
      Ensures->>= (Found item.quantity) Reserved (Undoable before) (call fails op)
        (reserve_product reference fails req at item lines) r
        (Ensures-call (Found item.quantity) (Undoable before) fails op r h.0
          (take_product-Undoable before r.undo r.db h.0 req.tenant item))
        (λ found r' k. reserve_product-Ensures at item lines found r' k h.1)

  reserve_items-Ensures :
      (at : Date) (items : List CartItem) (lines : Lines) (r : Run)
      → Reserved lines r.undo r.db
      → Ensures Reserved (Undoable before) (reserve_items reference fails req at items lines r)
  unfolding reserve_items
  reserve_items-Ensures at [] lines r h = h
  reserve_items-Ensures at (item ∷ items) lines r h =
      Ensures->>= Reserved Reserved (Undoable before)
        (reserve_item reference fails req at item lines)
        (reserve_items reference fails req at items) r (reserve_item-Ensures at item lines r h)
        (λ lines' r' k. reserve_items-Ensures at items lines' r' k)

  abbrev Still {ℓ} : {A : Type ℓ} → A → List Undo → Db → Type 0
  Still a us db = Undoable before us db

  abbrev Claimed : ObjectId → ℕ → List Undo → Db → Type 0
  Claimed id n us db = Undoable before (if n == 1 then release_coupon id ∷ us else us) db

  abbrev Ordered : Order → List Undo → Db → Type 0
  Ordered o us db = Undoable before (delete_order o.id ∷ us) db

  claimed-Ensures :
      (n : ℕ) (id : ObjectId) (r : Run)
      → Claimed id n r.undo r.db
      → Ensures Still (Undoable before) (claimed n id r)
  claimed-Ensures n id r h = elim (Bool-cases (n == 1)) [
    | inl one ↦ rw one (rw one at h)
    | inr none_left ↦ rw none_left (rw none_left at h)
  ]

  claim_coupon-Ensures :
      (coupon : Option Coupon) (r : Run)
      → Undoable before r.undo r.db
      → Ensures Still (Undoable before) (claim_coupon reference fails coupon r)
  unfolding claim_coupon
  claim_coupon-Ensures none r h = h
  claim_coupon-Ensures (some c) r h =
      let op = claim reference c in
      Ensures->>= (Claimed c.id) Still (Undoable before) (call fails op) (λ n. claimed n c.id) r
        (Ensures-call (Claimed c.id) (Undoable before) fails op r h
          (claim-Undoable before r.undo r.db h c))
        (λ n r' k. claimed-Ensures n c.id r' k)

  redeem_coupon-Ensures :
      (coupon : Option Coupon) (order : ObjectId) (r : Run)
      → Undoable before r.undo r.db
      → Ensures Still (Undoable before) (redeem_coupon reference fails req coupon order r)
  unfolding redeem_coupon
  redeem_coupon-Ensures none order r h = h
  redeem_coupon-Ensures (some c) order r h =
      Ensures-call Still (Undoable before) fails (redeem reference req c.id order) r h
        (redeem-Undoable before r.undo r.db h req c.id order)

  abbrev Done : Outcome → List Undo → Db → Type 0
  Done o us db = Unit

  abbrev Saved : Unit {0} → List Undo → Db → Type 0
  Saved _ us db = Unit

  finish_order-Ensures :
      (cart_id : ObjectId) (lines : Lines) (coupon : Option Coupon) (order : Order) (r : Run)
      → Ordered order r.undo r.db
      → AreNew lines
      → Ensures Done
          (Undoable before)
          (finish_order reference fails req cart_id lines coupon order r)
  unfolding finish_order
  finish_order-Ensures cart_id lines coupon order r h a =
      let outcome : Outcome = record {
        order = order;
        total = order.total;
        reservations = lines.reservations;
      } in
      let us = delete_order order.id ∷ r.undo in
      let attached = attach reference lines.reservations order.id in
      let saved = save_cart reference cart_id in
      Ensures->>= Still Done (Undoable before) (call fails attached)
        (λ _.
          redeem_coupon reference fails req coupon order.id >> (call fails saved >> pure outcome))
        (record r { undo = us })
        (Ensures-call Still (Undoable before) fails attached (record r { undo = us }) h
          (attach-Undoable before us r.db h lines.reservations order.id numbered a))
        (λ _ r1 k1.
          Ensures->>= Still Done (Undoable before)
            (redeem_coupon reference fails req coupon order.id)
            (λ _. call fails saved >> pure outcome) r1 (redeem_coupon-Ensures coupon order.id r1 k1)
            (λ _ r2 k2.
              Ensures->>= Saved Done (Undoable before) (call fails saved) (λ _. pure outcome) r2
                (Ensures-call Saved (Undoable before) fails saved r2 k2 tt) (λ _ r3 k3. tt)))

  place_priced-Ensures :
      (value : CheckoutInput) (now : Date) (cart_id : ObjectId) (lines : Lines)
      (priced : Option Coupon × Cents) (r : Run)
      → Reserved lines r.undo r.db
      → Ensures Done
          (Undoable before)
          (place_priced reference fails req value now cart_id lines priced r)
  unfolding place_priced
  place_priced-Ensures value now cart_id lines priced r h =
      let op = create_order reference (new_order req value now lines priced.0 priced.1) in
      Ensures->>= Still Done (Undoable before) (claim_coupon reference fails priced.0)
        (λ _. call fails op >>= finish_order reference fails req cart_id lines priced.0) r
        (claim_coupon-Ensures priced.0 r h.0)
        (λ _ r1 k1.
          Ensures->>= Ordered Done (Undoable before) (call fails op)
            (finish_order reference fails req cart_id lines priced.0) r1
            (Ensures-call Ordered (Undoable before) fails op r1 k1 (
              create_order-Undoable before r1.undo r1.db k1
                (new_order req value now lines priced.0 priced.1) refl))
            (λ order r2 k2. finish_order-Ensures cart_id lines priced.0 order r2 k2 h.1))

  placed-Ensures :
      (value : CheckoutInput) (now : Date) (cart_id : ObjectId) (lines : Lines)
      (checked : Result (Option Coupon × Cents)) (r : Run)
      → Reserved lines r.undo r.db
      → Ensures Done
          (Undoable before)
          ((from_result checked >>= place_priced reference fails req value now cart_id lines) r)
  placed-Ensures value now cart_id lines (ok priced) r h =
      place_priced-Ensures value now cart_id lines priced r h
  placed-Ensures value now cart_id lines (err e) r h = h.0

  place_order-Ensures :
      (value : CheckoutInput) (now : Date) (cart_id : ObjectId) (lines : Lines) (r : Run)
      → Reserved lines r.undo r.db
      → Ensures Done (Undoable before) (place_order reference fails req value now cart_id lines r)
  unfolding place_order
  place_order-Ensures value now cart_id lines r h =
      let op = check reference req value now lines in
      Ensures->>= Still Done (Undoable before) (call fails op)
        (λ checked.
          from_result checked >>= place_priced reference fails req value now cart_id lines)
        r (Ensures-call Still (Undoable before) fails op r h.0 h.0)
        (λ checked r' k. placed-Ensures value now cart_id lines checked r' (k, h.1))

  carted-Ensures :
      (minutes : ℕ) (value : CheckoutInput) (now : Date) (cart : Cart) (r : Run)
      → Undoable before r.undo r.db
      → Ensures Done (Undoable before) (
          (reserve_items reference fails req (now + minutes * 60 * 1000) cart.items empty_lines
              >>= place_order reference fails req value now cart.id)
            r)
  carted-Ensures minutes value now cart r h =
      Ensures->>= Reserved Done (Undoable before)
        (reserve_items reference fails req (now + minutes * 60 * 1000) cart.items empty_lines)
        (place_order reference fails req value now cart.id) r
        (reserve_items-Ensures (now + minutes * 60 * 1000) cart.items empty_lines r (h, tt))
        (λ lines r' k. place_order-Ensures value now cart.id lines r' k)

  checkout_cart-Ensures :
      (minutes : ℕ) (value : CheckoutInput) (now : Date) (found : Option Cart) (r : Run)
      → Undoable before r.undo r.db
      → Ensures Done (Undoable before) (checkout_cart reference fails minutes req value now found r)
  unfolding checkout_cart
  checkout_cart-Ensures minutes value now found r h = elim (Option-cases (filled found)) [
    | inl empty ↦ rw (empty, or_throw) h
    | inr (cart, full) ↦ rw (full, or_throw) (carted-Ensures minutes value now cart r h)
  ]

  checkout_steps-Ensures :
      (minutes : ℕ) (value : CheckoutInput) (now : Date) (r : Run)
      → Undoable before r.undo r.db
      → Ensures Done (Undoable before) (checkout_steps reference fails minutes req value now r)
  unfolding checkout_steps
  checkout_steps-Ensures minutes value now r h =
      let op = find_cart reference req in
      Ensures->>= Still Done (Undoable before) (call fails op)
        (checkout_cart reference fails minutes req value now) r
        (Ensures-call Still (Undoable before) fails op r h h)
        (λ found r' k. checkout_cart-Ensures minutes value now found r' k)

-- What a failed checkout leaves: everything as before, but for its own released reservations.
pub record IsRestored (before db : Db) : Type 0 where
  pub products : db.products ≡ before.products
  pub coupons : db.coupons ≡ before.coupons
  pub orders : db.orders ≡ before.orders
  pub carts : db.carts ≡ before.carts
  pub left : List InventoryReservation
  pub reservations : db.reservations ≡ before.reservations ++ left
  pub released : All (λ r. r.status ≡ ReservationStatus.released) left

restored :
    (before : Db) (undo_fails : ℕ → Bool) (us : List Undo) (db : Db)
    → ((k : ℕ) → undo_fails k ≡ false)
    → Undoable before us db
    → IsRestored before (compensate reference undo_fails 0 us db)
restored before undo_fails us db f h = rw (compensate_lem undo_fails 0 us db f) (record {
  products = h.products;
  coupons = h.coupons;
  orders = h.orders;
  carts = h.carts;
  left = h.left;
  reservations = h.reservations;
  released = h.released;
})

abbrev RestoredIfError : Db → Result Outcome × Db → Type 0
RestoredIfError before (ok outcome, db) = Unit
RestoredIfError before (err e, db) = IsRestored before db

settle-RestoredIfError :
    (before : Db) (undo_fails : ℕ → Bool) (x : Result Outcome × Run)
    → ((k : ℕ) → undo_fails k ≡ false)
    → Ensures (λ _ us db. Unit {0}) (Undoable before) x
    → RestoredIfError before (settle reference undo_fails false x)
unfolding settle
settle-RestoredIfError before undo_fails (ok outcome, r) f h = tt
settle-RestoredIfError before undo_fails (err e, r) f h = restored before undo_fails r.undo r.db f h

failing :
    (db : Db) (n : IsNumbered db) (fails undo_fails : ℕ → Bool) (minutes : ℕ) (req : Request)
    (value : CheckoutInput) (now : Date)
    → ((k : ℕ) → undo_fails k ≡ false)
    → RestoredIfError db
        (execute_checkout reference fails undo_fails minutes false req value now db)
unfolding execute_checkout
failing db n fails undo_fails minutes req value now f =
    settle-RestoredIfError db undo_fails
      (checkout_steps reference fails minutes req value now
        (record { db = db; undo = []; calls = 0 }))
      f
      (checkout_steps-Ensures db n fails req minutes value now
        (record { db = db; undo = []; calls = 0 }) (start-Undoable db n))

-- Whichever database call of a checkout without a transaction throws, and whatever rule refuses it,
-- products, coupons, orders and carts are afterwards what they were, and the reservations are those
-- of before and some released ones, provided that no undo action throws, that ids were distinct and
-- below the next one, and that nobody else wrote meanwhile.
pub execute_checkout-IsRestored :
    (m : Mongo) (fails undo_fails : ℕ → Bool) (minutes : ℕ) (req : Request) (value : CheckoutInput)
    (now : Date) (db : Db) (e : AppError) (db' : Db)
    → IsMongo m
    → IsNumbered db
    → ((k : ℕ) → undo_fails k ≡ false)
    → execute_checkout m fails undo_fails minutes false req value now db ≡ (err e, db')
    → IsRestored db db'
execute_checkout-IsRestored m fails undo_fails minutes req value now db e db' h n f failed =
    subst (RestoredIfError db) failed (
      by_reference
        (λ m.
          RestoredIfError db (execute_checkout m fails undo_fails minutes false req value now db))
        m h (failing db n fails undo_fails minutes req value now f))
