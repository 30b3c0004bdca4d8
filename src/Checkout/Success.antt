-- ===== src/Checkout/Success.antt =====
-- What a successful checkout has done.
use ecommerce_rest_api.Base.{
  ℕ, ◌+◌, ◌*◌, ◌-◌, ◌≤◌, ◌≡◌, ◌≢◌, Bool, Option, some, none, List, [], ◌∷◌, ◌++◌, ◌==◌, refl, ap,
  sym, subst, ◌∙◌, Bool-cases, Option-cases, inl, inr, arith,
}
use ecommerce_rest_api.Domain.{
  ObjectId, Date, Cents, Cart, Coupon, Order, OrderStatus, PaymentStatus,
}
use ecommerce_rest_api.Errors.{Result, ok, err}
use ecommerce_rest_api.Mongo.{Mongo, IsMongo, Db}
use ecommerce_rest_api.Mongo.Reference.{first, modify_first}
use ecommerce_rest_api.Mongo.Laws.{reference, by_reference}
use ecommerce_rest_api.Money.{to_cents}
use ecommerce_rest_api.Money.Rounding.{to_cents-from_cents}
use ecommerce_rest_api.Inventory.Units.{stock_of, held_of}
use ecommerce_rest_api.Coupon.Usable.{discount-le}
use ecommerce_rest_api.Checkout.{
  Request, CheckoutInput, Lines, Outcome, reserve_items, claim, claimed, claim_coupon, create_order,
  new_order, attach, redeem, redeem_coupon, empty_items, save_cart, is_cart_of, find_cart, filled,
  check, empty_lines, finish_order, place_priced, place_order, checkout_cart, checkout_steps,
  settle, execute_checkout,
}
use ecommerce_rest_api.Checkout.Effects.{
  Undo, delete_order, Run, pure, call, or_throw, from_result, ◌>>=◌, ◌>>◌,
}
use ecommerce_rest_api.Checkout.Undoable.{Ensures, Ensures-call, Ensures->>=, Ensures-mono}
use ecommerce_rest_api.Checkout.Lined.{
  wanted, ordered, priced_cents, IsLined, held_of-attach, reserve_items-Lined,
}

pub record IsPlaced (req : Request) (cart : Cart) (before : Db) (order : Order) (db : Db)
    : Type 0 where
  pub stock :
      (id : ObjectId) → stock_of id db.products + wanted id cart.items ≡ stock_of id before.products
  pub held :
      (id : ObjectId)
      → held_of id db.reservations ≡ held_of id before.reservations + wanted id cart.items
  pub items : (id : ObjectId) → ordered id order.items ≡ wanted id cart.items
  pub orders : db.orders ≡ before.orders ++ order ∷ []
  pub carts : db.carts ≡ modify_first (λ c. c.id == cart.id) empty_items before.carts
  pub subtotal : to_cents order.subtotal ≡ priced_cents order.items
  pub total : to_cents order.total + to_cents order.discount_total ≡ to_cents order.subtotal
  pub user : order.user ≡ req.user_id
  pub tenant : order.tenant ≡ req.tenant
  pub status : order.status ≡ OrderStatus.pending
  pub payment_status : order.payment_status ≡ PaymentStatus.unpaid

-- The order is placed from the requester's cart, which was not empty.
pub record IsFromCart (before : Db) (req : Request) (o : Outcome) (db : Db) : Type 0 where
  pub cart : Cart
  pub found : first (is_cart_of req) before.carts ≡ some cart
  pub full : cart.items ≢ []
  pub order : IsPlaced req cart before o.order db

filled_lem :
    (found : Option Cart) (cart : Cart)
    → filled found ≡ some cart
    → (found ≡ some cart) × (cart.items ≢ [])
filled_lem found cart h = ground arith

module _ (before : Db) (fails : ℕ → Bool) (req : Request) where
  abbrev Anything : List Undo → Db → Type 0
  Anything us db = Unit

  abbrev Kept {ℓ} : {A : Type ℓ} → Lines → A → List Undo → Db → Type 0
  Kept lines a us db = IsLined before lines db

  -- The order is written, and the cart is still full.
  record IsWritten (lines : Lines) (order : Order) (db : Db) : Type 0 where
    stock :
        (id : ObjectId)
        → stock_of id db.products + ordered id lines.order_items ≡ stock_of id before.products
    held :
        (id : ObjectId)
        → held_of id db.reservations ≡ held_of id before.reservations + ordered id lines.order_items
    orders : db.orders ≡ before.orders ++ order ∷ []
    carts : db.carts ≡ before.carts

  abbrev Written : {A : Type 0} → Lines → Order → A → List Undo → Db → Type 0
  Written lines order a us db = IsWritten lines order db

  -- As before, and the cart is empty.
  record IsFinished (cart_id : ObjectId) (lines : Lines) (order : Order) (db : Db) : Type 0 where
    stock :
        (id : ObjectId)
        → stock_of id db.products + ordered id lines.order_items ≡ stock_of id before.products
    held :
        (id : ObjectId)
        → held_of id db.reservations ≡ held_of id before.reservations + ordered id lines.order_items
    orders : db.orders ≡ before.orders ++ order ∷ []
    carts : db.carts ≡ modify_first (λ c. c.id == cart_id) empty_items before.carts

  abbrev Finished : {A : Type 0} → ObjectId → Lines → Order → A → List Undo → Db → Type 0
  Finished cart_id lines order a us db = IsFinished cart_id lines order db

  claim_coupon-Kept :
      (lines : Lines) (coupon : Option Coupon) (r : Run)
      → IsLined before lines r.db
      → Ensures (Kept lines) Anything (claim_coupon reference fails coupon r)
  unfolding claim_coupon
  claim_coupon-Kept lines none r h = h
  claim_coupon-Kept lines (some c) r h =
      let op = claim reference c in
      Ensures->>= (Kept lines) (Kept lines) Anything (call fails op) (λ n. claimed n c.id) r
        (Ensures-call (Kept lines) Anything fails op r tt (record {
          stock = h.stock;
          held = h.held;
          subtotal = h.subtotal;
          orders = h.orders;
          carts = h.carts;
        }))
        (λ n r' k. elim (Bool-cases (n == 1)) [ inl one ↦ rw one k | inr other ↦ rw other tt ])

  redeem_coupon-Written :
      (lines : Lines) (order : Order) (coupon : Option Coupon) (r : Run)
      → IsWritten lines order r.db
      → Ensures (Written lines order) Anything (redeem_coupon reference fails req coupon order.id r)
  unfolding redeem_coupon
  redeem_coupon-Written lines order none r h = h
  redeem_coupon-Written lines order (some c) r h =
      Ensures-call (Written lines order) Anything fails (redeem reference req c.id order.id) r tt
        (record { stock = h.stock; held = h.held; orders = h.orders; carts = h.carts })

  abbrev Returned : ObjectId → Lines → Order → Outcome → List Undo → Db → Type 0
  Returned cart_id lines order o us db = IsFinished cart_id lines order db × (o.order ≡ order)

  finish_order-Returned :
      (cart_id : ObjectId) (lines : Lines) (coupon : Option Coupon) (order : Order) (r : Run)
      → IsWritten lines order r.db
      → Ensures
          (Returned cart_id lines order)
          Anything
          (finish_order reference fails req cart_id lines coupon order r)
  unfolding finish_order
  finish_order-Returned cart_id lines coupon order r h =
      let outcome : Outcome = record {
        order = order;
        total = order.total;
        reservations = lines.reservations;
      } in
      let r0 : Run = record r { undo = delete_order order.id ∷ r.undo } in
      let attached = attach reference lines.reservations order.id in
      let saved = save_cart reference cart_id in
      let W = Written {A = Unit {0}} lines order in
      let F = Finished {A = Unit {0}} cart_id lines order in
      let R = Returned cart_id lines order in
      Ensures->>= W R Anything (call fails attached)
        (λ _.
          redeem_coupon reference fails req coupon order.id >> (call fails saved >> pure outcome))
        r0
        (Ensures-call W Anything fails attached r0 tt (record {
          stock = h.stock;
          held = λ id. held_of-attach id order.id lines.reservations r.db.reservations ∙ h.held id;
          orders = h.orders;
          carts = h.carts;
        }))
        (λ _ r1 k1.
          Ensures->>= W R Anything (redeem_coupon reference fails req coupon order.id)
            (λ _. call fails saved >> pure outcome) r1
            (redeem_coupon-Written lines order coupon r1 k1)
            (λ _ r2 k2.
              Ensures->>= F R Anything (call fails saved) (λ _. pure outcome) r2
                (Ensures-call F Anything fails saved r2 tt (record {
                  stock = k2.stock;
                  held = k2.held;
                  orders = k2.orders;
                  carts = ap (modify_first (λ c. c.id == cart_id) empty_items) k2.carts;
                }))
                (λ _ r3 k3. (k3, refl))))

  -- The order is the one that the lines and the discount determine.
  abbrev Made :
      CheckoutInput → Date → Lines → Option Coupon × Cents → Order → List Undo → Db → Type 0
  Made value now lines priced order us db =
      IsWritten lines order db × (order ≡ new_order req value now lines priced.0 priced.1 order.id)

  abbrev Placed : Cart → Outcome → List Undo → Db → Type 0
  Placed cart o us db = IsPlaced req cart before o.order db

  placed :
      (value : CheckoutInput) (now : Date) (cart : Cart) (lines : Lines)
      (priced : Option Coupon × Cents) (order : Order) (db : Db)
      → lines.subtotal_cents ≡ priced_cents lines.order_items
      → ((id : ObjectId) → ordered id lines.order_items ≡ wanted id cart.items)
      → priced.1 ≤ lines.subtotal_cents
      → order ≡ new_order req value now lines priced.0 priced.1 order.id
      → IsFinished cart.id lines order db
      → IsPlaced req cart before order db
  placed value now cart lines priced order db s w le made f =
      let items = ap (λ (o : Order). o.items) made in
      let subtotal =
        ap (λ (o : Order). to_cents o.subtotal) made ∙ to_cents-from_cents lines.subtotal_cents in
      let discount =
        ap (λ (o : Order). to_cents o.discount_total) made ∙ to_cents-from_cents priced.1 in
      let total =
        ap (λ (o : Order). to_cents o.total) made
        ∙ to_cents-from_cents (lines.subtotal_cents - priced.1) in
      record {
        stock = λ id. omega (arith, f.stock id, w id);
        held = λ id. omega (arith, f.held id, w id);
        items = λ id. ap (ordered id) items ∙ w id;
        orders = f.orders;
        carts = f.carts;
        subtotal = subtotal ∙ s ∙ ap priced_cents (sym items);
        total = omega (arith, subtotal, discount, total, le);
        user = ap (λ (o : Order). o.user) made;
        tenant = ap (λ (o : Order). o.tenant) made;
        status = ap (λ (o : Order). o.status) made;
        payment_status = ap (λ (o : Order). o.payment_status) made;
      }

  place_priced-Placed :
      (value : CheckoutInput) (now : Date) (cart : Cart) (lines : Lines)
      (priced : Option Coupon × Cents) (r : Run)
      → IsLined before lines r.db
      → ((id : ObjectId) → ordered id lines.order_items ≡ wanted id cart.items)
      → priced.1 ≤ lines.subtotal_cents
      → Ensures
          (Placed cart)
          Anything
          (place_priced reference fails req value now cart.id lines priced r)
  unfolding place_priced
  place_priced-Placed value now cart lines priced r h w le =
      let op = create_order reference (new_order req value now lines priced.0 priced.1) in
      let M = Made value now lines priced in
      let R = λ (order : Order). Returned cart.id lines order in
      let finish = finish_order reference fails req cart.id lines priced.0 in
      Ensures->>= (Kept lines) (Placed cart) Anything (claim_coupon reference fails priced.0)
        (λ _. call fails op >>= finish) r (claim_coupon-Kept lines priced.0 r h)
        (λ _ r1 k1.
          Ensures->>= M (Placed cart) Anything (call fails op) finish r1
            (Ensures-call M Anything fails op r1 tt (
              record {
                stock = k1.stock;
                held = k1.held;
                orders = ap (λ os. os ++ (op r1.db).0 ∷ []) k1.orders;
                carts = k1.carts;
              },
              refl,
            ))
            (λ order r2 k2.
              Ensures-mono (R order) (Placed cart) Anything (finish order r2)
                (finish_order-Returned cart.id lines priced.0 order r2 k2.0)
                (λ o us db g.
                  subst (λ x. IsPlaced req cart before x db) (sym g.1)
                    (placed value now cart lines priced order db h.subtotal w le k2.1 g.0))))

  checked-Placed :
      (value : CheckoutInput) (now : Date) (cart : Cart) (lines : Lines) (from : Db)
      (checked : Result (Option Coupon × Cents)) (r : Run)
      → (check reference req value now lines from).0 ≡ checked
      → IsLined before lines r.db
      → ((id : ObjectId) → ordered id lines.order_items ≡ wanted id cart.items)
      → Ensures
          (Placed cart)
          Anything
          ((from_result checked >>= place_priced reference fails req value now cart.id lines) r)
  checked-Placed value now cart lines from (ok priced) r e h w =
      place_priced-Placed value now cart lines priced r h w (
        discount-le now value.coupon_code req.user_id lines.subtotal_cents req.tenant from priced.0
          priced.1 e)
  checked-Placed value now cart lines from (err x) r e h w = tt

  abbrev Checked :
      CheckoutInput → Date → Lines → Db → Result (Option Coupon × Cents) → List Undo → Db → Type 0
  Checked value now lines from checked us db =
      IsLined before lines db × ((check reference req value now lines from).0 ≡ checked)

  place_order-Placed :
      (value : CheckoutInput) (now : Date) (cart : Cart) (lines : Lines) (r : Run)
      → IsLined before lines r.db
      → ((id : ObjectId) → ordered id lines.order_items ≡ wanted id cart.items)
      → Ensures (Placed cart) Anything (place_order reference fails req value now cart.id lines r)
  unfolding place_order
  place_order-Placed value now cart lines r h w =
      let op = check reference req value now lines in
      let C = Checked value now lines r.db in
      Ensures->>= C (Placed cart) Anything (call fails op)
        (λ checked.
          from_result checked >>= place_priced reference fails req value now cart.id lines)
        r (Ensures-call C Anything fails op r tt (h, refl))
        (λ checked r' k. checked-Placed value now cart lines r.db checked r' k.1 k.0 w)

  carted-Placed :
      (minutes : ℕ) (value : CheckoutInput) (now : Date) (cart : Cart) (r : Run)
      → IsLined before empty_lines r.db
      → Ensures (Placed cart) Anything (
          (reserve_items reference fails req (now + minutes * 60 * 1000) cart.items empty_lines
              >>= place_order reference fails req value now cart.id)
            r)
  carted-Placed minutes value now cart r h =
      let at = now + minutes * 60 * 1000 in
      Ensures->>=
        (λ lines us db.
          IsLined before lines db
          × ((id : ObjectId) → ordered id lines.order_items ≡ 0 + wanted id cart.items))
        (Placed cart) Anything (reserve_items reference fails req at cart.items empty_lines)
        (place_order reference fails req value now cart.id) r
        (reserve_items-Lined before fails req at cart.items empty_lines r h)
        (λ lines r' k. place_order-Placed value now cart lines r' k.0 (λ id. omega (arith, k.1 id)))

  abbrev FromCart : Outcome → List Undo → Db → Type 0
  FromCart o us db = IsFromCart before req o db

  checkout_cart-FromCart :
      (minutes : ℕ) (value : CheckoutInput) (now : Date) (found : Option Cart) (r : Run)
      → first (is_cart_of req) before.carts ≡ found
      → IsLined before empty_lines r.db
      → Ensures FromCart Anything (checkout_cart reference fails minutes req value now found r)
  unfolding checkout_cart
  checkout_cart-FromCart minutes value now found r e h = elim (Option-cases (filled found)) [
    | inl empty ↦ rw (empty, or_throw) tt
    | inr (cart, full) ↦
        rw (full, or_throw)
          (Ensures-mono (Placed cart) FromCart Anything
            ((reserve_items reference fails req (now + minutes * 60 * 1000) cart.items empty_lines
                >>= place_order reference fails req value now cart.id)
              r)
            (carted-Placed minutes value now cart r h)
            (λ o us db p.
              let f = filled_lem found cart full in
              record { cart = cart; found = e ∙ f.0; full = f.1; order = p }))
  ]

  abbrev FoundCart : Option Cart → List Undo → Db → Type 0
  FoundCart found us db =
      IsLined before empty_lines db × (first (is_cart_of req) before.carts ≡ found)

  checkout_steps-FromCart :
      (minutes : ℕ) (value : CheckoutInput) (now : Date)
      → Ensures FromCart Anything (
          checkout_steps reference fails minutes req value now
            (record { db = before; undo = []; calls = 0 }))
  unfolding checkout_steps
  checkout_steps-FromCart minutes value now =
      let op = find_cart reference req in
      let start : Run = record { db = before; undo = []; calls = 0 } in
      Ensures->>= FoundCart FromCart Anything (call fails op)
        (checkout_cart reference fails minutes req value now) start
        (Ensures-call FoundCart Anything fails op start tt (
          record {
            stock = λ id. omega arith;
            held = λ id. omega arith;
            subtotal = refl;
            orders = refl;
            carts = refl;
          },
          refl,
        ))
        (λ found r' k. checkout_cart-FromCart minutes value now found r' k.1 k.0)

abbrev PlacedIfOk : Db → Request → Result Outcome × Db → Type 0
PlacedIfOk before req (ok o, db) = IsFromCart before req o db
PlacedIfOk before req (err e, db) = Unit

settle-PlacedIfOk :
    (before : Db) (undo_fails : ℕ → Bool) (session : Bool) (req : Request)
    (x : Result Outcome × Run)
    → Ensures (λ o us db. IsFromCart before req o db) (λ us db. Unit {0}) x
    → PlacedIfOk before req (settle reference undo_fails session x)
unfolding settle
settle-PlacedIfOk before undo_fails session req (ok o, r) h = h
settle-PlacedIfOk before undo_fails session req (err e, r) h = tt

succeeding :
    (db : Db) (fails undo_fails : ℕ → Bool) (minutes : ℕ) (session : Bool) (req : Request)
    (value : CheckoutInput) (now : Date)
    → PlacedIfOk db req
        (execute_checkout reference fails undo_fails minutes session req value now db)
unfolding execute_checkout
succeeding db fails undo_fails minutes session req value now =
    settle-PlacedIfOk db undo_fails session req
      (checkout_steps reference fails minutes req value now
        (record { db = db; undo = []; calls = 0 }))
      (checkout_steps-FromCart db fails req minutes value now)

-- A checkout that succeeds, with or without a transaction and whichever database calls can throw,
-- has found the requester's cart with items in it; it has appended one order, of the requester and
-- their tenant, pending and unpaid, whose lines ask for the units that the cart asks for; exactly
-- these units have gone, product by product, from the stock to live reservations; the order's
-- subtotal is the sum of its lines in cents, its total and discount add up to the subtotal; and of
-- the carts only that one is changed, by emptying it. Nobody else writes meanwhile.
pub execute_checkout-IsFromCart :
    (m : Mongo) (fails undo_fails : ℕ → Bool) (minutes : ℕ) (session : Bool) (req : Request)
    (value : CheckoutInput) (now : Date) (db : Db) (o : Outcome) (db' : Db)
    → IsMongo m
    → execute_checkout m fails undo_fails minutes session req value now db ≡ (ok o, db')
    → IsFromCart db req o db'
execute_checkout-IsFromCart m fails undo_fails minutes session req value now db o db' h done =
    subst (PlacedIfOk db req) done (
      by_reference
        (λ m.
          PlacedIfOk db req (execute_checkout m fails undo_fails minutes session req value now db))
        m h (succeeding db fails undo_fails minutes session req value now))
