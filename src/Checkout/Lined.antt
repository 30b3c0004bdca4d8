-- ===== src/Checkout/Lined.antt =====
-- What the loop over the cart has moved: units from the stock to reservations, and money to the
-- subtotal.
use ecommerce_rest_api.Base.{
  ℕ, ◌+◌, ◌*◌, ◌≡◌, Bool, Option, some, none, List, [], ◌∷◌, ◌++◌, if◌then◌else◌, ◌==◌, sum_of,
  refl, ap, Bool-cases, inl, inr, arith, String, contains,
}
use ecommerce_rest_api.Domain.{ObjectId, Date, Product, CartItem, OrderItem, InventoryReservation}
use ecommerce_rest_api.Mongo.{Db}
use ecommerce_rest_api.Mongo.Reference.{modify_first, modified_first, modify_all}
use ecommerce_rest_api.Mongo.Laws.{reference}
use ecommerce_rest_api.Money.{to_cents, from_cents}
use ecommerce_rest_api.Money.Rounding.{to_cents-from_cents}
use ecommerce_rest_api.Inventory.Units.{stock_of, held_of, held_part}
use ecommerce_rest_api.Checkout.{
  Request, Lines, is_available, take_stock, take_product, create_reservation, new_reservation,
  add_line, set_order, reserve_product, reserve_item, reserve_items,
}
use ecommerce_rest_api.Checkout.Effects.{
  Undo, restore_stock, release_reservation, Run, pure, call, push_undo, ◌>>◌,
}
use ecommerce_rest_api.Checkout.Undoable.{Ensures, Ensures-call, Ensures->>=, Ensures-mono}

-- The units of a product that a cart asks for, and that order lines take.
abbrev pub wanted_part : ObjectId → CartItem → ℕ
wanted_part id i = if i.product == id then i.quantity else 0

abbrev pub wanted : ObjectId → List CartItem → ℕ
wanted id = sum_of (wanted_part id)

abbrev pub ordered_part : ObjectId → OrderItem → ℕ
ordered_part id i = if i.product == id then i.quantity else 0

abbrev pub ordered : ObjectId → List OrderItem → ℕ
ordered id = sum_of (ordered_part id)

-- The price of order lines, in cents.
abbrev pub line_cents : OrderItem → ℕ
line_cents i = to_cents i.price * i.quantity

abbrev pub priced_cents : List OrderItem → ℕ
priced_cents = sum_of line_cents

pub record IsLined (before : Db) (lines : Lines) (db : Db) : Type 0 where
  pub stock :
      (id : ObjectId)
      → stock_of id db.products + ordered id lines.order_items ≡ stock_of id before.products
  pub held :
      (id : ObjectId)
      → held_of id db.reservations ≡ held_of id before.reservations + ordered id lines.order_items
  pub subtotal : lines.subtotal_cents ≡ priced_cents lines.order_items
  pub orders : db.orders ≡ before.orders
  pub carts : db.carts ≡ before.carts

sum_of-concat {ℓ} :
    {A : Type ℓ} (f : A → ℕ) (xs : List A) (x : A) → sum_of f (xs ++ x ∷ []) ≡ sum_of f xs + f x
sum_of-concat f [] x = omega arith
sum_of-concat f (y ∷ xs) x = omega (arith, sum_of-concat f xs x)

stock_of-take :
    (id : ObjectId) (tenant : String) (item : CartItem) (ps : List Product) (p : Product)
    → modified_first (is_available tenant item) (take_stock item.quantity) ps ≡ some p
    → (stock_of id (modify_first (is_available tenant item) (take_stock item.quantity) ps)
          + (if p.id == id then item.quantity else 0)
        ≡ stock_of id ps)
      × (p.id ≡ item.product)
stock_of-take id tenant item [] p e = cc
stock_of-take id tenant item (x ∷ ps) p e = elim (Bool-cases (is_available tenant item x)) [
  | inl hit ↦
      let taken : some (take_stock item.quantity x) ≡ some p = rw hit at e in
      rw hit (ground (arith, taken), ground (arith, taken))
  | inr miss ↦
      let later = stock_of-take id tenant item ps p (rw miss at e) in
      rw miss (ground (arith, later.0), later.1)
]

pub held_of-attach :
    (id oid : ObjectId) (ids : List ObjectId) (rs : List InventoryReservation)
    → held_of id (modify_all (λ r. contains r.id ids) (set_order oid) rs) ≡ held_of id rs
held_of-attach id oid ids [] = refl
held_of-attach id oid ids (r ∷ rs) = elim (Bool-cases (contains r.id ids)) [
  | inl mine ↦ rw mine (ap (λ n. held_part id r + n) (held_of-attach id oid ids rs))
  | inr other ↦ rw other (ap (λ n. held_part id r + n) (held_of-attach id oid ids rs))
]

module _ (before : Db) (fails : ℕ → Bool) (req : Request) where
  abbrev Anything : List Undo → Db → Type 0
  Anything us db = Unit

  -- The stock is taken, and no reservation holds it yet.
  record IsTaken (quantity : ℕ) (item : CartItem) (lines : Lines) (p : Product) (db : Db)
      : Type 0 where
    same : p.id ≡ item.product
    stock :
        (id : ObjectId)
        → stock_of id db.products
            + (if p.id == id then quantity else 0)
            + ordered id lines.order_items
          ≡ stock_of id before.products
    held :
        (id : ObjectId)
        → held_of id db.reservations ≡ held_of id before.reservations + ordered id lines.order_items
    subtotal : lines.subtotal_cents ≡ priced_cents lines.order_items
    orders : db.orders ≡ before.orders
    carts : db.carts ≡ before.carts

  abbrev Found : CartItem → Lines → Option Product → List Undo → Db → Type 0
  Found item lines none us db = Unit
  Found item lines (some p) us db = IsTaken item.quantity item lines p db

  taken :
      (item : CartItem) (lines : Lines) (db : Db) (found : Option Product) (us : List Undo)
      → IsLined before lines db
      → modified_first (is_available req.tenant item) (take_stock item.quantity) db.products ≡ found
      → Found item lines found us (take_product reference req.tenant item db).1
  taken item lines db none us h e = tt
  taken item lines db (some p) us h e = record {
    same = (stock_of-take 0 req.tenant item db.products p e).1;
    stock = λ id. omega (arith, (stock_of-take id req.tenant item db.products p e).0, h.stock id);
    held = h.held;
    subtotal = h.subtotal;
    orders = h.orders;
    carts = h.carts;
  }

  -- Once a reservation is written for what was taken, the line is complete.
  abbrev Held : CartItem → Lines → Product → ObjectId → List Undo → Db → Type 0
  Held item lines p id us db = IsLined before (add_line lines p item.quantity id) db

  reserved :
      (at : Date) (item : CartItem) (lines : Lines) (p : Product) (us : List Undo) (db : Db)
      → IsTaken item.quantity item lines p db
      → let (id, db') = create_reservation reference req at p.id item.quantity db in
        Held item lines p id us db'
  reserved at item lines p us db h =
      let line : OrderItem = record {
        product = p.id;
        name = p.name;
        price = from_cents (to_cents p.price);
        quantity = item.quantity;
      } in
      let r : InventoryReservation = new_reservation req at p.id item.quantity db.next_id in
      record {
        stock =
            λ id. omega (arith, h.stock id, sum_of-concat (ordered_part id) lines.order_items line);
        held = λ id.
            let same : held_part id r ≡ ordered_part id line = ground arith in
            omega (
              arith,
              h.held id,
              same,
              sum_of-concat (ordered_part id) lines.order_items line,
              sum_of-concat (held_part id) db.reservations r,
            );
        subtotal = rw (sum_of-concat line_cents lines.order_items line) (
            rw (to_cents-from_cents (to_cents p.price))
              (ap (λ n. n + to_cents p.price * item.quantity) h.subtotal));
        orders = h.orders;
        carts = h.carts;
      }

  -- The order lines ask, product by product, for what the cart items so far did.
  abbrev Lined : List CartItem → Lines → Lines → List Undo → Db → Type 0
  Lined items lines lines' us db =
      IsLined before lines' db
      × ((id : ObjectId)
          → ordered id lines'.order_items ≡ ordered id lines.order_items + wanted id items)

  reserve_product-Lined :
      (at : Date) (item : CartItem) (lines : Lines) (found : Option Product) (r : Run)
      → Found item lines found r.undo r.db
      → Ensures
          (Lined (item ∷ []) lines)
          Anything
          (reserve_product reference fails req at item lines found r)
  unfolding reserve_product
  reserve_product-Lined at item lines none r h = tt
  reserve_product-Lined at item lines (some p) r h =
      let op = create_reservation reference req at p.id item.quantity in
      let r' : Run = record r { undo = restore_stock p.id item.quantity ∷ r.undo } in
      let line : OrderItem = record {
        product = p.id;
        name = p.name;
        price = from_cents (to_cents p.price);
        quantity = item.quantity;
      } in
      Ensures->>= (Held item lines p) (Lined (item ∷ []) lines) Anything (call fails op)
        (λ id. push_undo (release_reservation id) >> pure (add_line lines p item.quantity id)) r'
        (Ensures-call (Held item lines p) Anything fails op r' tt
          (reserved at item lines p r'.undo r'.db h))
        (λ id r2 k. (
          k,
          λ i.
              let same : ordered_part i line ≡ wanted_part i item = rw h.same in
              omega (arith, same, sum_of-concat (ordered_part i) lines.order_items line),
        ))

  reserve_item-Lined :
      (at : Date) (item : CartItem) (lines : Lines) (r : Run)
      → IsLined before lines r.db
      → Ensures
          (Lined (item ∷ []) lines)
          Anything
          (reserve_item reference fails req at item lines r)
  unfolding reserve_item
  reserve_item-Lined at item lines r h =
      let op = take_product reference req.tenant item in
      Ensures->>= (Found item lines) (Lined (item ∷ []) lines) Anything (call fails op)
        (reserve_product reference fails req at item lines) r
        (Ensures-call (Found item lines) Anything fails op r tt
          (taken item lines r.db (op r.db).0 r.undo h refl))
        (λ found r' k. reserve_product-Lined at item lines found r' k)

  pub reserve_items-Lined :
      (at : Date) (items : List CartItem) (lines : Lines) (r : Run)
      → IsLined before lines r.db
      → Ensures (Lined items lines) Anything (reserve_items reference fails req at items lines r)
  unfolding reserve_items
  reserve_items-Lined at [] lines r h = (h, λ id. omega arith)
  reserve_items-Lined at (item ∷ items) lines r h =
      Ensures->>= (Lined (item ∷ []) lines) (Lined (item ∷ items) lines) Anything
        (reserve_item reference fails req at item lines)
        (reserve_items reference fails req at items) r (reserve_item-Lined at item lines r h)
        (λ lines' r' k.
          Ensures-mono (Lined items lines') (Lined (item ∷ items) lines) Anything
            (reserve_items reference fails req at items lines' r')
            (reserve_items-Lined at items lines' r' k.0)
            (λ l us db g. (g.0, λ id. omega (arith, g.1 id, k.1 id))))
