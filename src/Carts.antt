-- ===== src/Carts.antt =====
-- src/services/CartService.ts and src/repositories/CartRepository.ts. A populated cart is the cart
-- itself. A user has at most one cart per tenant (a unique index), and no other request writes in
-- between, so the first attempt of `addQuantity` never sees a duplicate key.
pub mod Quantities
pub mod Lines
pub mod Stored
mod Tests
use ecommerce_rest_api.Base.{
  ℕ, ◌+◌, Bool, true, false, not, ◌&&◌, Option, none, some, List, [], ◌∷◌, ◌++◌, if◌then◌else◌,
  ◌==◌, ltb, str_eq, is_some, any, keep, String, refl,
}
use ecommerce_rest_api.Domain.{ObjectId, Cart, CartItem, Product}
use ecommerce_rest_api.Errors.{
  AppError, Result, ok, err, not_found, bad_request, server_error, require, ◌>>=◌, ◌>>◌,
}
use ecommerce_rest_api.Mongo.{Mongo, Db}

pub record CartItemInput : Type 0 where
  pub user_id : ObjectId
  pub tenant : String
  pub product_id : ObjectId
  pub quantity : ℕ

abbrev pub is_for_user : ObjectId → String → Cart → Bool
is_for_user user tenant c = c.user == user && str_eq c.tenant tenant

abbrev pub is_line_of : ObjectId → CartItem → Bool
is_line_of product i = i.product == product

abbrev pub has_line : ObjectId → List CartItem → Bool
has_line product = any (is_line_of product)

abbrev pub find_product : Mongo → ObjectId → String → Db → Option Product
find_product m id tenant db =
    m.products.find_one
      (λ p. p.id == id && (str_eq p.tenant tenant && (p.is_active && not (is_some p.deleted_at))))
      db.products

-- The positional `items.$`: the first line of the product.
abbrev pub set_quantity : ObjectId → (ℕ → ℕ) → List CartItem → List CartItem
set_quantity product f [] = []
set_quantity product f (i ∷ items) =
    let rest = set_quantity product f items in
    if is_line_of product i then record i { quantity = f i.quantity } ∷ items else i ∷ rest

abbrev pub with_line : ObjectId → String → ObjectId → Cart → Bool
with_line user tenant product c = is_for_user user tenant c && has_line product c.items

abbrev pub without_line : ObjectId → String → ObjectId → Cart → Bool
without_line user tenant product c = is_for_user user tenant c && not (has_line product c.items)

abbrev pub push_line : ObjectId → ℕ → Cart → Cart
push_line product quantity c = record c {
  items = c.items ++ (record { product = product; quantity = quantity }) ∷ [];
}

unfoldable pub update_existing_item :
    Mongo → ObjectId → String → ObjectId → ℕ → Db → Option Cart × Db
update_existing_item m user tenant product quantity db =
    let (cart, carts) =
      m.carts.find_one_and_update (with_line user tenant product)
        (λ c. record c { items = set_quantity product (λ _. quantity) c.items }) db.carts in
    (cart, record db { carts = carts })

-- `upsert: true`: the cart that matched, or a new one from the filter and the update.
abbrev pub upsert_cart : Mongo → Cart → Option Cart × List Cart → Db → Cart × Db
upsert_cart m fresh (some cart, carts) db = (cart, record db { carts = carts })
upsert_cart m fresh (none, carts) db =
    (fresh, record db { carts = m.carts.create fresh carts; next_id = db.next_id + 1 })

unfoldable pub push_item : Mongo → ObjectId → String → ObjectId → ℕ → Db → Cart × Db
push_item m user tenant product quantity db =
    let empty : Cart = record { id = db.next_id; user = user; tenant = tenant; items = [] } in
    upsert_cart m (push_line product quantity empty)
      (m.carts.find_one_and_update (without_line user tenant product) (push_line product quantity)
        db.carts)
      db

abbrev pub or_push : Cart × Db → Option Cart × Db → Cart × Db
or_push pushed (some cart, db) = (cart, db)
or_push pushed (none, db) = pushed

unfoldable pub add_quantity : Mongo → ObjectId → String → ObjectId → ℕ → Db → Cart × Db
unfolding push_item
add_quantity m user tenant product quantity db =
    let (incremented, carts) =
      m.carts.find_one_and_update (with_line user tenant product)
        (λ c. record c { items = set_quantity product (λ n. n + quantity) c.items }) db.carts in
    or_push (push_item m user tenant product quantity (record db { carts = carts }))
      (incremented, record db { carts = carts })

abbrev pub drop_lines : ObjectId → Cart → Cart
drop_lines product c = record c { items = keep (λ i. not (is_line_of product i)) c.items }

unfoldable pub remove_item : Mongo → ObjectId → String → ObjectId → Db → Option Cart × Db
remove_item m user tenant product db =
    let (cart, carts) =
      m.carts.find_one_and_update (is_for_user user tenant) (drop_lines product) db.carts in
    (cart, record db { carts = carts })

unfoldable pub clear : Mongo → ObjectId → String → Db → Cart × Db
clear m user tenant db =
    upsert_cart m (record { id = db.next_id; user = user; tenant = tenant; items = [] })
      (m.carts.find_one_and_update (is_for_user user tenant) (λ c. record c { items = [] })
        db.carts)
      db

abbrev pub quantity_in : ObjectId → List CartItem → ℕ
quantity_in product [] = 0
quantity_in product (i ∷ items) =
    let rest = quantity_in product items in if is_line_of product i then i.quantity else rest

abbrev pub cart_quantity : ObjectId → Option Cart → ℕ
cart_quantity product none = 0
cart_quantity product (some c) = quantity_in product c.items

abbrev pub found_product : Option Product → Result Product
found_product none = err (not_found "Product not found")
found_product (some p) = ok p

abbrev pub check_stock : Product → ℕ → Result (Unit {0})
check_stock p requested = require (not (ltb p.stock requested)) (bad_request "Insufficient stock")

unfoldable pub check_add : Mongo → CartItemInput → Db → Result Product
check_add m value db = do
  product ← found_product (find_product m value.product_id value.tenant db)
  let current : Option Cart = m.carts.find_one (is_for_user value.user_id value.tenant) db.carts
  let requested : ℕ = cart_quantity product.id current + value.quantity
  check_stock product requested
  require (not (ltb 999 requested)) (bad_request "Quantity per item cannot exceed 999")
  ok product

-- `findById(cart._id)`, which answers null for no document.
abbrev pub read_back : Mongo → Cart × Db → Result (Option Cart) × Db
read_back m (cart, db) = (ok (m.carts.find_one (λ c. c.id == cart.id) db.carts), db)

unfoldable pub run_add : Mongo → CartItemInput → Db → Result Product → Result (Option Cart) × Db
unfolding add_quantity
run_add m value db (err e) = (err e, db)
run_add m value db (ok product) =
    read_back m (add_quantity m value.user_id value.tenant product.id value.quantity db)

unfoldable pub add_item : Mongo → CartItemInput → Db → Result (Option Cart) × Db
unfolding check_add run_add
add_item m value db = run_add m value db (check_add m value db)

abbrev pub found_line : Mongo → Option Cart × Db → Result (Option Cart) × Db
found_line m (none, db) = (err (not_found "Cart item not found"), db)
found_line m (some cart, db) = read_back m (cart, db)

unfoldable pub run_update : Mongo → CartItemInput → Db → Result Product → Result (Option Cart) × Db
unfolding update_existing_item
run_update m value db (err e) = (err e, db)
run_update m value db (ok product) =
    found_line m (update_existing_item m value.user_id value.tenant product.id value.quantity db)

unfoldable pub check_update : Mongo → CartItemInput → Db → Result Product
check_update m value db = do
  product ← found_product (find_product m value.product_id value.tenant db)
  check_stock product value.quantity
  ok product

unfoldable pub update_item : Mongo → CartItemInput → Db → Result (Option Cart) × Db
unfolding check_update run_update
update_item m value db = run_update m value db (check_update m value db)
