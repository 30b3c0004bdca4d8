-- ===== src/Carts/Lines.antt =====
-- The lines of a cart under `add_item`.
use ecommerce_rest_api.Base.{
  ℕ, String, ◌+◌, ◌≤◌, ◌≡◌, true, false, Option, none, some, [], ◌∷◌, ◌++◌, refl, subst, ◌∙◌, arith,
  Bool-cases, Option-cases, inl, inr, ltb, ◌==◌, ap, sym, All, ◌≢◌, ◌⊎◌, str_eq_refl,
}
use ecommerce_rest_api.Domain.{ObjectId, Cart, Product}
use ecommerce_rest_api.Errors.{Result, ok, err}
use ecommerce_rest_api.Mongo.{Mongo, IsMongo, Db}
use ecommerce_rest_api.Mongo.Reference.{first, modify_first, modified_first}
use ecommerce_rest_api.Mongo.Laws.{reference, by_reference}
use ecommerce_rest_api.Mongo.Documents.{
  modify_first-eq_of_none, modified_first-missing, IsUnique, AtMostOne, modified_first-AtMostOne,
}
use ecommerce_rest_api.Mongo.Unique.{first-none, first-hit}
use ecommerce_rest_api.Carts.Stored.{modify_first-AtMostOne, first-modify_first, first-concat}
use ecommerce_rest_api.Carts.{
  CartItemInput, is_for_user, has_line, set_quantity, with_line, without_line, push_line, push_item,
  add_quantity, quantity_in, cart_quantity, check_add, run_add, add_item, find_product,
}
use ecommerce_rest_api.Carts.Quantities.{
  HasMore, HasMore-intro, quantity-set, quantity-set_other, quantity-push, quantity-push_other,
}

-- The user's cart took the place of the one before.
pub record IsReplaced (user : ObjectId) (tenant : String) (before : Db) (cart : Cart) (after : Db)
    : Type 0 where
  pub old : Cart
  pub one_before : first (is_for_user user tenant) before.carts ≡ some old
  pub same_id : cart.id ≡ old.id
  pub replaced :
      after
      ≡ record before { carts = modify_first (is_for_user user tenant) (λ _. cart) before.carts }

-- The user's first cart was appended.
pub record IsAppended (user : ObjectId) (tenant : String) (before : Db) (cart : Cart) (after : Db)
    : Type 0 where
  pub none_before : first (is_for_user user tenant) before.carts ≡ none
  pub new_id : cart.id ≡ before.next_id
  pub appended :
      after ≡ record before { carts = before.carts ++ cart ∷ []; next_id = before.next_id + 1 }

pub record IsPlaced (user : ObjectId) (tenant : String) (product : ObjectId) (q : ℕ) (before : Db)
    (cart : Cart) (after : Db) : Type 0 where
  pub more : HasMore product q (first (is_for_user user tenant) before.carts) cart
  pub own : is_for_user user tenant cart ≡ true
  pub place : IsReplaced user tenant before cart after ⊎ IsAppended user tenant before cart after

module _ (user : ObjectId) (tenant : String) (product : ObjectId) (q : ℕ) where
  abbrev added_line : Cart → Cart
  added_line c = record c { items = set_quantity product (λ n. n + q) c.items }

  with-narrower :
      (c : Cart) → with_line user tenant product c ≡ true → is_for_user user tenant c ≡ true
  with-narrower c h = ground (arith, h)

  without-narrower :
      (c : Cart) → without_line user tenant product c ≡ true → is_for_user user tenant c ≡ true
  without-narrower c h = ground (arith, h)

  set-HasMore :
      (cart : Cart)
      → has_line product cart.items ≡ true
      → HasMore product q (some cart) (added_line cart)
  set-HasMore cart h =
      HasMore-intro product q (some cart) (added_line cart) (quantity-set product q cart.items h)
        (λ other d. quantity-set_other product other (λ n. n + q) cart.items d)

  push-HasMore :
      (cart : Cart)
      → has_line product cart.items ≡ false
      → HasMore product q (some cart) (push_line product q cart)
  push-HasMore cart h =
      HasMore-intro product q (some cart) (push_line product q cart)
        (quantity-push product q cart.items h)
        (λ other d. quantity-push_other product other q cart.items d)

  fresh-HasMore :
      (cart : Cart) → cart.items ≡ [] → HasMore product q none (push_line product q cart)
  fresh-HasMore cart e =
      HasMore-intro product q none (push_line product q cart)
        (rw (e) (quantity-push product q [] refl))
        (λ other d. rw (e) (quantity-push_other product other q [] d))

  adding :
      (db : Db)
      → AtMostOne (is_for_user user tenant) db.carts
      → IsPlaced user tenant product q db
          (add_quantity reference user tenant product q db).0
          (add_quantity reference user tenant product q db).1
  unfolding add_quantity push_item
  adding db one =
      let for_user = is_for_user user tenant in
      let has = with_line user tenant product in
      let lacks = without_line user tenant product in
      let push = push_line product q in
      elim (Option-cases (first for_user db.carts)) [
        | inl missing ↦
            let nobody = first-none for_user db.carts missing in
            let no_line =
              modified_first-missing for_user has added_line with-narrower db.carts nobody in
            let same = modify_first-eq_of_none has added_line db.carts no_line in
            let no_cart =
              modified_first-missing for_user lacks push without-narrower db.carts nobody in
            let unpushed = modify_first-eq_of_none lacks push db.carts no_cart in
            rw (no_line, same, no_cart, unpushed)
              (record {
                more = rw (missing) (fresh-HasMore _ refl);
                own = ground (arith, str_eq_refl tenant);
                place = inr (record { none_before = missing; new_id = refl; appended = refl });
              })
        | inr (cart, found) ↦
            let own = first-hit for_user db.carts cart found in
            let set =
              modified_first-AtMostOne for_user has added_line with-narrower db.carts cart one
                found in
            let pushed =
              modified_first-AtMostOne for_user lacks push without-narrower db.carts cart one
                found in
            elim (Bool-cases (has_line product cart.items)) [
              | inl there ↦
                  let narrow : has cart ≡ true = rw (own, there) refl in
                  let hit : modified_first has added_line db.carts ≡ some (added_line cart) =
                    set ∙ rw (own, there) refl in
                  let written =
                    modify_first-AtMostOne for_user has added_line with-narrower db.carts cart found
                      narrow in
                  rw (hit) (record {
                    more = rw (found) (set-HasMore cart there);
                    own = own;
                    place = inl (record {
                      old = cart;
                      one_before = found;
                      same_id = refl;
                      replaced = ap (λ cs. record db { carts = cs }) written;
                    });
                  })
              | inr absent ↦
                  let narrow : lacks cart ≡ true = rw (own, absent) refl in
                  let miss : modified_first has added_line db.carts ≡ none =
                    set ∙ rw (own, absent) refl in
                  let same = modify_first-eq_of_none has added_line db.carts miss in
                  let hit : modified_first lacks push db.carts ≡ some (push cart) =
                    pushed ∙ rw (own, absent) refl in
                  let written =
                    modify_first-AtMostOne for_user lacks push without-narrower db.carts cart found
                      narrow in
                  rw (miss, same, hit)
                    (record {
                      more = rw (found) (push-HasMore cart absent);
                      own = own;
                      place = inl (record {
                        old = cart;
                        one_before = found;
                        same_id = refl;
                        replaced = ap (λ cs. record db { carts = cs }) written;
                      });
                    })
            ]
      ]

-- What was stored is found under its id.
placed-first :
    (user : ObjectId) (tenant : String) (product : ObjectId) (q : ℕ) (before : Db) (cart : Cart)
    (after : Db)
    → IsUnique (λ c. c.id) before.carts
    → All (λ c. c.id ≢ before.next_id) before.carts
    → IsPlaced user tenant product q before cart after
    → first (λ c. c.id == cart.id) after.carts ≡ some cart
placed-first user tenant product q before cart after u unused h = elim h.place [
  | inl r ↦ rw (r.replaced) (
      first-modify_first (λ c. c.id) (is_for_user user tenant) before.carts r.old cart u
        r.one_before r.same_id)
  | inr c ↦ rw (c.appended) (
      first-concat (λ c. c.id) before.carts cart
        (subst (λ n. All (λ c. c.id ≢ n) before.carts) (sym c.new_id) unused))
]

pub record IsAdded (value : CartItemInput) (before : Db) (cart : Cart) (after : Db) : Type 0 where
  pub product : Product
  pub found : find_product reference value.product_id value.tenant before ≡ some product
  pub placed : IsPlaced value.user_id value.tenant product.id value.quantity before cart after
  pub in_stock : quantity_in product.id cart.items ≤ product.stock
  pub in_limit : quantity_in product.id cart.items ≤ 999

abbrev pub AddedIfOk : CartItemInput → Db → Result (Option Cart) × Db → Type 0
AddedIfOk value before (ok (some cart), after) = IsAdded value before cart after
AddedIfOk value before (ok none, after) = ⊥
AddedIfOk value before (err failure, after) = after ≡ before

adding_item :
    (value : CartItemInput) (db : Db)
    → AtMostOne (is_for_user value.user_id value.tenant) db.carts
    → IsUnique (λ c. c.id) db.carts
    → All (λ c. c.id ≢ db.next_id) db.carts
    → AddedIfOk value db (add_item reference value db)
unfolding add_item check_add run_add
adding_item value db one u unused =
    elim (Option-cases (find_product reference value.product_id value.tenant db)) [
      | inl missing ↦ rw (missing) refl
      | inr (product, found) ↦
          let current = first (is_for_user value.user_id value.tenant) db.carts in
          let requested = cart_quantity product.id current + value.quantity in
          let added =
            add_quantity reference value.user_id value.tenant product.id value.quantity db in
          let placed = adding value.user_id value.tenant product.id value.quantity db one in
          let back =
            placed-first value.user_id value.tenant product.id value.quantity db added.0 added.1 u
              unused placed in
          elim (Bool-cases (ltb product.stock requested)) [
            | inl short ↦ rw (found, short) refl
            | inr enough ↦ elim (Bool-cases (ltb 999 requested)) [
              | inl over ↦ rw (found, enough, over) refl
              | inr fits ↦
                  rw (found, enough, fits, back)
                    (record {
                      product = product;
                      found = found;
                      placed = placed;
                      in_stock = let m = placed.more.more in ground (arith, enough, m);
                      in_limit = let m = placed.more.more in ground (arith, fits, m);
                    })
            ]
          ]
    ]

-- Adding to a cart, of which the user has at most one, where carts have distinct ids and the next id
-- is unused: a success answers a cart, read back by its id, and never null. That cart is the user's,
-- has the quantity more of the product, every other product as before, and no more of it than the
-- stock and than 999; it stands in the database in the place of the user's cart and under its id, or
-- at the end under the next id if there was none; everything else in the database is as before. A
-- refused addition writes nothing.
pub add_item-AddedIfOk :
    (m : Mongo) (value : CartItemInput) (db : Db)
    → IsMongo m
    → AtMostOne (is_for_user value.user_id value.tenant) db.carts
    → IsUnique (λ c. c.id) db.carts
    → All (λ c. c.id ≢ db.next_id) db.carts
    → AddedIfOk value db (add_item m value db)
add_item-AddedIfOk m value db h one u unused =
    by_reference (λ m. AddedIfOk value db (add_item m value db)) m h
      (adding_item value db one u unused)
