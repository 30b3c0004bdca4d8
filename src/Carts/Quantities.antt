-- ===== src/Carts/Quantities.antt =====
-- The quantities in a cart when a line is increased or pushed.
use ecommerce_rest_api.Base.{
  ℕ, ◌+◌, ◌≡◌, true, false, Option, List, [], ◌∷◌, ◌++◌, if◌then◌else◌, refl, subst, arith,
  Bool-cases, inl, inr, ◌==◌, ==_lem,
}
use ecommerce_rest_api.Domain.{ObjectId, Cart, CartItem}
use ecommerce_rest_api.Carts.{has_line, set_quantity, quantity_in, cart_quantity}

pub quantity-set :
    (product : ObjectId) (q : ℕ) (items : List CartItem)
    → has_line product items ≡ true
    → quantity_in product (set_quantity product (λ n. n + q) items) ≡ quantity_in product items + q
quantity-set product q [] h = cc
quantity-set product q (i ∷ items) h = ground (arith, quantity-set product q items)

pub quantity-set_other :
    (product other : ObjectId) (f : ℕ → ℕ) (items : List CartItem)
    → (product == other) ≡ false
    → quantity_in other (set_quantity product f items) ≡ quantity_in other items
quantity-set_other product other f [] h = refl
quantity-set_other product other f (i ∷ items) h =
    ground (arith, quantity-set_other product other f items)

pub quantity-push :
    (product : ObjectId) (q : ℕ) (items : List CartItem)
    → has_line product items ≡ false
    → quantity_in product (items ++ (record { product = product; quantity = q }) ∷ [])
      ≡ quantity_in product items + q
quantity-push product q [] h = ground arith
quantity-push product q (i ∷ items) h = ground (arith, quantity-push product q items)

pub quantity-push_other :
    (product other : ObjectId) (q : ℕ) (items : List CartItem)
    → (product == other) ≡ false
    → quantity_in other (items ++ (record { product = product; quantity = q }) ∷ [])
      ≡ quantity_in other items
quantity-push_other product other q [] h = ground arith
quantity-push_other product other q (i ∷ items) h =
    ground (arith, quantity-push_other product other q items)

-- A cart with `q` more of the product, and the other products as they were.
pub record HasMore (product : ObjectId) (q : ℕ) (before : Option Cart) (after : Cart) : Type 0 where
  pub more : quantity_in product after.items ≡ cart_quantity product before + q
  pub others :
      (other : ObjectId)
      → quantity_in other after.items ≡ (
          if product == other then cart_quantity product before + q else cart_quantity other before)

pub HasMore-intro :
    (product : ObjectId) (q : ℕ) (before : Option Cart) (after : Cart)
    → quantity_in product after.items ≡ cart_quantity product before + q
    → ((other : ObjectId)
        → (product == other) ≡ false
        → quantity_in other after.items ≡ cart_quantity other before)
    → HasMore product q before after
HasMore-intro product q before after h k = record {
  more = h;
  others = λ other. elim (Bool-cases (product == other)) [
    | inr differs ↦ rw (differs) (k other differs)
    | inl same ↦ rw (same) (
        subst (λ x. quantity_in x after.items ≡ cart_quantity product before + q)
          (==_lem product other same) h)
  ];
}
