-- ===== src/Checkout/Undoable.antt =====
-- The invariant of a checkout: running the undo actions registered so far restores the database.
use ecommerce_rest_api.Base.{ℕ, ◌<◌, ◌≤◌, ◌≡◌, Bool, List, ◌++◌, All, Bool-cases, inl, inr}
use ecommerce_rest_api.Domain.{InventoryReservation, ReservationStatus}
use ecommerce_rest_api.Errors.{Result, ok, err}
use ecommerce_rest_api.Mongo.{Db}
use ecommerce_rest_api.Mongo.Documents.{IsUnique}
use ecommerce_rest_api.Checkout.Effects.{Undo, Run, Tx, call, ◌>>=◌}
use ecommerce_rest_api.Checkout.Reversal.{
  undo_products, undo_coupons, undo_orders, undo_reservations, IsOlder,
}

-- What the collections promise before a checkout: distinct ids, all below the next one.
pub record IsNumbered (db : Db) : Type 0 where
  pub product_ids : IsUnique (λ p. p.id) db.products
  pub coupon_ids : IsUnique (λ c. c.id) db.coupons
  pub order_ids : All (λ o. o.id < db.next_id) db.orders
  pub reservation_ids : All (λ r. r.id < db.next_id) db.reservations

pub record Undoable (before : Db) (us : List Undo) (db : Db) : Type 0 where
  pub numbered : IsNumbered db
  pub products : undo_products us db.products ≡ before.products
  pub coupons : undo_coupons us db.coupons ≡ before.coupons
  pub orders : undo_orders us db.orders ≡ before.orders
  pub left : List InventoryReservation
  pub reservations : undo_reservations us db.reservations ≡ before.reservations ++ left
  pub released : All (λ r. r.status ≡ ReservationStatus.released) left
  pub undo_ids : All (IsOlder db.next_id) us
  pub carts : db.carts ≡ before.carts
  pub newer : before.next_id ≤ db.next_id

-- How a run may end: by a value, or by an error.
abbrev pub Ensures {ℓ κ} :
    {A : Type ℓ}
    → (A → List Undo → Db → Type κ)
    → (List Undo → Db → Type κ)
    → Result A × Run
    → Type κ
Ensures Q E (ok a, r) = Q a r.undo r.db
Ensures Q E (err e, r) = E r.undo r.db

module _ {ℓ κ} {A : Type ℓ} (Q : A → List Undo → Db → Type κ) (E : List Undo → Db → Type κ) where
  pub Ensures-call :
      (fails : ℕ → Bool) (op : Db → A × Db) (r : Run)
      → E r.undo r.db
      → Q (op r.db).0 r.undo (op r.db).1
      → Ensures Q E (call fails op r)
  Ensures-call fails op r e q = elim (Bool-cases (fails r.calls)) [
    | inl down ↦ rw down e
    | inr up ↦ rw up q
  ]

module _ {ℓ κ ι} {A : Type ℓ} {B : Type ι} (P : A → List Undo → Db → Type κ)
    (Q : B → List Undo → Db → Type κ) (E : List Undo → Db → Type κ) where
  bind_of :
      (x : Result A × Run) (f : A → Tx B)
      → Ensures P E x
      → ((a : A) (r : Run) → P a r.undo r.db → Ensures Q E (f a r))
      → Ensures Q E (elim (x.0) [ ok a ↦ f a x.1 | err e ↦ (err e, x.1) ])
  bind_of (ok a, r) f h k = k a r h
  bind_of (err e, r) f h k = h

  pub Ensures->>= :
      (m : Tx A) (f : A → Tx B) (r : Run)
      → Ensures P E (m r)
      → ((a : A) (r : Run) → P a r.undo r.db → Ensures Q E (f a r))
      → Ensures Q E ((m >>= f) r)
  Ensures->>= m f r h k = bind_of (m r) f h k

module _ {ℓ κ} {A : Type ℓ} (P Q : A → List Undo → Db → Type κ) (E : List Undo → Db → Type κ) where
  pub Ensures-mono :
      (x : Result A × Run)
      → Ensures P E x
      → ((a : A) (us : List Undo) (db : Db) → P a us db → Q a us db)
      → Ensures Q E x
  Ensures-mono (ok a, r) h k = k a r.undo r.db h
  Ensures-mono (err e, r) h k = h
