-- ===== src/Checkout/Effects.antt =====
-- The effects of `executeCheckout`: database calls, any of which may throw, and the undo actions
-- that are registered on the way.
use ecommerce_rest_api.Base.{
  ℕ, ◌+◌, Bool, ◌&&◌, Option, none, some, List, ◌∷◌, if◌then◌else◌, ◌==◌, ltb, ◌-◌,
}
use ecommerce_rest_api.Domain.{ObjectId, Coupon, ReservationStatus}
use ecommerce_rest_api.Errors.{AppError, Result, ok, err, server_error}
use ecommerce_rest_api.Mongo.{Mongo, Db}
use ecommerce_rest_api.Inventory.{has_id, add_stock, set_status}

-- The closures that the code pushes, by what each one captured.
pub data Undo : Type 0 where
  restore_stock : ObjectId → ℕ → Undo
  release_reservation : ObjectId → Undo
  release_coupon : ObjectId → Undo
  delete_order : ObjectId → Undo

abbrev pub is_used_coupon : ObjectId → Coupon → Bool
is_used_coupon id c = c.id == id && ltb 0 c.used_count

abbrev pub unuse_coupon : Coupon → Coupon
unuse_coupon c = record c { used_count = c.used_count - 1 }

unfoldable pub run_undo : Mongo → Undo → Db → Db
run_undo m (restore_stock id quantity) db = record db {
  products = (m.products.update_one (has_id id) (add_stock quantity) db.products).1;
}
run_undo m (release_reservation id) db = record db {
  reservations =
      (m.reservations.update_one (λ r. r.id == id) (set_status ReservationStatus.released)
        db.reservations).1;
}
run_undo m (release_coupon id) db = record db {
  coupons = (m.coupons.update_one (is_used_coupon id) unuse_coupon db.coupons).1;
}
run_undo m (delete_order id) db = record db {
  orders = m.orders.delete_one (λ o. o.id == id) db.orders;
}

-- The database, the undo actions with the newest first (`undo.reverse()`), and the number of
-- database calls so far.
pub record Run : Type 0 where
  pub db : Db
  pub undo : List Undo
  pub calls : ℕ

abbrev pub Tx {ℓ} : Type ℓ → Type ℓ
Tx A = Run → Result A × Run

module _ {ℓ} {A : Type ℓ} where
  abbrev pub pure : A → Tx A
  pure a r = (ok a, r)

  abbrev pub throw : AppError → Tx A
  throw e r = (err e, r)

  abbrev pub or_throw : Option A → AppError → Tx A
  or_throw none e = throw e
  or_throw (some a) e = pure a

  abbrev pub from_result : Result A → Tx A
  from_result x r = (x, r)

  -- One awaited database call; `fails` says which of them throw.
  abbrev pub call : (ℕ → Bool) → (Db → A × Db) → Tx A
  call fails op r =
      if fails r.calls
      then (err (server_error "database error"), record r { calls = r.calls + 1 })
      else let (a, db') = op r.db in (ok a, record r { db = db'; calls = r.calls + 1 })

infixl 5 ◌>>=◌ ◌>>◌
abbrev pub ◌>>=◌ {ℓ κ} : {A : Type ℓ} {B : Type κ} → Tx A → (A → Tx B) → Tx B
◌>>=◌ m f r = let (x, r') = m r in elim x [ ok a ↦ f a r' | err e ↦ (err e, r') ]

abbrev pub ◌>>◌ {ℓ κ} : {A : Type ℓ} {B : Type κ} → Tx A → Tx B → Tx B
m >> k = m >>= λ _. k

abbrev pub push_undo : Undo → Tx (Unit {0})
push_undo u r = (ok tt, record r { undo = u ∷ r.undo })
