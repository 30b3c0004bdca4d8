-- ===== src/Transactions.antt =====
-- `runInTransaction` of src/infrastructure/database/transaction.ts, and `checkout` of
-- src/services/OrderService.ts as it uses it. The driver is a parameter, of which `with_transaction`
-- runs its work on the database.
use ecommerce_rest_api.Base.{ℕ, Bool, true, false, if◌then◌else◌}
use ecommerce_rest_api.Domain.{Date}
use ecommerce_rest_api.Errors.{Result}
use ecommerce_rest_api.Mongo.{Mongo, Db}
use ecommerce_rest_api.Checkout.{Request, CheckoutInput, Outcome, execute_checkout}

pub record Driver (A : Type 0) : Type 0 where
  -- `hello` names a replica set or a sharded cluster.
  pub supports_transactions : Bool
  pub with_transaction : (Db → Result A × Db) → Db → Result A × Db

pub record TransactionOutcome (A : Type 0) : Type 0 where
  pub result : Result A
  pub transactional : Bool

-- `work` is told whether it has a session.
unfoldable pub run_in_transaction :
    {A : Type 0} → Driver A → (Bool → Db → Result A × Db) → Db → TransactionOutcome A × Db
run_in_transaction d work db =
    let inside = d.with_transaction (work true) db in
    let outside = work false db in
    if d.supports_transactions
    then (record { result = inside.0; transactional = true }, inside.1)
    else (record { result = outside.0; transactional = false }, outside.1)

-- The locked body of `checkout`, up to the follow-up that only notifies.
unfoldable pub checkout :
    Driver Outcome
    → Mongo
    → (ℕ → Bool)
    → (ℕ → Bool)
    → ℕ
    → Request
    → CheckoutInput
    → Date
    → Db
    → TransactionOutcome Outcome × Db
unfolding run_in_transaction
checkout d m fails undo_fails minutes req value now db =
    run_in_transaction d
      (λ session. execute_checkout m fails undo_fails minutes session req value now) db
