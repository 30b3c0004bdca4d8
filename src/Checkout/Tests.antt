-- ===== src/Checkout/Tests.antt =====
-- Witnesses for the checkout.
use ecommerce_rest_api.Base.{ℕ, ◌≡◌, Bool, true, false, refl, [], arith, ltb}
use ecommerce_rest_api.Errors.{Result, ok, err, server_error}
use ecommerce_rest_api.Mongo.{Db}
use ecommerce_rest_api.Mongo.Laws.{reference, reference-IsMongo}
use ecommerce_rest_api.Domain.{OrderStatus, PaymentStatus}
use ecommerce_rest_api.Money.{to_cents, from_cents, percent_of}
use ecommerce_rest_api.Coupon.{validate_coupon_for_user, calculate_discount_cents}
use ecommerce_rest_api.Sample.{order_of, sample_db, sample_request, sample_input, sample_now}
use ecommerce_rest_api.Checkout.{Outcome, execute_checkout}
use ecommerce_rest_api.Checkout.Undoable.{IsNumbered}
use ecommerce_rest_api.Checkout.Failure.{IsRestored, execute_checkout-IsRestored}
use ecommerce_rest_api.Checkout.Success.{IsFromCart, execute_checkout-IsFromCart}

abbrev never : ℕ → Bool
never k = false

-- Every call from the eighth on throws: after the coupon was claimed and the order written.
abbrev late : ℕ → Bool
late k = ltb 7 k

sample_db-IsNumbered : IsNumbered sample_db
sample_db-IsNumbered = record {
  product_ids = ground arith;
  coupon_ids = ground arith;
  order_ids = ground arith;
  reservation_ids = ground arith;
}

abbrev failed_run : Result Outcome × Db
unfolding execute_checkout
failed_run =
    execute_checkout reference late never 15 false sample_request sample_input sample_now sample_db

execute_checkout-IsRestored_example : IsRestored sample_db failed_run.1
unfolding failed_run execute_checkout server_error validate_coupon_for_user to_cents
execute_checkout-IsRestored_example =
    execute_checkout-IsRestored reference late never 15 sample_request sample_input sample_now
      sample_db (server_error "database error") failed_run.1 reference-IsMongo sample_db-IsNumbered
      (λ k. refl) refl

abbrev placed_run : Result Outcome × Db
unfolding execute_checkout
placed_run =
    execute_checkout reference never never 15 true sample_request sample_input sample_now sample_db

abbrev outcome_of : Result Outcome → Outcome
outcome_of (ok o) = o
outcome_of (err e) = record {
  order = order_of 0 OrderStatus.pending PaymentStatus.unpaid;
  total = 0;
  reservations = [];
}

execute_checkout-IsFromCart_example :
    IsFromCart sample_db sample_request (outcome_of placed_run.0) placed_run.1
unfolding placed_run execute_checkout validate_coupon_for_user calculate_discount_cents to_cents
    percent_of
execute_checkout-IsFromCart_example =
    execute_checkout-IsFromCart reference never never 15 true sample_request sample_input sample_now
      sample_db (outcome_of placed_run.0) placed_run.1 reference-IsMongo refl

-- The discount of ten percent and the stock that is left.
placed_totals :
    ((outcome_of placed_run.0).order.subtotal ≡ 4_498_000_000)
    × ((outcome_of placed_run.0).order.discount_total ≡ 450_000_000)
unfolding placed_run execute_checkout validate_coupon_for_user calculate_discount_cents to_cents
    percent_of from_cents
placed_totals = (refl, refl)
