-- ===== src/Coupon/Tests.antt =====
-- Witnesses for coupons.
use ecommerce_rest_api.Base.{ℕ, ◌≡◌, ◌↔◌, some}
use ecommerce_rest_api.Errors.{ok}
use ecommerce_rest_api.Mongo.Laws.{reference, reference-IsMongo}
use ecommerce_rest_api.Sample.{shop, sample_db, sample_now, ten_percent}
use ecommerce_rest_api.Coupon.{calculate_discount_cents, validate_coupon_for_user}
use ecommerce_rest_api.Coupon.Usable.{IsUsable, validate_coupon_for_user_iff}

validate_coupon_for_user_iff_example :
    (validate_coupon_for_user reference sample_now (some "TEN") 7 4498 shop sample_db
      ≡ ok (some ten_percent, 450))
    ↔ (IsUsable sample_now "TEN" 7 4498 shop sample_db ten_percent
        × (450 ≡ calculate_discount_cents (some ten_percent) 4498))
validate_coupon_for_user_iff_example =
    validate_coupon_for_user_iff reference sample_now "TEN" 7 4498 shop sample_db ten_percent 450
      reference-IsMongo

-- A cap, which the coupon does not have.
abbrev three : ℕ
three = 3
