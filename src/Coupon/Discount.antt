-- ===== src/Coupon/Discount.antt =====
-- How large a discount can be.
use ecommerce_rest_api.Domain.{Coupon}
