-- ===== src/Coupon.antt =====
-- src/services/couponService.ts. `now` is the `new Date()` of the call. A falsy code (undefined or
-- the empty string) means that no coupon is asked for, and a `maxDiscount` of 0 is no cap.
pub mod Discount
pub mod Usable
mod Tests
use ecommerce_rest_api.Base.{
  ℕ, String, Bool, true, false, not, ◌&&◌, Option, none, some, if◌then◌else◌, ltb, leb, ◌==◌,
  str_eq, min, max, is_some,
}
use ecommerce_rest_api.Domain.{ObjectId, Date, Amount, Cents, Coupon, CouponType, CouponRedemption}
use ecommerce_rest_api.Errors.{Result, ok, err, bad_request, require, ◌>>=◌, ◌>>◌}
use ecommerce_rest_api.Mongo.{Mongo, Db}
use ecommerce_rest_api.Money.{to_cents, percent_of}

abbrev raw_discount : CouponType → Amount → Cents → Cents
raw_discount CouponType.percentage value subtotal_cents = percent_of subtotal_cents value
raw_discount CouponType.fixed value subtotal_cents = to_cents value

abbrev cap_or : Option Amount → Cents → Cents
cap_or none raw = raw
cap_or (some cap) raw = if cap == 0 then raw else to_cents cap

unfoldable pub calculate_discount_cents : Option Coupon → Cents → Cents
calculate_discount_cents none subtotal_cents = 0
calculate_discount_cents (some coupon) subtotal_cents =
    let raw = raw_discount coupon.kind coupon.value subtotal_cents in
    let cap = cap_or coupon.max_discount raw in max 0 (min (min raw cap) subtotal_cents)

abbrev is_falsy : Option String → Bool
is_falsy none = true
is_falsy (some code) = str_eq code ""

abbrev pub matches_code : String → String → Coupon → Bool
matches_code code tenant c =
    str_eq c.code code && c.is_active && str_eq c.tenant tenant && not (is_some c.deleted_at)

abbrev pub redeemed_by : ObjectId → ObjectId → CouponRedemption → Bool
redeemed_by coupon user r = r.coupon == coupon && r.user == user

abbrev after : Option Date → Date → Bool
after none now = false
after (some at) now = ltb now at

abbrev before : Option Date → Date → Bool
before none now = false
before (some at) now = ltb at now

check_coupon : Mongo → Date → ObjectId → Cents → Db → Coupon → Result (Option Coupon × Cents)
check_coupon m now user_id subtotal_cents db coupon = do
  require (not (after coupon.starts_at now)) (bad_request "Coupon is not active yet")
  require (not (before coupon.expires_at now)) (bad_request "Coupon has expired")
  require (leb (to_cents coupon.min_order_total) subtotal_cents)
      (bad_request "Order total is too low for this coupon")
  require (ltb coupon.used_count coupon.usage_limit) (bad_request "Coupon usage limit reached")
  let user_uses = m.redemptions.count_documents (redeemed_by coupon.id user_id) db.redemptions
  require (ltb user_uses coupon.per_user_limit) (bad_request "Coupon already used by this account")
  ok (some coupon, calculate_discount_cents (some coupon) subtotal_cents)

found_coupon : Mongo → Date → ObjectId → Cents → Db → Option Coupon → Result (Option Coupon × Cents)
unfolding check_coupon
found_coupon m now user_id subtotal_cents db none = err (bad_request "Invalid coupon")
found_coupon m now user_id subtotal_cents db (some coupon) =
    check_coupon m now user_id subtotal_cents db coupon

unfoldable pub validate_coupon_for_user :
    Mongo → Date → Option String → ObjectId → Cents → String → Db → Result (Option Coupon × Cents)
unfolding found_coupon
validate_coupon_for_user m now none user_id subtotal_cents tenant db = ok (none, 0)
validate_coupon_for_user m now (some code) user_id subtotal_cents tenant db =
    if str_eq code ""
    then ok (none, 0)
    else found_coupon m now user_id subtotal_cents db
        (m.coupons.find_one (matches_code code tenant) db.coupons)
