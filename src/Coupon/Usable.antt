-- ===== src/Coupon/Usable.antt =====
-- When a coupon is accepted.
use ecommerce_rest_api.Base.{
  String, ◌≤◌, ◌<◌, ◌≡◌, ◌↔◌, false, some, none, Option, str_eq, Option-cases, inl, inr, refl,
  arith,
}
use ecommerce_rest_api.Domain.{ObjectId, Date, Cents, Coupon}
use ecommerce_rest_api.Errors.{ok}
use ecommerce_rest_api.Mongo.{Mongo, IsMongo, Db}
use ecommerce_rest_api.Mongo.Reference.{first, count_of}
use ecommerce_rest_api.Mongo.Laws.{reference, by_reference}
use ecommerce_rest_api.Money.{to_cents}
use ecommerce_rest_api.Coupon.{
  after, before, found_coupon, calculate_discount_cents, matches_code, redeemed_by,
  validate_coupon_for_user,
}

-- What the rules ask of the coupon that is stored under a code.
pub record IsUsable (now : Date) (code : String) (user_id : ObjectId) (subtotal : Cents)
    (tenant : String) (db : Db) (c : Coupon) : Type 0 where
  pub asked : str_eq code "" ≡ false
  pub stored : first (matches_code code tenant) db.coupons ≡ some c
  pub started : (at : Date) → c.starts_at ≡ some at → at ≤ now
  pub current : (at : Date) → c.expires_at ≡ some at → now ≤ at
  pub large : to_cents c.min_order_total ≤ subtotal
  pub unused : c.used_count < c.usage_limit
  pub unused_by_user : count_of (redeemed_by c.id user_id) db.redemptions < c.per_user_limit

after-eq-false :
    (o : Option Date) (now : Date) → ((at : Date) → o ≡ some at → at ≤ now) → after o now ≡ false
after-eq-false none now h = refl
after-eq-false (some at) now h = ground (arith, h at refl)

before-eq-false :
    (o : Option Date) (now : Date) → ((at : Date) → o ≡ some at → now ≤ at) → before o now ≡ false
before-eq-false none now h = refl
before-eq-false (some at) now h = ground (arith, h at refl)

module _ (now : Date) (code : String) (user_id : ObjectId) (subtotal : Cents) (tenant : String)
    (db : Db) (c : Coupon) (d : Cents) where
  sound :
      validate_coupon_for_user reference now (some code) user_id subtotal tenant db ≡ ok (some c, d)
      → IsUsable now code user_id subtotal tenant db c
        × (d ≡ calculate_discount_cents (some c) subtotal)
  unfolding validate_coupon_for_user
  sound h = elim (Option-cases (first (matches_code code tenant) db.coupons)) [
    | inl missing ↦ absurd (ground arith)
    | inr (x, found) ↦
        let same : x ≡ c = ground arith in
        (
          record {
            asked = ground arith;
            stored = ground arith;
            started = λ at e. ground arith;
            current = λ at e. ground arith;
            large = ground arith;
            unused = ground arith;
            unused_by_user = ground arith;
          },
          ground arith,
        )
  ]

  complete :
      IsUsable now code user_id subtotal tenant db c
      → d ≡ calculate_discount_cents (some c) subtotal
      → validate_coupon_for_user reference now (some code) user_id subtotal tenant db
        ≡ ok (some c, d)
  unfolding validate_coupon_for_user
  complete u e =
      let started = after-eq-false c.starts_at now u.started in
      let current = before-eq-false c.expires_at now u.current in
      rw (u.asked, u.stored, found_coupon) (ground (arith, started, current))

-- A coupon is accepted exactly when the code is not empty, the first live coupon of the tenant
-- under that code is this one, the present is within its dates, the order is large enough, and it
-- has uses left, both in all and for this user; the discount is then the calculated one.
pub validate_coupon_for_user_iff :
    (m : Mongo) (now : Date) (code : String) (user_id : ObjectId) (subtotal : Cents)
    (tenant : String) (db : Db) (c : Coupon) (d : Cents)
    → IsMongo m
    → (validate_coupon_for_user m now (some code) user_id subtotal tenant db ≡ ok (some c, d)) ↔ (
        IsUsable now code user_id subtotal tenant db c
        × (d ≡ calculate_discount_cents (some c) subtotal))
validate_coupon_for_user_iff m now code user_id subtotal tenant db c d h =
    by_reference
      (λ m.
        (validate_coupon_for_user m now (some code) user_id subtotal tenant db ≡ ok (some c, d)) ↔ (
          IsUsable now code user_id subtotal tenant db c
          × (d ≡ calculate_discount_cents (some c) subtotal)))
      m h
      (
        sound now code user_id subtotal tenant db c d,
        λ u. complete now code user_id subtotal tenant db c d u.0 u.1,
      )

-- No accepted discount exceeds the subtotal.
pub discount-le :
    (now : Date) (code : Option String) (user_id : ObjectId) (subtotal : Cents) (tenant : String)
    (db : Db) (c : Option Coupon) (d : Cents)
    → validate_coupon_for_user reference now code user_id subtotal tenant db ≡ ok (c, d)
    → d ≤ subtotal
unfolding validate_coupon_for_user calculate_discount_cents
discount-le now none user_id subtotal tenant db c d h = ground arith
discount-le now (some code) user_id subtotal tenant db c d h =
    elim (Option-cases (first (matches_code code tenant) db.coupons)) [
      | inl missing ↦ ground arith
      | inr (x, found) ↦ ground arith
    ]
