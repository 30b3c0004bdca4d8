-- ===== src/Money/Tests.antt =====
-- Runs of src/utils/money.ts.
use ecommerce_rest_api.Base.{◌≡◌, refl}
use ecommerce_rest_api.Money.{to_cents, percent_of}

-- 1.005 is 101 cents, and 19.99 is 1999.
half_cent : to_cents 100_500_000 ≡ 101
unfolding to_cents
half_cent = refl

-- 15 % of 19.99 is 3.00.
fifteen_percent : percent_of 1999 1_500_000_000 ≡ 300
unfolding percent_of
fifteen_percent = refl

-- 1.15 % of 30.00 is 34 cents, since the double of 3450 / 100 comes out below 34.5.
uneven_percent : percent_of 3000 115_000_000 ≡ 34
unfolding percent_of
uneven_percent = refl
