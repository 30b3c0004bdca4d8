-- ===== src/Money/Rounding.antt =====
-- Rounding in src/utils/money.ts.
use ecommerce_rest_api.Base.{◌≡◌, arith}
use ecommerce_rest_api.Domain.{Cents}
use ecommerce_rest_api.Money.{to_cents, from_cents}

-- Cents survive the trip through the stored decimal amount.
pub to_cents-from_cents : (c : Cents) → to_cents (from_cents c) ≡ c
unfolding to_cents from_cents
to_cents-from_cents c = omega arith
