-- ===== src/Money.antt =====
-- src/utils/money.ts. An `Amount` holds eight decimal places and is not negative, as every schema
-- requires, so `Math.sign` is 1; `amount * 100` then has six places, which `toFixed(6)` gives back
-- exactly as long as the amount is below ten million: there the error of the double is less than half
-- of its last place. `percentOf` has no such correction, so it is modelled in doubles.
pub mod Doubles
pub mod Rounding
mod Tests
use ecommerce_rest_api.Base.{ℕ, zero, suc, ◌+◌, ◌*◌, ◌/◌, ◌%◌, if◌then◌else◌, ltb, leb}
use ecommerce_rest_api.Domain.{Amount, Cents}

unfoldable pub to_cents : Amount → Cents
to_cents amount = (amount + 500_000) / 1_000_000

unfoldable pub from_cents : Cents → Amount
from_cents cents = cents * 1_000_000

-- An IEEE 754 double that is not negative and below 2 ^ 53: `significand / 2 ^ places`.
pub record Double : Type 0 where
  pub significand : ℕ
  pub places : ℕ

-- `n * 2 ^ k`
abbrev pub scaled : ℕ → ℕ → ℕ
scaled zero n = n
scaled (suc k) n = scaled k (2 * n)

-- `n / d` to the nearest whole number, a tie to the even one.
abbrev pub round_even : ℕ → ℕ → ℕ
round_even n d =
    let q = n / d in
    let r = n % d in if ltb (2 * r) d then q else if ltb d (2 * r) then q + 1 else q + q % 2

-- The binary places that give `n / d` 53 bits, at most the 1074 of the smallest double.
abbrev pub places_of : ℕ → ℕ → ℕ → ℕ
places_of zero n d = 0
places_of (suc k) n d =
    let rest = places_of k (2 * n) d in if leb (d * 4_503_599_627_370_496) n then 0 else suc rest

-- The double nearest to `n / d`.
abbrev pub nearest : ℕ → ℕ → Double
nearest n d =
    let k = places_of 1074 n d in record { significand = round_even (scaled k n) d; places = k }

-- `Math.round`: half up.
abbrev pub round_half_up : Double → ℕ
round_half_up x = (2 * x.significand + scaled x.places 1) / (2 * scaled x.places 1)

unfoldable pub percent_of : Cents → Amount → Cents
percent_of cents percent =
    let share = nearest percent 100_000_000 in
    let product = nearest (cents * share.significand) (scaled share.places 1) in
    round_half_up (nearest product.significand (100 * scaled product.places 1))
