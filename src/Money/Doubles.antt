-- ===== src/Money/Doubles.antt =====
-- The doubles of src/utils/money.ts's percentOf against what IEEE 754 asks of them.
use ecommerce_rest_api.Base.{
  ℕ, zero, suc, ◌+◌, ◌*◌, ◌/◌, ◌≤◌, ◌<◌, ◌≡◌, ◌⊎◌, refl, ap, inl, inr, arith, leb, Bool-cases,
}
use ecommerce_rest_api.Domain.{Amount, Cents}
use ecommerce_rest_api.Money.{
  Double, scaled, round_even, places_of, nearest, round_half_up, percent_of,
}

-- `x` is within half a unit of its last place of `n / d`, and has 53 bits or all the places there are.
pub record IsNearest (n d : ℕ) (x : Double) : Type 0 where
  pub below : 2 * (x.significand * d) ≤ 2 * scaled x.places n + d
  pub above : 2 * scaled x.places n ≤ 2 * (x.significand * d) + d
  pub precise : (x.places ≡ 1074) ⊎ (d * 4_503_599_627_370_496 ≤ scaled x.places n)

round_even-below : (n d : ℕ) → 0 < d → 2 * (round_even n d * d) ≤ 2 * n + d
round_even-below n d h = grind arith

round_even-above : (n d : ℕ) → 0 < d → 2 * n ≤ 2 * (round_even n d * d) + d
round_even-above n d h = grind arith

places_of-precise :
    (fuel n d : ℕ)
    → (places_of fuel n d ≡ fuel) ⊎ (d * 4_503_599_627_370_496 ≤ scaled (places_of fuel n d) n)
places_of-precise zero n d = inl refl
places_of-precise (suc k) n d =
    let ih = places_of-precise k (2 * n) d in
    elim (Bool-cases (leb (d * 4_503_599_627_370_496) n)) [
      | inl enough ↦ rw (enough) (inr (ground (arith, enough)))
      | inr short ↦ rw (short) (elim ih [ inl e ↦ inl (ap (λ k. suc k) e) | inr e ↦ inr e ])
    ]

scaled-positive : (k n : ℕ) → 0 < n → 0 < scaled k n
scaled-positive zero n h = h
scaled-positive (suc k) n h = scaled-positive k (2 * n) (omega arith)

nearest-IsNearest : (n d : ℕ) → 0 < d → IsNearest n d (nearest n d)
nearest-IsNearest n d h = record {
  below = round_even-below (scaled (places_of 1074 n d) n) d h;
  above = round_even-above (scaled (places_of 1074 n d) n) d h;
  precise = places_of-precise 1074 n d;
}

-- `q` is `x` rounded to the nearest whole number, a half upwards.
pub record IsRounded (x : Double) (q : ℕ) : Type 0 where
  pub least : 2 * (q * scaled x.places 1) ≤ 2 * x.significand + scaled x.places 1
  pub most : 2 * x.significand + scaled x.places 1 < 2 * ((q + 1) * scaled x.places 1)

floor-least : (s p : ℕ) → 0 < p → 2 * ((2 * s + p) / (2 * p) * p) ≤ 2 * s + p
floor-least s p h = grind arith

floor-most : (s p : ℕ) → 0 < p → 2 * s + p < 2 * (((2 * s + p) / (2 * p) + 1) * p)
floor-most s p h = grind arith

round_half_up-IsRounded : (x : Double) → IsRounded x (round_half_up x)
round_half_up-IsRounded x =
    let positive = scaled-positive x.places 1 (omega arith) in
    record {
      least = floor-least x.significand (scaled x.places 1) positive;
      most = floor-most x.significand (scaled x.places 1) positive;
    }

-- `q` is `percent` per cent of `cents` in double arithmetic: the decimal as a double, the product and
-- the hundredth are each nearest to the exact value, and the last one is rounded.
pub record IsPercentage (cents : Cents) (percent : Amount) (q : Cents) : Type 0 where
  pub share : Double
  pub product : Double
  pub quotient : Double
  pub of_decimal : IsNearest percent 100_000_000 share
  pub of_product : IsNearest (cents * share.significand) (scaled share.places 1) product
  pub of_quotient : IsNearest product.significand (100 * scaled product.places 1) quotient
  pub rounded : IsRounded quotient q

pub percent_of-IsPercentage :
    (cents : Cents) (percent : Amount) → IsPercentage cents percent (percent_of cents percent)
unfolding percent_of
percent_of-IsPercentage cents percent =
    let share = nearest percent 100_000_000 in
    let product = nearest (cents * share.significand) (scaled share.places 1) in
    let quotient = nearest product.significand (100 * scaled product.places 1) in
    let places = scaled-positive product.places 1 (omega arith) in
    record {
      share = share;
      product = product;
      quotient = quotient;
      of_decimal = nearest-IsNearest percent 100_000_000 (omega arith);
      of_product =
          nearest-IsNearest (cents * share.significand) (scaled share.places 1)
            (scaled-positive share.places 1 (omega arith));
      of_quotient =
          nearest-IsNearest product.significand (100 * scaled product.places 1) (omega arith);
      rounded = round_half_up-IsRounded quotient;
    }
