-- ===== src/Ssrf/Tests.antt =====
-- Addresses inside and outside the ranges.
use ecommerce_rest_api.Base.{◌+◌, ◌*◌, ◌≡◌, true, false, some, [], ◌∷◌, refl, str_eq}
use ecommerce_rest_api.Errors.{ok}
use ecommerce_rest_api.Ssrf.{
  is_private_address, v4, v6, name, is_private_v6, Url, Platform, assert_safe_external_url,
}
use ecommerce_rest_api.Ssrf.Ranges.{is_refused, is_private_address-refused}

loopback-refused : is_private_v6 (0 ∷ 0 ∷ 0 ∷ 0 ∷ 0 ∷ 0 ∷ 0 ∷ 1 ∷ []) ≡ true
unfolding is_private_v6
loopback-refused = refl

unique_local-refused : is_private_v6 (64784 ∷ 1 ∷ 0 ∷ 0 ∷ 0 ∷ 0 ∷ 0 ∷ 1 ∷ []) ≡ true
unfolding is_private_v6
unique_local-refused = refl

public-accepted : is_private_v6 (8193 ∷ 18528 ∷ 0 ∷ 0 ∷ 0 ∷ 0 ∷ 0 ∷ 34952 ∷ []) ≡ false
unfolding is_private_v6
public-accepted = refl

abbrev tracker : Url
tracker = record {
  protocol = "https:";
  username = "";
  password = "";
  hostname = "track.example.com";
  host = name "track.example.com";
}

abbrev platform : Platform
platform = record { parse = λ text. some tracker; is_blocked = λ host. str_eq host "localhost" }

tracker-accepted : assert_safe_external_url platform (some "https://track.example.com") ≡ ok tt
unfolding assert_safe_external_url
tracker-accepted = refl

-- 8.8.8.8, and 192.167.0.1 and 192.168.0.1 embedded in IPv6.
is_private_address-refused_example :
    (is_private_address (v4 134744072) ≡ is_refused 134744072)
    × (is_private_address (v6 (0 ∷ 0 ∷ 0 ∷ 0 ∷ 0 ∷ 65535 ∷ 49319 ∷ 1 ∷ []))
        ≡ is_refused (49319 * 65536 + 1))
    × (is_private_address (v6 (0 ∷ 0 ∷ 0 ∷ 0 ∷ 0 ∷ 0 ∷ 49320 ∷ 1 ∷ []))
        ≡ is_refused (49320 * 65536 + 1))
is_private_address-refused_example = is_private_address-refused 134744072 49319 1
