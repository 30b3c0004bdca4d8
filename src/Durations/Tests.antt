-- ===== src/Durations/Tests.antt =====
-- The formats that the configuration accepts.
use ecommerce_rest_api.Base.{◌≡◌, none, some, refl}
use ecommerce_rest_api.Durations.{parse_duration_ms}

parse-week : parse_duration_ms "2w" ≡ some 1209600000
unfolding parse_duration_ms
parse-week = refl

parse-blanks : parse_duration_ms "  15m " ≡ some 900000
unfolding parse_duration_ms
parse-blanks = refl

parse-unitless : parse_duration_ms "12" ≡ none
unfolding parse_duration_ms
parse-unitless = refl

parse-sign : parse_duration_ms "-3s" ≡ none
unfolding parse_duration_ms
parse-sign = refl
