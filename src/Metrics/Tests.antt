-- ===== src/Metrics/Tests.antt =====
-- One request and one alert after the start.
use ecommerce_rest_api.Base.{◌≡◌, some, none, refl}
use ecommerce_rest_api.Metrics.{Metrics, no_metrics, key_for, record_request, emit_alert}
use ecommerce_rest_api.Metrics.Ceilings.{IsBounded, started, request, alert, Observed-IsBounded}

key-known : key_for "GET" (some "/products/:id") 404 ≡ "GET /products/:id 404"
unfolding key_for
key-known = refl

key-unknown : key_for "PURGE" none 99 ≡ "OTHER unmatched 0"
unfolding key_for
key-unknown = refl

abbrev after_one : Metrics
after_one = emit_alert "checkout.failed" "high" (record_request "GET" none 500 12 no_metrics)

after_one-IsBounded : IsBounded after_one
after_one-IsBounded =
    Observed-IsBounded after_one
      (alert "checkout.failed" "high" (request "GET" none 500 12 started))
