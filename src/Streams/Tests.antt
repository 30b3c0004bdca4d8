-- ===== src/Streams/Tests.antt =====
-- A witness for the limiter: the third slot of a user is refused, and the first is released twice.
use ecommerce_rest_api.Streams.{StreamLimits, StreamLimiter, new_limiter, acquire, release}
use ecommerce_rest_api.Streams.Counts.{IsCounted, created, acquired, released, Used-IsCounted}

abbrev two_each : StreamLimits
two_each = record { per_user = 2; global = 3 }

abbrev full : StreamLimiter
full = (acquire two_each 7 (acquire two_each 7 (acquire two_each 7 new_limiter).1).1).1

Used-IsCounted_example : IsCounted two_each (release 0 (release 0 full))
Used-IsCounted_example =
    Used-IsCounted two_each (release 0 (release 0 full))
      (released 0 (released 0 (acquired 7 (acquired 7 (acquired 7 created)))))
