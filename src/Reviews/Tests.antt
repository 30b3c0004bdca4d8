-- ===== src/Reviews/Tests.antt =====
-- User 7 reviews product 1, which their orders hold, and wishes for it twice.
use ecommerce_rest_api.Base.{◌≡◌, [], ◌∷◌, refl}
use ecommerce_rest_api.Errors.{ok}
use ecommerce_rest_api.Mongo.Laws.{reference, reference_collection}
use ecommerce_rest_api.Sample.{sample_db, shop}
use ecommerce_rest_api.Reviews.{ReviewDb, add_wish, remove_wish}

abbrev no_reviews : ReviewDb
no_reviews = record { reviews = []; ratings = λ id. record { sum = 0; count = 0 }; next_id = 1 }

wish-once :
    (add_wish reference reference_collection 7 shop 1 sample_db
      (add_wish reference reference_collection 7 shop 1 sample_db []).1).0
    ≡ ok (record { user = 7; tenant = shop; products = 1 ∷ [] })
unfolding add_wish
wish-once = refl

wish-removed :
    (remove_wish reference_collection 7 shop 1 []).0
    ≡ record { user = 7; tenant = shop; products = [] }
unfolding remove_wish
wish-removed = refl
