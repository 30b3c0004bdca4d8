-- ===== src/Inventory/Tests.antt =====
-- Witnesses for reservations.
use ecommerce_rest_api.Base.{refl, arith}
use ecommerce_rest_api.Mongo.Documents.{IsUnique}
use ecommerce_rest_api.Mongo.Laws.{reference, reference-IsMongo}
use ecommerce_rest_api.Sample.{sample_db, sample_now}
use ecommerce_rest_api.Inventory.{
  ReleaseStatus, release_order_reservations, release_expired_reservations,
}
use ecommerce_rest_api.Inventory.Units.{IsBacked, Conserves}
use ecommerce_rest_api.Inventory.Release.{IsReleased, release_order_reservations-IsReleased}
use ecommerce_rest_api.Inventory.Expiry.{OnlyExpires, release_expired_reservations-IsSwept}

reservations-IsUnique : IsUnique (λ r. r.id) sample_db.reservations
reservations-IsUnique = ground arith

sample_db-IsBacked : IsBacked sample_db
sample_db-IsBacked = (refl, (refl, tt))

release_order_reservations-IsReleased_example :
    IsReleased 31 ReleaseStatus.released sample_db
      (release_order_reservations reference 31 ReleaseStatus.released sample_db).1
release_order_reservations-IsReleased_example =
    release_order_reservations-IsReleased reference 31 ReleaseStatus.released sample_db
      reference-IsMongo sample_db-IsBacked reservations-IsUnique

release_expired_reservations-IsSwept_example :
    (let db' = (release_expired_reservations reference (λ rs. rs) sample_now 100 sample_db).1 in
      Conserves sample_db db' × OnlyExpires sample_now sample_db.orders db'.orders)
release_expired_reservations-IsSwept_example =
    release_expired_reservations-IsSwept reference (λ rs. rs) sample_now 100 sample_db
      reference-IsMongo sample_db-IsBacked
