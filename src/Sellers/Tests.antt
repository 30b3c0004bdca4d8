-- ===== src/Sellers/Tests.antt =====
-- Witnesses for the dashboard.
use ecommerce_rest_api.Base.{All}
use ecommerce_rest_api.Domain.{Role}
use ecommerce_rest_api.Mongo.Laws.{reference, reference-IsMongo}
use ecommerce_rest_api.Checkout.{Request}
use ecommerce_rest_api.Sample.{shop, sample_db}
use ecommerce_rest_api.Sellers.{dashboard}
use ecommerce_rest_api.Sellers.Privacy.{IsPrivate, own_products, dashboard-IsPrivate}

abbrev seller_request : Request
seller_request = record { user_id = 8; role = Role.seller; tenant = shop }

dashboard-IsPrivate_example :
    All
      (IsPrivate (own_products seller_request sample_db))
      (dashboard reference (λ os. os) seller_request sample_db).recent_orders
dashboard-IsPrivate_example =
    dashboard-IsPrivate reference (λ os. os) seller_request sample_db reference-IsMongo
