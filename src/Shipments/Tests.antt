-- ===== src/Shipments/Tests.antt =====
-- A run and a witness for shipments: the seller of all items ships order 31.
use ecommerce_rest_api.Base.{◌≡◌, none, some, [], ◌∷◌, map, refl}
use ecommerce_rest_api.Domain.{Order, OrderStatus, Role, Shipment, ShipmentStatus}
use ecommerce_rest_api.Errors.{Result, ok}
use ecommerce_rest_api.Mongo.{Db}
use ecommerce_rest_api.Mongo.Laws.{reference, reference-IsMongo}
use ecommerce_rest_api.Sample.{sample_db, sample_now, shop}
use ecommerce_rest_api.StateMachine.{can_transition_order}
use ecommerce_rest_api.Checkout.{Request}
use ecommerce_rest_api.Shipments.{ShipmentInput, upsert}
use ecommerce_rest_api.Shipments.Advance.{IsUpserted, upsert-IsUpserted}

abbrev seller : Request
seller = record { user_id = 8; role = Role.seller; tenant = shop }

abbrev parcel : ShipmentInput
parcel = record {
  carrier = "DHL";
  tracking_number = "1Z";
  tracking_url = none;
  status = ShipmentStatus.in_transit;
}

abbrev sent_parcel : Shipment
sent_parcel = record {
  id = 100;
  order = 31;
  seller = some 8;
  tenant = shop;
  carrier = "DHL";
  tracking_number = "1Z";
  tracking_url = none;
  status = ShipmentStatus.in_transit;
  updated_by = 8;
}

abbrev shipped : Result Shipment × Db
unfolding upsert
shipped = upsert reference (λ url. ok tt) seller 31 parcel sample_now sample_db

order_statuses :
    map (λ (o : Order). o.status) shipped.1.orders
    ≡ OrderStatus.pending ∷ OrderStatus.shipped ∷ OrderStatus.delivered ∷ []
unfolding shipped can_transition_order
order_statuses = refl

upsert-IsUpserted_example : IsUpserted seller 31 sample_now sample_db shipped.1
unfolding shipped upsert
upsert-IsUpserted_example =
    upsert-IsUpserted (λ url. ok tt) seller 31 parcel sample_now sample_db reference shipped.1
      sent_parcel reference-IsMongo refl
