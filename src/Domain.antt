-- ===== src/Domain.antt =====
-- The persisted shapes of src/types/domain.ts and src/models. An ObjectId and a Date (milliseconds
-- since the epoch) are natural numbers, which the code only compares and, for dates, shifts.
-- A money field is an `Amount`: a decimal with eight places, counted in units of 10^-8.
-- A field that no modelled code reads or writes is left out.
use ecommerce_rest_api.Base.{ℕ, String, Bool, Option, List}

abbrev pub ObjectId : Type 0
ObjectId = ℕ

abbrev pub Date : Type 0
Date = ℕ

abbrev pub Amount : Type 0
Amount = ℕ

abbrev pub Cents : Type 0
Cents = ℕ

pub data Role : Type 0 where
  user admin seller : Role

pub data OrderStatus : Type 0 where
  pending confirmed processing shipped delivered cancelled refund_requested refunded : OrderStatus

pub data PaymentStatus : Type 0 where
  unpaid authorized paid failed refunded : PaymentStatus

pub data RefundStatus : Type 0 where
  none requested approved rejected processed : RefundStatus

pub data ReservationStatus : Type 0 where
  reserved committed released expired : ReservationStatus

pub data CouponType : Type 0 where
  percentage fixed : CouponType

pub data ShipmentStatus : Type 0 where
  pending label_created in_transit delivered failed : ShipmentStatus

pub record Address : Type 0 where
  pub line1 : String
  pub line2 : Option String
  pub city : String
  pub state : String
  pub postal_code : String
  pub country : String

pub record Product : Type 0 where
  pub id : ObjectId
  pub name : String
  pub price : Amount
  pub stock : ℕ
  pub rating_count : ℕ
  pub is_active : Bool
  pub seller : Option ObjectId
  pub tenant : String
  pub deleted_at : Option Date

pub record CartItem : Type 0 where
  pub product : ObjectId
  pub quantity : ℕ

pub record Cart : Type 0 where
  pub id : ObjectId
  pub user : ObjectId
  pub tenant : String
  pub items : List CartItem

pub record OrderItem : Type 0 where
  pub product : ObjectId
  pub name : String
  pub price : Amount
  pub quantity : ℕ

pub record PaymentTransition : Type 0 where
  pub from : PaymentStatus
  pub to : PaymentStatus
  pub at : Date
  pub reason : String

pub record Order : Type 0 where
  pub id : ObjectId
  pub user : ObjectId
  pub tenant : String
  pub items : List OrderItem
  pub subtotal : Amount
  pub discount_total : Amount
  pub total : Amount
  pub coupon : Option ObjectId
  pub status : OrderStatus
  pub payment_status : PaymentStatus
  pub refund_status : RefundStatus
  pub payment_provider : String
  pub payment_reference : String
  pub payment_state_history : List PaymentTransition
  pub shipping_address : Address
  pub delivered_at : Option Date
  pub refund_requested_at : Option Date
  pub refund_reason : Option String
  pub cancelled_at : Option Date
  pub cancellation_reason : Option String
  pub updated_at : Date

pub record Coupon : Type 0 where
  pub id : ObjectId
  pub code : String
  pub kind : CouponType
  pub value : Amount
  pub max_discount : Option Amount
  pub min_order_total : Amount
  pub usage_limit : ℕ
  pub per_user_limit : ℕ
  pub used_count : ℕ
  pub starts_at : Option Date
  pub expires_at : Option Date
  pub is_active : Bool
  pub tenant : String
  pub deleted_at : Option Date

pub record CouponRedemption : Type 0 where
  pub id : ObjectId
  pub coupon : ObjectId
  pub tenant : String
  pub user : ObjectId
  pub order : ObjectId

pub record InventoryReservation : Type 0 where
  pub id : ObjectId
  pub user : ObjectId
  pub tenant : String
  pub order : Option ObjectId
  pub product : ObjectId
  pub quantity : ℕ
  pub status : ReservationStatus
  pub expires_at : Date

-- A provider webhook event, kept so that a replay is recognised.
pub record PaymentEvent : Type 0 where
  pub id : ObjectId
  pub provider : String
  pub event_id : String
  pub signed_digest : Option String
  pub order : ObjectId
  pub type_name : String
  pub payload_hash : String

pub record DomainEvent : Type 0 where
  pub id : ObjectId
  pub type_name : String
  pub aggregate_id : ObjectId
  pub tenant : String
  pub reason : String

-- A security signal of a webhook: its type, and its metadata.
pub record PaymentSignal : Type 0 where
  pub id : ObjectId
  pub kind : String
  pub tenant : String
  pub order : ObjectId
  pub provider : String
  pub event_id : String

pub record Shipment : Type 0 where
  pub id : ObjectId
  pub order : ObjectId
  pub seller : Option ObjectId
  pub tenant : String
  pub carrier : String
  pub tracking_number : String
  pub tracking_url : Option String
  pub status : ShipmentStatus
  pub updated_by : ObjectId

pub data TenantStatus : Type 0 where
  active suspended : TenantStatus

pub record Tenant : Type 0 where
  pub key : String
  pub status : TenantStatus
  pub allow_self_signup : Option Bool
  pub payment_provider : Option String

pub Role-discrete : Discrete Role
Role-discrete = hlevel
