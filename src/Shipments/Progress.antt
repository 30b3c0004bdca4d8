-- ===== src/Shipments/Progress.antt =====
-- How far shipments carry an order.
use ecommerce_rest_api.Base.{◌≡◌, ◌≤◌, true, arith, ◌⊎◌}
use ecommerce_rest_api.Domain.{ShipmentStatus}
use ecommerce_rest_api.Shipments.{shipment_rank, can_transition_shipment}

-- A shipment's history: every step is one that the controller allows.
pub data ShipmentPath (a : ShipmentStatus) : ShipmentStatus → Type 0 where
  here : ShipmentPath a a
  step :
      {b : ShipmentStatus} (c : ShipmentStatus)
      → ShipmentPath a b
      → can_transition_shipment b c ≡ true
      → ShipmentPath a c

step_forward :
    (b c : ShipmentStatus)
    → can_transition_shipment b c ≡ true
    → (b ≡ ShipmentStatus.delivered → c ≡ ShipmentStatus.delivered)
      × ((c ≡ ShipmentStatus.failed)
          ⊎ ((b ≡ ShipmentStatus.failed) ⊎ (shipment_rank b ≤ shipment_rank c)))
unfolding can_transition_shipment
step_forward b c h = ground arith

-- A delivered shipment stays delivered on every history that the controller allows, and each step
-- moves a shipment to failed, from failed, or not backward in rank.
pub ShipmentPath-final :
    (a c : ShipmentStatus)
    → ShipmentPath a c
    → (a ≡ ShipmentStatus.delivered → c ≡ ShipmentStatus.delivered)
      × ((d : ShipmentStatus)
          → can_transition_shipment c d ≡ true
          → (d ≡ ShipmentStatus.failed)
            ⊎ ((c ≡ ShipmentStatus.failed) ⊎ (shipment_rank c ≤ shipment_rank d)))
ShipmentPath-final a _ here = (λ e. e, λ d k. (step_forward a d k).1)
ShipmentPath-final a c (step {b} _ path allowed) =
    let earlier = ShipmentPath-final a b path in
    (λ e. (step_forward b c allowed).0 (earlier.0 e), λ d k. (step_forward c d k).1)
