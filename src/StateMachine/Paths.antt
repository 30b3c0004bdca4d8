-- ===== src/StateMachine/Paths.antt =====
-- What sequences of accepted transitions can and cannot do.
use ecommerce_rest_api.Base.{
  ℕ, String, ◌<◌, ◌≤◌, ◌≡◌, ◌≢◌, ◌⊎◌, List, [], ◌∷◌, ◌++◌, inl, refl, arith,
}
use ecommerce_rest_api.Domain.{OrderStatus, PaymentStatus, Date, PaymentTransition, Order}
use ecommerce_rest_api.Errors.{ok}
use ecommerce_rest_api.StateMachine.{
  assert_order_transition, assert_payment_transition, apply_payment_transition,
}

-- The statuses after a start, each by an accepted transition from the one before.
pub data OrderPath (s : OrderStatus) : OrderStatus → Type 0 where
  here : OrderPath s s
  then : {t u : OrderStatus} → OrderPath s t → assert_order_transition t u ≡ ok tt → OrderPath s u

pub data PaymentPath (s : PaymentStatus) : PaymentStatus → Type 0 where
  here : PaymentPath s s
  then :
      {t u : PaymentStatus}
      → PaymentPath s t
      → assert_payment_transition t u ≡ ok tt
      → PaymentPath s u

-- How far a status is along the fulfilment.
abbrev pub progress : OrderStatus → ℕ
progress OrderStatus.pending = 0
progress OrderStatus.confirmed = 1
progress OrderStatus.processing = 2
progress OrderStatus.shipped = 3
progress OrderStatus.delivered = 4
progress _ = 5

abbrev pub settled : PaymentStatus → ℕ
settled PaymentStatus.unpaid = 0
settled PaymentStatus.authorized = 1
settled PaymentStatus.paid = 2
settled _ = 3

progress-step :
    (s t : OrderStatus)
    → assert_order_transition s t ≡ ok tt
    → ((s ≡ t) ⊎ (progress s < progress t))
      × (t ≡ OrderStatus.cancelled → s ≢ OrderStatus.cancelled → progress s ≤ 1)
unfolding assert_order_transition
progress-step s t h = (ground arith, λ e n. ground arith)

OrderPath-forward :
    {s t : OrderStatus}
    → OrderPath s t
    → ((s ≡ t) ⊎ (progress s < progress t))
      × (t ≡ OrderStatus.cancelled → s ≢ OrderStatus.cancelled → progress s ≤ 1)
OrderPath-forward here = (inl refl, λ e n. absurd (n e))
OrderPath-forward {s} (then {t = t} {u = u} p h) =
    let before = OrderPath-forward p in
    let last = progress-step t u h in (ground arith, λ e n. ground (arith, last.1, before.1))

settled-step :
    (s t : PaymentStatus)
    → assert_payment_transition s t ≡ ok tt
    → ((s ≡ t) ⊎ (settled s < settled t))
      × (s ≡ PaymentStatus.paid → (t ≡ PaymentStatus.paid) ⊎ (t ≡ PaymentStatus.refunded))
unfolding assert_payment_transition
settled-step s t h = (ground arith, λ e. ground arith)

PaymentPath-forward :
    {s t : PaymentStatus}
    → PaymentPath s t
    → ((s ≡ t) ⊎ (settled s < settled t))
      × ((s ≡ PaymentStatus.failed) ⊎ (s ≡ PaymentStatus.refunded) → t ≡ s)
      × (s ≡ PaymentStatus.paid → (t ≡ PaymentStatus.paid) ⊎ (t ≡ PaymentStatus.refunded))
PaymentPath-forward here = (inl refl, λ e. refl, λ e. inl e)
PaymentPath-forward {s} (then {t = t} {u = u} p h) =
    let before = PaymentPath-forward p in
    let last = settled-step t u h in
    (ground arith, λ e. ground (arith, before.1), λ e. ground (arith, before.2, last.1))

-- Along accepted order transitions an order only moves forward, so no status that was left is
-- entered again, and an order is cancelled only from a status before its processing began. Along
-- accepted payment transitions a payment only moves forward, a failed or refunded one stays as it
-- is, and one that was paid stays paid or becomes refunded.
pub paths_forward :
    {s t : OrderStatus} {p q : PaymentStatus}
    → OrderPath s t
    → PaymentPath p q
    → ((s ≡ t) ⊎ (progress s < progress t))
      × (t ≡ OrderStatus.cancelled → s ≢ OrderStatus.cancelled → progress s ≤ 1)
      × ((p ≡ q) ⊎ (settled p < settled q))
      × ((p ≡ PaymentStatus.failed) ⊎ (p ≡ PaymentStatus.refunded) → q ≡ p)
      × (p ≡ PaymentStatus.paid → (q ≡ PaymentStatus.paid) ⊎ (q ≡ PaymentStatus.refunded))
paths_forward order payment =
    let (moved, early) = OrderPath-forward order in
    let (settles, final, stays) = PaymentPath-forward payment in
    (moved, early, settles, final, stays)

-- A payment history that leads from one status to another, each entry by an accepted transition
-- from where the entry before it ended.
abbrev pub Leads : PaymentStatus → List PaymentTransition → PaymentStatus → Type 0
Leads s [] t = s ≡ t
Leads s (e ∷ es) t =
    (e.from ≡ s) × (assert_payment_transition e.from e.to ≡ ok tt) × Leads e.to es t

Leads-concat :
    (s : PaymentStatus) {t : PaymentStatus} (es : List PaymentTransition) (e : PaymentTransition)
    → Leads s es t
    → e.from ≡ t
    → assert_payment_transition e.from e.to ≡ ok tt
    → Leads s (es ++ e ∷ []) e.to
Leads-concat s [] e h f a = (ground arith, a, refl)
Leads-concat s (x ∷ xs) e h f a = (h.0, h.1, Leads-concat x.to xs e h.2 f a)

abbrev entry_for : Order → PaymentStatus → String → Date → PaymentTransition
entry_for o to reason now = record { from = o.payment_status; to = to; at = now; reason = reason }

applied :
    (o : Order) (to : PaymentStatus) (reason : String) (now : Date) {o' : Order}
    → apply_payment_transition o to reason now ≡ ok o'
    → (assert_payment_transition o.payment_status to ≡ ok tt)
      × (o'.payment_state_history ≡ o.payment_state_history ++ entry_for o to reason now ∷ [])
      × (o'.payment_status ≡ to)
      × (assert_order_transition o.status o'.status ≡ ok tt)
      × (o'.status ≢ o.status → to ≡ PaymentStatus.paid)
unfolding apply_payment_transition assert_order_transition
applied o to reason now h =
    (ground arith, ground arith, ground arith, ground arith, λ n. ground arith)

-- A payment transition that is accepted keeps the history a chain of accepted transitions from its
-- start to the current payment status, moves the payment to the asked status, moves the order's
-- status by an accepted order transition, and moves it at all only when the order becomes paid.
pub apply_payment_transition-Leads :
    (s : PaymentStatus) (o : Order) (to : PaymentStatus) (reason : String) (now : Date) {o' : Order}
    → Leads s o.payment_state_history o.payment_status
    → apply_payment_transition o to reason now ≡ ok o'
    → Leads s o'.payment_state_history o'.payment_status
      × (o'.payment_status ≡ to)
      × (assert_order_transition o.status o'.status ≡ ok tt)
      × (o'.status ≢ o.status → to ≡ PaymentStatus.paid)
apply_payment_transition-Leads s o to reason now leads h =
    let (allowed, history, paid, moved, only) = applied o to reason now h in
    (
      rw (history, paid)
          (Leads-concat s o.payment_state_history (entry_for o to reason now) leads refl allowed),
      paid,
      moved,
      only,
    )
