-- ===== src/Commerce/Status.antt =====
-- The order and payment state machines of commerce.py: `OrderStatus`, `PaymentStatus`, their
-- transition tables and `require_transition`.
use vouchspec.Base.{◌≤◌, ℕ, ◌<◌, ◌≡◌, refl, Bool, true, false, arith}
use vouchspec.Errors.{Result, invalid_commerce_transition, require}

pub data OrderStatus : Type 0 where
  checkout_pending payment_pending queued running delivered : OrderStatus
  payment_failed fulfillment_failed cancelled : OrderStatus

pub data PaymentStatus : Type 0 where
  pending captured available refund_pending refunded disputed failed : PaymentStatus

-- `target in ORDER_TRANSITIONS[current]`
abbrev pub order_allowed : OrderStatus → OrderStatus → Bool
order_allowed checkout_pending payment_pending = true
order_allowed checkout_pending cancelled = true
order_allowed payment_pending queued = true
order_allowed payment_pending payment_failed = true
order_allowed payment_pending cancelled = true
order_allowed queued running = true
order_allowed queued fulfillment_failed = true
order_allowed running delivered = true
order_allowed running fulfillment_failed = true
order_allowed _ _ = false

-- `target in PAYMENT_TRANSITIONS[current]`
abbrev pub payment_allowed : PaymentStatus → PaymentStatus → Bool
payment_allowed pending captured = true
payment_allowed pending failed = true
payment_allowed captured available = true
payment_allowed captured refund_pending = true
payment_allowed captured disputed = true
payment_allowed available refund_pending = true
payment_allowed available disputed = true
payment_allowed refund_pending refunded = true
payment_allowed refund_pending disputed = true
payment_allowed _ _ = false

-- `require_transition` on two order statuses, and on two payment statuses. The mixed case, a
-- `ValueError`, has no counterpart in a typed model.
unfoldable pub require_order_transition : OrderStatus → OrderStatus → Result (Unit {0})
require_order_transition current target =
    require (order_allowed current target) invalid_commerce_transition

unfoldable pub require_payment_transition : PaymentStatus → PaymentStatus → Result (Unit {0})
require_payment_transition current target =
    require (payment_allowed current target) invalid_commerce_transition

-- `current is target`
abbrev pub same_order_status : OrderStatus → OrderStatus → Bool
same_order_status checkout_pending checkout_pending = true
same_order_status payment_pending payment_pending = true
same_order_status queued queued = true
same_order_status running running = true
same_order_status delivered delivered = true
same_order_status payment_failed payment_failed = true
same_order_status fulfillment_failed fulfillment_failed = true
same_order_status cancelled cancelled = true
same_order_status _ _ = false

abbrev pub same_payment_status : PaymentStatus → PaymentStatus → Bool
same_payment_status pending pending = true
same_payment_status captured captured = true
same_payment_status available available = true
same_payment_status refund_pending refund_pending = true
same_payment_status refunded refunded = true
same_payment_status disputed disputed = true
same_payment_status failed failed = true
same_payment_status _ _ = false

-- What any number of transitions can lead to.
pub data OrderReach (s : OrderStatus) : OrderStatus → Type 0 where
  here : OrderReach s s
  next : {t u : OrderStatus} → OrderReach s t → order_allowed t u ≡ true → OrderReach s u

pub data PaymentReach (s : PaymentStatus) : PaymentStatus → Type 0 where
  here : PaymentReach s s
  next : {t u : PaymentStatus} → PaymentReach s t → payment_allowed t u ≡ true → PaymentReach s u

pub OrderReach-trans : {s t u : OrderStatus} → OrderReach s t → OrderReach t u → OrderReach s u
OrderReach-trans r OrderReach.here = r
OrderReach-trans r (OrderReach.next q h) = OrderReach.next (OrderReach-trans r q) h

pub PaymentReach-trans :
    {s t u : PaymentStatus} → PaymentReach s t → PaymentReach t u → PaymentReach s u
PaymentReach-trans r PaymentReach.here = r
PaymentReach-trans r (PaymentReach.next q h) = PaymentReach.next (PaymentReach-trans r q) h

-- How far along its path an order is.
abbrev pub order_rank : OrderStatus → ℕ
order_rank checkout_pending = 0
order_rank payment_pending = 1
order_rank queued = 2
order_rank running = 3
order_rank _ = 4

order_allowed-rank : (s t : OrderStatus) → order_allowed s t ≡ true → order_rank s < order_rank t
order_allowed-rank checkout_pending t h = ground arith
order_allowed-rank s t h = ground arith

-- Along any transitions the rank of an order does not fall.
OrderReach-le : {s t : OrderStatus} → OrderReach s t → order_rank s ≤ order_rank t
OrderReach-le OrderReach.here = omega arith
OrderReach-le {s} (OrderReach.next {t} {u} r h) =
    omega (arith, OrderReach-le r, order_allowed-rank t u h)

-- A transition of an order raises its rank above that of every status from which the order came by any transitions: there are no cycles, and no status is left and entered again.
pub OrderReach-rank :
    {s t : OrderStatus} (u : OrderStatus)
    → OrderReach s t
    → order_allowed t u ≡ true
    → order_rank s < order_rank u
OrderReach-rank {s} {t} u r h = omega (arith, OrderReach-le r, order_allowed-rank t u h)

abbrev pub is_final : OrderStatus → Bool
is_final delivered = true
is_final payment_failed = true
is_final fulfillment_failed = true
is_final cancelled = true
is_final _ = false

-- From a final status nothing else is reached.
pub OrderReach-final : {s t : OrderStatus} → is_final s ≡ true → OrderReach s t → s ≡ t
OrderReach-final f OrderReach.here = refl
OrderReach-final {s} f (OrderReach.next {t} {u} r h) = final_step s t u f (OrderReach-final f r) h
  where
    final_step :
        (s t u : OrderStatus) → is_final s ≡ true → s ≡ t → order_allowed t u ≡ true → s ≡ u
    final_step delivered t u f e h = ground arith
    final_step s t u f e h = ground arith
