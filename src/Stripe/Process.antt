-- ===== src/Stripe/Process.antt =====
-- `prepare_checkout`, `prepare_order_checkout` and `process_webhook` of stripe_payments.py.
use vouchspec.Base.{
  not, if◌then◌else◌, [], ◌∷◌, List, some, none, Option, false, true, Bool, String, ℕ,
}
use vouchspec.Errors.{
  require, invalid_commerce_request, Result, err, ok, stripe_api_error, stripe_error, Error,
}
use vouchspec.Stripe.Service.{
  now, ◌>>◌, ◌>>=◌, utc_now, processed, ignored, is_input_rejected, retryable, rejected,
  WebhookStatus, retrieve_checkout, transact, create_checkout, ask, catching, query, lift, Method,
  Adapter,
}
use vouchspec.Store.Views.{get_quote, get_order, OrderView}
use vouchspec.Commerce.Quote.{QuoteDocument}
use vouchspec.Json.{Json, get, Fields}
use vouchspec.Stripe.Objects.{present, reference_id, epoch_of}
use vouchspec.Stripe.Notices.{
  read_event, Notice, checkout_view, CheckoutView, checkout_key, checkout_params,
}
use vouchspec.Stripe.Checks.{validate_checkout}
use vouchspec.Text.{is_idempotency_key, is_stripe_payment_id, is_stripe_checkout_id}
use vouchspec.Store.Orders.{create_order, attach_checkout}
use vouchspec.Platform.{aware, Moment}
use vouchspec.Store.Tables.{stripe, same_provider}
use vouchspec.Store.Quotes.{create_quote}
use vouchspec.Commerce.Status.{PaymentStatus}
use vouchspec.Stripe.Reconcile.{Reconciled}
use vouchspec.Stripe.Retrieval.{reconcile_order, order_id_for_event}
use vouchspec.Stripe.Webhooks.{reserve_webhook, Reservation, finish_webhook}
use vouchspec.Base.Lists.{contains}

abbrev pub is_stripe_error : Error → Bool
is_stripe_error stripe_error = true
is_stripe_error _ = false

-- `stripe.StripeError` becomes an `InputRejected`.
abbrev api_error : Error → Error
api_error stripe_error = stripe_api_error
api_error e = e

-- An order without a checkout gets one.
unfoldable pub create_order_checkout :
    Adapter → ℕ → OrderView → QuoteDocument → Method (OrderView × Fields)
create_order_checkout a observed_at view quote = do
  expires_at ← lift (epoch_of a.platform quote.expires_at)
  e ← query (λ db. ok db.environment)
  session ←
      catching
        (ask a
          (create_checkout (checkout_params a view.order expires_at) (checkout_key a e view.order)))
        (λ x. lift (err (api_error x)))
  lift (validate_checkout a session view.order quote false)
  checkout_id ← lift (reference_id is_stripe_checkout_id (get "id" session))
  payment_id ← lift (payment_of (present "payment_intent" session))
  after ← transact (
      attach_checkout a.platform view.order.order_id checkout_id (a.platform.isoformat observed_at)
        payment_id)
  lift (ok (after, session))
  where
    payment_of : Option Json → Result (Option String)
    payment_of none = ok none
    payment_of (some j) = require_payment (reference_id is_stripe_payment_id (some j))
      where
        require_payment : Result String → Result (Option String)
        require_payment (ok s) = ok (some s)
        require_payment (err x) = err x

-- `prepare_order_checkout`
unfoldable pub prepare_order_checkout : Adapter → String → Moment → Method CheckoutView
prepare_order_checkout a order_id moment = do
  observed_at ← lift (aware invalid_commerce_request moment)
  view ← query (get_order order_id)
  quote ← query (get_quote view.order.quote_id)
  lift (require (same_provider view.order.provider stripe) invalid_commerce_request)
  elim view.order.provider_checkout_id [
    | some checkout_id ↦ (do
      session ← ask a (retrieve_checkout checkout_id)
      lift (validate_checkout a session view.order quote false)
      lift (checkout_view a view session))
    | none ↦ (do
      (after, session) ← create_order_checkout a observed_at view quote
      lift (checkout_view a after session))
  ]

-- `prepare_checkout`
unfoldable pub prepare_checkout :
    Adapter → Json → String → String → String → Moment → Method CheckoutView
prepare_checkout a request quote_id key buyer moment = do
  lift (require (is_idempotency_key key) invalid_commerce_request)
  quote ←
      transact (create_quote a.platform request quote_id moment "stripe" a.live_checkout_enabled)
  view ← transact (create_order a.platform quote.quote_id key buyer moment)
  prepare_order_checkout a view.order.order_id moment

-- What `process_webhook` returns.
pub record Processed : Type 0 where
  pub event_id : String
  pub duplicate : Bool
  pub status : WebhookStatus
  pub order_id : Option String
  pub payment_status : Option PaymentStatus

-- `_WEBHOOK_TYPES`
abbrev pub webhook_types : List String
webhook_types =
    "checkout.session.completed" ∷ "checkout.session.async_payment_succeeded"
    ∷ "checkout.session.async_payment_failed" ∷ "payment_intent.succeeded"
    ∷ "payment_intent.payment_failed" ∷ "charge.succeeded" ∷ "charge.refunded"
    ∷ "charge.dispute.created" ∷ "charge.dispute.closed" ∷ []

-- The reconciliation that an event asks for, with the status that the event gets when it fails.
unfoldable pub reconcile_event : Adapter → Notice → String → Method (String × Reconciled)
reconcile_event a n received =
    catching
      (do
        order_id ← order_id_for_event a n.event_type n.object_id
        result ← reconcile_order a order_id (some n.event_id) none
        lift (ok (order_id, result)))
      (λ e. refuse e)
  where
    refuse : Error → Method (String × Reconciled)
    refuse e =
        if is_input_rejected e
        then (do finish_webhook n.event_id rejected received none; lift (err e))
        else if is_stripe_error e
        then (do finish_webhook n.event_id retryable received none; lift (err stripe_api_error))
        else lift (err e)

-- What is returned of an event.
abbrev pub told : Notice → Bool → WebhookStatus → Option String → Option PaymentStatus → Processed
told n duplicate status order_id payment_status = record {
  event_id = n.event_id;
  duplicate = duplicate;
  status = status;
  order_id = order_id;
  payment_status = payment_status;
}

-- An event of a type that is not served.
unfoldable pub ignore_event : Notice → String → Method Processed
ignore_event n received = do
  finish_webhook n.event_id ignored received none
  lift (ok (told n false ignored none none))

-- An event of a type that is served.
unfoldable pub settle_event : Adapter → Notice → String → Method Processed
settle_event a n received = do
  (order_id, result) ← reconcile_event a n received
  finish_webhook n.event_id processed received (some order_id)
  lift (ok (told n false processed (some order_id) (some result.order.order.payment_status)))

-- The event behind a reservation: a duplicate is reported, another type is ignored, and the rest is
-- reconciled.
unfoldable pub process_reserved : Adapter → Notice → String → Reservation → Method Processed
process_reserved a n received reservation =
    if reservation.duplicate
    then lift (ok (told n true reservation.status reservation.order_id none))
    else if not (contains n.event_type webhook_types)
    then ignore_event n received
    else settle_event a n received

-- `process_webhook`, in which the SDK reads the clock before the method does. Its transactions run
-- without those of other handlers between them.
unfoldable pub process_webhook : Adapter → String → String → Method Processed
process_webhook a body header = do
  time ← now a
  n ← lift (read_event a time body header)
  received ← utc_now a
  reservation ←
      reserve_webhook a.platform n.event_id (a.platform.sha256 body) n.event_type n.object_id
        received
  process_reserved a n received reservation
