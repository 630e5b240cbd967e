-- ===== src/Stripe/Retrieval.antt =====
-- `reconcile_order` and `_order_id_for_event` of stripe_payments.py: the chain of objects that is
-- retrieved for an order, from its Checkout Session to the BalanceTransaction.
use vouchspec.Base.{
  starts_with, true, none, some, if◌then◌else◌, ◌||◌, Bool, eqb, String, Option, ℕ,
}
use vouchspec.Stripe.Service.{
  ◌>>◌, ◌>>=◌, retrieve_dispute, retrieve_checkout, query, now, retrieve_payment, transact, utc_now,
  retrieve_balance, retrieve_charge, ask, lift, Method, Adapter,
}
use vouchspec.Json.{at_text, text, Json, at_is_text, get, Fields}
use vouchspec.Store.Views.{get_quote, get_order, OrderView}
use vouchspec.Stripe.Reconcile.{outcome, emit, settle_chain, Reconciled}
use vouchspec.Stripe.Objects.{
  metadata, present, epoch_time, hashable_at, reference_id, largest_amount, bounded_int,
}
use vouchspec.Errors.{
  ok, invalid_stripe_object, invalid_stripe_event, unknown_order, invalid_commerce_request, err,
  unknown_provider_payment, or_raise, Result, type_error, stripe_amount_mismatch, require,
}
use vouchspec.Text.{
  is_dispute_id, is_stripe_checkout_id, is_order_id, is_stripe_payment_id, is_balance_id,
  is_charge_id,
}
use vouchspec.Stripe.Checks.{validate_checkout, check_intent, check_balance, check_charge}
use vouchspec.Store.Tables.{stripe, same_provider, Order}
use vouchspec.Store.Orders.{bind_provider_payment}
use vouchspec.Platform.{aware, Moment}

-- From the PaymentIntent that succeeded to the recorded chain.
unfoldable pub reconcile_charge :
    Adapter → Option String → ℕ → Fields → OrderView → String → Fields → Method Reconciled
reconcile_charge a source current session view payment_id payment = do
  received ← lift (bounded_int largest_amount (get "amount_received" payment))
  lift (require (eqb received view.order.quoted_amount_minor) stripe_amount_mismatch)
  charge_id ← lift (reference_id is_charge_id (get "latest_charge" payment))
  charge ← ask a (retrieve_charge charge_id)
  refunded ← lift (check_charge a view.order payment_id charge_id charge)
  balance_id ← lift (reference_id is_balance_id (get "balance_transaction" charge))
  balance ← ask a (retrieve_balance balance_id)
  (amount, fee) ← lift (check_balance a view.order charge_id balance_id balance)
  settle_chain a source current
      (record {
        checkout = session;
        payment_id = payment_id;
        payment = payment;
        charge_id = charge_id;
        charge = charge;
        refunded = refunded;
        balance_id = balance_id;
        balance = balance;
        amount = amount;
        fee = fee;
      })
      view

-- `payment_status in {"canceled", "requires_payment_method"}`
abbrev pub failed_status : Fields → Bool
failed_status payment =
    at_is_text "status" "canceled" payment || at_is_text "status" "requires_payment_method" payment

-- The PaymentIntent that the Checkout Session names.
unfoldable pub reconcile_intent :
    Adapter → Option String → ℕ → Fields → Order → String → Json → Method Reconciled
reconcile_intent a source current session order checkout_id payment_reference = do
  payment_id ← lift (reference_id is_stripe_payment_id (some payment_reference))
  t ← utc_now a
  view ← transact (bind_provider_payment a.platform order.order_id payment_id checkout_id t)
  payment ← ask a (retrieve_payment payment_id)
  lift (check_intent a view.order payment_id payment)
  lift (require (hashable_at "status" payment) type_error)
  if failed_status payment
      then (do
        created ← lift (epoch_time a.platform (get "created" payment))
        after ← emit a view "payment.failed" payment_id 0 created
        outcome "failed" after)
      else if at_is_text "status" "succeeded" payment
      then reconcile_charge a source current session view payment_id payment
      else outcome "pending_payment" view

-- The checkout of an order that is attached to Stripe.
abbrev attached_checkout : Order → Result String
attached_checkout o =
    if same_provider o.provider stripe
    then or_raise o.provider_checkout_id unknown_provider_payment
    else err unknown_provider_payment

abbrev pub without_payment : Fields → String
without_payment session =
    if at_is_text "status" "expired" session
    then "expired_without_payment_intent"
    else "pending_payment_intent"

-- `observed_at or datetime.now(timezone.utc)`, with a timezone.
unfoldable pub observed : Adapter → Option Moment → Method ℕ
observed a none = now a
observed a (some m) = lift (aware invalid_commerce_request m)

-- `reconcile_order`
unfoldable pub reconcile_order :
    Adapter → String → Option String → Option Moment → Method Reconciled
reconcile_order a order_id source observed_at = do
  lift (require (is_order_id order_id) unknown_order)
  current ← observed a observed_at
  view ← query (get_order order_id)
  checkout_id ← lift (attached_checkout view.order)
  quote ← query (get_quote view.order.quote_id)
  session ← ask a (retrieve_checkout checkout_id)
  lift (validate_checkout a session view.order quote true)
  elim (present "payment_intent" session) [
    | none ↦ outcome (without_payment session) view
    | some j ↦ reconcile_intent a source current session view.order checkout_id j
  ]

-- The metadata of the PaymentIntent of a charge.
unfoldable pub metadata_of_charge : Adapter → String → Method Fields
metadata_of_charge a charge_id = do
  charge ← ask a (retrieve_charge charge_id)
  payment_id ← lift (reference_id is_stripe_payment_id (get "payment_intent" charge))
  payment ← ask a (retrieve_payment payment_id)
  lift (metadata (get "metadata" payment))

-- The metadata that an event leads to.
unfoldable pub metadata_of_event : Adapter → String → String → Method Fields
metadata_of_event a type object_id =
    if starts_with type "checkout.session."
    then (do
      session_id ← lift (reference_id is_stripe_checkout_id (some (text object_id)))
      session ← ask a (retrieve_checkout session_id)
      lift (metadata (get "metadata" session)))
    else if starts_with type "payment_intent."
    then (do
      payment_id ← lift (reference_id is_stripe_payment_id (some (text object_id)))
      payment ← ask a (retrieve_payment payment_id)
      lift (metadata (get "metadata" payment)))
    else if starts_with type "charge.dispute."
    then (do
      dispute_id ← lift (reference_id is_dispute_id (some (text object_id)))
      dispute ← ask a (retrieve_dispute dispute_id)
      charge_id ← lift (reference_id is_charge_id (get "charge" dispute))
      metadata_of_charge a charge_id)
    else if starts_with type "charge."
    then (do
      charge_id ← lift (reference_id is_charge_id (some (text object_id)))
      metadata_of_charge a charge_id)
    else lift (err invalid_stripe_event)

-- `_order_id_for_event`
unfoldable pub order_id_for_event : Adapter → String → String → Method String
order_id_for_event a type object_id = do
  meta ← metadata_of_event a type object_id
  order_id ← lift (or_raise (at_text "vouchspec_order_id" meta) invalid_stripe_object)
  lift (require (is_order_id order_id) invalid_stripe_object)
  lift (ok order_id)
