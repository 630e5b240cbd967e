-- ===== src/Stripe/Notices.antt =====
-- The pure parts of checkouts and webhooks in stripe_payments.py: what is sent for a Checkout
-- Session, what is shown of it, and what is read of a signed event.
use Prim.Native.String.{◌++◌ as ◌<>◌}
use vouchspec.Base.{ℕ, ◌&&◌, is_some, not, leb, some, true, Bool, String, ℕ}
use vouchspec.Store.Tables.{Order, live, sandbox, Environment}
use vouchspec.Store.Views.{OrderView}
use vouchspec.Json.{
  at_is_text, at_text, nil, cons, array, int, end, text, field, object, get, Fields, Json,
}
use vouchspec.Stripe.Service.{Adapter}
use vouchspec.Errors.{
  ◌>>◌, ◌>>=◌, require, invalid_webhook_signature, invalid_stripe_event, ok, key_error, or_raise,
  Result,
}
use vouchspec.Stripe.Objects.{present, reference_id, as_dict, is_bool_at, epoch_time}
use vouchspec.Base.Int.{pos}
use vouchspec.Text.{is_object_id, codes, is_stripe_event_id}
use vouchspec.Base.Lists.{length}

abbrev environment_name : Environment → String
environment_name sandbox = "sandbox"
environment_name live = "live"

-- `_checkout_view`
pub record CheckoutView : Type 0 where
  pub order : OrderView
  pub checkout_id : Json
  pub url : Json
  pub expires_at : String
  pub livemode : Bool

unfoldable pub checkout_view : Adapter → OrderView → Fields → Result CheckoutView
checkout_view a view session = do
  id ← or_raise (get "id" session) key_error
  url ← or_raise (get "url" session) key_error
  expires_at ← epoch_time a.platform (get "expires_at" session)
  ok (record {
    order = view;
    checkout_id = id;
    url = url;
    expires_at = expires_at;
    livemode = is_bool_at "livemode" true session;
  })

abbrev order_metadata : Adapter → Order → Json
order_metadata a o = object (
    field "vouchspec_order_id" (text o.order_id) (
      field "vouchspec_quote_id" (text o.quote_id)
        (field "vouchspec_account_id" (text a.account_id) end)))

abbrev product : Json
product = object (
    field "name" (text "VouchSpec fresh exact-version static validation") (
      field "description" (text "Signed static evidence for one immutable public Agent Skill") end))

abbrev line_item : Order → Json
line_item o = object (
    field "price_data"
      (object (
        field "currency" (text o.currency) (
          field "unit_amount" (int (pos o.quoted_amount_minor))
            (field "product_data" product end))))
      (field "quantity" (int (pos 1)) end))

-- The parameters of the Checkout Session that is created.
unfoldable pub checkout_params : Adapter → Order → ℕ → Json
checkout_params a o expires_at = object (
    field "mode" (text "payment") (
      field "client_reference_id" (text o.order_id) (
        field "success_url" (text a.success_url) (
          field "cancel_url" (text a.cancel_url) (
            field "expires_at" (int (pos expires_at)) (
              field "payment_method_types" (array (cons (text "card") nil)) (
                field "metadata" (order_metadata a o) (
                  field "payment_intent_data" (object (field "metadata" (order_metadata a o) end))
                    (field "line_items" (array (cons (line_item o) nil)) end)))))))))

-- The idempotency key of the creation: one for each order.
unfoldable pub checkout_key : Adapter → Environment → Order → String
checkout_key a e o =
    "vouchspec_"
    <> a.platform.sha256
        (environment_name e <> "\0" <> a.account_id <> "\0" <> o.order_id <> "\0" <> o.quote_id)

-- What is kept of an event: identifier, type and object.
pub record Notice : Type 0 where
  pub event_id : String
  pub event_type : String
  pub object_id : String

-- The signature, verified at a time, and the checks of the event.
unfoldable pub read_event : Adapter → ℕ → String → String → Result Notice
read_event a time body header = do
  require (leb 1 (length (codes body)) && leb (length (codes body)) 64_000)
      invalid_webhook_signature
  require (leb 1 (length (codes header)) && leb (length (codes header)) 1_024)
      invalid_webhook_signature
  value ← or_raise (a.construct_event time body header a.webhook_secret) invalid_webhook_signature
  event ← as_dict (some value)
  event_id ← reference_id is_stripe_event_id (get "id" event)
  event_type ← or_raise (at_text "type" event) invalid_stripe_event
  require
      (leb 1 (length (codes event_type))
        && leb (length (codes event_type)) 128
        && at_is_text "api_version" "2026-06-24.dahlia" event
        && is_bool_at "livemode" a.live_mode event
        && not (is_some (present "account" event))
        && not (is_some (present "context" event)))
      invalid_stripe_event
  payload ← as_dict (get "data" event)
  event_object ← as_dict (get "object" payload)
  object_id ← reference_id is_object_id (get "id" event_object)
  ok (record { event_id = event_id; event_type = event_type; object_id = object_id })
