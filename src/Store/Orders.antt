-- ===== src/Store/Orders.antt =====
-- `create_order`, `attach_checkout` and `bind_provider_payment` of commerce_store.py.
use Prim.Native.String.{◌++◌ as ◌<>◌}
use vouchspec.Base.{
  ℕ, String, Bool, true, false, not, ◌&&◌, ◌||◌, Option, none, some, List, [], ◌∷◌, ◌++◌, ltb, ◌==◌,
  if◌then◌else◌, same_text, is_some, starts_with,
}
use vouchspec.Base.Lists.{any}
use vouchspec.Errors.{
  Result, ok, ◌>>=◌, ◌>>◌, require, reject, or_raise, invalid_commerce_request,
  invalid_commerce_event, idempotency_conflict, quote_not_orderable, quote_expired,
  quote_already_used,
}
use vouchspec.Text.{
  is_idempotency_key, is_buyer, is_fake_payment_id, is_stripe_checkout_id, is_stripe_payment_id,
}
use vouchspec.Platform.{Platform, Moment, aware, parse_timestamp}
use vouchspec.Commerce.Status.{checkout_pending, payment_pending, pending, require_order_transition}
use vouchspec.Commerce.Quote.{PaymentOption}
use vouchspec.Store.Tables.{
  Environment, sandbox, live, same_environment, QuoteRow, Provider, fake, stripe, same_provider,
  Order, not_started, Db, order_change, find_order, update_order, require_order, add_history, taken,
}
use vouchspec.Store.Views.{OrderView, order_view}
use vouchspec.Table.{find}

-- The first `n` characters of a text.
unfoldable pub take_text : ℕ → String → String
take_text ℕ.zero s = String.[]
take_text (ℕ.suc n) String.[] = String.[]
take_text (ℕ.suc n) (String.◌∷◌ c s) = String.◌∷◌ c (take_text n s)

-- `order_prefix + sha256(quote_id \0 idempotency_key \0 buyer_reference)[:24]`
unfoldable pub order_id_of : Platform → Environment → String → String → String → String
unfolding take_text
order_id_of p e quote_id idempotency_key buyer_reference =
    elim e [ sandbox ↦ "ord_test_" | live ↦ "ord_" ]
    <> take_text 24 (p.sha256 (quote_id <> "\0" <> idempotency_key <> "\0" <> buyer_reference))

-- The provider that the quote's `payment_options` name.
unfoldable pub quoted_provider : List PaymentOption → Option Provider
quoted_provider (o ∷ []) =
    if o.provider == "fake" && o.status == "sandbox_only"
    then some fake
    else if o.provider == "stripe_checkout"
    then some stripe
    else none
quoted_provider _ = none

-- `provider is None or (self.environment == "live" and provider != "stripe")`
abbrev accepted_provider : Environment → Option Provider → Option Provider
accepted_provider e none = none
accepted_provider live (some fake) = none
accepted_provider e (some p) = some p

-- The row that `create_order` inserts.
unfoldable pub new_order :
    Environment → String → QuoteRow → String → String → Provider → String → Order
new_order e order_id quote idempotency_key buyer_reference provider timestamp = record {
  order_id = order_id;
  environment = e;
  quote_id = quote.quote_id;
  idempotency_key = idempotency_key;
  buyer_reference = buyer_reference;
  provider = provider;
  provider_checkout_id = none;
  provider_payment_id = none;
  order_status = checkout_pending;
  payment_status = pending;
  quoted_amount_minor = quote.amount_minor;
  collected_amount_minor = 0;
  refunded_amount_minor = 0;
  processing_fee_minor = 0;
  currency = quote.currency;
  direct_costs_recorded = false;
  receipt_id = none;
  receipt_sha256 = none;
  envelope_sha256 = none;
  signing_keyid = none;
  delivery_status = not_started;
  counts_for_goal = false;
  created_at = timestamp;
  updated_at = timestamp;
}

-- The UNIQUE and PRIMARY KEY constraints on a new order.
abbrev conflicts : Order → Order → Bool
conflicts o x =
    x.order_id == o.order_id || x.quote_id == o.quote_id || x.idempotency_key == o.idempotency_key

unfoldable pub insert_order : Order → Db → Result Db
insert_order o db = do
  reject (is_some (find_order o.order_id db.orders) || any (conflicts o) db.orders)
      quote_already_used
  ok (record db { orders = db.orders ++ o ∷ [] })

-- The order behind an idempotency key must be for the same quote and buyer.
unfoldable pub replay_order : String → String → Order → Db → Result (OrderView × Db)
replay_order quote_id buyer_reference existing db = do
  require (existing.quote_id == quote_id && existing.buyer_reference == buyer_reference)
      idempotency_conflict
  view ← order_view existing.order_id db
  ok (view, db)

-- A new order on an orderable quote of this environment that has not expired.
unfoldable pub place_order : Platform → String → String → String → ℕ → Db → Result (OrderView × Db)
place_order p quote_id idempotency_key buyer_reference now db = do
  quote ← or_raise (find (λ (q : QuoteRow). q.quote_id) quote_id db.quotes) quote_not_orderable
  require (same_environment quote.environment db.environment && quote.orderable) quote_not_orderable
  expiry ← parse_timestamp p invalid_commerce_event quote.expires_at
  require (ltb now expiry) quote_expired
  provider ←
      or_raise (accepted_provider db.environment (quoted_provider quote.document.payment_options))
        quote_not_orderable
  let order_id = order_id_of p db.environment quote_id idempotency_key buyer_reference
  let timestamp = p.isoformat now
  inserted ←
      insert_order
        (new_order db.environment order_id quote idempotency_key buyer_reference provider timestamp)
        db
  let after =
      add_history order_id (order_change none checkout_pending) idempotency_key timestamp inserted
  view ← order_view order_id after
  ok (view, after)

abbrev pub order_of_key : String → List Order → Option Order
order_of_key k [] = none
order_of_key k (o ∷ os) = if o.idempotency_key == k then some o else order_of_key k os

unfoldable pub create_order :
    Platform → String → String → String → Moment → Db → Result (OrderView × Db)
create_order p quote_id idempotency_key buyer_reference now db = do
  require (is_idempotency_key idempotency_key) invalid_commerce_request
  require (is_buyer buyer_reference) invalid_commerce_request
  now_utc ← aware invalid_commerce_request now
  elim (order_of_key idempotency_key db.orders) [
    | some existing ↦ replay_order quote_id buyer_reference existing db
    | none ↦ place_order p quote_id idempotency_key buyer_reference now_utc db
  ]

-- The identity checks of `attach_checkout`; the result is the payment to bind.
unfoldable pub checkout_payment :
    Environment → Provider → String → Option String → Result (Option String)
checkout_payment e fake checkout_id payment_id = do
  require
      (same_environment e sandbox
        && is_fake_payment_id checkout_id
        && elim payment_id [ none ↦ true | some x ↦ x == checkout_id ])
      invalid_commerce_request
  ok (some checkout_id)
checkout_payment e stripe checkout_id payment_id = do
  require
      (is_stripe_checkout_id checkout_id
        && starts_with checkout_id (elim e [ sandbox ↦ "cs_test_" | live ↦ "cs_live_" ]))
      invalid_commerce_request
  require (elim payment_id [ none ↦ true | some x ↦ is_stripe_payment_id x ])
      invalid_commerce_request
  ok payment_id

-- The SET clause of `attach_checkout`.
abbrev pub attached : String → Option String → String → Order → Order
attached checkout_id payment_id occurred_at o = record o {
  provider_checkout_id = some checkout_id;
  provider_payment_id = payment_id;
  order_status = payment_pending;
  updated_at = occurred_at;
}

-- An order that has no checkout yet gets one and waits for its payment.
unfoldable pub attach_new : Order → String → Option String → String → Db → Result (OrderView × Db)
attach_new order checkout_id payment occurred_at db = do
  require_order_transition order.order_status payment_pending
  reject
      (taken (λ o. o.provider_payment_id) order.order_id payment db.orders
        || taken (λ o. o.provider_checkout_id) order.order_id (some checkout_id) db.orders)
      idempotency_conflict
  let after =
      add_history order.order_id (order_change (some order.order_status) payment_pending)
        checkout_id occurred_at
        (update_order order.order_id (attached checkout_id payment occurred_at) db)
  view ← order_view order.order_id after
  ok (view, after)

unfoldable pub attach_checkout :
    Platform → String → String → String → Option String → Db → Result (OrderView × Db)
attach_checkout p order_id checkout_id occurred_at payment_id db = do
  parse_timestamp p invalid_commerce_event occurred_at
  order ← require_order order_id db
  payment ← checkout_payment db.environment order.provider checkout_id payment_id
  if is_some order.provider_checkout_id
      then (do
        require
            (same_text order.provider_checkout_id (some checkout_id)
              && (not (is_some payment) || same_text order.provider_payment_id payment))
            idempotency_conflict
        view ← order_view order_id db
        ok (view, db))
      else attach_new order checkout_id payment occurred_at db

abbrev pub bound : String → String → Order → Order
bound payment_id occurred_at o = record o {
  provider_payment_id = some payment_id;
  updated_at = occurred_at;
}

unfoldable pub bind_provider_payment :
    Platform → String → String → String → String → Db → Result (OrderView × Db)
bind_provider_payment p order_id payment_id checkout_id occurred_at db = do
  require (is_stripe_payment_id payment_id) invalid_commerce_request
  parse_timestamp p invalid_commerce_event occurred_at
  order ← require_order order_id db
  require
      (same_provider order.provider stripe
        && same_text order.provider_checkout_id (some checkout_id))
      idempotency_conflict
  if is_some order.provider_payment_id
      then (do
        require (same_text order.provider_payment_id (some payment_id)) idempotency_conflict
        view ← order_view order_id db
        ok (view, db))
      else (do
        reject (taken (λ o. o.provider_payment_id) order_id (some payment_id) db.orders)
            idempotency_conflict
        let after = update_order order_id (bound payment_id occurred_at) db
        view ← order_view order_id after
        ok (view, after))
