-- ===== src/Stripe/Reconcile.antt =====
-- `_emit`, `_order_id_for_event` and `reconcile_order` of stripe_payments.py. The long method is cut
-- where it asks Stripe for the next object.
use Prim.Native.String.{◌++◌ as ◌<>◌}
use vouchspec.Base.{eqb, true, leb, ◌==◌, if◌then◌else◌, some, none, Option, String, ℕ}
use vouchspec.Store.Tables.{Order, live, sandbox, Environment}
use vouchspec.Stripe.Service.{◌>>◌, ◌>>=◌, transact, utc_now, query, lift, Method, Adapter}
use vouchspec.Store.Orders.{take_text}
use vouchspec.Json.{at_text, at_is_text, get, Fields, end, int, field, object, text, null, Json}
use vouchspec.Base.Int.{pos}
use vouchspec.Store.Views.{OrderView}
use vouchspec.Stripe.Objects.{is_bool_at, epoch_time, parse_time}
use vouchspec.Errors.{binding_error, or_raise, invalid_stripe_object, require, ok}
use vouchspec.Store.Reconcile.{ingest_provider_event}
use vouchspec.Stripe.Webhooks.{record_reconciliation}

abbrev environment_name : Environment → String
environment_name sandbox = "sandbox"
environment_name live = "live"

abbrev event_prefix : Environment → String
event_prefix sandbox = "evt_test_"
event_prefix live = "evt_"

-- The identifier of a derived event; the time of the event is no part of it.
unfoldable pub emitted_id : Adapter → Environment → String → String → String → ℕ → String
emitted_id a e order_id type reference fee =
    event_prefix e
    <> take_text 24 (
        a.platform.sha256
          ("stripe\0" <> order_id <> "\0" <> type <> "\0" <> reference <> "\0" <> a.decimal fee))

abbrev nullable : Option String → Json
nullable none = null
nullable (some s) = text s

-- The event that `_emit` gives to the store.
unfoldable pub emitted : Adapter → Environment → Order → String → String → ℕ → String → Json
emitted a e o type reference fee occurred_at = object (
    field "schema_version" (text "1.0.0") (
      field "provider" (text "stripe") (
        field "environment" (text (environment_name e)) (
          field "event_id" (text (emitted_id a e o.order_id type reference fee)) (
            field "type" (text type) (
              field "payment_id" (nullable o.provider_payment_id) (
                field "amount_minor" (int (pos o.quoted_amount_minor)) (
                  field "fee_minor" (int (pos (if type == "payment.captured" then fee else 0))) (
                    field "currency" (text o.currency)
                      (field "occurred_at" (text occurred_at) end))))))))))

-- `_emit`
unfoldable pub emit : Adapter → OrderView → String → String → ℕ → String → Method OrderView
emit a view type reference fee occurred_at = do
  lift (parse_time a.platform occurred_at)
  e ← query (λ db. ok db.environment)
  received ← utc_now a
  let value = emitted a e view.order type reference fee occurred_at
  result ← transact (ingest_provider_event a.platform value received)
  lift (ok result.order)

-- What `reconcile_order` returns.
pub record Reconciled : Type 0 where
  pub state : String
  pub order : OrderView

abbrev pub outcome : String → OrderView → Method Reconciled
outcome state view = lift (ok (record { state = state; order = view }))

-- The objects of the payment chain, once their checks have passed.
pub record Chain : Type 0 where
  pub checkout : Fields
  pub payment_id : String
  pub payment : Fields
  pub charge_id : String
  pub charge : Fields
  pub refunded : ℕ
  pub balance_id : String
  pub balance : Fields
  pub amount : ℕ
  pub fee : ℕ

abbrev member : String → Fields → Json
member k fs = elim (get k fs) [ none ↦ null | some j ↦ j ]

-- The dictionary `snapshot`.
unfoldable pub snapshot : Chain → Json
snapshot c = object (
    field "checkout_id" (member "id" c.checkout) (
      field "payment_id" (text c.payment_id) (
        field "payment_status" (member "status" c.payment) (
          field "charge_id" (text c.charge_id) (
            field "amount_refunded" (int (pos c.refunded)) (
              field "disputed" (member "disputed" c.charge) (
                field "balance_transaction_id" (text c.balance_id) (
                  field "balance_amount" (int (pos c.amount)) (
                    field "balance_fee" (int (pos c.fee)) (
                      field "balance_net" (member "net" c.balance) (
                        field "balance_status" (member "status" c.balance)
                          (field "available_on" (member "available_on" c.balance) end))))))))))))

-- Available funds are an event, unless their time is still to come.
unfoldable pub emit_available : Adapter → ℕ → Chain → OrderView → Method OrderView
emit_available a current c view = do
  available_at ← lift (epoch_time a.platform (get "available_on" c.balance))
  if at_is_text "status" "available" c.balance
      then (do
        t ← lift (parse_time a.platform available_at)
        lift (require (leb t current) invalid_stripe_object)
        emit a view "payment.available" c.balance_id 0 available_at)
      else lift (ok view)

-- A dispute, a full refund, or neither.
unfoldable pub emit_state : Adapter → Chain → OrderView → Method Reconciled
emit_state a c view =
    if is_bool_at "disputed" true c.charge
    then (do
      t ← utc_now a
      after ← emit a view "payment.disputed" c.charge_id 0 t
      outcome "disputed" after)
    else if eqb c.refunded view.order.quoted_amount_minor
    then (do
      t ← utc_now a
      pending ← emit a view "payment.refund_pending" c.charge_id 0 t
      u ← utc_now a
      after ← emit a pending "payment.refunded" c.charge_id 0 u
      outcome "refunded" after)
    else outcome (if at_is_text "status" "available" c.balance then "available" else "pending") view

-- The events of a chain, and the row that records its snapshot.
unfoldable pub settle_chain : Adapter → Option String → ℕ → Chain → OrderView → Method Reconciled
settle_chain a source current c view = do
  captured_at ← lift (epoch_time a.platform (get "created" c.charge))
  captured ← emit a view "payment.captured" c.balance_id c.fee captured_at
  settled ← emit_available a current c captured
  result ← emit_state a c settled
  checkout_id ← lift (or_raise (at_text "id" c.checkout) binding_error)
  record_reconciliation (record {
    order_id = view.order.order_id;
    source_event_id = source;
    checkout_id = checkout_id;
    payment_id = c.payment_id;
    charge_id = c.charge_id;
    balance_transaction_id = c.balance_id;
    snapshot_digest = a.platform.sha256 (a.platform.dumps (snapshot c));
    payment_state = result.state;
    observed_at = a.platform.isoformat current;
  })
  lift (ok result)
