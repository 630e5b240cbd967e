-- ===== src/Store/Events.antt =====
-- `_validate_event` of commerce_store.py: a provider event as JSON, checked and typed.
use vouchspec.Base.{
  String, Bool, true, ◌&&◌, Option, none, some, List, [], ◌∷◌, leb, ◌==◌, if◌then◌else◌,
  starts_with,
}
use vouchspec.Errors.{
  Result, ok, ◌>>=◌, ◌>>◌, require, or_raise, invalid_commerce_event, type_error,
}
use vouchspec.Text.{is_event_id, is_fake_payment_id, is_stripe_payment_id}
use vouchspec.Json.{
  Json, Fields, get, has_exactly, as_object, at_text, at_is_text, at_bounded, is_hashable,
}
use vouchspec.Platform.{Platform, parse_timestamp}
use vouchspec.Store.Tables.{
  Environment, sandbox, live, same_environment, Provider, fake, stripe, EventType, payment_captured,
  payment_available, payment_failed, payment_refund_pending, payment_refunded, payment_disputed,
  Event,
}
use vouchspec.Store.Quotes.{provider_named}

abbrev event_keys : List String
event_keys =
    "schema_version" ∷ "provider" ∷ "environment" ∷ "event_id" ∷ "type" ∷ "payment_id"
    ∷ "amount_minor" ∷ "fee_minor" ∷ "currency" ∷ "occurred_at" ∷ []

-- The member of `_EVENT_TYPES` with this name.
abbrev event_type_named : String → Option EventType
event_type_named s =
    if s == "payment.captured"
    then some payment_captured
    else if s == "payment.available"
    then some payment_available
    else if s == "payment.failed"
    then some payment_failed
    else if s == "payment.refund_pending"
    then some payment_refund_pending
    else if s == "payment.refunded"
    then some payment_refunded
    else if s == "payment.disputed"
    then some payment_disputed
    else none

abbrev environment_name : Environment → String
environment_name sandbox = "sandbox"
environment_name live = "live"

abbrev is_hashable_at : String → Fields → Bool
is_hashable_at k fs = elim (get k fs) [ none ↦ true | some j ↦ is_hashable j ]

abbrev named_at {ℓ} : {A : Type ℓ} → (String → Option A) → String → Fields → Option A
named_at f k fs = elim (at_text k fs) [ none ↦ none | some s ↦ f s ]

abbrev text_at : (String → Bool) → String → Fields → Option String
text_at p k fs = elim (at_text k fs) [ none ↦ none | some s ↦ if p s then some s else none ]

-- The identity checks of each provider.
unfoldable pub check_identity : Environment → Provider → String → String → Result (Unit {0})
check_identity e fake event_id payment_id =
    require
      (same_environment e sandbox
        && starts_with event_id "evt_test_"
        && is_fake_payment_id payment_id)
      invalid_commerce_event
check_identity e stripe event_id payment_id =
    require (is_stripe_payment_id payment_id) invalid_commerce_event

-- A list or a mapping as `provider` or `type` is a `TypeError` of the set test; that is the only
-- case that is not an `InputRejected`.
unfoldable pub validate_event : Platform → Environment → Json → Result Event
validate_event p e value = do
  fs ← or_raise (as_object value) invalid_commerce_event
  require (has_exactly event_keys fs) invalid_commerce_event
  require (at_is_text "schema_version" "1.0.0" fs) invalid_commerce_event
  require (is_hashable_at "provider" fs) type_error
  provider ← or_raise (named_at provider_named "provider" fs) invalid_commerce_event
  require (at_is_text "environment" (environment_name e) fs) invalid_commerce_event
  event_id ← or_raise (text_at is_event_id "event_id" fs) invalid_commerce_event
  require (is_hashable_at "type" fs) type_error
  type ← or_raise (named_at event_type_named "type" fs) invalid_commerce_event
  payment_id ← or_raise (at_text "payment_id" fs) invalid_commerce_event
  require (at_is_text "currency" "usd" fs) invalid_commerce_event
  check_identity e provider event_id payment_id
  amount ← or_raise (at_bounded "amount_minor" 0 10_000_000 fs) invalid_commerce_event
  fee ← or_raise (at_bounded "fee_minor" 0 10_000_000 fs) invalid_commerce_event
  require (leb fee amount) invalid_commerce_event
  occurred_at ← or_raise (at_text "occurred_at" fs) invalid_commerce_event
  parse_timestamp p invalid_commerce_event occurred_at
  ok (record {
    event_id = event_id;
    provider = provider;
    type = type;
    payment_id = payment_id;
    amount_minor = amount;
    fee_minor = fee;
    currency = "usd";
    occurred_at = occurred_at;
  })
