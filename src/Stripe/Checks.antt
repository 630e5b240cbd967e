-- ===== src/Stripe/Checks.antt =====
-- The checks that bind Stripe's objects to an order: `_validate_checkout`, and those that
-- `reconcile_order` makes of the PaymentIntent, the Charge and the BalanceTransaction.
use vouchspec.Base.{
  if◌then◌else◌, starts_with, none, some, same_text, ◌==◌, eqb, ltb, leb, false, true, String, Bool,
  ◌||◌, ◌&&◌, ℕ,
}
use vouchspec.Stripe.Service.{Adapter}
use vouchspec.Store.Tables.{Order}
use vouchspec.Json.{Json, int, at_text, get, at_is_text, Fields}
use vouchspec.Errors.{
  ◌>>◌, ◌>>=◌, ok, stripe_partial_refund, type_error, value_error, reject, require,
  invalid_stripe_object, or_raise, Result,
}
use vouchspec.Base.Lists.{length}
use vouchspec.Text.{is_charge_id, is_stripe_payment_id, is_stripe_checkout_id, codes}
use vouchspec.Commerce.Quote.{QuoteDocument}
use vouchspec.Stripe.Objects.{
  epoch_of, hashable_at, last_epoch, largest_amount, bounded_int, is_bool_at, metadata,
  reference_id,
}
use vouchspec.Base.Int.{sub_ℕ, negsuc, pos, ℤ}

-- The three entries of the metadata that name the order.
abbrev names_order : Adapter → Order → Fields → Bool
names_order a o meta =
    at_is_text "vouchspec_order_id" o.order_id meta
    && at_is_text "vouchspec_quote_id" o.quote_id meta
    && at_is_text "vouchspec_account_id" a.account_id meta

abbrev checkout_prefix : Bool → String
checkout_prefix false = "cs_test_"
checkout_prefix true = "cs_live_"

-- `status in allowed_statuses`
abbrev allowed_status : Bool → Fields → Bool
allowed_status completed session =
    at_is_text "status" "open" session
    || (completed
        && (at_is_text "status" "complete" session || at_is_text "status" "expired" session))

-- The page of an open Checkout Session.
unfoldable pub check_url : Adapter → Fields → Result (Unit {0})
check_url a session = do
  url ← or_raise (at_text "url" session) invalid_stripe_object
  require (leb 1 (length (codes url)) && leb (length (codes url)) 4_096) invalid_stripe_object
  parts ← or_raise (a.urlsplit url) value_error
  require (parts.scheme == "https" && same_text parts.hostname (some "checkout.stripe.com"))
      invalid_stripe_object

-- `_validate_checkout`
unfoldable pub validate_checkout :
    Adapter → Fields → Order → QuoteDocument → Bool → Result (Unit {0})
validate_checkout a session o quote completed = do
  checkout_id ← reference_id is_stripe_checkout_id (get "id" session)
  meta ← metadata (get "metadata" session)
  require
      (starts_with checkout_id (checkout_prefix a.live_mode)
        && at_is_text "object" "checkout.session" session
        && is_bool_at "livemode" a.live_mode session
        && at_is_text "mode" "payment" session
        && at_is_text "currency" o.currency session)
      invalid_stripe_object
  amount ← bounded_int largest_amount (get "amount_total" session)
  require
      (eqb amount o.quoted_amount_minor
        && at_is_text "client_reference_id" o.order_id session
        && names_order a o meta)
      invalid_stripe_object
  require (hashable_at "status" session) type_error
  require (allowed_status completed session) invalid_stripe_object
  expiry ← bounded_int last_epoch (get "expires_at" session)
  quoted ← epoch_of a.platform quote.expires_at
  require (eqb expiry quoted) invalid_stripe_object
  if completed then ok tt else check_url a session

-- The PaymentIntent.
unfoldable pub check_intent : Adapter → Order → String → Fields → Result (Unit {0})
check_intent a o payment_id payment = do
  meta ← metadata (get "metadata" payment)
  require
      (at_is_text "object" "payment_intent" payment
        && at_is_text "id" payment_id payment
        && is_bool_at "livemode" a.live_mode payment
        && at_is_text "currency" o.currency payment)
      invalid_stripe_object
  amount ← bounded_int largest_amount (get "amount" payment)
  require (eqb amount o.quoted_amount_minor && names_order a o meta) invalid_stripe_object

-- The Charge, with the amount refunded.
unfoldable pub check_charge : Adapter → Order → String → String → Fields → Result ℕ
check_charge a o payment_id charge_id charge = do
  charge_payment ← reference_id is_stripe_payment_id (get "payment_intent" charge)
  refunded ← bounded_int largest_amount (get "amount_refunded" charge)
  require
      (at_is_text "object" "charge" charge
        && at_is_text "id" charge_id charge
        && charge_payment == payment_id
        && is_bool_at "livemode" a.live_mode charge
        && at_is_text "currency" o.currency charge)
      invalid_stripe_object
  amount ← bounded_int largest_amount (get "amount" charge)
  require (eqb amount o.quoted_amount_minor) invalid_stripe_object
  captured ← bounded_int largest_amount (get "amount_captured" charge)
  require
      (eqb captured o.quoted_amount_minor
        && is_bool_at "paid" true charge
        && is_bool_at "captured" true charge
        && leb refunded o.quoted_amount_minor)
      invalid_stripe_object
  reject (ltb 0 refunded && ltb refunded o.quoted_amount_minor) stripe_partial_refund
  ok refunded

abbrev is_int : ℤ → Json → Bool
is_int (pos n) (int (pos k)) = eqb k n
is_int (negsuc n) (int (negsuc k)) = eqb k n
is_int _ _ = false

-- `value.get(key) == n` for an `int` that is no `bool`.
abbrev is_int_at : String → ℤ → Fields → Bool
is_int_at k n fs = elim (get k fs) [ none ↦ false | some j ↦ is_int n j ]

-- The BalanceTransaction, with the amount and the fee.
unfoldable pub check_balance : Adapter → Order → String → String → Fields → Result (ℕ × ℕ)
check_balance a o charge_id balance_id balance = do
  amount ← bounded_int largest_amount (get "amount" balance)
  fee ← bounded_int largest_amount (get "fee" balance)
  require (at_is_text "object" "balance_transaction" balance && at_is_text "id" balance_id balance)
      invalid_stripe_object
  source ← reference_id is_charge_id (get "source" balance)
  require
      (source == charge_id
        && at_is_text "currency" o.currency balance
        && eqb amount o.quoted_amount_minor
        && is_int_at "net" (sub_ℕ amount fee) balance)
      invalid_stripe_object
  require (hashable_at "status" balance) type_error
  require (at_is_text "status" "pending" balance || at_is_text "status" "available" balance)
      invalid_stripe_object
  ok (amount, fee)
