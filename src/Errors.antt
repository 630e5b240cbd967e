-- ===== src/Errors.antt =====
-- src/capabilityproof/errors.py: the exceptions as values. `InputRejected` carries a stable code;
-- the texts of messages are not modelled. A method returns a `Result`; a database transaction
-- that ends in `err` is rolled back.
pub mod Ensures
use vouchspec.Base.{◌≡◌, refl, Bool, true, false, Option, none, some}

-- The codes that the modelled modules raise, and the Python exceptions that they let through.
pub data Error : Type 0 where
  invalid_commerce_request invalid_commerce_event invalid_commerce_transition : Error
  commerce_live_not_enabled commerce_environment_mismatch commerce_store_missing : Error
  idempotency_conflict quote_not_orderable quote_expired quote_already_used : Error
  unknown_order unknown_provider_payment provider_event_conflict : Error
  invalid_cost_record costs_already_recorded cost_record_required invalid_delivery : Error
  object_not_found unsupported_source_host mutable_source_reference : Error
  invalid_webhook_signature : Error
  invalid_lifecycle_feed invalid_sequence_state lifecycle_rollback lifecycle_equivocation : Error
  untrusted_key invalid_envelope paid_lifecycle_empty paid_lifecycle_coverage : Error
  paid_lifecycle_missing : Error
  invalid_tenant tenant_conflict authentication_failed authorization_failed : Error
  result_not_ready : Error
  invalid_stripe_object stripe_account_mismatch stripe_api_error stripe_amount_mismatch : Error
  stripe_partial_refund invalid_stripe_event stripe_event_conflict : Error
  stripe_event_processing : Error
  value_error type_error key_error integrity_error assertion_error : Error
  -- `stripe.StripeError`, and sqlite3's refusal of a value that is no column value
  stripe_error binding_error runtime_error : Error
  -- the loop's fuel ran out; `Store.EventKeys` shows that this is never reached
  out_of_fuel : Error

pub data Result {ℓ} (A : Type ℓ) : Type ℓ where
  ok : A → Result A
  err : Error → Result A

infixl 5 ◌>>=◌ ◌>>◌
unfoldable pub ◌>>=◌ {ℓ κ} : {A : Type ℓ} {B : Type κ} → Result A → (A → Result B) → Result B
ok a >>= f = f a
err e >>= f = err e

abbrev pub ◌>>◌ {ℓ κ} : {A : Type ℓ} {B : Type κ} → Result A → Result B → Result B
m >> k = m >>= λ _. k

-- `if not condition: raise`
unfoldable pub require : Bool → Error → Result (Unit {0})
require true e = ok tt
require false e = err e

-- `if condition: raise`
unfoldable pub reject : Bool → Error → Result (Unit {0})
reject true e = err e
reject false e = ok tt

-- `if value is None: raise`
unfoldable pub or_raise {ℓ} : {A : Type ℓ} → Option A → Error → Result A
or_raise none e = err e
or_raise (some a) e = ok a

-- Named on an `unfolding` line, it opens the chains of a `do` block.
unfoldable pub chains : Unit {0}
unfolding ◌>>=◌ require reject or_raise
chains = tt
