-- ===== src/Stripe/Service.antt =====
-- The adapter with its tables, and the effects of its methods: reading the clock, asking Stripe and
-- running transactions on the commerce database. What was committed stays when a later step raises.
use vouchspec.Base.{none, some, false, true, ◌+◌, List, Option, Bool, String, ℕ}
use vouchspec.Json.{Fields, Json}
use vouchspec.Platform.{Platform}
use vouchspec.Stripe.Objects.{as_dict, Url}
use vouchspec.Store.Tables.{Db}
use vouchspec.Errors.{
  out_of_fuel, runtime_error, binding_error, assertion_error, integrity_error, key_error,
  type_error, value_error, stripe_error, Error, err, ok, Result,
}
use vouchspec.Table.{update, find}

-- The requests of the SDK's client.
pub data Call : Type 0 where
  retrieve_checkout retrieve_payment retrieve_charge retrieve_balance retrieve_dispute :
      String → Call
  -- the parameters and the idempotency key
  create_checkout : Json → String → Call

-- The fields of `StripePaymentAdapter`, and what it takes from outside.
pub record Adapter : Type 0 where
  pub platform : Platform
  -- `mode == "live"`
  pub live_mode : Bool
  pub webhook_secret : String
  pub account_id : String
  pub success_url : String
  pub cancel_url : String
  pub live_checkout_enabled : Bool
  -- `urllib.parse.urlsplit`; `none` is its `ValueError`
  pub urlsplit : String → Option Url
  -- `str(n)`
  pub decimal : ℕ → String
  -- `stripe.Webhook.construct_event` with a tolerance of 300 seconds, at a time of its clock, which
  -- comes first; `none` is a `ValueError` or a `SignatureVerificationError`
  pub construct_event : ℕ → String → String → String → Option Json
  -- Stripe's answer at a step of the run; `none` is a `StripeError`
  pub answer : ℕ → Call → Option Json
  -- `datetime.now(timezone.utc)` at a step of the run
  pub clock : ℕ → ℕ

pub data WebhookStatus : Type 0 where
  processing processed ignored retryable rejected : WebhookStatus

-- A row of stripe_webhook_events; api_version and livemode are the same in every row.
pub record WebhookRow : Type 0 where
  pub event_id : String
  pub payload_digest : String
  pub event_type : String
  pub object_id : String
  pub status : WebhookStatus
  pub order_id : Option String
  pub received_at : String
  pub updated_at : String

-- A row of stripe_reconciliations.
pub record Reconciliation : Type 0 where
  pub order_id : String
  pub source_event_id : Option String
  pub checkout_id : String
  pub payment_id : String
  pub charge_id : String
  pub balance_transaction_id : String
  pub snapshot_digest : String
  pub payment_state : String
  pub observed_at : String

-- The database, and how many steps outside were made.
pub record Service : Type 0 where
  pub commerce : Db
  pub webhooks : List WebhookRow
  pub reconciliations : List Reconciliation
  pub steps : ℕ

-- A method: it may raise, and what it did stays.
abbrev pub Method {ℓ} : Type ℓ → Type ℓ
Method A = Service → Result A × Service

abbrev pub next {ℓ κ} :
    {A : Type ℓ} {B : Type κ} → (A → Method B) → Result A × Service → Result B × Service
next f (ok a, s) = f a s
next f (err e, s) = (err e, s)

infixl 5 ◌>>=◌ ◌>>◌
unfoldable pub ◌>>=◌ {ℓ κ} : {A : Type ℓ} {B : Type κ} → Method A → (A → Method B) → Method B
(m >>= f) s = next f (m s)

abbrev pub ◌>>◌ {ℓ κ} : {A : Type ℓ} {B : Type κ} → Method A → Method B → Method B
m >> k = m >>= λ _. k

-- A step without effect, which may raise.
unfoldable pub lift {ℓ} : {A : Type ℓ} → Result A → Method A
lift r s = (r, s)

-- A query of the commerce database.
unfoldable pub query {ℓ} : {A : Type ℓ} → (Db → Result A) → Method A
query f s = (f s.commerce, s)

abbrev pub commit {ℓ} : {A : Type ℓ} → Service → Result (A × Db) → Result A × Service
commit s (ok (a, db)) = (ok a, record s { commerce = db })
commit s (err e) = (err e, s)

-- A write transaction of the commerce database.
unfoldable pub transact {ℓ} : {A : Type ℓ} → (Db → Result (A × Db)) → Method A
transact f s = commit s (f s.commerce)

abbrev pub stepped : Service → Service
stepped s = record s { steps = s.steps + 1 }

-- `datetime.now(timezone.utc)`
unfoldable pub now : Adapter → Method ℕ
now a s = (ok (a.clock s.steps), stepped s)

-- `_utc_now`
unfoldable pub utc_now : Adapter → Method String
utc_now a s = (ok (a.platform.isoformat (a.clock s.steps)), stepped s)

-- `_retrieve_checkout` and its like: a request and `_as_dict`.
unfoldable pub ask : Adapter → Call → Method Fields
ask a c s =
    ((elim (a.answer s.steps c) [ none ↦ err stripe_error | some j ↦ as_dict (some j) ]), stepped s)

abbrev pub handle {ℓ} : {A : Type ℓ} → (Error → Method A) → Result A × Service → Result A × Service
handle h (ok a, s) = (ok a, s)
handle h (err e, s) = h e s

-- `try … except`
unfoldable pub catching {ℓ} : {A : Type ℓ} → Method A → (Error → Method A) → Method A
catching m h s = handle h (m s)

-- The exceptions that are no `InputRejected`.
abbrev pub is_input_rejected : Error → Bool
is_input_rejected value_error = false
is_input_rejected type_error = false
is_input_rejected key_error = false
is_input_rejected integrity_error = false
is_input_rejected assertion_error = false
is_input_rejected binding_error = false
is_input_rejected runtime_error = false
is_input_rejected stripe_error = false
is_input_rejected out_of_fuel = false
is_input_rejected _ = true

abbrev pub row_key : WebhookRow → String
row_key r = r.event_id

unfoldable pub find_webhook : String → List WebhookRow → Option WebhookRow
unfolding find
find_webhook k = find row_key k

unfoldable pub update_webhook : String → (WebhookRow → WebhookRow) → Service → Service
unfolding update
update_webhook k f s = record s { webhooks = update row_key k f s.webhooks }
