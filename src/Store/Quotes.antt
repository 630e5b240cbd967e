-- ===== src/Store/Quotes.antt =====
-- `create_quote` of commerce_store.py.
use vouchspec.Base.{
  ℕ, ◌+◌, String, Bool, true, false, not, ◌&&◌, ◌||◌, Option, none, some, List, [], ◌∷◌, ◌++◌, ◌==◌,
  if◌then◌else◌,
}
use vouchspec.Errors.{
  Result, ok, ◌>>=◌, ◌>>◌, require, reject, or_raise, invalid_commerce_request,
  commerce_live_not_enabled, idempotency_conflict, value_error,
}
use vouchspec.Platform.{Platform, Moment, aware}
use vouchspec.Json.{Json, object, text, set, as_object}
use vouchspec.Commerce.Request.{request_json, parse_fresh_validation_request}
use vouchspec.Commerce.Quote.{
  QuoteDocument, QuoteStatus, declined_max_price, sandbox_orderable_nonsettling,
  stripe_test_orderable_nonsettling, stripe_live_orderable_activation_acknowledged, PaymentOption,
  quote_json, quote_digest, build_fresh_validation_quote, minutes,
}
use vouchspec.Store.Tables.{Environment, sandbox, live, QuoteRow, Provider, fake, stripe, Db}
use vouchspec.Table.{find}

abbrev pub is_declined : QuoteStatus → Bool
is_declined declined_max_price = true
is_declined _ = false

abbrev is_live : Environment → Bool
is_live live = true
is_live sandbox = false

abbrev is_stripe : Provider → Bool
is_stripe stripe = true
is_stripe fake = false

-- `payment_provider not in {"fake", "stripe"}`
abbrev pub provider_named : String → Option Provider
provider_named s = if s == "fake" then some fake else if s == "stripe" then some stripe else none

abbrev one_option : String → String → List PaymentOption
one_option p s = record { provider = p; status = s } ∷ []

-- The fields that a provider sets on the quote, and the expiry of the Stripe quotes.
unfoldable pub offer : Platform → Environment → Provider → ℕ → QuoteDocument → QuoteDocument
offer p e fake now q = record q {
  quote_status = sandbox_orderable_nonsettling;
  availability = "sandbox_fake_provider_only";
  settlement_available = false;
  payment_options = one_option "fake" "sandbox_only";
  orderable = true;
  counts_for_goal = some false;
}
offer p sandbox stripe now q = record q {
  expires_at = p.isoformat (now + minutes 30);
  quote_status = stripe_test_orderable_nonsettling;
  availability = "stripe_test_mode_only";
  settlement_available = false;
  payment_options = one_option "stripe_checkout" "test_mode";
  orderable = true;
  counts_for_goal = some false;
}
offer p live stripe now q = record q {
  expires_at = p.isoformat (now + minutes 30);
  quote_status = stripe_live_orderable_activation_acknowledged;
  availability = "stripe_live_account_configured";
  settlement_available = true;
  payment_options = one_option "stripe_checkout" "live";
  orderable = true;
  counts_for_goal = some false;
}

-- The quote with its digest, as text: `_canonical(quote)`.
abbrev serialize : Platform → QuoteDocument → String
serialize p q = elim (as_object (quote_json q)) [
  | none ↦ p.dumps (quote_json q)
  | some fs ↦ p.dumps (object (set "quote_digest" (text (quote_digest p q)) fs))
]

-- The two activation gates at the top of `create_quote`.
unfoldable pub activated : Environment → Provider → Bool → Result (Unit {0})
activated e provider enabled = do
  reject (not (is_stripe provider) && is_live e) commerce_live_not_enabled
  require (not (is_live e) || (is_stripe provider && enabled)) commerce_live_not_enabled

-- The row that is inserted; `orderable` is 1 and `counts_for_goal` is 0.
abbrev quote_row : Platform → Environment → QuoteDocument → QuoteRow
quote_row p e q = record {
  quote_id = q.quote_id;
  environment = e;
  request_json = p.dumps (request_json q.request);
  quote_json = serialize p q;
  request = q.request;
  document = q;
  amount_minor = q.amount_minor;
  currency = "usd";
  expires_at = q.expires_at;
  orderable = true;
  counts_for_goal = false;
}

-- A known identifier must come with the same content.
unfoldable pub replay_quote : Platform → QuoteDocument → QuoteRow → Db → Result (QuoteDocument × Db)
replay_quote p q row db = do
  require (row.request_json == p.dumps (request_json q.request) && row.quote_json == serialize p q)
      idempotency_conflict
  ok (row.document, db)

unfoldable pub find_quote : String → List QuoteRow → Option QuoteRow
unfolding find
find_quote k = find (λ (r : QuoteRow). r.quote_id) k

unfoldable pub insert_quote : Platform → QuoteDocument → Db → Db
insert_quote p q db = record db { quotes = db.quotes ++ quote_row p db.environment q ∷ [] }

-- The transaction of `create_quote`.
unfoldable pub store_quote : Platform → QuoteDocument → Db → Result (QuoteDocument × Db)
store_quote p q db = elim (find_quote q.quote_id db.quotes) [
  | none ↦ ok (q, insert_quote p q db)
  | some row ↦ replay_quote p q row db
]

unfoldable pub create_quote :
    Platform → Json → String → Moment → String → Bool → Db → Result (QuoteDocument × Db)
create_quote p value quote_id generated_at payment_provider live_checkout_enabled db = do
  provider ← or_raise (provider_named payment_provider) invalid_commerce_request
  activated db.environment provider live_checkout_enabled
  request ← parse_fresh_validation_request value
  quote ← build_fresh_validation_quote p (request_json request) generated_at quote_id true
  now ← aware value_error generated_at
  if is_declined quote.quote_status
      then ok (quote, db)
      else store_quote p (offer p db.environment provider now quote) db
