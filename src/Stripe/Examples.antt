-- ===== src/Stripe/Examples.antt =====
-- One order from its hosted checkout to its captured payment, driven by a webhook.
use vouchspec.Base.{
  false, ◌==◌, if◌then◌else◌, leb, List, refl, ◌≡◌, ◌∷◌, [], none, Option, true, false, some,
  String,
}
use vouchspec.Platform.{utc, Platform}
use vouchspec.Json.{null, int, bool, end, text, field, object, Json}
use vouchspec.Base.Int.{pos}
use vouchspec.Stripe.Service.{
  WebhookStatus, stepped, ◌>>=◌, update_webhook, catching, ask, utc_now, now, transact, query, lift,
  find_webhook, processed, WebhookRow, Service, Adapter, retrieve_dispute, retrieve_balance,
  retrieve_charge, retrieve_payment, retrieve_checkout, create_checkout, Call,
}
use vouchspec.Commerce.Request.{request_json}
use vouchspec.Store.Tables.{live, sandbox, empty_store}
use vouchspec.Stripe.Requests.{checkout, webhook, serve_all-IsOperated, serve_all, serve}
use vouchspec.Store.Sample.{sample, operations, request}
use vouchspec.Stripe.Process.{
  told, settle_event, ignore_event, reconcile_event, process_reserved, process_webhook,
  create_order_checkout, prepare_order_checkout, prepare_checkout,
}
use vouchspec.Stripe.Notices.{Notice, read_event, checkout_key, checkout_params, checkout_view}
use vouchspec.Stripe.Webhooks.{
  record_reconciliation, finish_webhook, retakes_in, retakes, reserve_webhook,
}
use vouchspec.Stripe.Retrieval.{
  reconcile_charge, reconcile_intent, observed, reconcile_order, metadata_of_charge,
  metadata_of_event, order_id_for_event,
}
use vouchspec.Stripe.Reconcile.{
  snapshot, emitted_id, emitted, emit_state, emit_available, emit, settle_chain,
}
use vouchspec.Stripe.Checks.{
  check_balance, check_charge, check_intent, check_url, validate_checkout,
}
use vouchspec.Stripe.Objects.{
  configured_url, metadata, reference_id, as_dict, bounded_int, epoch_time, epoch_of, parse_time,
}
use vouchspec.Text.{
  is_account_id, is_order_id, is_object_id, is_stripe_event_id, is_balance_id, is_charge_id,
  is_stripe_payment_id, is_stripe_checkout_id,
}
use vouchspec.Store.Orders.{take_text, bind_provider_payment}
use vouchspec.Store.Views.{get_quote}
use vouchspec.Table.{update, find}
use vouchspec.Stripe.Settled.{
  run_transactions-SameEvent, run_transactions, SameEvent, Transaction, reservation, finish,
}
use vouchspec.Store.Commands.{run, Command}
use vouchspec.Stripe.Configuration.{
  open_adapter-IsActivated, IsActivated, initialize_state, check_account, check_arguments,
  open_adapter, StripeMetadata, injected, Configuration,
}
use vouchspec.Errors.{stripe_event_conflict, err, ok, chains}
use vouchspec.Commerce.Status.{captured}
use vouchspec.Stripe.Replays.{process_webhook-replay}

abbrev digest : String
digest = "0123456789abcdef0123456789abcdef0123456789abcdef0123456789abcdef"

abbrev platform : Platform
platform = record sample { sha256 = λ s. digest }

abbrev order_id : String
order_id = "ord_test_0123456789abcdef01234567"

abbrev quote_id : String
quote_id = "q_0123456789abcdef01234567"

abbrev order_names : Json
order_names = object (
    field "vouchspec_order_id" (text order_id) (
      field "vouchspec_quote_id" (text quote_id)
        (field "vouchspec_account_id" (text "acct_00000001") end)))

abbrev session : String → Json → Json
session status payment = object (
    field "id" (text "cs_test_00000001") (
      field "metadata" order_names (
        field "object" (text "checkout.session") (
          field "livemode" (bool false) (
            field "mode" (text "payment") (
              field "currency" (text "usd") (
                field "amount_total" (int (pos 4_900)) (
                  field "client_reference_id" (text order_id) (
                    field "status" (text status) (
                      field "expires_at" (int (pos 0)) (
                        field "url" (text "https://checkout.stripe.com/pay")
                          (field "payment_intent" payment end))))))))))))

abbrev intent : Json
intent = object (
    field "id" (text "pi_00000001") (
      field "metadata" order_names (
        field "object" (text "payment_intent") (
          field "livemode" (bool false) (
            field "currency" (text "usd") (
              field "amount" (int (pos 4_900)) (
                field "amount_received" (int (pos 4_900)) (
                  field "status" (text "succeeded")
                    (field "latest_charge" (text "ch_00000001") end)))))))))

abbrev charge : Json
charge = object (
    field "id" (text "ch_00000001") (
      field "payment_intent" (text "pi_00000001") (
        field "object" (text "charge") (
          field "livemode" (bool false) (
            field "currency" (text "usd") (
              field "amount" (int (pos 4_900)) (
                field "amount_captured" (int (pos 4_900)) (
                  field "amount_refunded" (int (pos 0)) (
                    field "paid" (bool true) (
                      field "captured" (bool true) (
                        field "created" (int (pos 0)) (
                          field "disputed" (bool false)
                            (field "balance_transaction" (text "txn_00000001") end)))))))))))))

abbrev balance : Json
balance = object (
    field "id" (text "txn_00000001") (
      field "object" (text "balance_transaction") (
        field "amount" (int (pos 4_900)) (
          field "fee" (int (pos 172)) (
            field "net" (int (pos 4_728)) (
              field "source" (text "ch_00000001") (
                field "currency" (text "usd")
                  (field "status" (text "pending") (field "available_on" (int (pos 0)) end)))))))))

abbrev event : Json
event = object (
    field "id" (text "evt_00000001") (
      field "type" (text "payment_intent.succeeded") (
        field "api_version" (text "2026-06-24.dahlia")
          (field "livemode" (bool false) (field "data" (object (field "object" intent end)) end)))))

abbrev answers : Call → Option Json
answers (create_checkout params key) = some (session "open" null)
answers (retrieve_checkout id) = some (session "complete" (text "pi_00000001"))
answers (retrieve_payment id) = some intent
answers (retrieve_charge id) = some charge
answers (retrieve_balance id) = some balance
answers (retrieve_dispute id) = none

abbrev adapter : Adapter
adapter = record {
  platform = platform;
  live_mode = false;
  webhook_secret = "whsec_0000000000";
  account_id = "acct_00000001";
  success_url = "https://vouchspec.example/{CHECKOUT_SESSION_ID}";
  cancel_url = "https://vouchspec.example/";
  live_checkout_enabled = false;
  urlsplit = λ s. some (record {
    scheme = "https";
    hostname = some "checkout.stripe.com";
    username = none;
    password = none;
    fragment = "";
  });
  decimal = λ n. "";
  construct_event = λ time body header secret. if leb time 300 then some event else none;
  answer = λ n. answers;
  clock = λ n. 0;
}

abbrev nothing : Service
nothing = record { commerce = empty_store sandbox; webhooks = []; reconciliations = []; steps = 0 }

abbrev ordered : Service
ordered =
    serve adapter (checkout (request_json request) quote_id "key-00000001" "buyer-0001" (utc 0))
      nothing

abbrev paid : Service
paid = serve adapter (webhook "body" "header") ordered

abbrev event_row : WebhookRow
event_row = record {
  event_id = "evt_00000001";
  payload_digest = digest;
  event_type = "payment_intent.succeeded";
  object_id = "pi_00000001";
  status = processed;
  order_id = some order_id;
  received_at = "early";
  updated_at = "early";
}

event-processed : find_webhook "evt_00000001" paid.webhooks ≡ some event_row
unfolding operations serve prepare_checkout prepare_order_checkout create_order_checkout
    checkout_view checkout_params checkout_key process_webhook process_reserved ignore_event
    settle_event reconcile_event read_event reserve_webhook retakes retakes_in finish_webhook
    order_id_for_event metadata_of_event metadata_of_charge reconcile_order observed
    reconcile_intent reconcile_charge settle_chain emit emit_available emit_state emitted emitted_id
    snapshot record_reconciliation validate_checkout check_url check_intent check_charge
    check_balance parse_time epoch_of epoch_time bounded_int as_dict reference_id metadata lift
    query transact now utc_now ask catching find_webhook update_webhook ◌>>=◌ is_stripe_checkout_id
    is_stripe_payment_id is_charge_id is_balance_id is_stripe_event_id is_object_id is_order_id
    bind_provider_payment get_quote take_text find update
event-processed = refl

-- Two handlers that serve the event at once, the slower of which finishes it a second time.
abbrev interleaved : List Transaction
interleaved =
    reservation "evt_00000001" digest "payment_intent.succeeded" "pi_00000001" "early"
    ∷ finish "evt_00000001" WebhookStatus.retryable "early" none
    ∷ reservation "evt_00000001" digest "payment_intent.succeeded" "pi_00000001" "early"
    ∷ finish "evt_00000001" processed "early" (some order_id)
    ∷ finish "evt_00000001" WebhookStatus.rejected "early" none
    ∷ []

run_transactions-SameEvent_example :
    (r : WebhookRow) × (find_webhook "evt_00000001"
        (run_transactions platform interleaved paid).webhooks
      ≡ some r)
    × SameEvent event_row r
    × ((other type object_id t : String)
        → (digest == other) ≡ false
        → reserve_webhook platform "evt_00000001" other type object_id t
            (run_transactions platform interleaved paid)
          ≡ (err stripe_event_conflict, run_transactions platform interleaved paid))
run_transactions-SameEvent_example =
    run_transactions-SameEvent platform interleaved "evt_00000001" event_row paid event-processed

serve_all-IsOperated_example :
    (cs : List Command) × ((serve_all adapter (webhook "body" "header" ∷ []) ordered).commerce
      ≡ run platform cs ordered.commerce)
serve_all-IsOperated_example = serve_all-IsOperated adapter (webhook "body" "header" ∷ []) ordered

abbrev live_configuration : Configuration
live_configuration = record {
  mode = "live";
  api_key = "sk_live_00000000";
  webhook_secret = "whsec_0000000000";
  expected_account_id = "acct_00000001";
  success_url = "https://vouchspec.example/{CHECKOUT_SESSION_ID}";
  cancel_url = "https://vouchspec.example/";
  live_checkout_enabled = true;
  account = injected (
      object (
        field "object" (text "account") (
          field "id" (text "acct_00000001") (
            field "charges_enabled" (bool true)
              (field "details_submitted" (bool true) (field "payouts_enabled" (bool true) end))))));
  sdk_version = "15.3.0";
  api_version = "2026-06-24.dahlia";
}

abbrev live_metadata : StripeMetadata
live_metadata = record {
  schema_version = "1";
  environment = live;
  mode = "live";
  stripe_sdk_version = "15.3.0";
  stripe_api_version = "2026-06-24.dahlia";
  stripe_account_id = "acct_00000001";
}

open_adapter-IsActivated_example : IsActivated live_configuration
unfolding open_adapter check_arguments check_account initialize_state configured_url is_account_id
    as_dict chains
open_adapter-IsActivated_example =
    open_adapter-IsActivated adapter.urlsplit (λ s t. true) live none live_configuration
      live_metadata refl

abbrev notice : Notice
notice = record {
  event_id = "evt_00000001";
  event_type = "payment_intent.succeeded";
  object_id = "pi_00000001";
}

-- What other handlers did meanwhile.
abbrev meanwhile : List Transaction
meanwhile =
    reservation "evt_00000002" digest "charge.refunded" "ch_00000001" "early"
    ∷ reservation "evt_00000001" digest "payment_intent.succeeded" "pi_00000001" "early"
    ∷ finish "evt_00000002" WebhookStatus.rejected "early" none
    ∷ []

process_webhook-replay_example :
    (o : Option String) × (process_webhook adapter "body" "header"
        (run_transactions platform meanwhile paid)
      ≡ (
        ok (told notice true processed o none),
        stepped (stepped (run_transactions platform meanwhile paid)),
      ))
unfolding operations serve prepare_checkout prepare_order_checkout create_order_checkout
    checkout_view checkout_params checkout_key process_webhook process_reserved ignore_event
    settle_event reconcile_event read_event reserve_webhook retakes retakes_in finish_webhook
    order_id_for_event metadata_of_event metadata_of_charge reconcile_order observed
    reconcile_intent reconcile_charge settle_chain emit emit_available emit_state emitted emitted_id
    snapshot record_reconciliation validate_checkout check_url check_intent check_charge
    check_balance parse_time epoch_of epoch_time bounded_int as_dict reference_id metadata lift
    query transact now utc_now ask catching find_webhook update_webhook ◌>>=◌ is_stripe_checkout_id
    is_stripe_payment_id is_charge_id is_balance_id is_stripe_event_id is_object_id is_order_id
    bind_provider_payment get_quote take_text find update run_transactions
process_webhook-replay_example =
    process_webhook-replay adapter "body" "header"
      (told notice false processed (some order_id) (some captured)) ordered paid meanwhile refl refl
      (refl, (refl, (refl, tt))) refl
