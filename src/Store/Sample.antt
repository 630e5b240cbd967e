-- ===== src/Store/Sample.antt =====
-- A concrete platform and a sandbox order that is taken from its quote to its delivery.
use vouchspec.Base.{
  ◌≡◌, refl, String, true, false, some, none, List, ◌++◌, [], ◌∷◌, eqb, ◌==◌, if◌then◌else◌,
}
use vouchspec.Errors.{ok, chains}
use vouchspec.Json.{Json, Fields, field, end, text, int, object}
use vouchspec.Base.Int.{◌+ℤ◌, pos}
use vouchspec.Platform.{without_zulu, parse_timestamp, Platform, utc}
use vouchspec.Commerce.Request.{
  is_skill_path, text_matching, exact_object, parse_fresh_validation_request, Request, request_json,
}
use vouchspec.Store.Tables.{
  mark_event, set_event_status, find_event, add_entry, add_history, require_order, update_order,
  find_order, DeliveryStatus, other_variable, direct_support, monitoring, signing, network, model,
  storage, hosting, third_party, fake, compute, Order, sandbox, empty_store,
}
use vouchspec.Store.Views.{
  settlement_status, refund_status, amount_of, costs_of, contribution, insert_event, sort_events,
  pending_events, view_of, order_view, get_order, sandbox_nonsettling, not_refunded, OrderView,
}
use vouchspec.Store.Delivery.{
  valid_costs, valid_evidence, transition_order, add_costs, record_new_costs, deliver,
  begin_fulfillment, record_direct_costs, Evidence,
}
use vouchspec.Store.Commands.{execute, Command, run}
use vouchspec.Commerce.Status.{require_order_transition, captured, OrderStatus}
use vouchspec.Store.Quotes.{insert_quote, find_quote, activated, offer, store_quote, create_quote}
use vouchspec.Store.Orders.{
  insert_order, new_order, quoted_provider, order_id_of, checkout_payment, attach_new, place_order,
  attach_checkout, create_order,
}
use vouchspec.Store.Reconcile.{
  apply_captured, apply_event, process_event, run_round, reconcile_payment, ingest_new,
  ingest_provider_event,
}
use vouchspec.Store.Events.{check_identity, validate_event}
use vouchspec.Commerce.Quote.{build_fresh_validation_quote}
use vouchspec.Text.{
  is_fake_payment_id, is_event_id, is_buyer, is_idempotency_key, is_key_id, is_sha256,
  is_receipt_id, is_quote_id, is_delivery_id, is_commit, is_repository, is_owner,
}

abbrev pub sample : Platform
sample = record {
  sha256 = λ s. s;
  from_isoformat = λ s. if s == "late" then some (utc 1_000) else some (utc 0);
  isoformat = λ t. if eqb t 0 then "early" else "late";
  dumps = λ j. "";
}

abbrev pub request : Request
request = record {
  owner = "octocat";
  repository = "skills";
  commit = "0123456789abcdef0123456789abcdef01234567";
  skill_path = "skills/demo";
  max_amount = 5_000;
  delivery_id = "delivery-1";
}

abbrev pub payment_id : String
payment_id = "pay_test_0123456789abcdef01234567"

abbrev pub order_id : String
order_id = "ord_test_q_0123456789abcdef012345"

abbrev pub captured_event : Json
captured_event = object (
    field "schema_version" (text "1.0.0") (
      field "provider" (text "fake") (
        field "environment" (text "sandbox") (
          field "event_id" (text "evt_test_0123456789abcdef01234567") (
            field "type" (text "payment.captured") (
              field "payment_id" (text payment_id) (
                field "amount_minor" (int (pos 4_900)) (
                  field "fee_minor" (int (pos 172))
                    (field "currency" (text "usd") (field "occurred_at" (text "early") end))))))))))

abbrev pub cost_fields : Fields
cost_fields = field "compute" (int (pos 12)) (
    field "third_party" (int (pos 0)) (
      field "hosting" (int (pos 3)) (
        field "storage" (int (pos 1)) (
          field "model" (int (pos 0)) (
            field "network" (int (pos 0)) (
              field "signing" (int (pos 2)) (
                field "monitoring" (int (pos 0)) (
                  field "direct_support" (int (pos 0))
                    (field "other_variable" (int (pos 0)) end)))))))))

abbrev pub evidence : Evidence
evidence = record {
  receipt_id = "cpr_0123456789abcdef01234567";
  receipt_sha256 = "0123456789abcdef0123456789abcdef0123456789abcdef0123456789abcdef";
  envelope_sha256 = "0123456789abcdef0123456789abcdef0123456789abcdef0123456789abcdef";
  signing_keyid = "abcdefghijklmnopqrstuvwxyzABCDEFGHIJKLMNOPQ";
}

abbrev pub ordered : List Command
ordered =
    Command.quote (request_json request) "q_0123456789abcdef01234567" (utc 0) "fake" false
    ∷ Command.order "q_0123456789abcdef01234567" "key-00000001" "buyer-0001" (utc 0)
    ∷ Command.attach order_id payment_id "early" none
    ∷ []

abbrev pub capture : Command
capture = Command.ingest captured_event "early"

abbrev pub paid : List Command
paid = ordered ++ capture ∷ []

abbrev pub worked : List Command
worked =
    Command.costs order_id cost_fields "costs-0001" "early"
    ∷ Command.begin_work order_id "job-1" "early"
    ∷ Command.delivery order_id evidence "job-1" "early"
    ∷ []

-- The order after delivery.
abbrev pub delivered_order : Order
delivered_order = record {
  order_id = order_id;
  environment = sandbox;
  quote_id = "q_0123456789abcdef01234567";
  idempotency_key = "key-00000001";
  buyer_reference = "buyer-0001";
  provider = fake;
  provider_checkout_id = some payment_id;
  provider_payment_id = some payment_id;
  order_status = OrderStatus.delivered;
  payment_status = captured;
  quoted_amount_minor = 4_900;
  collected_amount_minor = 4_900;
  refunded_amount_minor = 0;
  processing_fee_minor = 172;
  currency = "usd";
  direct_costs_recorded = true;
  receipt_id = some evidence.receipt_id;
  receipt_sha256 = some evidence.receipt_sha256;
  envelope_sha256 = some evidence.envelope_sha256;
  signing_keyid = some evidence.signing_keyid;
  delivery_status = DeliveryStatus.delivered;
  counts_for_goal = false;
  created_at = "early";
  updated_at = "early";
}

abbrev pub delivered_view : OrderView
delivered_view = record {
  order = delivered_order;
  direct_costs_minor =
      (compute, 12)
      ∷ (third_party, 0)
      ∷ (hosting, 3)
      ∷ (storage, 1)
      ∷ (model, 0)
      ∷ (network, 0)
      ∷ (signing, 2)
      ∷ (monitoring, 0)
      ∷ (direct_support, 0)
      ∷ (other_variable, 0)
      ∷ [];
  gross_contribution_minor = pos 4_710;
  refund_status = not_refunded;
  settlement_status = sandbox_nonsettling;
  pending_provider_events = [];
}

-- What opens the definitions when a run is computed.
unfoldable pub operations : Unit {0}
unfolding chains run execute parse_fresh_validation_request build_fresh_validation_quote
    exact_object request_json text_matching is_owner is_repository is_commit is_delivery_id
    is_skill_path is_quote_id is_receipt_id is_sha256 is_key_id without_zulu is_idempotency_key
    is_buyer is_event_id is_fake_payment_id find_quote insert_quote pending_events sort_events
    insert_event contribution costs_of amount_of refund_status settlement_status ◌+ℤ◌
    require_order_transition create_quote create_order attach_checkout ingest_provider_event
    record_direct_costs begin_fulfillment deliver store_quote offer activated place_order
    insert_order attach_new checkout_payment ingest_new reconcile_payment run_round process_event
    apply_event apply_captured record_new_costs add_costs transition_order valid_evidence
    valid_costs validate_event check_identity parse_timestamp get_order order_view view_of
    order_id_of quoted_provider new_order find_order update_order require_order add_history
    add_entry find_event set_event_status mark_event
operations = tt

pub full_delivery :
    get_order order_id (run sample (paid ++ worked) (empty_store sandbox)) ≡ ok delivered_view
unfolding operations
full_delivery = refl
