-- ===== src/Store/Examples.antt =====
-- Stores of the sample order, at which the theorems on commerce_store.py are applied.
use vouchspec.Base.{◌+◌, ◌≡◌, ◌≢◌, refl, false, some, none, List, ◌++◌, arith, [], ◌∷◌}
use vouchspec.Errors.{err, out_of_fuel}
use vouchspec.Base.Int.{◌+ℤ◌, pos}
use vouchspec.Store.Tables.{
  find_event, Event, EventStatus, payment_captured, EventRow, not_started, find_order, fake, Order,
  Db, sandbox, empty_store,
}
use vouchspec.Store.Views.{financial_summary}
use vouchspec.Store.Commands.{run}
use vouchspec.Commerce.Status.{PaymentStatus, OrderStatus}
use vouchspec.Store.Reconcile.{event_row, add_event, rounds, reconcile_payment}
use vouchspec.Store.Books.{
  listed_costs, no_goal_revenue, final_status_stays, orders_evolve, shown_order-IsSound,
  books_balance,
}
use vouchspec.Store.Termination.{EventsValid, reconcile_payment-finishes}
use vouchspec.Store.Invariant.{IsSound, Evolves}
use vouchspec.Table.{find}
use vouchspec.Store.Sample.{
  cost_fields, captured_event, sample, payment_id, order_id, ordered, capture, paid, worked,
  delivered_order, delivered_view, operations, full_delivery,
}
use vouchspec.Store.EventKeys.{ingested_event-finishes}
use vouchspec.Store.EventBounds.{validate_event-IsBounded, IsBounded}
use vouchspec.Store.Costs.{Repeats, record_direct_costs-Repeats}

-- The order that waits for its payment.
abbrev pub waiting_order : Order
waiting_order = record {
  order_id = order_id;
  environment = sandbox;
  quote_id = "q_0123456789abcdef01234567";
  idempotency_key = "key-00000001";
  buyer_reference = "buyer-0001";
  provider = fake;
  provider_checkout_id = some payment_id;
  provider_payment_id = some payment_id;
  order_status = OrderStatus.payment_pending;
  payment_status = PaymentStatus.pending;
  quoted_amount_minor = 4_900;
  collected_amount_minor = 0;
  refunded_amount_minor = 0;
  processing_fee_minor = 0;
  currency = "usd";
  direct_costs_recorded = false;
  receipt_id = none;
  receipt_sha256 = none;
  envelope_sha256 = none;
  signing_keyid = none;
  delivery_status = not_started;
  counts_for_goal = false;
  created_at = "early";
  updated_at = "early";
}

found_waiting :
    find_order order_id (run sample ordered (empty_store sandbox)).orders ≡ some waiting_order
unfolding operations
found_waiting = refl

found_delivered :
    find_order order_id (run sample (paid ++ worked) (empty_store sandbox)).orders
    ≡ some delivered_order
unfolding operations
found_delivered = refl

books_balance_example :
    delivered_view.gross_contribution_minor
      +ℤ pos (172 + 0 + listed_costs delivered_view.direct_costs_minor)
    ≡ pos 4_900
books_balance_example =
    books_balance sample sandbox (paid ++ worked) order_id delivered_view full_delivery

shown_order-IsSound_example : IsSound delivered_order
shown_order-IsSound_example =
    shown_order-IsSound sample sandbox (paid ++ worked) order_id delivered_view full_delivery

orders_evolve_example :
    (o : Order) × (find_order order_id
        (run sample (capture ∷ worked) (run sample ordered (empty_store sandbox))).orders
      ≡ some o)
    × Evolves waiting_order o
orders_evolve_example =
    orders_evolve sample sandbox ordered (capture ∷ worked) order_id waiting_order found_waiting

final_status_stays_example :
    (o : Order) × (find_order order_id
        (run sample (capture ∷ worked) (run sample (paid ++ worked) (empty_store sandbox))).orders
      ≡ some o)
    × (o.order_status ≡ OrderStatus.delivered)
final_status_stays_example =
    final_status_stays sample sandbox (paid ++ worked) (capture ∷ worked) order_id delivered_order
      found_delivered refl

no_goal_revenue_example :
    ((financial_summary
        (run sample (paid ++ worked) (empty_store sandbox))).counts_for_goal_collected_minor
      ≡ 0)
    × ((financial_summary
          (run sample (paid ++ worked) (empty_store sandbox))).counts_for_goal_contribution_minor
        ≡ pos 0)
no_goal_revenue_example = no_goal_revenue sample sandbox (paid ++ worked)

abbrev event_rows : List EventRow
event_rows =
    record {
      event_id = "evt_test_0123456789abcdef01234567";
      payload_digest = "";
      event = record {
        event_id = "evt_test_0123456789abcdef01234567";
        provider = fake;
        type = payment_captured;
        payment_id = payment_id;
        amount_minor = 4_900;
        fee_minor = 172;
        currency = "usd";
        occurred_at = "early";
      };
      status = EventStatus.pending;
      received_at = "early";
      applied_at = none;
    }
    ∷ []

abbrev event_store : Db
event_store = record (empty_store sandbox) { orders = waiting_order ∷ []; events = event_rows }

event_rows-EventsValid : EventsValid event_rows
unfolding EventsValid find
event_rows-EventsValid = ((refl, tt), (refl, tt))

reconcile_payment-finishes_example : reconcile_payment 2 payment_id event_store ≢ err out_of_fuel
reconcile_payment-finishes_example =
    reconcile_payment-finishes 2 payment_id event_store event_rows-EventsValid (omega arith)

abbrev new_event : Event
new_event = record {
  event_id = "evt_test_0123456789abcdef01234567";
  provider = fake;
  type = payment_captured;
  payment_id = payment_id;
  amount_minor = 4_900;
  fee_minor = 172;
  currency = "usd";
  occurred_at = "early";
}

abbrev ordered_store : Db
ordered_store = run sample ordered (empty_store sandbox)

is_new : find_event new_event.event_id ordered_store.events ≡ none
unfolding operations
is_new = refl

ingested_event-finishes_example :
    reconcile_payment
      (rounds payment_id (add_event (event_row new_event "" "early") ordered_store))
      payment_id
      (add_event (event_row new_event "" "early") ordered_store)
    ≢ err out_of_fuel
ingested_event-finishes_example =
    ingested_event-finishes sample sandbox ordered new_event "" "early" is_new

validate_event-IsBounded_example : IsBounded sandbox new_event
unfolding operations
validate_event-IsBounded_example =
    validate_event-IsBounded sample sandbox captured_event new_event refl

record_direct_costs-Repeats_example :
    Repeats sample order_id cost_fields "costs-0001"
      (run sample (paid ++ worked) (empty_store sandbox))
      (run sample (paid ++ worked) (empty_store sandbox))
unfolding operations
record_direct_costs-Repeats_example =
    record_direct_costs-Repeats sample order_id cost_fields "costs-0001" "early"
      (run sample (paid ++ worked) (empty_store sandbox))
      (run sample (paid ++ worked) (empty_store sandbox)) delivered_order delivered_view
      found_delivered refl refl
