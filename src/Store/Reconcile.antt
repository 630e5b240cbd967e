-- ===== src/Store/Reconcile.antt =====
-- `ingest_provider_event` and `_reconcile_payment` of commerce_store.py.
use vouchspec.Base.{
  ℕ, zero, suc, ◌+◌, String, Bool, true, false, not, ◌||◌, none, some, List, [], ◌∷◌, ◌++◌, eqb,
  ◌==◌, if◌then◌else◌,
}
use vouchspec.Base.Lists.{number_of}
use vouchspec.Base.Int.{ℤ, pos, neg}
use vouchspec.Errors.{
  Result, ok, err, ◌>>=◌, ◌>>◌, require, or_raise, invalid_commerce_event, provider_event_conflict,
  unknown_provider_payment, assertion_error, type_error, out_of_fuel,
}
use vouchspec.Json.{Json}
use vouchspec.Platform.{Platform, parse_timestamp}
use vouchspec.Commerce.Status.{
  OrderStatus, PaymentStatus, captured, available, refund_pending, refunded, disputed, failed,
  queued, payment_pending, same_payment_status, same_order_status, payment_allowed,
}
use vouchspec.Store.Tables.{
  same_provider, Order, EventType, payment_captured, payment_available, payment_failed,
  payment_refund_pending, payment_refunded, payment_disputed, Event, EventStatus, applied,
  applied_duplicate_effect, rejected_effect_conflict, rejected_amount_mismatch, EventRow, Category,
  gross_collected, processing_fee, refund, Entry, add_entry, Db, order_change, payment_change,
  update_order, add_history, find_event, set_event_status, mark_event, order_of_payment,
}
use vouchspec.Store.Views.{OrderView, order_view, pending_events, is_pending_of}
use vouchspec.Store.Events.{validate_event}

-- `targets[event_type]`
abbrev pub target_of : EventType → PaymentStatus
target_of payment_captured = captured
target_of payment_available = available
target_of payment_failed = failed
target_of payment_refund_pending = refund_pending
target_of payment_refunded = refunded
target_of payment_disputed = disputed

-- `effect_matches`: does a second event with the effect that is already there agree with it?
abbrev pub effect_matches : Event → Order → PaymentStatus → Bool
effect_matches e o captured = eqb e.fee_minor o.processing_fee_minor
effect_matches e o refunded = eqb e.amount_minor o.refunded_amount_minor
effect_matches e o _ = true

-- The SET clauses of the four kinds of effect.
abbrev pub captured_order : Event → Order → Order
captured_order e o = record o {
  payment_status = captured;
  order_status = queued;
  collected_amount_minor = e.amount_minor;
  processing_fee_minor = e.fee_minor;
  updated_at = e.occurred_at;
}

abbrev pub failed_order : Event → Order → Order
failed_order e o = record o {
  payment_status = failed;
  order_status = OrderStatus.payment_failed;
  updated_at = e.occurred_at;
}

abbrev pub refunded_order : Event → Order → Order
refunded_order e o = record o {
  payment_status = refunded;
  refunded_amount_minor = e.amount_minor;
  updated_at = e.occurred_at;
}

abbrev pub moved_order : PaymentStatus → Event → Order → Order
moved_order target e o = record o { payment_status = target; updated_at = e.occurred_at }

abbrev pub entry_of : Event → Order → Category → ℕ → ℤ → Entry
entry_of e o category amount impact = record {
  order_id = o.order_id;
  category = category;
  amount_minor = amount;
  impact_minor = impact;
  source_reference = e.event_id;
  recorded_at = e.occurred_at;
}

abbrev payment_history : Event → Order → PaymentStatus → Db → Db
payment_history e o target =
    add_history o.order_id (payment_change o.payment_status target) e.event_id e.occurred_at

abbrev order_history : Event → Order → OrderStatus → Db → Db
order_history e o target =
    add_history o.order_id (order_change (some o.order_status) target) e.event_id e.occurred_at

-- A payment that is captured: the order is queued, and the amount and the fee are booked.
unfoldable pub apply_captured : Event → Order → Db → Result Db
apply_captured e o db = do
  booked ←
      add_entry (entry_of e o gross_collected e.amount_minor (pos e.amount_minor))
        (update_order o.order_id (captured_order e) db)
  charged ← add_entry (entry_of e o processing_fee e.fee_minor (neg e.fee_minor)) booked
  ok (mark_event e applied (order_history e o queued (payment_history e o captured charged)))

unfoldable pub apply_failed : Event → Order → Db → Result Db
apply_failed e o db = ok (
    mark_event e applied (
      order_history e o OrderStatus.payment_failed
        (payment_history e o failed (update_order o.order_id (failed_order e) db))))

-- A refund that has gone through is booked against the order.
unfoldable pub apply_refunded : Event → Order → Db → Result Db
apply_refunded e o db = do
  booked ←
      add_entry (entry_of e o refund e.amount_minor (neg e.amount_minor))
        (update_order o.order_id (refunded_order e) db)
  ok (mark_event e applied (payment_history e o refunded booked))

unfoldable pub apply_moved : PaymentStatus → Event → Order → Db → Result Db
apply_moved target e o db = ok (
    mark_event e applied
      (payment_history e o target (update_order o.order_id (moved_order target e) db)))

abbrev pub progress : Result Db → Result (Bool × Db)
progress r = do db ← r; ok (true, db)

-- The branches on an allowed target. A capture waits until the order is pending payment.
unfoldable pub apply_event : PaymentStatus → Event → Order → Db → Result (Bool × Db)
apply_event captured e o db =
    if same_order_status o.order_status payment_pending
    then progress (apply_captured e o db)
    else ok (false, db)
apply_event failed e o db = progress (apply_failed e o db)
apply_event refunded e o db = progress (apply_refunded e o db)
apply_event target e o db = progress (apply_moved target e o db)

-- The loop body: one pending event against the current order, and whether progress was made.
unfoldable pub process_event : EventRow → Db → Result (Bool × Db)
process_event row db = do
  let e = row.event
  o ← or_raise (order_of_payment e.payment_id db.orders) assertion_error
  let target = target_of e.type
  if not (eqb e.amount_minor o.quoted_amount_minor) || not (e.currency == o.currency)
      then ok (true, set_event_status e.event_id rejected_amount_mismatch none db)
      else if same_payment_status o.payment_status target
      then ok (
        true,
        mark_event e
            (if effect_matches e o target
              then applied_duplicate_effect
              else rejected_effect_conflict)
            db,
      )
      else if payment_allowed o.payment_status target
      then apply_event target e o db
      else ok (false, db)

-- The `for` loop over the pending events that the round began with.
unfoldable pub run_round : List EventRow → Db → Result (Bool × Db)
run_round [] db = ok (false, db)
run_round (row ∷ rows) db = do
  (made, after) ← process_event row db
  (later, final) ← run_round rows after
  ok (made || later, final)

-- `while made_progress`
unfoldable pub reconcile_payment : ℕ → String → Db → Result Db
reconcile_payment zero pid db = err out_of_fuel
reconcile_payment (suc fuel) pid db = do
  (made, after) ← run_round (pending_events pid db.events) db
  elim made [ true ↦ reconcile_payment fuel pid after | false ↦ ok after ]

-- Each round with progress settles an event, so one more round than pending events is enough.
abbrev pub rounds : String → Db → ℕ
rounds pid db = number_of (is_pending_of pid) db.events + 1

pub record Ingested : Type 0 where
  pub duplicate : Bool
  pub event_id : String
  pub event_status : EventStatus
  pub order : OrderView

-- An event identifier that is known: its payload must be the same.
unfoldable pub ingest_duplicate : Event → String → EventRow → Db → Result (Ingested × Db)
ingest_duplicate e digest existing db = do
  require (existing.payload_digest == digest) provider_event_conflict
  o ← or_raise (order_of_payment e.payment_id db.orders) type_error
  view ← order_view o.order_id db
  ok (
    record {
      duplicate = true;
      event_id = e.event_id;
      event_status = existing.status;
      order = view;
    },
    db,
  )

abbrev pub event_row : Event → String → String → EventRow
event_row e digest received = record {
  event_id = e.event_id;
  payload_digest = digest;
  event = e;
  status = EventStatus.pending;
  received_at = received;
  applied_at = none;
}

abbrev pub add_event : EventRow → Db → Db
add_event r db = record db { events = db.events ++ r ∷ [] }

-- A new event is stored as pending, and the events of its payment are reconciled.
unfoldable pub ingest_new : Event → String → String → Db → Result (Ingested × Db)
ingest_new e digest received db = do
  o ← or_raise (order_of_payment e.payment_id db.orders) unknown_provider_payment
  require (same_provider o.provider e.provider) invalid_commerce_event
  let inserted = add_event (event_row e digest received) db
  after ← reconcile_payment (rounds e.payment_id inserted) e.payment_id inserted
  row ← or_raise (find_event e.event_id after.events) type_error
  view ← order_view o.order_id after
  ok (
    record { duplicate = false; event_id = e.event_id; event_status = row.status; order = view },
    after,
  )

unfoldable pub ingest_provider_event : Platform → Json → String → Db → Result (Ingested × Db)
ingest_provider_event p value received db = do
  e ← validate_event p db.environment value
  parse_timestamp p invalid_commerce_event received
  let digest = p.sha256 (p.dumps value)
  elim (find_event e.event_id db.events) [
    | some existing ↦ ingest_duplicate e digest existing db
    | none ↦ ingest_new e digest received db
  ]
