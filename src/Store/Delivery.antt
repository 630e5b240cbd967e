-- ===== src/Store/Delivery.antt =====
-- `record_direct_costs`, `begin_fulfillment`, `fail_fulfillment`, `_transition_order` and `deliver`
-- of commerce_store.py.
use vouchspec.Base.{
  ℕ, String, Bool, true, ◌&&◌, none, some, List, [], ◌∷◌, ◌++◌, ◌==◌, if◌then◌else◌, same_text,
  is_some,
}
use vouchspec.Base.Lists.{all, first}
use vouchspec.Base.Int.{neg}
use vouchspec.Errors.{
  Result, ok, ◌>>=◌, ◌>>◌, require, reject, invalid_commerce_event, invalid_cost_record,
  costs_already_recorded, cost_record_required, idempotency_conflict, invalid_delivery,
}
use vouchspec.Text.{is_idempotency_key, is_receipt_id, is_sha256, is_key_id}
use vouchspec.Json.{object, Fields, has_exactly, at_bounded}
use vouchspec.Platform.{Platform, parse_timestamp}
use vouchspec.Commerce.Status.{OrderStatus, same_order_status, require_order_transition}
use vouchspec.Store.Tables.{
  Order, DeliveryStatus, DirectCost, compute, third_party, hosting, storage, model, network,
  signing, monitoring, direct_support, other_variable, direct, CostRecord, order_change, Db,
  require_order, update_order, add_history, add_entry, taken,
}
use vouchspec.Store.Views.{OrderView, order_view, direct_cost_categories}

abbrev cost_name : DirectCost → String
cost_name compute = "compute"
cost_name third_party = "third_party"
cost_name hosting = "hosting"
cost_name storage = "storage"
cost_name model = "model"
cost_name network = "network"
cost_name signing = "signing"
cost_name monitoring = "monitoring"
cost_name direct_support = "direct_support"
cost_name other_variable = "other_variable"

abbrev cost_names : List DirectCost → List String
cost_names [] = []
cost_names (c ∷ cs) = cost_name c ∷ cost_names cs

-- `costs[category]` of costs that have been checked.
abbrev pub cost_in : Fields → DirectCost → ℕ
cost_in costs c = elim (at_bounded (cost_name c) 0 10_000_000 costs) [ none ↦ 0 | some n ↦ n ]

-- Every category, nothing else, and each an integer from 0 to 10 000 000.
unfoldable pub valid_costs : Fields → Bool
valid_costs costs =
    has_exactly (cost_names direct_cost_categories) costs
    && all (λ c. is_some (at_bounded (cost_name c) 0 10_000_000 costs)) direct_cost_categories

-- The loop that books each category.
unfoldable pub add_costs :
    (DirectCost → ℕ) → String → String → String → List DirectCost → Db → Result Db
add_costs costs order_id key timestamp [] db = ok db
add_costs costs order_id key timestamp (c ∷ cs) db = do
  after ←
      add_entry
        (record {
          order_id = order_id;
          category = direct c;
          amount_minor = costs c;
          impact_minor = neg (costs c);
          source_reference = key;
          recorded_at = timestamp;
        })
        db
  add_costs costs order_id key timestamp cs after

abbrev pub with_costs : String → Order → Order
with_costs timestamp o = record o { direct_costs_recorded = true; updated_at = timestamp }

abbrev add_cost_record : CostRecord → Db → Db
add_cost_record r db = record db { cost_records = db.cost_records ++ r ∷ [] }

abbrev pub same_record : String → String → CostRecord → Bool
same_record order_id key r = r.order_id == order_id && r.idempotency_key == key

-- The first record of an order's costs; once recorded they are final.
unfoldable pub record_new_costs :
    (DirectCost → ℕ) → String → String → String → Order → Db → Result (OrderView × Db)
record_new_costs costs serialized key timestamp order db = do
  reject order.direct_costs_recorded costs_already_recorded
  let recorded =
      add_cost_record
        (record {
          order_id = order.order_id;
          idempotency_key = key;
          costs_json = serialized;
          recorded_at = timestamp;
        })
        db
  booked ← add_costs costs order.order_id key timestamp direct_cost_categories recorded
  let after = update_order order.order_id (with_costs timestamp) booked
  view ← order_view order.order_id after
  ok (view, after)

unfoldable pub record_direct_costs :
    Platform → String → Fields → String → String → Db → Result (OrderView × Db)
record_direct_costs p order_id costs key timestamp db = do
  require (valid_costs costs) invalid_cost_record
  require (is_idempotency_key key) invalid_cost_record
  let serialized = p.dumps (object costs)
  parse_timestamp p invalid_commerce_event timestamp
  order ← require_order order_id db
  elim (first (same_record order_id key) db.cost_records) [
    | some existing ↦ (do
      require (existing.costs_json == serialized) idempotency_conflict
      view ← order_view order_id db
      ok (view, db))
    | none ↦ record_new_costs (cost_in costs) serialized key timestamp order db
  ]

abbrev pub transitioned : OrderStatus → DeliveryStatus → String → Order → Order
transitioned target delivery occurred_at o = record o {
  order_status = target;
  delivery_status = delivery;
  updated_at = occurred_at;
}

-- `_transition_order`
unfoldable pub transition_order :
    Platform
    → String
    → OrderStatus
    → String
    → String
    → DeliveryStatus
    → Db
    → Result (OrderView × Db)
transition_order p order_id target source_reference occurred_at delivery db = do
  parse_timestamp p invalid_commerce_event occurred_at
  order ← require_order order_id db
  if same_order_status order.order_status target
      then (do view ← order_view order_id db; ok (view, db))
      else (do
        require_order_transition order.order_status target
        let after =
            add_history order_id (order_change (some order.order_status) target) source_reference
              occurred_at (update_order order_id (transitioned target delivery occurred_at) db)
        view ← order_view order_id after
        ok (view, after))

unfoldable pub begin_fulfillment :
    Platform → String → String → String → Db → Result (OrderView × Db)
begin_fulfillment p order_id source_reference occurred_at =
    transition_order p order_id OrderStatus.running source_reference occurred_at
      DeliveryStatus.running

unfoldable pub fail_fulfillment : Platform → String → String → String → Db → Result (OrderView × Db)
fail_fulfillment p order_id source_reference occurred_at =
    transition_order p order_id OrderStatus.fulfillment_failed source_reference occurred_at
      DeliveryStatus.failed

-- What a delivery binds to the order.
pub record Evidence : Type 0 where
  pub receipt_id : String
  pub receipt_sha256 : String
  pub envelope_sha256 : String
  pub signing_keyid : String

unfoldable pub valid_evidence : Evidence → Bool
valid_evidence v =
    is_receipt_id v.receipt_id
    && is_sha256 v.receipt_sha256
    && is_sha256 v.envelope_sha256
    && is_key_id v.signing_keyid

abbrev pub same_evidence : Evidence → Order → Bool
same_evidence v o =
    same_text o.receipt_id (some v.receipt_id)
    && same_text o.receipt_sha256 (some v.receipt_sha256)
    && same_text o.envelope_sha256 (some v.envelope_sha256)
    && same_text o.signing_keyid (some v.signing_keyid)

abbrev pub delivered_order : Evidence → String → Order → Order
delivered_order v occurred_at o = record o {
  order_status = OrderStatus.delivered;
  receipt_id = some v.receipt_id;
  receipt_sha256 = some v.receipt_sha256;
  envelope_sha256 = some v.envelope_sha256;
  signing_keyid = some v.signing_keyid;
  delivery_status = DeliveryStatus.delivered;
  updated_at = occurred_at;
}

unfoldable pub deliver :
    Platform → String → Evidence → String → String → Db → Result (OrderView × Db)
deliver p order_id v source_reference occurred_at db = do
  require (valid_evidence v) invalid_delivery
  parse_timestamp p invalid_commerce_event occurred_at
  order ← require_order order_id db
  require order.direct_costs_recorded cost_record_required
  if same_order_status order.order_status OrderStatus.delivered
      then (do
        require (same_evidence v order) idempotency_conflict
        view ← order_view order_id db
        ok (view, db))
      else (do
        require_order_transition order.order_status OrderStatus.delivered
        reject (taken (λ o. o.receipt_id) order_id (some v.receipt_id) db.orders)
            idempotency_conflict
        let after =
            add_history order_id (order_change (some order.order_status) OrderStatus.delivered)
              source_reference occurred_at
              (update_order order_id (delivered_order v occurred_at) db)
        view ← order_view order_id after
        ok (view, after))
