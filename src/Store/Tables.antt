-- ===== src/Store/Tables.antt =====
-- The tables of commerce_store.py (`_initialize`), the constraint-checked writes, and the helpers
-- `_require_order`, `_history`, `_financial_entry` and `_mark_event`. A transaction is a function of
-- the database; `err` rolls it back (`_connection`).
use vouchspec.Base.{
  ℕ, String, Bool, true, false, not, ◌&&◌, ◌||◌, Option, none, some, List, [], ◌∷◌, ◌++◌, eqb, ◌==◌,
  if◌then◌else◌, same_text,
}
use vouchspec.Base.Lists.{any, first}
use vouchspec.Base.Int.{ℤ}
use vouchspec.Errors.{
  Result, ok, err, or_raise, unknown_order, integrity_error, commerce_environment_mismatch,
}
use vouchspec.Commerce.Status.{OrderStatus, PaymentStatus}
use vouchspec.Commerce.Request.{Request}
use vouchspec.Commerce.Quote.{QuoteDocument}
use vouchspec.Table.{find, update}

pub data Environment : Type 0 where
  sandbox live : Environment

abbrev pub same_environment : Environment → Environment → Bool
same_environment sandbox sandbox = true
same_environment live live = true
same_environment _ _ = false

pub data Provider : Type 0 where
  fake stripe : Provider

abbrev pub same_provider : Provider → Provider → Bool
same_provider fake fake = true
same_provider stripe stripe = true
same_provider _ _ = false

pub record QuoteRow : Type 0 where
  pub quote_id : String
  pub environment : Environment
  pub request_json : String
  pub quote_json : String
  pub request : Request
  pub document : QuoteDocument
  pub amount_minor : ℕ
  pub currency : String
  pub expires_at : String
  pub orderable : Bool
  pub counts_for_goal : Bool

pub data DeliveryStatus : Type 0 where
  not_started running delivered failed : DeliveryStatus

pub record Order : Type 0 where
  pub order_id : String
  pub environment : Environment
  pub quote_id : String
  pub idempotency_key : String
  pub buyer_reference : String
  pub provider : Provider
  pub provider_checkout_id : Option String
  pub provider_payment_id : Option String
  pub order_status : OrderStatus
  pub payment_status : PaymentStatus
  pub quoted_amount_minor : ℕ
  pub collected_amount_minor : ℕ
  pub refunded_amount_minor : ℕ
  pub processing_fee_minor : ℕ
  pub currency : String
  pub direct_costs_recorded : Bool
  pub receipt_id : Option String
  pub receipt_sha256 : Option String
  pub envelope_sha256 : Option String
  pub signing_keyid : Option String
  pub delivery_status : DeliveryStatus
  pub counts_for_goal : Bool
  pub created_at : String
  pub updated_at : String

-- The types of `_EVENT_TYPES`, with the payment status that each leads to.
pub data EventType : Type 0 where
  payment_captured payment_available payment_failed : EventType
  payment_refund_pending payment_refunded payment_disputed : EventType

-- A provider event that `_validate_event` has accepted.
pub record Event : Type 0 where
  pub event_id : String
  pub provider : Provider
  pub type : EventType
  pub payment_id : String
  pub amount_minor : ℕ
  pub fee_minor : ℕ
  pub currency : String
  pub occurred_at : String

pub data EventStatus : Type 0 where
  pending applied applied_duplicate_effect : EventStatus
  rejected_effect_conflict rejected_amount_mismatch : EventStatus

abbrev pub is_pending : EventStatus → Bool
is_pending EventStatus.pending = true
is_pending _ = false

-- A row of `provider_events`; `event` is what `json.loads(payload_json)` gives back.
pub record EventRow : Type 0 where
  pub event_id : String
  pub payload_digest : String
  pub event : Event
  pub status : EventStatus
  pub received_at : String
  pub applied_at : Option String

-- `DIRECT_COST_CATEGORIES`
pub data DirectCost : Type 0 where
  compute third_party hosting storage model network signing monitoring : DirectCost
  direct_support other_variable : DirectCost

pub data Category : Type 0 where
  gross_collected processing_fee refund : Category
  direct : DirectCost → Category

-- The place of a category in the tuple.
abbrev pub cost_index : DirectCost → ℕ
cost_index compute = 0
cost_index third_party = 1
cost_index hosting = 2
cost_index storage = 3
cost_index model = 4
cost_index network = 5
cost_index signing = 6
cost_index monitoring = 7
cost_index direct_support = 8
cost_index other_variable = 9

abbrev pub same_category : Category → Category → Bool
same_category gross_collected gross_collected = true
same_category processing_fee processing_fee = true
same_category refund refund = true
same_category (direct c) (direct d) = eqb (cost_index c) (cost_index d)
same_category _ _ = false

-- A row of `financial_entries`.
pub record Entry : Type 0 where
  pub order_id : String
  pub category : Category
  pub amount_minor : ℕ
  pub impact_minor : ℤ
  pub source_reference : String
  pub recorded_at : String

pub record CostRecord : Type 0 where
  pub order_id : String
  pub idempotency_key : String
  pub costs_json : String
  pub recorded_at : String

-- A row of `order_history`, by the dimension that it is about.
pub data Change : Type 0 where
  order_change : Option OrderStatus → OrderStatus → Change
  payment_change : PaymentStatus → PaymentStatus → Change

pub record History : Type 0 where
  pub order_id : String
  pub change : Change
  pub source_reference : String
  pub occurred_at : String

pub record Db : Type 0 where
  pub environment : Environment
  pub quotes : List QuoteRow
  pub orders : List Order
  pub events : List EventRow
  pub entries : List Entry
  pub cost_records : List CostRecord
  pub history : List History

-- A store that has just been created.
abbrev pub empty_store : Environment → Db
empty_store e = record {
  environment = e;
  quotes = [];
  orders = [];
  events = [];
  entries = [];
  cost_records = [];
  history = [];
}

-- The rows of `metadata` as `_initialize` finds them.
pub record Metadata : Type 0 where
  pub schema_version : String
  pub environment : Environment

-- The metadata checks of `_initialize`: a new store is bound to its environment, version 2 is
-- upgraded, and any other mismatch is refused.
unfoldable pub initialize : Environment → Option Metadata → Result Metadata
initialize e none = ok (record { schema_version = "3"; environment = e })
initialize e (some m) =
    if not (same_environment m.environment e)
    then err commerce_environment_mismatch
    else if m.schema_version == "2" || m.schema_version == "3"
    then ok (record { schema_version = "3"; environment = e })
    else err commerce_environment_mismatch

unfoldable pub find_order : String → List Order → Option Order
unfolding find
find_order k = find (λ o. o.order_id) k

unfoldable pub update_order : String → (Order → Order) → Db → Db
unfolding update
update_order k f db = record db { orders = update (λ (o : Order). o.order_id) k f db.orders }

-- `SELECT * FROM orders WHERE provider_payment_id = ?`
abbrev pub order_of_payment : String → List Order → Option Order
order_of_payment pid = first (λ o. same_text o.provider_payment_id (some pid))

unfoldable pub require_order : String → Db → Result Order
require_order k db = or_raise (find_order k db.orders) unknown_order

unfoldable pub add_history : String → Change → String → String → Db → Db
add_history order_id change source_reference occurred_at db = record db {
  history =
      db.history
      ++ record {
        order_id = order_id;
        change = change;
        source_reference = source_reference;
        occurred_at = occurred_at;
      }
        ∷ [];
}

abbrev pub same_entry : Entry → Entry → Bool
same_entry a b =
    a.order_id == b.order_id
    && same_category a.category b.category
    && a.source_reference == b.source_reference

-- `_financial_entry`, with UNIQUE(order_id, category, source_reference).
unfoldable pub add_entry : Entry → Db → Result Db
add_entry e db =
    if any (same_entry e) db.entries
    then err integrity_error
    else ok (record db { entries = db.entries ++ e ∷ [] })

unfoldable pub find_event : String → List EventRow → Option EventRow
unfolding find
find_event k = find (λ r. r.event_id) k

-- The SET clause of the event updates; the amount mismatch leaves `applied_at` alone.
abbrev pub settled : EventStatus → Option String → EventRow → EventRow
settled status moment r = record r {
  status = status;
  applied_at = elim moment [ none ↦ r.applied_at | some t ↦ some t ];
}

-- `UPDATE provider_events SET status = ?, applied_at = ? WHERE event_id = ?`
unfoldable pub set_event_status : String → EventStatus → Option String → Db → Db
unfolding update
set_event_status k status moment db = record db {
  events = update (λ (r : EventRow). r.event_id) k (settled status moment) db.events;
}

-- `_mark_event`
unfoldable pub mark_event : Event → EventStatus → Db → Db
unfolding set_event_status
mark_event e status = set_event_status e.event_id status (some e.occurred_at)

-- The UNIQUE constraints of `orders` on a nullable column, for the update of another row.
abbrev pub taken : (Order → Option String) → String → Option String → List Order → Bool
taken column order_id none orders = false
taken column order_id (some v) orders =
    any (λ o. not (o.order_id == order_id) && same_text (column o) (some v)) orders
