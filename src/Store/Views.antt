-- ===== src/Store/Views.antt =====
-- The read side of commerce_store.py: `_order_view`, `get_order`, `get_quote`,
-- `list_delivered_orders` and `get_financial_summary`.
use Prim.Native.Nat.{Ordering}
use Prim.Native.String.{compare}
use vouchspec.Base.{
  Option, same_text, ℕ, ◌+◌, String, Bool, true, false, ◌&&◌, none, some, List, [], ◌∷◌, ◌==◌,
  if◌then◌else◌,
}
use vouchspec.Base.Lists.{any, keep, length, number_of}
use vouchspec.Base.Int.{ℤ, pos, ◌+ℤ◌}
use vouchspec.Errors.{Result, ok, ◌>>=◌, ◌>>◌, require, or_raise, object_not_found, unknown_order}
use vouchspec.Commerce.Status.{OrderStatus, PaymentStatus, same_order_status}
use vouchspec.Commerce.Request.{Request}
use vouchspec.Commerce.Quote.{QuoteDocument}
use vouchspec.Store.Tables.{
  Environment, sandbox, live, same_environment, QuoteRow, Order, EventRow, is_pending, DirectCost,
  compute, third_party, hosting, storage, model, network, signing, monitoring, direct_support,
  other_variable, Category, direct, same_category, Entry, Db, require_order, find_order,
}
use vouchspec.Table.{find}

-- The sum of `contribution_impact_minor` over the entries of an order.
unfoldable pub contribution : String → List Entry → ℤ
contribution k [] = pos 0
contribution k (e ∷ es) =
    let rest = contribution k es in if e.order_id == k then e.impact_minor +ℤ rest else rest

-- The sum of `amount_minor` over the entries of an order in a category.
unfoldable pub amount_of : Category → String → List Entry → ℕ
amount_of c k [] = 0
amount_of c k (e ∷ es) =
    (if e.order_id == k && same_category e.category c then e.amount_minor else 0) + amount_of c k es

abbrev pub direct_cost_categories : List DirectCost
direct_cost_categories =
    compute ∷ third_party ∷ hosting ∷ storage ∷ model ∷ network ∷ signing ∷ monitoring
    ∷ direct_support ∷ other_variable ∷ []

unfoldable pub costs_of : String → List Entry → List DirectCost → List (DirectCost × ℕ)
costs_of k es [] = []
costs_of k es (c ∷ cs) = (c, amount_of (direct c) k es) ∷ costs_of k es cs

pub data RefundStatus : Type 0 where
  not_refunded refund_pending refunded disputed : RefundStatus

unfoldable pub refund_status : PaymentStatus → RefundStatus
refund_status PaymentStatus.refund_pending = RefundStatus.refund_pending
refund_status PaymentStatus.refunded = RefundStatus.refunded
refund_status PaymentStatus.disputed = RefundStatus.disputed
refund_status _ = not_refunded

pub data SettlementStatus : Type 0 where
  sandbox_nonsettling available_not_goal_qualified available_goal_qualified : SettlementStatus
  pending_provider_availability not_confirmed : SettlementStatus

unfoldable pub settlement_status : Environment → PaymentStatus → Bool → SettlementStatus
settlement_status sandbox s g = sandbox_nonsettling
settlement_status live PaymentStatus.available false = available_not_goal_qualified
settlement_status live PaymentStatus.available true = available_goal_qualified
settlement_status live PaymentStatus.captured g = pending_provider_availability
settlement_status live _ g = not_confirmed

abbrev pub text_le : String → String → Bool
text_le a b = elim (compare a b) [ Ordering.gt ↦ false | _ ↦ true ]

-- `ORDER BY received_at, event_id`
abbrev pub event_le : EventRow → EventRow → Bool
event_le a b =
    if a.received_at == b.received_at
    then text_le a.event_id b.event_id
    else text_le a.received_at b.received_at

unfoldable pub insert_event : EventRow → List EventRow → List EventRow
insert_event r [] = r ∷ []
insert_event r (x ∷ xs) = if event_le r x then r ∷ x ∷ xs else x ∷ insert_event r xs

unfoldable pub sort_events : List EventRow → List EventRow
unfolding insert_event
sort_events [] = []
sort_events (x ∷ xs) = insert_event x (sort_events xs)

abbrev pub is_pending_of : String → EventRow → Bool
is_pending_of pid r = r.event.payment_id == pid && is_pending r.status

-- `SELECT … WHERE provider_payment_id = ? AND status = 'pending' ORDER BY received_at, event_id`
unfoldable pub pending_events : String → List EventRow → List EventRow
unfolding sort_events
pending_events pid rows = sort_events (keep (is_pending_of pid) rows)

-- The dictionary of `_order_view`: the columns of the order and what is derived from other tables.
pub record OrderView : Type 0 where
  pub order : Order
  pub direct_costs_minor : List (DirectCost × ℕ)
  pub gross_contribution_minor : ℤ
  pub refund_status : RefundStatus
  pub settlement_status : SettlementStatus
  pub pending_provider_events : List EventRow

unfoldable pub view_of : Db → Order → OrderView
view_of db o = record {
  order = o;
  direct_costs_minor = costs_of o.order_id db.entries direct_cost_categories;
  gross_contribution_minor = contribution o.order_id db.entries;
  refund_status = refund_status o.payment_status;
  settlement_status = settlement_status db.environment o.payment_status o.counts_for_goal;
  pending_provider_events = elim o.provider_payment_id [
    | none ↦ []
    | some pid ↦ pending_events pid db.events
  ];
}

unfoldable pub order_view : String → Db → Result OrderView
order_view k db = do o ← require_order k db; ok (view_of db o)

-- `get_order`
unfoldable pub get_order : String → Db → Result OrderView
unfolding order_view
get_order k db = do require_order k db; order_view k db

-- `get_quote`
unfoldable pub get_quote : String → Db → Result QuoteDocument
get_quote k db = do
  q ← or_raise (find (λ (q : QuoteRow). q.quote_id) k db.quotes) object_not_found
  require (same_environment q.environment db.environment) object_not_found
  ok q.document

-- `get_order_request`
unfoldable pub get_order_request : String → Db → Result Request
get_order_request k db = do
  o ← or_raise (find_order k db.orders) unknown_order
  q ← or_raise (find (λ (q : QuoteRow). q.quote_id) o.quote_id db.quotes) unknown_order
  ok q.request

-- A nullable text in the order of SQLite, where NULL comes first.
abbrev nullable_le : Option String → Option String → Bool
nullable_le none b = true
nullable_le (some a) none = false
nullable_le (some a) (some b) = text_le a b

-- `ORDER BY receipt_id, order_id`
abbrev order_le : Order → Order → Bool
order_le a b =
    if same_text a.receipt_id b.receipt_id
    then text_le a.order_id b.order_id
    else nullable_le a.receipt_id b.receipt_id

unfoldable pub insert_delivered : Order → List Order → List Order
insert_delivered o [] = o ∷ []
insert_delivered o (x ∷ xs) = if order_le o x then o ∷ x ∷ xs else x ∷ insert_delivered o xs

unfoldable pub sort_orders : List Order → List Order
unfolding insert_delivered
sort_orders [] = []
sort_orders (x ∷ xs) = insert_delivered x (sort_orders xs)

-- `list_delivered_orders`, as rows; each is shown by `view_of`.
unfoldable pub delivered_orders : Db → List Order
unfolding sort_orders
delivered_orders db =
    sort_orders (keep (λ o. same_order_status o.order_status OrderStatus.delivered) db.orders)

unfoldable pub sum_of : (Order → ℕ) → List Order → ℕ
sum_of f [] = 0
sum_of f (o ∷ os) = f o + sum_of f os

unfoldable pub sum_impacts : (Entry → Bool) → List Entry → ℤ
sum_impacts p [] = pos 0
sum_impacts p (e ∷ es) = let rest = sum_impacts p es in if p e then e.impact_minor +ℤ rest else rest

pub record Summary : Type 0 where
  pub orders : ℕ
  pub collected_amount_minor : ℕ
  pub refunded_amount_minor : ℕ
  pub processing_fee_minor : ℕ
  pub ledger_contribution_minor : ℤ
  pub counts_for_goal_contribution_minor : ℤ
  pub pending_provider_events : ℕ
  pub counts_for_goal_collected_minor : ℕ

-- Does the order of this entry count for the goal? (the JOIN of `goal_contribution`)
abbrev pub entry_counts : List Order → Entry → Bool
entry_counts os e = any (λ o. o.order_id == e.order_id && o.counts_for_goal) os

-- `get_financial_summary`
unfoldable pub financial_summary : Db → Summary
unfolding sum_of sum_impacts
financial_summary db = record {
  orders = length db.orders;
  collected_amount_minor = sum_of (λ o. o.collected_amount_minor) db.orders;
  refunded_amount_minor = sum_of (λ o. o.refunded_amount_minor) db.orders;
  processing_fee_minor = sum_of (λ o. o.processing_fee_minor) db.orders;
  ledger_contribution_minor = sum_impacts (λ e. true) db.entries;
  counts_for_goal_contribution_minor = sum_impacts (entry_counts db.orders) db.entries;
  pending_provider_events = number_of (λ r. is_pending r.status) db.events;
  counts_for_goal_collected_minor =
      sum_of (λ o. if o.counts_for_goal then o.collected_amount_minor else 0) db.orders;
}
