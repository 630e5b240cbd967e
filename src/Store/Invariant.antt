-- ===== src/Store/Invariant.antt =====
-- The invariant of the order table and its ledger, and how an order may change.
use vouchspec.Base.{
  ◌∙◌, ℕ, ◌≡◌, refl, subst, String, Bool, true, false, Option, none, some, List, [], ◌==◌,
  Bool-cases, inl, inr, text_refl, text-eq, is_some,
}
use vouchspec.Commerce.Status.{
  OrderStatus, PaymentStatus, OrderReach, PaymentReach, OrderReach-trans, PaymentReach-trans,
  checkout_pending, payment_pending, queued, running, delivered, payment_failed, fulfillment_failed,
  pending, failed, refunded, same_order_status,
}
use vouchspec.Store.Tables.{Environment, Provider, Order, Entry, find_order}
use vouchspec.Store.Ledger.{Ledger, Ledger-nil}
use vouchspec.Table.{Unique, update, find-update, update-Unique, find_key}

-- What is agreed when an order is placed.
pub record Terms : Type 0 where
  pub order_id : String
  pub environment : Environment
  pub quote_id : String
  pub idempotency_key : String
  pub buyer_reference : String
  pub provider : Provider
  pub quoted_amount_minor : ℕ
  pub currency : String
  pub counts_for_goal : Bool
  pub created_at : String

abbrev pub terms_of : Order → Terms
terms_of o = record {
  order_id = o.order_id;
  environment = o.environment;
  quote_id = o.quote_id;
  idempotency_key = o.idempotency_key;
  buyer_reference = o.buyer_reference;
  provider = o.provider;
  quoted_amount_minor = o.quoted_amount_minor;
  currency = o.currency;
  counts_for_goal = o.counts_for_goal;
  created_at = o.created_at;
}

-- What a run of operations may do to an order: its terms stay, its statuses move along the
-- transition tables, and what was bound or recorded stays so.
pub record Evolves (a b : Order) : Type 0 where
  pub terms : terms_of b ≡ terms_of a
  pub order_path : OrderReach a.order_status b.order_status
  pub payment_path : PaymentReach a.payment_status b.payment_status
  pub checkout : (c : String) → a.provider_checkout_id ≡ some c → b.provider_checkout_id ≡ some c
  pub payment : (c : String) → a.provider_payment_id ≡ some c → b.provider_payment_id ≡ some c
  pub costs : a.direct_costs_recorded ≡ true → b.direct_costs_recorded ≡ true

pub Evolves-refl : (a : Order) → Evolves a a
Evolves-refl a = record {
  terms = refl;
  order_path = OrderReach.here;
  payment_path = PaymentReach.here;
  checkout = λ c h. h;
  payment = λ c h. h;
  costs = λ h. h;
}

pub Evolves-trans : (a b c : Order) → Evolves a b → Evolves b c → Evolves a c
Evolves-trans a b c p q = record {
  terms = q.terms ∙ p.terms;
  order_path = OrderReach-trans p.order_path q.order_path;
  payment_path = PaymentReach-trans p.payment_path q.payment_path;
  checkout = λ x h. q.checkout x (p.checkout x h);
  payment = λ x h. q.payment x (p.payment x h);
  costs = λ h. q.costs (p.costs h);
}

-- The order statuses that go with a payment status.
abbrev pub stage_ok : PaymentStatus → OrderStatus → Bool
stage_ok pending checkout_pending = true
stage_ok pending payment_pending = true
stage_ok pending _ = false
stage_ok failed payment_failed = true
stage_ok failed _ = false
stage_ok _ queued = true
stage_ok _ running = true
stage_ok _ delivered = true
stage_ok _ fulfillment_failed = true
stage_ok _ _ = false

-- The amounts that go with a payment status: quoted, collected, refunded, fee.
abbrev pub AmountsOk : PaymentStatus → ℕ → ℕ → ℕ → ℕ → Type 0
AmountsOk pending quoted collected back fee = (collected ≡ 0) × (back ≡ 0) × (fee ≡ 0)
AmountsOk failed quoted collected back fee = (collected ≡ 0) × (back ≡ 0) × (fee ≡ 0)
AmountsOk refunded quoted collected back fee = (collected ≡ quoted) × (back ≡ quoted)
AmountsOk _ quoted collected back fee = (collected ≡ quoted) × (back ≡ 0)

abbrev pub MoneyOk : PaymentStatus → Order → Type 0
MoneyOk s o =
    AmountsOk s o.quoted_amount_minor o.collected_amount_minor o.refunded_amount_minor
      o.processing_fee_minor

-- An order by itself: its statuses and amounts fit together, a payment is bound only after a
-- checkout, a checkout only after the order left `checkout_pending`, a delivered order has its
-- costs recorded and its receipt bound, and no order counts towards the goal.
pub record IsSound (o : Order) : Type 0 where
  pub stage : stage_ok o.payment_status o.order_status ≡ true
  pub money : MoneyOk o.payment_status o
  pub paid_checkout : is_some o.provider_payment_id ≡ true → is_some o.provider_checkout_id ≡ true
  pub new_checkout :
      same_order_status o.order_status checkout_pending ≡ true
      → is_some o.provider_checkout_id ≡ false
  pub delivered_costs :
      same_order_status o.order_status delivered ≡ true → o.direct_costs_recorded ≡ true
  pub delivered_receipt :
      same_order_status o.order_status delivered ≡ true → is_some o.receipt_id ≡ true
  pub goal : o.counts_for_goal ≡ false

abbrev pub LedgerOf : List Entry → Order → Type 0
LedgerOf es o =
    Ledger es o.order_id o.collected_amount_minor o.processing_fee_minor o.refunded_amount_minor

-- At each identifier: the order there is sound and its entries add up; where there is no order,
-- nothing has been booked.
abbrev pub At : List Entry → String → Option Order → Type 0
At es k none = Ledger es k 0 0 0
At es k (some o) = IsSound o × LedgerOf es o

pub record IsValid (os : List Order) (es : List Entry) : Type 0 where
  pub unique : Unique (λ (o : Order). o.order_id) os
  pub at : (k : String) → At es k (find_order k os)

-- No order is lost, and each evolves.
abbrev pub Keeps : List Order → List Order → Type 0
Keeps os os' =
    (k : String) (o : Order)
    → find_order k os ≡ some o
    → (o' : Order) × (find_order k os' ≡ some o') × Evolves o o'

pub record Advances (os : List Order) (os' : List Order) (es' : List Entry) : Type 0 where
  pub valid : IsValid os' es'
  pub keeps : Keeps os os'

pub Keeps-refl : (os : List Order) → Keeps os os
Keeps-refl os k o h = (o, h, Evolves-refl o)

pub Keeps-trans : (a b c : List Order) → Keeps a b → Keeps b c → Keeps a c
Keeps-trans a b c p q k o h =
    let (o', h', e) = p k o h in
    let (o'', h'', e') = q k o' h' in (o'', h'', Evolves-trans o o' o'' e e')

pub Advances-trans :
    (a b c : List Order) (es es' : List Entry)
    → Advances a b es
    → Advances b c es'
    → Advances a c es'
Advances-trans a b c es es' p q = record {
  valid = q.valid;
  keeps = Keeps-trans a b c p.keeps q.keeps;
}

pub Advances-refl : (os : List Order) (es : List Entry) → IsValid os es → Advances os os es
Advances-refl os es v = record { valid = v; keeps = Keeps-refl os }

pub IsValid-nil : IsValid [] []
unfolding find_order
IsValid-nil = record { unique = tt; at = λ k. Ledger-nil k }

-- The order that an identifier finds is sound, and is the order of that identifier.
module _ (k : String) (os : List Order) (es : List Entry) (o : Order) where
  pub found_id : find_order k os ≡ some o → o.order_id ≡ k
  unfolding find_order
  found_id h = find_key (λ (x : Order). x.order_id) k os o h

  pub found_At : IsValid os es → find_order k os ≡ some o → IsSound o × LedgerOf es o
  found_At v h = rw h at (v.at k)

-- The entries of other orders are as they were.
abbrev pub SameElsewhere : String → List Entry → List Entry → Type 0
SameElsewhere k es es' =
    (j : String) (c f r : ℕ) → (k == j) ≡ false → Ledger es j c f r → Ledger es' j c f r

module _ (k : String) (f : Order → Order) (os : List Order) (es es' : List Entry) (o : Order)
    (v : IsValid os es) (found : find_order k os ≡ some o)
    (same_id : (r : Order) → (f r).order_id ≡ r.order_id) where
  At-elsewhere :
      (j : String) (x : Option Order)
      → (k == j) ≡ false
      → SameElsewhere k es es'
      → ((o : Order) → x ≡ some o → o.order_id ≡ j)
      → At es j x
      → At es' j x
  At-elsewhere j none e s id a = s j 0 0 0 e a
  At-elsewhere j (some x) e s id a = (a.0, s x.order_id _ _ _ (rw (id x refl) e) a.1)

  find-update_self : find_order k (update (λ (x : Order). x.order_id) k f os) ≡ some (f o)
  unfolding find_order
  find-update_self =
      rw (find-update (λ (x : Order). x.order_id) k k f os same_id) (rw (text_refl k) (rw found))

  find-update_other :
      (j : String)
      → (k == j) ≡ false
      → find_order j (update (λ (x : Order). x.order_id) k f os) ≡ find_order j os
  unfolding find_order
  find-update_other j e = rw (find-update (λ (x : Order). x.order_id) k j f os same_id) (rw e)

  update-At :
      SameElsewhere k es es'
      → IsSound (f o) × LedgerOf es' (f o)
      → (j : String) → At es' j (find_order j (update (λ (x : Order). x.order_id) k f os))
  update-At s here j = elim (Bool-cases (k == j)) [
    | inl e ↦ rw (← text-eq k j e) (rw find-update_self here)
    | inr e ↦
        rw (find-update_other j e) (At-elsewhere j _ e s (λ x h. found_id j os es x h) (v.at j))
  ]

  update-Keeps : Evolves o (f o) → Keeps os (update (λ (x : Order). x.order_id) k f os)
  update-Keeps e j x h = elim (Bool-cases (k == j)) [
    | inl same ↦ (
      f o,
      rw (← text-eq k j same) find-update_self,
      subst (λ y. Evolves y (f o)) (cc (found, h, text-eq k j same)) e,
    )
    | inr other ↦ (x, rw (find-update_other j other) h, Evolves-refl x)
  ]

  -- One order changes, and its entries with it: the invariant holds again if it holds of that order.
  pub advance :
      SameElsewhere k es es'
      → IsSound (f o) × LedgerOf es' (f o)
      → Evolves o (f o)
      → Advances os (update (λ (x : Order). x.order_id) k f os) es'
  advance s here e = record {
    valid = record {
      unique = update-Unique (λ (x : Order). x.order_id) k f os same_id v.unique;
      at = update-At s here;
    };
    keeps = update-Keeps e;
  }
