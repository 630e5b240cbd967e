-- ===== src/Store/PaymentFacts.antt =====
-- What the proofs about `_reconcile_payment` use: the statuses that a payment may come from, and
-- the order that a payment identifies.
use vouchspec.Base.{
  ℕ, ◌≡◌, refl, String, Bool, true, false, not, ◌||◌, some, List, [], ◌∷◌, ◌++◌, arith, eqb,
  if◌then◌else◌, same_text, is_some,
}
use vouchspec.Base.Lists.{first_holds}
use vouchspec.Errors.{Result, ok, err, integrity_error, ◌>>=◌, chains}
use vouchspec.Errors.Ensures.{Ensures, Ensures-ok, Ensures-err, Ensures-bind}
use vouchspec.Commerce.Status.{
  OrderStatus, PaymentStatus, checkout_pending, pending, captured, available, refund_pending,
  refunded, disputed, failed, same_order_status, payment_allowed,
}
use vouchspec.Store.Tables.{Order, Event, Entry, Db, add_entry, find_order, order_of_payment}
use vouchspec.Store.Invariant.{IsValid, Advances, MoneyOk, stage_ok}
use vouchspec.Store.Reconcile.{progress, moved_order}
use vouchspec.Table.{find-first}

-- What an operation makes of a valid database.
abbrev pub Next : Db → Db → Type 0
Next db db' = Advances db.orders db'.orders db'.entries

abbrev pub IsValidDb : Db → Type 0
IsValidDb db = IsValid db.orders db.entries

pub Ensures-add_entry {ℓ κ} :
    {A : Type ℓ} {P : A → Type κ} (e : Entry) (db : Db) (f : Db → Result A)
    → Ensures P (f (record db { entries = db.entries ++ e ∷ [] }))
    → Ensures P (add_entry e db >>= f)
unfolding add_entry chains
Ensures-add_entry {P} e db f h = unless_taken _
  where
    unless_taken :
        (b : Bool)
        → Ensures P (
            (if b then err integrity_error else ok (record db { entries = db.entries ++ e ∷ [] }))
            >>= f)
    unless_taken true = Ensures-err _
    unless_taken false = h

pub same_order_status-eq : (s t : OrderStatus) → same_order_status s t ≡ true → s ≡ t
same_order_status-eq checkout_pending t h = ground arith
same_order_status-eq s t h = ground arith

pub order_of_payment-find :
    (pid : String) (db : Db) (o : Order)
    → IsValidDb db
    → order_of_payment pid db.orders ≡ some o
    → find_order o.order_id db.orders ≡ some o
unfolding find_order
order_of_payment-find pid db o v h = find-first (λ (x : Order). x.order_id) _ db.orders o v.unique h

-- The order that a payment finds has it bound.
pub order_of_payment-bound :
    (pid : String) (os : List Order) (o : Order)
    → order_of_payment pid os ≡ some o
    → is_some o.provider_payment_id ≡ true
order_of_payment-bound pid os o h =
    ground (arith, first_holds (λ (x : Order). same_text x.provider_payment_id (some pid)) os o h)

-- The targets that leave the order's own status and its amounts alone.
abbrev pub is_move : PaymentStatus → Bool
is_move available = true
is_move refund_pending = true
is_move disputed = true
is_move _ = false

pub moved_stage :
    (s t : PaymentStatus) (x : OrderStatus)
    → is_move t ≡ true
    → payment_allowed s t ≡ true
    → stage_ok s x ≡ true
    → stage_ok t x ≡ true
moved_stage pending t x m h k = ground arith
moved_stage s t x m h k = ground arith

pub moved_money :
    (s t : PaymentStatus) (e : Event) (o : Order)
    → is_move t ≡ true
    → payment_allowed s t ≡ true
    → MoneyOk s o
    → MoneyOk t (moved_order t e o)
moved_money pending t e o m h k = ground arith
moved_money s t e o m h k = ground arith

pub allowed_captured : (s : PaymentStatus) → payment_allowed s captured ≡ true → s ≡ pending
allowed_captured pending h = refl
allowed_captured s h = ground arith

pub allowed_failed : (s : PaymentStatus) → payment_allowed s failed ≡ true → s ≡ pending
allowed_failed pending h = refl
allowed_failed s h = ground arith

pub allowed_refunded : (s : PaymentStatus) → payment_allowed s refunded ≡ true → s ≡ refund_pending
allowed_refunded pending h = ground arith
allowed_refunded s h = ground arith

pub not_allowed_pending : (s : PaymentStatus) → payment_allowed s pending ≡ true → ⊥
not_allowed_pending pending h = cc
not_allowed_pending s h = cc

pub amounts_agree : (a b : ℕ) (c : Bool) → (not (eqb a b) || c) ≡ false → a ≡ b
amounts_agree a b c h = ground arith

pub Ensures-progress :
    (db : Db) (m : Result Db) → Ensures (Next db) m → Ensures (λ r. Next db r.1) (progress m)
Ensures-progress db m h = Ensures-bind λ d k. Ensures-ok _ (h.result d k)
