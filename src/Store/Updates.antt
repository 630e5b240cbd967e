-- ===== src/Store/Updates.antt =====
-- One order updated, or a view read: the steps that the proofs about the operations on orders share.
use vouchspec.Base.{
  ◌≡◌, refl, sym, subst, String, Bool, true, false, Option, none, some, [], ◌∷◌, ◌++◌, arith, ◌==◌,
  Bool-cases, inl, inr, text_refl, text-eq,
}
use vouchspec.Errors.{Error, Result, ok, ◌>>=◌, require, or_raise}
use vouchspec.Errors.Ensures.{Ensures, Ensures-ok, Ensures-bind}
use vouchspec.Commerce.Status.{OrderStatus, order_allowed, require_order_transition}
use vouchspec.Store.Tables.{Order, Db, find_order, require_order}
use vouchspec.Store.Views.{OrderView, order_view}
use vouchspec.Store.Invariant.{
  Evolves, IsSound, LedgerOf, Advances, Advances-refl, advance, found_id, Evolves-refl,
}
use vouchspec.Store.PaymentFacts.{Next, IsValidDb}
use vouchspec.Table.{Unique, find-append, append-Unique, update}

-- What a method returns: a view, and the database after it.
abbrev pub Keeping : Db → Result (OrderView × Db) → Type 0
Keeping db m = Ensures (λ (r : OrderView × Db). Next db r.1) m

pub unchanged :
    (db : Db) → IsValidDb db → (k : String) → Keeping db (do view ← order_view k db; ok (view, db))
unchanged db v k = Ensures-bind λ view _. Ensures-ok _ (Advances-refl db.orders db.entries v)

pub after_view :
    (db d : Db) → Next db d → (k : String) → Keeping db (do view ← order_view k d; ok (view, d))
after_view db d n k = Ensures-bind λ view _. Ensures-ok _ n

pub require_order-find :
    (k : String) (db : Db) (o : Order) → require_order k db ≡ ok o → find_order k db.orders ≡ some o
unfolding require_order or_raise
require_order-find k db o h = some_of _ _ h
  where
    some_of : (x : Option Order) (e : Error) → or_raise x e ≡ ok o → x ≡ some o
    some_of none e h = cc
    some_of (some x) e h = cc

-- The order that `_require_order` finds, under its own identifier.
pub found_self :
    (k : String) (db : Db) (o : Order)
    → require_order k db ≡ ok o
    → find_order o.order_id db.orders ≡ some o
found_self k db o h =
    let f = require_order-find k db o h in
    subst (λ i. find_order i db.orders ≡ some o) (sym (found_id k db.orders db.entries o f)) f

pub transition_holds :
    (s t : OrderStatus) (u : Unit {0})
    → require_order_transition s t ≡ ok u
    → order_allowed s t ≡ true
unfolding require_order_transition require
transition_holds s t u h = true_of _ _ h
  where
    true_of : (b : Bool) (e : Error) → require b e ≡ ok u → b ≡ true
    true_of true e h = refl
    true_of false e h = cc

-- A new order, whose identifier is not in use.
module _ (o : Order) (db : Db) (v : IsValidDb db) (s : IsSound o) (c : o.collected_amount_minor ≡ 0)
    (f : o.processing_fee_minor ≡ 0) (r : o.refunded_amount_minor ≡ 0)
    (fresh : find_order o.order_id db.orders ≡ none) where
  find_new_self : find_order o.order_id (db.orders ++ o ∷ []) ≡ some o
  unfolding find_order
  find_new_self =
      rw (find-append (λ (x : Order). x.order_id) o.order_id db.orders o)
        (rw fresh (rw (text_refl o.order_id)))

  find_new_other :
      (j : String)
      → (o.order_id == j) ≡ false
      → find_order j (db.orders ++ o ∷ []) ≡ find_order j db.orders
  unfolding find_order
  find_new_other j e = ground (arith, find-append (λ (x : Order). x.order_id) j db.orders o, e)

  new-Unique : Unique (λ (x : Order). x.order_id) (db.orders ++ o ∷ [])
  unfolding find_order
  new-Unique = append-Unique (λ (x : Order). x.order_id) o db.orders fresh v.unique

  new_ledger : LedgerOf db.entries o
  new_ledger = rw (c, f, r) (rw fresh at (v.at o.order_id))

  pub new_Next : Advances db.orders (db.orders ++ o ∷ []) db.entries
  new_Next = record {
    valid = record {
      unique = new-Unique;
      at = λ j. elim (Bool-cases (o.order_id == j)) [
        | inl e ↦ rw (← text-eq o.order_id j e) (rw find_new_self (s, new_ledger))
        | inr e ↦ rw (find_new_other j e) (v.at j)
      ];
    };
    keeps = λ j x h. elim (Bool-cases (o.order_id == j)) [
      | inl e ↦ absurd (none_some (fresh_at j e) h)
      | inr e ↦ (x, rw (find_new_other j e) h, Evolves-refl x)
    ];
  }
    where
      fresh_at : (j : String) → (o.order_id == j) ≡ true → find_order j db.orders ≡ none
      fresh_at j e = rw (← text-eq o.order_id j e) fresh

      none_some : {x : Option Order} {y : Order} → x ≡ none → x ≡ some y → ⊥
      none_some p q = cc

-- An update of one order that books nothing.
pub update_Next :
    (k : String) (f : Order → Order) (db : Db) (o : Order)
    → IsValidDb db
    → find_order k db.orders ≡ some o
    → ((r : Order) → (f r).order_id ≡ r.order_id)
    → IsSound (f o) × LedgerOf db.entries (f o)
    → Evolves o (f o)
    → Advances db.orders (update (λ (x : Order). x.order_id) k f db.orders) db.entries
update_Next k f db o v found same here e =
    advance k f db.orders db.entries db.entries o v found same (λ j c f r h l. l) here e
