-- ===== src/Store/Books.antt =====
-- What the books and the statuses of an order say after any sequence of operations.
use vouchspec.Base.{
  ℕ, ◌+◌, ◌≡◌, refl, String, Bool, true, false, ◌&&◌, some, List, [], ◌∷◌, arith, sym, subst, ◌==◌,
  if◌then◌else◌,
}
use vouchspec.Base.Lists.{All}
use vouchspec.Base.Int.{pos, ◌+ℤ◌, int_laws}
use vouchspec.Errors.{ok}
use vouchspec.Errors.Ensures.{Ensures, Ensures-ok, Ensures-bind}
use vouchspec.Platform.{Platform}
use vouchspec.Commerce.Status.{is_final, OrderReach-final}
use vouchspec.Store.Tables.{
  Db, Environment, empty_store, Order, find_order, Entry, DirectCost, Category, direct,
  same_category, gross_collected, processing_fee, refund, compute, third_party, hosting, storage,
  model, network, signing, monitoring, direct_support, other_variable,
}
use vouchspec.Store.Views.{
  OrderView, view_of, order_view, get_order, amount_of, costs_of, direct_cost_categories,
  financial_summary, sum_of, sum_impacts, entry_counts,
}
use vouchspec.Store.Ledger.{direct_total, is_direct}
use vouchspec.Store.Invariant.{IsValid, IsValid-nil, Evolves, IsSound, found_At}
use vouchspec.Store.PaymentFacts.{IsValidDb}
use vouchspec.Store.Updates.{require_order-find}
use vouchspec.Store.Commands.{Command, run}
use vouchspec.Store.Histories.{run-Next}
use vouchspec.Table.{All-found}

-- The sum of the costs that a view lists.
pub listed_costs : List (DirectCost × ℕ) → ℕ
listed_costs [] = 0
listed_costs ((c, n) ∷ cs) = n + listed_costs cs

-- An entry is listed under its one category.
listed_once :
    (here : Bool) (c : Category) (n : ℕ)
    → (if here && same_category c (direct compute) then n else 0)
        + (if here && same_category c (direct third_party) then n else 0)
        + (if here && same_category c (direct hosting) then n else 0)
        + (if here && same_category c (direct storage) then n else 0)
        + (if here && same_category c (direct model) then n else 0)
        + (if here && same_category c (direct network) then n else 0)
        + (if here && same_category c (direct signing) then n else 0)
        + (if here && same_category c (direct monitoring) then n else 0)
        + (if here && same_category c (direct direct_support) then n else 0)
        + (if here && same_category c (direct other_variable) then n else 0)
      ≡ (if here && is_direct c then n else 0)
listed_once false c n = omega arith
listed_once true gross_collected n = omega arith
listed_once true processing_fee n = omega arith
listed_once true refund n = omega arith
listed_once true (direct compute) n = omega arith
listed_once true (direct c) n = omega arith

listed_costs-total :
    (k : String) (es : List Entry)
    → listed_costs (costs_of k es direct_cost_categories) ≡ direct_total k es
unfolding listed_costs costs_of direct_total amount_of
listed_costs-total k [] = refl
listed_costs-total k (e ∷ es) =
    omega (arith, listed_costs-total k es, listed_once (e.order_id == k) e.category e.amount_minor)

run_valid :
    (p : Platform) (e : Environment) (cs : List Command) → IsValidDb (run p cs (empty_store e))
run_valid p e cs = (run-Next p cs (empty_store e) IsValid-nil).valid

view-order :
    (k : String) (db : Db)
    → Ensures
        (λ v. (find_order k db.orders ≡ some v.order) × (v ≡ view_of db v.order))
        (get_order k db)
unfolding get_order order_view view_of
view-order k db =
    Ensures-bind λ _ _. Ensures-bind λ o h. Ensures-ok _ (require_order-find k db o h, refl)

-- In every store that operations have made of an empty one, the gross contribution that an order's
-- view shows is what was collected, less the processing fee, the refund and the listed costs.
pub books_balance :
    (p : Platform) (e : Environment) (cs : List Command) (k : String) (v : OrderView)
    → get_order k (run p cs (empty_store e)) ≡ ok v
    → v.gross_contribution_minor
        +ℤ pos (
            v.order.processing_fee_minor
            + v.order.refunded_amount_minor
            + listed_costs v.direct_costs_minor)
      ≡ pos v.order.collected_amount_minor
books_balance p e cs k v h =
    let db = run p cs (empty_store e) in
    let seen = (view-order k db).result v h in
    let l = (found_At k db.orders db.entries v.order (run_valid p e cs) seen.0).1 in
    subst
      (λ (w : OrderView).
        w.gross_contribution_minor
          +ℤ pos (
              v.order.processing_fee_minor
              + v.order.refunded_amount_minor
              + listed_costs w.direct_costs_minor)
        ≡ pos v.order.collected_amount_minor)
      (sym seen.1)
      (unfold view_of in
        rw (listed_costs-total v.order.order_id db.entries) (omega (int_laws, l.total)))

-- In every store that operations have made of an empty one, an order that is shown has statuses and
-- amounts that fit together, has a payment only with a checkout, and is delivered only with its
-- costs recorded and its receipt bound (`IsSound`).
pub shown_order-IsSound :
    (p : Platform) (e : Environment) (cs : List Command) (k : String) (v : OrderView)
    → get_order k (run p cs (empty_store e)) ≡ ok v
    → IsSound v.order
shown_order-IsSound p e cs k v h =
    let db = run p cs (empty_store e) in
    (found_At k db.orders db.entries v.order (run_valid p e cs) ((view-order k db).result v h).0).0

-- However operations go on, an order stays in the store under its identifier; its terms stay, its
-- order and payment statuses move along the transition tables only, and a bound checkout, a bound
-- payment and the mark that its costs are recorded stay (`Evolves`).
pub orders_evolve :
    (p : Platform) (e : Environment) (before after : List Command) (k : String) (o : Order)
    → find_order k (run p before (empty_store e)).orders ≡ some o
    → (o' : Order) × (find_order k (run p after (run p before (empty_store e))).orders ≡ some o')
      × Evolves o o'
orders_evolve p e before after k o h =
    (run-Next p after (run p before (empty_store e)) (run_valid p e before)).keeps k o h

-- An order in a final status (delivered, payment failed, fulfilment failed, cancelled) has that
-- status after any further operations.
pub final_status_stays :
    (p : Platform) (e : Environment) (before after : List Command) (k : String) (o : Order)
    → find_order k (run p before (empty_store e)).orders ≡ some o
    → is_final o.order_status ≡ true
    → (o' : Order) × (find_order k (run p after (run p before (empty_store e))).orders ≡ some o')
      × (o'.order_status ≡ o.order_status)
final_status_stays p e before after k o h f =
    let (o', h', ev) = orders_evolve p e before after k o h in
    (o', h', sym (OrderReach-final f ev.order_path))

goal_collected-zero :
    (os : List Order)
    → All (λ (o : Order). o.counts_for_goal ≡ false) os
    → sum_of (λ o. if o.counts_for_goal then o.collected_amount_minor else 0) os ≡ 0
unfolding sum_of
goal_collected-zero [] a = refl
goal_collected-zero (o ∷ os) a = rw a.0 (omega (arith, goal_collected-zero os a.1))

entry_counts-false :
    (os : List Order) (x : Entry)
    → All (λ (o : Order). o.counts_for_goal ≡ false) os
    → entry_counts os x ≡ false
entry_counts-false [] x a = refl
entry_counts-false (o ∷ os) x a = ground (arith, a.0, entry_counts-false os x a.1)

goal_impacts-zero :
    (os : List Order) (es : List Entry)
    → All (λ (o : Order). o.counts_for_goal ≡ false) os
    → sum_impacts (entry_counts os) es ≡ pos 0
unfolding sum_impacts
goal_impacts-zero os [] a = refl
goal_impacts-zero os (x ∷ es) a = rw (entry_counts-false os x a) (goal_impacts-zero os es a)

All-without_goal :
    (os : List Order) (es : List Entry)
    → IsValid os es
    → All (λ (o : Order). o.counts_for_goal ≡ false) os
unfolding find_order
All-without_goal os es v =
    All-found (λ (x : Order). x.order_id) (λ (o : Order). o.counts_for_goal ≡ false) os v.unique
      (λ k o h. (found_At k os es o v h).0.goal)

-- Whatever operations are made, in either environment, nothing counts towards the revenue goal: the
-- financial summary shows no collected amount and no contribution that counts for it.
pub no_goal_revenue :
    (p : Platform) (e : Environment) (cs : List Command)
    → ((financial_summary (run p cs (empty_store e))).counts_for_goal_collected_minor ≡ 0)
      × ((financial_summary (run p cs (empty_store e))).counts_for_goal_contribution_minor ≡ pos 0)
unfolding financial_summary
no_goal_revenue p e cs =
    let db = run p cs (empty_store e) in
    let a = All-without_goal db.orders db.entries (run_valid p e cs) in
    (goal_collected-zero db.orders a, goal_impacts-zero db.orders db.entries a)
