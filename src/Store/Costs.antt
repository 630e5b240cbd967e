-- ===== src/Store/Costs.antt =====
-- The direct costs of an order, which `record_direct_costs` of commerce_store.py books once.
use vouchspec.Base.{◌≡◌, refl, String, true, Option, none, some, ◌==◌, text-eq}
use vouchspec.Base.Lists.{first}
use vouchspec.Errors.Ensures.{Ensures, Ensures-ok, Ensures-bind, Ensures-require, Ensures-reject}
use vouchspec.Store.Delivery.{record_direct_costs, record_new_costs, same_record, cost_in}
use vouchspec.Platform.{Platform}
use vouchspec.Json.{object, Fields}
use vouchspec.Store.Tables.{find_order, CostRecord, Order, Db}
use vouchspec.Store.Views.{order_view, OrderView}
use vouchspec.Errors.{idempotency_conflict, require, ◌>>◌, ◌>>=◌, ok, Result}
use vouchspec.Store.Updates.{require_order-find}

-- What a recording of costs is that repeats an earlier one: the store stays, and it holds the record of this
-- order and idempotency key, with the same costs.
pub record Repeats (p : Platform) (k : String) (costs : Fields) (key : String) (db after : Db)
    : Type 0 where
  pub unchanged : after ≡ db
  pub existing : CostRecord
  pub found : first (same_record k key) db.cost_records ≡ some existing
  pub same_costs : existing.costs_json ≡ p.dumps (object costs)

module _ (p : Platform) (k : String) (costs : Fields) (key timestamp : String) (db : Db) (o : Order)
    (known : find_order k db.orders ≡ some o) (recorded : o.direct_costs_recorded ≡ true) where
  recorded_once :
      Ensures (λ x. Repeats p k costs key db x.1) (record_direct_costs p k costs key timestamp db)
  unfolding record_direct_costs record_new_costs
  recorded_once = Ensures-require _ _ _ λ _. Ensures-require _ _ _ λ _. Ensures-bind λ _ _.
      Ensures-bind λ found h.
        by_record found (require_order-find k db found h)
          (first (same_record k key) db.cost_records) refl
    where
      by_record :
          (found : Order)
          → find_order k db.orders ≡ some found
          → (x : Option CostRecord) → first (same_record k key) db.cost_records ≡ x
          → Ensures
              (λ r. Repeats p k costs key db r.1)
              (elim x as (λ _. Result (OrderView × Db)) [
                | some existing ↦ (do
                  require (existing.costs_json == p.dumps (object costs)) idempotency_conflict
                  view ← order_view k db
                  ok (view, db))
                | none ↦
                    record_new_costs (cost_in costs) (p.dumps (object costs)) key timestamp found db
              ])
      by_record found h (some existing) q = Ensures-require _ _ _ λ same. Ensures-bind λ view _.
          Ensures-ok _ (record {
            unchanged = refl;
            existing = existing;
            found = q;
            same_costs = text-eq _ _ same;
          })
      by_record found h none q =
          Ensures-reject _ _ _ λ fresh. absurd (cc (known, h, recorded, fresh))

-- The direct costs of an order whose costs are recorded cannot be booked again: recording costs for it succeeds only as the repetition of an earlier recording, with the same idempotency key and the same costs, and then changes nothing.
pub record_direct_costs-Repeats :
    (p : Platform) (k : String) (costs : Fields) (key timestamp : String) (db after : Db)
    (o : Order) (v : OrderView)
    → find_order k db.orders ≡ some o
    → o.direct_costs_recorded ≡ true
    → record_direct_costs p k costs key timestamp db ≡ ok (v, after)
    → Repeats p k costs key db after
record_direct_costs-Repeats p k costs key timestamp db after o v known recorded =
    (recorded_once p k costs key timestamp db o known recorded).result (v, after)
