-- ===== src/Store/Fulfilment.antt =====
-- Costs, fulfilment and delivery keep the invariant, and move their order along the tables.
use vouchspec.Base.{
  ℕ, ◌≡◌, refl, sym, subst, String, Bool, true, false, Option, none, some, List, [], ◌∷◌, arith,
  ◌==◌, text_refl,
}
use vouchspec.Base.Lists.{first}
use vouchspec.Errors.{ok, ◌>>=◌, ◌>>◌, require, idempotency_conflict}
use vouchspec.Errors.Ensures.{
  Ensures, Ensures-ok, Ensures-bind, Ensures-require, Ensures-reject, Ensures-if, Ensures-weaken,
}
use vouchspec.Platform.{Platform}
use vouchspec.Json.{Fields, object}
use vouchspec.Commerce.Status.{
  OrderStatus, PaymentStatus, OrderReach, PaymentReach, running, delivered, fulfillment_failed,
  pending, same_order_status, order_allowed,
}
use vouchspec.Store.Tables.{
  Order, DirectCost, DeliveryStatus, Db, update_order, find_order, require_order, add_history,
}
use vouchspec.Store.Views.{order_view, direct_cost_categories}
use vouchspec.Store.Ledger.{Ledger, Ledger-other, Ledger-direct}
use vouchspec.Store.Invariant.{Advances, advance, found_At, SameElsewhere, stage_ok}
use vouchspec.Store.Delivery.{
  add_costs, with_costs, record_new_costs, record_direct_costs, same_record, cost_in, transitioned,
  transition_order, Evidence, delivered_order, deliver,
}
use vouchspec.Store.PaymentFacts.{IsValidDb, Ensures-add_entry}
use vouchspec.Table.{update}
use vouchspec.Store.Updates.{
  Keeping, unchanged, after_view, require_order-find, found_self, transition_holds, update_Next,
}
use vouchspec.Store.Tables.{CostRecord}

-- Costs: the entries that are added are all of the order, and leave its books alone but for the
-- direct total.
record CostsOf (k : String) (db d : Db) : Type 0 where
  orders : d.orders ≡ db.orders
  elsewhere : SameElsewhere k db.entries d.entries
  here : (c f r : ℕ) → Ledger db.entries k c f r → Ledger d.entries k c f r

add_costs-CostsOf :
    (costs : DirectCost → ℕ) (k key t : String) (cs : List DirectCost) (db : Db)
    → Ensures (CostsOf k db) (add_costs costs k key t cs db)
unfolding add_costs
add_costs-CostsOf costs k key t [] db =
    Ensures-ok db (record { orders = refl; elsewhere = λ j c f r h l. l; here = λ c f r l. l })
add_costs-CostsOf costs k key t (x ∷ cs) db = Ensures-add_entry _ _ _ (
    Ensures-weaken _ (add_costs-CostsOf costs k key t cs _) λ d later. record {
      orders = later.orders;
      elsewhere = λ j c f r h l. later.elsewhere j c f r h (Ledger-other db.entries j c f r _ h l);
      here = λ c f r l.
          later.here c f r (Ledger-direct db.entries k c f r _ x (text_refl k) refl refl l);
    })

record_new_costs-Next :
    (costs : DirectCost → ℕ) (s key t : String) (o : Order) (db : Db)
    → IsValidDb db
    → find_order o.order_id db.orders ≡ some o
    → Keeping db (record_new_costs costs s key t o db)
unfolding record_new_costs update_order
record_new_costs-Next costs s key t o db v found = Ensures-reject _ _ _ λ _.
    Ensures-bind λ booked h.
      let b = (add_costs-CostsOf costs o.order_id key t direct_cost_categories _).result booked h in
      let sound = found_At o.order_id db.orders db.entries o v found in
      after_view db _
        (subst
          (λ os.
            Advances db.orders (update (λ (x : Order). x.order_id) o.order_id (with_costs t) os)
              booked.entries)
          (sym b.orders)
          (advance o.order_id (with_costs t) db.orders db.entries booked.entries o v found
            (λ r. refl) b.elsewhere
            (
              record {
                stage = sound.0.stage;
                money = sound.0.money;
                paid_checkout = sound.0.paid_checkout;
                new_checkout = sound.0.new_checkout;
                delivered_costs = λ _. refl;
                delivered_receipt = sound.0.delivered_receipt;
                goal = sound.0.goal;
              },
              b.here _ _ _ sound.1,
            )
            (record {
              terms = refl;
              order_path = OrderReach.here;
              payment_path = PaymentReach.here;
              checkout = λ x e. e;
              payment = λ x e. e;
              costs = λ _. refl;
            })))
        _

pub record_direct_costs-Next :
    (p : Platform) (k : String) (costs : Fields) (key t : String) (db : Db)
    → IsValidDb db
    → Keeping db (record_direct_costs p k costs key t db)
unfolding record_direct_costs
record_direct_costs-Next p k costs key t db v = Ensures-require _ _ _ λ _.
    Ensures-require _ _ _ λ _.
      Ensures-bind
        λ _ _. Ensures-bind λ o h. by_record o h (first (same_record k key) db.cost_records)
  where
    by_record :
        (o : Order)
        → require_order k db ≡ ok o
        → (x : Option CostRecord)
        → Keeping db (elim x [
          | some existing ↦ (do
            require (existing.costs_json == p.dumps (object costs)) idempotency_conflict
            view ← order_view k db
            ok (view, db))
          | none ↦ record_new_costs (cost_in costs) (p.dumps (object costs)) key t o db
        ])
    by_record o h none =
        record_new_costs-Next (cost_in costs) (p.dumps (object costs)) key t o db v
          (found_self k db o h)
    by_record o h (some x) = Ensures-require _ _ _ λ _. unchanged db v k

-- The statuses of fulfilment.
abbrev pub is_work : OrderStatus → Bool
is_work running = true
is_work delivered = true
is_work fulfillment_failed = true
is_work _ = false

-- The stages of an order that is not delivered yet and may move on.
transition_stage :
    (p : PaymentStatus) (s t : OrderStatus)
    → is_work t ≡ true
    → order_allowed s t ≡ true
    → stage_ok p s ≡ true
    → stage_ok p t ≡ true
transition_stage pending s t w h k = ground arith
transition_stage p s t w h k = ground arith

pub transition_order-Next :
    (p : Platform) (k : String) (target : OrderStatus) (source t : String) (d : DeliveryStatus)
    (db : Db)
    → is_work target ≡ true
    → same_order_status target delivered ≡ false
    → IsValidDb db
    → Keeping db (transition_order p k target source t d db)
unfolding transition_order add_history update_order
transition_order-Next p k target source t d db w nd v = Ensures-bind λ _ _. Ensures-bind λ o h.
    Ensures-if (same_order_status o.order_status target) _ _ (λ old. unchanged db v k)
      (λ new. Ensures-bind λ u allowed.
        let a = transition_holds o.order_status target u allowed in
        let found = require_order-find k db o h in
        let s = found_At k db.orders db.entries o v found in
        after_view db _
          (update_Next k (transitioned target d t) db o v found (λ r. refl)
            (
              record {
                stage = transition_stage o.payment_status o.order_status target w a s.0.stage;
                money = s.0.money;
                paid_checkout = s.0.paid_checkout;
                new_checkout = λ e. ground (arith, e, w);
                delivered_costs = λ e. ground (arith, e, nd);
                delivered_receipt = λ e. ground (arith, e, nd);
                goal = s.0.goal;
              },
              s.1,
            )
            (record {
              terms = refl;
              order_path = OrderReach.next OrderReach.here a;
              payment_path = PaymentReach.here;
              checkout = λ x e. e;
              payment = λ x e. e;
              costs = λ e. e;
            }))
          _)

pub deliver-Next :
    (p : Platform) (k : String) (e : Evidence) (source t : String) (db : Db)
    → IsValidDb db
    → Keeping db (deliver p k e source t db)
unfolding deliver add_history update_order
deliver-Next p k e source t db v = Ensures-require _ _ _ λ _. Ensures-bind λ _ _.
    Ensures-bind λ o h. Ensures-require o.direct_costs_recorded _ _ λ recorded.
      Ensures-if (same_order_status o.order_status delivered) _ _
        (λ old. Ensures-require _ _ _ λ _. unchanged db v k)
        (λ new. Ensures-bind λ u allowed. Ensures-reject _ _ _ λ _.
          let a = transition_holds o.order_status delivered u allowed in
          let found = require_order-find k db o h in
          let s = found_At k db.orders db.entries o v found in
          after_view db _
            (update_Next k (delivered_order e t) db o v found (λ r. refl)
              (
                record {
                  stage =
                      transition_stage o.payment_status o.order_status delivered refl a s.0.stage;
                  money = s.0.money;
                  paid_checkout = s.0.paid_checkout;
                  new_checkout = λ x. cc;
                  delivered_costs = λ x. recorded;
                  delivered_receipt = λ x. refl;
                  goal = s.0.goal;
                },
                s.1,
              )
              (record {
                terms = refl;
                order_path = OrderReach.next OrderReach.here a;
                payment_path = PaymentReach.here;
                checkout = λ x h. h;
                payment = λ x h. h;
                costs = λ h. h;
              }))
            _)
