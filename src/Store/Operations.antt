-- ===== src/Store/Operations.antt =====
-- The operations on orders keep the invariant, and move their order along the transition tables.
use vouchspec.Base.{
  ℕ, ◌≡◌, refl, String, Bool, true, false, ◌&&◌, ◌||◌, Option, none, some, arith, same_text,
  is_some,
}
use vouchspec.Errors.Ensures.{
  Ensures, Ensures-ok, Ensures-bind, Ensures-require, Ensures-reject, Ensures-or_raise, Ensures-if,
}
use vouchspec.Platform.{Platform, Moment}
use vouchspec.Commerce.Status.{
  OrderStatus, PaymentStatus, OrderReach, PaymentReach, checkout_pending, payment_pending, pending,
  order_allowed,
}
use vouchspec.Store.Tables.{
  same_provider, stripe, Order, QuoteRow, Environment, Provider, Db, update_order, find_order,
  add_history,
}
use vouchspec.Store.Invariant.{IsSound, found_At, stage_ok}
use vouchspec.Store.Orders.{
  new_order, insert_order, replay_order, place_order, order_of_key, create_order, attached,
  attach_new, attach_checkout, bound, bind_provider_payment,
}
use vouchspec.Store.PaymentFacts.{Next, IsValidDb}
use vouchspec.Store.Updates.{
  new_Next, Keeping, unchanged, after_view, require_order-find, found_self, transition_holds,
  update_Next,
}

is_some_or : {A : Type 0} (x : Option A) (b : Bool) → (is_some x || b) ≡ false → x ≡ none
is_some_or none b h = refl
is_some_or (some a) b h = cc

insert_order-Next :
    (o : Order) (db : Db)
    → IsValidDb db
    → IsSound o
    → o.collected_amount_minor ≡ 0
    → o.processing_fee_minor ≡ 0
    → o.refunded_amount_minor ≡ 0
    → Ensures (Next db) (insert_order o db)
unfolding insert_order
insert_order-Next o db v s c f r =
    Ensures-reject _ _ _ λ h. Ensures-ok _ (new_Next o db v s c f r (is_some_or _ _ h))

new_order-IsSound :
    (e : Environment) (id : String) (q : QuoteRow) (key buyer : String) (p : Provider) (t : String)
    → IsSound (new_order e id q key buyer p t)
unfolding new_order
new_order-IsSound e id q key buyer p t = record {
  stage = refl;
  money = (refl, refl, refl);
  paid_checkout = λ h. cc;
  new_checkout = λ h. refl;
  delivered_costs = λ h. cc;
  delivered_receipt = λ h. cc;
  goal = refl;
}

replay_order-Next :
    (q b : String) (o : Order) (db : Db) → IsValidDb db → Keeping db (replay_order q b o db)
unfolding replay_order
replay_order-Next q b o db v = Ensures-require _ _ _ λ h. unchanged db v o.order_id

place_order-Next :
    (p : Platform) (q key buyer : String) (now : ℕ) (db : Db)
    → IsValidDb db
    → Keeping db (place_order p q key buyer now db)
unfolding place_order add_history new_order
place_order-Next p q key buyer now db v = Ensures-or_raise _ _ _ λ quote _.
    Ensures-require _ _ _ λ _. Ensures-bind λ expiry _. Ensures-require _ _ _ λ _.
      Ensures-or_raise _ _ _ λ provider _. Ensures-bind λ inserted h.
        after_view db _
          ((insert_order-Next _ db v (new_order-IsSound _ _ quote key buyer provider _) refl refl
              refl).result
            inserted h)
          _

pub create_order-Next :
    (p : Platform) (q key buyer : String) (now : Moment) (db : Db)
    → IsValidDb db
    → Keeping db (create_order p q key buyer now db)
unfolding create_order
create_order-Next p q key buyer now db v = Ensures-require _ _ _ λ _.
    Ensures-require _ _ _ λ _. Ensures-bind λ moment _. by_key moment (order_of_key key db.orders)
  where
    by_key :
        (moment : ℕ) (x : Option Order)
        → Keeping db (elim x [
          | some existing ↦ replay_order q buyer existing db
          | none ↦ place_order p q key buyer moment db
        ])
    by_key moment none = place_order-Next p q key buyer moment db v
    by_key moment (some x) = replay_order-Next q buyer x db v

attached-IsSound :
    (c : String) (pay : Option String) (t : String) (o : Order)
    → order_allowed o.order_status payment_pending ≡ true
    → IsSound o
    → IsSound (attached c pay t o)
attached-IsSound c pay t o a s =
    let pending_payment : o.payment_status ≡ pending =
      checkout_stage o.payment_status o.order_status a s.stage in
    record {
      stage = rw pending_payment refl;
      money = s.money;
      paid_checkout = λ h. refl;
      new_checkout = λ h. cc;
      delivered_costs = λ h. cc;
      delivered_receipt = λ h. cc;
      goal = s.goal;
    }
  where
    checkout_stage :
        (p : PaymentStatus) (x : OrderStatus)
        → order_allowed x payment_pending ≡ true
        → stage_ok p x ≡ true
        → p ≡ pending
    checkout_stage pending x h k = refl
    checkout_stage p x h k = ground arith

-- Only a new order can get a checkout.
from_new : (s : OrderStatus) → order_allowed s payment_pending ≡ true → s ≡ checkout_pending
from_new checkout_pending h = refl
from_new s h = ground arith

attach_new-Next :
    (o : Order) (c : String) (pay : Option String) (t : String) (db : Db)
    → IsValidDb db
    → find_order o.order_id db.orders ≡ some o
    → Keeping db (attach_new o c pay t db)
unfolding attach_new add_history update_order
attach_new-Next o c pay t db v found = Ensures-bind λ u allowed. Ensures-reject _ _ _ λ _.
    let a = transition_holds o.order_status payment_pending u allowed in
    let s = found_At o.order_id db.orders db.entries o v found in
    after_view db _
      (update_Next o.order_id (attached c pay t) db o v found (λ r. refl)
        (attached-IsSound c pay t o a s.0, s.1)
        (record {
          terms = refl;
          order_path = OrderReach.next OrderReach.here a;
          payment_path = PaymentReach.here;
          checkout = λ x h. no_checkout a s.0 x h;
          payment = λ x h. no_payment a s.0 x h;
          costs = λ h. h;
        }))
      _
  where
    none_yet :
        (a : order_allowed o.order_status payment_pending ≡ true)
        → IsSound o
        → is_some o.provider_checkout_id ≡ false
    none_yet a s = s.new_checkout (rw (from_new o.order_status a))

    no_checkout :
        (a : order_allowed o.order_status payment_pending ≡ true)
        → IsSound o
        → (x : String) → o.provider_checkout_id ≡ some x
        → some c ≡ some x
    no_checkout a s x h = ground (arith, none_yet a s)

    no_payment :
        (a : order_allowed o.order_status payment_pending ≡ true)
        → IsSound o
        → (x : String) → o.provider_payment_id ≡ some x
        → pay ≡ some x
    no_payment a s x h = ground (arith, none_yet a s, s.paid_checkout)

pub attach_checkout-Next :
    (p : Platform) (k c t : String) (pay : Option String) (db : Db)
    → IsValidDb db
    → Keeping db (attach_checkout p k c t pay db)
unfolding attach_checkout
attach_checkout-Next p k c t pay db v = Ensures-bind λ _ _. Ensures-bind λ o h.
    Ensures-bind λ payment _.
      Ensures-if (is_some o.provider_checkout_id) _ _
        (λ old. Ensures-require _ _ _ λ _. unchanged db v k)
        (λ new. attach_new-Next o c payment t db v (found_self k db o h))

pub bind_provider_payment-Next :
    (p : Platform) (k pay c t : String) (db : Db)
    → IsValidDb db
    → Keeping db (bind_provider_payment p k pay c t db)
unfolding bind_provider_payment update_order
bind_provider_payment-Next p k pay c t db v = Ensures-require _ _ _ λ _. Ensures-bind λ _ _.
    Ensures-bind λ o h.
      Ensures-require (same_provider o.provider stripe && same_text o.provider_checkout_id (some c))
        _ _
        λ attached_here.
          Ensures-if (is_some o.provider_payment_id) _ _
            (λ old. Ensures-require _ _ _ λ _. unchanged db v k)
            (λ new. Ensures-reject _ _ _ λ _.
              let found = require_order-find k db o h in
              let s = found_At k db.orders db.entries o v found in
              after_view db _
                (update_Next k (bound pay t) db o v found (λ r. refl)
                  (
                    record {
                      stage = s.0.stage;
                      money = s.0.money;
                      paid_checkout = λ _. ground (arith, attached_here);
                      new_checkout = s.0.new_checkout;
                      delivered_costs = s.0.delivered_costs;
                      delivered_receipt = s.0.delivered_receipt;
                      goal = s.0.goal;
                    },
                    s.1,
                  )
                  (record {
                    terms = refl;
                    order_path = OrderReach.here;
                    payment_path = PaymentReach.here;
                    checkout = λ x e. e;
                    payment = λ x e. ground (arith, new, e);
                    costs = λ e. e;
                  }))
                _)
