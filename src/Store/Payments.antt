-- ===== src/Store/Payments.antt =====
-- Every provider event keeps the invariant, and moves its order along the transition tables.
use vouchspec.Base.{
  ℕ, zero, suc, ◌≡◌, refl, subst, String, Bool, true, false, not, ◌||◌, some, List, [], ◌∷◌, ◌++◌,
  arith, eqb, ◌==◌, is_some, text_refl,
}
use vouchspec.Base.Int.{pos, neg}
use vouchspec.Errors.{ok}
use vouchspec.Errors.Ensures.{
  Ensures, Ensures-ok, Ensures-err, Ensures-bind, Ensures-or_raise, Ensures-if, Ensures-weaken,
}
use vouchspec.Commerce.Status.{
  OrderStatus, PaymentStatus, OrderReach, PaymentReach, checkout_pending, payment_pending, pending,
  captured, available, refund_pending, refunded, disputed, failed, same_order_status,
  same_payment_status, payment_allowed,
}
use vouchspec.Store.Tables.{
  Order, Event, EventRow, Entry, gross_collected, processing_fee, Db, update_order, find_order,
  mark_event, set_event_status, add_history,
}
use vouchspec.Store.Ledger.{Ledger, Ledger-other, Ledger-gross, Ledger-fee, Ledger-refund}
use vouchspec.Store.Invariant.{
  Evolves, IsSound, LedgerOf, Advances-refl, Advances-trans, advance, found_At, SameElsewhere,
  MoneyOk, stage_ok,
}
use vouchspec.Store.Reconcile.{
  apply_captured, apply_failed, apply_refunded, apply_moved, apply_event, captured_order,
  failed_order, refunded_order, moved_order, entry_of, process_event, run_round, reconcile_payment,
  target_of,
}
use vouchspec.Store.PaymentFacts.{
  Next, IsValidDb, Ensures-add_entry, same_order_status-eq, order_of_payment-find,
  order_of_payment-bound, is_move, moved_stage, moved_money, allowed_captured, allowed_failed,
  allowed_refunded, not_allowed_pending, amounts_agree, Ensures-progress,
}

module _ (e : Event) (o : Order) (db : Db) (v : IsValidDb db)
    (found : find_order o.order_id db.orders ≡ some o) where
  sound : IsSound o
  sound = (found_At o.order_id db.orders db.entries o v found).0

  ledger : LedgerOf db.entries o
  ledger = (found_At o.order_id db.orders db.entries o v found).1

  SameElsewhere-add :
      (x : Entry) (es : List Entry)
      → x.order_id ≡ o.order_id
      → SameElsewhere o.order_id db.entries es
      → SameElsewhere o.order_id db.entries (es ++ x ∷ [])
  SameElsewhere-add x es same s j c f r h l = Ledger-other es j c f r x (rw same h) (s j c f r h l)

  captured_Evolves :
      o.order_status ≡ payment_pending → o.payment_status ≡ pending → Evolves o (captured_order e o)
  captured_Evolves s p = record {
    terms = refl;
    order_path = OrderReach.next OrderReach.here (rw s);
    payment_path = PaymentReach.next PaymentReach.here (rw p);
    checkout = λ c h. h;
    payment = λ c h. h;
    costs = λ h. h;
  }

  captured_IsSound :
      o.payment_status ≡ pending
      → e.amount_minor ≡ o.quoted_amount_minor
      → IsSound (captured_order e o)
  captured_IsSound p a = record {
    stage = refl;
    money = (a, (subst (λ s. MoneyOk s o) p sound.money).1);
    paid_checkout = sound.paid_checkout;
    new_checkout = λ h. cc;
    delivered_costs = λ h. cc;
    delivered_receipt = λ h. cc;
    goal = sound.goal;
  }

  captured-Ledger :
      o.payment_status ≡ pending
      → Ledger
          ((db.entries ++ entry_of e o gross_collected e.amount_minor (pos e.amount_minor) ∷ [])
            ++ entry_of e o processing_fee e.fee_minor (neg e.fee_minor) ∷ [])
          o.order_id
          e.amount_minor
          e.fee_minor
          o.refunded_amount_minor
  captured-Ledger p =
      let m = subst (λ s. MoneyOk s o) p sound.money in
      Ledger-fee _ o.order_id _ (text_refl o.order_id) _ _ refl refl (
        Ledger-gross _ o.order_id _ (text_refl o.order_id) _ _ refl refl (
          subst (λ c. Ledger db.entries o.order_id c 0 o.refunded_amount_minor) m.0
            (subst
              (λ f. Ledger db.entries o.order_id o.collected_amount_minor f o.refunded_amount_minor)
              m.2 ledger)))

  apply_captured-Next :
      o.order_status ≡ payment_pending
      → o.payment_status ≡ pending
      → e.amount_minor ≡ o.quoted_amount_minor
      → Ensures (Next db) (apply_captured e o db)
  unfolding apply_captured update_order mark_event add_history
  apply_captured-Next s p a = Ensures-add_entry _ _ _ (
      Ensures-add_entry _ _ _ (
        Ensures-ok _ (
          advance o.order_id (captured_order e) db.orders db.entries _ o v found (λ r. refl)
            (SameElsewhere-add _ _ refl (SameElsewhere-add _ _ refl (λ j c f r h l. l)))
            (captured_IsSound p a, captured-Ledger p) (captured_Evolves s p))))

  failed_IsSound : o.payment_status ≡ pending → IsSound (failed_order e o)
  failed_IsSound p = record {
    stage = refl;
    money = subst (λ s. MoneyOk s o) p sound.money;
    paid_checkout = sound.paid_checkout;
    new_checkout = λ h. cc;
    delivered_costs = λ h. cc;
    delivered_receipt = λ h. cc;
    goal = sound.goal;
  }

  -- An order with a payment bound has left `checkout_pending`.
  bound_payment_pending :
      is_some o.provider_payment_id ≡ true
      → o.payment_status ≡ pending
      → o.order_status ≡ payment_pending
  bound_payment_pending b p =
      pending_stage o.order_status (subst (λ s. stage_ok s o.order_status ≡ true) p sound.stage)
        (λ c. ground (arith, sound.new_checkout c, sound.paid_checkout b))
    where
      pending_stage :
          (s : OrderStatus)
          → stage_ok pending s ≡ true
          → (same_order_status s checkout_pending ≡ true → ⊥)
          → s ≡ payment_pending
      pending_stage checkout_pending h n = absurd (n refl)
      pending_stage s h n = ground arith

  apply_failed-Next :
      is_some o.provider_payment_id ≡ true
      → o.payment_status ≡ pending
      → Ensures (Next db) (apply_failed e o db)
  unfolding apply_failed update_order mark_event add_history
  apply_failed-Next b p = Ensures-ok _ (
      advance o.order_id (failed_order e) db.orders db.entries _ o v found (λ r. refl)
        (λ j c f r h l. l) (failed_IsSound p, ledger)
        (record {
          terms = refl;
          order_path = OrderReach.next OrderReach.here (rw (bound_payment_pending b p));
          payment_path = PaymentReach.next PaymentReach.here (rw p);
          checkout = λ c h. h;
          payment = λ c h. h;
          costs = λ h. h;
        }))

  apply_refunded-Next :
      o.payment_status ≡ refund_pending
      → e.amount_minor ≡ o.quoted_amount_minor
      → Ensures (Next db) (apply_refunded e o db)
  unfolding apply_refunded update_order mark_event add_history
  apply_refunded-Next p a = Ensures-add_entry _ _ _ (
      Ensures-ok _ (
        advance o.order_id (refunded_order e) db.orders db.entries _ o v found (λ r. refl)
          (SameElsewhere-add _ _ refl (λ j c f r h l. l))
          (
            record {
              stage = subst (λ s. stage_ok s o.order_status ≡ true) p sound.stage;
              money = (m.0, a);
              paid_checkout = sound.paid_checkout;
              new_checkout = sound.new_checkout;
              delivered_costs = sound.delivered_costs;
              delivered_receipt = sound.delivered_receipt;
              goal = sound.goal;
            },
            Ledger-refund _ o.order_id _ (text_refl o.order_id) _ _ refl refl (
                subst
                  (λ r.
                    Ledger db.entries o.order_id o.collected_amount_minor o.processing_fee_minor r)
                  m.1 ledger),
          )
          (record {
            terms = refl;
            order_path = OrderReach.here;
            payment_path = PaymentReach.next PaymentReach.here (rw p);
            checkout = λ c h. h;
            payment = λ c h. h;
            costs = λ h. h;
          })))
    where
      m : (o.collected_amount_minor ≡ o.quoted_amount_minor) × (o.refunded_amount_minor ≡ 0)
      m = subst (λ s. MoneyOk s o) p sound.money

  apply_moved-Next :
      (t : PaymentStatus)
      → is_move t ≡ true
      → payment_allowed o.payment_status t ≡ true
      → Ensures (Next db) (apply_moved t e o db)
  unfolding apply_moved update_order mark_event add_history
  apply_moved-Next t m h = Ensures-ok _ (
      advance o.order_id (moved_order t e) db.orders db.entries _ o v found (λ r. refl)
        (λ j c f r h l. l)
        (
          record {
            stage = moved_stage o.payment_status t o.order_status m h sound.stage;
            money = moved_money o.payment_status t e o m h sound.money;
            paid_checkout = sound.paid_checkout;
            new_checkout = sound.new_checkout;
            delivered_costs = sound.delivered_costs;
            delivered_receipt = sound.delivered_receipt;
            goal = sound.goal;
          },
          ledger,
        )
        (record {
          terms = refl;
          order_path = OrderReach.here;
          payment_path = PaymentReach.next PaymentReach.here h;
          checkout = λ c h. h;
          payment = λ c h. h;
          costs = λ h. h;
        }))

  apply_event-Next :
      (t : PaymentStatus)
      → is_some o.provider_payment_id ≡ true
      → payment_allowed o.payment_status t ≡ true
      → e.amount_minor ≡ o.quoted_amount_minor
      → Ensures (λ r. Next db r.1) (apply_event t e o db)
  unfolding apply_event
  apply_event-Next captured b h a =
      Ensures-if _ _ _
        (λ s. Ensures-progress db _ (
          apply_captured-Next (same_order_status-eq _ _ s) (allowed_captured o.payment_status h) a))
        (λ s. Ensures-ok _ (Advances-refl db.orders db.entries v))
  apply_event-Next failed b h a =
      Ensures-progress db _ (apply_failed-Next b (allowed_failed o.payment_status h))
  apply_event-Next refunded b h a =
      Ensures-progress db _ (apply_refunded-Next (allowed_refunded o.payment_status h) a)
  apply_event-Next pending b h a = absurd (not_allowed_pending o.payment_status h)
  apply_event-Next available b h a = Ensures-progress db _ (apply_moved-Next available refl h)
  apply_event-Next refund_pending b h a =
      Ensures-progress db _ (apply_moved-Next refund_pending refl h)
  apply_event-Next disputed b h a = Ensures-progress db _ (apply_moved-Next disputed refl h)

process_event-Next :
    (row : EventRow) (db : Db) → IsValidDb db → Ensures (λ r. Next db r.1) (process_event row db)
unfolding process_event set_event_status mark_event
process_event-Next row db v = Ensures-or_raise _ _ _ λ o h.
    Ensures-if
      (not (eqb row.event.amount_minor o.quoted_amount_minor)
        || not (row.event.currency == o.currency))
      _ _ (λ m. Ensures-ok _ (Advances-refl db.orders db.entries v))
      λ m.
        Ensures-if (same_payment_status o.payment_status (target_of row.event.type)) _ _
          (λ s. Ensures-ok _ (Advances-refl db.orders db.entries v))
          λ s.
            Ensures-if (payment_allowed o.payment_status (target_of row.event.type)) _ _
              (λ a.
                apply_event-Next row.event o db v (order_of_payment-find _ db o v h)
                  (target_of row.event.type) (order_of_payment-bound _ db.orders o h) a
                  (amounts_agree row.event.amount_minor o.quoted_amount_minor
                    (not (row.event.currency == o.currency)) m))
              (λ a. Ensures-ok _ (Advances-refl db.orders db.entries v))

run_round-Next :
    (rows : List EventRow) (db : Db) → IsValidDb db → Ensures (λ r. Next db r.1) (run_round rows db)
unfolding run_round
run_round-Next [] db v = Ensures-ok _ (Advances-refl db.orders db.entries v)
run_round-Next (row ∷ rows) db v = Ensures-bind λ r h.
    let n = (process_event-Next row db v).result r h in
    Ensures-bind λ q k. Ensures-ok _ (
      Advances-trans db.orders r.1.orders q.1.orders r.1.entries q.1.entries n
        ((run_round-Next rows r.1 n.valid).result q k))

-- Reconciliation, however many rounds it takes.
pub reconcile_payment-Next :
    (fuel : ℕ) (pid : String) (db : Db)
    → IsValidDb db
    → Ensures (Next db) (reconcile_payment fuel pid db)
unfolding reconcile_payment
reconcile_payment-Next zero pid db v = Ensures-err _
reconcile_payment-Next (suc fuel) pid db v = Ensures-bind λ r h.
    let n = (run_round-Next _ db v).result r h in
    again r.0 r.1 n (reconcile_payment-Next fuel pid r.1 n.valid)
  where
    again :
        (made : Bool) (d : Db)
        → Next db d
        → Ensures (Next d) (reconcile_payment fuel pid d)
        → Ensures (Next db) (elim made [ true ↦ reconcile_payment fuel pid d | false ↦ ok d ])
    again true d n h =
        Ensures-weaken _ h λ x k. Advances-trans db.orders d.orders x.orders d.entries x.entries n k
    again false d n h = Ensures-ok _ n
