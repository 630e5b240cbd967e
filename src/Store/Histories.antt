-- ===== src/Store/Histories.antt =====
-- The invariant and the life of an order, over every sequence of operations.
use vouchspec.Base.{refl, String, Bool, Option, none, some, List, [], ◌∷◌}
use vouchspec.Errors.{Result, ok, err}
use vouchspec.Errors.Ensures.{
  Ensures, Ensures-ok, Ensures-bind, Ensures-require, Ensures-or_raise, Ensures-if,
}
use vouchspec.Json.{Json}
use vouchspec.Platform.{Platform, Moment}
use vouchspec.Commerce.Quote.{QuoteDocument}
use vouchspec.Commerce.Status.{OrderStatus}
use vouchspec.Store.Tables.{Db, Event, EventRow, QuoteRow, find_event}
use vouchspec.Store.Invariant.{Advances-refl, Advances-trans}
use vouchspec.Store.Payments.{reconcile_payment-Next}
use vouchspec.Store.PaymentFacts.{Next, IsValidDb}
use vouchspec.Store.Operations.{create_order-Next, attach_checkout-Next, bind_provider_payment-Next}
use vouchspec.Store.Fulfilment.{record_direct_costs-Next, transition_order-Next, deliver-Next}
use vouchspec.Store.Quotes.{
  create_quote, store_quote, insert_quote, replay_quote, find_quote, is_declined, offer,
}
use vouchspec.Store.Reconcile.{Ingested, ingest_provider_event, ingest_new, ingest_duplicate}
use vouchspec.Store.Delivery.{begin_fulfillment, fail_fulfillment}
use vouchspec.Store.Commands.{
  Command, quote, order, attach, bind, ingest, costs, begin_work, fail_work, delivery, database,
  execute, settle, run,
}

store_quote-Next :
    (p : Platform) (q : QuoteDocument) (db : Db)
    → IsValidDb db
    → Ensures (λ (r : QuoteDocument × Db). Next db r.1) (store_quote p q db)
unfolding store_quote insert_quote replay_quote
store_quote-Next p q db v = by_row (find_quote q.quote_id db.quotes)
  where
    by_row :
        (x : Option QuoteRow)
        → Ensures
            (λ (r : QuoteDocument × Db). Next db r.1)
            (elim x [ none ↦ ok (q, insert_quote p q db) | some row ↦ replay_quote p q row db ])
    by_row none = Ensures-ok _ (Advances-refl db.orders db.entries v)
    by_row (some row) =
        Ensures-require _ _ _ λ _. Ensures-ok _ (Advances-refl db.orders db.entries v)

create_quote-Next :
    (p : Platform) (value : Json) (id : String) (moment : Moment) (provider : String)
    (enabled : Bool) (db : Db)
    → IsValidDb db
    → Ensures
        (λ (r : QuoteDocument × Db). Next db r.1)
        (create_quote p value id moment provider enabled db)
unfolding create_quote
create_quote-Next p value id moment provider enabled db v = Ensures-or_raise _ _ _ λ named _.
    Ensures-bind λ _ _. Ensures-bind λ request _. Ensures-bind λ document _. Ensures-bind λ now _.
      Ensures-if (is_declined document.quote_status) _ _
        (λ _. Ensures-ok _ (Advances-refl db.orders db.entries v))
        (λ _. store_quote-Next p (offer p db.environment named now document) db v)

ingest_new-Next :
    (e : Event) (digest received : String) (db : Db)
    → IsValidDb db
    → Ensures (λ (r : Ingested × Db). Next db r.1) (ingest_new e digest received db)
unfolding ingest_new
ingest_new-Next e digest received db v = Ensures-or_raise _ _ _ λ o _. Ensures-require _ _ _ λ _.
    Ensures-bind λ after h.
      Ensures-or_raise _ _ _ λ row _.
        Ensures-bind λ view _. Ensures-ok _ ((reconcile_payment-Next _ _ _ v).result after h)

ingest_duplicate-Next :
    (e : Event) (digest : String) (x : EventRow) (db : Db)
    → IsValidDb db
    → Ensures (λ (r : Ingested × Db). Next db r.1) (ingest_duplicate e digest x db)
unfolding ingest_duplicate
ingest_duplicate-Next e digest x db v = Ensures-require _ _ _ λ _.
    Ensures-or_raise _ _ _
      λ o _. Ensures-bind λ view _. Ensures-ok _ (Advances-refl db.orders db.entries v)

ingest-Next :
    (p : Platform) (value : Json) (received : String) (db : Db)
    → IsValidDb db
    → Ensures (λ (r : Ingested × Db). Next db r.1) (ingest_provider_event p value received db)
unfolding ingest_provider_event
ingest-Next p value received db v =
    Ensures-bind λ e _.
      Ensures-bind λ _ _. by_row e (p.sha256 (p.dumps value)) (find_event e.event_id db.events)
  where
    by_row :
        (e : Event) (digest : String) (x : Option EventRow)
        → Ensures
            (λ (r : Ingested × Db). Next db r.1)
            (elim x [
              | some existing ↦ ingest_duplicate e digest existing db
              | none ↦ ingest_new e digest received db
            ])
    by_row e digest none = ingest_new-Next e digest received db v
    by_row e digest (some x) = ingest_duplicate-Next e digest x db v

database-Next :
    {A : Type 0} (db : Db) (m : Result (A × Db))
    → Ensures (λ (r : A × Db). Next db r.1) m
    → Ensures (Next db) (database m)
database-Next db m h = Ensures-bind λ r e. Ensures-ok _ (h.result r e)

execute-Next :
    (p : Platform) (c : Command) (db : Db) → IsValidDb db → Ensures (Next db) (execute p c db)
unfolding execute begin_fulfillment fail_fulfillment
execute-Next p (quote value id moment provider enabled) db v =
    database-Next db _ (create_quote-Next p value id moment provider enabled db v)
execute-Next p (order q key buyer moment) db v =
    database-Next db _ (create_order-Next p q key buyer moment db v)
execute-Next p (attach id checkout t payment) db v =
    database-Next db _ (attach_checkout-Next p id checkout t payment db v)
execute-Next p (bind id payment checkout t) db v =
    database-Next db _ (bind_provider_payment-Next p id payment checkout t db v)
execute-Next p (ingest value received) db v = database-Next db _ (ingest-Next p value received db v)
execute-Next p (costs id values key t) db v =
    database-Next db _ (record_direct_costs-Next p id values key t db v)
execute-Next p (begin_work id source t) db v =
    database-Next db _ (transition_order-Next p id OrderStatus.running source t _ db refl refl v)
execute-Next p (fail_work id source t) db v =
    database-Next db _
      (transition_order-Next p id OrderStatus.fulfillment_failed source t _ db refl refl v)
execute-Next p (delivery id evidence source t) db v =
    database-Next db _ (deliver-Next p id evidence source t db v)

settle-Next : (db : Db) (m : Result Db) → IsValidDb db → Ensures (Next db) m → Next db (settle db m)
settle-Next db (ok d) v h = h.result d refl
settle-Next db (err e) v h = Advances-refl db.orders db.entries v

pub run-Next : (p : Platform) (cs : List Command) (db : Db) → IsValidDb db → Next db (run p cs db)
unfolding run
run-Next p [] db v = Advances-refl db.orders db.entries v
run-Next p (c ∷ cs) db v =
    let step = settle-Next db (execute p c db) v (execute-Next p c db v) in
    Advances-trans db.orders (settle db (execute p c db)).orders
      (run p cs (settle db (execute p c db))).orders (settle db (execute p c db)).entries
      (run p cs (settle db (execute p c db))).entries step
      (run-Next p cs (settle db (execute p c db)) step.valid)
