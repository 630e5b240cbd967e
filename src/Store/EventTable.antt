-- ===== src/Store/EventTable.antt =====
-- Which operations of commerce_store.py leave the provider_events table as it is: all but
-- `ingest_provider_event`.
use vouchspec.Base.{ℕ, ◌≡◌, refl, String, ◌==◌, Bool, Option, none, some, List, [], ◌∷◌, is_some}
use vouchspec.Base.Lists.{first}
use vouchspec.Errors.{require, ok, idempotency_conflict, ◌>>=◌, ◌>>◌}
use vouchspec.Errors.Ensures.{
  Ensures, Ensures-ok, Ensures-bind, Ensures-require, Ensures-reject, Ensures-if,
}
use vouchspec.Json.{Json, Fields}
use vouchspec.Platform.{Platform, Moment}
use vouchspec.Commerce.Status.{OrderStatus, same_order_status}
use vouchspec.Store.Tables.{
  Db, Order, CostRecord, DirectCost, QuoteRow, DeliveryStatus, add_history, update_order,
}
use vouchspec.Store.Quotes.{
  create_quote, store_quote, replay_quote, insert_quote, is_declined, find_quote, offer,
}
use vouchspec.Store.Orders.{
  create_order, place_order, replay_order, insert_order, order_of_key, attach_checkout, attach_new,
  bind_provider_payment,
}
use vouchspec.Store.Delivery.{
  Evidence, record_direct_costs, record_new_costs, add_costs, cost_in, same_record,
  transition_order, deliver,
}
use vouchspec.Store.Views.{order_view}
use vouchspec.Store.PaymentFacts.{Ensures-add_entry}
use vouchspec.Commerce.Quote.{QuoteDocument}

-- The result's database has the events of the one before.
abbrev pub SameEvents {ℓ} : {A : Type ℓ} → Db → A × Db → Type 0
SameEvents db r = r.1.events ≡ db.events

pub transition_order-SameEvents :
    (p : Platform) (k : String) (t : OrderStatus) (s m : String) (d : DeliveryStatus) (db : Db)
    → Ensures (SameEvents db) (transition_order p k t s m d db)
unfolding transition_order add_history update_order
transition_order-SameEvents p k t s m d db = Ensures-bind λ _ _. Ensures-bind λ o _.
    Ensures-if (same_order_status o.order_status t) _ _ (λ _. Ensures-bind λ v _. Ensures-ok _ refl)
      (λ _. Ensures-bind λ _ _. Ensures-bind λ v _. Ensures-ok _ refl)

pub deliver-SameEvents :
    (p : Platform) (k : String) (v : Evidence) (s m : String) (db : Db)
    → Ensures (SameEvents db) (deliver p k v s m db)
unfolding deliver add_history update_order
deliver-SameEvents p k v s m db = Ensures-require _ _ _ λ _. Ensures-bind λ _ _. Ensures-bind λ o _.
    Ensures-require _ _ _ λ _.
      Ensures-if (same_order_status o.order_status OrderStatus.delivered) _ _
        (λ _. Ensures-require _ _ _ λ _. Ensures-bind λ v _. Ensures-ok _ refl)
        (λ _. Ensures-bind λ _ _. Ensures-reject _ _ _ λ _. Ensures-bind λ v _. Ensures-ok _ refl)

attach_new-SameEvents :
    (o : Order) (c : String) (q : Option String) (t : String) (db : Db)
    → Ensures (SameEvents db) (attach_new o c q t db)
unfolding attach_new add_history update_order
attach_new-SameEvents o c q t db =
    Ensures-bind λ _ _. Ensures-reject _ _ _ λ _. Ensures-bind λ v _. Ensures-ok _ refl

pub attach_checkout-SameEvents :
    (p : Platform) (k c t : String) (q : Option String) (db : Db)
    → Ensures (SameEvents db) (attach_checkout p k c t q db)
unfolding attach_checkout
attach_checkout-SameEvents p k c t q db = Ensures-bind λ _ _. Ensures-bind λ o _.
    Ensures-bind λ x _.
      Ensures-if (is_some o.provider_checkout_id) _ _
        (λ _. Ensures-require _ _ _ λ _. Ensures-bind λ v _. Ensures-ok _ refl)
        (λ _. attach_new-SameEvents o c x t db)

pub bind_provider_payment-SameEvents :
    (p : Platform) (k q c t : String) (db : Db)
    → Ensures (SameEvents db) (bind_provider_payment p k q c t db)
unfolding bind_provider_payment update_order
bind_provider_payment-SameEvents p k q c t db = Ensures-require _ _ _ λ _. Ensures-bind λ _ _.
    Ensures-bind λ o _. Ensures-require _ _ _ λ _.
      Ensures-if (is_some o.provider_payment_id) _ _
        (λ _. Ensures-require _ _ _ λ _. Ensures-bind λ v _. Ensures-ok _ refl)
        (λ _. Ensures-reject _ _ _ λ _. Ensures-bind λ v _. Ensures-ok _ refl)

place_order-SameEvents :
    (p : Platform) (q k b : String) (now : ℕ) (db : Db)
    → Ensures (SameEvents db) (place_order p q k b now db)
unfolding place_order insert_order add_history
place_order-SameEvents p q k b now db = Ensures-bind λ quote _. Ensures-require _ _ _ λ _.
    Ensures-bind λ expiry _. Ensures-require _ _ _ λ _. Ensures-bind λ provider _.
      Ensures-bind λ inserted h. Ensures-bind λ v _. Ensures-ok _ ((kept _).result inserted h)
  where
    kept : (o : Order) → Ensures (λ (d : Db). d.events ≡ db.events) (insert_order o db)
    kept o = Ensures-reject _ _ _ λ _. Ensures-ok _ refl

pub create_order-SameEvents :
    (p : Platform) (q k b : String) (now : Moment) (db : Db)
    → Ensures (SameEvents db) (create_order p q k b now db)
unfolding create_order replay_order
create_order-SameEvents p q k b now db =
    Ensures-require _ _ _
      λ _. Ensures-require _ _ _ λ _. Ensures-bind λ t _. either t (order_of_key k db.orders)
  where
    either :
        (t : ℕ) (o : Option Order)
        → Ensures
            (SameEvents db)
            (elim o [ some x ↦ replay_order q b x db | none ↦ place_order p q k b t db ])
    either t none = place_order-SameEvents p q k b t db
    either t (some x) = Ensures-require _ _ _ λ _. Ensures-bind λ v _. Ensures-ok _ refl

add_costs-SameEvents :
    (f : DirectCost → ℕ) (k c t : String) (cs : List DirectCost) (db : Db)
    → Ensures (λ (d : Db). d.events ≡ db.events) (add_costs f k c t cs db)
unfolding add_costs
add_costs-SameEvents f k c t [] db = Ensures-ok _ refl
add_costs-SameEvents f k c t (x ∷ cs) db =
    Ensures-add_entry _ _ _ (add_costs-SameEvents f k c t cs _)

record_new_costs-SameEvents :
    (f : DirectCost → ℕ) (s c t : String) (o : Order) (db : Db)
    → Ensures (SameEvents db) (record_new_costs f s c t o db)
unfolding record_new_costs update_order
record_new_costs-SameEvents f s c t o db = Ensures-reject _ _ _ λ _. Ensures-bind λ booked h.
    Ensures-bind λ v _. Ensures-ok _ ((add_costs-SameEvents f o.order_id c t _ _).result booked h)

pub record_direct_costs-SameEvents :
    (p : Platform) (k : String) (fs : Fields) (c t : String) (db : Db)
    → Ensures (SameEvents db) (record_direct_costs p k fs c t db)
unfolding record_direct_costs
record_direct_costs-SameEvents p k fs c t db = Ensures-require _ _ _ λ _.
    Ensures-require _ _ _ λ _.
      Ensures-bind λ _ _. Ensures-bind λ o _. either o (first (same_record k c) db.cost_records)
  where
    either :
        (o : Order) (x : Option CostRecord)
        → Ensures (SameEvents db) (elim x [
          | some existing ↦ (do
            require (existing.costs_json == p.dumps (Json.object fs)) idempotency_conflict
            view ← order_view k db
            ok (view, db))
          | none ↦ record_new_costs (cost_in fs) (p.dumps (Json.object fs)) c t o db
        ])
    either o none = record_new_costs-SameEvents _ _ c t o db
    either o (some x) = Ensures-require _ _ _ λ _. Ensures-bind λ v _. Ensures-ok _ refl

store_quote-SameEvents :
    (p : Platform) (q : QuoteDocument) (db : Db) → Ensures (SameEvents db) (store_quote p q db)
unfolding store_quote replay_quote insert_quote
store_quote-SameEvents p q db = either (find_quote q.quote_id db.quotes)
  where
    either :
        (o : Option QuoteRow)
        → Ensures
            (SameEvents db)
            (elim o [ none ↦ ok (q, insert_quote p q db) | some row ↦ replay_quote p q row db ])
    either none = Ensures-ok _ refl
    either (some row) = Ensures-require _ _ _ λ _. Ensures-ok _ refl

pub create_quote-SameEvents :
    (p : Platform) (j : Json) (k : String) (m : Moment) (s : String) (b : Bool) (db : Db)
    → Ensures (SameEvents db) (create_quote p j k m s b db)
unfolding create_quote
create_quote-SameEvents p j k m s b db = Ensures-bind λ provider _. Ensures-bind λ _ _.
    Ensures-bind λ request _. Ensures-bind λ quote _. Ensures-bind λ now _.
      Ensures-if (is_declined quote.quote_status) _ _ (λ _. Ensures-ok _ refl)
        (λ _. store_quote-SameEvents p (offer p db.environment provider now quote) db)
