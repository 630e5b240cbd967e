-- ===== src/Store/EventKeys.antt =====
-- The provider_events table of commerce_store.py stays keyed by the identifiers of its events, so the
-- loop of `_reconcile_payment` ends in every store that operations make.
use vouchspec.Base.{
  ℕ, zero, suc, ◌≡◌, ◌≢◌, refl, String, Bool, true, false, Option, none, some, List, [], ◌∷◌, arith,
  sym, subst,
}
use vouchspec.Base.Lists.{All-append}
use vouchspec.Errors.{Result, ok, err, out_of_fuel}
use vouchspec.Errors.Ensures.{Ensures, Ensures-ok, Ensures-bind, Ensures-require, Ensures-err}
use vouchspec.Json.{Json}
use vouchspec.Platform.{Platform}
use vouchspec.Store.Tables.{Environment, Db, Event, EventRow, empty_store, find_event}
use vouchspec.Store.Delivery.{begin_fulfillment, fail_fulfillment}
use vouchspec.Store.Reconcile.{
  ingest_provider_event, ingest_new, ingest_duplicate, reconcile_payment, rounds, add_event,
  event_row,
}
use vouchspec.Store.Views.{pending_events}
use vouchspec.Store.Termination.{EventsValid, run_round-EventsValid, reconcile_payment-finishes}
use vouchspec.Store.EventTable.{
  SameEvents, create_quote-SameEvents, create_order-SameEvents, attach_checkout-SameEvents,
  bind_provider_payment-SameEvents, record_direct_costs-SameEvents, transition_order-SameEvents,
  deliver-SameEvents,
}
use vouchspec.Store.Commands.{Command, execute, database, settle, run}
use vouchspec.Table.{append-Unique}

abbrev HasEvents : Db → Type 0
HasEvents db = EventsValid db.events

reconcile-EventsValid :
    (fuel : ℕ) (pid : String) (db : Db)
    → HasEvents db
    → Ensures HasEvents (reconcile_payment fuel pid db)
unfolding reconcile_payment
reconcile-EventsValid zero pid db v = Ensures-err _
reconcile-EventsValid (suc fuel) pid db v = Ensures-bind λ x h.
    let w = (run_round-EventsValid (pending_events pid db.events) db v).result x h in
    again x.0 x.1 w (reconcile-EventsValid fuel pid x.1 w)
  where
    again :
        (b : Bool) (d : Db)
        → HasEvents d
        → Ensures HasEvents (reconcile_payment fuel pid d)
        → Ensures HasEvents (elim b [ true ↦ reconcile_payment fuel pid d | false ↦ ok d ])
    again true d w r = r
    again false d w r = Ensures-ok _ w

inserted-EventsValid :
    (e : Event) (digest received : String) (db : Db)
    → HasEvents db
    → find_event e.event_id db.events ≡ none
    → HasEvents (add_event (event_row e digest received) db)
unfolding EventsValid find_event
inserted-EventsValid e digest received db v f = (
  append-Unique (λ (r : EventRow). r.event_id) (event_row e digest received) db.events f v.0,
  All-append _ db.events _ v.1 (refl, tt),
)

ingest_new-EventsValid :
    (e : Event) (digest received : String) (db : Db)
    → HasEvents db
    → find_event e.event_id db.events ≡ none
    → Ensures (λ r. HasEvents r.1) (ingest_new e digest received db)
unfolding ingest_new
ingest_new-EventsValid e digest received db v f = Ensures-bind λ o _. Ensures-require _ _ _ λ _.
    Ensures-bind λ after h. Ensures-bind λ row _. Ensures-bind λ view _. Ensures-ok _ (
      (reconcile-EventsValid _ e.payment_id _
          (inserted-EventsValid e digest received db v f)).result
        after h)

ingest-EventsValid :
    (p : Platform) (j : Json) (received : String) (db : Db)
    → HasEvents db
    → Ensures (λ r. HasEvents r.1) (ingest_provider_event p j received db)
unfolding ingest_provider_event ingest_duplicate
ingest-EventsValid p j received db v =
    Ensures-bind λ e _. Ensures-bind λ _ _. either e (find_event e.event_id db.events) refl
  where
    either :
        (e : Event) (o : Option EventRow)
        → find_event e.event_id db.events ≡ o
        → Ensures
            (λ r. HasEvents r.1)
            (elim o [
              | some existing ↦ ingest_duplicate e (p.sha256 (p.dumps j)) existing db
              | none ↦ ingest_new e (p.sha256 (p.dumps j)) received db
            ])
    either e none f = ingest_new-EventsValid e _ received db v f
    either e (some x) f =
        Ensures-require _ _ _ λ _. Ensures-bind λ o _. Ensures-bind λ view _. Ensures-ok _ v

same-EventsValid {ℓ} :
    {A : Type ℓ} (db : Db) (m : Result (A × Db))
    → HasEvents db
    → Ensures (SameEvents db) m
    → Ensures HasEvents (database m)
same-EventsValid db m v h =
    Ensures-bind λ r k. Ensures-ok _ (subst EventsValid (sym (h.result r k)) v)

execute-EventsValid :
    (p : Platform) (c : Command) (db : Db) → HasEvents db → Ensures HasEvents (execute p c db)
unfolding execute begin_fulfillment fail_fulfillment
execute-EventsValid p (Command.quote j k m s b) db v =
    same-EventsValid db _ v (create_quote-SameEvents p j k m s b db)
execute-EventsValid p (Command.order q k b m) db v =
    same-EventsValid db _ v (create_order-SameEvents p q k b m db)
execute-EventsValid p (Command.attach k c t q) db v =
    same-EventsValid db _ v (attach_checkout-SameEvents p k c t q db)
execute-EventsValid p (Command.bind k q c t) db v =
    same-EventsValid db _ v (bind_provider_payment-SameEvents p k q c t db)
execute-EventsValid p (Command.ingest j t) db v =
    Ensures-bind λ r k. Ensures-ok _ ((ingest-EventsValid p j t db v).result r k)
execute-EventsValid p (Command.costs k fs c t) db v =
    same-EventsValid db _ v (record_direct_costs-SameEvents p k fs c t db)
execute-EventsValid p (Command.begin_work k s t) db v =
    same-EventsValid db _ v (transition_order-SameEvents p k _ s t _ db)
execute-EventsValid p (Command.fail_work k s t) db v =
    same-EventsValid db _ v (transition_order-SameEvents p k _ s t _ db)
execute-EventsValid p (Command.delivery k e s t) db v =
    same-EventsValid db _ v (deliver-SameEvents p k e s t db)

settle-EventsValid :
    (db : Db) (m : Result Db) → HasEvents db → Ensures HasEvents m → HasEvents (settle db m)
settle-EventsValid db (ok after) v h = h.result after refl
settle-EventsValid db (err e) v h = v

run-EventsValid :
    (p : Platform) (cs : List Command) (db : Db) → HasEvents db → HasEvents (run p cs db)
unfolding run
run-EventsValid p [] db v = v
run-EventsValid p (c ∷ cs) db v =
    run-EventsValid p cs (settle db (execute p c db))
      (settle-EventsValid db (execute p c db) v (execute-EventsValid p c db v))

empty-EventsValid : EventsValid []
unfolding EventsValid
empty-EventsValid = (tt, tt)

-- In every store that operations have made of an empty one, reconciling the payment of a new event,
-- with the fuel that `ingest_new` gives, does not run out of fuel.
pub ingested_event-finishes :
    (p : Platform) (env : Environment) (cs : List Command) (e : Event) (digest received : String)
    → find_event e.event_id (run p cs (empty_store env)).events ≡ none
    → reconcile_payment
        (rounds e.payment_id (add_event (event_row e digest received) (run p cs (empty_store env))))
        e.payment_id
        (add_event (event_row e digest received) (run p cs (empty_store env)))
      ≢ err out_of_fuel
ingested_event-finishes p env cs e digest received f =
    let db = run p cs (empty_store env) in
    reconcile_payment-finishes _ e.payment_id (add_event (event_row e digest received) db)
      (inserted-EventsValid e digest received db
        (run-EventsValid p cs (empty_store env) empty-EventsValid) f)
      (omega arith)
