-- ===== src/Store/Termination.antt =====
-- The loop of `_reconcile_payment` ends: each round with progress settles a pending event.
use vouchspec.Base.{
  ℕ, zero, suc, ◌≤◌, ◌<◌, ◌≡◌, ◌≢◌, refl, String, Bool, true, false, not, ◌||◌, Option, none, some,
  List, [], ◌∷◌, arith, sym, subst, eqb, ◌==◌, if◌then◌else◌, Bool-cases, inl, inr,
}
use vouchspec.Base.Lists.{any, All, All-both, All-keep, number_of}
use vouchspec.Errors.{Result, ok, err, out_of_fuel, assertion_error, ◌>>=◌, or_raise, chains}
use vouchspec.Errors.Ensures.{Ensures, Ensures-ok, Ensures-bind}
use vouchspec.Commerce.Status.{
  PaymentStatus, captured, failed, refunded, pending, available, refund_pending, disputed,
  same_order_status, same_payment_status, payment_allowed, payment_pending,
}
use vouchspec.Store.Tables.{
  Db, Order, Event, EventRow, EventStatus, settled, Entry, add_entry, same_entry,
}
use vouchspec.Store.Views.{is_pending_of, pending_events, sort_events, insert_event, event_le}
use vouchspec.Store.Reconcile.{
  process_event, apply_event, apply_captured, apply_failed, apply_refunded, apply_moved, progress,
  run_round, reconcile_payment, target_of,
}
use vouchspec.Table.{Unique, find, update, find_key, All-found, update-Unique}
use vouchspec.Store.Settling.{
  waits, settles, Effect, key_of, settle_events, backlog, settle-le, settle-lt,
  process_event-Effect,
}

-- The key of an event's row is the identifier of the event, and keys are unique.
unfoldable pub EventsValid : List EventRow → Type 0
EventsValid rs = Unique key_of rs × All (λ (r : EventRow). r.event.event_id ≡ r.event_id) rs

-- The rows are pending rows of the table, found under their own events.
abbrev Found : String → List EventRow → List EventRow → Type 0
Found pid rs = All (λ r. (find key_of r.event.event_id rs ≡ some r) × (is_pending_of pid r ≡ true))

-- Events before and after a round, and whether it made progress.
abbrev Settled : String → Db → Bool × Db → Type 0
Settled pid db r =
    (backlog pid r.1 ≤ backlog pid db) × (r.0 ≡ true → backlog pid r.1 < backlog pid db)

step-le :
    (pid : String) (row : EventRow) (db : Db) (r : Bool × Db)
    → Effect row db r
    → backlog pid r.1 ≤ backlog pid db
step-le pid row db r (waits m e) = rw e (omega arith)
step-le pid row db r (settles s t p e) = rw e (settle-le pid row.event.event_id s t db.events p)

run_round-le :
    (pid : String) (rows : List EventRow) (db : Db)
    → Ensures (λ r. backlog pid r.1 ≤ backlog pid db) (run_round rows db)
unfolding run_round
run_round-le pid [] db = Ensures-ok _ (omega arith)
run_round-le pid (row ∷ rows) db = Ensures-bind λ x h. Ensures-bind λ y k. Ensures-ok _ (
    let a = step-le pid row db x ((process_event-Effect row db).result x h) in
    let b = (run_round-le pid rows x.1).result y k in omega (arith, a, b))

-- A row that waits leaves the round to the later rows; one that is settled makes its progress.
round-join :
    (pid : String) (row : EventRow) (rows : List EventRow) (db : Db) (x y : Bool × Db)
    → find key_of row.event.event_id db.events ≡ some row
    → is_pending_of pid row ≡ true
    → Effect row db x
    → run_round rows x.1 ≡ ok y
    → (x.1.events ≡ db.events → Settled pid x.1 y)
    → Settled pid db (x.0 || y.0, y.1)
round-join pid row rows db x y f p (waits m e) k later =
    let s = later e in
    let b = subst (λ es. backlog pid x.1 ≡ number_of (is_pending_of pid) es) e refl in
    (omega (arith, s.0, b), λ made. omega (arith, b, s.1 (ground (arith, made, m))))
round-join pid row rows db x y f p (settles s t n e) k later =
    let l = (run_round-le pid rows x.1).result y k in
    let d = settle-lt pid row.event.event_id s t db.events row n f p in
    let b = subst (λ es. backlog pid x.1 ≡ number_of (is_pending_of pid) es) e refl in
    (omega (arith, l, d, b), λ _. omega (arith, l, d, b))

run_round-Settled :
    (pid : String) (rows : List EventRow) (db : Db)
    → Found pid db.events rows
    → Ensures (Settled pid db) (run_round rows db)
unfolding run_round
run_round-Settled pid [] db f = Ensures-ok _ (omega arith, λ e. cc)
run_round-Settled pid (row ∷ rows) db f = Ensures-bind λ x h. Ensures-bind λ y k. Ensures-ok _ (
    round-join pid row rows db x y f.0.0 f.0.1 ((process_event-Effect row db).result x h) k (λ e.
      (run_round-Settled pid rows x.1 (subst (λ es. Found pid es rows) (sym e) f.1)).result y k))

insert_event-All :
    (P : EventRow → Type 0) (r : EventRow) (rs : List EventRow)
    → P r
    → All P rs
    → All P (insert_event r rs)
unfolding insert_event
insert_event-All P r [] h a = (h, tt)
insert_event-All P r (x ∷ xs) h a = elim (Bool-cases (event_le r x)) [
  | inl e ↦ rw e (h, a)
  | inr e ↦ rw e (a.0, insert_event-All P r xs h a.1)
]

sort_events-All : (P : EventRow → Type 0) (rs : List EventRow) → All P rs → All P (sort_events rs)
unfolding sort_events
sort_events-All P [] a = tt
sort_events-All P (x ∷ xs) a = insert_event-All P x (sort_events xs) a.0 (sort_events-All P xs a.1)

pending_events-Found :
    (pid : String) (rs : List EventRow) → EventsValid rs → Found pid rs (pending_events pid rs)
unfolding pending_events EventsValid
pending_events-Found pid rs v =
    let found =
      All-found key_of (λ r. find key_of r.event_id rs ≡ some r) rs v.0
        (λ k r e. subst (λ j. find key_of j rs ≡ some r) (sym (find_key key_of k rs r e)) e) in
    sort_events-All _ _ (
      All-keep (λ r. find key_of r.event.event_id rs ≡ some r) (is_pending_of pid) rs
        (All-both rs (λ r s f. subst (λ j. find key_of j rs ≡ some r) (sym s) f) v.1 found))

-- Settling rows keeps the keys and the events.
settle-EventsValid :
    (k : String) (s : EventStatus) (t : Option String) (rs : List EventRow)
    → EventsValid rs
    → EventsValid (settle_events k s t rs)
unfolding EventsValid update
settle-EventsValid k s t rs v =
    (update-Unique key_of k (settled s t) rs (λ r. refl) v.0, own_events rs v.1)
  where
    own_events :
        (rows : List EventRow)
        → All (λ (r : EventRow). r.event.event_id ≡ r.event_id) rows
        → All (λ (r : EventRow). r.event.event_id ≡ r.event_id) (settle_events k s t rows)
    own_events [] a = tt
    own_events (x ∷ xs) a = elim (Bool-cases (x.event_id == k)) [
      | inl e ↦ rw e (a.0, a.1)
      | inr e ↦ rw e (a.0, own_events xs a.1)
    ]

pub run_round-EventsValid :
    (rows : List EventRow) (db : Db)
    → EventsValid db.events
    → Ensures (λ r. EventsValid r.1.events) (run_round rows db)
unfolding run_round
run_round-EventsValid [] db v = Ensures-ok _ v
run_round-EventsValid (row ∷ rows) db v = Ensures-bind λ x h. Ensures-bind λ y k. Ensures-ok _ (
    (run_round-EventsValid rows x.1 (kept x ((process_event-Effect row db).result x h))).result y k)
  where
    kept : (x : Bool × Db) → Effect row db x → EventsValid x.1.events
    kept x (waits m e) = subst EventsValid (sym e) v
    kept x (settles s t n e) =
        subst EventsValid (sym e) (settle-EventsValid row.event.event_id s t db.events v)

-- Fallible code that does not run out of fuel.
abbrev Finishes {ℓ} : {A : Type ℓ} → Result A → Type ℓ
Finishes m = m ≢ err out_of_fuel

module _ {ℓ} {A : Type ℓ} where
  ok-Finishes : (a : A) → Finishes (ok a)
  ok-Finishes a e = cc

  bind-Finishes {κ} :
      {B : Type κ} (m : Result B) (f : B → Result A)
      → Finishes m
      → ((b : B) → m ≡ ok b → Finishes (f b))
      → Finishes (m >>= f)
  unfolding chains
  bind-Finishes (ok b) f h k = k b refl
  bind-Finishes (err e) f h k = λ q. h (cc)

  or_raise-Finishes : (o : Option A) → Finishes (or_raise o assertion_error)
  unfolding chains
  or_raise-Finishes none e = cc
  or_raise-Finishes (some a) e = cc

if-Finishes {ℓ} :
    {A : Type ℓ} (c : Bool) (m n : Result A)
    → Finishes m
    → Finishes n
    → Finishes (if c then m else n)
if-Finishes true m n h k = h
if-Finishes false m n h k = k

add_entry-Finishes : (x : Entry) (db : Db) → Finishes (add_entry x db)
unfolding add_entry
add_entry-Finishes x db = if-Finishes (any (same_entry x) db.entries) _ _ (λ q. cc) (ok-Finishes _)

progress-Finishes : (m : Result Db) → Finishes m → Finishes (progress m)
progress-Finishes m h = bind-Finishes m _ h λ d k. ok-Finishes (true, d)

apply_event-Finishes :
    (t : PaymentStatus) (e : Event) (o : Order) (db : Db) → Finishes (apply_event t e o db)
unfolding apply_event apply_captured apply_failed apply_refunded apply_moved
apply_event-Finishes captured e o db =
    if-Finishes (same_order_status o.order_status payment_pending) _ _
      (progress-Finishes _ (
        bind-Finishes _ _ (add_entry-Finishes _ _)
          λ x _. bind-Finishes _ _ (add_entry-Finishes _ _) λ y _. ok-Finishes _))
      (ok-Finishes _)
apply_event-Finishes refunded e o db =
    progress-Finishes _ (bind-Finishes _ _ (add_entry-Finishes _ _) λ x _. ok-Finishes _)
apply_event-Finishes failed e o db = progress-Finishes _ (ok-Finishes _)
apply_event-Finishes pending e o db = progress-Finishes _ (ok-Finishes _)
apply_event-Finishes available e o db = progress-Finishes _ (ok-Finishes _)
apply_event-Finishes refund_pending e o db = progress-Finishes _ (ok-Finishes _)
apply_event-Finishes disputed e o db = progress-Finishes _ (ok-Finishes _)

process_event-Finishes : (row : EventRow) (db : Db) → Finishes (process_event row db)
unfolding process_event
process_event-Finishes row db = bind-Finishes _ _ (or_raise-Finishes _) λ o _.
    if-Finishes
      (not (eqb row.event.amount_minor o.quoted_amount_minor)
        || not (row.event.currency == o.currency))
      _ _ (ok-Finishes _)
      (if-Finishes (same_payment_status o.payment_status (target_of row.event.type)) _ _
        (ok-Finishes _)
        (if-Finishes (payment_allowed o.payment_status (target_of row.event.type)) _ _
          (apply_event-Finishes (target_of row.event.type) row.event o db) (ok-Finishes _)))

run_round-Finishes : (rows : List EventRow) (db : Db) → Finishes (run_round rows db)
unfolding run_round
run_round-Finishes [] db = ok-Finishes _
run_round-Finishes (row ∷ rows) db =
    bind-Finishes _ _ (process_event-Finishes row db)
      λ x h. bind-Finishes _ _ (run_round-Finishes rows x.1) λ y k. ok-Finishes _

-- Reconciling a payment never runs out of fuel when the fuel exceeds the number of its pending
-- events, in a store whose event rows are keyed by their events' identifiers.
pub reconcile_payment-finishes :
    (fuel : ℕ) (pid : String) (db : Db)
    → EventsValid db.events
    → number_of (is_pending_of pid) db.events < fuel
    → reconcile_payment fuel pid db ≢ err out_of_fuel
unfolding reconcile_payment
reconcile_payment-finishes zero pid db v l = omega (arith, l)
reconcile_payment-finishes (suc fuel) pid db v l =
    bind-Finishes _ _ (run_round-Finishes (pending_events pid db.events) db) λ x h.
      (next x
        ((run_round-Settled pid (pending_events pid db.events) db
            (pending_events-Found pid db.events v)).result
          x h)
        (reconcile_payment-finishes fuel pid x.1
          ((run_round-EventsValid (pending_events pid db.events) db v).result x h)))
  where
    next :
        (x : Bool × Db)
        → Settled pid db x
        → (backlog pid x.1 < fuel → Finishes (reconcile_payment fuel pid x.1))
        → Finishes {A = Db} (elim x.0 [ true ↦ reconcile_payment fuel pid x.1 | false ↦ ok x.1 ])
    next (true, d) s k = k (let z = s.1 refl in omega (arith, l, z))
    next (false, d) s k = ok-Finishes d
