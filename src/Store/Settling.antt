-- ===== src/Store/Settling.antt =====
-- What one step of the loop in `_reconcile_payment` does to the events of the store.
use vouchspec.Base.{
  ℕ, ◌≤◌, ◌<◌, ◌≡◌, refl, String, Bool, true, false, not, ◌||◌, Option, none, some, List, [], ◌∷◌,
  arith, eqb, ◌==◌, if◌then◌else◌, Bool-cases, inl, inr,
}
use vouchspec.Base.Lists.{number_of}
use vouchspec.Errors.{Result}
use vouchspec.Errors.Ensures.{Ensures, Ensures-ok, Ensures-bind, Ensures-or_raise, Ensures-if}
use vouchspec.Commerce.Status.{
  PaymentStatus, captured, failed, refunded, pending, available, refund_pending, disputed,
  same_order_status, same_payment_status, payment_allowed, payment_pending,
}
use vouchspec.Store.Tables.{
  Db, Order, Event, EventRow, EventStatus, settled, is_pending, set_event_status, mark_event,
  add_history, update_order,
}
use vouchspec.Store.Views.{is_pending_of}
use vouchspec.Store.Reconcile.{
  process_event, apply_event, apply_captured, apply_failed, apply_refunded, apply_moved, progress,
  target_of, effect_matches,
}
use vouchspec.Store.PaymentFacts.{Ensures-add_entry}
use vouchspec.Table.{find, update}

abbrev pub key_of : EventRow → String
key_of r = r.event_id

abbrev pub settle_events : String → EventStatus → Option String → List EventRow → List EventRow
settle_events k s t = update key_of k (settled s t)

-- How many events of a payment are pending.
abbrev pub backlog : String → Db → ℕ
backlog pid db = number_of (is_pending_of pid) db.events

pub settle-le :
    (pid k : String) (s : EventStatus) (t : Option String) (rs : List EventRow)
    → is_pending s ≡ false
    → number_of (is_pending_of pid) (settle_events k s t rs) ≤ number_of (is_pending_of pid) rs
unfolding update
settle-le pid k s t [] h = omega arith
settle-le pid k s t (r ∷ rs) h = ground (arith, h, settle-le pid k s t rs h)

pub settle-lt :
    (pid k : String) (s : EventStatus) (t : Option String) (rs : List EventRow) (r : EventRow)
    → is_pending s ≡ false
    → find key_of k rs ≡ some r
    → is_pending_of pid r ≡ true
    → number_of (is_pending_of pid) (settle_events k s t rs) < number_of (is_pending_of pid) rs
unfolding update find
settle-lt pid k s t [] r h f p = cc
settle-lt pid k s t (x ∷ rs) r h f p = elim (Bool-cases (x.event_id == k)) [
  | inl e ↦ ground (arith, h, f, p, e)
  | inr e ↦ ground (arith, h, e, settle-lt pid k s t rs r h (ground (arith, f, e)) p)
]

-- What the loop body does to the events: nothing and no progress, or it settles its own event.
pub data Effect (row : EventRow) (db : Db) (r : Bool × Db) : Type 0 where
  waits : r.0 ≡ false → r.1.events ≡ db.events → Effect row db r
  settles :
      (s : EventStatus) (t : Option String)
      → is_pending s ≡ false
      → r.1.events ≡ settle_events row.event.event_id s t db.events
      → Effect row db r

-- Applying an event settles it as applied.
abbrev Applies : Event → Db → Db → Type 0
Applies e db d =
    d.events ≡ settle_events e.event_id EventStatus.applied (some e.occurred_at) db.events

apply_captured-Applies :
    (e : Event) (o : Order) (db : Db) → Ensures (Applies e db) (apply_captured e o db)
unfolding apply_captured update_order mark_event add_history
apply_captured-Applies e o db =
    Ensures-add_entry _ _ _ (Ensures-add_entry _ _ _ (Ensures-ok _ refl))

apply_refunded-Applies :
    (e : Event) (o : Order) (db : Db) → Ensures (Applies e db) (apply_refunded e o db)
unfolding apply_refunded update_order mark_event add_history
apply_refunded-Applies e o db = Ensures-add_entry _ _ _ (Ensures-ok _ refl)

apply_failed-Applies :
    (e : Event) (o : Order) (db : Db) → Ensures (Applies e db) (apply_failed e o db)
unfolding apply_failed update_order mark_event add_history
apply_failed-Applies e o db = Ensures-ok _ refl

apply_moved-Applies :
    (t : PaymentStatus) (e : Event) (o : Order) (db : Db)
    → Ensures (Applies e db) (apply_moved t e o db)
unfolding apply_moved update_order mark_event add_history
apply_moved-Applies t e o db = Ensures-ok _ refl

module _ (row : EventRow) (o : Order) (db : Db) where
  progress-Effect :
      (m : Result Db) → Ensures (Applies row.event db) m → Ensures (Effect row db) (progress m)
  progress-Effect m h = Ensures-bind λ d k.
      Ensures-ok _ (settles EventStatus.applied (some row.event.occurred_at) refl (h.result d k))

  apply_event-Effect : (t : PaymentStatus) → Ensures (Effect row db) (apply_event t row.event o db)
  unfolding apply_event
  apply_event-Effect captured =
      Ensures-if (same_order_status o.order_status payment_pending) _ _
        (λ _. progress-Effect _ (apply_captured-Applies row.event o db))
        (λ _. Ensures-ok _ (waits refl refl))
  apply_event-Effect failed = progress-Effect _ (apply_failed-Applies row.event o db)
  apply_event-Effect refunded = progress-Effect _ (apply_refunded-Applies row.event o db)
  apply_event-Effect pending = progress-Effect _ (apply_moved-Applies pending row.event o db)
  apply_event-Effect available = progress-Effect _ (apply_moved-Applies available row.event o db)
  apply_event-Effect refund_pending =
      progress-Effect _ (apply_moved-Applies refund_pending row.event o db)
  apply_event-Effect disputed = progress-Effect _ (apply_moved-Applies disputed row.event o db)

pub process_event-Effect :
    (row : EventRow) (db : Db) → Ensures (Effect row db) (process_event row db)
unfolding process_event set_event_status mark_event
process_event-Effect row db = Ensures-or_raise _ _ _ λ o h.
    Ensures-if
      (not (eqb row.event.amount_minor o.quoted_amount_minor)
        || not (row.event.currency == o.currency))
      _ _ (λ _. Ensures-ok _ (settles EventStatus.rejected_amount_mismatch none refl refl))
      λ _.
        Ensures-if (same_payment_status o.payment_status (target_of row.event.type)) _ _
          (λ _. Ensures-ok _ (
            settles
              (if effect_matches row.event o (target_of row.event.type)
                then EventStatus.applied_duplicate_effect
                else EventStatus.rejected_effect_conflict)
              (some row.event.occurred_at)
              (effect_settles (effect_matches row.event o (target_of row.event.type))) refl))
          λ _.
            Ensures-if (payment_allowed o.payment_status (target_of row.event.type)) _ _
              (λ _. apply_event-Effect row o db (target_of row.event.type))
              (λ _. Ensures-ok _ (waits refl refl))
  where
    effect_settles :
        (b : Bool)
        → is_pending (
            if b
            then EventStatus.applied_duplicate_effect
            else EventStatus.rejected_effect_conflict)
          ≡ false
    effect_settles true = refl
    effect_settles false = refl
