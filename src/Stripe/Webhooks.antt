-- ===== src/Stripe/Webhooks.antt =====
-- `_reserve_webhook`, `_finish_webhook` and `_record_reconciliation`: the adapter's own tables.
use vouchspec.Base.{
  List, false, true, is_some, [], ◌∷◌, ◌++◌, some, none, ◌+◌, leb, if◌then◌else◌, ◌&&◌, ◌==◌,
  String, Option, Bool, ℕ,
}
use vouchspec.Stripe.Service.{
  retryable, processing, Reconciliation, Method, find_webhook, update_webhook, Service, WebhookRow,
  retryable, processing, WebhookStatus,
}
use vouchspec.Commerce.Quote.{minutes}
use vouchspec.Platform.{Platform}
use vouchspec.Errors.{
  ◌>>◌, ◌>>=◌, require, stripe_event_processing, stripe_event_conflict, err, ok, Result,
}
use vouchspec.Stripe.Objects.{parse_time}
use vouchspec.Base.Lists.{any}
use vouchspec.Store.Views.{text_le}

-- What `_reserve_webhook` returns.
pub record Reservation : Type 0 where
  pub duplicate : Bool
  pub status : WebhookStatus
  pub order_id : Option String

abbrev pub reserved : Option String → Reservation
reserved o = record { duplicate = false; status = processing; order_id = o }

-- `WEBHOOK_PROCESSING_LEASE`, in microseconds.
abbrev pub processing_lease : ℕ
processing_lease = minutes 10

abbrev pub taken_again : String → WebhookRow → WebhookRow
taken_again t r = record r { status = processing; updated_at = t }

-- An event that was not finished is taken again when it may be retried or its lease is over.
unfoldable pub retakes_in : Platform → String → String → WebhookStatus → Result Bool
retakes_in p received updated retryable = ok true
retakes_in p received updated processing = do
  t ← parse_time p received
  u ← parse_time p updated
  require (leb (u + processing_lease) t) stripe_event_processing
  ok true
retakes_in p received updated _ = ok false

-- Whether an event that is known is taken again; otherwise it is a duplicate.
unfoldable pub retakes : Platform → String → String → WebhookRow → Result Bool
retakes p digest received row = do
  require (row.payload_digest == digest) stripe_event_conflict
  retakes_in p received row.updated_at row.status

-- The row of a known event is taken again, or reported.
abbrev pub reserve_known :
    String → WebhookRow → Service → Result Bool → Result Reservation × Service
reserve_known received row s (ok true) =
    (ok (reserved row.order_id), update_webhook row.event_id (taken_again received) s)
reserve_known received row s (ok false) =
    (ok (record { duplicate = true; status = row.status; order_id = row.order_id }), s)
reserve_known received row s (err e) = (err e, s)

-- The row of an event that was not seen before.
abbrev pub new_row : String → String → String → String → String → WebhookRow
new_row event_id digest event_type object_id received = record {
  event_id = event_id;
  payload_digest = digest;
  event_type = event_type;
  object_id = object_id;
  status = processing;
  order_id = none;
  received_at = received;
  updated_at = received;
}

-- `_reserve_webhook`
unfoldable pub reserve_webhook :
    Platform → String → String → String → String → String → Method Reservation
reserve_webhook p event_id digest event_type object_id received s =
    elim (find_webhook event_id s.webhooks) [
      | some row ↦ reserve_known received row s (retakes p digest received row)
      | none ↦ (
        ok (reserved none),
        record s {
          webhooks = s.webhooks ++ new_row event_id digest event_type object_id received ∷ [];
        },
      )
    ]

abbrev pub finished : WebhookStatus → String → Option String → WebhookRow → WebhookRow
finished status t order_id r = record r {
  status = status;
  order_id = elim order_id [ none ↦ r.order_id | some o ↦ some o ];
  updated_at = t;
}

abbrev pub finish_known :
    String → (WebhookRow → WebhookRow) → Service → Bool → Result (Unit {0}) × Service
finish_known event_id f s true = (ok tt, update_webhook event_id f s)
finish_known event_id f s false = (err stripe_event_conflict, s)

-- `_finish_webhook`
unfoldable pub finish_webhook : String → WebhookStatus → String → Option String → Method (Unit {0})
finish_webhook event_id status t order_id s =
    finish_known event_id (finished status t order_id) s
      (is_some (find_webhook event_id s.webhooks))

-- UNIQUE(order_id, snapshot_digest)
abbrev pub same_snapshot : Reconciliation → Reconciliation → Bool
same_snapshot a b = a.order_id == b.order_id && a.snapshot_digest == b.snapshot_digest

-- `_record_reconciliation`: `INSERT OR IGNORE`
unfoldable pub record_reconciliation : Reconciliation → Method (Unit {0})
record_reconciliation r s = (
  ok tt,
  if any (same_snapshot r) s.reconciliations
      then s
      else record s { reconciliations = s.reconciliations ++ r ∷ [] },
)

-- `ORDER BY received_at, event_id`
abbrev row_le : WebhookRow → WebhookRow → Bool
row_le a b =
    if a.received_at == b.received_at
    then text_le a.event_id b.event_id
    else text_le a.received_at b.received_at

abbrev insert_row : WebhookRow → List WebhookRow → List WebhookRow
insert_row r [] = r ∷ []
insert_row r (x ∷ xs) = if row_le r x then r ∷ x ∷ xs else x ∷ insert_row r xs

-- `audit_events`, whose rows leave out the digest.
unfoldable pub webhook_audit : List WebhookRow → List WebhookRow
webhook_audit [] = []
webhook_audit (r ∷ rs) = insert_row r (webhook_audit rs)
