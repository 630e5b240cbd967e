-- ===== src/Stripe/Settled.antt =====
-- The webhook table of stripe_payments.py under the transactions of handlers that run at once:
-- `_reserve_webhook` and `_finish_webhook` are one immediate transaction each, and between two of a
-- handler's there may be any number of other handlers'.
use vouchspec.Stripe.Service.{
  row_key, update_webhook, find_webhook, WebhookRow, Service, retryable, processing, WebhookStatus,
}
use vouchspec.Base.{
  subst, ◌==◌, is_some, ◌++◌, sym, none, some, ◌∙◌, refl, ◌≡◌, ◌∷◌, [], List, Option, String, false,
  true, Bool,
}
use vouchspec.Platform.{Platform}
use vouchspec.Stripe.Webhooks.{
  new_row, reserved, retakes, Reservation, finished, finish_known, taken_again, reserve_known,
  finish_webhook, reserve_webhook,
}
use vouchspec.Table.{append-found, update-found}
use vouchspec.Errors.{chains, stripe_event_conflict, err, ok, Result}

-- Whether an event needs no further handling.
abbrev pub is_finished : WebhookStatus → Bool
is_finished processing = false
is_finished retryable = false
is_finished _ = true

-- A transaction on the table, by any handler.
pub data Transaction : Type 0 where
  -- event, digest of the payload, type, object and time
  reservation : String → String → String → String → String → Transaction
  -- event, status, time and order
  finish : String → WebhookStatus → String → Option String → Transaction

abbrev pub run_transaction : Platform → Transaction → Service → Service
run_transaction p (reservation id digest type object_id t) s =
    (reserve_webhook p id digest type object_id t s).1
run_transaction p (finish id status t order_id) s = (finish_webhook id status t order_id s).1

-- Any interleaving of the handlers' transactions.
unfoldable pub run_transactions : Platform → List Transaction → Service → Service
run_transactions p [] s = s
run_transactions p (x ∷ xs) s = run_transactions p xs (run_transaction p x s)

-- What no handling of an event changes of its row.
pub record SameEvent (a b : WebhookRow) : Type 0 where
  pub event_id : a.event_id ≡ b.event_id
  pub payload_digest : a.payload_digest ≡ b.payload_digest
  pub event_type : a.event_type ≡ b.event_type
  pub object_id : a.object_id ≡ b.object_id
  pub received_at : a.received_at ≡ b.received_at

SameEvent-refl : (a : WebhookRow) → SameEvent a a
SameEvent-refl a = record {
  event_id = refl;
  payload_digest = refl;
  event_type = refl;
  object_id = refl;
  received_at = refl;
}

SameEvent-trans : (a b c : WebhookRow) → SameEvent a b → SameEvent b c → SameEvent a c
SameEvent-trans a b c x y = record {
  event_id = x.event_id ∙ y.event_id;
  payload_digest = x.payload_digest ∙ y.payload_digest;
  event_type = x.event_type ∙ y.event_type;
  object_id = x.object_id ∙ y.object_id;
  received_at = x.received_at ∙ y.received_at;
}

-- The event is in the table, as the row says.
abbrev Holds : String → WebhookRow → Service → Type 0
Holds id row s = (r : WebhookRow) × (find_webhook id s.webhooks ≡ some r) × SameEvent row r

module _ (id : String) (row : WebhookRow) (s : Service)
    (h : find_webhook id s.webhooks ≡ some row) where
  updated-Holds :
      (k : String) (f : WebhookRow → WebhookRow)
      → ((x : WebhookRow) → SameEvent x (f x))
      → Holds id row (update_webhook k f s)
  unfolding find_webhook update_webhook
  updated-Holds k f same =
      update-found row_key SameEvent k id f s.webhooks row (λ x. sym (same x).event_id)
        SameEvent-refl (λ _. same row) h

  reserve_known-Holds :
      (t : String) (r : WebhookRow) (again : Result Bool)
      → Holds id row (reserve_known t r s again).1
  reserve_known-Holds t r (ok true) = updated-Holds r.event_id (taken_again t) (λ x. record {
    event_id = refl;
    payload_digest = refl;
    event_type = refl;
    object_id = refl;
    received_at = refl;
  })
  reserve_known-Holds t r (ok false) = (row, h, SameEvent-refl row)
  reserve_known-Holds t r (err e) = (row, h, SameEvent-refl row)

  finish_known-Holds :
      (k : String) (status : WebhookStatus) (t : String) (o : Option String) (b : Bool)
      → Holds id row (finish_known k (finished status t o) s b).1
  finish_known-Holds k status t o true = updated-Holds k (finished status t o) (λ x. record {
    event_id = refl;
    payload_digest = refl;
    event_type = refl;
    object_id = refl;
    received_at = refl;
  })
  finish_known-Holds k status t o false = (row, h, SameEvent-refl row)

  reserve_webhook-Holds :
      (p : Platform) (k digest type object_id t : String)
      → Holds id row (reserve_webhook p k digest type object_id t s).1
  unfolding reserve_webhook
  reserve_webhook-Holds p k digest type object_id t = by_row (find_webhook k s.webhooks)
    where
      by_row :
          (x : Option WebhookRow)
          → Holds id row
              (elim x as (λ _. Result Reservation × Service) [
                | some r ↦ reserve_known t r s (retakes p digest t r)
                | none ↦ (
                  ok (reserved none),
                  record s { webhooks = s.webhooks ++ new_row k digest type object_id t ∷ [] },
                )
              ]).1
      by_row (some r) = reserve_known-Holds t r (retakes p digest t r)
      by_row none = (
        row,
        unfold find_webhook in
            append-found row_key id s.webhooks (new_row k digest type object_id t) row h,
        SameEvent-refl row,
      )

  run_transaction-Holds : (p : Platform) (x : Transaction) → Holds id row (run_transaction p x s)
  unfolding finish_webhook
  run_transaction-Holds p (reservation k digest type object_id t) =
      reserve_webhook-Holds p k digest type object_id t
  run_transaction-Holds p (finish k status t o) =
      finish_known-Holds k status t o (is_some (find_webhook k s.webhooks))

run_transactions-Holds :
    (p : Platform) (xs : List Transaction) (id : String) (row : WebhookRow) (s : Service)
    → find_webhook id s.webhooks ≡ some row
    → Holds id row (run_transactions p xs s)
unfolding run_transactions
run_transactions-Holds p [] id row s h = (row, h, SameEvent-refl row)
run_transactions-Holds p (x ∷ xs) id row s h =
    let (r, q, same) = run_transaction-Holds id row s h p x in
    let (r', q', same') = run_transactions-Holds p xs id r (run_transaction p x s) q in
    (r', q', SameEvent-trans row r r' same same')

reserve_webhook-conflict :
    (p : Platform) (id digest type object_id t : String) (row : WebhookRow) (s : Service)
    → find_webhook id s.webhooks ≡ some row
    → (row.payload_digest == digest) ≡ false
    → reserve_webhook p id digest type object_id t s ≡ (err stripe_event_conflict, s)
unfolding reserve_webhook retakes chains
reserve_webhook-conflict p id digest type object_id t row s h d =
    rw (h, reserve_webhook) (rw d refl)

-- Once a webhook event is in the table, then after any interleaving of handlers' reservations and completions it is there with the same payload digest, type, object and time of receipt, and a delivery of the event with another payload is refused with stripe_event_conflict and changes nothing.
pub run_transactions-SameEvent :
    (p : Platform) (xs : List Transaction) (id : String) (row : WebhookRow) (s : Service)
    → find_webhook id s.webhooks ≡ some row
    → (r : WebhookRow) × (find_webhook id (run_transactions p xs s).webhooks ≡ some r)
      × SameEvent row r
      × ((digest type object_id t : String)
          → (row.payload_digest == digest) ≡ false
          → reserve_webhook p id digest type object_id t (run_transactions p xs s)
            ≡ (err stripe_event_conflict, run_transactions p xs s))
run_transactions-SameEvent p xs id row s h =
    let (r, q, same) = run_transactions-Holds p xs id row s h in
    (
      r,
      q,
      same,
      λ digest type object_id t d.
          reserve_webhook-conflict p id digest type object_id t r (run_transactions p xs s) q
            (subst (λ x. (x == digest) ≡ false) same.payload_digest d),
    )
