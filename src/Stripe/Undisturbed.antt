-- ===== src/Stripe/Undisturbed.antt =====
-- The row of a finished webhook event under the transactions of other handlers, as long as none of
-- them completes the same event.
use vouchspec.Stripe.Settled.{
  run_transactions, run_transaction, is_finished, finish, reservation, Transaction,
}
use vouchspec.Base.{
  List, is_some, [], ◌∷◌, ◌++◌, Option, text-eq, sym, subst, inr, inl, Bool-cases, arith, none,
  some, refl, ◌≡◌, ◌==◌, false, true, Bool, String,
}
use vouchspec.Platform.{Platform}
use vouchspec.Stripe.Service.{
  row_key, update_webhook, find_webhook, Service, WebhookRow, rejected, ignored, processed,
  retryable, processing, WebhookStatus,
}
use vouchspec.Errors.Ensures.{Ensures-ok, Ensures-require, Ensures-bind, Ensures}
use vouchspec.Stripe.Webhooks.{
  finish_webhook, new_row, reserved, Reservation, reserve_webhook, finish_known, finished,
  taken_again, reserve_known, retakes, retakes_in,
}
use vouchspec.Table.{append-found, find_key, find-update}
use vouchspec.Errors.{err, ok, Result}
use vouchspec.Base.Lists.{All}

-- Whether a transaction completes the event.
abbrev pub completes : String → Transaction → Bool
completes id (reservation k digest type object_id t) = false
completes id (finish k status t order_id) = k == id

retakes_in-unfinished :
    (p : Platform) (t u : String) (x : WebhookStatus)
    → Ensures (λ b. b ≡ true → is_finished x ≡ false) (retakes_in p t u x)
unfolding retakes_in
retakes_in-unfinished p t u processing =
    Ensures-bind λ _ _. Ensures-bind λ _ _. Ensures-require _ _ _ λ _. Ensures-ok _ (λ e. refl)
retakes_in-unfinished p t u retryable = Ensures-ok _ (λ e. refl)
retakes_in-unfinished p t u processed = Ensures-ok _ (λ e. absurd (cc (e)))
retakes_in-unfinished p t u ignored = Ensures-ok _ (λ e. absurd (cc (e)))
retakes_in-unfinished p t u rejected = Ensures-ok _ (λ e. absurd (cc (e)))

retakes-unfinished :
    (p : Platform) (digest t : String) (row : WebhookRow)
    → Ensures (λ b. b ≡ true → is_finished row.status ≡ false) (retakes p digest t row)
unfolding retakes
retakes-unfinished p digest t row =
    Ensures-require _ _ _ λ _. retakes_in-unfinished p t row.updated_at row.status

module _ (id : String) (row : WebhookRow) (s : Service) (h : find_webhook id s.webhooks ≡ some row)
    (done : is_finished row.status ≡ true) where
  updated-found :
      (k : String) (f : WebhookRow → WebhookRow)
      → ((r : WebhookRow) → row_key (f r) ≡ row_key r)
      → (k == id) ≡ false
      → find_webhook id (update_webhook k f s).webhooks ≡ some row
  unfolding find_webhook update_webhook
  updated-found k f hk d =
      let e = find-update row_key k id f s.webhooks hk in ground (arith, e, d, h)

  reserve_known-found :
      (k t : String) (r : WebhookRow) (again : Result Bool)
      → find_webhook k s.webhooks ≡ some r
      → Ensures (λ b. b ≡ true → is_finished r.status ≡ false) again
      → find_webhook id (reserve_known t r s again).1.webhooks ≡ some row
  reserve_known-found k t r (ok true) q e = elim (Bool-cases (k == id)) [
    | inl same ↦
        let found = subst (λ i. find_webhook i s.webhooks ≡ some r) (text-eq k id same) q in
        let r' : r ≡ row = cc (found, h) in
        let open' =
          subst (λ (x : WebhookRow). is_finished x.status ≡ false) r' (e.result true refl refl) in
        absurd (cc (open', done))
    | inr other ↦
        let key = find_key row_key k s.webhooks r (unfold find_webhook in q) in
        updated-found r.event_id (taken_again t) (λ x. refl)
          (subst (λ i. (i == id) ≡ false) (sym key) other)
  ]
  reserve_known-found k t r (ok false) q e = h
  reserve_known-found k t r (err x) q e = h

  finish_known-found :
      (k : String) (status : WebhookStatus) (t : String) (o : Option String) (b : Bool)
      → (k == id) ≡ false
      → find_webhook id (finish_known k (finished status t o) s b).1.webhooks ≡ some row
  finish_known-found k status t o true d = updated-found k (finished status t o) (λ x. refl) d
  finish_known-found k status t o false d = h

  reserve_webhook-found :
      (p : Platform) (k digest type object_id t : String)
      → find_webhook id (reserve_webhook p k digest type object_id t s).1.webhooks ≡ some row
  unfolding reserve_webhook
  reserve_webhook-found p k digest type object_id t = by_row (find_webhook k s.webhooks) refl
    where
      by_row :
          (x : Option WebhookRow)
          → find_webhook k s.webhooks ≡ x
          → find_webhook id
              (elim x as (λ _. Result Reservation × Service) [
                | some r ↦ reserve_known t r s (retakes p digest t r)
                | none ↦ (
                  ok (reserved none),
                  record s { webhooks = s.webhooks ++ new_row k digest type object_id t ∷ [] },
                )
              ]).1.webhooks
            ≡ some row
      by_row (some r) q = reserve_known-found k t r _ q (retakes-unfinished p digest t r)
      by_row none q =
          unfold find_webhook in
          append-found row_key id s.webhooks (new_row k digest type object_id t) row h

  run_transaction-found :
      (p : Platform) (x : Transaction)
      → completes id x ≡ false
      → find_webhook id (run_transaction p x s).webhooks ≡ some row
  unfolding finish_webhook
  run_transaction-found p (reservation k digest type object_id t) d =
      reserve_webhook-found p k digest type object_id t
  run_transaction-found p (finish k status t o) d =
      finish_known-found k status t o (is_some (find_webhook k s.webhooks)) d

pub run_transactions-found :
    (p : Platform) (xs : List Transaction) (id : String) (row : WebhookRow) (s : Service)
    → find_webhook id s.webhooks ≡ some row
    → is_finished row.status ≡ true
    → All (λ x. completes id x ≡ false) xs
    → find_webhook id (run_transactions p xs s).webhooks ≡ some row
unfolding run_transactions
run_transactions-found p [] id row s h done c = h
run_transactions-found p (x ∷ xs) id row s h done c =
    run_transactions-found p xs id row (run_transaction p x s)
      (run_transaction-found id row s h done p x c.0) done c.1
