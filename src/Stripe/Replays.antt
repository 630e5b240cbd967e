-- ===== src/Stripe/Replays.antt =====
-- A webhook that is delivered again.
use vouchspec.Base.{
  List, ℕ, ◌+◌, ◌==◌, eq_iff, [], ◌∷◌, ◌++◌, text-eq, sym, inr, inl, Bool-cases, ap, subst, none,
  arith, text_refl, false, true, Bool, Option, ◌∙◌, String, some, refl, ◌≡◌,
}
use vouchspec.Stripe.Service.{
  now, utc_now, stepped, rejected, retryable, processing, processed, Adapter, lift, ignored, ◌>>=◌,
  WebhookStatus, row_key, WebhookRow, find_webhook, next, Service,
}
use vouchspec.Errors.{chains, Result, err, ok}
use vouchspec.Platform.{Platform}
use vouchspec.Table.{find-append, find}
use vouchspec.Stripe.Webhooks.{
  retakes_in, reserved, new_row, reserve_webhook, taken_again, reserve_known, retakes, Reservation,
}
use vouchspec.Stripe.Notices.{read_event, Notice}
use vouchspec.Stripe.Process.{process_webhook, process_reserved, told, Processed}
use vouchspec.Stripe.Settled.{run_transactions, Transaction, is_finished}
use vouchspec.Errors.Ensures.{Ensures-require, Ensures}
use vouchspec.Stripe.Finished.{
  process_reserved-IsFinished, IsFinished, updated-HasDigest, HasDigest, bind-ok,
}
use vouchspec.Stripe.Undisturbed.{run_transactions-found, completes}
use vouchspec.Base.Lists.{All}

-- A reservation that is no duplicate leaves a row with the digest of the payload.
record Reserved (id d : String) (y : Result Reservation × Service) : Type 0 where
  pub digest : (x : Reservation) → y.0 ≡ ok x → x.duplicate ≡ false → HasDigest id d y.1

retakes-digest :
    (p : Platform) (d t : String) (row : WebhookRow)
    → Ensures (λ b. row.payload_digest ≡ d) (retakes p d t row)
unfolding retakes
retakes-digest p d t row =
    Ensures-require _ _ _ λ c. record { result = λ b e. text-eq row.payload_digest d c }

reserve_known-Reserved :
    (id d t : String) (row : WebhookRow) (s : Service)
    → find_webhook id s.webhooks ≡ some row
    → (again : Result Bool) → Ensures (λ b. row.payload_digest ≡ d) again
    → Reserved id d (reserve_known t row s again)
reserve_known-Reserved id d t row s h (ok true) e = record {
  digest = λ x q dup.
      updated-HasDigest id row.event_id d (taken_again t) s (λ r. refl) (λ r. refl)
        (record { row = row; found = h; digest = e.result true refl });
}
reserve_known-Reserved id d t row s h (ok false) e = record {
  digest = λ x q dup. absurd (cc (q, dup));
}
reserve_known-Reserved id d t row s h (err z) e = record { digest = λ x q dup. absurd (cc (q)) }

reserve_webhook-Reserved :
    (p : Platform) (id d type object_id t : String) (s : Service)
    → Reserved id d (reserve_webhook p id d type object_id t s)
unfolding reserve_webhook
reserve_webhook-Reserved p id d type object_id t s = found (find_webhook id s.webhooks) refl
  where
    row : WebhookRow
    row = new_row id d type object_id t

    appended :
        find row_key id s.webhooks ≡ none → find row_key id (s.webhooks ++ row ∷ []) ≡ some row
    appended h =
        let e = find-append row_key id s.webhooks row in
        let same = text_refl id in ground (arith, e, h, same)

    found :
        (x : Option WebhookRow)
        → find_webhook id s.webhooks ≡ x
        → Reserved id d (elim x as (λ _. Result Reservation × Service) [
          | some r ↦ reserve_known t r s (retakes p d t r)
          | none ↦ (ok (reserved none), record s { webhooks = s.webhooks ++ row ∷ [] })
        ])
    found (some r) h = reserve_known-Reserved id d t r s h _ (retakes-digest p d t r)
    found none h = record {
      digest =
          λ x q dup. record { row = row; found = unfold find_webhook in appended h; digest = refl };
    }

retakes_in-finished :
    (p : Platform) (t u : String) (x : WebhookStatus)
    → is_finished x ≡ true
    → retakes_in p t u x ≡ ok false
unfolding retakes_in
retakes_in-finished p t u processing h = absurd (cc (h))
retakes_in-finished p t u retryable h = absurd (cc (h))
retakes_in-finished p t u processed h = refl
retakes_in-finished p t u ignored h = refl
retakes_in-finished p t u rejected h = refl

retakes-finished :
    (p : Platform) (d t : String) (row : WebhookRow)
    → row.payload_digest ≡ d
    → is_finished row.status ≡ true
    → retakes p d t row ≡ ok false
unfolding retakes chains
retakes-finished p d t row e h =
    let same : (row.payload_digest == d) ≡ true = (eq_iff row.payload_digest d).1 e in
    rw same (retakes_in-finished p t row.updated_at row.status h)

-- The reservation of a finished event with the same payload is a duplicate.
reserve_webhook-duplicate :
    (p : Platform) (id d type object_id t : String) (x : WebhookStatus) (s : Service)
    (f : IsFinished id d x s)
    → is_finished x ≡ true
    → reserve_webhook p id d type object_id t s
      ≡ (ok (record { duplicate = true; status = x; order_id = f.row.order_id }), s)
unfolding reserve_webhook
reserve_webhook-duplicate p id d type object_id t x s f h =
    let done : is_finished f.row.status ≡ true =
      subst (λ y. is_finished y ≡ true) (sym f.status) h in
    rw (f.found, reserve_webhook)
      (rw (retakes-finished p d t f.row f.digest done) (rw f.status refl))

process_webhook-again :
    (a : Adapter) (body header : String) (n : Notice) (x : WebhookStatus) (t : Service)
    (f : IsFinished n.event_id (a.platform.sha256 body) x t)
    → read_event a (a.clock t.steps) body header ≡ ok n
    → is_finished x ≡ true
    → process_webhook a body header t
      ≡ (ok (told n true x f.row.order_id none), stepped (stepped t))
unfolding process_webhook lift now utc_now ◌>>=◌ process_reserved
process_webhook-again a body header n x t f e h =
    let u = stepped (stepped t) in
    let g : IsFinished n.event_id (a.platform.sha256 body) x u = record {
      row = f.row;
      found = f.found;
      digest = f.digest;
      status = f.status;
    } in
    rw e (
      rw
        (reserve_webhook-duplicate a.platform n.event_id (a.platform.sha256 body) n.event_type
          n.object_id (a.platform.isoformat (a.clock (t.steps + 1))) x u g h)
        refl)

-- Where the signature is judged alike at two times, the event is read alike.
read_event-later :
    (a : Adapter) (t u : ℕ) (body header : String)
    → a.construct_event u body header a.webhook_secret
      ≡ a.construct_event t body header a.webhook_secret
    → read_event a u body header ≡ read_event a t body header
unfolding read_event
read_event-later a t u body header e = rw e refl

duplicate-told :
    (a : Adapter) (n : Notice) (t : String) (x : Reservation) (r : Processed) (u v : Service)
    → x.duplicate ≡ true
    → process_reserved a n t x u ≡ (ok r, v)
    → r.duplicate ≡ true
unfolding process_reserved lift
duplicate-told a n t x r u v d e =
    let same : process_reserved a n t x u ≡ (ok (told n true x.status x.order_id none), u) =
      rw d refl in
    let q : ok (told n true x.status x.order_id none) ≡ ok r = ap (λ z. z.0) (sym same ∙ e) in
    cc (q)

reserved-IsFinished :
    (a : Adapter) (n : Notice) (d t : String) (r : Processed) (s v : Service)
    → (reserve_webhook a.platform n.event_id d n.event_type n.object_id t
          >>= process_reserved a n t)
        s
      ≡ (ok r, v)
    → r.duplicate ≡ false
    → (is_finished r.status ≡ true) × (r.event_id ≡ n.event_id) × IsFinished n.event_id d r.status v
reserved-IsFinished a n d t r s v e first =
    let booking = reserve_webhook a.platform n.event_id d n.event_type n.object_id t in
    let (x, u, booked, h) = bind-ok booking (process_reserved a n t) s v r e in
    let row =
      subst (Reserved n.event_id d) booked
        (reserve_webhook-Reserved a.platform n.event_id d n.event_type n.object_id t s) in
    elim (Bool-cases x.duplicate) [
      | inl q ↦ absurd (let again = duplicate-told a n t x r u v q h in cc (again, first))
      | inr q ↦ process_reserved-IsFinished a n d t x r u v (row.digest x refl q) q h
    ]

-- What is returned of an event that was served before.
abbrev repeated : Processed → Option String → Processed
repeated r order_id = record {
  event_id = r.event_id;
  duplicate = true;
  status = r.status;
  order_id = order_id;
  payment_status = none;
}

-- When a webhook was served without interruption and was no duplicate, and other handlers then made any transactions on the webhook table of which none completed that event, the same webhook served next is reported as a duplicate of the same event with the same status, and nothing changes but the count of steps, provided that the SDK's check of the signature, which depends on the time, answers then as it did before.
pub process_webhook-replay :
    (a : Adapter) (body header : String) (r : Processed) (s t : Service) (xs : List Transaction)
    → process_webhook a body header s ≡ (ok r, t)
    → r.duplicate ≡ false
    → All (λ x. completes r.event_id x ≡ false) xs
    → a.construct_event
        (a.clock (run_transactions a.platform xs t).steps)
        body
        header
        a.webhook_secret
      ≡ a.construct_event (a.clock s.steps) body header a.webhook_secret
    → (o : Option String) × (process_webhook a body header (run_transactions a.platform xs t)
        ≡ (ok (repeated r o), stepped (stepped (run_transactions a.platform xs t))))
unfolding process_webhook lift now utc_now ◌>>=◌
process_webhook-replay a body header r s t xs e first undisturbed fresh =
    by_event (read_event a (a.clock s.steps) body header) refl e
  where
    u : Service
    u = run_transactions a.platform xs t

    again :
        (n : Notice)
        → read_event a (a.clock s.steps) body header ≡ ok n
        → (is_finished r.status ≡ true)
          × (r.event_id ≡ n.event_id)
          × IsFinished n.event_id (a.platform.sha256 body) r.status t
        → (o : Option String) × (process_webhook a body header u
            ≡ (ok (repeated r o), stepped (stepped u)))
    again n q (done, id, f) =
        let later = read_event-later a (a.clock s.steps) (a.clock u.steps) body header fresh ∙ q in
        let left : IsFinished n.event_id (a.platform.sha256 body) r.status u = record {
          row = f.row;
          found =
              run_transactions-found a.platform xs n.event_id f.row t f.found
                (subst (λ y. is_finished y ≡ true) (sym f.status) done)
                (subst (λ i. All (λ x. completes i x ≡ false) xs) id undisturbed);
          digest = f.digest;
          status = f.status;
        } in
        (f.row.order_id, rw id (process_webhook-again a body header n r.status u left later done))

    by_event :
        (m : Result Notice)
        → read_event a (a.clock s.steps) body header ≡ m
        → next
            (λ n. utc_now a >>= λ received.
              reserve_webhook a.platform n.event_id
                (a.platform.sha256 body)
                n.event_type
                n.object_id
                received
              >>= process_reserved a n received)
            (m, stepped s)
          ≡ (ok r, t)
        → (o : Option String) × (process_webhook a body header u
            ≡ (ok (repeated r o), stepped (stepped u)))
    by_event (ok n) q h = again n q (
        reserved-IsFinished a n (a.platform.sha256 body)
          (a.platform.isoformat (a.clock (s.steps + 1))) r (stepped (stepped s)) t h first)
    by_event (err x) q h = absurd (cc (h))
