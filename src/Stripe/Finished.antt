-- ===== src/Stripe/Finished.antt =====
-- A webhook event that is reserved and served has its row finished, with the digest of its payload.
use vouchspec.Base.{
  sym, inr, inl, not, Bool-cases, ap, subst, none, arith, text_refl, false, true, Bool, is_some,
  Option, ◌∙◌, String, some, refl, ◌≡◌,
}
use vouchspec.Stripe.Service.{
  processed, Adapter, lift, ignored, ◌>>=◌, WebhookStatus, update_webhook, row_key, WebhookRow,
  find_webhook, next, Service, Method,
}
use vouchspec.Errors.{Result, err, ok}
use vouchspec.Platform.{Platform}
use vouchspec.Stripe.Frames.{Keeps, Frame}
use vouchspec.Table.{find-update, update-found}
use vouchspec.Stripe.Webhooks.{Reservation, finished, finish_known, finish_webhook}
use vouchspec.Stripe.Notices.{Notice}
use vouchspec.Stripe.Process.{
  reconcile_event, webhook_types, process_reserved, told, settle_event, ignore_event, Processed,
}
use vouchspec.Stripe.Settled.{is_finished}
use vouchspec.Base.Lists.{contains}
use vouchspec.Stripe.FramedRequests.{reconcile_event-Keeps}
use vouchspec.Commerce.Status.{PaymentStatus}

-- What a step that succeeded was made of.
pub bind-ok {ℓ κ} :
    {A : Type ℓ} {B : Type κ} (m : Method A) (f : A → Method B) (s t : Service) (x : B)
    → (m >>= f) s ≡ (ok x, t)
    → (y : A) × (u : Service) × (m s ≡ (ok y, u)) × (f y u ≡ (ok x, t))
unfolding ◌>>=◌
bind-ok {A = A} m f s t x h = parts (m s) refl h
  where
    parts :
        (r : Result A × Service)
        → m s ≡ r
        → next f r ≡ (ok x, t)
        → (y : A) × (u : Service) × (m s ≡ (ok y, u)) × (f y u ≡ (ok x, t))
    parts (ok y, u) e h = (y, u, e, h)
    parts (err e, u) q h = absurd (cc (h))

-- The event has a row with this digest of its payload.
pub record HasDigest (id d : String) (s : Service) : Type 0 where
  pub row : WebhookRow
  pub found : find_webhook id s.webhooks ≡ some row
  pub digest : row.payload_digest ≡ d

abbrev pub DigestKept : String → String → Service → Service → Type 0
DigestKept id d s t = HasDigest id d s → HasDigest id d t

DigestKept-Frame : (p : Platform) (id d : String) → Frame p (DigestKept id d)
DigestKept-Frame p id d = record {
  same = λ s h. h;
  trans = λ s t u e k h. k (e h);
  step = λ s h. record { row = h.row; found = h.found; digest = h.digest };
  command = λ c s h. record { row = h.row; found = h.found; digest = h.digest };
  recorded = λ rs s h. record { row = h.row; found = h.found; digest = h.digest };
}

pub updated-HasDigest :
    (id j d : String) (g : WebhookRow → WebhookRow) (s : Service)
    → ((r : WebhookRow) → row_key (g r) ≡ row_key r)
    → ((r : WebhookRow) → (g r).payload_digest ≡ r.payload_digest)
    → HasDigest id d s
    → HasDigest id d (update_webhook j g s)
unfolding update_webhook find_webhook
updated-HasDigest id j d g s hk hd h =
    let (r, f, e) =
      update-found row_key (λ x y. y.payload_digest ≡ x.payload_digest) j id g s.webhooks h.row hk
        (λ x. refl) (λ _. hd h.row) h.found in
    record { row = r; found = f; digest = e ∙ h.digest }

finish_webhook-DigestKept :
    (id d : String) (status : WebhookStatus) (t : String) (o : Option String)
    → Keeps (DigestKept id d) (finish_webhook id status t o)
unfolding finish_webhook
finish_webhook-DigestKept id d status t o = record {
  holds = λ s. either s (is_some (find_webhook id s.webhooks));
}
  where
    either :
        (s : Service) (b : Bool) → DigestKept id d s (finish_known id (finished status t o) s b).1
    either s true = updated-HasDigest id id d (finished status t o) s (λ r. refl) (λ r. refl)
    either s false = λ h. h

-- After an event is finished its row has the digest of the payload and the status.
pub record IsFinished (id d : String) (x : WebhookStatus) (s : Service) : Type 0 where
  pub row : WebhookRow
  pub found : find_webhook id s.webhooks ≡ some row
  pub digest : row.payload_digest ≡ d
  pub status : row.status ≡ x

finish_webhook-IsFinished :
    (id d : String) (status : WebhookStatus) (t : String) (o : Option String) (s : Service)
    → HasDigest id d s
    → IsFinished id d status (finish_webhook id status t o s).1
unfolding finish_webhook update_webhook find_webhook
finish_webhook-IsFinished id d status t o s h = rw h.found (record {
  row = finished status t o h.row;
  found =
      let e = find-update row_key id id (finished status t o) s.webhooks (λ r. refl) in
      let same = text_refl id in let f = h.found in ground (arith, e, same, f);
  digest = h.digest;
  status = refl;
})

finish_webhook-told :
    (id d t : String) (status : WebhookStatus) (o : Option String) (p r : Processed) (u v : Service)
    → HasDigest id d u
    → (finish_webhook id status t o >>= λ _. lift (ok p)) u ≡ (ok r, v)
    → (p ≡ r) × IsFinished id d status v
unfolding lift
finish_webhook-told id d t status o p r u v h e =
    let (y, w, f, g) = bind-ok (finish_webhook id status t o) (λ _. lift (ok p)) u v r e in
    let final = finish_webhook-IsFinished id d status t o u h in
    let moved : (finish_webhook id status t o u).1 ≡ v = ap (λ z. z.1) f ∙ ap (λ z. z.1) g in
    let told_ok : ok p ≡ ok r = ap (λ z. z.0) g in
    (cc (told_ok), subst (IsFinished id d status) moved final)

ignored_event :
    (a : Adapter) (n : Notice) (t : String) (x : Reservation) (u : Service)
    → x.duplicate ≡ false
    → not (contains n.event_type webhook_types) ≡ true
    → process_reserved a n t x u ≡ ignore_event n t u
unfolding process_reserved
ignored_event a n t x u d c = rw d (rw c refl)

settled_event :
    (a : Adapter) (n : Notice) (t : String) (x : Reservation) (u : Service)
    → x.duplicate ≡ false
    → not (contains n.event_type webhook_types) ≡ false
    → process_reserved a n t x u ≡ settle_event a n t u
unfolding process_reserved
settled_event a n t x u d c = rw d (rw c refl)

-- A webhook that was not a duplicate and succeeded has finished its event, as it tells.
pub process_reserved-IsFinished :
    (a : Adapter) (n : Notice) (d t : String) (x : Reservation) (r : Processed) (u v : Service)
    → HasDigest n.event_id d u
    → x.duplicate ≡ false
    → process_reserved a n t x u ≡ (ok r, v)
    → (is_finished r.status ≡ true) × (r.event_id ≡ n.event_id) × IsFinished n.event_id d r.status v
unfolding ignore_event settle_event
process_reserved-IsFinished a n d t x r u v h dup e =
    elim (Bool-cases (not (contains n.event_type webhook_types))) [
      | inl c ↦
          let (q, fin) =
            finish_webhook-told n.event_id d t ignored none _ r u v h (sym (ignored_case c) ∙ e) in
          by_told r false ignored none none q refl fin
      | inr c ↦
          let (y, w, f, g) = bind-ok (reconcile_event a n t) _ u v r (sym (settled_case c) ∙ e) in
          let kept =
            (reconcile_event-Keeps a (DigestKept-Frame a.platform n.event_id d) n t
                (λ status o. finish_webhook-DigestKept n.event_id d status t o)).holds
              u h in
          let kept' = subst (HasDigest n.event_id d) (ap (λ z. z.1) f) kept in
          let (q, fin) = finish_webhook-told n.event_id d t processed (some y.0) _ r w v kept' g in
          by_told r false processed (some y.0) (some y.1.order.order.payment_status) q refl fin
    ]
  where
    ignored_case :
        not (contains n.event_type webhook_types) ≡ true
        → process_reserved a n t x u ≡ ignore_event n t u
    ignored_case c = ignored_event a n t x u dup c

    settled_case :
        not (contains n.event_type webhook_types) ≡ false
        → process_reserved a n t x u ≡ settle_event a n t u
    settled_case c = settled_event a n t x u dup c

    by_told :
        (r : Processed) (b : Bool) (status : WebhookStatus) (o : Option String)
        (payment : Option PaymentStatus)
        → told n b status o payment ≡ r
        → is_finished status ≡ true
        → IsFinished n.event_id d status v
        → (is_finished r.status ≡ true)
          × (r.event_id ≡ n.event_id)
          × IsFinished n.event_id d r.status v
    by_told r b status o payment q done fin =
        subst
          (λ z.
            (is_finished z.status ≡ true)
            × (z.event_id ≡ n.event_id)
            × IsFinished n.event_id d z.status v)
          q (done, refl, fin)
