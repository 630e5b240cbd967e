-- ===== src/Lifecycle/EvaluateLaws.antt =====
-- When a receipt is reported current.
use vouchspec.Base.{
  sym, subst, ℕ, ◌≤◌, ◌<◌, ◌≡◌, refl, String, Bool, true, false, Option, none, some, arith, ltb,
  leb,
}
use vouchspec.Errors.{ok}
use vouchspec.Errors.Ensures.{
  Ensures-weaken, Ensures, Ensures-ok, Ensures-bind, Ensures-or_raise, Ensures-if,
}
use vouchspec.Json.{Json}
use vouchspec.Platform.{Platform}
use vouchspec.Lifecycle.Feed.{Feed, IssuerKey, ReceiptRecord, ReceiptStatus, feed_time}
use vouchspec.Lifecycle.Evaluate.{
  Receipt, Signatures, State, Evaluation, verify_lifecycle_envelope, envelope_keyid, find_issuer,
  find_receipt, listed_state, is_compromised, receipt_state, evaluate, evaluate_receipt_lifecycle,
}

-- What the evaluation of a feed relies on when it calls a receipt current.
pub record IsCurrent (p : Platform) (now least : ℕ) (f : Feed) (k : IssuerKey) (r : Receipt)
    : Type 0 where
  pub sequence : least ≤ f.sequence
  pub generated : f.generated_at ≤ now
  pub fresh : now < f.expires_at
  pub issuer : is_compromised k.status ≡ false
  pub listed :
      (e : ReceiptRecord) × (find_receipt r.receipt_id f.receipts ≡ some e)
      × (e.status ≡ ReceiptStatus.current)
  pub unexpired : (t : ℕ) × (feed_time p (some r.expires_at) ≡ ok t) × (now < t)

abbrev is_current : State → Bool
is_current State.current = true
is_current _ = false

listed_state-current :
    (p : Platform) (now : ℕ) (r : Receipt) (s : ReceiptStatus)
    → Ensures
        (λ x.
          is_current x ≡ true
          → (s ≡ ReceiptStatus.current)
            × ((t : ℕ) × (feed_time p (some r.expires_at) ≡ ok t) × (now < t)))
        (listed_state p now r s)
unfolding listed_state
listed_state-current p now r ReceiptStatus.revoked_key_compromise = Ensures-ok _ (λ e. cc)
listed_state-current p now r ReceiptStatus.revoked_evaluator_defect = Ensures-ok _ (λ e. cc)
listed_state-current p now r ReceiptStatus.superseded =
    Ensures-bind λ t h. Ensures-ok _ (λ e. ground (arith, e))
listed_state-current p now r ReceiptStatus.current =
    Ensures-bind λ t h. Ensures-ok _ (λ e. (refl, (t, h, ground (arith, e))))

module _ (p : Platform) (now : ℕ) (f : Feed) (k : IssuerKey) (r : Receipt) where
  abbrev Listed : Type 0
  Listed =
      (e : ReceiptRecord) × (find_receipt r.receipt_id f.receipts ≡ some e)
      × (e.status ≡ ReceiptStatus.current)

  abbrev Unexpired : Type 0
  Unexpired = (t : ℕ) × (feed_time p (some r.expires_at) ≡ ok t) × (now < t)

  receipt_state-current :
      Ensures
        (λ x. is_current x ≡ true → (is_compromised k.status ≡ false) × Listed × Unexpired)
        (receipt_state p now f k r)
  unfolding receipt_state
  receipt_state-current =
      Ensures-if (is_compromised k.status) _ _ (λ _. Ensures-ok _ (λ e. cc))
        (λ sound. found sound (find_receipt r.receipt_id f.receipts) refl)
    where
      found :
          is_compromised k.status ≡ false
          → (o : Option ReceiptRecord) → find_receipt r.receipt_id f.receipts ≡ o
          → Ensures
              (λ x. is_current x ≡ true → (is_compromised k.status ≡ false) × Listed × Unexpired)
              (elim o [ none ↦ ok State.unknown | some e ↦ listed_state p now r e.status ])
      found sound none h = Ensures-ok _ (λ e. cc)
      found sound (some x) h =
          Ensures-weaken _ (listed_state-current p now r x.status)
            (λ s g e. let (st, u) = g e in (sound, (x, h, st), u))

  evaluate-current :
      (least : ℕ)
      → Ensures
          (λ x. is_current x.lifecycle ≡ true → IsCurrent p now least f k r)
          (evaluate p now least f k r)
  unfolding evaluate
  evaluate-current least =
      Ensures-if (ltb f.sequence least) _ _ (λ _. Ensures-ok _ (λ e. cc))
        λ a.
          Ensures-if (ltb now f.generated_at) _ _ (λ _. Ensures-ok _ (λ e. cc))
            λ b.
              Ensures-if (leb f.expires_at now) _ _ (λ _. Ensures-ok _ (λ e. cc))
                λ c. Ensures-bind λ state h. Ensures-ok _ λ e.
                  let (i, l, u) = receipt_state-current.result state h e in
                  record {
                    sequence = ground (arith, a);
                    generated = ground (arith, b);
                    fresh = ground (arith, c);
                    issuer = i;
                    listed = l;
                    unexpired = u;
                  }

-- The verified evidence behind a receipt that is reported current.
pub record IsVouched (p : Platform) (s : Signatures) (receipt_envelope lifecycle_envelope : String)
    (root : Json) (now least : ℕ) : Type 0 where
  pub feed : Feed
  pub payload : String
  pub keyid : String
  pub issuer : IssuerKey
  pub receipt : Receipt
  pub root_signed : verify_lifecycle_envelope p s lifecycle_envelope root ≡ ok (feed, payload)
  pub named : envelope_keyid s receipt_envelope ≡ ok keyid
  pub authorized : find_issuer keyid feed.issuer_keys ≡ some issuer
  pub issuer_signed : s.verify_receipt receipt_envelope issuer.jwk ≡ ok receipt
  pub is_current : IsCurrent p now least feed issuer receipt

-- A receipt is reported current only if the root signed the feed, the feed authorizes the key that
-- the envelope names, that key signed the receipt, the feed is not older than the last one seen,
-- not future-dated and not expired, the key is not compromised, the feed lists the receipt as
-- current, and the receipt has not expired.
pub reported_current-IsVouched :
    (p : Platform) (s : Signatures) (receipt_envelope lifecycle_envelope : String) (root : Json)
    (now least : ℕ) (x : Evaluation)
    → evaluate_receipt_lifecycle p s receipt_envelope lifecycle_envelope root now least ≡ ok x
    → x.lifecycle ≡ State.current
    → IsVouched p s receipt_envelope lifecycle_envelope root now least
unfolding evaluate_receipt_lifecycle
reported_current-IsVouched p s re le root now least x h c =
    (vouched).result x h (subst (λ y. is_current y ≡ true) (sym c) refl)
  where
    vouched :
        Ensures
          (λ y. is_current y.lifecycle ≡ true → IsVouched p s re le root now least)
          (evaluate_receipt_lifecycle p s re le root now least)
    vouched = Ensures-bind λ v hv. Ensures-bind λ keyid hk. Ensures-or_raise _ _ _ λ issuer hi.
        Ensures-bind λ receipt hr.
          Ensures-weaken _ (evaluate-current p now v.0 issuer receipt least) (λ y g e. record {
            feed = v.0;
            payload = v.1;
            keyid = keyid;
            issuer = issuer;
            receipt = receipt;
            root_signed = hv;
            named = hk;
            authorized = hi;
            issuer_signed = hr;
            is_current = g e;
          })
