-- ===== src/Lifecycle/FeedLaws.antt =====
-- What `validate_lifecycle_feed` accepts.
use vouchspec.Base.{
  and-true, ℕ, ◌≤◌, ◌<◌, ◌≡◌, String, Bool, true, false, not, ◌&&◌, Option, some, List, [], ◌∷◌,
  arith, starts_with,
}
use vouchspec.Base.Lists.{contains}
use vouchspec.Errors.{Result, ok}
use vouchspec.Errors.Ensures.{Ensures, Ensures-ok, Ensures-bind, Ensures-require, Ensures-or_raise}
use vouchspec.Json.{Json, get, at_is_text}
use vouchspec.Platform.{Platform}
use vouchspec.Lifecycle.Feed.{
  Feed, IssuerKey, ReceiptRecord, validate_issuer, validate_issuers, validate_receipt,
  validate_receipts, validate_lifecycle_feed,
}
use vouchspec.Lifecycle.Sequence.{positive}

-- No text occurs twice, and none of them is among those seen before.
abbrev IsFresh : (A : Type 0) → (A → String) → List String → List A → Type 0
IsFresh A f seen [] = Unit
IsFresh A f seen (x ∷ xs) = (contains (f x) seen ≡ false) × IsFresh A f (f x ∷ seen) xs

not-true : (b : Bool) → not b ≡ true → b ≡ false
not-true b h = ground (arith, h)

module _ (thumbprint : Option Json → Result String) where
  validate_issuer-fresh :
      (seen : List String) (j : Json)
      → Ensures
          (λ (k : IssuerKey). contains k.keyid seen ≡ false)
          (validate_issuer thumbprint seen j)
  unfolding validate_issuer
  validate_issuer-fresh seen j = Ensures-bind λ fs _. Ensures-require _ _ _ λ _.
      Ensures-require _ _ _ λ _. Ensures-bind λ status _. Ensures-bind λ keyid _.
        Ensures-require (at_is_text "keyid" keyid fs && not (contains keyid seen)) _ _
          λ h. Ensures-bind λ jwk _. Ensures-ok _ (not-true _ (and-true _ _ h).1)

  validate_issuers-IsFresh :
      (seen : List String) (js : List Json)
      → Ensures (IsFresh IssuerKey (λ k. k.keyid) seen) (validate_issuers thumbprint seen js)
  unfolding validate_issuers
  validate_issuers-IsFresh seen [] = Ensures-ok _ tt
  validate_issuers-IsFresh seen (j ∷ js) = Ensures-bind λ key h. Ensures-bind λ rest k.
      Ensures-ok _ (
        (validate_issuer-fresh seen j).result key h,
        (validate_issuers-IsFresh (key.keyid ∷ seen) js).result rest k,
      )

validate_receipt-fresh :
    (seen : List String) (j : Json)
    → Ensures
        (λ (r : ReceiptRecord).
          (contains r.receipt_id seen ≡ false) × (starts_with r.receipt_id "cpr_" ≡ true))
        (validate_receipt seen j)
unfolding validate_receipt
validate_receipt-fresh seen j = Ensures-bind λ fs _. Ensures-require _ _ _ λ _.
    Ensures-require _ _ _ λ _. Ensures-bind λ id _.
      Ensures-require (starts_with id "cpr_" && not (contains id seen)) _ _ λ h.
        Ensures-require _ _ _ λ _. Ensures-bind λ status _. Ensures-bind λ successor _.
          Ensures-bind λ reason _. Ensures-ok _ (not-true _ (and-true _ _ h).1, (and-true _ _ h).0)

validate_receipts-IsFresh :
    (seen : List String) (js : List Json)
    → Ensures (IsFresh ReceiptRecord (λ r. r.receipt_id) seen) (validate_receipts seen js)
unfolding validate_receipts
validate_receipts-IsFresh seen [] = Ensures-ok _ tt
validate_receipts-IsFresh seen (j ∷ js) = Ensures-bind λ r h. Ensures-bind λ rest k. Ensures-ok _ (
  ((validate_receipt-fresh seen j).result r h).0,
  (validate_receipts-IsFresh (r.receipt_id ∷ seen) js).result rest k,
)

-- A feed that makes sense: a positive sequence, an expiry after its generation, and issuer keys and
-- receipts with distinct identifiers.
pub record IsValidFeed (f : Feed) : Type 0 where
  pub sequence : 1 ≤ f.sequence
  pub lifetime : f.generated_at < f.expires_at
  pub issuers : IsFresh IssuerKey (λ k. k.keyid) [] f.issuer_keys
  pub receipts : IsFresh ReceiptRecord (λ r. r.receipt_id) [] f.receipts

positive-le : (j : Option Json) (n : ℕ) → positive j ≡ some n → 1 ≤ n
positive-le j n h = ground (arith, h)

validate-Ensures :
    (p : Platform) (thumbprint : Option Json → Result String) (j : Json)
    → Ensures IsValidFeed (validate_lifecycle_feed p thumbprint j)
unfolding validate_lifecycle_feed
validate-Ensures p thumbprint j = Ensures-bind λ fs _. Ensures-require _ _ _ λ _.
    Ensures-require _ _ _ λ _. Ensures-or_raise (positive (get "sequence" fs)) _ _ λ n hn.
      Ensures-bind λ generated _. Ensures-bind λ expires _. Ensures-require _ _ _ λ lt.
        Ensures-bind λ issuers _. Ensures-require _ _ _ λ _. Ensures-bind λ keys hk.
          Ensures-bind λ listed _. Ensures-require _ _ _ λ _. Ensures-bind λ receipts hr.
            Ensures-ok _ (record {
              sequence = positive-le (get "sequence" fs) n hn;
              lifetime = ground (arith, lt);
              issuers = (validate_issuers-IsFresh thumbprint [] issuers).result keys hk;
              receipts = (validate_receipts-IsFresh [] listed).result receipts hr;
            })

-- A feed that is accepted has a positive sequence, expires after it was generated, and names no
-- issuer key and no receipt twice.
pub validated_feed-IsValidFeed :
    (p : Platform) (thumbprint : Option Json → Result String) (j : Json) (f : Feed)
    → validate_lifecycle_feed p thumbprint j ≡ ok f
    → IsValidFeed f
validated_feed-IsValidFeed p thumbprint j f h = (validate-Ensures p thumbprint j).result f h
