-- ===== src/Lifecycle/Feed.antt =====
-- `_time` and `validate_lifecycle_feed` of lifecycle.py. The function returns the document that it
-- was given; here its result is the document's contents, with the fields that a record may lack.
use vouchspec.Base.{
  ℕ, String, Bool, true, not, ◌&&◌, Option, none, some, List, [], ◌∷◌, leb, ltb, ◌==◌,
  if◌then◌else◌, starts_with,
}
use vouchspec.Base.Lists.{length, all, contains}
use vouchspec.Errors.{
  Result, ok, err, ◌>>=◌, ◌>>◌, require, or_raise, invalid_lifecycle_feed, type_error,
}
use vouchspec.Text.{codes}
use vouchspec.Json.{
  Json, null, text, Fields, get, keys, has_exactly, as_object, as_items, as_text, at_text,
  at_is_text, is_hashable,
}
use vouchspec.Platform.{Platform, parse_timestamp}
use vouchspec.Lifecycle.Sequence.{positive}

-- `ISSUER_STATUSES`
pub data IssuerStatus : Type 0 where
  active retired compromised : IssuerStatus

-- `RECEIPT_STATUSES`
pub data ReceiptStatus : Type 0 where
  current superseded revoked_evaluator_defect revoked_key_compromise : ReceiptStatus

pub record IssuerKey : Type 0 where
  pub keyid : String
  pub jwk : Json
  pub status : IssuerStatus

-- `reason` is absent, null or a text.
pub record ReceiptRecord : Type 0 where
  pub receipt_id : String
  pub status : ReceiptStatus
  pub superseded_by : Option String
  pub reason : Option (Option String)

pub record Feed : Type 0 where
  pub sequence : ℕ
  pub generated_at : ℕ
  pub expires_at : ℕ
  pub issuer_keys : List IssuerKey
  pub receipts : List ReceiptRecord

abbrev issuer_status_named : String → Option IssuerStatus
issuer_status_named s =
    if s == "active"
    then some active
    else if s == "retired"
    then some retired
    else if s == "compromised"
    then some compromised
    else none

abbrev receipt_status_named : String → Option ReceiptStatus
receipt_status_named s =
    if s == "current"
    then some current
    else if s == "superseded"
    then some superseded
    else if s == "revoked_evaluator_defect"
    then some revoked_evaluator_defect
    else if s == "revoked_key_compromise"
    then some revoked_key_compromise
    else none

abbrev text_of : Option Json → Option String
text_of none = none
text_of (some j) = as_text j

-- `_time`: a text of at most 64 characters.
unfoldable pub feed_time : Platform → Option Json → Result ℕ
feed_time p value = elim (text_of value) [
  | none ↦ err invalid_lifecycle_feed
  | some s ↦ (do
    require (leb (length (codes s)) 64) invalid_lifecycle_feed
    parse_timestamp p invalid_lifecycle_feed s)
]

abbrev hashable_at : String → Fields → Bool
hashable_at k fs = elim (get k fs) [ none ↦ true | some j ↦ is_hashable j ]

abbrev status_at {ℓ} : {A : Type ℓ} → (String → Option A) → Fields → Option A
status_at f fs = elim (at_text "status" fs) [ none ↦ none | some s ↦ f s ]

-- The loop body over `issuer_keys`, with the identifiers seen so far. `thumbprint` is
-- `jwk_thumbprint` of signing.py.
unfoldable pub validate_issuer :
    (Option Json → Result String) → List String → Json → Result IssuerKey
validate_issuer thumbprint seen value = do
  fs ← or_raise (as_object value) invalid_lifecycle_feed
  require (has_exactly ("keyid" ∷ "jwk" ∷ "status" ∷ []) fs) invalid_lifecycle_feed
  require (hashable_at "status" fs) type_error
  status ← or_raise (status_at issuer_status_named fs) invalid_lifecycle_feed
  keyid ← thumbprint (get "jwk" fs)
  require (at_is_text "keyid" keyid fs && not (contains keyid seen)) invalid_lifecycle_feed
  jwk ← or_raise (get "jwk" fs) invalid_lifecycle_feed
  ok (record { keyid = keyid; jwk = jwk; status = status })

unfoldable pub validate_issuers :
    (Option Json → Result String) → List String → List Json → Result (List IssuerKey)
validate_issuers thumbprint seen [] = ok []
validate_issuers thumbprint seen (value ∷ values) = do
  key ← validate_issuer thumbprint seen value
  rest ← validate_issuers thumbprint (key.keyid ∷ seen) values
  ok (key ∷ rest)

-- A successor belongs to a superseded receipt, and to no other.
unfoldable pub validate_successor : ReceiptStatus → Option Json → Result (Option String)
validate_successor superseded (some (text s)) = do
  require (starts_with s "cpr_") invalid_lifecycle_feed
  ok (some s)
validate_successor superseded _ = err invalid_lifecycle_feed
validate_successor status none = ok none
validate_successor status (some j) = err invalid_lifecycle_feed

unfoldable pub validate_reason : Option Json → Result (Option (Option String))
validate_reason none = ok none
validate_reason (some null) = ok (some none)
validate_reason (some (text s)) = do
  require (leb 1 (length (codes s)) && leb (length (codes s)) 500) invalid_lifecycle_feed
  ok (some (some s))
validate_reason (some j) = err invalid_lifecycle_feed

-- The loop body over `receipts`.
unfoldable pub validate_receipt : List String → Json → Result ReceiptRecord
validate_receipt seen value = do
  fs ← or_raise (as_object value) invalid_lifecycle_feed
  require (contains "receipt_id" (keys fs) && contains "status" (keys fs)) invalid_lifecycle_feed
  require
      (all (λ k. contains k ("receipt_id" ∷ "status" ∷ "superseded_by" ∷ "reason" ∷ [])) (keys fs))
      invalid_lifecycle_feed
  receipt_id ← or_raise (at_text "receipt_id" fs) invalid_lifecycle_feed
  require (starts_with receipt_id "cpr_" && not (contains receipt_id seen)) invalid_lifecycle_feed
  require (hashable_at "status" fs) type_error
  status ← or_raise (status_at receipt_status_named fs) invalid_lifecycle_feed
  superseded_by ← validate_successor status (get "superseded_by" fs)
  reason ← validate_reason (get "reason" fs)
  ok (record {
    receipt_id = receipt_id;
    status = status;
    superseded_by = superseded_by;
    reason = reason;
  })

unfoldable pub validate_receipts : List String → List Json → Result (List ReceiptRecord)
validate_receipts seen [] = ok []
validate_receipts seen (value ∷ values) = do
  r ← validate_receipt seen value
  rest ← validate_receipts (r.receipt_id ∷ seen) values
  ok (r ∷ rest)

abbrev list_at : String → Fields → Option (List Json)
list_at k fs = elim (get k fs) [ none ↦ none | some j ↦ as_items j ]

abbrev feed_keys : List String
feed_keys =
    "schema_version" ∷ "sequence" ∷ "generated_at" ∷ "expires_at" ∷ "issuer_keys" ∷ "receipts" ∷ []

unfoldable pub validate_lifecycle_feed :
    Platform → (Option Json → Result String) → Json → Result Feed
validate_lifecycle_feed p thumbprint value = do
  fs ← or_raise (as_object value) invalid_lifecycle_feed
  require (has_exactly feed_keys fs) invalid_lifecycle_feed
  require (at_is_text "schema_version" "1.0.0" fs) invalid_lifecycle_feed
  sequence ← or_raise (positive (get "sequence" fs)) invalid_lifecycle_feed
  generated ← feed_time p (get "generated_at" fs)
  expires ← feed_time p (get "expires_at" fs)
  require (ltb generated expires) invalid_lifecycle_feed
  issuers ← or_raise (list_at "issuer_keys" fs) invalid_lifecycle_feed
  require (leb 1 (length issuers) && leb (length issuers) 100) invalid_lifecycle_feed
  issuer_keys ← validate_issuers thumbprint [] issuers
  listed ← or_raise (list_at "receipts" fs) invalid_lifecycle_feed
  require (leb (length listed) 100_000) invalid_lifecycle_feed
  receipts ← validate_receipts [] listed
  ok (record {
    sequence = sequence;
    generated_at = generated;
    expires_at = expires;
    issuer_keys = issuer_keys;
    receipts = receipts;
  })
