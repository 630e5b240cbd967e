-- ===== src/Lifecycle/Evaluate.antt =====
-- `evaluate_receipt_lifecycle` and `evaluate_receipt_lifecycle_with_state` of lifecycle.py. What
-- signing.py does (the DSSE signatures, the thumbprints and the strict JSON reader) is the record
-- `Signatures`.
use vouchspec.Base.{
  ℕ, String, Bool, true, false, Option, none, some, List, [], ◌∷◌, leb, ltb, ◌==◌, if◌then◌else◌,
}
use vouchspec.Base.Lists.{first}
use vouchspec.Base.Int.{pos}
use vouchspec.Errors.{Result, ok, ◌>>=◌, ◌>>◌, or_raise, untrusted_key, invalid_envelope}
use vouchspec.Json.{Json, int, get, as_object, as_items, at_text}
use vouchspec.Platform.{Platform}
use vouchspec.Lifecycle.Sequence.{Codec, StateFile, load, minimum, record_sequence}
use vouchspec.Lifecycle.Feed.{
  IssuerStatus, ReceiptStatus, IssuerKey, ReceiptRecord, Feed, feed_time, validate_lifecycle_feed,
}

-- The fields that are read of a verified receipt.
pub record Receipt : Type 0 where
  pub receipt_id : String
  pub expires_at : Json
  pub artifact_sha256 : String
  pub source_commit : String

-- The functions of signing.py over envelopes, which stand here as their texts.
pub record Signatures : Type 0 where
  -- `jwk_thumbprint`
  pub thumbprint : Option Json → Result String
  -- `verify_dsse_envelope` for a feed: the payload
  pub verify_feed : String → Json → Result String
  -- `verify_receipt_envelope`
  pub verify_receipt : String → Json → Result Receipt
  -- `_strict_json`
  pub strict_json : String → Result Json

-- `PUBLIC_LIFECYCLE_STATES`
pub data State : Type 0 where
  current superseded expired revoked_evaluator_defect revoked_key_compromise unknown : State

-- The part of the result that only a lifecycle decision has.
pub record Decision : Type 0 where
  pub receipt_id : String
  pub artifact_sha256 : String
  pub source_commit : String
  pub issuer_keyid : String

pub record Evaluation : Type 0 where
  pub lifecycle : State
  pub feed_sequence : ℕ
  pub decision : Option Decision

-- `verify_lifecycle_envelope`
unfoldable pub verify_lifecycle_envelope :
    Platform → Signatures → String → Json → Result (Feed × String)
verify_lifecycle_envelope p s envelope root_jwk = do
  payload ← s.verify_feed envelope root_jwk
  document ← s.strict_json payload
  feed ← validate_lifecycle_feed p s.thumbprint document
  ok (feed, payload)

abbrev single : List Json → Option Json
single (j ∷ []) = some j
single _ = none

-- `_envelope_keyid`
unfoldable pub envelope_keyid : Signatures → String → Result String
envelope_keyid s envelope = do
  value ← s.strict_json envelope
  fs ← or_raise (as_object value) invalid_envelope
  listed ← or_raise (get "signatures" fs) invalid_envelope
  signatures ← or_raise (as_items listed) invalid_envelope
  signature ← or_raise (single signatures) invalid_envelope
  fields ← or_raise (as_object signature) invalid_envelope
  or_raise (at_text "keyid" fields) invalid_envelope

abbrev pub find_issuer : String → List IssuerKey → Option IssuerKey
find_issuer keyid = first (λ (k : IssuerKey). k.keyid == keyid)

abbrev pub find_receipt : String → List ReceiptRecord → Option ReceiptRecord
find_receipt id = first (λ (r : ReceiptRecord). r.receipt_id == id)

-- The state of a receipt that the feed lists. The expiry is read before supersession counts.
unfoldable pub listed_state : Platform → ℕ → Receipt → ReceiptStatus → Result State
listed_state p now receipt ReceiptStatus.revoked_key_compromise = ok revoked_key_compromise
listed_state p now receipt ReceiptStatus.revoked_evaluator_defect = ok revoked_evaluator_defect
listed_state p now receipt status = do
  expires ← feed_time p (some receipt.expires_at)
  ok (
      if leb expires now
      then expired
      else elim status [ ReceiptStatus.superseded ↦ superseded | _ ↦ current ])

abbrev pub is_compromised : IssuerStatus → Bool
is_compromised IssuerStatus.compromised = true
is_compromised _ = false

unfoldable pub receipt_state : Platform → ℕ → Feed → IssuerKey → Receipt → Result State
receipt_state p now feed issuer receipt =
    if is_compromised issuer.status
    then ok revoked_key_compromise
    else elim (find_receipt receipt.receipt_id feed.receipts) [
      | none ↦ ok unknown
      | some r ↦ listed_state p now receipt r.status
    ]

-- A feed that is too old, future-dated or stale decides nothing.
abbrev pub undecided : Feed → Evaluation
undecided feed = record { lifecycle = unknown; feed_sequence = feed.sequence; decision = none }

unfoldable pub evaluate : Platform → ℕ → ℕ → Feed → IssuerKey → Receipt → Result Evaluation
evaluate p now minimum_sequence feed issuer receipt =
    if ltb feed.sequence minimum_sequence
    then ok (undecided feed)
    else if ltb now feed.generated_at
    then ok (undecided feed)
    else if leb feed.expires_at now
    then ok (undecided feed)
    else (do
      state ← receipt_state p now feed issuer receipt
      ok (record {
        lifecycle = state;
        feed_sequence = feed.sequence;
        decision = some (record {
          receipt_id = receipt.receipt_id;
          artifact_sha256 = receipt.artifact_sha256;
          source_commit = receipt.source_commit;
          issuer_keyid = issuer.keyid;
        });
      }))

unfoldable pub evaluate_receipt_lifecycle :
    Platform → Signatures → String → String → Json → ℕ → ℕ → Result Evaluation
evaluate_receipt_lifecycle p s receipt_envelope lifecycle_envelope root_jwk now minimum_sequence =
    do
      (feed, payload) ← verify_lifecycle_envelope p s lifecycle_envelope root_jwk
      keyid ← envelope_keyid s receipt_envelope
      issuer ← or_raise (find_issuer keyid feed.issuer_keys) untrusted_key
      receipt ← s.verify_receipt receipt_envelope issuer.jwk
      evaluate p now minimum_sequence feed issuer receipt

-- The evaluation against the last-seen sequence, which it then records.
unfoldable pub evaluate_receipt_lifecycle_with_state :
    Platform
    → Signatures
    → Codec
    → String
    → String
    → Json
    → ℕ
    → StateFile
    → Result (Evaluation × StateFile)
evaluate_receipt_lifecycle_with_state p s c receipt_envelope lifecycle_envelope root_jwk now file =
    do
      (feed, payload) ← verify_lifecycle_envelope p s lifecycle_envelope root_jwk
      load c file
      keyid ← s.thumbprint (some root_jwk)
      minimum_sequence ← minimum c keyid file
      result ←
          evaluate_receipt_lifecycle p s receipt_envelope lifecycle_envelope root_jwk now
            minimum_sequence
      if leb minimum_sequence result.feed_sequence
          then (do
            after ← record_sequence c keyid (int (pos feed.sequence)) (p.sha256 payload) file
            ok (result, after))
          else ok (result, file)
