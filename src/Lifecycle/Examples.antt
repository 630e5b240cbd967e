-- ===== src/Lifecycle/Examples.antt =====
-- A feed, a receipt and a state file at which the theorems on lifecycle.py are applied.
use vouchspec.Base.{◌≡◌, ◌≤◌, refl, String, some, none, [], ◌∷◌, ◌==◌, arith, if◌then◌else◌}
use vouchspec.Base.Int.{pos}
use vouchspec.Errors.{ok, chains}
use vouchspec.Json.{Json, int, text, array, object, nil, cons, end, field}
use vouchspec.Platform.{parse_timestamp, without_zulu}
use vouchspec.Store.Sample.{sample}
use vouchspec.Lifecycle.Sequence.{
  document, Codec, RootRecord, Roots, nothing, root, accept, compare_seen, load, save, find_root,
}
use vouchspec.Lifecycle.SequenceLaws.{accept_keeps}
use vouchspec.Lifecycle.SequenceFile.{load-save}
use vouchspec.Lifecycle.Feed.{
  Feed, ReceiptStatus, IssuerStatus, feed_time, validate_issuer, validate_issuers,
  validate_successor, validate_reason, validate_receipt, validate_receipts, validate_lifecycle_feed,
}
use vouchspec.Lifecycle.FeedLaws.{IsValidFeed, validated_feed-IsValidFeed}
use vouchspec.Lifecycle.Evaluate.{
  Receipt, Signatures, State, Evaluation, verify_lifecycle_envelope, envelope_keyid, listed_state,
  receipt_state, evaluate, evaluate_receipt_lifecycle,
}
use vouchspec.Lifecycle.EvaluateLaws.{IsVouched, reported_current-IsVouched}

abbrev seen : Roots
seen = root "other" (record { sequence = 7; feed_sha256 = none }) nothing

abbrev seen_after : Roots
seen_after =
    root "other" (record { sequence = 7; feed_sha256 = none })
      (root "key" (record { sequence = 3; feed_sha256 = some "a" }) nothing)

accepted : accept "key" 3 "a" seen ≡ ok (some seen_after)
unfolding accept compare_seen chains
accepted = refl

accept_keeps_example : (r : RootRecord) × (find_root "other" seen_after ≡ some r) × (7 ≤ r.sequence)
accept_keeps_example =
    accept_keeps "key" 3 "a" seen seen_after "other" (record { sequence = 7; feed_sha256 = none })
      accepted refl

abbrev pub digest : String
digest = "0123456789abcdef0123456789abcdef0123456789abcdef0123456789abcdef"

abbrev stored : Roots
stored =
    root "other" (record { sequence = 7; feed_sha256 = none })
      (root "key" (record { sequence = 3; feed_sha256 = some digest }) nothing)

-- A reader and writer of JSON that know one document.
abbrev one_document : Codec
one_document = record {
  encode = λ j. "stored";
  decode = λ s. if s == "stored" then some (document stored) else none;
}

load-save_example :
    (read : Roots) × (load one_document (save one_document stored) ≡ ok read)
    × ((j : String) → find_root j read ≡ find_root j stored)
load-save_example =
    load-save one_document stored (omega arith, tt, (omega arith, refl, tt)) (omega arith)
      (omega arith) refl

abbrev pub feed_document : Json
feed_document = object (
    field "schema_version" (text "1.0.0") (
      field "sequence" (int (pos 3)) (
        field "generated_at" (text "early") (
          field "expires_at" (text "late") (
            field "issuer_keys"
              (array (
                cons
                  (object (
                    field "keyid" (text "issuer")
                      (field "jwk" (text "jwk") (field "status" (text "active") end))))
                  nil))
              (field "receipts"
                (array (
                  cons
                    (object
                      (field "receipt_id" (text "cpr_1") (field "status" (text "current") end)))
                    nil))
                end))))))

abbrev envelope_document : Json
envelope_document =
    object (field "signatures" (array (cons (object (field "keyid" (text "issuer") end)) nil)) end)

abbrev receipt : Receipt
receipt = record {
  receipt_id = "cpr_1";
  expires_at = text "late";
  artifact_sha256 = "artifact";
  source_commit = "commit";
}

abbrev pub signatures : Signatures
signatures = record {
  thumbprint = λ j. ok "issuer";
  verify_feed = λ e k. ok "feed";
  verify_receipt = λ e k. ok receipt;
  strict_json = λ s. if s == "feed" then ok feed_document else ok envelope_document;
}

abbrev feed : Feed
feed = record {
  sequence = 3;
  generated_at = 0;
  expires_at = 1_000;
  issuer_keys = record { keyid = "issuer"; jwk = text "jwk"; status = IssuerStatus.active } ∷ [];
  receipts =
      record {
        receipt_id = "cpr_1";
        status = ReceiptStatus.current;
        superseded_by = none;
        reason = none;
      }
      ∷ [];
}

validated : validate_lifecycle_feed sample signatures.thumbprint feed_document ≡ ok feed
unfolding chains validate_lifecycle_feed validate_issuers validate_issuer validate_receipts
    validate_receipt validate_successor validate_reason feed_time parse_timestamp without_zulu
validated = refl

validated_feed-IsValidFeed_example : IsValidFeed feed
validated_feed-IsValidFeed_example =
    validated_feed-IsValidFeed sample signatures.thumbprint feed_document feed validated

abbrev evaluation : Evaluation
evaluation = record {
  lifecycle = State.current;
  feed_sequence = 3;
  decision = some (record {
    receipt_id = "cpr_1";
    artifact_sha256 = "artifact";
    source_commit = "commit";
    issuer_keyid = "issuer";
  });
}

evaluated :
    evaluate_receipt_lifecycle sample signatures "receipt" "envelope" (text "root") 10 2
    ≡ ok evaluation
unfolding chains evaluate_receipt_lifecycle verify_lifecycle_envelope envelope_keyid evaluate
    receipt_state listed_state validate_lifecycle_feed validate_issuers validate_issuer
    validate_receipts validate_receipt validate_successor validate_reason feed_time parse_timestamp
    without_zulu
evaluated = refl

reported_current-IsVouched_example :
    IsVouched sample signatures "receipt" "envelope" (text "root") 10 2
reported_current-IsVouched_example =
    reported_current-IsVouched sample signatures "receipt" "envelope" (text "root") 10 2 evaluation
      evaluated refl
