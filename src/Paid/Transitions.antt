-- ===== src/Paid/Transitions.antt =====
-- `_validate_transition`, `_validate_published_transitions`, `_validate_issuer_transitions` and
-- `_record_from_row` of paid_lifecycle.py.
use vouchspec.Base.{
  ℕ, String, Bool, true, false, not, ◌&&◌, ◌||◌, Option, none, some, List, [], ◌∷◌, ◌==◌, is_some,
  same_text,
}
use vouchspec.Base.Lists.{all, contains}
use vouchspec.Errors.{
  Result, ok, ◌>>◌, require, reject, invalid_lifecycle_feed, lifecycle_rollback,
  lifecycle_equivocation,
}
use vouchspec.Lifecycle.Feed.{
  IssuerStatus, active, retired, compromised, ReceiptStatus, current, superseded,
  revoked_evaluator_defect, revoked_key_compromise, IssuerKey, ReceiptRecord, Feed,
}
use vouchspec.Lifecycle.Evaluate.{find_issuer}
use vouchspec.Table.{find}

-- A row of paid_lifecycle_status.
pub record StatusRow : Type 0 where
  pub receipt_id : String
  pub order_id : String
  pub status : ReceiptStatus
  pub superseded_by : Option String
  pub reason : Option String
  pub sequence : ℕ
  pub updated_at : String

abbrev pub same_status : ReceiptStatus → ReceiptStatus → Bool
same_status current current = true
same_status superseded superseded = true
same_status revoked_evaluator_defect revoked_evaluator_defect = true
same_status revoked_key_compromise revoked_key_compromise = true
same_status _ _ = false

abbrev pub is_current : ReceiptStatus → Bool
is_current s = same_status s current

-- `status.startswith("revoked_")`
abbrev is_revoked : ReceiptStatus → Bool
is_revoked s = same_status s revoked_evaluator_defect || same_status s revoked_key_compromise

abbrev pub present : Option String → Option (Option String)
present none = none
present (some s) = some (some s)

-- `_record_from_row`: a column that is NULL is a field that the record lacks.
abbrev pub record_from_row : StatusRow → ReceiptRecord
record_from_row row = record {
  receipt_id = row.receipt_id;
  status = row.status;
  superseded_by = row.superseded_by;
  reason = present row.reason;
}

abbrev pub same_reason : Option (Option String) → Option (Option String) → Bool
same_reason none none = true
same_reason (some r) (some s) = same_text r s
same_reason _ _ = false

-- Equality of two records as dictionaries.
abbrev pub same_record : ReceiptRecord → ReceiptRecord → Bool
same_record a b =
    a.receipt_id == b.receipt_id
    && same_status a.status b.status
    && same_text a.superseded_by b.superseded_by
    && same_reason a.reason b.reason

abbrev is_reason_text : Option (Option String) → Bool
is_reason_text (some (some s)) = true
is_reason_text _ = false

-- The successor is another delivered receipt.
abbrev valid_successor : ReceiptRecord → List String → Bool
valid_successor r delivered = elim r.superseded_by [
  | none ↦ false
  | some s ↦ contains s delivered && not (s == r.receipt_id)
]

-- The checks against the row that the receipt has.
unfoldable pub validate_change : Option StatusRow → ReceiptRecord → Result (Unit {0})
validate_change none r = require (is_current r.status) invalid_lifecycle_feed
validate_change (some row) r = do
  reject (not (is_current row.status) && not (same_record (record_from_row row) r))
      lifecycle_rollback
  reject (is_current row.status && is_current r.status && not (same_record (record_from_row row) r))
      lifecycle_equivocation

-- `_validate_transition`
unfoldable pub validate_transition :
    Option StatusRow → ReceiptRecord → List String → Result (Unit {0})
validate_transition prior r delivered = do
  reject (is_current r.status && (is_some r.reason || is_some r.superseded_by))
      invalid_lifecycle_feed
  reject (same_status r.status superseded && not (valid_successor r delivered))
      invalid_lifecycle_feed
  reject (is_revoked r.status && not (is_reason_text r.reason)) invalid_lifecycle_feed
  validate_change prior r

unfoldable pub find_status : String → List StatusRow → Option StatusRow
unfolding find
find_status k = find (λ (r : StatusRow). r.receipt_id) k

-- `_validate_published_transitions`
unfoldable pub validate_published :
    List ReceiptRecord → List StatusRow → List String → Result (Unit {0})
validate_published [] rows delivered = ok tt
validate_published (r ∷ rs) rows delivered = do
  validate_transition (find_status r.receipt_id rows) r delivered
  validate_published rs rows delivered

-- A compromised key stays so, and a retired one is not made active again.
abbrev pub issuer_allowed : IssuerStatus → IssuerStatus → Bool
issuer_allowed compromised compromised = true
issuer_allowed compromised _ = false
issuer_allowed retired active = false
issuer_allowed _ _ = true

abbrev pub issuer_kept : List IssuerKey → IssuerKey → Bool
issuer_kept keys k = elim (find_issuer k.keyid keys) [
  | none ↦ false
  | some c ↦ issuer_allowed k.status c.status
]

-- `_validate_issuer_transitions`; its three refusals have one code.
unfoldable pub validate_issuer_transitions : Feed → Option Feed → Result (Unit {0})
validate_issuer_transitions feed none = ok tt
validate_issuer_transitions feed (some prior) =
    require (all (issuer_kept feed.issuer_keys) prior.issuer_keys) lifecycle_rollback
