-- ===== src/Paid/Examples.antt =====
-- Publications at which the theorems on paid_lifecycle.py are applied.
use vouchspec.Base.{ℕ, ◌≡◌, refl, String, some, none, List, [], ◌∷◌}
use vouchspec.Json.{text}
use vouchspec.Lifecycle.Feed.{Feed, ReceiptStatus, IssuerStatus}
use vouchspec.Store.Tables.{Order}
use vouchspec.Store.Sample.{delivered_order}
use vouchspec.Paid.Transitions.{StatusRow, find_status}
use vouchspec.Paid.Publish.{Publication, PaidDb}
use vouchspec.Paid.History.{commit_all, publications-IsChain, invalidation-Stays}
use vouchspec.Paid.Chain.{IsChain}
use vouchspec.Paid.Invalidation.{Stays}
use vouchspec.Table.{find}

abbrev feed_at : ℕ → Feed
feed_at n = record {
  sequence = n;
  generated_at = 0;
  expires_at = 1_000;
  issuer_keys = record { keyid = "issuer"; jwk = text "jwk"; status = IssuerStatus.active } ∷ [];
  receipts =
      record {
        receipt_id = "cpr_0123456789abcdef01234567";
        status = ReceiptStatus.current;
        superseded_by = none;
        reason = none;
      }
      ∷ [];
}

abbrev publication : ℕ → String → Publication
publication n digest = record {
  sequence = n;
  root_keyid = "root";
  payload_sha256 = digest;
  feed = feed_at n;
  envelope = "envelope";
  published_at = "early";
}

abbrev submitted : List (Publication × List Order)
submitted =
    (publication 1 "a", delivered_order ∷ []) ∷ (publication 2 "b", delivered_order ∷ []) ∷ []

publications-IsChain_example :
    IsChain
      (commit_all submitted
        (record { root_keyid = none; publications = []; statuses = [] })).publications
publications-IsChain_example = publications-IsChain submitted

abbrev revoked_row : StatusRow
revoked_row = record {
  receipt_id = "cpr_0123456789abcdef01234567";
  order_id = delivered_order.order_id;
  status = ReceiptStatus.revoked_evaluator_defect;
  superseded_by = none;
  reason = some "defect";
  sequence = 1;
  updated_at = "early";
}

abbrev revoked_store : PaidDb
revoked_store = record {
  root_keyid = some "root";
  publications = publication 1 "a" ∷ [];
  statuses = revoked_row ∷ [];
}

found_revoked : find_status revoked_row.receipt_id revoked_store.statuses ≡ some revoked_row
unfolding find_status find
found_revoked = refl

invalidation-Stays_example : Stays revoked_row (commit_all submitted revoked_store).statuses
invalidation-Stays_example =
    invalidation-Stays submitted revoked_store revoked_row refl found_revoked
