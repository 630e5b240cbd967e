-- ===== src/Paid/Publish.antt =====
-- `publish`, `latest_envelope`, `evaluate_order_receipt` and `publications` of paid_lifecycle.py.
-- The publications stand newest first. Their columns generated_at and expires_at repeat fields of the
-- feed and are left out.
use vouchspec.Base.{
  ◌++◌, ℕ, ◌+◌, ◌*◌, String, Bool, true, false, not, ◌&&◌, ◌||◌, Option, none, some, List, [], ◌∷◌,
  leb, ltb, eqb, ◌==◌, if◌then◌else◌, is_some, same_text,
}
use vouchspec.Base.Lists.{length, all, any, first, contains}
use vouchspec.Errors.{
  Result, ok, err, ◌>>=◌, ◌>>◌, require, reject, or_raise, invalid_lifecycle_feed, invalid_delivery,
  paid_lifecycle_empty, paid_lifecycle_coverage, paid_lifecycle_missing, untrusted_key,
  lifecycle_rollback, lifecycle_equivocation, integrity_error, key_error,
}
use vouchspec.Text.{codes}
use vouchspec.Json.{Json}
use vouchspec.Platform.{Platform, Moment, aware}
use vouchspec.Commerce.Quote.{minutes}
use vouchspec.Store.Tables.{Order, Db, DeliveryStatus}
use vouchspec.Store.Views.{get_order, delivered_orders}
use vouchspec.Lifecycle.Feed.{IssuerKey, ReceiptRecord, Feed}
use vouchspec.Lifecycle.Evaluate.{
  Signatures, Evaluation, Decision, verify_lifecycle_envelope, evaluate_receipt_lifecycle,
}
use vouchspec.Paid.Transitions.{
  find_status, StatusRow, validate_published, validate_issuer_transitions,
}
use vouchspec.Table.{update}

-- A row of paid_lifecycle_publications.
pub record Publication : Type 0 where
  pub sequence : ℕ
  pub root_keyid : String
  pub payload_sha256 : String
  pub feed : Feed
  pub envelope : String
  pub published_at : String

-- The tables that the class adds to the database of the commerce store.
pub record PaidDb : Type 0 where
  pub root_keyid : Option String
  pub publications : List Publication
  pub statuses : List StatusRow

-- `MAX_FEED_LIFETIME`, in microseconds.
abbrev max_feed_lifetime : ℕ
max_feed_lifetime = minutes (7 * 24 * 60)

abbrev is_filled : Option String → Bool
is_filled none = false
is_filled (some s) = not (s == "")

abbrev is_complete : Order → Bool
is_complete o =
    is_filled o.receipt_id
    && is_filled o.receipt_sha256
    && is_filled o.envelope_sha256
    && is_filled o.signing_keyid

-- `_delivered_orders`
unfoldable pub complete_orders : Db → Result (List Order)
complete_orders db = do
  require (all is_complete (delivered_orders db)) invalid_delivery
  ok (delivered_orders db)

-- The texts of a column that is not NULL.
abbrev column : (Order → Option String) → List Order → List String
column f [] = []
column f (o ∷ os) = elim (f o) [ none ↦ column f os | some s ↦ s ∷ column f os ]

abbrev issuer_ids : List IssuerKey → List String
issuer_ids [] = []
issuer_ids (k ∷ ks) = k.keyid ∷ issuer_ids ks

abbrev receipt_ids : List ReceiptRecord → List String
receipt_ids [] = []
receipt_ids (r ∷ rs) = r.receipt_id ∷ receipt_ids rs

-- Equality of two lists as sets.
abbrev same_set : List String → List String → Bool
same_set xs ys = all (λ x. contains x ys) xs && all (λ y. contains y xs) ys

-- `_validate_issuer_coverage`
unfoldable pub validate_issuer_coverage : Feed → List Order → Result (Unit {0})
validate_issuer_coverage feed orders =
    require (same_set (issuer_ids feed.issuer_keys) (column (λ o. o.signing_keyid) orders))
      paid_lifecycle_coverage

-- `by_receipt[receipt_id]`; receipts are unique among orders.
abbrev pub order_of_receipt : String → List Order → Option Order
order_of_receipt id = first (λ o. same_text o.receipt_id (some id))

-- What `_publication_view` adds to a publication: each record with its order.
unfoldable pub viewed_receipts :
    List ReceiptRecord → List Order → Result (List (ReceiptRecord × String))
viewed_receipts [] orders = ok []
viewed_receipts (r ∷ rs) orders = do
  o ← or_raise (order_of_receipt r.receipt_id orders) key_error
  rest ← viewed_receipts rs orders
  ok ((r, o.order_id) ∷ rest)

pub record PublicationView : Type 0 where
  pub publication : Publication
  pub receipts : List (ReceiptRecord × String)

abbrev pub find_publication : ℕ → List Publication → Option Publication
find_publication n = first (λ (x : Publication). eqb x.sequence n)

-- `_publication_view`
unfoldable pub publication_view : ℕ → List Order → PaidDb → Result PublicationView
publication_view n orders d = do
  x ← or_raise (find_publication n d.publications) paid_lifecycle_missing
  receipts ← viewed_receipts x.feed.receipts orders
  ok (record { publication = x; receipts = receipts })

-- `record.get("reason")`
abbrev pub reason_column : Option (Option String) → Option String
reason_column none = none
reason_column (some r) = r

abbrev pub new_row : ReceiptRecord → String → ℕ → String → StatusRow
new_row r order_id sequence t = record {
  receipt_id = r.receipt_id;
  order_id = order_id;
  status = r.status;
  superseded_by = r.superseded_by;
  reason = reason_column r.reason;
  sequence = sequence;
  updated_at = t;
}

-- The SET clause of the upsert.
abbrev pub changed_row : ReceiptRecord → ℕ → String → StatusRow → StatusRow
changed_row r sequence t row = record row {
  status = r.status;
  superseded_by = r.superseded_by;
  reason = reason_column r.reason;
  sequence = sequence;
  updated_at = t;
}

unfoldable pub insert_row :
    ReceiptRecord → String → ℕ → String → List StatusRow → Result (List StatusRow)
insert_row r order_id sequence t rows = do
  reject (any (λ (x : StatusRow). x.order_id == order_id) rows) integrity_error
  ok (rows ++ new_row r order_id sequence t ∷ [])

-- The upsert: DO UPDATE on the row of the receipt, or a new row, with UNIQUE(order_id).
unfoldable pub upsert :
    ReceiptRecord → String → ℕ → String → List StatusRow → Result (List StatusRow)
upsert r order_id sequence t rows = elim (find_status r.receipt_id rows) [
  | none ↦ insert_row r order_id sequence t rows
  | some row ↦
      ok (update (λ (x : StatusRow). x.receipt_id) r.receipt_id (changed_row r sequence t) rows)
]

-- The loop that writes the status of each receipt.
unfoldable pub upsert_all :
    List ReceiptRecord → List Order → ℕ → String → List StatusRow → Result (List StatusRow)
upsert_all [] orders sequence t rows = ok rows
upsert_all (r ∷ rs) orders sequence t rows = do
  o ← or_raise (order_of_receipt r.receipt_id orders) key_error
  after ← upsert r o.order_id sequence t rows
  upsert_all rs orders sequence t after

abbrev pub latest : List Publication → Option Publication
latest [] = none
latest (x ∷ xs) = some x

abbrev pub prior_feed : Option Publication → Option Feed
prior_feed none = none
prior_feed (some x) = some x.feed

-- A publication that follows the latest one: its transitions are checked, and it is stored.
unfoldable pub import_publication : Publication → List Order → PaidDb → Result PaidDb
import_publication x orders d = do
  validate_issuer_transitions x.feed (prior_feed (latest d.publications))
  validate_published x.feed.receipts d.statuses (column (λ o. o.receipt_id) orders)
  reject (any (λ (y : Publication). y.payload_sha256 == x.payload_sha256) d.publications)
      integrity_error
  rows ← upsert_all x.feed.receipts orders x.sequence x.published_at d.statuses
  ok (record { root_keyid = some x.root_keyid; publications = x ∷ d.publications; statuses = rows })

abbrev bound_elsewhere : Option String → String → Bool
bound_elsewhere none keyid = false
bound_elsewhere (some k) keyid = not (k == keyid)

-- Against the latest publication: a rollback, an equivocation, a replay, a gap or the next one.
unfoldable pub follow_publication :
    Option Publication → Publication → List Order → PaidDb → Result PaidDb
follow_publication none x orders d = do
  require (eqb x.sequence 1) lifecycle_rollback
  import_publication x orders d
follow_publication (some y) x orders d = do
  reject (ltb x.sequence y.sequence) lifecycle_rollback
  if eqb x.sequence y.sequence
      then (do require (x.payload_sha256 == y.payload_sha256) lifecycle_equivocation; ok d)
      else (do
        require (eqb x.sequence (y.sequence + 1)) lifecycle_rollback
        import_publication x orders d)

-- The transaction of `publish`.
unfoldable pub commit_publication : Publication → List Order → PaidDb → Result PaidDb
commit_publication x orders d = do
  reject (bound_elsewhere d.root_keyid x.root_keyid) untrusted_key
  follow_publication (latest d.publications) x orders d

unfoldable pub publish :
    Platform → Signatures → String → Json → Moment → Db → PaidDb → Result (PublicationView × PaidDb)
publish p s envelope root_jwk published_at db d = do
  require (leb 1 (length (codes envelope)) && leb (length (codes envelope)) 1_100_000)
      invalid_lifecycle_feed
  (feed, payload) ← verify_lifecycle_envelope p s envelope root_jwk
  root_keyid ← s.thumbprint (some root_jwk)
  observed ← aware invalid_lifecycle_feed published_at
  reject
      (ltb (observed + minutes 5) feed.generated_at
        || leb feed.expires_at observed
        || ltb (feed.generated_at + max_feed_lifetime) feed.expires_at)
      invalid_lifecycle_feed
  orders ← complete_orders db
  require (leb 1 (length orders)) paid_lifecycle_empty
  validate_issuer_coverage feed orders
  require (same_set (receipt_ids feed.receipts) (column (λ o. o.receipt_id) orders))
      paid_lifecycle_coverage
  after ←
      commit_publication
        (record {
          sequence = feed.sequence;
          root_keyid = root_keyid;
          payload_sha256 = p.sha256 payload;
          feed = feed;
          envelope = envelope;
          published_at = p.isoformat observed;
        })
        orders d
  view ← publication_view feed.sequence db.orders after
  ok (view, after)

-- `latest_envelope`
unfoldable pub latest_envelope : PaidDb → Result String
latest_envelope d = elim (latest d.publications) [
  | none ↦ err paid_lifecycle_missing
  | some x ↦ ok x.envelope
]

abbrev is_delivered : DeliveryStatus → Bool
is_delivered DeliveryStatus.delivered = true
is_delivered _ = false

abbrev decided_receipt : Option Decision → Option String
decided_receipt none = none
decided_receipt (some x) = some x.receipt_id

-- `evaluate_order_receipt`
unfoldable pub evaluate_order_receipt :
    Platform → Signatures → String → String → Json → Moment → Db → PaidDb → Result Evaluation
evaluate_order_receipt p s order_id receipt_envelope root_jwk now db d = do
  moment ← aware invalid_lifecycle_feed now
  v ← get_order order_id db
  require (is_delivered v.order.delivery_status && is_some v.order.envelope_sha256) invalid_delivery
  require (same_text (some (p.sha256 receipt_envelope)) v.order.envelope_sha256) invalid_delivery
  envelope ← latest_envelope d
  result ← evaluate_receipt_lifecycle p s receipt_envelope envelope root_jwk moment 0
  require (same_text (decided_receipt result.decision) v.order.receipt_id) invalid_delivery
  ok result

-- `publications`, oldest first.
unfoldable pub publications : List Publication → List Order → PaidDb → Result (List PublicationView)
publications [] orders d = ok []
publications (x ∷ xs) orders d = do
  older ← publications xs orders d
  v ← publication_view x.sequence orders d
  ok (snoc older v)
  where
    snoc : List PublicationView → PublicationView → List PublicationView
    snoc [] v = v ∷ []
    snoc (w ∷ ws) v = w ∷ snoc ws v
