-- ===== src/Paid/Invalidation.antt =====
-- How `publish` of paid_lifecycle.py treats a receipt that has left the current state.
use vouchspec.Base.{
  and-true, ℕ, ◌≡◌, refl, String, Bool, true, false, not, ◌&&◌, Option, none, some, List, [], ◌∷◌,
  arith, sym, subst, Bool-cases, inl, inr, ◌==◌, eqb, text-eq, if◌then◌else◌, same_text,
}
use vouchspec.Base.Lists.{All}
use vouchspec.Errors.{ok}
use vouchspec.Errors.Ensures.{
  Ensures, Ensures-ok, Ensures-bind, Ensures-require, Ensures-reject, Ensures-if, Ensures-weaken,
}
use vouchspec.Store.Tables.{Order}
use vouchspec.Lifecycle.Feed.{
  ReceiptRecord, ReceiptStatus, current, superseded, revoked_evaluator_defect,
  revoked_key_compromise,
}
use vouchspec.Paid.Transitions.{
  StatusRow, find_status, is_current, same_status, same_record, same_reason, record_from_row,
  present, validate_change, validate_transition, validate_published,
}
use vouchspec.Paid.Publish.{
  Publication, PaidDb, latest, reason_column, changed_row, new_row, insert_row, upsert, upsert_all,
  import_publication, follow_publication, commit_publication,
}
use vouchspec.Table.{find, update, find-update, find-append}

-- The fields that an invalidation fixes.
pub record SameState (a b : StatusRow) : Type 0 where
  pub status : b.status ≡ a.status
  pub superseded_by : b.superseded_by ≡ a.superseded_by
  pub reason : b.reason ≡ a.reason

pub SameState-refl : (a : StatusRow) → SameState a a
SameState-refl a = record { status = refl; superseded_by = refl; reason = refl }

same_status-eq : (s t : ReceiptStatus) → same_status s t ≡ true → t ≡ s
same_status-eq current current h = refl
same_status-eq superseded superseded h = refl
same_status-eq revoked_evaluator_defect revoked_evaluator_defect h = refl
same_status-eq revoked_key_compromise revoked_key_compromise h = refl
same_status-eq _ _ h = ground (arith, h)

same_text-eq : (a b : Option String) → same_text a b ≡ true → b ≡ a
same_text-eq none none h = refl
same_text-eq (some a) (some b) h = rw (text-eq a b h) refl
same_text-eq none (some b) h = cc
same_text-eq (some a) none h = cc

same_reason-column :
    (a : Option String) (b : Option (Option String))
    → same_reason (present a) b ≡ true
    → reason_column b ≡ a
same_reason-column none none h = refl
same_reason-column (some a) (some b) h = same_text-eq (some a) b h
same_reason-column none (some b) h = cc
same_reason-column (some a) none h = cc

-- A record that agrees with a decided row leaves its state as it is.
abbrev Agrees : StatusRow → ReceiptRecord → Type 0
Agrees row q =
    q.receipt_id ≡ row.receipt_id
    → (q.status ≡ row.status)
      × (q.superseded_by ≡ row.superseded_by)
      × (reason_column q.reason ≡ row.reason)

same_record-Agrees :
    (row : StatusRow) (q : ReceiptRecord)
    → same_record (record_from_row row) q ≡ true
    → Agrees row q
same_record-Agrees row q h =
    let (ab, c) = and-true _ _ h in
    let (a, b) = and-true _ _ ab in
    λ _. (
      same_status-eq row.status q.status (and-true _ _ a).1,
      same_text-eq row.superseded_by q.superseded_by b,
      same_reason-column row.reason q.reason c,
    )

validate_transition-Agrees :
    (row : StatusRow) (q : ReceiptRecord) (ids : List String)
    → is_current row.status ≡ false
    → Ensures (λ _. Agrees row q) (validate_transition (some row) q ids)
unfolding validate_transition validate_change
validate_transition-Agrees row q ids h = Ensures-reject _ _ _ λ _. Ensures-reject _ _ _ λ _.
    Ensures-reject _ _ _ λ _.
      Ensures-reject (not (is_current row.status) && not (same_record (record_from_row row) q)) _ _
        λ g. record {
          result = λ _ _. same_record-Agrees row q (agreed (is_current row.status) _ h g);
        }
  where
    agreed : (a b : Bool) → a ≡ false → (not a && not b) ≡ false → b ≡ true
    agreed a b e g = ground (arith, e, g)

validate_published-Agrees :
    (row : StatusRow) (qs : List ReceiptRecord) (rows : List StatusRow) (ids : List String)
    → is_current row.status ≡ false
    → find_status row.receipt_id rows ≡ some row
    → Ensures (λ _. All (Agrees row) qs) (validate_published qs rows ids)
unfolding validate_published
validate_published-Agrees row [] rows ids h f = Ensures-ok _ tt
validate_published-Agrees row (q ∷ qs) rows ids h f = Ensures-bind λ u k.
    Ensures-weaken _ (validate_published-Agrees row qs rows ids h f) λ _ rest. (
      λ e.
          (validate_transition-Agrees row q ids h).result u
            (subst (λ o. validate_transition o q ids ≡ ok u)
              (subst (λ i. find_status i rows ≡ some row) (sym e) f) k)
            e,
      rest,
    )

-- The table still has the receipt, in the state of the row.
abbrev pub Stays : StatusRow → List StatusRow → Type 0
Stays row rows = (x : StatusRow) × (find_status row.receipt_id rows ≡ some x) × SameState row x

abbrev pub receipt_key : StatusRow → String
receipt_key r = r.receipt_id

upsert-Stays :
    (row : StatusRow) (q : ReceiptRecord) (id : String) (n : ℕ) (t : String) (rows : List StatusRow)
    → Agrees row q
    → Stays row rows
    → Ensures (Stays row) (upsert q id n t rows)
unfolding upsert insert_row find_status
upsert-Stays row q id n t rows a (x, f, same) = go (find receipt_key q.receipt_id rows)
  where
    changed : List StatusRow
    changed = update receipt_key q.receipt_id (changed_row q n t) rows

    found :
        find receipt_key row.receipt_id changed
        ≡ (if q.receipt_id == row.receipt_id then some (changed_row q n t x) else some x)
    found =
        rw
          (find-update receipt_key q.receipt_id row.receipt_id (changed_row q n t) rows (λ r. refl))
          (rw f refl)

    updated : Stays row changed
    updated = elim (Bool-cases (q.receipt_id == row.receipt_id)) [
      | inl e ↦ (
        changed_row q n t x,
        ground (arith, found, e),
        (let (st, su, re) = a (text-eq q.receipt_id row.receipt_id e) in
            record { status = st; superseded_by = su; reason = re }),
      )
      | inr e ↦ (x, ground (arith, found, e), same)
    ]

    go :
        (o : Option StatusRow)
        → Ensures (Stays row) (elim o [ none ↦ insert_row q id n t rows | some r ↦ ok changed ])
    go none = Ensures-reject _ _ _ λ _.
        Ensures-ok _ (
          x,
          (rw (find-append receipt_key row.receipt_id rows (new_row q id n t)) (rw f refl)),
          same,
        )
    go (some r) = Ensures-ok _ updated

upsert_all-Stays :
    (row : StatusRow) (qs : List ReceiptRecord) (os : List Order) (n : ℕ) (t : String)
    (rows : List StatusRow)
    → All (Agrees row) qs
    → Stays row rows
    → Ensures (Stays row) (upsert_all qs os n t rows)
unfolding upsert_all
upsert_all-Stays row [] os n t rows a s = Ensures-ok _ s
upsert_all-Stays row (q ∷ qs) os n t rows a s = Ensures-bind λ o _. Ensures-bind λ mid h.
    upsert_all-Stays row qs os n t mid a.1
      ((upsert-Stays row q o.order_id n t rows a.0 s).result mid h)

import-Stays :
    (row : StatusRow) (x : Publication) (os : List Order) (d : PaidDb)
    → is_current row.status ≡ false
    → find_status row.receipt_id d.statuses ≡ some row
    → Ensures (λ d'. Stays row d'.statuses) (import_publication x os d)
unfolding import_publication
import-Stays row x os d h f = Ensures-bind λ _ _. Ensures-bind λ u k. Ensures-reject _ _ _ λ _.
    Ensures-bind λ rows r. Ensures-ok _ (
      (upsert_all-Stays row x.feed.receipts os x.sequence x.published_at d.statuses
          ((validate_published-Agrees row x.feed.receipts d.statuses _ h f).result u k)
          (row, f, SameState-refl row)).result
        rows r)

-- Following the latest publication either changes nothing or imports the publication.
follow-both :
    {P : PaidDb → Type 0} (x : Publication) (os : List Order) (d : PaidDb) (o : Option Publication)
    → P d
    → Ensures P (import_publication x os d)
    → Ensures P (follow_publication o x os d)
unfolding follow_publication
follow-both x os d none p i = Ensures-require _ _ _ λ _. i
follow-both x os d (some y) p i = Ensures-reject _ _ _ λ _.
    Ensures-if (eqb x.sequence y.sequence) _ _ (λ _. Ensures-require _ _ _ λ _. Ensures-ok _ p)
      (λ _. Ensures-require _ _ _ λ _. i)

pub commit-Stays :
    (row : StatusRow) (x : Publication) (os : List Order) (d : PaidDb)
    → is_current row.status ≡ false
    → find_status row.receipt_id d.statuses ≡ some row
    → Ensures (λ d'. Stays row d'.statuses) (commit_publication x os d)
unfolding commit_publication
commit-Stays row x os d h f = Ensures-reject _ _ _ λ _. follow (latest d.publications)
  where
    imported : Ensures (λ d'. Stays row d'.statuses) (import_publication x os d)
    imported = import-Stays row x os d h f

    follow :
        (o : Option Publication)
        → Ensures (λ d'. Stays row d'.statuses) (follow_publication o x os d)
    follow o = follow-both x os d o (row, f, SameState-refl row) imported
