-- ===== src/Paid/History.antt =====
-- What a history of publications keeps: contiguous sequences, one root, issuer keys that are never
-- restored, and receipts whose invalidation is final.
use vouchspec.Base.{◌≡◌, refl, false, none, some, List, [], ◌∷◌, sym, subst, ◌∙◌}
use vouchspec.Errors.{Result, ok, err}
use vouchspec.Errors.Ensures.{Ensures, Ensures-weaken}
use vouchspec.Store.Tables.{Order}
use vouchspec.Paid.Transitions.{StatusRow, find_status, is_current}
use vouchspec.Paid.Publish.{Publication, PaidDb, commit_publication}
use vouchspec.Table.{find, find_key}
use vouchspec.Paid.Chain.{IsChain, commit-IsChain}
use vouchspec.Paid.Invalidation.{SameState, SameState-refl, Stays, receipt_key, commit-Stays}

-- The transactions of a sequence of publications; one that is refused changes nothing.
unfoldable pub commit_all : List (Publication × List Order) → PaidDb → PaidDb
commit_all [] d = d
commit_all ((x, os) ∷ rest) d =
    commit_all rest (elim (commit_publication x os d) [ ok after ↦ after | err e ↦ d ])

keeps :
    (P : PaidDb → Type 0) (m : Result PaidDb) (d : PaidDb)
    → P d
    → Ensures P m
    → P (elim m [ ok after ↦ after | err e ↦ d ])
keeps P (ok after) d p h = h.result after refl
keeps P (err e) d p h = p

-- Whatever is submitted to an empty store, the publications that it holds have the sequences from 1
-- on without a gap, and each feed keeps every issuer key of the one before, with no compromised key
-- restored and no retired key made active.
pub publications-IsChain :
    (xs : List (Publication × List Order))
    → IsChain
        (commit_all xs
          (record { root_keyid = none; publications = []; statuses = [] })).publications
unfolding commit_all
publications-IsChain xs = chain xs _ tt
  where
    chain :
        (ys : List (Publication × List Order)) (d : PaidDb)
        → IsChain d.publications
        → IsChain (commit_all ys d).publications
    chain [] d c = c
    chain ((x, os) ∷ rest) d c = chain rest _ (
        keeps (λ e. IsChain e.publications) (commit_publication x os d) d c
          (commit-IsChain x os d c))

Stays-trans :
    (row x : StatusRow) (rows : List StatusRow)
    → x.receipt_id ≡ row.receipt_id
    → SameState row x
    → Stays x rows
    → Stays row rows
Stays-trans row x rows e s (y, f, t) = (
  y,
  subst (λ i. find_status i rows ≡ some y) e f,
  record {
    status = t.status ∙ s.status;
    superseded_by = t.superseded_by ∙ s.superseded_by;
    reason = t.reason ∙ s.reason;
  },
)

step-Stays :
    (row : StatusRow) (x : Publication) (os : List Order) (d : PaidDb)
    → is_current row.status ≡ false
    → Stays row d.statuses
    → Ensures (λ d'. Stays row d'.statuses) (commit_publication x os d)
unfolding find_status
step-Stays row x os d h (y, f, s) =
    let e = find_key receipt_key row.receipt_id d.statuses y f in
    Ensures-weaken _
      (commit-Stays y x os d (subst (λ z. is_current z ≡ false) (sym s.status) h)
        (subst (λ i. find receipt_key i d.statuses ≡ some y) (sym e) f))
      (λ d' t. Stays-trans row y d'.statuses e s t)

all-Stays :
    (row : StatusRow) (xs : List (Publication × List Order)) (d : PaidDb)
    → is_current row.status ≡ false
    → Stays row d.statuses
    → Stays row (commit_all xs d).statuses
unfolding commit_all
all-Stays row [] d h s = s
all-Stays row ((x, os) ∷ xs) d h s =
    all-Stays row xs _ h (
      keeps (λ e. Stays row e.statuses) (commit_publication x os d) d s (step-Stays row x os d h s))

-- A receipt that has left the current state keeps its status, its successor and its reason, whatever
-- is submitted afterwards.
pub invalidation-Stays :
    (xs : List (Publication × List Order)) (d : PaidDb) (row : StatusRow)
    → is_current row.status ≡ false
    → find_status row.receipt_id d.statuses ≡ some row
    → Stays row (commit_all xs d).statuses
invalidation-Stays xs d row h f = all-Stays row xs d h (row, f, SameState-refl row)
