-- ===== src/Lifecycle/SequenceFile.antt =====
-- What `LifecycleSequenceStore` writes into its file and reads back.
use text.Mathlib.TextPositions.{compare_refl}
use vouchspec.Base.{
  leb, subst, text-eq, ◌+◌, ℕ, ◌≤◌, eqb, refl, eq_iff, arith, inr, inl, Bool-cases, ◌==◌, Option,
  none, some, if◌then◌else◌, false, true, ◌≡◌, String,
}
use vouchspec.Store.Views.{text_le}
use vouchspec.Lifecycle.Sequence.{
  nothing, root, save, load, Codec, load_document, load_entry, load_roots, digest_entry,
  record_json, load_current, roots_json, sort_roots, find_root, insert_root, Roots, RootRecord,
}
use vouchspec.Base.Lists.{length}
use vouchspec.Text.{codes}
use vouchspec.Json.{keys}
use vouchspec.Errors.{invalid_sequence_state, ok, chains}
use vouchspec.Lifecycle.Sequence.{document}
use vouchspec.Errors.Ensures.{Ensures-require, Ensures-bind, Ensures-ok, Ensures}

text_le_refl : (s : String) → text_le s s ≡ true
text_le_refl s = rw (compare_refl s, text_le) refl

text_le-differ : (k i : String) → text_le k i ≡ false → (i == k) ≡ false
text_le-differ k i h = elim (Bool-cases (i == k)) [
  | inl e ↦
      let same : text_le k k ≡ false = subst (λ j. text_le k j ≡ false) (text-eq i k e) h in
      let le = text_le_refl k in absurd (cc (same, le))
  | inr e ↦ e
]

insert_root-find_root :
    (k : String) (r : RootRecord) (rs : Roots) (j : String)
    → find_root j (insert_root k r rs) ≡ (if k == j then some r else find_root j rs)
unfolding insert_root
insert_root-find_root k r nothing j = refl
insert_root-find_root k r (root i x rs) j = elim (Bool-cases (text_le k i)) [
  | inl e ↦ rw e refl
  | inr e ↦
      let differ : (i == k) ≡ false = text_le-differ k i e in
      rw e
        (ground (arith, insert_root-find_root k r rs j, differ, eq_iff i k, eq_iff i j, eq_iff k j))
]

pub sort_roots-find_root : (rs : Roots) (j : String) → find_root j (sort_roots rs) ≡ find_root j rs
unfolding sort_roots
sort_roots-find_root nothing j = refl
sort_roots-find_root (root k r rs) j =
    rw (insert_root-find_root k r (sort_roots rs) j) (rw (sort_roots-find_root rs j) refl)

abbrev IsDigest : Option String → Type 0
IsDigest none = Unit
IsDigest (some s) = eqb (length (codes s)) 64 ≡ true

-- The records that a file may hold.
abbrev pub IsStored : Roots → Type 0
IsStored nothing = Unit
IsStored (root k r rs) = (1 ≤ r.sequence) × IsDigest r.feed_sha256 × IsStored rs

insert_root-IsStored :
    (k : String) (r : RootRecord) (rs : Roots)
    → 1 ≤ r.sequence
    → IsDigest r.feed_sha256
    → IsStored rs
    → IsStored (insert_root k r rs)
unfolding insert_root
insert_root-IsStored k r nothing l d w = (l, d, tt)
insert_root-IsStored k r (root i x rs) l d w = elim (Bool-cases (text_le k i)) [
  | inl e ↦ rw e (l, d, w)
  | inr e ↦ rw e (w.0, w.1, insert_root-IsStored k r rs l d w.2)
]

sort_roots-IsStored : (rs : Roots) → IsStored rs → IsStored (sort_roots rs)
unfolding sort_roots
sort_roots-IsStored nothing w = tt
sort_roots-IsStored (root k r rs) w =
    insert_root-IsStored k r (sort_roots rs) w.0 w.1 (sort_roots-IsStored rs w.2)

-- How many roots there are.
abbrev pub count : Roots → ℕ
count nothing = 0
count (root k r rs) = count rs + 1

count-keys : (rs : Roots) → length (keys (roots_json rs)) ≡ count rs
count-keys nothing = refl
count-keys (root k r rs) = omega (arith, count-keys rs)

insert_root-count :
    (k : String) (r : RootRecord) (rs : Roots) → count (insert_root k r rs) ≡ count rs + 1
unfolding insert_root
insert_root-count k r nothing = refl
insert_root-count k r (root i x rs) = elim (Bool-cases (text_le k i)) [
  | inl e ↦ rw e refl
  | inr e ↦ rw e (omega (arith, insert_root-count k r rs))
]

sort_roots-count : (rs : Roots) → count (sort_roots rs) ≡ count rs
unfolding sort_roots
sort_roots-count nothing = refl
sort_roots-count (root k r rs) =
    omega (arith, insert_root-count k r (sort_roots rs), sort_roots-count rs)

load_current-json :
    (n : ℕ) (d : Option String)
    → 1 ≤ n
    → IsDigest d
    → load_current (record_json (record { sequence = n; feed_sha256 = d }))
      ≡ ok (record { sequence = n; feed_sha256 = d })
unfolding load_current digest_entry chains
load_current-json n none l w = ground (arith, l)
load_current-json n (some s) l w = ground (arith, l, w)

load_roots-json : (rs : Roots) → IsStored rs → load_roots 2 (roots_json rs) ≡ ok rs
unfolding load_roots load_entry chains
load_roots-json nothing w = refl
load_roots-json (root k r rs) w =
    rw (load_current-json r.sequence r.feed_sha256 w.0 w.1) (rw (load_roots-json rs w.2) refl)

load_document-json :
    (rs : Roots) → IsStored rs → count rs ≤ 100 → load_document (document rs) ≡ ok (sort_roots rs)
unfolding load_document chains
load_document-json rs w l =
    let sorted = sort_roots rs in
    ground (
      arith,
      l,
      count-keys sorted,
      sort_roots-count rs,
      load_roots-json sorted (sort_roots-IsStored rs w),
    )

-- What is written for at most 100 roots, with positive sequences and digests of 64 characters, is read back with the same record of every root, when its text has at most 64 000 bytes and the reader of JSON reads it as the document that was written.
pub load-save :
    (c : Codec) (rs : Roots)
    → IsStored rs
    → count rs ≤ 100
    → length (codes (c.encode (document rs))) ≤ 64_000
    → c.decode (c.encode (document rs)) ≡ some (document rs)
    → (read : Roots) × (load c (save c rs) ≡ ok read)
      × ((j : String) → find_root j read ≡ find_root j rs)
unfolding load save chains
load-save c rs w l small decodes = (
  sort_roots rs,
  ground (arith, small, decodes, load_document-json rs w l),
  sort_roots-find_root rs,
)

load_current-back :
    (n : ℕ) (d : Option String) (x : RootRecord)
    → load_current (record_json (record { sequence = n; feed_sha256 = d })) ≡ ok x
    → x ≡ record { sequence = n; feed_sha256 = d }
unfolding load_current digest_entry chains
load_current-back n none x h = ground (arith, h)
load_current-back n (some s) x h = ground (arith, h)

load_roots-back : (rs : Roots) → Ensures (λ x. x ≡ rs) (load_roots 2 (roots_json rs))
unfolding load_roots load_entry
load_roots-back nothing = Ensures-ok nothing refl
load_roots-back (root k r rs) = Ensures-bind λ x h. Ensures-bind λ xs g. Ensures-ok _ (
    let same = load_current-back r.sequence r.feed_sha256 x h in
    let rest = (load_roots-back rs).result xs g in λ i. root k (same i) (rest i))

pub load_document-back :
    (rs : Roots) → Ensures (λ x. x ≡ sort_roots rs) (load_document (document rs))
unfolding load_document chains
load_document-back rs =
    Ensures-require (leb (length (keys (roots_json (sort_roots rs)))) 100) invalid_sequence_state
      (λ _. load_roots 2 (roots_json (sort_roots rs))) λ _. load_roots-back (sort_roots rs)
