-- ===== src/Lifecycle/SequenceRecord.antt =====
-- What a feed meets at the file of last-seen sequences after another was recorded there.
use vouchspec.Lifecycle.Sequence.{
  record_sequence, StateFile, set_root, find_root, accept, compare_seen, positive, load_document,
  sort_roots, save, load, RootRecord, Roots, Codec,
}
use vouchspec.Json.{int, Json}
use vouchspec.Lifecycle.Sequence.{document}
use vouchspec.Base.{
  leb, ◌∙◌, if◌then◌else◌, false, true, Bool, refl, eq_iff, arith, sym, subst, ◌==◌, ◌<◌, ◌≤◌, ℕ,
  String, Option, none, some, ◌≡◌,
}
use vouchspec.Errors.Ensures.{Ensures-or_raise, Ensures-require, Ensures-bind, Ensures-ok, Ensures}
use vouchspec.Lifecycle.SequenceFile.{sort_roots-find_root, load_document-back}
use vouchspec.Base.Int.{pos}
use vouchspec.Errors.{
  ◌>>=◌, lifecycle_equivocation, lifecycle_rollback, Error, Result, err, ok, chains,
}
use vouchspec.Lifecycle.SequenceLaws.{
  compare_seen-same, compare_seen-other, compare_seen-lower, find_root-after, entry,
}
use vouchspec.Text.{is_sha256}

-- What the reader of JSON reads of a document that was written, if it reads anything, is that document.
pub record IsFaithful (c : Codec) : Type 0 where
  pub reads : (rs : Roots) (j : Json) → c.decode (c.encode (document rs)) ≡ some j → j ≡ document rs

load-saved :
    (c : Codec)
    → IsFaithful c
    → (rs : Roots) → Ensures (λ x. x ≡ sort_roots rs) (load c (save c rs))
unfolding load save
load-saved c f rs = Ensures-require _ _ _ λ _. Ensures-or_raise _ _ _ λ j q.
    subst (λ v. Ensures (λ x. x ≡ sort_roots rs) (load_document v)) (sym (f.reads rs j q))
      (load_document-back rs)

positive-int : (n m : ℕ) → positive (some (int (pos n))) ≡ some m → (m ≡ n) × (1 ≤ n)
positive-int n m h = ground (arith, h)

compare_seen-known :
    (n : ℕ) (d : String) (m : ℕ) (e : Option String)
    → compare_seen n d (some (record { sequence = m; feed_sha256 = e })) ≡ ok false
    → (m ≡ n) × (e ≡ some d)
unfolding compare_seen chains
compare_seen-known n d m none h = ground (arith, h)
compare_seen-known n d m (some e) h = ground (arith, h, eq_iff e d)

accept-known :
    (k : String) (n : ℕ) (d : String) (rs : Roots)
    → accept k n d rs ≡ ok none
    → find_root k rs ≡ some (entry n d)
unfolding accept chains
accept-known k n d rs h = by_seen (find_root k rs) refl (compare_seen n d (find_root k rs)) refl h
  where
    by_seen :
        (x : Option RootRecord)
        → find_root k rs ≡ x
        → (m : Result Bool) → compare_seen n d (find_root k rs) ≡ m
        → (m >>= λ write. ok (if write then some (set_root k (entry n d) rs) else none)) ≡ ok none
        → find_root k rs ≡ some (entry n d)
    by_seen x f (err e) q g = cc
    by_seen x f (ok true) q g = cc
    by_seen none f (ok false) q g =
        let new : compare_seen n d none ≡ ok true = unfold compare_seen in refl in
        absurd (cc (f, q, new))
    by_seen (some r) f (ok false) q g =
        let (m, e) =
          compare_seen-known n d r.sequence r.feed_sha256
            (subst (λ o. compare_seen n d o ≡ ok false) f q) in
        f ∙ λ i. some (record { sequence = m i; feed_sha256 = e i })

-- What is known of a file in which a feed was recorded, when it is read.
record Recorded (c : Codec) (k : String) (n : ℕ) (d : String) (file : StateFile) : Type 0 where
  pub positive : 1 ≤ n
  pub digest : is_sha256 d ≡ true
  pub found : (rs : Roots) → load c file ≡ ok rs → find_root k rs ≡ some (entry n d)

record_sequence-Recorded :
    (c : Codec)
    → IsFaithful c
    → (k : String) (n : ℕ) (d : String) (file : StateFile)
    → Ensures (Recorded c k n d) (record_sequence c k (int (pos n)) d file)
unfolding record_sequence
record_sequence-Recorded c f k n d file = Ensures-or_raise _ _ _ λ m h. Ensures-require _ _ _ λ sha.
    Ensures-bind λ roots q. Ensures-bind λ written g.
      by_written (positive-int n m h).1 sha roots q written
        (subst (λ x. accept k x d roots ≡ ok written) (positive-int n m h).0 g)
  where
    by_written :
        1 ≤ n
        → is_sha256 d ≡ true
        → (roots : Roots) → load c file ≡ ok roots
        → (written : Option Roots) → accept k n d roots ≡ ok written
        → Ensures (Recorded c k n d) (elim written as (λ _. Result StateFile) [
          | none ↦ ok file
          | some after ↦ ok (save c after)
        ])
    by_written l sha roots q none g = Ensures-ok file (record {
      positive = l;
      digest = sha;
      found = λ rs r.
          let same : roots ≡ rs = cc (q, r) in
          subst (λ x. find_root k x ≡ some (entry n d)) same (accept-known k n d roots g);
    })
    by_written l sha roots q (some after) g = Ensures-ok (save c after) (record {
      positive = l;
      digest = sha;
      found = λ rs r.
          let same = (load-saved c f after).result rs r in
          subst (λ x. find_root k x ≡ some (entry n d)) (sym same)
            (sort_roots-find_root after k ∙ find_root-after k n d roots after g);
    })

-- A recording at a file that is read, by what the comparison says.
module _ (c : Codec) (k : String) (m : ℕ) (e : String) (file : StateFile) (rs : Roots) (l : 1 ≤ m)
    (sha : is_sha256 e ≡ true) (readable : load c file ≡ ok rs) where
  record_sequence-refused :
      (x : Error)
      → compare_seen m e (find_root k rs) ≡ err x
      → record_sequence c k (int (pos m)) e file ≡ err x
  unfolding record_sequence accept chains
  record_sequence-refused x h =
      let l' : leb 1 m ≡ true = ground (arith, l) in rw l' (rw sha (rw readable (rw h refl)))

  record_sequence-known :
      compare_seen m e (find_root k rs) ≡ ok false
      → record_sequence c k (int (pos m)) e file ≡ ok file
  unfolding record_sequence accept chains
  record_sequence-known h =
      let l' : leb 1 m ≡ true = ground (arith, l) in rw l' (rw sha (rw readable (rw h refl)))

-- Once a feed is recorded, and while the file that results can be read, recording a feed of the same root with a lower sequence fails as a rollback, recording another feed with the same sequence fails as an equivocation, and recording the same feed leaves the file as it is, for every reader of JSON that reads of a written document nothing but that document.
pub record_sequence_guards :
    (c : Codec)
    → IsFaithful c
    → (k : String) (n : ℕ) (d : String) (file after : StateFile) (rs : Roots)
    → record_sequence c k (int (pos n)) d file ≡ ok after
    → load c after ≡ ok rs
    → ((m : ℕ) (e : String)
        → 1 ≤ m
        → is_sha256 e ≡ true
        → m < n
        → record_sequence c k (int (pos m)) e after ≡ err lifecycle_rollback)
      × ((e : String)
          → is_sha256 e ≡ true
          → (d == e) ≡ false
          → record_sequence c k (int (pos n)) e after ≡ err lifecycle_equivocation)
      × (record_sequence c k (int (pos n)) d after ≡ ok after)
record_sequence_guards c f k n d file after rs h readable =
    let r = (record_sequence-Recorded c f k n d file).result after h in
    let seen = r.found rs readable in
    (
      λ m e l sha low.
          record_sequence-refused c k m e after rs l sha readable lifecycle_rollback
            (rw seen (compare_seen-lower m n e d low)),
      λ e sha other.
          record_sequence-refused c k n e after rs r.positive sha readable lifecycle_equivocation
            (rw seen (compare_seen-other n e d other)),
      record_sequence-known c k n d after rs r.positive r.digest readable
          (rw seen (compare_seen-same n d)),
    )
