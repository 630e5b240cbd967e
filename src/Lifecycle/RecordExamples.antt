-- ===== src/Lifecycle/RecordExamples.antt =====
-- A file in which one feed was recorded, at which the theorem on recording is applied.
use vouchspec.Lifecycle.Sequence.{
  document, StateFile, insert_root, sort_roots, compare_seen, accept, digest_entry, load_current,
  load_entry, load_roots, load_document, load, save, record_sequence, roots_json, Codec, nothing,
  root, Roots,
}
use vouchspec.Base.{
  ap, Option, ◌<◌, ◌≤◌, arith, text-eq, and-true, refl, ◌≡◌, if◌then◌else◌, false, true, eqb, ◌&&◌,
  ◌==◌, String, ℕ, Bool, none, some,
}
use vouchspec.Lifecycle.Examples.{digest}
use vouchspec.Json.{Fields, end, int, text, field, object, Json}
use vouchspec.Base.Int.{pos}
use vouchspec.Lifecycle.SequenceRecord.{record_sequence_guards, IsFaithful}
use vouchspec.Text.{is_sha256}
use vouchspec.Errors.{lifecycle_equivocation, lifecycle_rollback, err, ok, chains}

abbrev recorded : Roots
recorded = root "key" (record { sequence = 3; feed_sha256 = some digest }) nothing

-- Whether a document holds that one record.
abbrev holds_recorded : Json → Bool
holds_recorded
      (object (
        field roots
          (object (field k (object (field f (text d) (field q (int (pos n)) end))) end))
          rest)) =
    k == "key" && d == digest && eqb n 3
holds_recorded _ = false

-- A writer of JSON that tells this document from all others, and its reader.
abbrev codec : Codec
codec = record {
  encode = λ j. if holds_recorded j then "recorded" else "";
  decode = λ s. if s == "recorded" then some (document recorded) else none;
}

abbrev written : Fields → Json
written roots = object (field "roots" (object roots) (field "schema_version" (int (pos 2)) end))

entry-eq :
    (k : String) (n : ℕ) (d : Option String) (rs : Roots)
    → holds_recorded (written (roots_json (root k (record { sequence = n; feed_sha256 = d }) rs)))
      ≡ true
    → root k (record { sequence = n; feed_sha256 = d }) rs ≡ recorded
entry-eq k n none rs h = cc
entry-eq k n (some d) (root j r rs) h = cc
entry-eq k n (some d) nothing h =
    let (texts, number) = and-true _ _ h in
    let (name, value) = and-true _ _ texts in
    let name' = text-eq k "key" name in
    let value' = text-eq d digest value in
    let number' : n ≡ 3 = ground (arith, number) in
    λ i. root (name' i) (record { sequence = number' i; feed_sha256 = some (value' i) }) nothing

recorded-eq : (rs : Roots) → holds_recorded (written (roots_json rs)) ≡ true → rs ≡ recorded
recorded-eq nothing h = cc
recorded-eq (root k r rs) h = entry-eq k r.sequence r.feed_sha256 rs h

kept : document recorded ≡ written (roots_json recorded)
unfolding sort_roots insert_root
kept = refl

codec-IsFaithful : IsFaithful codec
codec-IsFaithful = record {
  reads = λ rs j h. by_document rs j h (holds_recorded (document rs)) refl;
}
  where
    by_document :
        (rs : Roots) (j : Json)
        → codec.decode (codec.encode (document rs)) ≡ some j
        → (b : Bool) → holds_recorded (document rs) ≡ b
        → j ≡ document rs
    by_document rs j h false e =
        let unknown : codec.decode (codec.encode (document rs)) ≡ none = rw e refl in
        absurd (cc (h, unknown))
    by_document rs j h true e =
        let same : written (roots_json (sort_roots rs)) ≡ written (roots_json recorded) =
          ap (λ x. written (roots_json x)) (recorded-eq (sort_roots rs) e) in
        let known : codec.decode (codec.encode (document rs)) ≡ some (document recorded) =
          rw e refl in
        cc (h, known, same, kept)

record_sequence_guards_example :
    ((m : ℕ) (e : String)
      → 1 ≤ m
      → is_sha256 e ≡ true
      → m < 3
      → record_sequence codec "key" (int (pos m)) e (save codec recorded) ≡ err lifecycle_rollback)
    × ((e : String)
        → is_sha256 e ≡ true
        → (digest == e) ≡ false
        → record_sequence codec "key" (int (pos 3)) e (save codec recorded)
          ≡ err lifecycle_equivocation)
    × (record_sequence codec "key" (int (pos 3)) digest (save codec recorded)
        ≡ ok (save codec recorded))
unfolding record_sequence load save load_document load_roots load_entry load_current digest_entry
    accept compare_seen chains is_sha256 sort_roots insert_root
record_sequence_guards_example =
    record_sequence_guards codec codec-IsFaithful "key" 3 digest StateFile.absent
      (save codec recorded) recorded refl refl
