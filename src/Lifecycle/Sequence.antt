-- ===== src/Lifecycle/Sequence.antt =====
-- `LifecycleSequenceStore` of lifecycle.py: the highest sequence seen of each root key, with the
-- digest of its feed. The lock and the atomic replacement of the file make each call one step on the
-- file; the key is the thumbprint of the root's JWK. The text of JSON is written and read by
-- parameters, and `sort_keys=True` is written out.
use vouchspec.Base.{
  is_some, ℕ, String, Bool, true, false, not, ◌&&◌, ◌||◌, Option, none, some, [], ◌∷◌, leb, ltb,
  eqb, ◌==◌, if◌then◌else◌,
}
use vouchspec.Base.Lists.{length}
use vouchspec.Base.Int.{pos}
use vouchspec.Errors.{
  Result, ok, err, ◌>>=◌, ◌>>◌, require, reject, or_raise, invalid_sequence_state,
  lifecycle_rollback, lifecycle_equivocation, type_error,
}
use vouchspec.Text.{codes, is_sha256}
use vouchspec.Json.{
  Json, null, bool, int, real, text, object, Fields, end, field, get, keys, has_exactly, as_object,
}
use vouchspec.Store.Views.{text_le}

pub record RootRecord : Type 0 where
  pub sequence : ℕ
  pub feed_sha256 : Option String

-- The dictionary of roots, with the constructor that an update keeps in place.
pub data Roots : Type 0 where
  nothing : Roots
  root : String → RootRecord → Roots → Roots

-- What is taken from Python's json module.
pub record Codec : Type 0 where
  -- `json.dumps(value, separators=(",", ":")) + "\n"`, which is ASCII: one byte a character
  pub encode : Json → String
  -- `_strict_json`; `none` is its `InputRejected`
  pub decode : String → Option Json

-- The state file: missing, a link, or its bytes.
pub data StateFile : Type 0 where
  absent link : StateFile
  bytes : String → StateFile

abbrev pub find_root : String → Roots → Option RootRecord
find_root k nothing = none
find_root k (root j r rs) = if j == k then some r else find_root k rs

-- `roots[keyid] = record`
abbrev pub set_root : String → RootRecord → Roots → Roots
set_root k r nothing = root k r nothing
set_root k r (root j x rs) = if j == k then root k r rs else root j x (set_root k r rs)

-- `value.get("schema_version")` as a member of `{1, 2}`; `True` and `1.0` equal 1.
abbrev schema_version : Option Json → Option ℕ
schema_version (some (int (pos n))) = if eqb n 1 || eqb n 2 then some n else none
schema_version (some (bool true)) = some 1
schema_version (some (real s)) = if s == "1.0" then some 1 else if s == "2.0" then some 2 else none
schema_version _ = none

-- An `int` that is no `bool` and at least 1.
abbrev pub positive : Option Json → Option ℕ
positive (some (int (pos n))) = if leb 1 n then some n else none
positive _ = none

-- `feed_sha256 is None`, or a text of 64 characters.
unfoldable pub digest_entry : Option Json → Result (Option String)
digest_entry none = ok none
digest_entry (some null) = ok none
digest_entry (some (text s)) = do
  require (eqb (length (codes s)) 64) invalid_sequence_state
  ok (some s)
digest_entry (some j) = err invalid_sequence_state

unfoldable pub load_current : Json → Result RootRecord
load_current value = do
  fs ← or_raise (as_object value) invalid_sequence_state
  require (has_exactly ("sequence" ∷ "feed_sha256" ∷ []) fs) invalid_sequence_state
  n ← or_raise (positive (get "sequence" fs)) invalid_sequence_state
  digest ← digest_entry (get "feed_sha256" fs)
  ok (record { sequence = n; feed_sha256 = digest })

-- An entry of version 1 is the sequence alone.
unfoldable pub load_entry : ℕ → Json → Result RootRecord
load_entry version value =
    if eqb version 1
    then (do
      n ← or_raise (positive (some value)) invalid_sequence_state
      ok (record { sequence = n; feed_sha256 = none }))
    else load_current value

unfoldable pub load_roots : ℕ → Fields → Result Roots
load_roots version end = ok nothing
load_roots version (field k v fs) = do
  r ← load_entry version v
  rest ← load_roots version fs
  ok (root k r rest)

-- A list or a mapping as the version is the `TypeError` of the set test.
abbrev is_version_hashable : Option Json → Bool
is_version_hashable (some (Json.array xs)) = false
is_version_hashable (some (object fs)) = false
is_version_hashable _ = true

unfoldable pub load_document : Json → Result Roots
load_document value = do
  fs ← or_raise (as_object value) invalid_sequence_state
  require (is_version_hashable (get "schema_version" fs)) type_error
  version ← or_raise (schema_version (get "schema_version" fs)) invalid_sequence_state
  require (has_exactly ("schema_version" ∷ "roots" ∷ []) fs) invalid_sequence_state
  listed ← or_raise (get "roots" fs) invalid_sequence_state
  roots ← or_raise (as_object listed) invalid_sequence_state
  require (leb (length (keys roots)) 100) invalid_sequence_state
  load_roots version roots

-- `_load`
unfoldable pub load : Codec → StateFile → Result Roots
load c absent = ok nothing
load c link = err invalid_sequence_state
load c (bytes s) = do
  require (leb (length (codes s)) 64_000) invalid_sequence_state
  value ← or_raise (c.decode s) invalid_sequence_state
  load_document value

-- `minimum`
unfoldable pub minimum : Codec → String → StateFile → Result ℕ
minimum c keyid file = do
  roots ← load c file
  elim (find_root keyid roots) [ none ↦ ok 0 | some r ↦ ok r.sequence ]

abbrev digest_json : Option String → Json
digest_json none = null
digest_json (some s) = text s

abbrev pub record_json : RootRecord → Json
record_json r =
    object (
      field "feed_sha256" (digest_json r.feed_sha256) (field "sequence" (int (pos r.sequence)) end))

abbrev pub roots_json : Roots → Fields
roots_json nothing = end
roots_json (root k r rs) = field k (record_json r) (roots_json rs)

-- `sort_keys=True`, in the order of code points.
unfoldable pub insert_root : String → RootRecord → Roots → Roots
insert_root k r nothing = root k r nothing
insert_root k r (root j x rs) =
    if text_le k j then root k r (root j x rs) else root j x (insert_root k r rs)

unfoldable pub sort_roots : Roots → Roots
sort_roots nothing = nothing
sort_roots (root k r rs) = insert_root k r (sort_roots rs)

-- The document, its keys in order.
abbrev pub document : Roots → Json
document roots = object (
    field "roots" (object (roots_json (sort_roots roots)))
      (field "schema_version" (int (pos 2)) end))

-- The bytes that replace the file.
unfoldable pub save : Codec → Roots → StateFile
save c roots = bytes (c.encode (document roots))

abbrev pub same_digest : Option String → String → Bool
same_digest none d = false
same_digest (some s) d = s == d

-- The comparison with what was seen: an error, or whether the roots are to be written.
unfoldable pub compare_seen : ℕ → String → Option RootRecord → Result Bool
compare_seen sequence digest none = ok true
compare_seen sequence digest (some seen) = do
  reject (ltb sequence seen.sequence) lifecycle_rollback
  reject
      (eqb sequence seen.sequence
        && is_some seen.feed_sha256
        && not (same_digest seen.feed_sha256 digest))
      lifecycle_equivocation
  ok (not (eqb sequence seen.sequence && same_digest seen.feed_sha256 digest))

-- The roots to write, if there is anything to write.
unfoldable pub accept : String → ℕ → String → Roots → Result (Option Roots)
accept keyid sequence digest roots = do
  write ← compare_seen sequence digest (find_root keyid roots)
  ok (
      if write
      then some (set_root keyid (record { sequence = sequence; feed_sha256 = some digest }) roots)
      else none)

-- `record`, whose name is a keyword here.
unfoldable pub record_sequence : Codec → String → Json → String → StateFile → Result StateFile
record_sequence c keyid sequence digest file = do
  n ← or_raise (positive (some sequence)) invalid_sequence_state
  require (is_sha256 digest) invalid_sequence_state
  roots ← load c file
  written ← accept keyid n digest roots
  elim written [ none ↦ ok file | some after ↦ ok (save c after) ]
