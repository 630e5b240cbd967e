-- ===== src/Lifecycle/SequenceLaws.antt =====
-- What `LifecycleSequenceStore` decides about a feed, and the roots that result.
use vouchspec.Base.{
  sym, subst, if◌then◌else◌, ℕ, ◌≤◌, ◌<◌, ◌≡◌, refl, String, Bool, true, false, none, some, arith,
  ◌==◌, Bool-cases, inl, inr, text_refl, text-eq, eq_iff,
}
use vouchspec.Errors.{◌>>=◌, Result, ok, err, chains, lifecycle_rollback, lifecycle_equivocation}
use vouchspec.Lifecycle.Sequence.{
  compare_seen, RootRecord, Roots, nothing, root, find_root, set_root, accept,
}

pub find_root-set_root :
    (k j : String) (r : RootRecord) (rs : Roots)
    → find_root j (set_root k r rs) ≡ (if k == j then some r else find_root j rs)
find_root-set_root k j r nothing = refl
find_root-set_root k j r (root i x rs) =
    ground (arith, find_root-set_root k j r rs, eq_iff i k, eq_iff i j, eq_iff k j)

abbrev pub entry : ℕ → String → RootRecord
entry n d = record { sequence = n; feed_sha256 = some d }

compare_seen-le :
    (n : ℕ) (d : String) (b : Bool) (r : RootRecord)
    → compare_seen n d (some r) ≡ ok b
    → r.sequence ≤ n
unfolding compare_seen chains
compare_seen-le n d b r h = ground (arith, h)

pub compare_seen-lower :
    (m n : ℕ) (c d : String) → m < n → compare_seen m c (some (entry n d)) ≡ err lifecycle_rollback
unfolding compare_seen chains
compare_seen-lower m n c d l = ground (arith, l)

pub compare_seen-other :
    (n : ℕ) (c d : String)
    → (d == c) ≡ false
    → compare_seen n c (some (entry n d)) ≡ err lifecycle_equivocation
unfolding compare_seen chains
compare_seen-other n c d e = ground (arith, e)

pub compare_seen-same : (n : ℕ) (d : String) → compare_seen n d (some (entry n d)) ≡ ok false
unfolding compare_seen chains
compare_seen-same n d = ground (arith, text_refl d)

-- When a new record is accepted, it replaces the one of its root, whose sequence is not above it.
accept-set_root :
    (k : String) (n : ℕ) (d : String) (rs after : Roots)
    → accept k n d rs ≡ ok (some after)
    → (after ≡ set_root k (entry n d) rs)
      × ((r : RootRecord) → find_root k rs ≡ some r → r.sequence ≤ n)
unfolding accept chains
accept-set_root k n d rs after h = go (compare_seen n d (find_root k rs)) refl h
  where
    go :
        (m : Result Bool)
        → compare_seen n d (find_root k rs) ≡ m
        → (m >>= λ write. ok (if write then some (set_root k (entry n d) rs) else none))
          ≡ ok (some after)
        → (after ≡ set_root k (entry n d) rs)
          × ((r : RootRecord) → find_root k rs ≡ some r → r.sequence ≤ n)
    go (err e) q g = cc
    go (ok false) q g = cc
    go (ok true) q g =
        (cc, λ r f. compare_seen-le n d true r (subst (λ o. compare_seen n d o ≡ ok true) f q))

pub find_root-after :
    (k : String) (n : ℕ) (d : String) (rs after : Roots)
    → accept k n d rs ≡ ok (some after)
    → find_root k after ≡ some (entry n d)
find_root-after k n d rs after h =
    rw ((accept-set_root k n d rs after h).0)
      (rw (find_root-set_root k k (entry n d) rs) (rw (text_refl k) refl))

-- An accepted feed lowers the sequence of no root in the roots that are to be written.
pub accept_keeps :
    (k : String) (n : ℕ) (d : String) (rs after : Roots) (j : String) (r : RootRecord)
    → accept k n d rs ≡ ok (some after)
    → find_root j rs ≡ some r
    → (r' : RootRecord) × (find_root j after ≡ some r') × (r.sequence ≤ r'.sequence)
accept_keeps k n d rs after j r h f =
    let (e, low) = accept-set_root k n d rs after h in
    let found =
      subst (λ x. find_root j x ≡ (if k == j then some (entry n d) else find_root j rs)) (sym e)
        (find_root-set_root k j (entry n d) rs) in
    elim (Bool-cases (k == j)) [
      | inl same ↦ (
        entry n d,
        ground (arith, found, same),
        low r (subst (λ i. find_root i rs ≡ some r) (sym (text-eq k j same)) f),
      )
      | inr other ↦ (r, ground (arith, found, other, f), omega arith)
    ]
