-- ===== src/Table.antt =====
-- A SQL table as its rows in insertion order, with a text primary key. The database keeps keys
-- unique, so `SELECT … WHERE key = ?` and `UPDATE … WHERE key = ?` are about the first match.
use vouchspec.Base.{
  Option-cases, subst, sym, ◌≡◌, refl, String, Bool, Option, none, some, List, [], ◌∷◌, ◌++◌, arith,
  ◌==◌, eq_iff, if◌then◌else◌, Bool-cases, text-eq, text_refl, inl, inr,
}
use vouchspec.Base.Lists.{first, All}

module _ {R : Type 0} (key : R → String) where
  -- `SELECT * FROM table WHERE key = ?`
  unfoldable pub find : String → List R → Option R
  find k [] = none
  find k (r ∷ rs) = if key r == k then some r else find k rs

  -- `UPDATE table SET … WHERE key = ?`
  unfoldable pub update : String → (R → R) → List R → List R
  update k f [] = []
  update k f (r ∷ rs) = if key r == k then f r ∷ rs else r ∷ update k f rs

  -- The PRIMARY KEY constraint.
  abbrev pub Unique : List R → Type 0
  Unique [] = Unit
  Unique (r ∷ rs) = (find (key r) rs ≡ none) × Unique rs

  pub find_key : (k : String) (rs : List R) (r : R) → find k rs ≡ some r → key r ≡ k
  unfolding find
  find_key k [] r h = cc
  find_key k (x ∷ rs) r h = elim (Bool-cases (key x == k)) [
    | inl e ↦ ground (arith, text-eq (key x) k)
    | inr e ↦ ground (arith, find_key k rs r)
  ]

  pub find-append :
      (k : String) (rs : List R) (r : R)
      → find k (rs ++ r ∷ [])
        ≡ elim (find k rs) [ none ↦ if key r == k then some r else none | some x ↦ some x ]
  unfolding find
  find-append k [] r = refl
  find-append k (x ∷ rs) r = ground (arith, find-append k rs r)

  -- An update that keeps the key changes the row of its key alone.
  pub find-update :
      (k j : String) (f : R → R) (rs : List R)
      → ((r : R) → key (f r) ≡ key r)
      → find j (update k f rs)
        ≡ (if k == j then elim (find j rs) [ none ↦ none | some r ↦ some (f r) ] else find j rs)
  unfolding find update
  find-update k j f [] h = ground arith
  find-update k j f (x ∷ rs) h = ground (
    arith,
    h x,
    find-update k j f rs h,
    eq_iff k j,
    eq_iff (key x) k,
    eq_iff (key x) j,
    eq_iff (key (f x)) j,
  )

  pub update-Unique :
      (k : String) (f : R → R) (rs : List R)
      → ((r : R) → key (f r) ≡ key r)
      → Unique rs
      → Unique (update k f rs)
  unfolding update
  update-Unique k f [] h u = tt
  update-Unique k f (x ∷ rs) h u = elim (Bool-cases (key x == k)) [
    | inl e ↦ rw e (rw (h x) (u.0), u.1)
    | inr e ↦
        rw e (rw (find-update k (key x) f rs h) (ground (arith, u.0)), update-Unique k f rs h u.1)
  ]

  pub append-Unique :
      (r : R) (rs : List R) → find (key r) rs ≡ none → Unique rs → Unique (rs ++ r ∷ [])
  unfolding find
  append-Unique r [] h u = (refl, tt)
  append-Unique r (x ∷ rs) h u = (
    ground
        (arith, h, u.0, find-append (key x) rs r, eq_iff (key r) (key x), eq_iff (key x) (key r)),
    append-Unique r rs (ground (arith, h)) u.1,
  )

  -- A row found by another column is the row of its key.
  pub find-first :
      (p : R → Bool) (rs : List R) (r : R)
      → Unique rs
      → first p rs ≡ some r
      → find (key r) rs ≡ some r
  unfolding find
  find-first p [] r u h = cc
  find-first p (x ∷ rs) r u h = elim (Bool-cases (p x)) [
    | inl e ↦ ground (arith, h, text_refl (key x))
    | inr e ↦ ground (arith, h, find-first p rs r u.1, u.0, eq_iff (key x) (key r))
  ]

  -- What holds of every row that a key finds holds of every row.
  pub All-found :
      (P : R → Type 0) (rs : List R)
      → Unique rs
      → ((k : String) (r : R) → find k rs ≡ some r → P r)
      → All P rs
  unfolding find
  All-found P [] u h = tt
  All-found P (x ∷ rs) u h = (
    h (key x) x (rw (text_refl (key x))),
    All-found P rs u.1 (λ k r e. h k r (ground (arith, e, u.0, eq_iff (key x) k))),
  )

  -- A row stays findable when a row is appended.
  pub append-found :
      (k : String) (rs : List R) (x r : R) → find k rs ≡ some r → find k (rs ++ x ∷ []) ≡ some r
  append-found k rs x r h = rw (find-append k rs x) (rw h refl)

  -- After an update a row is still found, related to the row before by what the update does.
  pub update-found :
      (P : R → R → Type 0) (k j : String) (f : R → R) (rs : List R) (r : R)
      → ((x : R) → key (f x) ≡ key x)
      → ((x : R) → P x x)
      → (find k rs ≡ some r → P r (f r))
      → find j rs ≡ some r
      → (r' : R) × (find j (update k f rs) ≡ some r') × P r r'
  update-found P k j f rs r hk same moved h =
      let e : find j (update k f rs)
          ≡ (if k == j then elim (find j rs) [ none ↦ none | some x ↦ some (f x) ] else find j rs) =
        find-update k j f rs hk in
      elim (Bool-cases (k == j)) [
        | inl b ↦ (
          f r,
          ground (arith, e, b, h),
          moved (subst (λ i. find i rs ≡ some r) (sym (text-eq k j b)) h),
        )
        | inr b ↦ (r, ground (arith, e, b, h), same r)
      ]

  -- A row of the updated table is a row from before, or the update of one.
  pub found-updated :
      (P : R → Type 0) (k j : String) (f : R → R) (rs : List R) (r' : R)
      → ((x : R) → key (f x) ≡ key x)
      → ((r : R) → find j rs ≡ some r → P r)
      → ((r : R) → find k rs ≡ some r → P (f r))
      → find j (update k f rs) ≡ some r'
      → P r'
  found-updated P k j f rs r' hk old new h =
      let e : find j (update k f rs)
          ≡ (if k == j then elim (find j rs) [ none ↦ none | some x ↦ some (f x) ] else find j rs) =
        find-update k j f rs hk in
      elim (Bool-cases (k == j)) [
        | inl b ↦ elim (Option-cases (find j rs)) [
          | inl n ↦ absurd (ground (arith, e, b, n, h))
          | inr (x, q) ↦
              let moved : f x ≡ r' = ground (arith, e, b, q, h) in
              subst P moved (new x (subst (λ i. find i rs ≡ some x) (sym (text-eq k j b)) q))
        ]
        | inr b ↦ old r' (ground (arith, e, b, h))
      ]

  -- A row of the table with one more row is a row from before or the new one.
  pub found-appended :
      (P : R → Type 0) (j : String) (rs : List R) (x r : R)
      → ((y : R) → find j rs ≡ some y → P y)
      → P x
      → find j (rs ++ x ∷ []) ≡ some r
      → P r
  found-appended P j rs x r old new h =
      let e = find-append j rs x in
      elim (Option-cases (find j rs)) [
        | inl n ↦ let added : x ≡ r = ground (arith, e, n, h) in subst P added new
        | inr (y, q) ↦ let kept : y ≡ r = ground (arith, e, q, h) in subst P kept (old y q)
      ]
