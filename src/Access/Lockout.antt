-- ===== src/Access/Lockout.antt =====
-- What access bindings and revocations promise for every later sequence of operations.
use vouchspec.Base.{
  text_refl, refl, ◌&&◌, ◌==◌, none, Option, Bool-cases, false, true, some, arith, inr, inl,
  Option-cases, ℕ, String, List, ◌≡◌,
}
use vouchspec.Platform.{utc, naive, Moment, Platform}
use vouchspec.Access.Tables.{
  add_audit, update_tenant, QuoteBinding, find_quote_binding, require_active_tenant, tenant_key,
  is_active, find_tenant, Tenant, tenant_active, AccessDb, Keys,
}
use vouchspec.Access.Commands.{run_access, AccessCommand}
use vouchspec.Access.Histories.{revoke-step, run_access-step}
use vouchspec.Store.Tables.{Db}
use vouchspec.Access.Evolution.{AccessEvolves, IsValidAccess}
use vouchspec.Access.Tenants.{revoked_tenant, revoke_tenant, authenticate_api_key}
use vouchspec.Access.Bindings.{owned_quote, tenant_resource_counts, authorize_quote}
use vouchspec.Errors.{chains, ok, err, authorization_failed}
use vouchspec.Access.Tokens.{get_result, authorize_order, Grant}
use vouchspec.Errors.Ensures.{
  require-true, Ensures-bind, Ensures-require, Ensures-or_raise, Ensures-ok, Ensures,
}
use vouchspec.Table.{find-update, find-first}
use vouchspec.Access.Authority.{granted}

-- Whatever operations run on a valid access store, and in whatever states of the commerce database, a bound order keeps its tenant and its quote, its token version never falls, a version keeps its digest, a revoked token stays revoked and a published result stays as it is; a quote keeps its binding, and a revoked tenant stays revoked.
pub run_access-AccessEvolves :
    (p : Platform) (k : Keys) (cs : List (AccessCommand × Db)) (a : AccessDb)
    → IsValidAccess k a
    → AccessEvolves a (run_access p k cs a)
run_access-AccessEvolves p k cs a v = (run_access-step p k cs a v).evolves

-- Nothing opens for the tenant.
pub record IsLockedOut (p : Platform) (k : Keys) (i : String) (a : AccessDb) : Type 0 where
  pub keys : (s : String) → ¬ (authenticate_api_key k s a ≡ ok i)
  pub quotes : (q : String) → authorize_quote i q a ≡ err authorization_failed
  pub orders :
      (o token : String) (now : Moment) (g : Grant) → ¬ (authorize_order p k i o token now a ≡ ok g)
  pub results :
      (o token : String) (now : Moment) (r : String) → ¬ (get_result p k i o token now a ≡ ok r)
  pub counts : (n : ℕ × ℕ) → ¬ (tenant_resource_counts i a ≡ ok n)

tenant_active-true :
    (i : String) (a : AccessDb)
    → tenant_active i a.tenants ≡ true
    → (t : Tenant) × (find_tenant i a.tenants ≡ some t) × (is_active t.state ≡ true)
unfolding tenant_active
tenant_active-true i a h = elim (Option-cases (find_tenant i a.tenants)) [
  | inl n ↦ absurd (ground (arith, h, n))
  | inr (t, e) ↦ (t, e, ground (arith, h, e))
]

tenant_active-false :
    (i : String) (a : AccessDb) (t : Tenant)
    → find_tenant i a.tenants ≡ some t
    → is_active t.state ≡ false
    → tenant_active i a.tenants ≡ false
unfolding tenant_active
tenant_active-false i a t e h = ground (arith, e, h)

-- Who authenticates is an active tenant.
authenticate_api_key-active :
    (k : Keys) (s : String) (a : AccessDb)
    → IsValidAccess k a
    → Ensures (λ i. tenant_active i a.tenants ≡ true) (authenticate_api_key k s a)
unfolding authenticate_api_key tenant_active find_tenant
authenticate_api_key-active k s a v = Ensures-or_raise _ _ _ λ t h. Ensures-require _ _ _ λ c.
    Ensures-ok _ (let e = find-first tenant_key _ a.tenants t v.unique h in ground (arith, e, c))

pub require_active_tenant-active :
    (i : String) (a : AccessDb)
    → Ensures (λ u. tenant_active i a.tenants ≡ true) (require_active_tenant i a)
unfolding require_active_tenant
require_active_tenant-active i a =
    Ensures-require _ _ _ λ _. record { result = λ u. require-true _ _ u }

module _ (p : Platform) (k : Keys) (i : String) (a : AccessDb) (v : IsValidAccess k a)
    (h : tenant_active i a.tenants ≡ false) where
  no_grant :
      (o token : String) (now : Moment) (g : Grant) → ¬ (authorize_order p k i o token now a ≡ ok g)
  unfolding authorize_order chains
  no_grant o token naive g e = cc (e)
  no_grant o token (utc m) g e =
      let standing = ((granted p k i o token m a).result g e).standing in cc (h, standing)

  no_result : (o token : String) (now : Moment) → Ensures (λ r. ⊥) (get_result p k i o token now a)
  unfolding get_result
  no_result o token now = Ensures-bind λ g e. absurd (no_grant o token now g e)

  no_count : Ensures (λ r. ⊥) (tenant_resource_counts i a)
  unfolding tenant_resource_counts
  no_count = Ensures-bind λ u e.
      let c : tenant_active i a.tenants ≡ true = (require_active_tenant-active i a).result u e in
      absurd (cc (h, c))

  no_quote : (q : String) → owned_quote i q a ≡ false
  unfolding owned_quote
  no_quote q = owned (find_quote_binding q a.quote_bindings)
    where
      owned :
          (x : Option QuoteBinding)
          → elim x [ none ↦ false | some b ↦ b.tenant_id == i && tenant_active i a.tenants ] ≡ false
      owned none = refl
      owned (some b) = elim (Bool-cases (b.tenant_id == i)) [
        | inl e ↦ rw (e, h) refl
        | inr e ↦ rw e refl
      ]

  inactive-IsLockedOut : IsLockedOut p k i a
  unfolding authorize_quote chains
  inactive-IsLockedOut = record {
    keys = λ s e. let c = (authenticate_api_key-active k s a v).result i e in cc (h, c);
    quotes = λ q. rw (no_quote q) refl;
    orders = no_grant;
    results = λ o token now r e. (no_result o token now).result r e;
    counts = λ n e. no_count.result n e;
  }

revoke_tenant-revoked :
    (p : Platform) (i t : String) (a : AccessDb)
    → Ensures
        (λ r. (x : Tenant) × (find_tenant i r.1.tenants ≡ some x) × (is_active x.state ≡ false))
        (revoke_tenant p i t a)
unfolding revoke_tenant update_tenant add_audit find_tenant
revoke_tenant-revoked p i t a = Ensures-bind λ _ _. Ensures-require _ _ _ λ c. Ensures-ok _ (
    let (x, e, q) = tenant_active-true i a c in
    let moved = find-update tenant_key i i (revoked_tenant t) a.tenants (λ y. refl) in
    let same = text_refl i in (revoked_tenant t x, ground (arith, moved, same, e), refl))

-- When a tenant's revocation succeeds, then after any further operations nothing opens for it: none of its API keys authenticates, no quote or delivery token of any order is accepted, no result is returned and its resources are not counted.
pub revoke_tenant-IsLockedOut :
    (p : Platform) (k : Keys) (cs : List (AccessCommand × Db)) (a b : AccessDb) (i t : String)
    → IsValidAccess k a
    → revoke_tenant p i t a ≡ ok (tt, b)
    → IsLockedOut p k i (run_access p k cs b)
revoke_tenant-IsLockedOut p k cs a b i t v e =
    let (x, f, q) = (revoke_tenant-revoked p i t a).result (tt, b) e in
    let s = run_access-step p k cs b (((revoke-step p k a v i t).result (tt, b) e).valid) in
    let (x', f', q') = s.evolves.tenants i x f in
    inactive-IsLockedOut p k i (run_access p k cs b) s.valid
      (tenant_active-false i (run_access p k cs b) x' f' (q' q))
