-- ===== src/Access/Capabilities.antt =====
-- The life of a delivery token: it opens the order that it was given for, and only until it is rotated.
use vouchspec.Base.{
  ap, ltb, true, refl, text_refl, arith, text-eq, Option, none, some, ◌+◌, ◌<◌, ℕ, String, List,
  ◌≡◌,
}
use vouchspec.Platform.{utc, parse_timestamp, Platform}
use vouchspec.Access.Tables.{
  update_binding, add_audit, order_key, delivery_token, delivery_digest, is_active, tenant_active,
  find_binding, OrderBinding, AccessDb, Keys,
}
use vouchspec.Access.Commands.{run_access, AccessCommand}
use vouchspec.Access.Histories.{
  binding-key, rotate_token-step, tenant_binding-found, same_binding, run_access-step,
}
use vouchspec.Store.Tables.{Db}
use vouchspec.Access.Evolution.{IsValidAccess}
use vouchspec.Access.Tokens.{
  rotate_delivery_token, grant_of, valid_token, retokened, Grant, authorize_order,
}
use vouchspec.Errors.Ensures.{
  Ensures-or_raise, Ensures-reject, Ensures-require, Ensures-bind, Ensures-ok, Ensures,
}
use vouchspec.Access.Bindings.{new_binding, bind_new_order, bind_order}
use vouchspec.Table.{update, find, find-update, find-append}
use vouchspec.Access.Lockout.{require_active_tenant-active}
use vouchspec.Errors.{invalid_commerce_request, ok}
use vouchspec.Access.Authority.{granted, grants}

-- What `bind_order` leaves behind: an active binding whose digest is that of the token.
record IsBound (k : Keys) (i o token : String) (a : AccessDb) : Type 0 where
  pub binding : OrderBinding
  pub found : find_binding o a.order_bindings ≡ some binding
  pub tenant : binding.tenant_id ≡ i
  pub usable : is_active binding.token_state ≡ true
  pub digest : delivery_digest k token ≡ binding.token_digest
  pub standing : tenant_active i a.tenants ≡ true

module _ (k : Keys) (i o q expires_at t : String) (a : AccessDb)
    (h : tenant_active i a.tenants ≡ true) where
  bind_new_order-IsBound :
      (x : Option OrderBinding)
      → find_binding o a.order_bindings ≡ x
      → Ensures
          (λ r. IsBound k i o r.0 r.1)
          (bind_new_order k x (new_binding k i o q expires_at t) a)
  unfolding bind_new_order add_audit find_binding
  bind_new_order-IsBound (some b) f = Ensures-require _ _ _ λ c. Ensures-require _ _ _ λ s.
      Ensures-require _ _ _ λ d. Ensures-ok _ (record {
        binding = b;
        found = f;
        tenant = text-eq b.tenant_id i (ground (arith, c));
        usable = s;
        digest =
            text-eq (delivery_digest k (delivery_token k i o b.token_version)) b.token_digest d;
        standing = h;
      })
  bind_new_order-IsBound none f = Ensures-reject _ _ _ λ _. Ensures-ok _ (record {
    binding = new_binding k i o q expires_at t;
    found =
        let e = find-append order_key o a.order_bindings (new_binding k i o q expires_at t) in
        let same = text_refl o in ground (arith, e, f, same);
    tenant = refl;
    usable = refl;
    digest = refl;
    standing = h;
  })

bind_order-IsBound :
    (p : Platform) (k : Keys) (i o q t : String) (db : Db) (a : AccessDb)
    → Ensures (λ r. IsBound k i o r.0 r.1) (bind_order p k i o q t db a)
unfolding bind_order
bind_order-IsBound p k i o q t db a = Ensures-require _ _ _ λ _. Ensures-bind λ created _.
    Ensures-bind λ u e. Ensures-require _ _ _ λ _.
      bind_new_order-IsBound k i o q _ t a ((require_active_tenant-active i a).result u e) _ refl

-- The token that `bind_order` returns, for a new binding as for one that exists, authorizes the order until its stored expiry, if the token has the format of tokens.
pub bind_order-opens :
    (p : Platform) (k : Keys) (i o q t token : String) (db : Db) (a b : AccessDb) (m : ℕ)
    → bind_order p k i o q t db a ≡ ok (token, b)
    → valid_token token ≡ true
    → ((x : OrderBinding)
        → find_binding o b.order_bindings ≡ some x
        → (e : ℕ) × (parse_timestamp p invalid_commerce_request x.token_expires_at ≡ ok e)
          × (ltb m e ≡ true))
    → (x : OrderBinding) × (find_binding o b.order_bindings ≡ some x)
      × (authorize_order p k i o token (utc m) b ≡ ok (grant_of x))
bind_order-opens p k i o q t token db a b m h valid timed =
    let s = (bind_order-IsBound p k i o q t db a).result (token, b) h in
    let (e, parsed, early) = timed s.binding s.found in
    (
      s.binding,
      s.found,
      grants p k i o token m b (grant_of s.binding) (record {
        binding = s.binding;
        found = s.found;
        tenant = s.tenant;
        standing = s.standing;
        format = valid;
        usable = s.usable;
        digest = s.digest;
        expiry = e;
        parsed = parsed;
        early = early;
        grant = refl;
      }),
    )

-- A rotation leaves the binding with a later version.
rotate_delivery_token-later :
    (p : Platform) (k : Keys) (i o token t : String) (a : AccessDb) (x : OrderBinding)
    → find_binding o a.order_bindings ≡ some x
    → Ensures
        (λ r.
          (y : OrderBinding) × (find_binding o r.1.order_bindings ≡ some y)
          × (x.token_version < y.token_version))
        (rotate_delivery_token p k i o token t a)
unfolding rotate_delivery_token update_binding add_audit find_binding
rotate_delivery_token-later p k i o token t a x f = Ensures-bind λ updated _. Ensures-bind λ _ _.
    Ensures-or_raise _ _ _ λ b h.
      Ensures-require _ _ _
        λ _. Ensures-ok _ (moved b _ (same_binding b x (tenant_binding-found i o a b h).0 f) _)
  where
    moved :
        (b : OrderBinding) (digest : String)
        → x ≡ b
        → (expires_at : String)
        → (y : OrderBinding) × (find order_key o (
              update order_key o
                (retokened (b.token_version + 1) digest expires_at t)
                a.order_bindings)
            ≡ some y)
          × (x.token_version < y.token_version)
    moved b digest e expires_at =
        let f' = retokened (b.token_version + 1) digest expires_at t in
        let u = find-update order_key o o f' a.order_bindings (λ z. refl) in
        let same = text_refl o in
        (f' x, ground (arith, u, same, f), omega (arith, ap (λ z. z.token_version) e))

-- After a delivery token is rotated in a valid store, and after any further operations, a token that authorizes the order has the digest of the token that was issued for a version later than the one that was rotated, and the grant names that version.
pub rotate_delivery_token-supersedes :
    (p : Platform) (k : Keys) (cs : List (AccessCommand × Db)) (a b : AccessDb)
    (i o current token t x : String) (binding : OrderBinding) (m : ℕ) (g : Grant)
    → IsValidAccess k a
    → find_binding o a.order_bindings ≡ some binding
    → rotate_delivery_token p k i o current t a ≡ ok (token, b)
    → authorize_order p k i o x (utc m) (run_access p k cs b) ≡ ok g
    → (binding.token_version < g.token_version)
      × (delivery_digest k x ≡ delivery_digest k (delivery_token k i o g.token_version))
rotate_delivery_token-supersedes p k cs a b i o current token t x binding m g v f r h =
    let (y, fy, later) =
      (rotate_delivery_token-later p k i o current t a binding f).result (token, b) r in
    let s =
      run_access-step p k cs b
        ((rotate_token-step p k a v i o current t).result (token, b) r).valid in
    let (z, fz, moved) = s.evolves.orders o y fy in
    let final = (granted p k i o x m (run_access p k cs b)).result g h in
    let same = same_binding final.binding z final.found fz in
    let issued = s.valid.issued o final.binding final.found in
    let named = binding-key o (run_access p k cs b).order_bindings final.binding final.found in
    let version : final.binding.token_version ≡ g.token_version =
      ap (λ w. w.token_version) final.grant in
    let reached = ap (λ (w : OrderBinding). w.token_version) same in
    (
      omega (arith, later, moved.version, version, reached),
      cc (final.digest, issued, named, final.tenant, version),
    )
