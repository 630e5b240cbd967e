-- ===== src/Access/Authority.antt =====
-- What `authorize_order` grants: the code against a description of who may have a result.
use vouchspec.Base.{
  ◌↔◌, ap, arith, ◌&&◌, ◌==◌, refl, eq_iff, subst, inr, inl, true, none, some, Option, String, ℕ,
  text-eq, Option-cases, Bool-cases, ltb, ◌≡◌,
}
use vouchspec.Platform.{utc, parse_timestamp, Platform}
use vouchspec.Access.Tables.{
  delivery_digest, is_active, tenant_active, find_binding, OrderBinding, AccessDb, Keys,
}
use vouchspec.Access.Tokens.{
  check_binding, authorize_order, owned_binding, grant_of, valid_token, Grant,
}
use vouchspec.Errors.Ensures.{Ensures-require, Ensures-ok, Ensures-err, Ensures-bind, Ensures}
use vouchspec.Errors.{authorization_failed, err, Error, chains, ok, invalid_commerce_request}

-- The binding is the tenant's, the tenant and the token are active, the token is the current one and
-- has not expired.
pub record IsAuthorized (p : Platform) (k : Keys) (i o token : String) (m : ℕ) (a : AccessDb)
    (g : Grant) : Type 0 where
  pub binding : OrderBinding
  pub found : find_binding o a.order_bindings ≡ some binding
  pub tenant : binding.tenant_id ≡ i
  pub standing : tenant_active i a.tenants ≡ true
  pub format : valid_token token ≡ true
  pub usable : is_active binding.token_state ≡ true
  pub digest : delivery_digest k token ≡ binding.token_digest
  pub expiry : ℕ
  pub parsed : parse_timestamp p invalid_commerce_request binding.token_expires_at ≡ ok expiry
  pub early : ltb m expiry ≡ true
  pub grant : grant_of binding ≡ g

pub owned_binding-found :
    (i o : String) (a : AccessDb) (b : OrderBinding)
    → owned_binding i o a ≡ some b
    → (find_binding o a.order_bindings ≡ some b)
      × (b.tenant_id ≡ i)
      × (tenant_active i a.tenants ≡ true)
unfolding owned_binding
owned_binding-found i o a b h = elim (Option-cases (find_binding o a.order_bindings)) [
  | inl n ↦ absurd (ground (arith, h, n))
  | inr (x, q) ↦ elim (Bool-cases (x.tenant_id == i && tenant_active i a.tenants)) [
    | inl c ↦
        let same : x ≡ b = ground (arith, h, q, c) in
        (
          cc (q, same),
          subst (λ y. y.tenant_id ≡ i) same (text-eq x.tenant_id i (ground (arith, c))),
          ground (arith, c),
        )
    | inr c ↦ absurd (ground (arith, h, q, c))
  ]
]

pub found-owned_binding :
    (i o : String) (a : AccessDb) (b : OrderBinding)
    → find_binding o a.order_bindings ≡ some b
    → b.tenant_id ≡ i
    → tenant_active i a.tenants ≡ true
    → owned_binding i o a ≡ some b
unfolding owned_binding
found-owned_binding i o a b h q t =
    let same : (b.tenant_id == i) ≡ true = (eq_iff b.tenant_id i).1 q in ground (arith, h, same, t)

module _ (p : Platform) (k : Keys) (i o token : String) (m : ℕ) (a : AccessDb) where
  pub granted : Ensures (IsAuthorized p k i o token m a) (authorize_order p k i o token (utc m) a)
  unfolding authorize_order check_binding
  granted = Ensures-bind λ t h. checked t (cc (h)) (owned_binding i o a) refl
    where
      checked :
          (t : ℕ)
          → t ≡ m
          → (x : Option OrderBinding) → owned_binding i o a ≡ x
          → Ensures (IsAuthorized p k i o token m a) (check_binding p k token t x)
      checked t e none h = Ensures-err _
      checked t e (some b) h = Ensures-bind λ expiry q. Ensures-require _ _ _ λ c. Ensures-ok _ (
          let f = owned_binding-found i o a b h in
          record {
            binding = b;
            found = f.0;
            tenant = f.1;
            standing = f.2;
            format = ground (arith, c);
            usable = ground (arith, c);
            digest = text-eq (delivery_digest k token) b.token_digest (ground (arith, c));
            expiry = expiry;
            parsed = q;
            early = subst (λ x. ltb x expiry ≡ true) e (ground (arith, c));
            grant = refl;
          })

  pub grants :
      (g : Grant)
      → IsAuthorized p k i o token m a g
      → authorize_order p k i o token (utc m) a ≡ ok g
  unfolding authorize_order check_binding chains
  grants g h =
      let b = h.binding in
      let same : (delivery_digest k token == b.token_digest) ≡ true =
        (eq_iff (delivery_digest k token) b.token_digest).1 h.digest in
      rw (found-owned_binding i o a b h.found h.tenant h.standing)
        (rw h.format (rw h.parsed (rw h.usable (rw same (rw h.early (ap ok h.grant))))))

  -- A delivery token authorizes an order exactly when the order's binding belongs to the active tenant, its token is active, well-formed, equal in digest to the stored one and unexpired.
  pub authorize_order-IsAuthorized :
      (g : Grant)
      → (authorize_order p k i o token (utc m) a ≡ ok g) ↔ IsAuthorized p k i o token m a g
  authorize_order-IsAuthorized g = (granted.result g, grants g)

  -- Where the expiry that is stored for the order is a timestamp, every refusal of a token has the same code, whatever its cause.
  pub authorize_order-refusal :
      ((b : OrderBinding)
        → find_binding o a.order_bindings ≡ some b
        → (e : ℕ) × (parse_timestamp p invalid_commerce_request b.token_expires_at ≡ ok e))
      → (e : Error) → authorize_order p k i o token (utc m) a ≡ err e
      → e ≡ authorization_failed
  unfolding authorize_order check_binding chains
  authorize_order-refusal timed e h = refused (owned_binding i o a) refl h
    where
      refused :
          (x : Option OrderBinding)
          → owned_binding i o a ≡ x
          → check_binding p k token m x ≡ err e
          → e ≡ authorization_failed
      refused none q r = cc
      refused (some b) q r =
          let (t, s) = timed b (owned_binding-found i o a b q).0 in ground (arith, r, s)
