-- ===== src/Access/Histories.antt =====
-- Every operation of `CommerceAccessStore` keeps its store valid, and sequences of operations let it
-- evolve. Each operation meets the commerce database as it is at its time.
use vouchspec.Base.{
  ◌+◌, ◌≡◌, refl, sym, subst, String, Bool, false, ◌||◌, Option, none, some, List, [], ◌∷◌, arith,
  is_some, ◌==◌, text-eq, Bool-cases, inl, inr,
}
use vouchspec.Errors.{Result, ok, err}
use vouchspec.Errors.Ensures.{
  Ensures, Ensures-ok, Ensures-bind, Ensures-require, Ensures-reject, Ensures-or_raise,
}
use vouchspec.Platform.{Platform}
use vouchspec.Store.Tables.{Db}
use vouchspec.Access.Tables.{
  QuoteBinding, OrderBinding, Published, AccessDb, Keys, order_key, find_binding, find_tenant,
  delivery_token, delivery_digest, empty_access,
}
use vouchspec.Access.Tenants.{
  provision_tenant, insert_tenant, rotate_api_key, revoke_tenant, rekeyed, revoked_tenant,
}
use vouchspec.Access.Bindings.{
  bind_quote, bind_new_quote, insert_quote_binding, bind_order, bind_new_order,
}
use vouchspec.Access.Tokens.{
  tenant_binding, belongs, rotate_delivery_token, revoke_delivery_token, retokened, token_revoked,
  publish_result, bind_result, published,
}
use vouchspec.Access.Evolution.{
  BindingEvolves, AccessEvolves-trans, IsIssued, IsValidAccess, AccessStep, step-same, step-tenant,
  step-new_tenant, step-new_quote, step-new_order, step-order, step-audit,
}
use vouchspec.Table.{find, find_key}
use vouchspec.Access.Commands.{
  publish, revoke_token, rotate_token, bind_an_order, bind_a_quote, revoke, rotate_key, provision,
  run_access, committed, execute_access, AccessCommand,
}

-- A binding that a query finds under an identifier has that identifier.
pub binding-key :
    (i : String) (os : List OrderBinding) (o : OrderBinding)
    → find_binding i os ≡ some o
    → o.order_id ≡ i
unfolding find_binding
binding-key i os o h = find_key order_key i os o h

pub tenant_binding-found :
    (i o : String) (a : AccessDb) (b : OrderBinding)
    → tenant_binding i o a ≡ some b
    → (find_binding o a.order_bindings ≡ some b) × (b.tenant_id ≡ i)
unfolding tenant_binding
tenant_binding-found i o a b h = go (find_binding o a.order_bindings) h
  where
    go : (x : Option OrderBinding) → belongs i x ≡ some b → (x ≡ some b) × (b.tenant_id ≡ i)
    go none e = cc
    go (some x) e = elim (Bool-cases (x.tenant_id == i)) [
      | inl s ↦
          let q : x ≡ b = ground (arith, e, s) in
          ((cc), subst (λ y. y.tenant_id ≡ i) q (text-eq x.tenant_id i s))
      | inr s ↦ absurd (ground (arith, e, s))
    ]

pub same_binding : {o : Option OrderBinding} (b x : OrderBinding) → o ≡ some b → o ≡ some x → x ≡ b
same_binding b x p q = cc

is_some-none : {A : Type 0} (o : Option A) (b : Bool) → (is_some o || b) ≡ false → o ≡ none
is_some-none none b h = refl
is_some-none (some x) b h = cc

module _ (p : Platform) (k : Keys) (a : AccessDb) (v : IsValidAccess k a) where
  provision-step :
      (i random t : String) → Ensures (λ r. AccessStep k a r.1) (provision_tenant p k i random t a)
  unfolding provision_tenant insert_tenant
  provision-step i random t = Ensures-require _ _ _ λ _.
      Ensures-bind λ _ _.
        Ensures-bind λ b h. Ensures-ok _ (step-audit k a b _ _ _ _ _ ((inserted _).result b h))
    where
      inserted : (d : String) → Ensures (AccessStep k a) (insert_tenant i d t a)
      inserted d =
          Ensures-reject _ _ _
            λ h. Ensures-ok _ (step-new_tenant k a v _ (is_some-none (find_tenant i a.tenants) _ h))

  rotate_key-step :
      (i random t : String) → Ensures (λ r. AccessStep k a r.1) (rotate_api_key p k i random t a)
  unfolding rotate_api_key
  rotate_key-step i random t = Ensures-require _ _ _ λ _. Ensures-bind λ _ _.
      Ensures-require _ _ _ λ _. Ensures-reject _ _ _ λ _.
        Ensures-ok _
          (step-audit k a _ _ _ _ _ _ (step-tenant k a v i (rekeyed _ t) (λ x. refl) (λ x e. e)))

  pub revoke-step : (i t : String) → Ensures (λ r. AccessStep k a r.1) (revoke_tenant p i t a)
  unfolding revoke_tenant
  revoke-step i t = Ensures-bind λ _ _. Ensures-require _ _ _ λ _. Ensures-ok _ (
      step-audit k a _ _ _ _ _ _ (step-tenant k a v i (revoked_tenant t) (λ x. refl) (λ x e. refl)))

  bind_new_quote-step :
      (o : Option QuoteBinding) (q : QuoteBinding) → Ensures (AccessStep k a) (bind_new_quote o q a)
  unfolding bind_new_quote insert_quote_binding
  bind_new_quote-step (some x) q = Ensures-require _ _ _ λ _. Ensures-ok _ (step-same k a v)
  bind_new_quote-step none q =
      Ensures-bind λ b h. Ensures-ok _ (step-audit k a b _ _ _ _ _ (inserted.result b h))
    where
      inserted : Ensures (AccessStep k a) (insert_quote_binding q a)
      inserted = Ensures-reject _ _ _ λ _. Ensures-ok _ (step-new_quote k a v q)

  bind_quote-step :
      (i q key t : String) (db : Db) → Ensures (AccessStep k a) (bind_quote p k i q key t db a)
  unfolding bind_quote
  bind_quote-step i q key t db = Ensures-require _ _ _ λ _. Ensures-require _ _ _ λ _.
      Ensures-bind λ _ _. Ensures-bind λ _ _. Ensures-require _ _ _ λ _. bind_new_quote-step _ _

  bind_new_order-step :
      (o : Option OrderBinding) (b : OrderBinding)
      → IsIssued k b
      → Ensures (λ r. AccessStep k a r.1) (bind_new_order k o b a)
  unfolding bind_new_order
  bind_new_order-step (some x) b h =
      Ensures-require _ _ _
        λ _. Ensures-require _ _ _ λ _. Ensures-require _ _ _ λ _. Ensures-ok _ (step-same k a v)
  bind_new_order-step none b h =
      Ensures-reject _ _ _ λ _. Ensures-ok _ (step-audit k a _ _ _ _ _ _ (step-new_order k a v b h))

  pub bind_order-step :
      (i o q t : String) (db : Db) → Ensures (λ r. AccessStep k a r.1) (bind_order p k i o q t db a)
  unfolding bind_order
  bind_order-step i o q t db = Ensures-require _ _ _ λ _.
      Ensures-bind
        λ created _. Ensures-bind λ _ _. Ensures-require _ _ _ λ _. bind_new_order-step _ _ refl

  pub rotate_token-step :
      (i o token t : String)
      → Ensures (λ r. AccessStep k a r.1) (rotate_delivery_token p k i o token t a)
  unfolding rotate_delivery_token
  rotate_token-step i o token t = Ensures-bind λ updated _. Ensures-bind λ _ _.
      Ensures-or_raise _ _ _ λ b h. Ensures-require _ _ _ λ _. Ensures-ok _ (
        step-audit k a _ _ _ _ _ _
          (step-order k a v o _ (λ x. refl) (reissued b (tenant_binding-found i o a b h) _ t)))
    where
      renewed :
          (b : OrderBinding)
          → (find_binding o a.order_bindings ≡ some b) × (b.tenant_id ≡ i)
          → (e t : String)
          → BindingEvolves b (
              retokened
                (b.token_version + 1)
                (delivery_digest k (delivery_token k i o (b.token_version + 1)))
                e
                t
                b)
            × IsIssued k (
                retokened
                  (b.token_version + 1)
                  (delivery_digest k (delivery_token k i o (b.token_version + 1)))
                  e
                  t
                  b)
      renewed b f e t = (
        record {
          tenant = refl;
          quote = refl;
          version = omega arith;
          digest = λ q. absurd (omega (arith, q));
          revoked = λ h. h;
          result = λ r h. h;
        },
        cc (f.1, binding-key o a.order_bindings b f.0),
      )

      reissued :
          (b : OrderBinding)
          → (find_binding o a.order_bindings ≡ some b) × (b.tenant_id ≡ i)
          → (e t : String) (x : OrderBinding) → find_binding o a.order_bindings ≡ some x
          → BindingEvolves x (
              retokened
                (b.token_version + 1)
                (delivery_digest k (delivery_token k i o (b.token_version + 1)))
                e
                t
                x)
            × IsIssued k (
                retokened
                  (b.token_version + 1)
                  (delivery_digest k (delivery_token k i o (b.token_version + 1)))
                  e
                  t
                  x)
      reissued b f e t x g =
          let version = b.token_version + 1 in
          let digest = delivery_digest k (delivery_token k i o version) in
          subst
            (λ y.
              BindingEvolves y (retokened version digest e t y)
              × IsIssued k (retokened version digest e t y))
            (sym (same_binding b x (f.0) g)) (renewed b f e t)

  revoke_token-step :
      (i o token t : String)
      → Ensures (λ r. AccessStep k a r.1) (revoke_delivery_token p k i o token t a)
  unfolding revoke_delivery_token
  revoke_token-step i o token t = Ensures-bind λ updated _. Ensures-bind λ _ _.
      Ensures-or_raise _ _ _ λ b h. Ensures-require _ _ _ λ _. Ensures-ok _ (
        step-audit k a _ _ _ _ _ _ (
          step-order k a v o (token_revoked t) (λ x. refl)
            (λ x g. (
              record {
                tenant = refl;
                quote = refl;
                version = omega arith;
                digest = λ e. refl;
                revoked = λ e. refl;
                result = λ r e. e;
              },
              v.issued o x g,
            ))))

  publish-step :
      (o envelope t : String) (db : Db)
      → Ensures (λ r. AccessStep k a r.1) (publish_result p o envelope t db a)
  unfolding publish_result bind_result
  publish-step o envelope t db = Ensures-require _ _ _ λ _. Ensures-require _ _ _ λ _.
      Ensures-bind λ _ _. Ensures-bind λ x _. Ensures-or_raise _ _ _ λ b h.
        Ensures-require _ _ _ λ _.
          Ensures-require _ _ _
            λ _. Ensures-bind λ after g. Ensures-ok _ ((bound b h b.result refl _).result after g)
    where
      unpublished :
          (x : OrderBinding)
          → x.result ≡ none
          → (d : String) → BindingEvolves x (published d envelope t x)
      unpublished x e d = record {
        tenant = refl;
        quote = refl;
        version = omega arith;
        digest = λ q. refl;
        revoked = λ h. h;
        result = λ r h. absurd (cc);
      }

      bound :
          (b : OrderBinding)
          → find_binding o a.order_bindings ≡ some b
          → (r : Option Published) → b.result ≡ r
          → (d : String) → Ensures (AccessStep k a) (bind_result r b d envelope t a)
      bound b h (some r) e d = Ensures-require _ _ _ λ _. Ensures-ok _ (step-same k a v)
      bound b h none e d = Ensures-ok _ (
          step-audit k a _ _ _ _ _ _ (
            step-order k a v b.order_id (published d envelope t) (λ x. refl)
              (λ x g.
                let f =
                  subst (λ i. find_binding i a.order_bindings ≡ some b)
                    (sym (binding-key o a.order_bindings b h)) h in
                let q = same_binding b x f g in
                (
                  unpublished x (subst (λ y. y.result ≡ none) (sym q) e) d,
                  v.issued b.order_id x g,
                ))))

  execute-step :
      (c : AccessCommand) (db : Db) → Ensures (AccessStep k a) (execute_access p k c db a)
  unfolding execute_access
  execute-step (provision i random t) db =
      Ensures-bind λ r h. Ensures-ok _ ((provision-step i random t).result r h)
  execute-step (rotate_key i random t) db =
      Ensures-bind λ r h. Ensures-ok _ ((rotate_key-step i random t).result r h)
  execute-step (revoke i t) db = Ensures-bind λ r h. Ensures-ok _ ((revoke-step i t).result r h)
  execute-step (bind_a_quote i q key t) db = bind_quote-step i q key t db
  execute-step (bind_an_order i o q t) db =
      Ensures-bind λ r h. Ensures-ok _ ((bind_order-step i o q t db).result r h)
  execute-step (rotate_token i o token t) db =
      Ensures-bind λ r h. Ensures-ok _ ((rotate_token-step i o token t).result r h)
  execute-step (revoke_token i o token t) db =
      Ensures-bind λ r h. Ensures-ok _ ((revoke_token-step i o token t).result r h)
  execute-step (publish o envelope t) db =
      Ensures-bind λ r h. Ensures-ok _ ((publish-step o envelope t db).result r h)

  committed-step :
      (m : Result AccessDb) → Ensures (AccessStep k a) m → AccessStep k a (committed a m)
  committed-step (ok b) h = h.result b refl
  committed-step (err e) h = step-same k a v

pub run_access-step :
    (p : Platform) (k : Keys) (cs : List (AccessCommand × Db)) (a : AccessDb)
    → IsValidAccess k a
    → AccessStep k a (run_access p k cs a)
unfolding run_access
run_access-step p k [] a v = step-same k a v
run_access-step p k ((c, db) ∷ cs) a v =
    let s = committed-step p k a v (execute_access p k c db a) (execute-step p k a v c db) in
    let r = run_access-step p k cs (committed a (execute_access p k c db a)) s.valid in
    record { evolves = AccessEvolves-trans _ _ _ s.evolves r.evolves; valid = r.valid }

pub empty_access-IsValidAccess : (k : Keys) → IsValidAccess k empty_access
unfolding find_binding
empty_access-IsValidAccess k = record { unique = tt; issued = λ i o h. absurd (none_found i o h) }
  where
    none_found : (i : String) (o : OrderBinding) → find order_key i [] ≡ some o → ⊥
    none_found i o h = cc
