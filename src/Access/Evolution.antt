-- ===== src/Access/Evolution.antt =====
-- How the tables of `CommerceAccessStore` may change: tenants are never activated again, bindings keep
-- their tenant and quote, and each token version has one digest.
use vouchspec.Base.{◌≤◌, ◌≡◌, refl, ◌∙◌, String, false, Option, none, some, [], ◌∷◌, ◌++◌, arith}
use vouchspec.Access.Tables.{
  is_active, Tenant, QuoteBinding, OrderBinding, Published, AccessDb, Keys, AuditType,
  delivery_token, delivery_digest, tenant_key, quote_key, order_key, find_tenant,
  find_quote_binding, find_binding, update_tenant, update_binding, add_audit,
}
use vouchspec.Table.{
  Unique, append-found, update-found, found-updated, found-appended, update-Unique, append-Unique,
}

-- A binding as it may become.
pub record BindingEvolves (a b : OrderBinding) : Type 0 where
  pub tenant : b.tenant_id ≡ a.tenant_id
  pub quote : b.quote_id ≡ a.quote_id
  pub version : a.token_version ≤ b.token_version
  pub digest : b.token_version ≡ a.token_version → b.token_digest ≡ a.token_digest
  pub revoked : is_active a.token_state ≡ false → is_active b.token_state ≡ false
  pub result : (r : Published) → a.result ≡ some r → b.result ≡ some r

pub BindingEvolves-refl : (a : OrderBinding) → BindingEvolves a a
BindingEvolves-refl a = record {
  tenant = refl;
  quote = refl;
  version = omega arith;
  digest = λ e. refl;
  revoked = λ h. h;
  result = λ r h. h;
}

pub BindingEvolves-trans :
    (a b c : OrderBinding) → BindingEvolves a b → BindingEvolves b c → BindingEvolves a c
BindingEvolves-trans a b c p q = record {
  tenant = q.tenant ∙ p.tenant;
  quote = q.quote ∙ p.quote;
  version = omega (arith, p.version, q.version);
  digest = λ e.
      q.digest (omega (arith, e, p.version, q.version))
      ∙ p.digest (omega (arith, e, p.version, q.version));
  revoked = λ h. q.revoked (p.revoked h);
  result = λ r h. q.result r (p.result r h);
}

-- A tenant that is revoked stays so.
abbrev pub TenantEvolves : Tenant → Tenant → Type 0
TenantEvolves a b = is_active a.state ≡ false → is_active b.state ≡ false

-- Every row of the first store is in the second, as it may become.
pub record AccessEvolves (a b : AccessDb) : Type 0 where
  pub tenants :
      (i : String) (t : Tenant)
      → find_tenant i a.tenants ≡ some t
      → (t' : Tenant) × (find_tenant i b.tenants ≡ some t') × TenantEvolves t t'
  pub quotes :
      (i : String) (q : QuoteBinding)
      → find_quote_binding i a.quote_bindings ≡ some q
      → find_quote_binding i b.quote_bindings ≡ some q
  pub orders :
      (i : String) (o : OrderBinding)
      → find_binding i a.order_bindings ≡ some o
      → (o' : OrderBinding) × (find_binding i b.order_bindings ≡ some o') × BindingEvolves o o'

pub AccessEvolves-refl : (a : AccessDb) → AccessEvolves a a
AccessEvolves-refl a = record {
  tenants = λ i t h. (t, h, λ e. e);
  quotes = λ i q h. h;
  orders = λ i o h. (o, h, BindingEvolves-refl o);
}

pub AccessEvolves-trans :
    (a b c : AccessDb) → AccessEvolves a b → AccessEvolves b c → AccessEvolves a c
AccessEvolves-trans a b c p q = record {
  tenants = λ i t h.
      let (t', h', e) = p.tenants i t h in
      let (t'', h'', e') = q.tenants i t' h' in (t'', h'', λ r. e' (e r));
  quotes = λ i x h. q.quotes i x (p.quotes i x h);
  orders = λ i o h.
      let (o', h', e) = p.orders i o h in
      let (o'', h'', e') = q.orders i o' h' in (o'', h'', BindingEvolves-trans o o' o'' e e');
}

-- The digest of a binding is that of the token of its version.
abbrev pub IsIssued : Keys → OrderBinding → Type 0
IsIssued k b =
    b.token_digest ≡ delivery_digest k (delivery_token k b.tenant_id b.order_id b.token_version)

-- Tenants have distinct identifiers, and every binding was issued by this store.
pub record IsValidAccess (k : Keys) (a : AccessDb) : Type 0 where
  pub unique : Unique tenant_key a.tenants
  pub issued :
      (i : String) (o : OrderBinding) → find_binding i a.order_bindings ≡ some o → IsIssued k o

-- One operation: the store evolves, and stays valid.
pub record AccessStep (k : Keys) (a b : AccessDb) : Type 0 where
  pub evolves : AccessEvolves a b
  pub valid : IsValidAccess k b

module _ (k : Keys) (a : AccessDb) (v : IsValidAccess k a) where
  pub step-same : AccessStep k a a
  step-same = record { evolves = AccessEvolves-refl a; valid = v }

  pub step-tenant :
      (i : String) (f : Tenant → Tenant)
      → ((t : Tenant) → tenant_key (f t) ≡ tenant_key t)
      → ((t : Tenant) → TenantEvolves t (f t))
      → AccessStep k a (update_tenant i f a)
  unfolding update_tenant find_tenant
  step-tenant i f hk he = record {
    evolves = record {
      tenants = λ j t h.
          update-found tenant_key TenantEvolves i j f a.tenants t hk (λ x e. e) (λ _. he t) h;
      quotes = λ j q h. h;
      orders = λ j o h. (o, h, BindingEvolves-refl o);
    };
    valid = record {
      unique = update-Unique tenant_key i f a.tenants hk v.unique;
      issued = v.issued;
    };
  }

  pub step-new_tenant :
      (t : Tenant)
      → find_tenant t.tenant_id a.tenants ≡ none
      → AccessStep k a (record a { tenants = a.tenants ++ t ∷ [] })
  unfolding find_tenant
  step-new_tenant t h = record {
    evolves = record {
      tenants = λ j x e. (x, append-found tenant_key j a.tenants t x e, λ r. r);
      quotes = λ j q e. e;
      orders = λ j o e. (o, e, BindingEvolves-refl o);
    };
    valid = record { unique = append-Unique tenant_key t a.tenants h v.unique; issued = v.issued };
  }

  pub step-new_quote :
      (q : QuoteBinding) → AccessStep k a (record a { quote_bindings = a.quote_bindings ++ q ∷ [] })
  unfolding find_quote_binding
  step-new_quote q = record {
    evolves = record {
      tenants = λ j x e. (x, e, λ r. r);
      quotes = λ j x e. append-found quote_key j a.quote_bindings q x e;
      orders = λ j o e. (o, e, BindingEvolves-refl o);
    };
    valid = record { unique = v.unique; issued = v.issued };
  }

  pub step-new_order :
      (o : OrderBinding)
      → IsIssued k o
      → AccessStep k a (record a { order_bindings = a.order_bindings ++ o ∷ [] })
  unfolding find_binding
  step-new_order o h = record {
    evolves = record {
      tenants = λ j x e. (x, e, λ r. r);
      quotes = λ j x e. e;
      orders = λ j x e. (x, append-found order_key j a.order_bindings o x e, BindingEvolves-refl x);
    };
    valid = record {
      unique = v.unique;
      issued =
          λ j x e. found-appended order_key (IsIssued k) j a.order_bindings o x (v.issued j) h e;
    };
  }

  pub step-order :
      (i : String) (f : OrderBinding → OrderBinding)
      → ((o : OrderBinding) → order_key (f o) ≡ order_key o)
      → ((o : OrderBinding)
          → find_binding i a.order_bindings ≡ some o
          → BindingEvolves o (f o) × IsIssued k (f o))
      → AccessStep k a (update_binding i f a)
  unfolding update_binding find_binding
  step-order i f hk he = record {
    evolves = record {
      tenants = λ j x e. (x, e, λ r. r);
      quotes = λ j x e. e;
      orders = λ j o e.
          update-found order_key BindingEvolves i j f a.order_bindings o hk BindingEvolves-refl
            (λ h. (he o h).0) e;
    };
    valid = record {
      unique = v.unique;
      issued = λ j x e.
          found-updated order_key (IsIssued k) i j f a.order_bindings x hk (v.issued j)
            (λ o h. (he o h).1) e;
    };
  }

-- The audit is no part of what evolves.
pub step-audit :
    (k : Keys) (a b : AccessDb) (type : AuditType) (x y z : Option String) (t : String)
    → AccessStep k a b
    → AccessStep k a (add_audit type x y z t b)
unfolding add_audit
step-audit k a b type x y z t s = record {
  evolves = record {
    tenants = s.evolves.tenants;
    quotes = s.evolves.quotes;
    orders = s.evolves.orders;
  };
  valid = record { unique = s.valid.unique; issued = s.valid.issued };
}
