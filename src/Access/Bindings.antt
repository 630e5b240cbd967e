-- ===== src/Access/Bindings.antt =====
-- `bind_quote`, `bind_order` and the queries on bindings of commerce_access.py.
use vouchspec.Base.{
  ℕ, ◌+◌, ◌*◌, String, Bool, false, ◌&&◌, Option, none, some, [], ◌∷◌, ◌++◌, ◌==◌, if◌then◌else◌,
  is_some,
}
use vouchspec.Base.Lists.{any, first, number_of}
use vouchspec.Errors.{
  Result, ok, ◌>>=◌, ◌>>◌, require, reject, invalid_commerce_request, object_not_found,
  authorization_failed, integrity_error, value_error,
}
use vouchspec.Text.{is_quote_id, is_order_id, is_idempotency_key, is_ascii}
use vouchspec.Platform.{Platform, parse_timestamp}
use vouchspec.Commerce.Quote.{minutes}
use vouchspec.Store.Tables.{Db, find_order}
use vouchspec.Store.Quotes.{find_quote}
use vouchspec.Access.Tables.{
  active, is_active, QuoteBinding, OrderBinding, AccessDb, Keys, quote_bound, order_bound,
  idempotency_digest, delivery_token, delivery_digest, find_quote_binding, find_binding,
  tenant_active, require_active_tenant, add_audit,
}

-- The INSERT, with UNIQUE(tenant_id, idempotency_digest).
unfoldable pub insert_quote_binding : QuoteBinding → AccessDb → Result AccessDb
insert_quote_binding b acc = do
  reject
      (any
        (λ (x : QuoteBinding).
          x.tenant_id == b.tenant_id && x.idempotency_digest == b.idempotency_digest)
        acc.quote_bindings)
      authorization_failed
  ok (record acc { quote_bindings = acc.quote_bindings ++ b ∷ [] })

-- A quote that is bound must be bound to this tenant under this key; otherwise it is bound now.
unfoldable pub bind_new_quote : Option QuoteBinding → QuoteBinding → AccessDb → Result AccessDb
bind_new_quote (some existing) b acc = do
  require (existing.tenant_id == b.tenant_id && existing.idempotency_digest == b.idempotency_digest)
      authorization_failed
  ok acc
bind_new_quote none b acc = do
  inserted ← insert_quote_binding b acc
  ok (add_audit quote_bound (some b.tenant_id) (some b.quote_id) none b.created_at inserted)

-- `bind_quote`; a tenant identifier outside ASCII is the UnicodeEncodeError of the digest.
unfoldable pub bind_quote :
    Platform → Keys → String → String → String → String → Db → AccessDb → Result AccessDb
bind_quote p k tenant_id quote_id key t db acc = do
  require (is_quote_id quote_id && is_idempotency_key key) invalid_commerce_request
  require (is_ascii tenant_id) value_error
  parse_timestamp p invalid_commerce_request t
  require_active_tenant tenant_id acc
  require (is_some (find_quote quote_id db.quotes)) object_not_found
  bind_new_quote (find_quote_binding quote_id acc.quote_bindings)
      (record {
        quote_id = quote_id;
        tenant_id = tenant_id;
        idempotency_digest = idempotency_digest k tenant_id key;
        created_at = t;
      })
      acc

-- The binding of a quote, if it belongs to the tenant and the tenant is active.
unfoldable pub owned_quote : String → String → AccessDb → Bool
owned_quote tenant_id quote_id acc = elim (find_quote_binding quote_id acc.quote_bindings) [
  | none ↦ false
  | some b ↦ b.tenant_id == tenant_id && tenant_active tenant_id acc.tenants
]

-- `authorize_quote`
unfoldable pub authorize_quote : String → String → AccessDb → Result (Unit {0})
authorize_quote tenant_id quote_id acc =
    require (owned_quote tenant_id quote_id acc) authorization_failed

-- `quote_owned`
unfoldable pub quote_owned : String → String → AccessDb → Bool
unfolding owned_quote
quote_owned tenant_id quote_id acc = owned_quote tenant_id quote_id acc

-- `order_for_quote`
unfoldable pub order_for_quote : String → String → AccessDb → Option String
order_for_quote tenant_id quote_id acc =
    elim (first (λ (b : OrderBinding). b.quote_id == quote_id && b.tenant_id == tenant_id)
      acc.order_bindings) [
        | none ↦ none
        | some b ↦ if tenant_active tenant_id acc.tenants then some b.order_id else none
      ]

-- `tenant_resource_counts`: quotes, then orders.
unfoldable pub tenant_resource_counts : String → AccessDb → Result (ℕ × ℕ)
tenant_resource_counts tenant_id acc = do
  require_active_tenant tenant_id acc
  ok (
    number_of (λ (b : QuoteBinding). b.tenant_id == tenant_id) acc.quote_bindings,
    number_of (λ (b : OrderBinding). b.tenant_id == tenant_id) acc.order_bindings,
  )

-- `DELIVERY_TOKEN_TTL`, in microseconds.
abbrev pub delivery_token_ttl : ℕ
delivery_token_ttl = minutes (30 * 24 * 60)

-- The quote is bound to the tenant, and the order is on the quote.
abbrev pub order_of_tenant : String → String → String → Db → AccessDb → Bool
order_of_tenant tenant_id order_id quote_id db acc =
    elim (find_quote_binding quote_id acc.quote_bindings) [
      | none ↦ false
      | some b ↦ b.tenant_id == tenant_id
    ]
    && elim (find_order order_id db.orders) [ none ↦ false | some o ↦ o.quote_id == quote_id ]

abbrev pub new_binding : Keys → String → String → String → String → String → OrderBinding
new_binding k tenant_id order_id quote_id expires_at t = record {
  order_id = order_id;
  quote_id = quote_id;
  tenant_id = tenant_id;
  token_version = 1;
  token_digest = delivery_digest k (delivery_token k tenant_id order_id 1);
  token_state = active;
  token_expires_at = expires_at;
  result = none;
  created_at = t;
  updated_at = t;
}

-- A binding that exists gives its current token again; otherwise the order is bound at version 1.
-- UNIQUE(quote_id) is the database's IntegrityError.
unfoldable pub bind_new_order :
    Keys → Option OrderBinding → OrderBinding → AccessDb → Result (String × AccessDb)
bind_new_order k (some existing) b acc = do
  require (existing.tenant_id == b.tenant_id && existing.quote_id == b.quote_id)
      authorization_failed
  require (is_active existing.token_state) authorization_failed
  let token = delivery_token k b.tenant_id b.order_id existing.token_version
  require (delivery_digest k token == existing.token_digest) authorization_failed
  ok (token, acc)
bind_new_order k none b acc = do
  reject (any (λ (x : OrderBinding). x.quote_id == b.quote_id) acc.order_bindings) integrity_error
  ok (
    delivery_token k b.tenant_id b.order_id 1,
    add_audit order_bound (some b.tenant_id) (some b.quote_id) (some b.order_id) b.created_at
        (record acc { order_bindings = acc.order_bindings ++ b ∷ [] }),
  )

-- `bind_order`
unfoldable pub bind_order :
    Platform → Keys → String → String → String → String → Db → AccessDb → Result (String × AccessDb)
bind_order p k tenant_id order_id quote_id t db acc = do
  require (is_order_id order_id && is_quote_id quote_id) invalid_commerce_request
  created ← parse_timestamp p invalid_commerce_request t
  require_active_tenant tenant_id acc
  require (order_of_tenant tenant_id order_id quote_id db acc) authorization_failed
  bind_new_order k (find_binding order_id acc.order_bindings)
      (new_binding k tenant_id order_id quote_id (p.isoformat (created + delivery_token_ttl)) t) acc
