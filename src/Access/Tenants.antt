-- ===== src/Access/Tenants.antt =====
-- `provision_tenant`, `authenticate_api_key`, `rotate_api_key`, `revoke_tenant` and the derived
-- identifiers of commerce_access.py. What `secrets` generates and the clock are arguments.
use Prim.Native.String.{◌++◌ as ◌<>◌}
use vouchspec.Base.{
  String, Bool, not, ◌&&◌, ◌||◌, Option, none, some, List, [], ◌∷◌, ◌++◌, leb, ◌==◌, if◌then◌else◌,
  is_some, starts_with,
}
use vouchspec.Base.Lists.{any, first, length}
use vouchspec.Errors.{
  Result, ok, ◌>>=◌, ◌>>◌, require, reject, or_raise, invalid_tenant, tenant_conflict,
  invalid_commerce_request, authentication_failed, integrity_error,
}
use vouchspec.Text.{codes, is_tenant_id, is_api_key, is_idempotency_key}
use vouchspec.Platform.{Platform, parse_timestamp}
use vouchspec.Store.Tables.{Environment, sandbox, live}
use vouchspec.Store.Orders.{take_text}
use vouchspec.Access.Tables.{
  active, revoked, is_active, Tenant, AccessDb, Keys, tenant_provisioned, tenant_api_key_rotated,
  tenant_revoked, api_digest, token_bytes, find_tenant, tenant_active, update_tenant, add_audit,
}

abbrev pub api_key_prefix : Environment → String
api_key_prefix sandbox = "vsk_test_"
api_key_prefix live = "vsk_live_"

abbrev new_tenant : String → String → String → Tenant
new_tenant tenant_id digest t = record {
  tenant_id = tenant_id;
  api_key_digest = digest;
  state = active;
  created_at = t;
  updated_at = t;
}

-- The INSERT, with the PRIMARY KEY and UNIQUE(api_key_digest).
unfoldable pub insert_tenant : String → String → String → AccessDb → Result AccessDb
insert_tenant tenant_id digest t acc = do
  reject
      (is_some (find_tenant tenant_id acc.tenants)
        || any (λ (x : Tenant). x.api_key_digest == digest) acc.tenants)
      tenant_conflict
  ok (record acc { tenants = acc.tenants ++ new_tenant tenant_id digest t ∷ [] })

-- `provision_tenant`, with the identifier and the random bytes of the key.
unfoldable pub provision_tenant :
    Platform → Keys → String → String → String → AccessDb → Result ((String × String) × AccessDb)
provision_tenant p k identifier random t acc = do
  require (is_tenant_id identifier) invalid_tenant
  let api_key = api_key_prefix k.environment <> k.urlsafe random
  parse_timestamp p invalid_commerce_request t
  inserted ← insert_tenant identifier (api_digest k api_key) t acc
  ok ((identifier, api_key), add_audit tenant_provisioned (some identifier) none none t inserted)

-- `SELECT … WHERE api_key_digest = ?`
abbrev pub tenant_of_digest : String → List Tenant → Option Tenant
tenant_of_digest digest = first (λ (t : Tenant). t.api_key_digest == digest)

abbrev pub valid_api_key : Environment → String → Bool
valid_api_key e api_key =
    leb (length (codes api_key)) 96 && is_api_key api_key && starts_with api_key (api_key_prefix e)

-- `authenticate_api_key`; the row is found by the digest that is then compared with it.
unfoldable pub authenticate_api_key : Keys → String → AccessDb → Result String
authenticate_api_key k api_key acc = do
  let valid = valid_api_key k.environment api_key
  let candidate = api_digest k (if valid then api_key else "invalid")
  t ← or_raise (tenant_of_digest candidate acc.tenants) authentication_failed
  require (valid && is_active t.state && candidate == t.api_key_digest) authentication_failed
  ok t.tenant_id

abbrev pub rekeyed : String → String → Tenant → Tenant
rekeyed digest t x = record x { api_key_digest = digest; updated_at = t }

-- `rotate_api_key`; another tenant with the digest is the database's IntegrityError.
unfoldable pub rotate_api_key :
    Platform → Keys → String → String → String → AccessDb → Result (String × AccessDb)
rotate_api_key p k tenant_id random t acc = do
  require (is_tenant_id tenant_id) invalid_tenant
  let api_key = api_key_prefix k.environment <> k.urlsafe random
  parse_timestamp p invalid_commerce_request t
  let digest = api_digest k api_key
  require (tenant_active tenant_id acc.tenants) authentication_failed
  reject
      (any (λ (x : Tenant). x.api_key_digest == digest && not (x.tenant_id == tenant_id))
        acc.tenants)
      integrity_error
  ok (
    api_key,
    add_audit tenant_api_key_rotated (some tenant_id) none none t
        (update_tenant tenant_id (rekeyed digest t) acc),
  )

abbrev pub revoked_tenant : String → Tenant → Tenant
revoked_tenant t x = record x { state = revoked; updated_at = t }

-- `revoke_tenant`
unfoldable pub revoke_tenant : Platform → String → String → AccessDb → Result (Unit {0} × AccessDb)
revoke_tenant p tenant_id t acc = do
  parse_timestamp p invalid_commerce_request t
  require (tenant_active tenant_id acc.tenants) authentication_failed
  ok (
    tt,
    add_audit tenant_revoked (some tenant_id) none none t
        (update_tenant tenant_id (revoked_tenant t) acc),
  )

-- `derive_quote_id`
unfoldable pub derive_quote_id : Keys → String → String → Result String
unfolding take_text
derive_quote_id k tenant_id key = do
  require (is_tenant_id tenant_id && is_idempotency_key key) invalid_commerce_request
  ok ("q_" <> take_text 24 (k.hex (token_bytes k k.auth_pepper "quote-id" (tenant_id ∷ key ∷ []))))

-- `derive_order_idempotency_key`
unfoldable pub derive_order_idempotency_key : Keys → String → String → Result String
unfolding take_text
derive_order_idempotency_key k tenant_id key = do
  require (is_tenant_id tenant_id && is_idempotency_key key) invalid_commerce_request
  ok (
      "oid_"
      <> take_text 32
          (k.hex (token_bytes k k.auth_pepper "order-idempotency" (tenant_id ∷ key ∷ []))))
