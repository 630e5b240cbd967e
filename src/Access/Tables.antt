-- ===== src/Access/Tables.antt =====
-- The tables of `CommerceAccessStore`, its keyed digests, `_audit` and `_require_active_tenant`.
use Prim.Native.String.{◌++◌ as ◌<>◌}
use vouchspec.Base.{
  ℕ, String, Bool, true, false, ◌&&◌, Option, none, some, List, [], ◌∷◌, ◌++◌, ◌==◌,
}
use vouchspec.Errors.{
  Result, ok, ◌>>◌, require, commerce_environment_mismatch, authentication_failed,
}
use vouchspec.Text.{is_tenant_id}
use vouchspec.Store.Tables.{Environment, sandbox, live, same_environment}
use vouchspec.Table.{find, update}

-- Whether a tenant or a delivery token is in use.
pub data Standing : Type 0 where
  active revoked : Standing

abbrev pub is_active : Standing → Bool
is_active active = true
is_active revoked = false

-- A row of access_tenants.
pub record Tenant : Type 0 where
  pub tenant_id : String
  pub api_key_digest : String
  pub state : Standing
  pub created_at : String
  pub updated_at : String

-- A row of access_quote_bindings.
pub record QuoteBinding : Type 0 where
  pub quote_id : String
  pub tenant_id : String
  pub idempotency_digest : String
  pub created_at : String

-- The published envelope with its digest; both columns are NULL or neither is.
pub record Published : Type 0 where
  pub sha256 : String
  pub body : String

-- A row of access_order_bindings.
pub record OrderBinding : Type 0 where
  pub order_id : String
  pub quote_id : String
  pub tenant_id : String
  pub token_version : ℕ
  pub token_digest : String
  pub token_state : Standing
  pub token_expires_at : String
  pub result : Option Published
  pub created_at : String
  pub updated_at : String

pub data AuditType : Type 0 where
  tenant_provisioned tenant_api_key_rotated tenant_revoked quote_bound order_bound : AuditType
  delivery_token_rotated delivery_token_revoked result_published : AuditType

-- A row of access_audit_events, whose outcome is always success.
pub record AuditEvent : Type 0 where
  pub event_type : AuditType
  pub tenant_id : Option String
  pub quote_id : Option String
  pub order_id : Option String
  pub observed_at : String

pub record AccessDb : Type 0 where
  pub tenants : List Tenant
  pub quote_bindings : List QuoteBinding
  pub order_bindings : List OrderBinding
  pub audit : List AuditEvent

abbrev pub empty_access : AccessDb
empty_access = record { tenants = []; quote_bindings = []; order_bindings = []; audit = [] }

-- The constructor's arguments, and what it takes from Python's library. Bytes stand as texts.
pub record Keys : Type 0 where
  pub environment : Environment
  pub auth_pepper : String
  pub delivery_secret : String
  -- `hmac.new(key, message, hashlib.sha256).digest()`
  pub hmac_sha256 : String → String → String
  -- `base64.urlsafe_b64encode(value).rstrip(b"=").decode("ascii")`
  pub urlsafe : String → String
  -- `bytes.hex()`
  pub hex : String → String
  -- `str(n)`
  pub decimal : ℕ → String

-- The metadata table of the access store.
pub record AccessMetadata : Type 0 where
  pub schema_version : String
  pub environment : Environment
  pub auth_key_id : String
  pub delivery_key_id : String

abbrev pub same_metadata : AccessMetadata → AccessMetadata → Bool
same_metadata a b =
    a.schema_version == b.schema_version
    && same_environment a.environment b.environment
    && a.auth_key_id == b.auth_key_id
    && a.delivery_key_id == b.delivery_key_id

-- `_initialize`: the commerce store must be of this environment, and the access metadata of these
-- secrets; both are written on first use.
unfoldable pub initialize_access :
    (String → String) → Keys → Environment → Option AccessMetadata → Result AccessMetadata
initialize_access sha256 k store known = do
  require (same_environment store k.environment) commerce_environment_mismatch
  let expected : AccessMetadata = record {
    schema_version = "2";
    environment = k.environment;
    auth_key_id = sha256 k.auth_pepper;
    delivery_key_id = sha256 k.delivery_secret;
  }
  elim known [
    | none ↦ ok expected
    | some m ↦ (do require (same_metadata m expected) commerce_environment_mismatch; ok m)
  ]

-- `b"\0".join(parts)`
abbrev pub joined : List String → String
joined [] = ""
joined (s ∷ []) = s
joined (s ∷ (t ∷ ts)) = s <> "\0" <> joined (t ∷ ts)

-- `_token_bytes`
unfoldable pub token_bytes : Keys → String → String → List String → String
token_bytes k secret label parts = k.hmac_sha256 secret (label <> "\0" <> joined parts)

-- `_api_digest`
unfoldable pub api_digest : Keys → String → String
api_digest k api_key = token_bytes k k.auth_pepper "api-key" (api_key ∷ [])

-- `_idempotency_digest`
unfoldable pub idempotency_digest : Keys → String → String → String
idempotency_digest k tenant_id key =
    token_bytes k k.auth_pepper "quote-idempotency" (tenant_id ∷ key ∷ [])

-- `_delivery_token`
unfoldable pub delivery_token : Keys → String → String → ℕ → String
delivery_token k tenant_id order_id version =
    elim k.environment [ sandbox ↦ "vsd_test_" | live ↦ "vsd_live_" ]
    <> k.urlsafe (
        token_bytes k k.delivery_secret "delivery-token"
          (tenant_id ∷ order_id ∷ k.decimal version ∷ []))

-- `_delivery_digest`
unfoldable pub delivery_digest : Keys → String → String
delivery_digest k token = token_bytes k k.auth_pepper "delivery-digest" (token ∷ [])

abbrev pub tenant_key : Tenant → String
tenant_key t = t.tenant_id

abbrev pub quote_key : QuoteBinding → String
quote_key b = b.quote_id

abbrev pub order_key : OrderBinding → String
order_key b = b.order_id

unfoldable pub find_tenant : String → List Tenant → Option Tenant
unfolding find
find_tenant i = find tenant_key i

unfoldable pub find_quote_binding : String → List QuoteBinding → Option QuoteBinding
unfolding find
find_quote_binding i = find quote_key i

unfoldable pub find_binding : String → List OrderBinding → Option OrderBinding
unfolding find
find_binding i = find order_key i

unfoldable pub update_tenant : String → (Tenant → Tenant) → AccessDb → AccessDb
unfolding update
update_tenant i f acc = record acc { tenants = update tenant_key i f acc.tenants }

unfoldable pub update_binding : String → (OrderBinding → OrderBinding) → AccessDb → AccessDb
unfolding update
update_binding i f acc = record acc { order_bindings = update order_key i f acc.order_bindings }

-- `_audit`
unfoldable pub add_audit :
    AuditType → Option String → Option String → Option String → String → AccessDb → AccessDb
add_audit type tenant_id quote_id order_id observed_at acc = record acc {
  audit =
      acc.audit
      ++ record {
        event_type = type;
        tenant_id = tenant_id;
        quote_id = quote_id;
        order_id = order_id;
        observed_at = observed_at;
      }
        ∷ [];
}

-- Whether the tenant has a row in the state active.
unfoldable pub tenant_active : String → List Tenant → Bool
tenant_active i tenants = elim (find_tenant i tenants) [ none ↦ false | some t ↦ is_active t.state ]

-- `_require_active_tenant`
unfoldable pub require_active_tenant : String → AccessDb → Result (Unit {0})
require_active_tenant i acc = do
  require (is_tenant_id i) authentication_failed
  require (tenant_active i acc.tenants) authentication_failed
