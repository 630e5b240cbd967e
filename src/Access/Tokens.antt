-- ===== src/Access/Tokens.antt =====
-- `authorize_order`, `rotate_delivery_token`, `revoke_delivery_token`, `publish_result`, `get_result`
-- and `audit_events` of commerce_access.py.
use vouchspec.Base.{
  ℕ, ◌+◌, String, Bool, ◌&&◌, Option, none, some, List, leb, ltb, ◌==◌, if◌then◌else◌, same_text,
}
use vouchspec.Base.Lists.{keep, length}
use vouchspec.Errors.{
  Result, ok, err, ◌>>=◌, ◌>>◌, require, or_raise, invalid_commerce_request, invalid_delivery,
  authorization_failed, result_not_ready, idempotency_conflict, value_error, assertion_error,
}
use vouchspec.Text.{codes, is_order_id, is_delivery_token}
use vouchspec.Platform.{Platform, Moment, utc, aware, parse_timestamp}
use vouchspec.Commerce.Status.{OrderStatus, same_order_status}
use vouchspec.Store.Tables.{Db, find_order}
use vouchspec.Access.Tables.{
  revoked, is_active, OrderBinding, Published, AccessDb, Keys, AuditEvent, delivery_token_rotated,
  delivery_token_revoked, result_published, delivery_token, delivery_digest, find_binding,
  tenant_active, update_binding, add_audit,
}
use vouchspec.Access.Bindings.{delivery_token_ttl}

-- The binding of an order, if it belongs to the tenant and the tenant is active.
unfoldable pub owned_binding : String → String → AccessDb → Option OrderBinding
owned_binding tenant_id order_id acc = elim (find_binding order_id acc.order_bindings) [
  | none ↦ none
  | some b ↦
      if b.tenant_id == tenant_id && tenant_active tenant_id acc.tenants then some b else none
]

-- What `authorize_order` returns.
pub record Grant : Type 0 where
  pub tenant_id : String
  pub order_id : String
  pub quote_id : String
  pub token_version : ℕ
  pub token_expires_at : String
  pub result_sha256 : Option String

abbrev pub valid_token : String → Bool
valid_token token = leb (length (codes token)) 64 && is_delivery_token token

abbrev pub grant_of : OrderBinding → Grant
grant_of b = record {
  tenant_id = b.tenant_id;
  order_id = b.order_id;
  quote_id = b.quote_id;
  token_version = b.token_version;
  token_expires_at = b.token_expires_at;
  result_sha256 = elim b.result [ none ↦ none | some r ↦ some r.sha256 ];
}

-- The refusal when there is no row, and the checks against the row otherwise.
unfoldable pub check_binding : Platform → Keys → String → ℕ → Option OrderBinding → Result Grant
check_binding p k token moment none = err authorization_failed
check_binding p k token moment (some b) = do
  let valid = valid_token token
  let candidate = delivery_digest k (if valid then token else "invalid")
  expiry ← parse_timestamp p invalid_commerce_request b.token_expires_at
  require (valid && is_active b.token_state && candidate == b.token_digest && ltb moment expiry)
      authorization_failed
  ok (grant_of b)

-- `authorize_order`; without a row its comparison is with a dummy, and it is refused all the same.
unfoldable pub authorize_order :
    Platform → Keys → String → String → String → Moment → AccessDb → Result Grant
authorize_order p k tenant_id order_id token now acc = do
  moment ← aware value_error now
  check_binding p k token moment (owned_binding tenant_id order_id acc)

abbrev pub belongs : String → Option OrderBinding → Option OrderBinding
belongs tenant_id none = none
belongs tenant_id (some b) = if b.tenant_id == tenant_id then some b else none

-- `SELECT … WHERE order_id = ? AND tenant_id = ?`
unfoldable pub tenant_binding : String → String → AccessDb → Option OrderBinding
tenant_binding tenant_id order_id acc = belongs tenant_id (find_binding order_id acc.order_bindings)

abbrev pub retokened : ℕ → String → String → String → OrderBinding → OrderBinding
retokened version digest expires_at t b = record b {
  token_version = version;
  token_digest = digest;
  token_expires_at = expires_at;
  updated_at = t;
}

-- `rotate_delivery_token`
unfoldable pub rotate_delivery_token :
    Platform → Keys → String → String → String → String → AccessDb → Result (String × AccessDb)
rotate_delivery_token p k tenant_id order_id current_token t acc = do
  updated ← parse_timestamp p invalid_commerce_request t
  authorize_order p k tenant_id order_id current_token (utc updated) acc
  b ← or_raise (tenant_binding tenant_id order_id acc) assertion_error
  require (is_active b.token_state && delivery_digest k current_token == b.token_digest)
      authorization_failed
  let version = b.token_version + 1
  let token = delivery_token k tenant_id order_id version
  let expires_at = p.isoformat (updated + delivery_token_ttl)
  ok (
    token,
    add_audit delivery_token_rotated (some tenant_id) (some b.quote_id) (some order_id) t
        (update_binding order_id (retokened version (delivery_digest k token) expires_at t) acc),
  )

abbrev pub token_revoked : String → OrderBinding → OrderBinding
token_revoked t b = record b { token_state = revoked; updated_at = t }

-- `revoke_delivery_token`
unfoldable pub revoke_delivery_token :
    Platform → Keys → String → String → String → String → AccessDb → Result (Unit {0} × AccessDb)
revoke_delivery_token p k tenant_id order_id current_token t acc = do
  updated ← parse_timestamp p invalid_commerce_request t
  authorize_order p k tenant_id order_id current_token (utc updated) acc
  b ← or_raise (tenant_binding tenant_id order_id acc) authorization_failed
  require (is_active b.token_state && b.token_digest == delivery_digest k current_token)
      authorization_failed
  ok (
    tt,
    add_audit delivery_token_revoked (some tenant_id) (some b.quote_id) (some order_id) t
        (update_binding order_id (token_revoked t) acc),
  )

-- `MAX_RESULT_BYTES`
abbrev max_result_bytes : ℕ
max_result_bytes = 1_000_000

abbrev pub published : String → String → String → OrderBinding → OrderBinding
published digest envelope t b = record b {
  result = some (record { sha256 = digest; body = envelope });
  updated_at = t;
}

-- A result that is published stays as it is.
unfoldable pub bind_result :
    Option Published → OrderBinding → String → String → String → AccessDb → Result AccessDb
bind_result (some r) b digest envelope t acc = do
  require (r.sha256 == digest && r.body == envelope) idempotency_conflict
  ok acc
bind_result none b digest envelope t acc = ok (
    add_audit result_published (some b.tenant_id) (some b.quote_id) (some b.order_id) t
      (update_binding b.order_id (published digest envelope t) acc))

-- `publish_result`
unfoldable pub publish_result :
    Platform → String → String → String → Db → AccessDb → Result (String × AccessDb)
publish_result p order_id envelope t db acc = do
  require (is_order_id order_id) invalid_delivery
  require (leb 1 (length (codes envelope)) && leb (length (codes envelope)) max_result_bytes)
      invalid_delivery
  let digest = p.sha256 envelope
  parse_timestamp p invalid_commerce_request t
  o ← or_raise (find_order order_id db.orders) result_not_ready
  b ← or_raise (find_binding order_id acc.order_bindings) result_not_ready
  require (same_order_status o.order_status OrderStatus.delivered) result_not_ready
  require (same_text o.envelope_sha256 (some digest)) invalid_delivery
  after ← bind_result b.result b digest envelope t acc
  ok (digest, after)

-- `get_result`
unfoldable pub get_result :
    Platform → Keys → String → String → String → Moment → AccessDb → Result String
get_result p k tenant_id order_id token now acc = do
  authorize_order p k tenant_id order_id token now acc
  b ← or_raise (tenant_binding tenant_id order_id acc) result_not_ready
  r ← or_raise b.result result_not_ready
  ok r.body

-- `audit_events`
unfoldable pub audit_events : Option String → AccessDb → List AuditEvent
audit_events none acc = acc.audit
audit_events (some order_id) acc =
    keep (λ (e : AuditEvent). same_text e.order_id (some order_id)) acc.audit
