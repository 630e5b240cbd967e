-- ===== src/Access/Examples.antt =====
-- One tenant with one order, from its binding to its revocation.
use vouchspec.Base.{
  true, ltb, ◌<◌, ℕ, ◌↔◌, List, subst, arith, inr, inl, Bool-cases, refl, [], ◌∷◌, some, none, eqb,
  if◌then◌else◌, ◌==◌, String, ◌↔◌, List, subst, arith, inr, inl, Bool-cases, refl, [], ◌∷◌, some,
  none, eqb, if◌then◌else◌, ◌==◌, String, ◌≡◌,
}
use vouchspec.Access.Tables.{
  initialize_access, AccessMetadata, revoked, find_quote_binding, require_active_tenant,
  update_binding, add_audit, update_tenant, order_bound, delivery_token_rotated, tenant_revoked,
  token_bytes, tenant_active, find_tenant, find_binding, AccessDb, Tenant, active, delivery_token,
  delivery_digest, OrderBinding, Keys, token_bytes, tenant_active, find_tenant, find_binding,
  AccessDb, Tenant, active, delivery_token, delivery_digest, OrderBinding, Keys,
}
use vouchspec.Store.Tables.{find_order, empty_store, Db, sandbox, empty_store, Db, sandbox}
use vouchspec.Store.Sample.{delivered_order, operations, sample}
use vouchspec.Access.Evolution.{
  AccessEvolves, IsIssued, IsValidAccess, AccessEvolves, IsIssued, IsValidAccess,
}
use vouchspec.Table.{update, find, find}
use vouchspec.Access.Commands.{run_access, AccessCommand, run_access, AccessCommand}
use vouchspec.Access.Lockout.{
  revoke_tenant-IsLockedOut, IsLockedOut, run_access-AccessEvolves, run_access-AccessEvolves,
}
use vouchspec.Access.Tokens.{
  grant_of, rotate_delivery_token, Grant, tenant_binding, owned_binding, check_binding,
  authorize_order, Grant, tenant_binding, owned_binding, check_binding, authorize_order,
}
use vouchspec.Text.{is_quote_id, is_order_id, is_tenant_id, is_delivery_token, is_delivery_token}
use vouchspec.Platform.{utc, without_zulu, parse_timestamp, utc, without_zulu, parse_timestamp}
use vouchspec.Errors.{
  chains, authorization_failed, invalid_commerce_request, ok, chains, ok, chains,
}
use vouchspec.Access.Authority.{
  authorize_order-refusal, authorize_order-IsAuthorized, IsAuthorized, authorize_order-IsAuthorized,
  IsAuthorized,
}
use vouchspec.Access.Tenants.{revoke_tenant}
use vouchspec.Access.Capabilities.{bind_order-opens, rotate_delivery_token-supersedes}
use vouchspec.Access.Bindings.{bind_new_order, bind_order}
use vouchspec.Access.Opening.{open_access-IsOpened, open_access, IsOpened}

abbrev tenant_id : String
tenant_id = "ten_0123456789abcdef01234567"

abbrev order_id : String
order_id = "ord_test_0123456789abcdef01234567"

abbrev quote_id : String
quote_id = "q_0123456789abcdef01234567"

-- A commerce store with the delivered order.
abbrev commerce : Db
commerce = record (empty_store sandbox) {
  orders = record delivered_order { order_id = order_id } ∷ [];
}

abbrev first_token : String
first_token = "vsd_test_AAAAAAAAAAAAAAAAAAAAAAAAAAAAAAAAAAAAAAAAAAA"

abbrev second_token : String
second_token = "vsd_test_BBBBBBBBBBBBBBBBBBBBBBBBBBBBBBBBBBBBBBBBBBB"

abbrev first_message : String
first_message = "delivery-token\0ten_0123456789abcdef01234567\0ord_test_0123456789abcdef01234567\01"

abbrev keys : Keys
keys = record {
  environment = sandbox;
  auth_pepper = "pepper";
  delivery_secret = "secret";
  hmac_sha256 = λ k m. m;
  urlsafe = λ m.
      if m == first_message
      then "AAAAAAAAAAAAAAAAAAAAAAAAAAAAAAAAAAAAAAAAAAA"
      else "BBBBBBBBBBBBBBBBBBBBBBBBBBBBBBBBBBBBBBBBBBB";
  hex = λ s. s;
  decimal = λ n. if eqb n 1 then "1" else "2";
}

abbrev first_binding : OrderBinding
first_binding = record {
  order_id = order_id;
  quote_id = quote_id;
  tenant_id = tenant_id;
  token_version = 1;
  token_digest = delivery_digest keys (delivery_token keys tenant_id order_id 1);
  token_state = active;
  token_expires_at = "late";
  result = none;
  created_at = "early";
  updated_at = "early";
}

abbrev tenant : Tenant
tenant = record {
  tenant_id = tenant_id;
  api_key_digest = "api";
  state = active;
  created_at = "early";
  updated_at = "early";
}

-- The tenant's quote is bound, its order is not.
abbrev quoted : AccessDb
quoted = record {
  tenants = tenant ∷ [];
  quote_bindings =
      record {
        quote_id = quote_id;
        tenant_id = tenant_id;
        idempotency_digest = "key";
        created_at = "early";
      }
      ∷ [];
  order_bindings = [];
  audit = [];
}

abbrev bound : AccessDb
bound = record quoted { order_bindings = first_binding ∷ [] }

bound-IsValidAccess : IsValidAccess keys bound
unfolding find find_binding
bound-IsValidAccess = record { unique = (refl, tt); issued = λ i o h. issued_one i o h }
  where
    issued_one :
        (i : String) (o : OrderBinding)
        → find_binding i bound.order_bindings ≡ some o
        → IsIssued keys o
    issued_one i o h = elim (Bool-cases (order_id == i)) [
      | inl e ↦
          let same : first_binding ≡ o = ground (arith, h, e) in subst (IsIssued keys) same refl
      | inr e ↦ absurd (ground (arith, h, e))
    ]

abbrev commands : List (AccessCommand × Db)
commands =
    (AccessCommand.rotate_token tenant_id order_id first_token "early", commerce)
    ∷ (AccessCommand.revoke_token tenant_id order_id second_token "early", commerce)
    ∷ []

run_access-AccessEvolves_example : AccessEvolves bound (run_access sample keys commands bound)
run_access-AccessEvolves_example =
    run_access-AccessEvolves sample keys commands bound bound-IsValidAccess

unfoldable access_operations : Unit {0}
unfolding operations authorize_order check_binding owned_binding tenant_binding find find_binding
    find_tenant tenant_active delivery_digest delivery_token token_bytes is_delivery_token
    parse_timestamp without_zulu chains
access_operations = tt

abbrev opened : Grant
opened = record {
  tenant_id = tenant_id;
  order_id = order_id;
  quote_id = quote_id;
  token_version = 1;
  token_expires_at = "late";
  result_sha256 = none;
}

first_token-opens :
    authorize_order sample keys tenant_id order_id first_token (utc 5) bound ≡ ok opened
unfolding access_operations
first_token-opens = refl

authorize_order-IsAuthorized_example :
    (authorize_order sample keys tenant_id order_id first_token (utc 5) bound ≡ ok opened)
    ↔ IsAuthorized sample keys tenant_id order_id first_token 5 bound opened
authorize_order-IsAuthorized_example =
    authorize_order-IsAuthorized sample keys tenant_id order_id first_token 5 bound opened

-- The refusal of a token that was not issued.
authorize_order-refusal_example : authorization_failed ≡ authorization_failed
unfolding access_operations
authorize_order-refusal_example =
    authorize_order-refusal sample keys tenant_id order_id second_token 5 bound timed
      authorization_failed refl
  where
    timed :
        (b : OrderBinding)
        → find_binding order_id bound.order_bindings ≡ some b
        → (e : ℕ) × (parse_timestamp sample invalid_commerce_request b.token_expires_at ≡ ok e)
    timed b h =
        let same : first_binding ≡ b = cc h in
        subst
          (λ (x : OrderBinding).
            (e : ℕ) × (parse_timestamp sample invalid_commerce_request x.token_expires_at ≡ ok e))
          same (1_000, refl)

abbrev without_tenant : AccessDb
without_tenant = record bound {
  tenants = record tenant { state = revoked } ∷ [];
  audit =
      record {
        event_type = tenant_revoked;
        tenant_id = some tenant_id;
        quote_id = none;
        order_id = none;
        observed_at = "early";
      }
      ∷ [];
}

revoke_tenant-IsLockedOut_example :
    IsLockedOut sample keys tenant_id (run_access sample keys commands without_tenant)
unfolding access_operations revoke_tenant update_tenant update add_audit
revoke_tenant-IsLockedOut_example =
    revoke_tenant-IsLockedOut sample keys commands bound without_tenant tenant_id "early"
      bound-IsValidAccess refl

abbrev rotated : AccessDb
rotated = record bound {
  order_bindings =
      record first_binding {
        token_version = 2;
        token_digest = delivery_digest keys (delivery_token keys tenant_id order_id 2);
      }
      ∷ [];
  audit =
      record {
        event_type = delivery_token_rotated;
        tenant_id = some tenant_id;
        quote_id = some quote_id;
        order_id = some order_id;
        observed_at = "early";
      }
      ∷ [];
}

rotate_delivery_token-supersedes_example :
    (1 < 2)
    × (delivery_digest keys second_token
        ≡ delivery_digest keys (delivery_token keys tenant_id order_id 2))
unfolding access_operations rotate_delivery_token update_binding update add_audit run_access
rotate_delivery_token-supersedes_example =
    rotate_delivery_token-supersedes sample keys [] bound rotated tenant_id order_id first_token
      second_token "early" second_token first_binding 5 (record opened { token_version = 2 })
      bound-IsValidAccess refl refl refl

abbrev ordered : AccessDb
ordered = record bound {
  audit =
      record {
        event_type = order_bound;
        tenant_id = some tenant_id;
        quote_id = some quote_id;
        order_id = some order_id;
        observed_at = "early";
      }
      ∷ [];
}

bind_order-opens_example :
    (x : OrderBinding) × (find_binding order_id ordered.order_bindings ≡ some x)
    × (authorize_order sample keys tenant_id order_id first_token (utc 5) ordered ≡ ok (grant_of x))
unfolding access_operations bind_order bind_new_order require_active_tenant find_order
    find_quote_binding is_tenant_id is_order_id is_quote_id add_audit
bind_order-opens_example =
    bind_order-opens sample keys tenant_id order_id quote_id "early" first_token commerce quoted
      ordered 5 refl refl timed
  where
    timed :
        (b : OrderBinding)
        → find_binding order_id ordered.order_bindings ≡ some b
        → (e : ℕ) × (parse_timestamp sample invalid_commerce_request b.token_expires_at ≡ ok e)
          × (ltb 5 e ≡ true)
    timed b h =
        let same : first_binding ≡ b = cc h in
        subst
          (λ (x : OrderBinding).
            (e : ℕ) × (parse_timestamp sample invalid_commerce_request x.token_expires_at ≡ ok e)
            × (ltb 5 e ≡ true))
          same (1_000, refl, refl)

abbrev long_keys : Keys
long_keys = record keys {
  auth_pepper = "pepper-0123456789-0123456789-0123456789";
  delivery_secret = "secret-0123456789-0123456789-0123456789";
}

abbrev metadata : AccessMetadata
metadata = record {
  schema_version = "2";
  environment = sandbox;
  auth_key_id = "pepper-0123456789-0123456789-0123456789";
  delivery_key_id = "secret-0123456789-0123456789-0123456789";
}

open_access-IsOpened_example : IsOpened (λ s. s) long_keys sandbox metadata
unfolding open_access initialize_access chains
open_access-IsOpened_example =
    open_access-IsOpened (λ s. s) long_keys sandbox (some metadata) metadata refl
