-- ===== src/Access/Commands.antt =====
-- The write operations of `CommerceAccessStore` as commands, and sequences of them, each meeting the
-- commerce database as it is at its time.
use vouchspec.Base.{String, List, [], ◌∷◌}
use vouchspec.Errors.{Result, ok, err, ◌>>=◌}
use vouchspec.Platform.{Platform}
use vouchspec.Store.Tables.{Db}
use vouchspec.Access.Tables.{AccessDb, Keys}
use vouchspec.Access.Tenants.{provision_tenant, rotate_api_key, revoke_tenant}
use vouchspec.Access.Bindings.{bind_quote, bind_order}
use vouchspec.Access.Tokens.{rotate_delivery_token, revoke_delivery_token, publish_result}

-- The operations that write.
pub data AccessCommand : Type 0 where
  provision : String → String → String → AccessCommand
  rotate_key : String → String → String → AccessCommand
  revoke : String → String → AccessCommand
  bind_a_quote : String → String → String → String → AccessCommand
  bind_an_order : String → String → String → String → AccessCommand
  rotate_token : String → String → String → String → AccessCommand
  revoke_token : String → String → String → String → AccessCommand
  publish : String → String → String → AccessCommand

abbrev pub access {ℓ} : {A : Type ℓ} → Result (A × AccessDb) → Result AccessDb
access m = do r ← m; ok r.1

unfoldable pub execute_access : Platform → Keys → AccessCommand → Db → AccessDb → Result AccessDb
execute_access p k (provision i random t) db a = access (provision_tenant p k i random t a)
execute_access p k (rotate_key i random t) db a = access (rotate_api_key p k i random t a)
execute_access p k (revoke i t) db a = access (revoke_tenant p i t a)
execute_access p k (bind_a_quote i q key t) db a = bind_quote p k i q key t db a
execute_access p k (bind_an_order i o q t) db a = access (bind_order p k i o q t db a)
execute_access p k (rotate_token i o token t) db a =
    access (rotate_delivery_token p k i o token t a)
execute_access p k (revoke_token i o token t) db a =
    access (revoke_delivery_token p k i o token t a)
execute_access p k (publish o envelope t) db a = access (publish_result p o envelope t db a)

-- A transaction that raises leaves the store as it was.
abbrev pub committed : AccessDb → Result AccessDb → AccessDb
committed a (ok b) = b
committed a (err e) = a

unfoldable pub run_access : Platform → Keys → List (AccessCommand × Db) → AccessDb → AccessDb
run_access p k [] a = a
run_access p k ((c, db) ∷ cs) a = run_access p k cs (committed a (execute_access p k c db a))
