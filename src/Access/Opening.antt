-- ===== src/Access/Opening.antt =====
-- The constructor of `CommerceAccessStore`: its secrets and its metadata.
use vouchspec.Base.{
  text-eq, arith, and-true, subst, sym, false, none, text_refl, refl, ◌==◌, leb, some, Option, true,
  Bool, String, ◌≡◌,
}
use vouchspec.Access.Tables.{same_metadata, initialize_access, AccessMetadata, Keys}
use vouchspec.Store.Tables.{live, sandbox, same_environment, Environment}
use vouchspec.Errors.{
  chains, commerce_environment_mismatch, ◌>>◌, ok, commerce_store_missing, value_error, reject,
  require, Result,
}
use vouchspec.Base.Lists.{length}
use vouchspec.Text.{codes}
use vouchspec.Errors.Ensures.{Ensures-ok, Ensures-reject, Ensures-require, Ensures}

-- The checks of the secrets, the existence of the store's file, and `_initialize`.
unfoldable pub open_access :
    (String → String) → Keys → Bool → Environment → Option AccessMetadata → Result AccessMetadata
open_access sha256 k exists store known = do
  require (leb 32 (length (codes k.auth_pepper))) value_error
  require (leb 32 (length (codes k.delivery_secret))) value_error
  reject (k.auth_pepper == k.delivery_secret) value_error
  require exists commerce_store_missing
  initialize_access sha256 k store known

same_environment_refl : (e : Environment) → same_environment e e ≡ true
same_environment_refl sandbox = refl
same_environment_refl live = refl

same_environment-eq : (e f : Environment) → same_environment e f ≡ true → e ≡ f
same_environment-eq sandbox f h = ground (arith, h)
same_environment-eq live f h = ground (arith, h)

same_metadata_refl : (m : AccessMetadata) → same_metadata m m ≡ true
same_metadata_refl m = rw (text_refl m.schema_version) (
    rw (same_environment_refl m.environment)
      (rw (text_refl m.auth_key_id) (rw (text_refl m.delivery_key_id) refl)))

same_metadata-eq : (m n : AccessMetadata) → same_metadata m n ≡ true → m ≡ n
same_metadata-eq m n h =
    let (names, delivery) = and-true _ _ h in
    let (scope, auth) = and-true _ _ names in
    let (version, environment) = and-true _ _ scope in
    let version' = text-eq m.schema_version n.schema_version version in
    let environment' = same_environment-eq m.environment n.environment environment in
    let auth' = text-eq m.auth_key_id n.auth_key_id auth in
    let delivery' = text-eq m.delivery_key_id n.delivery_key_id delivery in
    λ i. record {
      schema_version = version' i;
      environment = environment' i;
      auth_key_id = auth' i;
      delivery_key_id = delivery' i;
    }

-- What the metadata of an opened store says.
pub record IsOpened (sha256 : String → String) (k : Keys) (store : Environment) (m : AccessMetadata)
    : Type 0 where
  pub again : open_access sha256 k true store (some m) ≡ ok m
  pub environment : m.environment ≡ k.environment
  pub auth : m.auth_key_id ≡ sha256 k.auth_pepper
  pub delivery : m.delivery_key_id ≡ sha256 k.delivery_secret

module _ (sha256 : String → String) (k : Keys) (store : Environment)
    (pepper : leb 32 (length (codes k.auth_pepper)) ≡ true)
    (secret : leb 32 (length (codes k.delivery_secret)) ≡ true)
    (differ : (k.auth_pepper == k.delivery_secret) ≡ false) where
  abbrev expected : AccessMetadata
  expected = record {
    schema_version = "2";
    environment = k.environment;
    auth_key_id = sha256 k.auth_pepper;
    delivery_key_id = sha256 k.delivery_secret;
  }

  expected-IsOpened : same_environment store k.environment ≡ true → IsOpened sha256 k store expected
  unfolding open_access initialize_access chains
  expected-IsOpened matching = record {
    again =
        let same = same_metadata_refl expected in
        rw pepper (rw secret (rw differ (rw matching (rw same refl))));
    environment = refl;
    auth = refl;
    delivery = refl;
  }

  initialized :
      (known : Option AccessMetadata)
      → Ensures (IsOpened sha256 k store) (initialize_access sha256 k store known)
  unfolding initialize_access
  initialized known = Ensures-require _ _ _ λ matching. by_known (expected-IsOpened matching) known
    where
      by_known :
          IsOpened sha256 k store expected
          → (known : Option AccessMetadata)
          → Ensures (IsOpened sha256 k store) (elim known as (λ _. Result AccessMetadata) [
            | none ↦ ok expected
            | some m ↦ (do require (same_metadata m expected) commerce_environment_mismatch; ok m)
          ])
      by_known o none = Ensures-ok expected o
      by_known o (some m) = Ensures-require _ _ _ λ same.
          Ensures-ok m (subst (IsOpened sha256 k store) (sym (same_metadata-eq m expected same)) o)

opened :
    (sha256 : String → String) (k : Keys) (store : Environment) (known : Option AccessMetadata)
    → Ensures (IsOpened sha256 k store) (open_access sha256 k true store known)
unfolding open_access
opened sha256 k store known = Ensures-require _ _ _ λ a.
    Ensures-require _ _ _ λ b.
      Ensures-reject _ _ _ λ c. Ensures-require _ _ _ λ _. initialized sha256 k store a b c known

-- The stored metadata of an access store that was opened names its environment and the digests of its two secrets, and the store opens again with the same secrets and environment, with the same metadata.
pub open_access-IsOpened :
    (sha256 : String → String) (k : Keys) (store : Environment) (known : Option AccessMetadata)
    (m : AccessMetadata)
    → open_access sha256 k true store known ≡ ok m
    → IsOpened sha256 k store m
open_access-IsOpened sha256 k store known m = (opened sha256 k store known).result m
