-- ===== src/Paid/Schema.antt =====
-- `_initialize` of paid_lifecycle.py: the metadata that binds the tables to an environment.
use vouchspec.Base.{◌&&◌, ◌==◌, some, none, Option, String}
use vouchspec.Store.Tables.{same_environment, Environment}
use vouchspec.Errors.{◌>>◌, ok, commerce_environment_mismatch, require, Result}

-- The rows schema_version and environment of paid_lifecycle_metadata.
pub record PaidMetadata : Type 0 where
  pub schema_version : String
  pub environment : Environment

-- The store must be of the expected environment, and so must the tables, if they were made before.
unfoldable pub initialize_paid :
    Environment → Environment → Option PaidMetadata → Result PaidMetadata
initialize_paid stored expected known = do
  require (same_environment stored expected) commerce_environment_mismatch
  elim known [
    | none ↦ ok (record { schema_version = "1"; environment = expected })
    | some m ↦ (do
      require (m.schema_version == "1" && same_environment m.environment expected)
          commerce_environment_mismatch
      ok m)
  ]
