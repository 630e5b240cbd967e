-- ===== src/Stripe/Configuration.antt =====
-- The constructor of `StripePaymentAdapter` and `_initialize_state`: which configurations are accepted.
use vouchspec.Base.{
  text-eq, arith, inr, inl, Bool-cases, ◌≡◌, not, ◌==◌, if◌then◌else◌, false, true, none, some,
  starts_with, ◌||◌, ◌&&◌, leb, Bool, String, Option,
}
use vouchspec.Json.{at_is_text, Json}
use vouchspec.Base.Lists.{all, length}
use vouchspec.Text.{is_account_id, codes}
use vouchspec.Store.Tables.{same_environment, live, sandbox, Environment}
use vouchspec.Stripe.Objects.{is_bool_at, as_dict, configured_url, Url}
use vouchspec.Errors.{
  ◌>>◌, ◌>>=◌, commerce_environment_mismatch, stripe_account_mismatch, stripe_api_error, err, ok,
  runtime_error, require, value_error, or_raise, Result,
}
use vouchspec.Errors.Ensures.{Ensures-ok, Ensures-bind, Ensures-require, Ensures-or_raise, Ensures}

-- Where the account object comes from: it is given, it is missing beside a given client, or it is
-- retrieved, where `none` is a `StripeError`.
pub data AccountSource : Type 0 where
  injected : Json → AccountSource
  missing : AccountSource
  retrieved : Option Json → AccountSource

-- The arguments of the constructor, and the versions of the installed SDK.
pub record Configuration : Type 0 where
  pub mode : String
  pub api_key : String
  pub webhook_secret : String
  pub expected_account_id : String
  pub success_url : String
  pub cancel_url : String
  pub live_checkout_enabled : Bool
  pub account : AccountSource
  pub sdk_version : String
  pub api_version : String

-- A printable secret with its prefix.
abbrev is_secret : String → String → Bool
is_secret prefix s =
    leb 16 (length (codes s))
    && leb (length (codes s)) 256
    && starts_with s prefix
    && all (λ c. leb b'!' c && leb c b'~') (codes s)

abbrev mode_environment : String → Option Environment
mode_environment mode =
    if mode == "test" then some sandbox else if mode == "live" then some live else none

abbrev is_live : Environment → Bool
is_live live = true
is_live sandbox = false

-- The checks of the arguments, in their order.
unfoldable pub check_arguments :
    (String → Option Url)
    → (String → String → Bool)
    → Environment
    → Configuration
    → Result Environment
check_arguments urlsplit occurs store c = do
  e ← or_raise (mode_environment c.mode) value_error
  require (same_environment store e) value_error
  require (is_secret (elim e [ sandbox ↦ "sk_test_" | live ↦ "sk_live_" ]) c.api_key) value_error
  require (is_secret "whsec_" c.webhook_secret) value_error
  require (not (is_live e) || c.live_checkout_enabled) value_error
  require (is_account_id c.expected_account_id) value_error
  require (c.sdk_version == "15.3.0" && c.api_version == "2026-06-24.dahlia") runtime_error
  configured_url urlsplit occurs true c.success_url
  configured_url urlsplit occurs false c.cancel_url
  ok e

-- The account object.
abbrev account_of : AccountSource → Result Json
account_of (injected j) = ok j
account_of missing = err value_error
account_of (retrieved none) = err stripe_api_error
account_of (retrieved (some j)) = ok j

-- The account must be the expected one, and enabled.
unfoldable pub check_account : Environment → String → Json → Result (Unit {0})
check_account e expected j = do
  account ← as_dict (some j)
  require
      (at_is_text "object" "account" account
        && at_is_text "id" expected account
        && is_bool_at "charges_enabled" true account
        && is_bool_at "details_submitted" true account
        && (not (is_live e) || is_bool_at "payouts_enabled" true account))
      stripe_account_mismatch

-- The rows of stripe_metadata.
pub record StripeMetadata : Type 0 where
  pub schema_version : String
  pub environment : Environment
  pub mode : String
  pub stripe_sdk_version : String
  pub stripe_api_version : String
  pub stripe_account_id : String

abbrev same_state : StripeMetadata → StripeMetadata → Bool
same_state a b =
    a.schema_version == b.schema_version
    && same_environment a.environment b.environment
    && a.mode == b.mode
    && a.stripe_sdk_version == b.stripe_sdk_version
    && a.stripe_api_version == b.stripe_api_version
    && a.stripe_account_id == b.stripe_account_id

-- `_initialize_state`: the state is bound to its configuration on first use.
unfoldable pub initialize_state :
    Environment → Environment → StripeMetadata → Option StripeMetadata → Result StripeMetadata
initialize_state stored store expected known = do
  require (same_environment stored store) commerce_environment_mismatch
  elim known [
    | none ↦ ok expected
    | some m ↦ (do require (same_state m expected) commerce_environment_mismatch; ok m)
  ]

-- The constructor, given the environment of the store and the rows of the two metadata tables.
unfoldable pub open_adapter :
    (String → Option Url)
    → (String → String → Bool)
    → Environment
    → Environment
    → Option StripeMetadata
    → Configuration
    → Result StripeMetadata
open_adapter urlsplit occurs store stored known c = do
  e ← check_arguments urlsplit occurs store c
  account ← account_of c.account
  check_account e c.expected_account_id account
  initialize_state stored store
      (record {
        schema_version = "1";
        environment = store;
        mode = c.mode;
        stripe_sdk_version = c.sdk_version;
        stripe_api_version = c.api_version;
        stripe_account_id = c.expected_account_id;
      })
      known

-- What an adapter of live mode was given.
pub record IsActivated (c : Configuration) : Type 0 where
  pub mode : c.mode ≡ "live"
  pub enabled : c.live_checkout_enabled ≡ true
  pub key : is_secret "sk_live_" c.api_key ≡ true

mode_environment-live : (mode : String) → mode_environment mode ≡ some live → mode ≡ "live"
mode_environment-live mode h = elim (Bool-cases (mode == "test")) [
  | inl e ↦ absurd (ground (arith, h, e))
  | inr e ↦ elim (Bool-cases (mode == "live")) [
    | inl q ↦ text-eq mode "live" q
    | inr q ↦ absurd (ground (arith, h, e, q))
  ]
]

check_arguments-IsActivated :
    (urlsplit : String → Option Url) (occurs : String → String → Bool) (c : Configuration)
    → Ensures (λ e. IsActivated c) (check_arguments urlsplit occurs live c)
unfolding check_arguments
check_arguments-IsActivated urlsplit occurs c = Ensures-or_raise _ _ _ λ e h. by_environment e h
  where
    activated :
        (mode_environment c.mode ≡ some live)
        → Ensures
            (λ e. IsActivated c)
            (require (is_secret "sk_live_" c.api_key) value_error >>= λ _.
              require (is_secret "whsec_" c.webhook_secret) value_error >>= λ _.
              require c.live_checkout_enabled value_error >>= λ _.
              require (is_account_id c.expected_account_id) value_error >>= λ _.
              require
                (c.sdk_version == "15.3.0" && c.api_version == "2026-06-24.dahlia")
                runtime_error
              >>= λ _. configured_url urlsplit occurs true c.success_url >>= λ _.
                  configured_url urlsplit occurs false c.cancel_url >>= λ _. ok live)
    activated h = Ensures-require _ _ _ λ key. Ensures-require _ _ _ λ _.
        Ensures-require _ _ _ λ enabled. Ensures-require _ _ _ λ _. Ensures-require _ _ _ λ _.
          Ensures-bind λ _ _. Ensures-bind λ _ _.
            Ensures-ok _
              (record { mode = mode_environment-live c.mode h; enabled = enabled; key = key })

    by_environment :
        (e : Environment)
        → mode_environment c.mode ≡ some e
        → Ensures
            (λ x. IsActivated c)
            (require (same_environment live e) value_error >>= λ _.
              require
                (is_secret (elim e [ sandbox ↦ "sk_test_" | live ↦ "sk_live_" ]) c.api_key)
                value_error
              >>= λ _. require (is_secret "whsec_" c.webhook_secret) value_error >>= λ _.
                  require (not (is_live e) || c.live_checkout_enabled) value_error >>= λ _.
                  require (is_account_id c.expected_account_id) value_error >>= λ _.
                  require
                    (c.sdk_version == "15.3.0" && c.api_version == "2026-06-24.dahlia")
                    runtime_error
                  >>= λ _. configured_url urlsplit occurs true c.success_url >>= λ _.
                      configured_url urlsplit occurs false c.cancel_url >>= λ _. ok e)
    by_environment sandbox h = Ensures-require _ _ _ λ q. absurd (cc (q))
    by_environment live h = Ensures-require _ _ _ λ q. activated h

-- The constructor accepts a store of the live environment only in live mode, with a live secret key and with the explicit acknowledgement that live checkout is enabled.
pub open_adapter-IsActivated :
    (urlsplit : String → Option Url) (occurs : String → String → Bool) (stored : Environment)
    (known : Option StripeMetadata) (c : Configuration) (m : StripeMetadata)
    → open_adapter urlsplit occurs live stored known c ≡ ok m
    → IsActivated c
unfolding open_adapter
open_adapter-IsActivated urlsplit occurs stored known c m = activated.result m
  where
    activated : Ensures (λ x. IsActivated c) (open_adapter urlsplit occurs live stored known c)
    activated =
        Ensures-bind λ e h. record {
          result = λ _ _. (check_arguments-IsActivated urlsplit occurs c).result e h;
        }
