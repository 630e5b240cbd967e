-- ===== src/Commerce/Quote.antt =====
-- `build_fresh_validation_quote` of commerce.py. The document keeps the entries that vary; the
-- constant ones (service, operation, currency, limits, refund conditions, evidence not promised)
-- stand in `quote_json` where the digest is taken over them.
use Prim.Native.String.{◌++◌ as ◌<>◌}
use vouchspec.Base.{
  ℕ, ◌+◌, ◌*◌, String, Bool, false, Option, none, some, List, [], ◌∷◌, leb, if◌then◌else◌,
}
use vouchspec.Base.Int.{pos}
use vouchspec.Errors.{Result, ok, ◌>>=◌, ◌>>◌, require, value_error}
use vouchspec.Text.{is_quote_id}
use vouchspec.Json.{Json, bool, int, text, array, object, Items, nil, cons, Fields, end, field}
use vouchspec.Platform.{Platform, Moment, aware}
use vouchspec.Commerce.Request.{Request, request_json, parse_fresh_validation_request}

pub data QuoteStatus : Type 0 where
  preview_account_and_worker_not_live preview_mainnet_not_live declined_max_price : QuoteStatus
  sandbox_orderable_nonsettling stripe_test_orderable_nonsettling : QuoteStatus
  stripe_live_orderable_activation_acknowledged : QuoteStatus

-- A dictionary of `payment_options`.
pub record PaymentOption : Type 0 where
  pub provider : String
  pub status : String

pub record QuoteDocument : Type 0 where
  pub quote_id : String
  pub request : Request
  pub request_digest : String
  pub amount_minor : ℕ
  pub amount : String
  pub generated_at : String
  pub expires_at : String
  pub quote_status : QuoteStatus
  pub availability : String
  pub orderable : Bool
  pub settlement_available : Bool
  pub payment_options : List PaymentOption
  pub payment_gate : String
  pub counts_for_goal : Option Bool

abbrev pub legacy_stripe_amount_minor : ℕ
legacy_stripe_amount_minor = 4_900

abbrev pub fresh_validation_amount_minor : ℕ
fresh_validation_amount_minor = 25

-- `timedelta(minutes=n)`, in microseconds.
abbrev pub minutes : ℕ → ℕ
minutes n = n * 60_000_000

abbrev status_text : QuoteStatus → String
status_text preview_account_and_worker_not_live = "preview_account_and_worker_not_live"
status_text preview_mainnet_not_live = "preview_mainnet_not_live"
status_text declined_max_price = "declined_max_price"
status_text sandbox_orderable_nonsettling = "sandbox_orderable_nonsettling"
status_text stripe_test_orderable_nonsettling = "stripe_test_orderable_nonsettling"
status_text stripe_live_orderable_activation_acknowledged =
    "stripe_live_orderable_activation_acknowledged"

abbrev options_json : List PaymentOption → Items
options_json [] = nil
options_json (o ∷ os) =
    cons (object (field "provider" (text o.provider) (field "status" (text o.status) end)))
      (options_json os)

abbrev texts : List String → Items
texts [] = nil
texts (s ∷ ss) = cons (text s) (texts ss)

abbrev refund_conditions : List String
refund_conditions =
    "duplicate_charge" ∷ "payment_settled_but_job_never_started_due_to_vouchspec_failure"
    ∷ "job_failed_before_a_signed_receipt_was_produced"
    ∷ "unsupported_request_accepted_due_to_vouchspec_validation_defect"
    ∷ "invalid_signature_or_wrong_source_commit_path_or_digest_after_one_automatic_rerun" ∷ []

abbrev source_json : Request → Json
source_json r = object (
    field "host" (text "github.com") (
      field "owner" (text r.owner) (
        field "repository" (text r.repository)
          (field "commit" (text r.commit) (field "skill_path" (text r.skill_path) end)))))

abbrev deliverable_json : Request → Json
deliverable_json r = object (
    field "type" (text "signed_exact_version_static_receipt") (
      field "source" (source_json r) (
        field "profile" (text "vouchspec-public-static-v1") (
          field "delivery_id" (text r.delivery_id) (
            field "execution" (text "artifact_content_not_executed") (
              field "evidence_not_promised"
                (array (
                  texts (
                    "universal_safety" ∷ "malware_free" ∷ "runtime_behavior" ∷ "publisher_identity"
                    ∷ [])))
                end))))))

abbrev hard_limits_json : Json
hard_limits_json = object (
    field "artifact_total_bytes" (int (pos 25_000_000)) (
      field "files" (int (pos 1_000)) (
        field "individual_file_bytes" (int (pos 2_000_000)) (
          field "directory_depth" (int (pos 32))
            (field "worker_wall_seconds" (int (pos 60)) end)))))

abbrev live_gates_json : String → Json
live_gates_json gate = array (
    texts (
      "allowlisted immutable fetcher and isolated no-egress worker"
      ∷ "separate constrained signing service" ∷ gate
      ∷ "idempotent order store and provider reconciliation" ∷ []))

abbrev goal_json : Option Bool → Fields
goal_json none = end
goal_json (some b) = field "counts_for_goal" (bool b) end

-- The dictionary, without its `quote_digest`.
unfoldable pub quote_json : QuoteDocument → Json
quote_json q = object (
    field "schema_version" (text "1.0.0") (
      field "service" (text "VouchSpec") (
        field "quote_id" (text q.quote_id) (
          field "operation" (text "fresh_public_static_validation") (
            field "request_digest" (text q.request_digest) (
              field "currency" (text "usd") (
                field "amount_minor" (int (pos q.amount_minor)) (
                  field "amount" (text q.amount) (
                    field "generated_at" (text q.generated_at) (
                      field "expires_at" (text q.expires_at) (
                        field "quote_status" (text (status_text q.quote_status)) (
                          field "availability" (text q.availability) (
                            field "orderable" (bool q.orderable) (
                              field "settlement_available" (bool q.settlement_available) (
                                field "payment_options" (array (options_json q.payment_options)) (
                                  field "deliverable" (deliverable_json q.request) (
                                    field "hard_limits" hard_limits_json (
                                      field "refund_conditions" (array (texts refund_conditions)) (
                                        field "non_refund_condition"
                                          (text
                                            "an accurately reported structural or static finding is the purchased result")
                                          (field "live_gates" (live_gates_json q.payment_gate)
                                            (goal_json q.counts_for_goal)))))))))))))))))))))

-- `f"sha256:{_digest(quote)}"`, which is set under `quote_digest` last.
unfoldable pub quote_digest : Platform → QuoteDocument → String
quote_digest p q = "sha256:" <> p.sha256 (p.dumps (quote_json q))

abbrev stripe_preview_options : List PaymentOption
stripe_preview_options =
    record { provider = "stripe_checkout"; status = "account_activation_required" }
    ∷ record { provider = "x402"; status = "secondary_not_enabled" }
    ∷ []

abbrev x402_preview_options : List PaymentOption
x402_preview_options = record { provider = "x402"; status = "mainnet_not_enabled" } ∷ []

-- The generated identifier and the clock of the defaults are the caller's arguments here.
unfoldable pub build_fresh_validation_quote :
    Platform → Json → Moment → String → Bool → Result QuoteDocument
build_fresh_validation_quote p value generated_at quote_id legacy_stripe_adapter = do
  request ← parse_fresh_validation_request value
  require (is_quote_id quote_id) value_error
  now ← aware value_error generated_at
  let amount_minor =
      if legacy_stripe_adapter then legacy_stripe_amount_minor else fresh_validation_amount_minor
  let preview =
      if legacy_stripe_adapter
      then preview_account_and_worker_not_live
      else preview_mainnet_not_live
  ok (record {
    quote_id = quote_id;
    request = request;
    request_digest = "sha256:" <> p.sha256 (p.dumps (request_json request));
    amount_minor = amount_minor;
    amount = if legacy_stripe_adapter then "49.00" else "0.25";
    generated_at = p.isoformat now;
    expires_at = p.isoformat (now + minutes 15);
    quote_status = if leb amount_minor request.max_amount then preview else declined_max_price;
    availability =
        if legacy_stripe_adapter
        then "stage_b_worker_and_payment_activation_required"
        else "stage_b_mainnet_activation_required";
    orderable = false;
    settlement_available = false;
    payment_options =
        if legacy_stripe_adapter then stripe_preview_options else x402_preview_options;
    payment_gate =
        if legacy_stripe_adapter
        then "activated payment account and verified webhook secret"
        else "exact x402 mainnet settlement and automated remedy controls";
    counts_for_goal = none;
  })
