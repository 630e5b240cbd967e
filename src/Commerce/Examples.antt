-- ===== src/Commerce/Examples.antt =====
-- A request and a path of statuses at which the theorems on commerce.py are applied.
use vouchspec.Base.{ℕ, List, some, ◌≡◌, refl, ◌<◌}
use vouchspec.Errors.{ok, chains}
use vouchspec.Text.{codes, is_owner, is_repository, is_commit, is_delivery_id}
use vouchspec.Commerce.Status.{OrderStatus, OrderReach, OrderReach-rank, order_rank}
use vouchspec.Commerce.Request.{
  request_json, exact_object, text_matching, is_skill_path, parse_fresh_validation_request,
}
use vouchspec.Commerce.Normalised.{IsWellFormed, parse_normalised}
use vouchspec.Store.Sample.{request}
use vouchspec.Commerce.Webhook.{
  age, partition, split, read_item, read_header, header_of, verify_stripe_webhook_signature,
  WebhookPlatform,
}
use vouchspec.Base.Int.{pos, ◌+ℤ◌}
use vouchspec.Commerce.WebhookLaws.{accepted_webhook-IsAuthentic, IsAuthentic}

accepted : parse_fresh_validation_request (request_json request) ≡ ok request
unfolding chains parse_fresh_validation_request request_json exact_object text_matching
    is_skill_path is_owner is_repository is_commit is_delivery_id
accepted = refl

parse_normalised_example :
    IsWellFormed request × (parse_fresh_validation_request (request_json request) ≡ ok request)
parse_normalised_example = parse_normalised (request_json request) request accepted

paid_path : OrderReach OrderStatus.checkout_pending OrderStatus.queued
paid_path =
    OrderReach.next {t = OrderStatus.payment_pending}
      (OrderReach.next {t = OrderStatus.checkout_pending} OrderReach.here refl) refl

OrderReach-rank_example : order_rank OrderStatus.checkout_pending < order_rank OrderStatus.running
OrderReach-rank_example = OrderReach-rank OrderStatus.running paid_path refl

abbrev webhooks : WebhookPlatform
webhooks = record {
  strip = λ s. s;
  int_of = λ s. some (pos 5);
  decimal = λ t. codes "5";
  hmac_sha256 = λ s m. codes "0123456789abcdef0123456789abcdef0123456789abcdef0123456789abcdef";
}

abbrev signature_header : List ℕ
signature_header = codes "t=5,v1=0123456789abcdef0123456789abcdef0123456789abcdef0123456789abcdef"

accepted_webhook :
    verify_stripe_webhook_signature webhooks (codes "{}") signature_header (codes "key") (pos 7) 300
    ≡ ok (pos 5)
unfolding chains verify_stripe_webhook_signature header_of read_header read_item split partition age
    ◌+ℤ◌
accepted_webhook = refl

accepted_webhook-IsAuthentic_example :
    IsAuthentic webhooks (codes "{}") signature_header (codes "key") (pos 7) 300 (pos 5)
accepted_webhook-IsAuthentic_example =
    accepted_webhook-IsAuthentic webhooks (codes "{}") signature_header (codes "key") (pos 7) 300
      (pos 5) accepted_webhook
