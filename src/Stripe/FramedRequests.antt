-- ===== src/Stripe/FramedRequests.antt =====
-- The methods that callers use respect every frame that also allows changes of the webhook table.
use vouchspec.Base.{
  not, starts_with, [], ◌∷◌, ◌++◌, some, none, Bool, is_some, true, false, Option, String, refl, ℕ,
  List, ℕ,
}
use vouchspec.Stripe.Service.{
  is_input_rejected, ◌>>◌, ◌>>=◌, find_webhook, update_webhook, WebhookStatus, lift,
  retrieve_checkout, ask, Method, WebhookRow, Service, Adapter,
}
use vouchspec.Stripe.Frames.{
  Keeps-now, Keeps-utc_now, Keeps, Keeps-if, Keeps-transact, Keeps-ask, Keeps-catching, Keeps-query,
  Keeps-lift, Keeps-bind, Frame,
}
use vouchspec.Store.Views.{OrderView}
use vouchspec.Commerce.Quote.{QuoteDocument}
use vouchspec.Stripe.Process.{
  settle_event, ignore_event, is_stripe_error, webhook_types, reconcile_event, process_reserved,
  process_webhook, prepare_checkout, prepare_order_checkout, create_order_checkout,
}
use vouchspec.Store.Commands.{Command, execute}
use vouchspec.Platform.{Platform, Moment}
use vouchspec.Stripe.Notices.{Notice, checkout_view, CheckoutView}
use vouchspec.Stripe.Checks.{validate_checkout}
use vouchspec.Json.{Json}
use vouchspec.Stripe.Webhooks.{
  Reservation, finish_known, retakes, new_row, reserved, Reservation, reserve_webhook,
  reserve_known, finished, finish_webhook,
}
use vouchspec.Errors.{Result, err, ok}
use vouchspec.Stripe.Retrieval.{metadata_of_charge, metadata_of_event, order_id_for_event}
use vouchspec.Base.Lists.{contains}
use vouchspec.Stripe.Framed.{reconcile_order-Keeps}

module _ (a : Adapter) {R : Service → Service → Type 0} (f : Frame a.platform R) where
  create_order_checkout-Keeps :
      (t : ℕ) (v : OrderView) (q : QuoteDocument) → Keeps R (create_order_checkout a t v q)
  unfolding create_order_checkout execute
  create_order_checkout-Keeps t v q = Keeps-bind f (Keeps-lift f _) λ expires_at.
      Keeps-bind f (Keeps-query f _) λ e.
        Keeps-bind f (Keeps-catching f (Keeps-ask f a _) (λ x. Keeps-lift f _)) λ session.
          Keeps-bind f (Keeps-lift f _) λ _. Keeps-bind f (Keeps-lift f _) λ checkout_id.
            Keeps-bind f (Keeps-lift f _) λ payment_id.
              Keeps-bind f
                (Keeps-transact f
                  (Command.attach v.order.order_id checkout_id (a.platform.isoformat t) payment_id)
                  _ (λ db. refl))
                λ after. Keeps-lift f _

  pub prepare_order_checkout-Keeps :
      (id : String) (m : Moment) → Keeps R (prepare_order_checkout a id m)
  unfolding prepare_order_checkout
  prepare_order_checkout-Keeps id m = Keeps-bind f (Keeps-lift f _) λ t.
      Keeps-bind f (Keeps-query f _) λ v.
        Keeps-bind f (Keeps-query f _)
          λ q. Keeps-bind f (Keeps-lift f _) λ _. by_checkout t v q v.order.provider_checkout_id
    where
      by_checkout :
          (t : ℕ) (v : OrderView) (q : QuoteDocument) (x : Option String)
          → Keeps R (elim x as (λ _. Method CheckoutView) [
            | some checkout_id ↦ (do
              session ← ask a (retrieve_checkout checkout_id)
              lift (validate_checkout a session v.order q false)
              lift (checkout_view a v session))
            | none ↦ (do
              (after, session) ← create_order_checkout a t v q
              lift (checkout_view a after session))
          ])
      by_checkout t v q (some x) =
          Keeps-bind f (Keeps-ask f a _)
            λ session. Keeps-bind f (Keeps-lift f _) λ _. Keeps-lift f _
      by_checkout t v q none = Keeps-bind f (create_order_checkout-Keeps t v q) λ r. Keeps-lift f _

  pub prepare_checkout-Keeps :
      (request : Json) (quote_id key buyer : String) (m : Moment)
      → Keeps R (prepare_checkout a request quote_id key buyer m)
  unfolding prepare_checkout execute
  prepare_checkout-Keeps request quote_id key buyer m = Keeps-bind f (Keeps-lift f _) λ _.
      Keeps-bind f
        (Keeps-transact f (Command.quote request quote_id m "stripe" a.live_checkout_enabled) _
          (λ db. refl))
        λ q.
          Keeps-bind f (Keeps-transact f (Command.order q.quote_id key buyer m) _ (λ db. refl))
            λ v. prepare_order_checkout-Keeps _ _

  order_id_for_event-Keeps :
      (type object_id : String) → Keeps R (order_id_for_event a type object_id)
  unfolding order_id_for_event metadata_of_event metadata_of_charge
  order_id_for_event-Keeps type object_id =
      Keeps-bind f
        (Keeps-if f (starts_with type "checkout.session.")
          (Keeps-bind f (Keeps-lift f _) λ _. Keeps-bind f (Keeps-ask f a _) λ _. Keeps-lift f _)
          (Keeps-if f (starts_with type "payment_intent.")
            (Keeps-bind f (Keeps-lift f _) λ _. Keeps-bind f (Keeps-ask f a _) λ _. Keeps-lift f _)
            (Keeps-if f (starts_with type "charge.dispute.")
              (Keeps-bind f (Keeps-lift f _) λ _.
                Keeps-bind f (Keeps-ask f a _) λ _. Keeps-bind f (Keeps-lift f _) λ _. of_charge _)
              (Keeps-if f (starts_with type "charge.")
                (Keeps-bind f (Keeps-lift f _) λ _. of_charge _) (Keeps-lift f _)))))
        λ meta. Keeps-bind f (Keeps-lift f _) λ _. Keeps-bind f (Keeps-lift f _) λ _. Keeps-lift f _
    where
      of_charge : (id : String) → Keeps R (metadata_of_charge a id)
      of_charge id =
          Keeps-bind f (Keeps-ask f a _) λ _.
            Keeps-bind f (Keeps-lift f _) λ _. Keeps-bind f (Keeps-ask f a _) λ _. Keeps-lift f _

  pub reconcile_event-Keeps :
      (n : Notice) (t : String)
      → ((status : WebhookStatus) (o : Option String)
          → Keeps R (finish_webhook n.event_id status t o))
      → Keeps R (reconcile_event a n t)
  unfolding reconcile_event
  reconcile_event-Keeps n t finishing =
      Keeps-catching f
        (Keeps-bind f (order_id_for_event-Keeps _ _)
          λ id. Keeps-bind f (reconcile_order-Keeps a f id _ _) λ x. Keeps-lift f _)
        (λ e. Keeps-if f (is_input_rejected e) (Keeps-bind f (finishing _ _) λ _. Keeps-lift f _) (
          Keeps-if f (is_stripe_error e) (Keeps-bind f (finishing _ _) λ _. Keeps-lift f _)
            (Keeps-lift f _)))

  -- The event behind a reservation, given a frame that its own row may leave.
  pub process_reserved-Keeps :
      (n : Notice) (t : String) (r : Reservation)
      → ((status : WebhookStatus) (o : Option String)
          → Keeps R (finish_webhook n.event_id status t o))
      → Keeps R (process_reserved a n t r)
  unfolding process_reserved ignore_event settle_event
  process_reserved-Keeps n t r finishing = Keeps-if f r.duplicate (Keeps-lift f _) (
      Keeps-if f (not (contains n.event_type webhook_types))
        (Keeps-bind f (finishing _ _) λ _. Keeps-lift f _)
        (Keeps-bind f (reconcile_event-Keeps n t finishing)
          λ x. Keeps-bind f (finishing _ _) λ _. Keeps-lift f _))

module _ (a : Adapter) {R : Service → Service → Type 0} (f : Frame a.platform R)
    (written : (rows : List WebhookRow) (s : Service) → R s (record s { webhooks = rows })) where
  finish_webhook-Keeps :
      (id : String) (status : WebhookStatus) (t : String) (o : Option String)
      → Keeps R (finish_webhook id status t o)
  unfolding finish_webhook update_webhook
  finish_webhook-Keeps id status t o = record {
    holds = λ s. either s (is_some (find_webhook id s.webhooks));
  }
    where
      either : (s : Service) (b : Bool) → R s (finish_known id (finished status t o) s b).1
      either s true = written _ s
      either s false = f.same s

  reserve_known-Keeps :
      (t : String) (row : WebhookRow) (s : Service) (again : Result Bool)
      → R s (reserve_known t row s again).1
  unfolding update_webhook
  reserve_known-Keeps t row s (ok true) = written _ s
  reserve_known-Keeps t row s (ok false) = f.same s
  reserve_known-Keeps t row s (err e) = f.same s

  reserve_webhook-Keeps :
      (p : Platform) (id digest type object_id t : String)
      → Keeps R (reserve_webhook p id digest type object_id t)
  unfolding reserve_webhook
  reserve_webhook-Keeps p id digest type object_id t = record {
    holds = λ s. either s (find_webhook id s.webhooks);
  }
    where
      either :
          (s : Service) (x : Option WebhookRow)
          → R s
              (elim x as (λ _. Result Reservation × Service) [
                | some row ↦ reserve_known t row s (retakes p digest t row)
                | none ↦ (
                  ok (reserved none),
                  record s { webhooks = s.webhooks ++ new_row id digest type object_id t ∷ [] },
                )
              ]).1
      either s none = written _ s
      either s (some row) = reserve_known-Keeps t row s _

  pub process_webhook-Keeps : (body header : String) → Keeps R (process_webhook a body header)
  unfolding process_webhook
  process_webhook-Keeps body header = Keeps-bind f (Keeps-now f a) λ time.
      Keeps-bind f (Keeps-lift f _) λ n. Keeps-bind f (Keeps-utc_now f a) λ t.
        Keeps-bind f (reserve_webhook-Keeps _ _ _ _ _ _) λ r.
          process_reserved-Keeps a f n t r (λ status o. finish_webhook-Keeps n.event_id status t o)
