-- ===== src/Stripe/Framed.antt =====
-- Every method of the adapter respects every frame, but for the webhook table.
use vouchspec.Base.{some, none, eqb, true, Option, refl, ℕ, String, ℕ}
use vouchspec.Stripe.Service.{Method, Service, Adapter}
use vouchspec.Stripe.Frames.{
  Keeps, Keeps-now, Keeps-ask, Keeps-record, Keeps-if, Keeps-transact, Keeps-utc_now, Keeps-query,
  Keeps-lift, Keeps-bind, Frame,
}
use vouchspec.Store.Views.{OrderView}
use vouchspec.Stripe.Reconcile.{
  outcome, Reconciled, emit_state, emit_available, settle_chain, Chain, emitted, emit,
}
use vouchspec.Store.Commands.{Command, execute}
use vouchspec.Json.{Json, Fields, at_is_text}
use vouchspec.Stripe.Objects.{present, is_bool_at}
use vouchspec.Stripe.Retrieval.{
  without_payment, observed, reconcile_order, failed_status, reconcile_intent, reconcile_charge,
}
use vouchspec.Store.Tables.{Order}
use vouchspec.Platform.{Moment}

module _ (a : Adapter) {R : Service → Service → Type 0} (f : Frame a.platform R) where
  emit-Keeps :
      (v : OrderView) (type reference : String) (fee : ℕ) (t : String)
      → Keeps R (emit a v type reference fee t)
  unfolding emit execute
  emit-Keeps v type reference fee t = Keeps-bind f (Keeps-lift f _) λ _.
      Keeps-bind f (Keeps-query f _) λ e. Keeps-bind f (Keeps-utc_now f a) λ received.
        Keeps-bind f
          (Keeps-transact f (Command.ingest (emitted a e v.order type reference fee t) received) _
            (λ db. refl))
          λ r. Keeps-lift f _

  settle_chain-Keeps :
      (source : Option String) (current : ℕ) (c : Chain) (v : OrderView)
      → Keeps R (settle_chain a source current c v)
  unfolding settle_chain emit_available emit_state
  settle_chain-Keeps source current c v = Keeps-bind f (Keeps-lift f _) λ _.
      Keeps-bind f (emit-Keeps _ _ _ _ _) λ captured.
        Keeps-bind f
          (Keeps-bind f (Keeps-lift f _) λ at.
            Keeps-if f (at_is_text "status" "available" c.balance)
              (Keeps-bind f (Keeps-lift f _)
                λ _. Keeps-bind f (Keeps-lift f _) λ _. emit-Keeps _ _ _ _ _)
              (Keeps-lift f _))
          λ settled.
            Keeps-bind f
              (Keeps-if f (is_bool_at "disputed" true c.charge)
                (Keeps-bind f (Keeps-utc_now f a)
                  λ _. Keeps-bind f (emit-Keeps _ _ _ _ _) λ _. Keeps-lift f _)
                (Keeps-if f (eqb c.refunded settled.order.quoted_amount_minor)
                  (Keeps-bind f (Keeps-utc_now f a) λ _. Keeps-bind f (emit-Keeps _ _ _ _ _) λ _.
                    Keeps-bind f (Keeps-utc_now f a)
                      λ _. Keeps-bind f (emit-Keeps _ _ _ _ _) λ _. Keeps-lift f _)
                  (Keeps-lift f _)))
              λ result.
                Keeps-bind f (Keeps-lift f _)
                  λ _. Keeps-bind f (Keeps-record f _) λ _. Keeps-lift f _

  reconcile_charge-Keeps :
      (source : Option String) (current : ℕ) (session : Fields) (v : OrderView) (id : String)
      (payment : Fields)
      → Keeps R (reconcile_charge a source current session v id payment)
  unfolding reconcile_charge
  reconcile_charge-Keeps source current session v id payment = Keeps-bind f (Keeps-lift f _) λ _.
      Keeps-bind f (Keeps-lift f _) λ _. Keeps-bind f (Keeps-lift f _) λ _.
        Keeps-bind f (Keeps-ask f a _) λ _. Keeps-bind f (Keeps-lift f _) λ _.
          Keeps-bind f (Keeps-lift f _) λ _.
            Keeps-bind f (Keeps-ask f a _)
              λ _. Keeps-bind f (Keeps-lift f _) λ _. settle_chain-Keeps _ _ _ _

  reconcile_intent-Keeps :
      (source : Option String) (current : ℕ) (session : Fields) (o : Order) (id : String) (j : Json)
      → Keeps R (reconcile_intent a source current session o id j)
  unfolding reconcile_intent execute
  reconcile_intent-Keeps source current session o id j = Keeps-bind f (Keeps-lift f _) λ payment_id.
      Keeps-bind f (Keeps-utc_now f a) λ t.
        Keeps-bind f (Keeps-transact f (Command.bind o.order_id payment_id id t) _ (λ db. refl))
          λ v. Keeps-bind f (Keeps-ask f a _) λ payment. Keeps-bind f (Keeps-lift f _) λ _.
            Keeps-bind f (Keeps-lift f _) λ _.
              Keeps-if f (failed_status payment)
                (Keeps-bind f (Keeps-lift f _)
                  λ _. Keeps-bind f (emit-Keeps _ _ _ _ _) λ _. Keeps-lift f _)
                (Keeps-if f (at_is_text "status" "succeeded" payment)
                  (reconcile_charge-Keeps _ _ _ _ _ _) (Keeps-lift f _))

  pub reconcile_order-Keeps :
      (id : String) (source : Option String) (m : Option Moment)
      → Keeps R (reconcile_order a id source m)
  unfolding reconcile_order observed
  reconcile_order-Keeps id source m = Keeps-bind f (Keeps-lift f _) λ _.
      Keeps-bind f (clock m) λ current. Keeps-bind f (Keeps-query f _) λ v.
        Keeps-bind f (Keeps-lift f _) λ checkout_id. Keeps-bind f (Keeps-query f _) λ quote.
          Keeps-bind f (Keeps-ask f a _) λ session.
            Keeps-bind f (Keeps-lift f _)
              λ _. chain v current checkout_id session (present "payment_intent" session)
    where
      clock : (m : Option Moment) → Keeps R (observed a m)
      clock none = Keeps-now f a
      clock (some x) = Keeps-lift f _

      chain :
          (v : OrderView) (current : ℕ) (checkout_id : String) (session : Fields) (x : Option Json)
          → Keeps R (elim x as (λ _. Method Reconciled) [
            | none ↦ outcome (without_payment session) v
            | some j ↦ reconcile_intent a source current session v.order checkout_id j
          ])
      chain v current checkout_id session none = Keeps-lift f _
      chain v current checkout_id session (some j) = reconcile_intent-Keeps _ _ _ _ _ _
