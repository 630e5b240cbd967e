-- ===== src/Stripe/Requests.antt =====
-- The adapter as its callers drive it: any sequence of its methods.
use vouchspec.Base.{sym, ap, ◌∙◌, refl, ◌≡◌, ◌++◌, [], ◌∷◌, List, Option, String}
use vouchspec.Json.{Json}
use vouchspec.Platform.{Platform, Moment}
use vouchspec.Stripe.Service.{WebhookRow, Service, Adapter}
use vouchspec.Stripe.Process.{process_webhook, prepare_order_checkout, prepare_checkout}
use vouchspec.Stripe.Retrieval.{reconcile_order}
use vouchspec.Stripe.Frames.{Frame}
use vouchspec.Stripe.FramedRequests.{
  process_webhook-Keeps, prepare_order_checkout-Keeps, prepare_checkout-Keeps,
}
use vouchspec.Stripe.Framed.{reconcile_order-Keeps}
use vouchspec.Store.Commands.{execute, settle, run, Command}
use vouchspec.Store.Tables.{Db}

-- The methods that write.
pub data AdapterRequest : Type 0 where
  checkout : Json → String → String → String → Moment → AdapterRequest
  order_checkout : String → Moment → AdapterRequest
  reconciliation : String → Option String → Option Moment → AdapterRequest
  webhook : String → String → AdapterRequest

unfoldable pub serve : Adapter → AdapterRequest → Service → Service
serve a (checkout value quote_id key buyer t) s =
    (prepare_checkout a value quote_id key buyer t s).1
serve a (order_checkout id t) s = (prepare_order_checkout a id t s).1
serve a (reconciliation id source t) s = (reconcile_order a id source t s).1
serve a (webhook body header) s = (process_webhook a body header s).1

unfoldable pub serve_all : Adapter → List AdapterRequest → Service → Service
serve_all a [] s = s
serve_all a (r ∷ rs) s = serve_all a rs (serve a r s)

serve-Keeps :
    (a : Adapter) {R : Service → Service → Type 0} (f : Frame a.platform R)
    (written : (rows : List WebhookRow) (s : Service) → R s (record s { webhooks = rows }))
    (r : AdapterRequest) (s : Service)
    → R s (serve a r s)
unfolding serve
serve-Keeps a f written (checkout value quote_id key buyer t) s =
    (prepare_checkout-Keeps a f value quote_id key buyer t).holds s
serve-Keeps a f written (order_checkout id t) s = (prepare_order_checkout-Keeps a f id t).holds s
serve-Keeps a f written (reconciliation id source t) s =
    (reconcile_order-Keeps a f id source t).holds s
serve-Keeps a f written (webhook body header) s =
    (process_webhook-Keeps a f written body header).holds s

pub serve_all-Keeps :
    (a : Adapter) {R : Service → Service → Type 0} (f : Frame a.platform R)
    (written : (rows : List WebhookRow) (s : Service) → R s (record s { webhooks = rows }))
    (rs : List AdapterRequest) (s : Service)
    → R s (serve_all a rs s)
unfolding serve_all
serve_all-Keeps a f written [] s = f.same s
serve_all-Keeps a f written (r ∷ rs) s =
    f.trans s (serve a r s) (serve_all a rs (serve a r s)) (serve-Keeps a f written r s)
      (serve_all-Keeps a f written rs (serve a r s))

-- The commerce database of the second state is that of the first after some operations of the store.
abbrev pub IsOperated : Platform → Service → Service → Type 0
IsOperated p s t = (cs : List Command) × (t.commerce ≡ run p cs s.commerce)

run-append :
    (p : Platform) (cs ds : List Command) (db : Db) → run p (cs ++ ds) db ≡ run p ds (run p cs db)
unfolding run
run-append p [] ds db = refl
run-append p (c ∷ cs) ds db = run-append p cs ds (settle db (execute p c db))

IsOperated-Frame : (p : Platform) → Frame p (IsOperated p)
unfolding run
IsOperated-Frame p = record {
  same = λ s. ([], refl);
  trans = λ s t u (cs, e) (ds, h).
      (cs ++ ds, h ∙ ap (run p ds) e ∙ sym (run-append p cs ds s.commerce));
  step = λ s. ([], refl);
  command = λ c s. (c ∷ [], refl);
  recorded = λ rs s. ([], refl);
}

-- Whatever requests the adapter serves, what becomes of the commerce database is what a sequence of the store's own operations makes of it.
pub serve_all-IsOperated :
    (a : Adapter) (rs : List AdapterRequest) (s : Service)
    → (cs : List Command) × ((serve_all a rs s).commerce ≡ run a.platform cs s.commerce)
unfolding run
serve_all-IsOperated a rs s =
    serve_all-Keeps a (IsOperated-Frame a.platform) (λ rows t. ([], refl)) rs s
