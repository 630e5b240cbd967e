-- ===== src/Store/Commands.antt =====
-- The write operations of `CommerceStore` as commands, and sequences of them: what callers can make
-- of a store. A transaction that raises leaves the database as it was (`_connection`).
use vouchspec.Base.{String, Bool, Option, List, [], ◌∷◌}
use vouchspec.Errors.{Result, ok, err, ◌>>=◌}
use vouchspec.Json.{Json, Fields}
use vouchspec.Platform.{Platform, Moment}
use vouchspec.Store.Tables.{Db}
use vouchspec.Store.Quotes.{create_quote}
use vouchspec.Store.Orders.{create_order, attach_checkout, bind_provider_payment}
use vouchspec.Store.Reconcile.{ingest_provider_event}
use vouchspec.Store.Delivery.{
  Evidence, record_direct_costs, begin_fulfillment, fail_fulfillment, deliver,
}

pub data Command : Type 0 where
  quote : Json → String → Moment → String → Bool → Command
  order : String → String → String → Moment → Command
  attach : String → String → String → Option String → Command
  bind : String → String → String → String → Command
  ingest : Json → String → Command
  costs : String → Fields → String → String → Command
  begin_work : String → String → String → Command
  fail_work : String → String → String → Command
  delivery : String → Evidence → String → String → Command

abbrev pub database {ℓ} : {A : Type ℓ} → Result (A × Db) → Result Db
database m = do r ← m; ok r.1

unfoldable pub execute : Platform → Command → Db → Result Db
execute p (quote value id moment provider enabled) db =
    database (create_quote p value id moment provider enabled db)
execute p (order quote_id key buyer moment) db =
    database (create_order p quote_id key buyer moment db)
execute p (attach id checkout t payment) db = database (attach_checkout p id checkout t payment db)
execute p (bind id payment checkout t) db =
    database (bind_provider_payment p id payment checkout t db)
execute p (ingest value received) db = database (ingest_provider_event p value received db)
execute p (costs id values key t) db = database (record_direct_costs p id values key t db)
execute p (begin_work id source t) db = database (begin_fulfillment p id source t db)
execute p (fail_work id source t) db = database (fail_fulfillment p id source t db)
execute p (delivery id evidence source t) db = database (deliver p id evidence source t db)

-- The database after a transaction: committed, or rolled back.
abbrev pub settle : Db → Result Db → Db
settle db (ok after) = after
settle db (err e) = db

unfoldable pub run : Platform → List Command → Db → Db
run p [] db = db
run p (c ∷ cs) db = run p cs (settle db (execute p c db))
