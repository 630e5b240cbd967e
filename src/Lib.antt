-- ===== src/Lib.antt =====
-- VouchSpec sells signed receipts about exact versions of agent skills. This library models the part
-- of src/capabilityproof that decides about orders, money and the validity of receipts.
--
-- The parts and how they interact
--   Commerce (commerce.py): a request is parsed and normalised (Commerce.Request), quoted
--     (Commerce.Quote), and its order and payment move along two transition tables
--     (Commerce.Status). Commerce.Normalised has the laws of the parser. Commerce.Webhook is the
--     signature check of Stripe's webhooks, with its laws in Commerce.WebhookLaws.
--   Store (commerce_store.py): the SQLite ledger of quotes, orders, provider events, financial
--     entries, cost records and history. Store.Tables has the rows and the helpers (`_require_order`,
--     `_history`, `_financial_entry`, `_mark_event`), Store.Views the readers (`_order_view`,
--     `get_financial_summary`), Store.Quotes `create_quote`, Store.Orders `create_order`,
--     `attach_checkout` and `bind_provider_payment`, Store.Events `_validate_event` (Store.EventBounds
--     says what it guarantees), Store.Reconcile `ingest_provider_event` and `_reconcile_payment`,
--     Store.Delivery the costs, the start, the failure and the delivery of the work. Store.Commands
--     runs sequences of these operations; a transaction that raises is rolled back. Store.Ledger,
--     Store.Invariant, Store.PaymentFacts, Store.Payments, Store.Updates, Store.Operations,
--     Store.Fulfilment and Store.Histories carry the proof that every operation keeps the invariant, Store.Settling,
--     Store.EventTable and Store.Termination the one about the loop of `_reconcile_payment`;
--     Store.Books, Store.EventKeys and Store.Costs state what follows. Store.Sample is
--     an order on which the model is run.
--   Lifecycle (lifecycle.py): the store of last-seen sequences (Lifecycle.Sequence), the feed
--     validator (Lifecycle.Feed) and the evaluation of a receipt (Lifecycle.Evaluate), each with a
--     module of laws beside it; Lifecycle.SequenceFile is about what the file of sequences holds,
--     Lifecycle.SequenceRecord about recording in it.
--   Paid (paid_lifecycle.py): the checks between two publications (Paid.Transitions) and the
--     publication of feeds about the delivered orders of the store (Paid.Publish, with the schema
--     check in Paid.Schema). Paid.Chain and Paid.Invalidation are about one publication,
--     Paid.History about any sequence of them.
--   Access (commerce_access.py): tenants and their API keys (Access.Tenants), the bindings of quotes
--     and orders to tenants (Access.Bindings), and delivery tokens and results (Access.Tokens), over
--     the tables of Access.Tables. It reads the orders of the Store and writes its own tables;
--     Access.Commands runs sequences of its operations.
--     Access.Evolution and Access.Histories carry the proof that its store stays valid;
--     Access.Authority, Access.Lockout, Access.Capabilities and Access.Opening state what follows.
--   Stripe (stripe_payments.py): hosted checkouts (`prepare_checkout`, `prepare_order_checkout`), signed
--     webhooks (`process_webhook`) and `reconcile_order`, which retrieves the chain of Stripe objects
--     of an order (Stripe.Retrieval), checks it (Stripe.Checks) and gives derived events to the Store
--     (Stripe.Reconcile). Stripe.Service has the state and the effects, Stripe.Webhooks the
--     adapter's own tables, Stripe.Notices and Stripe.Objects the pure parts, Stripe.Process the entry
--     points, Stripe.Configuration the constructor. Stripe.Frames, Stripe.Framed and
--     Stripe.FramedRequests show which relations between two states every method respects, and
--     Stripe.Finished what a served webhook leaves in its row;
--     Stripe.Undisturbed what other handlers leave of it;
--     Stripe.Requests, Stripe.Settled and Stripe.Replays state what follows.
--   Base, Errors, Text, Json, Platform and Table are shared: tests and lists, results and their
--     postconditions (Errors.Ensures), the regular expressions, JSON values, Python's standard
--     library, and SQL tables.
--
-- Correspondence
--   A database is a record of its tables, each a list of rows in insertion order; a query by key is
--   the first match. An operation takes the database and returns a result with the new one, or the
--   code of the error that the Python code raises. Amounts are the native ℕ and the impact on the
--   contribution is an integer; Python's integers do not overflow. Digests, ISO 8601 times and JSON
--   text come from the record `Platform`, and signatures, thumbprints and strict JSON reading
--   (signing.py) from the record `Signatures`, the text of the file of sequences from the record
--   `Codec`, HMAC and base64 from the record `Keys`; every theorem holds for all choices of them
--   that meet its hypotheses.
--   Clocks and random identifiers are arguments. The Stripe adapter commits between its steps, so its
--   methods keep their state when they raise; the record `Adapter` gives the clock, the check of a
--   webhook's signature at a time, and Stripe's answers for every step of a run. The server's threads
--   run handlers at once, each transaction of which is atomic. The model serves a request without
--   interruption, and requests one after another; what is shown of the adapter's methods is shown of
--   such runs. Stripe.Settled and Stripe.Undisturbed are about any interleaving of the handlers'
--   transactions on the webhook table.
--
-- Fuel
--   `_reconcile_payment` loops while a round makes progress. The model runs it with one more round
--   than the payment has pending events: each round with progress settles at least one of them.
--
-- Not modelled
--   signing.py and receipt.py, whose results the lifecycle takes as parameters, and the reading of
--   artifacts (skill.py, static_analysis.py, snapshot.py, provenance.py), which are later work;
--   build_draft of paid_lifecycle.py, which changes no state; the HTTP, MCP and command-line layers,
--   the workers and the catalog, which are I/O; the file lock of the sequence store, which makes its
--   calls single steps; texts of error messages and of the evaluation's reasons.
pub mod Base
pub mod Errors
pub mod Text
pub mod Json
pub mod Platform
pub mod Table
pub mod Commerce
pub mod Store
pub mod Lifecycle
pub mod Paid
pub mod Access
pub mod Stripe
