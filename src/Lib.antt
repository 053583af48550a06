-- ===== src/Lib.antt =====
-- A verification library for Slipvolt, a gateway that sells AI requests to token holders and to
-- prepaid customers (gridraft/*.py).
--
-- Parts and files
-- - Db: the tables of the SQLite database, one record per row kind. Db/Sql and Db/Keyed: the
--   statements over lists of rows (find, count, sum, update, delete) and lemmas on unique columns.
-- - Value, Host: values as JSON gives them; what the runtime and other packages compute
--   (str.isprintable, str.strip, digests, str(int)) is the record Host, an argument everywhere.
-- - Pool: gridraft/ledger_totals.py, the row of lifetime totals and its triggers.
-- - Membership: admission to the holder ledger (gridraft/membership.py: allocate, pool, totals,
--   reserve, preview). Settlement: settle and review of that ledger and its runs.
-- - Startup: the holds that were open when the server started (gridraft/store.py).
-- - Prepaid, Billing: the prepaid ledger (gridraft/store.py: credit, reserve, settle, review).
-- - Keys: API keys and the audit trail (gridraft/store.py).
-- - Sessions: sign-in and the rate limiter (gridraft/store.py). Body: gridraft/body_boundary.py.
-- - Usage, Broker: what the provider reports of a request and its cost (gridraft/member_gateway.py,
--   gridraft/broker.py). Gateway: one request of a holder, from its body to its reply, whole or
--   streamed, over the operations of the holder ledger (gridraft/member_gateway.py).
-- - ModelPolicy: the limits of a model (gridraft/model_policy.py).
-- - Burn: token amounts of the treasury's burn plan (gridraft/treasury_burn.py).
-- - Address: base58 (gridraft/security.py: decode_address; gridraft/token_audit.py: validate_signature).
--   Decimal: str(n) of Python, with the round trip through the readers of Burn.
-- - TokenAudit: gridraft/token_audit.py. TokenAudit itself reads the mint and the finality of a
--   transaction, TokenAudit/Receipt its burns (TokenAudit/Listed is an unchecked reading of its
--   instructions), TokenAudit/Ledger keeps receipts; json.dumps and the answers of the RPC are
--   arguments.
-- - CreatorClaims: gridraft/creator_claims.py. CreatorClaims itself reads the transaction and its one
--   claim, CreatorClaims/Balances what every account gained or lost, CreatorClaims/Ledger keeps
--   receipts; the addresses that solders derives are an argument.
-- - Reconciliation: gridraft/provider_reconciliation.py. Reconciliation/Pages, Reconciliation/Grouped,
--   Reconciliation/Scanned and Reconciliation/Whole: what a checked page, the counters and a scan say
--   of the provider's list.
-- - Structured: bounded_object of gridraft/request_policy.py, with validate_extensions in
--   Structured/Extensions; Structured/Growth and Structured/Fitting compare its walk with a
--   recursion on the value, Structured/Tools is about the tools of a request.
-- - App: gridraft/app.py. App/Http and App/Ingress: how a route ends, the throttle, the session and
--   the operator's key (also gridraft/route_support.py). App/Requests: normalize_completion_request.
--   App/Eligibility: eligibility. App/Inference: chat, which hands a request to Gateway or to
--   App/PrepaidChat. App/Preflight, App/SignIn, App/KeyRoutes, App/Operator: the routes of those
--   names, over the operations of the stores.
-- - Base: shared helpers. Tests: the theorems at concrete values.
--
-- Conventions
-- - An operation is `Db → Result (A × Db)`. Where it raises, the database is the one before the
--   call: the source raises before its first write, or `transaction` rolls back.
-- - What `time.time()` gives within one call is one argument, in ticks of a microsecond; the ids and
--   tokens that uuid4 and secrets draw are arguments. `created > now-60` is written with the sum on
--   the other side, since a difference of ℕ stops at 0.
-- - Rows stand in rowid order. SQLite's 64-bit range is modelled for the slot of a burn receipt
--   (TokenAudit.Ledger.bound) and for no other column: the ledgers refuse quantities above 10^15,
--   and the sums stay far below 2^63. Whether starlette renders a reply is an argument. Locks and transactions make each operation one
--   step, so that a concurrent run is a sequence of steps.
-- - The loops of the modelled code are recursion on a list, a value or the number of rounds that the
--   code itself allows (pages of a scan, values of a structured field). Where Python counts bits or
--   digits, a number of rounds is given that is enough: the proofs that read the result back show it.
--
-- Not modelled: of gridraft/app.py the reports, the operator settings, the business book, the catalogue
-- and its caches, the middleware and the wiring; the files named *_api.py, the command line,
-- settings, backup, readiness and the reports, whose work is I/O and display;
-- treasury_accounts.py, gonka.py, economics.py, schemas.py but for the fields of ChatInput,
-- and integrations.py of gridraft/; of broker.py the registry, the status page and the
-- caches for display; of treasury_burn.py the account layouts; and the code of other packages.
pub mod Base
pub mod Value
pub mod Host
pub mod Db
pub mod Pool
pub mod Startup
pub mod Membership
pub mod Settlement
pub mod Prepaid
pub mod Billing
pub mod Keys
pub mod Sessions
pub mod Body
pub mod Usage
pub mod Broker
pub mod Gateway
pub mod ModelPolicy
pub mod Burn
pub mod Address
pub mod Decimal
pub mod TokenAudit
pub mod App
pub mod CreatorClaims
pub mod Reconciliation
pub mod Structured
pub mod Tests
