-- ===== src/Lib.antt =====
-- SLASettle hub
-- =============
--
-- The hub reads the events of the SLASettle contracts from a Stellar RPC node, keeps them in a
-- database, and serves them; a web application shows them and sends transactions. This library models
-- the indexer (indexer/src), the SDK's own checks (packages/sdk/src) and the logic of the web
-- application (apps/web/lib). In the indexer, an event goes from the RPC client (rpc/client.ts) through decoding
-- (rpc/decode.ts) and classification (ingest/classify.ts) into a batch of rows; a batch and the cursor
-- behind it are written in one transaction (db/db.ts, db/d1.ts) by the poller (ingest/poller.ts) or by
-- the scheduled worker (worker/ingest.ts); the HTTP API (api/routes.ts, worker/routes.ts) reads the
-- tables. The SDK checks what a caller passes to the contracts and decodes what they return.
--
-- Files, and the code they model:
--
-- Prelude: names of the libraries, lists, tests, results and the order of texts.
-- Js: JavaScript values and numbers. What the runtime and the Stellar SDK compute (`String(x)`,
--   `Number(x)`, `scValToNative`) is the parameter `Runtime`.
-- Indexer/Rows: the row types of indexer/src/db/db.ts, and `ClassifiedBatch`.
-- Indexer/Decode: `decodeEvent`, `amountToString`, `bytesToHex` of indexer/src/rpc/decode.ts.
-- Indexer/Classify: `parseCheckStatus` and `classifyEvents` of indexer/src/ingest/classify.ts. The
--   source pushes into one batch; here an event gives what it pushes and `push_all` appends it. What
--   the logger is told is the field `warned`. Classify/Pages and Classify/Accounting hold theorems.
-- Indexer/Sql: what the SQL statements do to a list of rows: INSERT OR IGNORE, UPDATE, ORDER BY.
-- Indexer/Tables: the tables of indexer/src/db/schema.sql and the statements on them. Tables/Sqlite is
--   `IndexerDb`, Tables/D1 is `IndexerD1`; a transaction is a function of the tables. The other
--   children hold theorems: Effects (what a batch does to each table), Watchers (what events make of a
--   watcher's row),
--   Replay (a batch written twice), Pages (following the settlement pages), Keys (primary keys).
-- Indexer/Rpc: `isTransientNetworkError`, `withNetworkRetry`, `getEvents` of
--   indexer/src/rpc/client.ts. An attempt's outcome is a function of its number.
-- Indexer/Ingest: Poller is indexer/src/ingest/poller.ts and Worker is indexer/src/worker/ingest.ts.
--   What the RPC answers in a cycle, and whether the write fails, are the fields of `Cycle`; a throw
--   is `err` and leaves the tables as they were. `run_forever` takes the cycles that run before the
--   abort signal, `run_scheduled` the scheduled events. History, ExactlyOnce, Progress and Scheduled
--   hold theorems.
-- Indexer/Api: the HTTP API. Api/Pagination is indexer/src/api/pagination.ts, Api/Ledger is
--   indexer/src/api/ledgerInfo.ts, Api/Limits and Api/Thresholds are the checks of `limit` and the lazy
--   fill of `quorum_threshold` in both servers, Api/Responses the bodies, Api/Node the handlers of
--   indexer/src/api/routes.ts, Api/Worker `handleRequest` of indexer/src/worker/routes.ts. JSON,
--   base64url and dates are the parameter `Codec`; the latest ledger and the live reads of thresholds
--   are arguments. What Express and the URL parser read from
--   a request (`req.params`, `req.query`, `searchParams`) is an argument too; of a parameter that is given
--   twice the two read different things (`Query`, `param_value`). Ledger/Rounds, Thresholds/Fetches,
--   Agreement, Watchers and Methods hold theorems.
-- Indexer/Examples, Indexer/WorkerExamples, Indexer/Api/Examples: concrete runs.
-- Sdk: packages/sdk/src. Sdk/Validate is validate.ts, Sdk/Hash hash.ts, Sdk/Quorum quorum.ts, Sdk/Vault
--   sla-vault.ts, Sdk/Registry watcher-registry.ts. A call is the contract, function and arguments that
--   `buildInvokeTx` is given; what a simulated read gives is an argument. StrKey, SHA-256 and the URL
--   parser are parameters. Vault/Laws holds theorems, Sdk/Examples concrete calls.
--
-- Bounds: `with_network_retry` makes at most three attempts, the source's own bound. The clients of
-- Tables/Pages and Api/Agreement follow pages on fuel; as much fuel as there are settlements is
-- enough. A retry after a creation (Web/ProviderSlas) has the source's bound of 18 as fuel. Every other loop is over a list or
-- a text; the steps of Web/Polling and Web/Pool are relations, and have no bound.
--
-- Assumed of the RPC, where a theorem names it (`Serves` of Ingest/History): a page is a piece of the
-- contracts' history that starts where the request asks, of any length, and its cursor stands at the
-- end of that piece and is not empty. Of JSON and base64url, `Codec` assumes that what is encoded is
-- decoded again.
--
-- Web: apps/web/lib. Web/Runs is an asynchronous function as its acts and its end; Web/States,
--   Web/Network, Web/Wallet and Web/Transaction are use-transaction.ts, network.ts, wallet.ts. Transaction/Diagram
--   has the states' diagram, Transaction/Steps and Transaction/Refinement relate the code to it,
--   Transaction/Refusals is about refused transactions. Web/Reads is read-error.ts with the classes
--   of errors; Web/Client, Client/Requests, Client/Watchers and Client/Endpoints are indexer.ts, and
--   Endpoints/Served relates it to the bodies of the indexer's answers. Web/Polling is use-polling.ts, with theorems on
--   one effect (Polling/Effects), on all of them (Polling/Overlap) and on the data shown
--   (Polling/Freshness). Web/History is use-settlement-history.ts, with Complete and Overtaking.
--   Web/Pool is `mapWithLimit` and Web/ProviderSlas the rest of use-provider-slas.ts; Pool/Progress,
--   Pool/Results and ProviderSlas/Laws hold theorems. Freighter, the RPC server and the browser are
--   parameters: one run of a transaction takes the answers of its calls (`Platform`), a request its
--   answer (`Browser`). Web/Format prints and parses token amounts (format.ts), with theorems in Format/Digits and Format/RoundTrip. Web/Form with
--   Form/Amounts is create-sla-validation.ts and Form/Submit is `handleSubmit` of
--   apps/web/components/dashboard/create-sla-form.tsx; Form/Accepted, Form/Buildable and Form/Reviewed
--   relate them to the checks of packages/sdk. Web/RoundStatus is use-round-status.ts, with its
--   theorem in RoundStatus/Labels. TransactionExamples, PollingExamples, PoolExamples,
--   HistoryExamples, FormatExamples, FormExamples, RoundExamples and Examples are concrete runs.
--
-- Between the two: the indexer answers with JSON (`settlements_json`), which the client checks. In
-- Web/History/Complete the requests of the client give the pages of one table (`Gives`).
--
-- Not modelled: HTTP headers, the network and the database drivers, logging, start-up, the
-- rendering of apps/web and its explorer links, short addresses and use-sla-config.ts,
-- client.ts and token.ts of packages/sdk, apps/docs, and the Go watcher.
pub mod Prelude
pub mod Js
pub mod Indexer
pub mod Sdk
pub mod Web
