-- ===== src/Lib.antt =====
-- The wallet and ledger engine: wallets whose balances are backed by a double-entry ledger, transfers
-- between them, payments from an external provider, an outbox for the broker, and a reconciliation.
--
-- Parts, by file (paths are from the repository's root):
-- - Base, with Base.Int for Go's int64: shared names, Boolean tests, strings and lists of rows.
-- - Models: the structs and enumerations of the packages (internal/*/models.go and the like). Errors is
--   one type for the errors of all packages, a wrapped error being a constructor that keeps the error.
-- - Store: the twelve tables of db/migrations as lists of rows, the counters of
--   internal/observability/metrics.go and the broker's topics, which make up a World; the calls of the
--   database as an Action, a World to a result and a World. Store.Laws has the rules for successful
--   runs, and the ends of a transaction.
-- - Ledger: CreateTransaction of internal/ledger/repository.go. Ledger.Sums has exact sums of entries,
--   Ledger.Validation the checks, Ledger.Posting what a successful call inserts.
-- - Outbox: internal/outbox and Publish of internal/kafka/producer.go. Growth says what the services do to
--   the outbox, Delivery and Published what the worker does.
-- - Idempotency: internal/idempotency/repository.go.
-- - Transfers: ExecuteTransfer of internal/transfers/service.go, statement by statement; its Handler
--   is HandleTransfer of internal/transfers/handler.go. Locking, Settlement and Execution describe a
--   successful run, Effects the contract, Canonical the wallets between which the money moves.
-- - Wallets: internal/wallets/repository.go; its Service and Handler are the other files of the package.
-- - Payments: internal/payments/service.go and ProcessPayment of provider.go; its Handler is handler.go.
-- - Reconciliation: internal/reconciliation.
-- - Books: the agreement of the wallets with the ledger, and the changes of the tables that keep it.
-- - Auth: internal/auth; bcrypt and the JWT library are parameters. Middleware: internal/middleware/auth.go.
-- - RateLimit: Allow of internal/redis/client.go and internal/middleware/rate_limiter.go.
-- - System: the calls that reach the services, and histories of them. Maintained is the
--   induction over a history for what the services' operations keep of the tables and the broker, Kept
--   for what they keep of the tables; Books, Keys, Replays, Credits and Events apply them to the ledger,
--   to a request's key and its row, to a settled payment and to the outbox. Reads, Sides, Quiet and Still say what an
--   operation leaves alone.
-- - Server: internal/server/server.go, the RegisterRoutes of the handlers and
--   internal/middleware/metrics.go. Combinators has what holds of every handler of a router, Endpoints is
--   the table of the endpoints, which Groups, Routes and Granted compare with the router; Histories
--   describes the life of the process, Access, Operators and Anonymous who may do what.
-- - Startup: cmd/api/main.go with internal/config/config.go, internal/logger/logger.go, the Connect of
--   internal/database/database.go and internal/redis/client.go, and NewProducer of
--   internal/kafka/producer.go. Boot says when the process comes to serve.
-- - Locks: calls of ExecuteTransfer that run at the same time. A turn runs from one row lock of the
--   source to the next; Step lets any session take a turn that need not wait, or the service answer
--   another call in between, and Reach is what such steps lead to. Alone is one session by itself, Kept
--   the invariant of the sessions, Contracts what each of them does, Progress, Schedules and
--   Crossed are about waiting and about the end.
-- - Requests: calls of HandleTransfer that run at the same time, a turn being one call of the keys or the
--   wallets or a turn of the transfer. Alone is one request by itself, Held and Once are about the keys.
--   Any request may take its turn there, also one that would wait for a row.
-- - Examples: a small database, and the results at concrete inputs.
--
-- The handlers call the services, the services their repositories; transfers and payments also call the
-- ledger and the outbox inside their transaction, and the transfer handler the idempotency keys. All of
-- them share the tables.
--
-- The Engine is the parameter for what the services decide beyond the tables, at their n-th call: a call
-- may fail, a COMMIT may be lost before or after it is durable, and a publication likewise. It gives the
-- generated ids and the time, and reads the text of a UUID. Books.IsFaithful is what is asked of the ids
-- and of that reading. An INSERT or an UPDATE lists the constraints of the migrations that it can violate, in the order
-- types, checks, keys, references. Times are numbers, and JSON documents are values. HMAC, the draw of
-- the payment simulator, and the decoding of a request's body are arguments.
--
-- Integers are exact over the native numbers. Where Go adds int64 values the sum wraps (◌+₆₄◌); a BIGINT
-- column refuses what is out of range. Loops are recursions on the list they run over, so that there is
-- no fuel.
--
-- What PostgreSQL does with row locks is the premise IsGranted of a step: a turn that locks a row waits
-- until no other session has it. A call other than a transfer is one step, and is taken not to change a
-- row that a transfer has locked (Untouched), as it would wait for it. Between the locks of a transfer
-- nothing is written, so that its rollback there restores nothing.
--
-- Not modelled: the shutdown of the process, the log, the timeout of a request and the recovery from a
-- panic; a single INSERT or UPDATE outside a transaction that is durable although the client sees an
-- error; a request with a method that chi does not know, which it answers 405 before any middleware of
-- the routes. The router of chi is written out as tests on the segments of a path, what the CORS library
-- answers by itself is an argument, and the address of a connection is as chi's RealIP leaves it.
pub mod Base
pub mod Models
pub mod Store
pub mod Ledger
pub mod Outbox
pub mod Idempotency
pub mod Transfers
pub mod Payments
pub mod Books
pub mod Http
pub mod Wallets
pub mod Reconciliation
pub mod Auth
pub mod Middleware
pub mod RateLimit
pub mod System
pub mod Server
pub mod Startup
pub mod Locks
pub mod Requests
pub mod Examples
