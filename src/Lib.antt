-- ===== src/Lib.antt =====
-- Pregão (internal/, cmd/server/): an order management and market data service. This library
-- models its logic and proves what makes it correct.
--
-- Parts. A gRPC service takes trades (internal/service/service.go). It reserves a row in
-- PostgreSQL, loads and decrypts the tenant's credentials, places a market order with the broker,
-- and records the answer. It answers with quotes from a cache, from the broker, or from a cache of
-- stale quotes, and compares the broker's balances with the ledger's. A fill processor
-- (internal/worker/fill_processor.go), called by the service and by a webhook, settles fills
-- against one of two downstream services and updates the row.
--
-- Files. Errors: Go's errors and gRPC's status errors. Db/Models, Db/Orders, Db/Credentials:
-- internal/db/models.go, orders_repo.go, credentials_repo.go and the constraints of
-- internal/db/migrations/001_initial_schema.sql, one function for each method under its name in
-- snake case. Vault/Plaintext and Vault/Transit: internal/vault, the credentials with their wiping
-- and the client of the transit engine. Broker, Client: the data and the interfaces of
-- internal/broker and internal/client. Client/Livro/Grpc, Client/Ativos/Grpc: the gRPC clients of
-- the two downstream services. Config: internal/config. Db/Pool, Startup: internal/db/db.go, and
-- cmd/server/main.go up to its two listeners; Startup/Stopping: the whole of main, as the list of
-- what it opens, serves, stops and closes. Worker/Fill: ProcessFill. Binance:
-- internal/broker/binance, the client with its requests (Client), prices, symbols and balances
-- (Market), step sizes and statuses (Quantity). Webhook/Handler: internal/webhook/handler.go.
-- Cache/Quotes: internal/cache, with its interface in Cache/Client. Service/Server,
-- Service/Reserve, Service/Execute: the struct PregaoServer, reserveOrder with releaseReservation,
-- and ExecuteTrade. Service/Quotes, Service/Balances: GetQuotes with ValidateTickers, and
-- SyncBrokerBalances. Service/Interleaving: ExecuteTrade as steps of many requests in any order;
-- below it Environment, Seen, Reserving, Rounds, Statements, Finishing, Dispatching and Refines
-- connect the function of one request with these steps. The modules below these hold the proofs.
-- Tests: runs on concrete inputs and the theorems at such inputs.
--
-- State. World holds the two tables as lists of rows, the calls that the request made, the arrays
-- of the plaintext credentials that the vault client returned to it, and a schedule: the n-th
-- operation of a request asks it what other requests did to the rows before, whether the statement
-- failed, what the clock says and whether the context is done. A function takes a world and
-- returns its result beside the new one. A statement that fails changes nothing. A time is a
-- number of nanoseconds, with 0 for Go's zero time, and a UUID is a number, with 0 for uuid.Nil.
--
-- Parameters. shopspring/decimal (Decimal, with its laws in DecimalLaws), google/uuid (Uuid), the
-- generated gRPC stubs, HTTP, JSON, base64, query strings and the keyed hash (Http, Binance/Wire,
-- TransitWire in Vault/Transit, Json in Webhook/Handler), Redis (Cache/Quotes), os.Getenv
-- (Config), pgx (Db/Pool), dialling and listening (Platform in Startup), gRPC's GracefulStop (an
-- argument of Startup/Stopping). The service takes the broker, the vault, the ledger and the cache
-- by their interfaces, which Binance/Market, Vault/Transit, Client/Livro/Grpc and Cache/Client
-- fill. NUMERIC columns keep the value that `round` gives. Decimal/Whole is an instance on whole
-- numbers, by which the tests run. ToUpper, TrimSpace and EqualFold are those of Go on ASCII
-- texts. The quotes of %q stand for a text with nothing to escape. A SELECT that fits several rows
-- takes the first.
--
-- Fuel. The loop of reserveOrder takes fuel, one unit a round; a round that does not return sleeps
-- for the poll interval, so the intervals that cover the wait, and one round more, are enough.
-- With the waits that NewPregaoServer sets these are 301 rounds.
--
-- Not modelled: logging, the goroutines of cmd/server/main.go and the requests that still run in
-- them after a server has stopped taking more, what the vault client leaves in the service's
-- memory beside its answer (for the client itself it is in Vault/Leftovers), an order that the
-- broker took though its answer was lost, the proto messages but for their fields, metrics of time
-- other than the clock, and a statement that commits though its answer is lost, but for the
-- reservation in Service/Interleaving.
pub mod Prelude
pub mod Errors
pub mod Http
pub mod Decimal
pub mod Uuid
pub mod Vault
pub mod Broker
pub mod Client
pub mod Calls
pub mod World
pub mod Db
pub mod Worker
pub mod Webhook
pub mod Cache
pub mod Binance
pub mod Service
pub mod Config
pub mod Startup
pub mod Tests
