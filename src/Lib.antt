-- ===== src/Lib.antt =====
-- A model of conductor, the service that takes product feeds over HTTP, finds what has changed since
-- the last feed, and has a worker push the changes to the sales channels.
--
-- A batch of products comes in through the API (cmd/api, internal/api), is validated, hashed and
-- compared with the stored hashes (internal/ingest), and becomes a run in the store
-- (internal/state). The worker (internal/worker) claims the runs that have changes and lets the
-- executor (internal/execute) hand the enqueued products to a hook.
--
-- Prelude: tests, lists, maps, orders and sorting, texts, and Go's pairs of a value and an error.
-- Json, Host: JSON documents, and what comes from outside the sources as a parameter: the Unicode
--   table of strings.ToLower, the order of a range over a map, json.Marshal and SHA-256.
-- Domain: internal/domain, one record or data type for each struct or enumeration.
-- Ingest.Validate, Ingest.Delta, Ingest.Hash, Ingest.Processor, Ingest.Parse: validate.go,
--   delta.go, hash.go, processor.go and parse_products.go in internal/ingest. Each function keeps its
--   name; the loop over a batch is process_loop, that over a feed parse_items. Ingest.Decode is what
--   encoding/json does to the types that the parser decodes into; the reading of a text as a JSON
--   value, the folding of field names and the rounding to float64 are a parameter, Decoder.
-- State.Records, State.Store: internal/state/state.go; Store is a record of operations over a type
--   of states. State.Spec: what a store promises, as the reply of each call and the state that it leaves, a state
--   being four functions. State.Memory:
--   memory_store.go and memory_runs_queue.go. The mutex of the memory store makes a method one step,
--   so a method is a function on the four maps, and the interleavings of servers and workers are the
--   sequences of State.Memory.Steps; State.Memory.Refine holds each call against the specification.
-- Sql: what is used of database/sql. The driver, the database and the conversions of Scan are a
--   parameter, Database. State.Rows, State.Mysql: mysql_store.go and mysql_runs_queue.go, with the
--   text and the arguments of each statement. What a statement does is no definition: a theorem that
--   relies on it has it as a hypothesis (KeepsRunRow, KeepsQueue, KeepsKeys, LimitsProducts). In these a
--   commit that reports an error has taken effect as a whole or not at all, and a rollback changes
--   nothing that other sessions see.
-- Migrate: internal/migrate/migrate.go; the files and the paths of the operating system are a
--   parameter, Files, and what the database keeps of migrations is the hypothesis Journal, in which
--   any statement may fail.
-- Execute: internal/execute/executor.go. Worker: internal/worker, with the events that the select
--   of the loop receives as a list.
-- Api.Context, Api.Http: internal/api/tenantctx and internal/worker/ctx.go, and what the handlers
--   use of net/http: a handler takes the clock, a request and the store's state, and gives back a
--   response and the new state. Api.Auth: internal/api/auth. Api.Middleware: internal/api/middleware
--   and the chain of cmd/api/main.go. Api.Upsert:
--   internal/api/handlers/debug_upsert.go, with the decoder, the run id and the encoder as arguments.
--   Api.Bulk: debug_upsert_bulk.go beside it, with the lines that bufio.Scanner finds; the unpacking
--   of gzip is a parameter. A last line without an end that has exactly the bytes of the buffer is
--   taken as too long, as it is when the reader reports the end of the body in a read of its own.
--   Api.Runs: debug_runs.go beside them. Api.Server: the routes of cmd/api/main.go; the redirects of
--   http.ServeMux to a cleaner path are a parameter.
-- Startup: internal/config, internal/db, internal/state/factory.go, the reading of the public key in
--   internal/api/auth, and the start of cmd/api/main.go up to its routes. The environment, the driver
--   behind database/sql and the PEM parser are parameters; an exit is a value with the message that is
--   logged. The timeout of the migrations is not represented.
-- Mint: cmd/mint-token; PEM, the parsers of private keys and the signature are a parameter,
--   SigningLibrary, and that two keys belong together is the hypothesis IsPair.
-- Service: the worker of cmd/worker/main.go, and requests and passes of the worker on one store in
--   memory, each as a whole, and what a pass of that worker does. The two commands share a store only over the database: with the backend
--   "memory" each builds its own, and the shared store here stands for what the store promises.
-- Legacy: the older stores, handlers and middleware of internal/ingest, beside those of the API.
-- Tests: small runs, and the theorems at concrete inputs.
--
-- Counters and ids are natural numbers; int parameters that may be negative are integers; times and
-- durations are nanoseconds. Maps are association lists, in which writing a key replaces it. The
-- order in which a map is visited, and in which sort.Slice leaves equal elements, is a permutation
-- that the definitions take as a parameter. Every loop runs over a list, so no definition needs
-- fuel. The JWT library is a parameter of the token check. The columns of a disposition hold one of
-- the three texts that the store writes.
--
-- Not modelled: what MySQL does with a statement; run ids, whose bytes are random; logging; the key
-- files of cmd/gen-keys, which are the libraries' work; listening, signals and the shutdown.
pub mod Api
pub mod Domain
pub mod Execute
pub mod Host
pub mod Ingest
pub mod Json
pub mod Migrate
pub mod Prelude
pub mod Service
pub mod Sql
pub mod Startup
pub mod Mint
pub mod State
pub mod Tests
pub mod Worker
pub mod Legacy
