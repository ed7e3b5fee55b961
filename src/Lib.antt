-- ===== src/Lib.antt =====
-- The Go key pool system: an API accepts requests, a bounded priority queue holds them, workers take
-- them one at a time, get an API key from a pool, call the destination with it, and retry or settle
-- the request, in a database of four tables. This library models the configuration, the key pool, the
-- queue, the workers, the tables, the HTTP API, the start and the end, and proves what they promise.
--
-- The parts and their code, by paths from the repository's root:
-- - Keypool.CircuitBreaker: internal/keypool/circuitbreaker.go. A breaker is a record; the clock is an
--   argument in nanoseconds. Machine runs a breaker through a list of calls.
-- - Keypool.PoolKey: internal/keypool/types.go, one function per method of PoolKey.
-- - Keypool.RoundRobin and Keypool.WeightedRoundRobin: internal/keypool/roundrobin.go and weightedrr.go,
--   the two implementations of KeySelectionStrategy, with Select as a function to the choice and the
--   state after it.
-- - Keypool.Manager: internal/keypool/manager.go. Pointers to keys are addresses into a store, since
--   the reload and the workers share them. GetKey is get_key and ReleaseKey is release_key;
--   Keypool.Marks has MarkSuccess and MarkFailed, Keypool.Loading reloadKeys and updateStrategy.
--   Leases is the manager together with the workers that hold keys and the parts of GetKey, as a step
--   relation over the lemmas of Holding and Parts.
-- - Queue.Item and Queue.Heap: internal/queue/types.go and priority_queue.go, with the functions of Go's
--   container/heap on top of the methods Less, Swap, Push and Pop.
-- - Queue.Bounded: Enqueue, Size, Close and findLowestPriority of internal/queue/queue.go.
--   Queue.Dispatch: dispatchLoop and drainRemaining, beside the callers of the queue, as a step relation.
-- - Worker.ProcessItem: processItem of internal/worker/worker.go with what it calls. Worker.Retry:
--   retry.go, with float64 given. Worker.Pool: pool.go, as a step relation of the workers' loops, the
--   timers of delayedEnqueue, the dispatch loop, Close and the cancellation of the context.
-- - Db.Adapter: the rows of internal/db/adapter.go, and the writes whose errors the code drops, as values.
-- - Db.Table: what the SQL statements do to the rows of one table. Db.Keys, Db.Requests and Db.Settings:
--   internal/db/sqlite_keys.go, sqlite_requests.go and sqlite_config.go, one function per method of
--   SQLiteAdapter, under the constraints of migrations/*.sql. Db.Scan: the conversions of columns, also
--   those of sqlite.go. Db.Database: the four tables together.
-- - Db.Migrations: internal/db/migrations.go. Crypto: internal/crypto/crypto.go.
-- - Worker.HttpClient: Do of internal/httpclient/client.go, which the workers are given as their client.
-- - Worker.Lifecycle: processItem on these tables, round after round.
-- - Api: internal/api. Api.Submit, Api.Keys and Api.Settings are the handlers of handlers.go, each a
--   function from the request and the server to the outcome and the server after it; Api.Router is
--   router.go and middleware.go, Api.Http and Api.Server what they share. Keypool.Health is what the
--   handler of the pool's health reads.
-- - Config.Environment, Config.Validators and Config.Static: internal/config/helpers.go, validators.go and
--   config.go, with the environment and the parsers of strconv given. Config.HotReload: the record and
--   Update of reload.go, over an abstract type of floating-point numbers.
-- - Program.Start: main of cmd/main.go up to the start of the HTTP server, with NewSQLiteAdapter, and
--   Keypool.NewManager. Program.Reloads: the two loops StartReloadLoop, as ticks. Program.Journey: a
--   request from its submission to a poll for its result. Program.Stop: main from the signal to its
--   end, as steps beside the handlers and the goroutines.
-- - Metrics: the counters by status code of internal/metrics/metrics.go, with RecordStatusCode as steps
--   that interleave.
-- - Prelude: lists, tests and signed integers over the native numbers.
-- - Tests: runs at concrete inputs.
--
-- Integers: a Go int is ℤ without its bound, and ℕ where the code keeps it from going below 0; the
-- round-robin counter wraps at 2 ^ 64. A time is a number of nanoseconds.
--
-- Fuel: get_key gives its loop the number of available keys; up and down of the heap, and the loop
-- of drainRemaining, get the length of the slice, and their theorems hold for that fuel. Worker.Pool
-- takes the drain an item at a time, without fuel.
--
-- A method that holds a mutex is one step. GetKey holds the read lock of the manager only,
-- MarkSuccess and MarkFailed hold none throughout: as functions they are calls that no other comes
-- between, and Keypool.Manager.Leases has their parts. What lies outside is a parameter: the HTTP
-- client and the decryption are functions that the worker is given; the rows that the database
-- returns to the pool are arguments; whether the driver carries a statement out, its ORDER BY, the
-- decoders of JSON, the encryption and the UUIDs are arguments of the tables and the handlers; hex,
-- AES-GCM, the files and scripts of the migrations and the parser of their versions are arguments
-- too. A handler runs at once, except in Api.Submit.Race: its calls of the database are not
-- interleaved with another's.
--
-- Not modelled: the gauges and the latency of the metrics, and the text that Handler prints; the
-- patterns and time limits of the HTTP server of net/http, a server that cannot listen, when a
-- ticker ticks, and logging.
mod Prelude
pub mod Crypto
pub mod Db
pub mod Config
pub mod Keypool
pub mod Metrics
pub mod Queue
pub mod Worker
pub mod Api
pub mod Program
pub mod Tests
