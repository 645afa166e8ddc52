-- ===== src/Lib.antt =====
-- A verification library for the notification service: an HTTP API takes notifications, keeps them in
-- PostgreSQL and puts them into Redis queues; a worker takes them out by priority and delivers them
-- through a webhook, behind a circuit breaker and a rate limiter for each channel, with retries and
-- dead letters; two pollers put scheduled notifications and retries into the queues.
--
-- The parts, and the files that model them:
--   Domain          internal/domain: the entities, their statuses and the sentinel errors. An error
--                   is a sentinel, a foreign error or one wrapped by `fmt.Errorf`.
--   Breaker         pkg/circuitbreaker/breaker.go: New, Allow, RecordSuccess, RecordFailure and
--                   Counts as functions of a breaker and the time.
--   RateLimit       pkg/ratelimit/limiter.go: the sliding-window script on one key with its expiry
--                   (`sliding_window_script`), and Limiter.Allow on the map of keys.
--   Queue           internal/adapter/queue and internal/port/queue.go: Enqueue, EnqueueBatch,
--                   Dequeue, Acknowledge and QueueDepth on sorted sets and processing sets.
--   Postgres        internal/adapter/repository/postgres: Notifications and Listing have the
--                   statements of notification.go on the list of rows, Templates those of
--                   template.go, Records those of delivery_attempt.go and dead_letter.go; Pages
--                   has the offsets and page counts that the Lists share.
--   Service         internal/service: Delivery has Process, handleRetry and publishEvent of
--                   delivery.go, stage by stage; Backoff the delay before a retry; Scheduler the two
--                   polls of scheduler.go; Create, Intake and Lookup the methods of
--                   notification.go; Templates Render and Preview of template.go and
--                   Templates/Store its other methods; World the state that the delivery works on.
--   Http            internal/adapter/handler: Response has the answers and writeError,
--                   Notifications and Templates the handlers on decoded requests, Metrics the
--                   collector and its handler with the health check, Middleware the wrappers.
--   Worker          cmd/worker/main.go: the ticks of runWorker (`round`, `rounds`), which take a
--                   message, process it by Service.Delivery and acknowledge it.
--   Event           internal/adapter/event/hub.go: the hub's map of clients and their channels, and
--                   what Run, Publish and writePump do as actions in any order.
--   Provider        internal/adapter/provider/webhook.go: Send by what each of its steps finds.
--   Cache           internal/adapter/cache/redis.go: the operations on keys with times of expiry.
--   Config          internal/config/config.go: DSN and intToStr.
--   System          the API's calls, the polls and the workers' ticks one after the other, on one
--                   database and one Redis (cmd/worker/main.go starts the workers and the polls).
--   Prelude         shared tests, lists, sorting, integers and decimal numbers.
--
-- How the parts meet. A handler calls a service, which calls a repository, the queue and the hub; a
-- tick of a worker dequeues, calls the delivery service with the provider's reply and acknowledges.
-- The definitions call each other in the same way, so a theorem on a handler or on a tick is about
-- the rows, the queues and the events that the parts below leave.
--
-- How state corresponds. A method that holds a mutex, a Lua script and a single SQL statement are
-- atomic in the program, and each is one function here from the old state to the new one. A history
-- is a list of such calls in the order in which they take effect, which stands for any interleaving
-- of the workers. The service's World puts the states side by side: the rows, the attempts, the dead
-- letters, the queues, the windows, the breakers, the metrics and the events.
--
-- What comes from outside is an argument: clock readings, new UUIDs, the draw of the random number,
-- the provider, and the failures of PostgreSQL and Redis, one for each place that can fail. A failed
-- statement or script changes nothing; a failed pipeline may have run the first of its commands.
-- google/uuid is the record UuidText, whose law says that a printed UUID parses back; text/template is
-- the record Engine.
--
-- Numbers. Counters are natural numbers: the breaker's are bounded by its thresholds, and a retry
-- count grows by one for each failure. Times are natural numbers since the epoch. A queue score is
-- exact below 2 ^ 53, which Queue/Score covers. The delay before a retry wraps at 2 ^ 64 as Go's
-- int64 does; the jitter is computed with float64's rounding after each operation, as on amd64
-- (Prelude/Float), and the product is cut to whole nanoseconds.
-- Redis and the limiter's callers are taken to share one clock. An offset of a page
-- wraps at 2 ^ 64, and one of 2 ^ 63 or more reads as negative, which PostgreSQL refuses. Only
-- excess_bits of Prelude/Float has fuel, for 192 bits beyond the 53 of a float64, where 118 are the most
-- that a delay needs; every other loop runs over a list, or as intToStr over the accessibility of a
-- falling number.
--
-- Order. SQL leaves the order of rows of equal created_at open: the SELECT of a List takes its rows as a
-- list of its own, in the order in which it meets them, which may differ from query to query.
--
-- Not modelled: the length limits and foreign keys of the columns, the scans of rows into structs,
-- JSON, logging and tracing, the routes, the upgrade of WebSocket connections with their deadlines,
-- pings and reads, the environment that config.Load reads through viper, and the main functions
-- apart from the worker's ticks: cmd/api/main.go only builds the parts and starts the server.
mod Prelude
pub mod Domain
pub mod Config
pub mod Http
pub mod Worker
pub mod System
pub mod Event
pub mod Provider
pub mod Cache
pub mod Breaker
pub mod RateLimit
pub mod Service
pub mod Queue
pub mod Postgres
