-- ===== src/Lib.antt =====
-- walastack: the runtime kernel, the job queue, and the crates for applications, modelled and proved.
--
-- Parts, and the files that model them:
--   Base        helpers: Boolean tests, lists, association lists, machine words, results.
--   Scheduler   crates/walastack-runtime/src/scheduler.rs. Backoff has `Backoff::delay_for` and its
--               helpers, over the operations of f64 as a parameter. Attempts has `run_attempts`: a run
--               gives the effects in order (calls, events, sleeps) for the readings of each attempt.
--               Loop has `run_schedule` and `next_delay` over the rounds of a run. Registry has
--               `Scheduler` and its handles as a step relation over the threads.
--   Supervision crates/walastack-runtime/src/supervision.rs. Watcher has `supervise` over the turns of
--               its loop; Tree has `start_service`, `drain` and `shutdown_now`.
--   Capabilities  crates/walastack-runtime/src/capabilities.rs. Registry has `CapabilityRegistry`, View
--               has `Capabilities` and the strategies.
--   Events      crates/walastack-runtime/src/events.rs: the channels of each type and `shutdown`;
--               Receivers has subscribers, workers and the shutdown signal.
--   Kernel      resources.rs, plugins.rs and runtime.rs of crates/walastack-runtime/src: what plugins
--               register, what a builder checks, and the phases of a run.
--   Jobs        crates/walastack-jobs/src/lib.rs. Store has `InMemoryJobStore`, Contract what every
--               `JobStore` promises, which Store/Implements fills. Dispatch has the
--               handlers, `dispatch_one` and `worker_loop`; Dispatch/Attempts has the interleavings of
--               workers over the store. Plugins has `JobsPlugin`, `InMemoryJobStorePlugin`, the start of a
--               `Worker` and the public `enqueue`. Rows has the row mapping of
--               crates/walastack-jobs/src/sqlite.rs, and Sqlite what its SQL statements do.
--   Router      crates/walastack-router/src/lib.rs: `Router` over matchit, and `translate_path`.
--   Http        crates/walastack-http/src/lib.rs: responses; Extract has the extractors.
--   Auth        crates/walastack-auth/src/lib.rs: secrets, claims and `JwtCodec`. Extractor has `Auth` and
--               its rejections, Sessions the session store, Plugins the three plugins.
--   OpenApi     crates/walastack-openapi/src/lib.rs. Schema and Routes have the builders, Paths has
--               `normalize_path`, Document has `render_document`.
--   App         crates/walastack-app/src/lib.rs: `App` and `dispatch_request`. Handlers has `Handler::call`
--               and `Cap`, Documents the route of the document, Protection a route behind `Auth`, Server
--               has `App::run` and the accept loop.
--   Mcp         crates/walastack-mcp/src: Config has config.rs and errors.rs; InMemory has inmemory.rs and
--               descriptors.rs; Environment and Watching have service.rs and plugin.rs; Connection has
--               jsonrpc.rs and the requests and the reader of stdio.rs, and Correlation their interleavings;
--               Stdio has `open` and `StdioMcp`.
--   Observability  crates/walastack-observability/src/lib.rs: the observer and the health registry.
--   Llm         crates/walastack-llm/src/lib.rs: requests and the two providers.
--   Database    crates/walastack-db/src/lib.rs: what its plugins register.
--   Json        the operations of serde_json that the crates call, as a parameter, with its laws.
--
-- How they interact: a plugin fills the registries of the builder; `build` freezes them and checks the
-- requirements; `start` hands each service to the supervision tree; a job worker is such a service,
-- which pulls from the store and computes the delay of a retry by the scheduler's backoff. An
-- application is a router and plugins: its server is a service, which puts the runtime's context into
-- each request, and extractors look up settings and capabilities there. The observer gets the events
-- that the watchers of services publish.
--
-- Conventions: a type is its number in place of `TypeId`, and a provider or resource is a number that
-- stands for its `Arc`. An erased value keeps the type that it was stored under, so that a downcast
-- can fail. Durations and times are natural numbers of nanoseconds; wrap-around and saturation are
-- written out (u32, u64, `Duration::MAX`). A map is an association list in which a key stands once.
-- What the outside decides (a task's answer, a clock, which branch of `select!` wins) is a reading,
-- one record for each turn of a loop; a loop with no bound of its own is run over a list of turns, so
-- every finite prefix of its behaviour is covered and no fuel is needed.
--
-- Code outside the repository is a parameter: jsonwebtoken (JsonWebToken), serde_json (SerdeJson),
-- matchit (Matchit), the answer of reqwest to a call, f64 (Floats), the parse of an address and the
-- answer of a bind. What theorems ask of it is in IsStandard (a token of jsonwebtoken has no white space
-- and is accepted with its own secret until 60 seconds after its expiry) and FindsLiterals (matchit finds
-- a route with no brace under itself) and Json/Laws (serde_json reads what it made, and null is empty). A table from handles to
-- values stands for what an `Arc` points to.
--
-- Not modelled: tokio's channels and async-channel beyond what they answer, the parsing of cron
-- expressions, f64 arithmetic, SQLite beyond the statements of the store, what an MCP
-- subprocess does beyond its answers, the pools of sqlx, macros and the command line,
-- formatting of messages (an error mostly keeps the values that it shows), logging, and `Debug` or
-- `Display` implementations.
mod Base
pub mod Scheduler
pub mod Supervision
pub mod Capabilities
pub mod Jobs
pub mod Events
pub mod Kernel
pub mod Router
pub mod Json
pub mod Http
pub mod Auth
pub mod OpenApi
pub mod App
pub mod Mcp
pub mod Observability
pub mod Llm
pub mod Database
