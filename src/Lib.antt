-- ===== src/Lib.antt =====
-- m3-core-rs, the Rust core of a memory system, modelled part by part.
--
-- The parts and how they interact. Callers hand texts to the dispatcher (crates/m3-dispatcher),
-- which queues single texts in buckets by length, coalesces them into batches for a model backend,
-- and guards the backend with a circuit breaker from crates/m3-resilience. The daemon dispatchd
-- (crates/m3-dispatchd) keeps a hub of rings: a sender rings recipients, a reader set waits for its
-- rings over an HTTP route. The governor (crates/m3-governor) tells background work how to pace
-- itself under load. The query side chooses a branch for a query (crates/m3-route) and compiles its
-- text for the full-text index (crates/m3-fts); candidates by meaning come from the resident vector
-- index (crates/m3-vector). The embedding server (crates/m3-embed-server) checks its configuration
-- before it listens, and the token of every request of other machines; its settings come from a
-- file and a flag (crates/m3-config). All report errors in the type
-- of crates/m3-error.
--
-- Which file models which part.
--   Base         numbers, lists, texts as UTF-8 bytes, strings as code points, maps as association
--                lists with one entry for a key, the part of `f64` that the program uses.
--   Errors       crates/m3-error/src/lib.rs: `M3Error` and its `Display`.
--   Resilience   crates/m3-resilience/src/lib.rs: `CircuitBreaker` as a record and each method in
--                its `_at(now)` form as a function on it; `Call` and `run` are a client's history.
--   Governor     crates/m3-governor/src/lib.rs: `GovernorConfig::new` and `decide`.
--   Dispatchd    crates/m3-dispatchd/src: Addressing is `sees`, Keys the key of a reader set, Hub
--                the state under the hub's lock with `ring`, the sections of `wait`, `take` and
--                `status`; Hub/Waiting runs one waiter section by section, Hub/Wakeup and
--                Hub/Accounts let any number of callers interleave their sections; Api is the
--                guards of the two routes.
--   Dispatcher   crates/m3-dispatcher/src/lib.rs: Queue is `LengthBucketQueue`, Latency is
--                `LatencyRing`, Breaker the lock and the lock-free copy around the breaker of
--                Resilience, Batch the task that serves a batch and the direct path, Scheduler
--                the submission of a job and the steps of `scheduler_loop`.
--   Route        crates/m3-route/src/lib.rs: `extract_signals` and `decide_route`.
--   Fts          crates/m3-fts/src/lib.rs: the sanitizers and `compile_fts_query`.
--   Graph        crates/m3-graph/src/lib.rs: the traversals of `GraphIndex`.
--   EmbedServer  crates/m3-embed-server/src/security.rs: Digest is `parse_digest`, Plan is `plan` and
--                `parse_listen`, Plan/Tls is `server_tls_config`, Bearer is `require_bearer` and the
--                atomics of `warn_rejected`.
--   Vector       crates/m3-vector/src/index.rs: Index is `VectorIndex` with the end of `store` and
--                `remove`, Upsert the checks, the quantisation and the insertions, Search and Heap
--                are `search`; History runs a list of calls on a new index.
--   Config       crates/m3-config/src/settings.rs: the keys and `from_toml`, Carets the text of a
--                `--set`, Flag `parse_set`, Lookup `Config::get` and the accessors on it.
--
-- State and operations. An operation on a struct is a function from the record to the record and
-- the answer; a section under a lock is one step, and an atomic operation is another: a ring's
-- notification, the sends of a caller and the end of a flush iteration are steps of their own.
-- Instants and durations are numbers of nanoseconds, and the clock's reading is an argument. A
-- caller that waits for an answer is the number of its reply channel. A batch task's records on
-- the shared breaker and latency ring are a list of effects, since other tasks act in between.
--
-- Numbers, bounds and fuel. Numbers are naturals; wrap-around of the queue's atomic total is
-- written out at 2^64, and saturation where the source saturates. `f64` is the parameter `Floats`
-- with laws of IEEE 754; `fixed` of Base/Ieee meets them. The scores of Route are exact tenths.
-- `drain_all` takes one unit of fuel for each batch and one for the end, so that more fuel than
-- jobs is enough; `coalesced` takes a round for each job, since each round but the last removes
-- one; a waiter whose deadline has passed is done after seven sections; a breadth-first search
-- takes one unit for each node that leaves its queue; `chunks_exact` takes one for each row.
--
-- What stands outside. The model backend, the regular expressions of Route, Unicode's tables,
-- petgraph's list of a node's neighbours, `f32`, Rayon's splitting of a search, a heap's order of
-- iteration, rustls, the http crate, aws-lc-rs, the parsing of addresses and of TOML and the
-- reading of files are parameters.
--
-- Not modelled. JSON, HTTP, sockets, logging, the Python bindings, the llama.cpp and ONNX backends
-- and the service managers are input and output or calls of other libraries. The scheduler's
-- coalescing window, rank fusion, the edits of the graph and its shortest path, the vector kernels
-- and the displacement guard, redaction, ingestion, the roots and secrets of the configuration and
-- the units of the embedding server are left out.
pub mod Base
pub mod Errors
pub mod Dispatcher
pub mod Resilience
pub mod Governor
pub mod Dispatchd
pub mod Route
pub mod Fts
pub mod Graph
pub mod EmbedServer
pub mod Vector
pub mod Config
