-- ===== src/Lib.antt =====
-- TokenWeasel, a proxy in front of LLM servers that accounts the tokens and the energy of each
-- request. These modules model its core and prove what it promises.
--
-- The parts and their interplay. A request is admitted by the fair queue, sent to a backend, and
-- its response is streamed to the client while an accounting stream reads token usage from it. When
-- the stream ends, or the client goes away, the usage is recorded and the guards of the energy
-- meter, of the backend's load and of the fair queue are dropped. Logins go through a throttle. Who
-- a request comes from is decided by an API key or a session, over a store of users and keys which
-- the account handlers change. The configuration is resolved once, at start-up.
--
-- Provider (crates/twl-provider/src/usage.rs): `extract_usage` and its helpers, `scavenge_usage`,
-- the line parsers, and `Usage` of crates/twl-types/src/lib.rs; Provider/Models for the model
-- listings of crates/twl-provider/src/lib.rs. Json stands for serde_json's value.
-- Stream (crates/twl-server/src/proxy/stream.rs): LineBuffer and BoundedBuffer with their pushes,
-- Accumulate for `accumulate_usage`, Accounting for the streams as functions of the items that the
-- upstream delivers. The limits are arguments; `max_line` and `max_accounting_buffer` are theirs.
-- Backends (crates/twl-backends/src/lib.rs): Catalog for the entries and `build_routing`, Placement
-- for `ordered_candidates` and the strategies, Registry for `BackendRegistry` and `LoadGuard`.
-- Proxy (crates/twl-server/src/proxy/mod.rs): `proxy_handler` as the effects of a request and its
-- reply, and Proxy/Whole for it over the request's bytes and the registry; Proxy/Headers for
-- headers.rs and Proxy/Body for body.rs beside it.
-- FairQueue (crates/twl-server/src/fair_queue.rs): the state under the lock, `acquire`, `release`,
-- `admit_waiters`, the cancellation of a queued request, in Safety a step relation on it, and in
-- Course one under a clock that does not run backwards, with its admission history.
-- Throttle (crates/twl-server/src/ratelimit.rs): `LoginThrottle` and `backoff_for_failures`.
-- ClientIp (the same file): `client_ip`, with addresses and their parser as parameters.
-- Sessions (crates/twl-server/src/session_store.rs): the operations on the map of browser sessions.
-- Energy (crates/twl-backends/src/energy.rs): `EnergyMeter` and the drop of its guard.
--
-- Identity (crates/twl-store/src/identity.rs and schema.sql beside it): the tables and every statement
-- on them, Integrity and Reach for their constraints over runs of statements, Credentials, Issue,
-- Revocation and Owned for which keys authenticate whom.
-- Accounts (crates/twl-auth/src/accounts.rs): the account operations, and Accounts/Handlers for
-- crates/twl-server/src/handlers/accounts.rs. A request runs one or two transactions; what other
-- connections do in between is an argument, and so are the failures.
-- Auth (crates/twl-auth/src/lib.rs and apikey.rs, crates/twl-server/src/auth.rs): bearer credentials,
-- client keys and `require_auth`; Auth/Login for the login backend and handlers/session.rs,
-- Auth/Login/Locked for what other logins can do to a lock-out.
-- Pricing (crates/twl-pricing/src/lib.rs): `sanitized` and `cost`. Floats are an argument.
-- Config (crates/twl-config/src/config.rs): `Config::resolve` with all that it calls; the environment,
-- the file system and the parsers are the record Outside.
-- Watchdog (crates/twl-server/src/watchdog.rs): the rounds that poll a backend's models.
-- Usage (crates/twl-store/src/usage.rs): the buckets of a day and the pruning of old rows, with
-- crates/twl-server/src/retention.rs, which calls it.
-- Tests has runs at concrete inputs.
--
-- Bounds and fuel. An `i64` is an integer with saturation written out, `sequence` of the queue
-- wraps at 2 ^ 64, counters of requests in flight and of rotations wrap at 2 ^ 32, and `failures`
-- of the throttle saturates at the largest u32. `admit_waiters` runs on fuel: `release` gives it
-- one round more than there are waiters, and each round takes a waiter. The search for a free
-- session id runs on fuel as well, and ends within it if the generator gives a free id within it.
--
-- The sort by load reads a counter at each comparison, at a moment of its own. Where the readings
-- contradict each other the standard library's sort may panic, which is left out.
--
-- Not modelled: the web framework, TLS connections, recording usage and the queries that sum it up,
-- the dashboard, log lines. The engine of the database is not modelled either: a transaction is taken
-- to run whole or not at all. Password hashing, digests and random numbers are parameters.
-- Decoding of UTF-8, parsing and printing of JSON, the hash of a prompt prefix, the standard library's
-- unstable sort and the float bound on load are parameters where the program calls them.
pub mod Prelude
pub mod Json
pub mod Provider
pub mod Stream
pub mod FairQueue
pub mod Throttle
pub mod Energy
pub mod Backends
pub mod Proxy
pub mod ClientIp
pub mod Sessions
mod Tests
pub mod Identity
pub mod Accounts
pub mod Auth
pub mod Pricing
pub mod Config
pub mod Watchdog
pub mod Usage
