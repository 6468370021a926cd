-- ===== src/Lib.antt =====
-- A model of the resilience and governance core of network-mcp: an MCP server, in
-- src/network_mcp, that lets AI agents read and configure network devices. A request for a device
-- passes the tool wrappers of helpers.py: a rate limiter per device, user and tenant lets it through
-- or not, an idempotency key keeps a write from being executed twice, a circuit breaker refuses it
-- while the device is failing, a cache answers a read without asking the device, and change
-- management holds back a write that is not approved. The files are:
--
--   Base, Base/*           names of the libraries, tests on numbers and texts, lists, the clock, and
--                          integers with a sign. The clock counts nanoseconds. Base/Text has the
--                          methods of str that are written out (strip and prefixes).
--   Dict, Dict/*           Python's dict as an association list in insertion order, and its laws.
--   CircuitBreaker         circuit_breaker.py, class CircuitBreaker: one function for each method.
--     Invariant, Window, Backoff: its theorems.
--     Registry, Registry/* class CircuitBreakerRegistry, a dict of breakers made at first use.
--     Redis, Redis/*       distributed/redis_circuit_breaker.py against the local one.
--   CommandCache           cache.py: entries, LRU eviction by count and memory, statistics, storage
--                          in plain or encrypted form.
--     Loops, Put, Put/*, Read, Invalidate: its loops and its theorems.
--   RateLimiter            rate_limiter.py, class TokenBucket.
--     Bounds, Wait, Backoff: its theorems.
--     Limiters, Tiers      classes DeviceRateLimiter, UserRateLimiter and TenantRateLimiter.
--     Limiters/Budgets     the budgets of the devices.
--     Redis, Redis/*       distributed/redis_rate_limiter.py, and its window.
--   Idempotency            idempotency.py: the store of results and the keys in flight.
--     Capacity             `set` and the bound on the entries.
--     Threads, Threads/*   the threads that share a store, as a step relation.
--     Run                  what run_config_command of helpers.py does with the key at its end.
--   Rbac                   rbac.py, check_scope of middleware.py, feature_flags.py: the scopes of a
--                          token, what a tool wants, and the tenants of devices.
--     Scopes, Hierarchy, Authorization: the tables of scopes, and the theorems.
--   ChangeManagement       change_management.py: change requests as objects that two dicts share.
--     Marks, Rollback      the marks and snapshots of a change, and its rollback.
--     Risk, Risk/*         the risk of a change and its rollback commands.
--     Windows, Windows/*   maintenance windows.
--     Lifecycle, */*       the operations of a manager as a step relation.
--     Tools, Tools/*       tools/common/changes.py: the tools that show, approve and roll back.
--   RunConfig              run_config_command of helpers.py behind its idempotency key: the checks of
--                          a request in their order, over the parts above.
--     Checks, Run          its checks, and the rest of the request from each check on.
--     Ends, Settled, Attempts: the change request when it returns, and what is sent to a device.
--     Limited, Invalidated what the check of rates keeps, and the cache after a change.
--     Examples             a server, and a change on it, for runs.
--   RunShow                run_show_command of helpers.py over the same server.
--     Run                  the rest of the request from each check on.
--     Ends, Sources, Steps its steps; Justified and AfterChange, its theorems.
--   ApiKeys                api_keys.py: keys of service accounts, with SHA-256 as a parameter.
--     Lifecycle, */*       its operations as a step relation, and the keys over them.
--   Alerts, Alerts/*       alerts.py: what an alert manager keeps back, remembers and hands to its hooks.
--   Auth                   auth.py: what is taken of PyJWT, and access tokens.
--     Revocation, Refresh  classes TokenRevocationStore and TokenRefreshManager.
--     Keys, Verifier       classes JWKSKeyManager and JWTTokenVerifier.
--     Requests, */*        the calls of a manager in any order, and what they keep.
--     Grants, Revoked, */*, Confusion: their theorems.
--   ConnectionPool         connection.py, class ConnectionManager: the pool of drivers.
--     Threads              the threads that share it, as a step relation.
--     Sound, */*, Exclusion, */*: its theorems.
--   Bulkhead, Bulkhead/*   connection.py, class BulkheadManager, and the blocks that hold a slot.
--   Sessions               session_mgr.py: the sessions of users and the index of them.
--     Index, Upkeep, Room, Sweep, Creation, */*, Calls, */*: what the calls keep.
--     Requests, */*        the calls in any order, and the theorems about them.
--   */Tests                runs at concrete inputs.
--
-- Correspondence. A class is a record of its state, and a method a function of the same name from the
-- state to the state and what the method returns; `time.monotonic()` is an argument. A method that
-- runs under its object's lock is one step. An object that is shared through a dict is written back to
-- the dict after a call that changes it. An exception is a value of the result.
--
-- Fuel. `backoff_loop` of RateLimiter recurses on fuel: every round sleeps for at least one tick,
-- so max_wait + 1 rounds are enough, which its theorem takes. The two eviction loops of
-- CommandCache take one entry out in a round, so one round more than there are entries is enough.
-- RunConfig and RunShow give both loops this fuel. Every other loop is a recursion on a list or on
-- a text.
--
-- Outside the model. Floats are whole numbers of ticks and of grains of a token, so their rounding
-- is left out, and so is logging. Redis, the JSON codec of the distributed breaker, the
-- Fernet cipher and the JSON codec of the cache, PyJWT and the key set endpoint, the random jitter and
-- the lateness of `sleep` are parameters. So are fnmatch, difflib, str.lower and str.splitlines,
-- the regular expressions of hosts and windows, and what devices and the bulkhead reply. An audit
-- or metrics call, and an exception of one, is left out. Whether a device connects and answers is
-- an argument of the pool. Not modelled are the device drivers, the MCP tools, the rest of
-- helpers.py, the HTTP server with its store of sessions and the rest of auth.py, and the subsystems of
-- audit, service levels, leader election and telemetry; modules that only read or write files and
-- sockets have no state machine of their own.
pub mod Base
pub mod Dict
pub mod CircuitBreaker
pub mod CommandCache
pub mod RateLimiter
pub mod Idempotency
pub mod Rbac
pub mod ChangeManagement
pub mod RunConfig
pub mod RunShow
pub mod ApiKeys
pub mod Alerts
pub mod Auth
pub mod ConnectionPool
pub mod Bulkhead
pub mod Sessions
