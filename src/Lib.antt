-- ===== src/Lib.antt =====
-- A model of parts of bt_api_base, the Python library of exchange interfaces below
-- src/bt_api_base/: rate limiting, connection pooling, caching, the gateway's subscriptions and
-- orders, unified errors, events, instruments, plugins, WebSocket connections, the redaction of
-- credentials, asynchronous utilities and dependency injection.
--
-- The parts and their files
--
-- - Prelude, with Prelude/Tests, Prelude/Lists, Prelude/Set, Prelude/Dict: Boolean tests, lists,
--   a Python set as the list of its elements, a Python dict as an association list in the order
--   of insertion (`insert` on a present key keeps its place, as an assignment does).
-- - RateLimit: src/bt_api_base/rate_limiter.py. RateLimit/Sliding is `SlidingWindowLimiter` (a
--   deque of times and weights), RateLimit/Fixed is `FixedWindowLimiter`, RateLimit/Limiter has
--   the rules and `RateLimiter`, whose `acquire` charges the limiter of every matched rule and
--   gives the charges back when one refuses; RateLimit/Limiter/Wait is `wait_and_acquire` and the
--   loop of `async_acquire`, which calls `acquire` until it is granted.
-- - Gateway/Subscriptions: `SubscriptionManager` of
--   src/bt_api_base/gateway/subscription_manager.py, the symbols of each strategy and the
--   reference count of each symbol.
-- - Gateway/Orders: `OrderIdentityMap` of src/bt_api_base/gateway/order_identity_map.py, whose
--   three indices share the entries: a heap of entries and three dictionaries of addresses.
-- - Gateway/OrderRefs: `OrderRefAllocator` of src/bt_api_base/gateway/order_ref_allocator.py, a
--   counter with a state file.
-- - Connections: `ConnectionPool` of src/bt_api_base/connection_pool.py, its idle connections,
--   those in use and those closed; Connections/Async is `AsyncConnectionPool`, with its
--   semaphore.
-- - Cache: src/bt_api_base/cache.py. Cache is `SimpleCache`, an ordered dictionary whose first
--   entry is the least recently used; Cache/Exchange has `ExchangeInfoCache` and
--   `MarketDataCache`, which hold such a cache, and Cache/Cached the decorator `cached`, which
--   reads it before a call and writes it after.
-- - Errors: src/bt_api_base/error.py. Errors/Codes has the codes and categories, Errors/Translate
--   the translators from a response of an exchange to an error, Errors/Outcomes what they
--   promise, Errors/Exceptions the classes of src/bt_api_base/exceptions.py.
-- - Gateway/Health: `GatewayHealth` of src/bt_api_base/gateway/health.py, the states, counters
--   and last errors of a gateway.
-- - Redaction: src/bt_api_base/feeds/transport_safety.py, which takes credentials out of texts,
--   urls and nested values.
-- - Events: `EventBus` of src/bt_api_base/event_bus.py, with the three modes of `emit`; a handler
--   may change the bus while it runs.
-- - Instruments: src/bt_api_base/instrument_manager.py, the three indices of instruments.
-- - Plugins: Plugins/Registry is `ExchangeRegistry` of src/bt_api_base/registry.py,
--   Plugins/Adapters `GatewayRuntimeRegistrar` of src/bt_api_base/gateway/registrar.py and its
--   isolated kin, Plugins/Loader is src/bt_api_base/plugins/loader.py: a plugin registers into an
--   isolated registry, which is then checked and committed to the shared one.
-- - WebSocket: src/bt_api_base/websocket_manager.py. WebSocket/Connection has a connection with
--   its subscriptions, WebSocket/Reconnect the loop that reconnects, WebSocket/Dispatch the way
--   of a message to callbacks, WebSocket/Manager the pools of connections.
-- - Core: Core/CircuitBreaker, Core/Retry and Core/RateLimit are the decorators and the limiter
--   of src/bt_api_base/core/async_context.py; Core/RateLimit has also `RateLimitService` of
--   src/bt_api_base/core/services.py. Core/Container is `DIContainer` of
--   src/bt_api_base/core/dependency_injection.py.
--
-- Each operation is a function of the state and gives the new state beside its result. The source
-- holds a lock through each method, so that a method is one step, and a history is a list of
-- calls. In `RateLimiter.acquire` each limiter has a lock of its own; another thread's charges
-- between two of them are outside the model. A WebSocket connection has no lock: its methods may
-- interleave where they wait for the network, and here each is one step. The files named Tests run
-- the others on examples.
--
-- Time is a natural number of ticks, where the source has floats: the differences and sums of
-- times are exact here and rounded there. The reading of the clock is an argument of each call.
-- The glob match `fnmatch`, the health check of connections, `str`, Python's methods of texts
-- (`strip`, `upper`, `lower`, `startswith`, `split`), the version test of plugins, the patterns of
-- `re`, urllib.parse, what the network does and the function that `cached` decorates are
-- parameters.
--
-- Three recursions have fuel. `resolve` of Core/Container has the depth of the dependencies: more
-- than the rank of the interface is enough. The second is `reconnect` of WebSocket/Reconnect, for
-- which one round more than the tries that do not open is enough; the receiving task that
-- `connect` starts is recorded in the state, but does not run during the loop. The third is
-- `wait_and_acquire`, since the source polls until it is granted or out of time, and without a
-- timeout may poll for ever; the number of rounds is the fuel, and with a timeout the number of
-- the first round past it is enough (RateLimit/Limiter/Wait). The loop of `trim_from` in Redaction
-- has as fuel the length of its text, of which each round takes a character. All other loops run
-- over a list.
--
-- Not modelled: the network code (the rest of src/bt_api_base/feeds/, and
-- src/bt_api_base/websocket/), the discovery of plugins, the runtime of the gateway with its
-- sockets and threads, the containers, which are accessors that packages for the exchanges
-- override, and logging, statistics and formatting.
pub mod Prelude
pub mod Gateway
pub mod RateLimit
pub mod Cache
pub mod Errors
pub mod Connections
pub mod WebSocket
pub mod Events
pub mod Instruments
pub mod Plugins
pub mod Core
pub mod Redaction
