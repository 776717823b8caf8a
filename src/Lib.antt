-- ===== src/Lib.antt =====
-- A verification library for edge-proxy-go, an HTTP reverse proxy with weighted load balancing,
-- circuit breakers, rate limits per user, health checks and reloads of its configuration.
--
-- The program and its parts. `main.go` starts the proxy: `loadConfig` (config.go) reads, completes
-- and validates the configuration; the pool of backends (health.go) and the rate limiter
-- (rate_limiter.go) are built from it; `proxyHandler` (main.go) takes each request through the
-- limiter, the routes and a retry loop that asks the pool for backends, and records it in the
-- counters and the access log. Health checks, the admin API and a reload change the same pool,
-- under its mutex.
--
-- Which file models which part:
-- - Base.antt and its children: Boolean tests, lists, Go's int (a two-sided integer, without
--   overflow: counters of a running proxy stay far below 2^63), Go's float64 (a parameter,
--   Base/Floats.antt, since there are no floats to compute with; laws of IEEE 754 are named
--   hypotheses of the theorems that use them, and Samples.antt has an instance that meets them),
--   Go's string functions, and the bytes of texts and numbers.
-- - Config.antt and its children: config.go. Types for the structs, Defaults for `defaultConfig`,
--   `applyRateLimitDefaults`, `applyPolicyOverrides`, Environment for `applyEnvOverrides`,
--   Validate for `Validate`, Load for `loadConfig`. The YAML decoder and the environment are
--   parameters.
-- - Pool.antt and its children: health.go. Entry has the structs, scores and transports; Startup
--   has `newBackendPool` and `newBackendPoolFromConfig`; Select has `next`, `nextFor`,
--   `availableCount`; Requests has `startRequest`, its closure, `finishRequest`, `transportFor`;
--   Admin has `reconfigure`, `setBackendState`, `status`, `healthyCount`, `close`; Health has a
--   tick of `startHealthChecker`, and Health/Round what a round makes of the pool. A
--   `*backendStats` is a reference into the list `heap`, since the closures of requests in flight
--   share it with the entries; a time is a number of nanoseconds, and `now` is a parameter. Each
--   operation holds the mutex, so that an interleaving is a sequence of steps (Pool/Steps.antt,
--   and Pool/Use.antt for those of requests alone). The closure of a request updates its counters
--   by atomic additions just before it takes the mutex: the model has one step of both.
-- - Limiter.antt and its children: rate_limiter.go. Local has `evaluateLocal`, Insights has the
--   reports without Redis, `dedupeAbusers` and `splitUserIdentifier`. A map is an association
--   list. Redis has the commands, their answers and the client, `newRateLimiter`, `ping` and
--   `parseFloat`; Redis/Rates has what `Evaluate` computes from the answers, Redis/Evaluate has
--   `Evaluate`, `incrementAbuse` and `recordEvent`, and Redis/Reports has `TopAbusers`,
--   `TrafficSpikes` and `RateLimitEvents`. The Redis server is a parameter: a client runs a
--   command, or a pipeline of them, on a state of the outside.
-- - Proxy.antt and its children: main.go. Handler has `proxyHandler` as a whole, on the variables
--   of the process as a record; Forward has its retry loop, over an interface that Upstream fills
--   with the pool, `roundTripToBackend` and the tracked body of a response; Handler/Quota has the
--   limiter and the handler together, Handler/Available the pool and the handler; Headers has the
--   headers that are sent; Direct has `handleConnection`, `singleConnListener` and
--   `proxyHTTPRequest`; Routing has `matchRoute` and `routeBackendSet`, Policy has
--   `resolveRateLimitConfig` and `identifyRequester`, Backends has `backendAddresses`, Dispatch
--   has the call of the pool for a route, Recorder has `recordRequest`, `appendLog` and
--   `trackConnectionState`. The network, the clock and the timers are parameters.
-- - Control.antt and its children: main.go and tracing.go. Reload has the start-up in `runProxy`,
--   `reloadRuntimeConfig` and `reloadHandler`; Admin has `backendAdminHandler`; Metrics has
--   `buildStats` and the numbers of `metricsHandler`; Server has `startStatsServer` and
--   `basicAuth`; Cli has `runCLI` and what it calls; Tracing has `setupTracing` and
--   `resolveDashboardPath`; System has the whole proxy as a sequence of events, and System/Listed
--   its addresses; Run has `runProxy` as a whole, `startListener` and `newProxyServer`, with its
--   waiting loop in Run/Drain and what it starts and stops in Run/Release; Addresses compares the
--   pools of a start and of a reload.
-- - Connections.antt and its children: main.go. Tcp has `handleTCPProxyConnection` as the moves
--   of its goroutines, System has `serveTCPProxy` and the connections of both modes, in any
--   order, on the counter `activeConns`.
-- - Wire.antt and its children: main.go. The handlers that write a response on a raw connection
--   (`writePlainResponse`, `serveJSONTCP`, `serveMetricsTCP`, `serveDashboard`,
--   `handleBackendConnection`), as bytes; Reader is a client's reading of a response, after RFC
--   9112.
-- - Demo.antt: cmd/backend/main.go, the backend that the proxy is tried with.
--
-- Loops are structural recursion on the list or the number of retries that they run over. Two run
-- on fuel: the waiting loop of `runProxy` has 301 rounds, which are enough for its 30 seconds of
-- 100 milliseconds each (Control/Run/Drain.antt), and the digits of a number have more fuel than
-- the number (Base/Encoding.antt); the loop of the library's `Serve` takes two rounds
-- (Proxy/Direct.antt).
--
-- Requests that the handler serves at the same time are interleaved at the operations of the pool,
-- which Pool/Steps.antt has in any order; Proxy/Handler and Control/System have whole requests,
-- one after the other. The goroutines of the TCP mode are interleaved in any order.
--
-- Not modelled: the bytes of request and response bodies that the proxy passes on, the headers of
-- responses, and how spans are kept and sent, which are calls of libraries; the text of the
-- metrics page of the statistics server, of which the numbers are modelled, and the JSON and YAML
-- encodings, which are parameters; the listeners and signals, which are parameters of the run; the
-- lines that are printed; and the headers that `proxyHTTPRequest` sends, which has no caller but
-- tests.
pub mod Base
pub mod Samples
pub mod Config
pub mod Pool
pub mod Limiter
pub mod Proxy
pub mod Control
pub mod Connections
pub mod Wire
pub mod Demo
