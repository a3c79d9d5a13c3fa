-- ===== src/Lib.antt =====
-- The core of inferencia, a gateway that puts an OpenAI-compatible API in front of local model
-- servers: who may call, how often, which backend serves a call, and what an error becomes.
--
-- A request passes authentication (internal/auth, internal/middleware/auth.go) and the rate
-- limiter (internal/middleware/ratelimit.go). A handler then asks a registry for a backend:
-- `PrimaryHealthy` (internal/backend/backend.go) for chat and embeddings, `SelectBackend`
-- (internal/router) for a capability and a model. Both ask a health checker, in production the
-- watchdog (internal/watchdog), leave out the unhealthy backends, and let a load balancer
-- (internal/backend/loadbalancer.go) choose among the rest and count the request, which
-- `ReleaseBackend` discounts. An adapter (internal/backend/mlx.go, ollama.go, tts.go) makes the
-- call to the model server, and its failure becomes an API error (internal/apierror). Outside
-- authentication stand the layers that identify, recover, count and log a request. The server
-- (internal/server) puts them before its routes, and cmd/inferencia/main.go, which reads the
-- configuration (internal/config) once, registers the backends and starts it.
--
--   Common        Booleans, lists, maps, results and integers for all parts
--   LoadBalancer  internal/backend/loadbalancer.go: acquire, release, select
--   Backend       internal/backend/backend.go: the registry, register, primary_healthy
--   Router        internal/router: the registry, score_backend, select_backend
--   Watchdog      internal/watchdog/watchdog.go: check_backend, probe, is_healthy; Watchdog/Loop:
--                 start, stop and the goroutine
--   Gateway       Gateway/Requests: the steps of `PrimaryHealthy`, `selectBackend` and
--                 `ReleaseBackend` in requests of internal/handler, and the checks of the watchdog,
--                 interleaved; Gateway/Alone and Gateway/Handlers: a call and a handler that
--                 run alone
--   RateLimiter   internal/middleware/ratelimit.go: allow, cleanup; RateLimiter/Stopping: stop
--   ApiError      internal/apierror: the error values, from_backend_error
--   KeyStore      internal/auth/keystore.go: new_key_store, validate
--   Middleware    internal/middleware: auth, rate_limit, chain, the status writer, path labels;
--                 Middleware/Stack: request_id, recover, metrics, logging and the whole stack
--   Handler       internal/handler: chat_completions with its stream, embeddings, models
--   Config        internal/config/config.go: the types, defaults, overrides and validation
--   Adapter       internal/backend/mlx.go, ollama.go, tts.go and httpclient.go, and the interfaces
--                 of internal/backend/backend.go that they implement
--   Health        internal/handler/health.go and health_status.go
--   Audio         internal/handler/audio.go on the router's registry and the TTS interface
--   Server        internal/server/server.go: the routes, and serving a request; Server/Logger:
--                 internal/logging/gcp.go; Server/Docs: internal/handler/docs.go; Server/Tracing:
--                 internal/observability/otel.go; Server/Process, Server/Watch and
--                 Server/Ending: cmd/inferencia/main.go
--   Integration   integration/app.go: find_repo_root, wait_for_health, start_app
--
-- The state of an object is a record with the fields of the Go struct; a method takes the record
-- and returns the new one with its result. A mutex makes each method of the load balancer, of
-- the limiter and of the watchdog's state atomic, so any interleaving of their callers is a
-- sequence of calls, and the theorems on runs quantify over all of them. `PrimaryHealthy` and
-- `selectBackend` are not atomic: a shared read lock or none lets other requests and checks come
-- between the answers of the watchdog, `Select` and `Acquire`. Backend and Router have them as
-- calls that nothing comes between; Gateway/Requests has their steps, with those of any other
-- requests between. A Go map is an association list: writing a key that is present replaces its
-- value. The order in which Go ranges over a map is arbitrary, so a function that ranges over
-- one takes the entries as a list, and `IsRange` says that the list holds the entries of the
-- map. The health checker is a parameter, and the watchdog's answers are one instance of it.
--
-- A time is a natural number of nanoseconds and the rate of the limiter is a fraction of natural
-- numbers, so tokens are counted exactly, in units of a fraction of a token; the rounding of
-- floating-point numbers is not modelled, though it can change single answers: at a rate of 10 a
-- request can be refused at the moment when the exact bucket has its next token. The load
-- balancer's counter is a 64-bit number and wraps. A text is a sequence of Unicode characters
-- whose length counts bytes. What the Go standard library does to texts is written out in
-- Common/Text, Common/Pieces and Common/Decimal, except the table of lower-case letters beyond
-- ASCII and the parsers of floats and durations, which are parameters, like the environment, the
-- file system and the YAML decoder. In Handler and Audio a handler is one step: no other request
-- runs between its taking a backend and its giving it back. The gauge of a backend's health
-- belongs to the process, and the watchdog and the readiness check both write it; Watchdog has
-- what the watchdog writes, and Health what the readiness check writes. Go's mux redirects a
-- request whose path is not clean; this is a parameter of Server. What happens on the system
-- while Integration waits for the program that it started, which may exit, is a parameter too.
--
-- The loops run over lists, but for three with fuel: a number `n` is written in digits with `n +
-- 1` rounds, a digit taking one; the search of a path of `n` characters for the repository has
-- `n + 2`, since a step up shortens a path that is longer than one character; and the wait for
-- the started program has 76, since a round takes 200 of the 15000 milliseconds.
--
-- A handler's effect on its writer is the list of the statuses and bytes that it writes, and a
-- panic is a value of its result. The network is a function from a request to a response or an
-- error, and a response holds the lines that a scanner yields of its body.
--
-- Not modelled: the JSON codecs, the HTTP server and client and the tracing library, which are
-- parameters or Go's, the clock's durations in logs and metrics, the delivery of signals, and the
-- model servers and deployment files outside the Go program.
pub mod Common
pub mod LoadBalancer
pub mod Backend
pub mod Router
pub mod Watchdog
pub mod RateLimiter
pub mod Gateway
pub mod Integration
pub mod ApiError
pub mod KeyStore
pub mod Middleware
pub mod Handler
pub mod Config
pub mod Adapter
pub mod Health
pub mod Audio
pub mod Server
