-- ===== src/Lib.antt =====
-- ModelGate, an LLM gateway in Go: a model of its core and the theorems about it.
--
-- A request passes internal/api (handler), internal/service (GatewayService.Chat: validation, rate
-- limit, idempotency lease, cache, provider, usage record), internal/routing (a provider is selected)
-- and internal/governance, which puts a semaphore (internal/concurrency), a circuit breaker
-- (internal/circuitbreaker) and a retry policy (internal/retry) around a vendor's adapter
-- (internal/provider). Files and the code they model:
--   Prelude        shared names: native numbers, integers, fractions, lists, texts
--   Errors         error values and their classes: internal/provider/error.go; Errors/Transport: the
--                  errors that internal/provider/openai_compatible.go makes; Errors/Chain: `do` blocks
--   Breaker        internal/circuitbreaker/breaker.go: New, Allow, Available, State (`current`), Done
--   Semaphore      internal/concurrency/semaphore.go: New, Acquire, Release
--   Retry          internal/retry/retry.go: New, Do (`run`), DoRetained, backoff, fullJitter
--   Routing        internal/routing/router.go: New and selectTarget; Routing/Failover: Chat, ChatStream
--   Governance     internal/governance/provider.go: Chat, ChatStream and managedStream (Recv, Close)
--   Config         internal/config/config.go: Load and its readers
--   Wiring         buildProviderRouter of cmd/server/main.go; Wiring/Adapters: NewTargetFromConfig of
--                  internal/provider/factory.go and NewOpenAICompatibleProvider
--   Mock           internal/provider/mock.go: Chat, ChatStream and mockStream (Recv, Close)
--   Compatible     internal/provider/openai_compatible.go: Chat, ChatStream, doRequest
--   Requests       internal/service/chat.go, with the types of internal/provider/provider.go
--   Responses      the answers and codes of errors: internal/api/handler.go (writeMappedError) and
--                  internal/service/gateway.go (gatewayErrorCode and its like)
--   Idempotency    internal/idempotency/redis.go: the Lua scripts, Begin, Complete, Release
--   RateLimit      internal/ratelimit/redis.go: NewRedisLimiter, the token bucket script, Allow
--   Gateway        internal/service/gateway.go: Chat and what it calls; Gateway/Keys: Policy of
--                  internal/cache/cache.go; Gateway/Stream: ChatStream and meteredStream (Recv, Close);
--                  Gateway/Once: several requests over Idempotency; Gateway/Named: their identifiers
--   Cache          internal/cache/cache.go: NewRedisCache, Get, Set
--   Storage        internal/storage/usage.go: Record; internal/storage/migrate.go: ApplyMigrations;
--                  Storage/Names: the files that it runs
--   Sse            internal/provider/sse_stream.go: Recv; Sse/Writer: streamChatCompletions and
--                  writeSSEChunk of internal/api/handler.go
--   Api            internal/api/handler.go and request_id.go: ChatCompletions and what a client is
--                  answered; Api/RequestId: NewRequestID of internal/service/gateway.go
--   Metrics        internal/metrics/metrics.go: the counters and what is observed of a request
--   Server         cmd/server/main.go: run, from the configuration to the shutdown;
--                  Server/Options: NewGatewayService of internal/service/gateway.go
--   Witnesses      the theorems at concrete inputs
-- A component's children hold its theorems. A method is a function from the state to the new state and
-- the result; a mutex makes its calls a sequence, and a scheduler's choice is an argument.
--
-- Parameters, for code that is not the program's: the clock, the contexts, the timers, the random
-- numbers, JSON, SHA-256, the database, Redis, the HTTP client and the bodies of its answers, what gin
-- knows of a request, the pool, the listener and the signals, and in Config the environment and the
-- parsers of durations, numbers and URLs. They are functions on an abstract world `W`; the laws of
-- Redis that the scripts rest on are the record `IsRedis`, and those of a transaction
-- `IsTransactional`.
--
-- Bounds: times are numbers of nanoseconds; a `float64` that is only compared is an exact fraction,
-- and the tokens of the rate limit are exact too, counted in sixty-thousandths, where the script has
-- doubles: rounding is not modelled, and it can make the delay that the script tells a millisecond
-- too short. Router weights are unbounded integers where the source has int64, and the breaker's
-- generation wraps at 2 ^ 64. Loops recurse on the rounds that are left, which the source bounds
-- itself (MaxAttempts, the number of targets), so no fuel runs out; the failover's rounds are one
-- more than the targets, which is proved enough.
--
-- Not modelled: the Redis client behind its commands, a client that goes away while it is answered,
-- calls of one stream's methods at the same time, the loggers, the fields of http.Server, the table
-- of routes with its health check, and the durations and the registry of the metrics: input and
-- output over libraries.
pub mod Prelude
pub mod Errors
pub mod Config
pub mod Breaker
pub mod Semaphore
pub mod Retry
pub mod Routing
pub mod Governance
pub mod Wiring
pub mod Requests
pub mod Responses
pub mod Idempotency
pub mod RateLimit
pub mod Sse
pub mod Gateway
pub mod Storage
pub mod Mock
pub mod Compatible
pub mod Cache
pub mod Server
pub mod Metrics
pub mod Api
mod Witnesses
