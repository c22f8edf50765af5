-- ===== src/Lib.antt =====
-- NexusAI-Gateway, a gateway in Go between clients and the providers of language models. This
-- library models the parts that decide whether a request may go out and where it goes: the
-- circuit breakers, the channel router, the fallbacks, the limits and the budgets; and the state
-- that outlives a request: conversations, chains of steps and the event bus.
--
-- The parts, and how they work together. A request names a tenant, a user and a model. The limits
-- (internal/quota, internal/rate, internal/ratelimit) say whether it may be made at all. The channel
-- router (internal/channel/router.go) picks one of the channels that the repository lists for the
-- model, by weight, and keeps a small circuit breaker for each channel. The resilience package
-- (internal/resilience) asks three layers whether a provider, a connection and a model may be used:
-- the provider's breaker, the connection's cooldown and the model's lockout; its fallback
-- orchestrator tries providers tier by tier, and so does a second one over four fixed tiers, with a
-- circuit for each provider; the retry package (internal/retry) repeats a call and guards it with a
-- breaker of its own. What was used is counted against the budget of the organization
-- (internal/billing/budget.go). Conversations live in the sessions of a context manager, and a
-- chain of steps runs one request after another, both in internal/orchestration; agents hear of
-- events through the bus (internal/eventbus), which numbers them by partition. Answers are kept in
-- the response cache (internal/cache). Where providers rotate, a selector (internal/provider) picks
-- the next.
--
-- The files:
--   Common      tests on numbers, lists, maps, instants and texts that all parts share
--   Circuit     internal/resilience/circuitbreaker/circuitbreaker.go: `CircuitBreaker`, and in
--               Circuit/Manager the `Manager`
--   ProviderCb  internal/resilience/circuit_breaker.go: `ProviderCB`, the first layer
--   Layers      internal/resilience/circuit_breaker.go: `ConnectionCooldown`, `CooldownMgr`,
--               `ModelLockout`, `LockoutMgr` and `ThreeLayerResilience`
--   Fallback    internal/resilience/fallback.go: `FallbackOrchestrator`
--   FourTier    internal/resilience/fallback_tiers.go: `FourTierAutoFallback`, and in
--               FourTier/Circuits its `CircuitBreaker`
--   Provider    internal/provider/rotation.go: `ProviderSelector`
--   Token       internal/token/group.go, service.go and repo.go: groups of tokens and quotas
--   Channel     internal/channel/channel.go, and in Channel/Router internal/channel/router.go
--   Quota       internal/quota/manager.go: `QuotaManager`, and in Quota/Limiter
--               `TenantRateLimiter`
--   Rate        internal/rate/limiter.go: the in-memory storage, and in Rate/Limiter the
--               `RateLimiter` over a storage interface
--   Ratelimit   internal/ratelimit/storage.go; Ratelimit/Tiers: tiers.go; Ratelimit/Sliding and
--               Ratelimit/Manager: manager.go
--   Retry       internal/retry/circuit_breaker.go, and in Retry/Loop internal/retry/retry.go
--   Budget      internal/billing/budget.go: `OrganizationBudget`; Budget/Usage: `RecordUsage`;
--               Budget/Check: `CheckBudget`
--   Cache       internal/cache/response_cache.go: `ResponseCache`; Cache/Memory: `InMemoryCache`
--   Session     internal/orchestration/context.go: `ContextManager`
--   Chain       internal/orchestration/orchestrator.go, and in Chain/Context its
--               `ExecutionContext`
--   Bus         internal/eventbus/bus.go: `localEventBus`; Bus/Dlq: the entries of types.go;
--               Bus/Sequencer: sequencer.go
-- In each part the top file and the files named here hold the definitions, the module Tests the
-- runs on concrete inputs, and the other modules the theorems on what their names say.
--
-- The correspondence. A struct is a record with the names of its fields, a method is a function
-- that takes the struct last and returns the new one with the method's result. A method that takes
-- its struct's lock is one step, and an interleaving of callers is a list of steps. The clock is
-- read once in each method, and the reading is an argument. An instant is a number of nanoseconds
-- since the zero time, and a duration a number of nanoseconds, both natural numbers. `int` fields
-- that count or limit carry no negative value and do not reach 2^63; where a difference can go
-- below zero it is an integer, and where the code tests for that, the subtraction on natural
-- numbers stops at 0 as the test does. A map is an association list, or a function where it is
-- never listed, and the table of the token groups is a function from IDs to rows, on which each
-- statement is one step; the order of a `range` over a map, which Go leaves open, enters no theorem. A
-- pointer that a manager hands out is written back where the caller's method ends. What the program
-- calls and does not hold is a parameter: the random numbers and the channel repository of the
-- router, the executors of the fallbacks and of a chain, the called function and the waits of the
-- retry loop, float64 and the calendar of a budget, JSON, the comparison of metadata, and what the
-- health checker of the providers says at each call. Where other callers can act while a method
-- runs without its lock, as on a chain during a step, on the bus between the rounds of `Publish`
-- and on the storage within `Check` of the sliding window, what they do is a parameter too. These
-- are one step although the code gives up a lock within: `SelectChannel` of the router, whose loop
-- takes the lock for each channel; the methods of the quota manager of the tiers, which call
-- `Check`; and `ConsumeTokens` of the token groups, whose overlap `Token.Tests` runs.
--
-- Bounds. All loops of these parts go over a list or up to a number, and are recursions on it. The
-- loop of the fallback stops at its `maxDepth`, as in the code; no other definition has fuel.
--
-- Not modelled: logging and metrics, contexts but for their end, background goroutines but for the
-- timers of the tiered storage, and the parts of the repository outside the files above. Of the
-- files above, `TokenBucketRateLimiter`, `CalculateDelay`, `calculateProviderScore` and
-- `ProviderHealthTracker` count in floating point and are left out, and so are the HTTP middleware
-- and the conversions from and to JSON.
pub mod Common
pub mod Budget
pub mod Bus
pub mod Cache
pub mod Chain
pub mod Channel
pub mod Circuit
pub mod Fallback
pub mod FourTier
pub mod Layers
pub mod Provider
pub mod ProviderCb
pub mod Quota
pub mod Rate
pub mod Ratelimit
pub mod Retry
pub mod Session
pub mod Token
