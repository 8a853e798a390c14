-- ===== src/Lib.antt =====
-- A verification library for the M-Pesa MCP server: the core of the payment flow, from a request
-- to the receipt, with the safety rules around it, the client of the Daraja API below it and the
-- tools of the server above it.
--
-- The program offers payments as tools. `PaymentService` asks the payment policy about a push. A
-- push within the limit goes to the payment provider and is stored as a pending transaction under
-- an idempotency key; one above the limit becomes an approval request, which operators review
-- through `ApprovalService` and which `execute_approved_payment` turns into a payment. The
-- provider reports the outcome by a callback, which settles the transaction. Receipts, analytics
-- and the reconciliation read the stored transactions. Events go to an audit trail and to counters.
-- The tools check the tool policy, the input and a rate limit before they call a service. The
-- Daraja client sends requests with retries, behind a circuit breaker. The settings are validated
-- when the program starts. Operators review requests and read what is stored by routes of HTTP,
-- which check a bearer token and the role of its identity.
--
-- Files and the code that they model:
--   Transactions/StateMachine   app/transactions/state_machine.py
--   Safety/Policy               app/safety/policy.py
--   Storage/Records, Repository app/storage/repositories.py (the in-memory repository)
--   Approvals/Models, Repository, Answers, Service
--                               app/approvals/models.py, repository.py, service.py
--   Audit, Observability        app/audit/logger.py, app/audit/repository.py,
--                               app/observability/metrics.py
--   Payments/Providers, Adapters
--                               app/payments/providers.py: the interface, the provider over Daraja
--                               and the Airtel mock
--   Daraja/CircuitBreaker, Calls, Retries, Credentials, Client, Client/Push, Client/Status
--                               app/daraja/client.py (the breaker and the real client)
--   Transactions/StatusService  app/services/transaction_service.py
--   Payments/Records, Service   app/services/payment_service.py
--   Callbacks/Payload, Results, Handler
--                               app/callbacks/handlers.py
--   Callbacks/Replay            app/callbacks/replay.py (the in-memory store)
--   Callbacks/SourceVerifier, Routes
--                               app/callbacks/source_verifier.py, app/callbacks/routes.py
--   RateLimit/Limiter, RedisLimiter
--                               app/rate_limit/limiter.py
--   Tools/Schemas, Checks, Payments, Queries
--                               app/mcp/schemas.py, app/mcp/tools.py
--   Tools/Handlers              app/mcp/server.py (create_tool_handlers)
--   Config/Settings, Validation app/config.py, app/config_validation.py
--   Auth/Identity, Mapping, Security, Routes
--                               app/auth/oidc.py (identities, the development provider),
--                               app/auth/role_mapping.py, app/auth/security.py
--   Approvals/Routes            app/approvals/routes.py
--   Operator/Routes             app/operator/routes.py
--   Policy/ToolPolicy           app/policy/tool_policy.py
--   Receipts                    app/receipts/generator.py, app/services/receipt_service.py
--   Analytics/Service           app/analytics/service.py
--   Reconciliation/Service      app/reconciliation/service.py
-- System.antt puts the calls together: `ServiceStep` has the calls of the services that the tools
-- make, a review by itself and the handler of the callbacks; `Step` has those, the other calls of
-- the services that change the shared state, and the routes of the callbacks, the approvals and the
-- operator, with the audit events of what they refuse. `Reach` is any sequence of steps.
-- System/Both, Payments, Others, Readings, Routes and History say what each step and each sequence
-- keeps.
-- The other files of these directories state what the code does. Common has the shared helpers: a
-- Python dict as an association list in insertion order, JSON values, signed integers, and `Exec`,
-- a call that reads and changes a state and returns or raises. `Respects R` says that a call takes
-- each state to one that stands to it in `R`, whether it returns or raises.
--
-- State: World.antt has one record for what the objects share: the two stores, the audit events,
-- the counters, how often the clock was read and an identifier issued, and the calls that the
-- provider has had. The clock, `uuid4`, SHA-256 and the provider are functions of an `Env`: the
-- n-th reading of the clock, the n-th identifier, and the provider's answer to a call after the
-- calls before it. Nothing is assumed of them, but that no two identifiers agree where a statement
-- says so.
--
-- The Daraja client keeps a state of its own, `Client`: the breaker, the requests that it has sent,
-- the time that it has slept and how often it read its clocks. httpx, the clocks, base64, the
-- upper case of a text and the settings are the fields of `Surroundings`: how a request ends may
-- depend on all requests before it. Payments/Adapters makes a provider of the client by the calls
-- that the provider has had. The validation of tool inputs is pydantic's and a parameter,
-- `Validators`; so is the Redis client, `Redis`. A limiter of any kind with its own state is a
-- `RateLimiter`, which the tools take; a `Host` is the shared state with that of the limiter. The
-- data of a tool's answer is the record whose fields the code dumps.
--
-- A method is one function of the name that it has in the code, with a helper for what follows a
-- test or a call. Times are numbers of microseconds, so that minutes and seconds are multiplied
-- out; floats of the monotonic clock are taken as exact. Python's int is the signed `ℤ` of
-- Common/Int. A status is a text, as in the code.
--
-- Fuel: only the printing of a number runs on fuel, one more than the number, which is at least the
-- number of its digits. The retry loop of the client recurs on the rounds that are left, the
-- setting's number of retries and one. All other loops are over lists.
--
-- Not modelled: log lines and the correlation context, HTTP itself, the registration with the MCP
-- library, HTML pages, tracing, health probes, the Postgres stores and the Redis replay store, the
-- mock of the Daraja client, the provider of identities from signed tokens (a parameter, `jwks`),
-- reading the settings from the environment.
pub mod Common
pub mod Transactions
pub mod Storage
pub mod Approvals
pub mod Audit
pub mod Auth
pub mod Observability
pub mod Safety
pub mod Payments
pub mod World
pub mod Callbacks
pub mod Config
pub mod Daraja
pub mod RateLimit
pub mod Tools
pub mod System
pub mod Analytics
pub mod Policy
pub mod Operator
pub mod Receipts
pub mod Reconciliation
mod Tests
