-- ===== src/Lib.antt =====
-- A model of the Conexus gateway (backend/app) and of the workflow executor beside it (agentor).
--
-- Conexus is a gateway for language models: before a call it reserves requests, tokens and cost on
-- the usage windows of the project, logs the call, routes it to a provider, and settles the
-- reservation with the usage that came back. A repair job ends the reservations that a crash left.
--
-- The parts and their files:
--   Clock         UTC datetimes and the windows of services/project_limits_service.py
--                 (`_utc_day_bounds`, `_utc_month_bounds`); Clock/Bounds has their laws
--   Text          Python's `str` as code points, with strip, lower and startswith for ASCII
--   Table         tables as lists of rows: select, update by key; laws in Table/Laws and Table/Keys
--   Models        the rows of db/models.py and the database state `Db`
--   Aliases       llm/model_alias_config.py: loading, lookup and pricing candidates
--   Pricing       llm/pricing.py: the table, the cost of a call and the reservation estimates
--   Limits        services/project_limits_service.py: usage aggregates and the aggregate check
--   Reservations  services/project_limit_reservation_service.py: Windows creates rows on demand
--                 (`_get_or_create_window`), Admission is `reserve_gateway_request`, Settlement is
--                 `reconcile_gateway_request` and `release_orphan_limit_reservation`
--   Snapshots     services/project_limit_reservations_query.py
--   Providers     services/provider_config_service.py; Routing has provider_candidate_service.py and
--                 routing_policy_service.py
--   RequestLog    services/request_log_service.py
--   UsageEvents   services/usage_service.py
--   Repair        services/project_limit_reservation_repair_service.py: classification and previews;
--                 Repair/Applying is `repair_stale_reservation`, Repair/Stale the listing and count
--   Router        llm/gateway_router.py: `chat` and `stream_chat` yield the calls that they make
--   LoginLimiter  services/admin_login_rate_limiter.py
--   Http          the outcome of an endpoint: a response or an HTTPException
--   Profiles      api/internal_adapter_profiles.py: registration, canaries, promotion and rollback
--   Observability the report of that file: Percentile has the law of its latency figure
--   Sessions      services/admin_auth_service.py: tokens and credentials; Text/Decimal has `str` and
--                 `int` of numbers
--   Login         api/admin_auth.py
--   Gateway       services/gateway_setup.py and gateway_service.py: Association is
--                 `_resolve_adapter_profile_association`, Setup the steps both kinds of request share,
--                 Service `run_chat_completion`, Streaming `run_chat_completion_stream`
--   ProjectKeys   services/project_key_service.py
--   Permissions   services/admin_permissions_service.py
--   Audit         services/audit_service.py: the redaction of metadata
--   Agentor       agentor/agentor_runtime: models.py; Agentor/Executor is executor.py. A call reads
--                 the clock at its start and end and around every node; each reading is an input
--   ReserveLocks  `_project_reserve_lock` of services/gateway_setup.py
--   Tests         runs on concrete data and the theorems applied to them
-- Reservations/Ledger states the ledger equation `IsBalanced`: a window's reserved counters are the
-- sums over the reservations on it that are not reconciled. Enforcement, Balance and Repair/Balanced
-- show that every operation keeps it, and Enforcement derives the limits from it.
--
-- An operation takes the database and returns a `Result` with the new one; a `raise` stands for an
-- exception that rolls the transaction back. Transactions run one after another, as the row locks
-- make them on PostgreSQL. UUIDs and clock readings are inputs. Money is a whole number of 1e-12
-- dollars and prices are whole millionths of a dollar for a million tokens, where the code has
-- floats and decimals; rounding is not modelled. The 16 attempts to create a window are the code's
-- own bound; the first always returns. The loop of `_project_reserve_lock` runs on fuel: two rounds
-- are enough where it ends. Provider calls are parameters, which return a result or raise an error.
-- Datetimes have no last year: where the code raises an OverflowError, for the windows of the last
-- days of the year 9999, the model goes on. A row of the request log has one id, `request_id`, which
-- also stands for its surrogate key. No statement of the transaction that starts a request can fail
-- in the model, so the clean-up for that (`except BaseException`) is left out. The base64 and
-- signing helpers of a session token are parameters with the law that decoding undoes encoding.
--
-- Not modelled: the other HTTP endpoints, provider adapters, settings, logging, the
-- workflows of agentor and the frontend.
pub mod Prelude
pub mod Text
pub mod Clock
pub mod Table
pub mod Models
pub mod Observability
pub mod Aliases
pub mod Pricing
pub mod Result
pub mod Limits
pub mod Reservations
pub mod RequestLog
pub mod Repair
pub mod Snapshots
pub mod Router
pub mod Providers
pub mod Routing
pub mod LoginLimiter
pub mod UsageEvents
pub mod Gateway
pub mod Http
pub mod Audit
pub mod Permissions
pub mod ProjectKeys
pub mod Profiles
pub mod Sessions
pub mod Login
pub mod Agentor
pub mod ReserveLocks
pub mod Tests
