-- ===== src/Lib.antt =====
-- The Helix MCP gateway serves BMC Helix forms and SQL to MCP clients, through a Java bridge, under
-- a policy for each environment. This library models the core of its Python code, under
-- src/helix_mcp/, as functions and steps on explicit state, with theorems about them.
--
-- The parts and their files:
-- - Config (config/models.py): environments, target keys and the policy of a target.
--   Config/Allowlists is `TargetPolicyConfig.validate_allowlists`, its tests in their order.
-- - Targeting (targeting/models.py, registry.py, resolver.py): `TargetRegistry`, `TargetResolver`,
--   `describe_target`. Targeting/Listing is `list_descriptors`.
-- - RateLimit (services/rate_limit.py): `SlidingWindowCounter`, in memory and in SQLite.
-- - Writes/Store (services/writes/store.py): `WritePlanStore`. A plan is created, reviewed by its
--   digest, acquired once, and completed or failed. Writes/Store/Calls is a history of calls by any
--   callers: the store's lock makes each call one step. Moves, Lifecycle, Once and Binding are about
--   such histories.
-- - Writes/Rows and Writes/Persistent (services/writes/persistent_store.py): the rows of
--   `PersistentWritePlanStore`, and its methods as transactions on a table of them. The store in memory
--   is its specification. The database's schema is taken to be there. SQLite fails before it commits,
--   or not at all; the cipher is an argument.
-- - Writes/Policy (services/writes/service.py, `_enforce_write`): what a policy lets be written.
-- - Writes/Bridge (services/writes/service.py): the calls of the bridge, and what is made of their
--   exceptions and values.
-- - Writes/Service (services/writes/service.py): planning and applying. `_apply` is cut at its
--   awaits, where other tasks may call the store: `apply`, `apply_plan`, `perform`, `finish`, and
--   `fail_with` for its handlers.
-- - Database/Plans (services/database/plans.py): `SqlQueryPlanStore`.
-- - Database/Rows and Database/Persistent (services/database/persistent_plans.py): the rows and the
--   methods of `PersistentSqlQueryPlanStore`, as for the plans of writes.
-- - Database/Sql (services/database/service.py, `_validate_read_query`): the check of SQL. The parser,
--   sqlglot, is an argument; a statement is what the check asks it: the types of its nodes, the
--   functions, tables and common table expressions among them, and the selected expressions.
-- - Database/Service (services/database/service.py, limiter.py): `DatabaseQueryService`. While the
--   bridge is awaited other tasks may call the store of plans (Database/Plans/Calls, and Spent for what
--   they leave of an executed query).
-- - Database/Metadata (services/database/metadata.py): `DatabaseMetadataService`: the SQL that asks for the
--   catalogue and how it is read (Literals), the objects that a policy permits, and the readers of rows.
-- - Forms/Qualification (services/forms/qualification.py): the field references of a qualification.
--   Its loop runs on fuel, and starts with the length of the text.
-- - Forms/Access (services/forms/service.py): the checks on what a query reads, and the filters on
--   what the bridge returns.
-- - Forms/Cache (services/forms/service.py, `_field_metadata`, and services/forms/catalog.py,
--   `_form_names`): the metadata caches.
-- - Client (clients/arapi/client.py, models.py): `ArapiBridgeClient`. Client/Post is `_post`: the form, the
--   bounded body and the errors of the answers. Client/Forms, Fields, Entries and Sql are the parsers, over the
--   JSON values and tests of Client/Json; Client/Encode is `_encode_write_values`, with the decimal texts of
--   Client/Decimal; Client/Calls are the operations. The bridge over HTTP, the resolver of secrets, `json.loads`
--   and `int` of a text are arguments, gathered in `Http`; of their exceptions those that the source handles,
--   and the `RecursionError` that `json.loads` raises and the source does not handle, are values. Database/Service/Bridged runs the service of SQL over this client.
-- - Errors: the exceptions of these parts. Prelude: what the other modules share; Prelude/Action is
--   a method that changes its object and may raise; Prelude/Mirror and Prelude/Simulation relate a
--   table to an object in memory. Text: what is used of `str`.
-- - Tests: concrete inputs.
--
-- A dictionary is an association list in insertion order. Times are natural numbers of
-- microseconds, and each reading of a clock is an argument. SHA-256 over canonical JSON, random
-- identifiers and nonces, `str.casefold` and the bridge are arguments too.
--
-- Not modelled: the validators of requests, the probe of the
-- bridge's health, its process and its pool, the loading of the configuration, secrets, logs and metrics, the
-- dashboard, the installer and the registration of the tools.
pub mod Prelude
pub mod Client
pub mod Errors
pub mod Config
pub mod Text
pub mod Targeting
pub mod RateLimit
pub mod Forms
pub mod Database
pub mod Writes
pub mod Tests
