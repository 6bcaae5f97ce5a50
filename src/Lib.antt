-- ===== src/Lib.antt =====
-- authust is an identity server: a browser walks through a flow, a list of stages that a tenant has
-- configured, and at the end of it is logged in. This library models the server's own logic,
-- function by function, and proves what makes it correct. Paths are from the repository's root.
--
-- The parts, and how they interact:
--
-- Prelude holds what the others share: results with errors and panics, steps over a state, integers
-- and tests over the native numbers, association lists.
--
-- Model follows model/src, one file for one: flows, stages, policies, prompts, tenants, users,
-- errors, and the data that the client is sent. A reference to another item is the query that finds
-- it.
--
-- PolicyEngine follows policy-engine/src: Uri and Getters what a policy can read (uri.rs,
-- request.rs, context.rs), Network and Users what a script can ask of it (network.rs, user.rs),
-- Script the compilation and the run of a script (lib.rs).
--
-- Storage follows storage/src. Proxy has the storage that records what is looked up through it, and
-- the frozen copy (lib.rs). Reverse has the lookups of all that a flow refers to (flow.rs,
-- stage.rs). Snapshot and Faithful show that proxy and copy agree with the storage behind them,
-- Ready and Recorded that the reverse lookups miss nothing, Returns that they come to an end. Dummy
-- and DummyExecutor have what a frozen storage refuses. Sql has the statements of storage/src/sql
-- and what the loaders use of PostgreSQL, and Loaders has an executor for each type, one file for
-- one (flow.rs, stage.rs, policy.rs, prompt.rs, tenant.rs): it asks for a row and decodes it.
-- Loaders.Manager puts the storages over the executors together: Datacache has what is relied on of
-- its caching storages, and Table and Keys show them coherent, as Storage.Faithful wants it; Loaded
-- and Kinds are about what is loaded.
--
-- Api has the errors and their answers (server/src/api/mod.rs), sessions and their cookie, and the
-- extractors of a session and of an admin session (server/src/api/v1/auth.rs, server/src/auth.rs);
-- Service has the service of the auth layer and the extractors of the executor's requests, Layers
-- the layers around the router (server/src/api/v1/mod.rs), the CSRF layer before the auth layer;
-- Reached is about the requests that come through. Wrapped has the error with its trace.
--
-- Csrf follows server/src/api/csrf.rs: Token has the masking of secrets, Check the check of a
-- request and the service that declines it, Poll the future of the service.
--
-- Executor follows server/src/executor.rs and server/src/executor. State has an execution and its
-- context, Entries its walk through the entries, Checks the checks that guard a flow (with
-- server/src/service/policy.rs), Component what the client is shown, Registry the cache of
-- executions and how one is started, Fields the field store of a context, Logs what the log of a
-- script is reported as, Validate the validation of a policy. `start` looks a flow up, runs the
-- reverse lookups of Storage through new proxies, and freezes them. Found, Started, Starts and Total
-- are about the lookups of a new execution.
--
-- Handler follows server/src/api/v1/executor.rs. Submission has the handling of a form by a stage,
-- Complete the stages that run on the server behind it, Requests the handlers of GET and POST, Users
-- the searches for users (server/src/service/user.rs). A handler takes an execution out of the
-- Registry, asks Checks, and answers with Component. Verified, Authentication, Login and Posts are
-- about who is logged in, Tokens about the cookie of a login, Search about whom a search finds.
--
-- Policies follows the policies of the server: Service the cache of compiled policies and their list
-- (server/src/service/policy/service.rs), Api and Listing the handlers
-- (server/src/api/v1/policy.rs). Cache, Body and Creation are about them, and Answered is about the
-- service as the checks of Executor use it.
--
-- Interface has the redirect to a tenant's flow (server/src/interface/flow.rs) and the default
-- tenant and the loading at start-up (server/src/main.rs), the configuration (server/src/config.rs),
-- and in Startup the state that the server starts with, over Storage.Loaders.Manager; Running is
-- about its executor. Telemetry has the middleware around the router and its spans
-- (server/src/otel_middleware.rs); a future is the list of its answers to polls.
--
-- Scenarios runs the server on a small tenant: a flow that identifies a user by name, checks the
-- password in the same form, and logs the user in.
--
-- Conventions. A result is a value, an error, or a panic; steps leave a state in each case. A text
-- of a token is the list of its code points. An integer of the database is an unbounded integer,
-- since the code only compares it. Random texts and the clock's reading are arguments.
--
-- Code of other crates is a parameter: the database (Api.Session.Database), signed tokens
-- (Api.Session.Tokens), the JSON form, uuid parsing and Argon2 (Handler.Submission.Form), scripts
-- and time (Executor.Externals), the cache (Executor.Registry.Cache), the storage behind a proxy
-- (Storage.Proxy.Source), the lookup of datacache (Storage.Reverse.Lookup), PostgreSQL under the
-- loaders (Storage.Sql.Postgres), the script engine, base64 and UTF-8 (PolicyEngine.Script.Engine),
-- the cache of scripts (Policies.Service.Asts), the transaction of a new policy
-- (Policies.Api.Connection), axum (Telemetry.Middleware.Axum), the storages of datacache
-- (Storage.Loaders.Datacache.Datacache) and the config crate (Interface.Configuration.ConfigCrate).
-- The hypothesis that a storage is coherent (Storage.Faithful.IsCoherent) says that a value answers
-- to its own queries and to no others, and that a table holds one value under an id. The hypothesis
-- that a database is quiescent (Storage.Loaders.Manager.IsDatabase) says that its tables are asked
-- by unique columns and do not change meanwhile. The hypothesis on the cache of scripts
-- (Policies.Cache.IsCache) says that a found entry was inserted and not invalidated since. The
-- hypothesis that tokens are sound (Handler.Tokens.IsSound) says that a token of the issuer
-- "authust" decodes to the claims that were encoded, and that one of another issuer is refused. The
-- hypothesis on datacache (Storage.Loaders.Datacache.IsDatacache) says that a storage finds what its
-- executor finds, or what it has loaded by another query and caches under the queries of the value.
-- The hypothesis on the policy service (Executor.Total.Answers) says that its lookup of a script
-- does not panic.
--
-- Bounds and fuel. The loop behind a submission ends by itself after 41 rounds, as its counter of
-- iterations does; the model counts the rounds that are left. The recursion through embedded
-- password stages has no bound in the code: the model has fuel, and running out of it is an outcome
-- of its own, never a result.
--
-- Not modelled: the tables of routes, the socket and the shutdown, tracing but for spans and the log
-- of a script, migrations, registration (its file is in no module), the limits of the script engine,
-- the static files of the interface, the frontend and the tools. The field store is not a field of
-- the modelled context, since no stage uses it. Requests to one execution are taken one after
-- another: the lock of a context is not modelled, and nobody else changes the tables while a request
-- runs.
pub mod Prelude
pub mod Model
pub mod PolicyEngine
pub mod Storage
pub mod Api
pub mod Csrf
pub mod Executor
pub mod Handler
pub mod Policies
pub mod Interface
pub mod Telemetry
pub mod Scenarios
