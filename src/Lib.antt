-- ===== src/Lib.antt =====
-- Verification of servcat, a self-service portal: a user starts a workflow from the service
-- catalog, answers its questions, an approver decides where the workflow asks for it, and a ticket
-- goes to an external system.
--
-- The parts and their files. A definition has the name of the function or type that it translates,
-- or of the part of the function that it stands for.
--   Model       crates/model/src: users, workflow graphs, instances, approvals, tickets, services,
--               target times
--   Engine      crates/workflow-engine/src/lib.rs: the pure engine. Engine/Meaning says what a
--               condition means, Engine/Walk and Engine/Advance describe the walk through branch
--               steps, Engine/Calls the four entry points, Engine/Valid well-formed graphs
--   Db          crates/db/src: the statements of the repositories over tables as lists of rows.
--               Db/Slugs is about the keys of the catalog
--   Connectors  crates/connectors/src: the results of a connector, and the field mapping
--   Approvals   crates/approvals/src: resolution, service and poller. Approvals/Race lets the
--               queries of any number of decisions and polls interleave
--   Server      crates/server/src/orchestrator.rs, expiry_handler.rs, error.rs, the routes of
--               instances and approvals. Server/AtRest and Server/Loop are about the loop of
--               `apply_outcome`, Server/Replies, Server/Entries, Server/Opened, Server/InWorkflow
--               and Server/Rests about the orchestrator's entry points, Server/NewTicket,
--               Server/Dispatched and Server/Submitted about a ticket, Server/Offers about services
--               that are withdrawn
--   Auth        crates/server/src/auth.rs, routes/auth.rs: login, refresh tokens, password resets
--   Sso         crates/server/src/sso.rs: pending logins, handoff codes and signing keys
--   Seed        crates/server/src/catalog_seed.rs: the graphs of the starter catalog, and in
--               Seed/Run the loading of its items. Seed/Once is about a second run,
--               Seed/Stuck about a run that fails again and again
--   App         crates/server/src/state.rs and what runs on the whole state: the repositories of
--               users, departments, settings and the audit log, routes/sso.rs (App/Accounts), the
--               administration (App/Admin), and the ways to act as a user (App/Entrances).
--               App/Provisioned is about the account behind a single sign-on, App/Locked about
--               deactivated users
--   Web         crates/server/src/web/pages: the questions that the page of a service shows
--               (Web/Questions, Web/Preview), the groups of the catalog (Web/Groups, Web/Grouped,
--               Web/Grouping), the form for a service (Web/Forms, Web/Integers, Web/Targets), the
--               administration of the catalog (Web/Services, Web/Edits), the pages of requests
--               (Web/Requests), approvals (Web/Decisions) and passwords (Web/Passwords, Web/Resets).
--               Web/Layout and Web/Links: crates/server/src/web/layout.rs and session.rs
--   History     what no sequence of requests undoes, and what a poll does
--   Exec        async functions over a shared state, with rules for what every run does, and for
--               what holds after each
--   Prelude, Map, Json  shared helpers, string-keyed maps, and what is used of `serde_json`
--   Tests       a small installation at which the theorems are applied
--
-- The orchestrator calls the engine, the repositories, the approvals and the connectors, and the
-- routes and the poller call the orchestrator. All of them run on one state, `World`: the tables,
-- the clock, the supply of UUIDs, the notifications and the tickets handed over. Authentication and
-- single sign-on have states of their own, `AuthStore` and `SsoService`. `AppState` embeds all three,
-- and has the one clock and the one table of users in its `World`.
--
-- Conventions. A database answers every query: a statement fails only on the keys of the
-- migrations. A write before an error stays, since the source opens no transaction. Requests are
-- handled one after another, except in Approvals/Race and Auth/Concurrent. UUIDs and random tokens
-- come from a supply that may repeat itself. Timestamps are whole seconds, and `chrono` does not
-- overflow. Stored JSON is kept typed, so a corrupt column does not arise. JSON values, the
-- template engine, the collation, the text of a UUID, the replies of ticketing systems, hashing and
-- the encoding of access tokens are parameters.
--
-- Bounds and fuel. The engine's loop has the limit of the source, 256 branch steps. The loop of
-- `apply_outcome` has none in the source; here it runs on fuel, one unit for each round, and a rank
-- that branch and ticket steps lower bounds the fuel that it needs. The preview of questions runs on
-- fuel in the same way, and a rank that question steps lower bounds it. Numbers of forms are read
-- with the bounds of `i32`.
--
-- Not modelled: the templates of the pages, the dashboard, the pages that administer users,
-- departments, workflows and settings or show the audit log, the upload of logos, the HTTP clients of
-- the ticketing systems, mail, configuration and start-up.
pub mod Prelude
pub mod Map
pub mod Json
pub mod Model
pub mod Engine
pub mod Exec
pub mod Db
pub mod Connectors
pub mod Approvals
pub mod Server
pub mod Auth
pub mod Sso
pub mod Seed
pub mod App
pub mod Web
pub mod History
pub mod Tests
