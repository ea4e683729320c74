-- ===== src/Lib.antt =====
-- LabOS, a local control plane for sandboxed labs: a policy engine over built-in profiles, a REST
-- API over a database, a storage allocator, an export gate, a secret broker, a scheduler, and a
-- reconciler that repairs what has drifted.
--
-- How the parts interact. `create_app` (labos/api/app.py) builds the endpoints over one policy
-- engine, allocator, gate, lease service and scheduler. An endpoint opens a session, looks rows
-- up, calls the service, records events and commits. Creating a lab asks the policy engine, which
-- may demand an approval; approving or denying a request changes the lab or the export it is for.
-- A scheduler job calls the same code that creates labs and runs. The reconciler runs beside the
-- endpoints, on the same tables.
--
-- Files:
--   Core          labos/core: `enums.py` (Core/Enums), `state_machine.py` (Core/StateMachine) and
--                 `events.py` (Core/Events). States are constructors; the texts that the code
--                 stores are their `_value` functions. Core/Entities has `entities.py`.
--   Policy        `policy_models.py` (Policy/Models; the rules in Policy/WellFormed), the profiles
--                 of labos/config/profiles/base.py (Policy/Profiles) and `PolicyEngine` of
--                 labos/core/policy_engine.py (Policy/HostMounts, Policy/Engine). Policy/PosixPaths
--                 is the part of `PurePosixPath` that it uses, Policy/Values the JSON values of
--                 overrides. Policy/Engine/Requests says what a granted request promises.
--   Db            the rows of labos/db/schema.py (Db/Rows), queries and updates of a table
--                 (Db/Table, Db/Changes), what the operating system provides (Db/Platform), the
--                 session (Db/Session), what an action keeps (Db/Keeps), which actions commit nothing
--                 (Db/Quiet) and do work on the disk alone (Db/Aside), runs step by step (Db/Steps), and
--                 how a sort orders rows (Db/Order).
--   Storage       labos/storage/allocator.py, `models.py` and `snapshots.py`: the metadata and its
--                 dictionary (Storage/Metadata), the manager (Storage/Snapshots).
--   Security      labos/security/export_gate.py and `secret_broker.py`.
--   Runtimes      labos/runtimes: `base.py` (Runtimes/Base), `docker_runtime.py` (Runtimes/Docker)
--                 over docker's client (Runtimes/Client), and `docker_probe.py` (Runtimes/Probe).
--                 Runtimes/Act is an action that may raise, Runtimes/Docker/Inventory what docker
--                 documents.
--   Workers       labos/workers/scheduler.py and `reconciler.py`; Workers/Reconciler/Labs has the
--                 part that works on labs and the runtime's inventory, Workers/Reconciler/Sweep what
--                 its loops over late rows have in common.
--   Api           labos/api/app.py: labs, runs, approvals, leases, exports, snapshots and scheduler
--                 jobs; Api/Responses has the response models and Api/Listings the listings.
--   System        a request is any endpoint that changes state or a reconciler pass; `serve` runs a
--                 sequence of them; `Sound` is what their rows keep.
--   Tests         a host, an app and runs on concrete inputs.
--
-- The session. A request is an action on a world: the session's view `db`, what is `committed`, the
-- `disk`, and the number of identifiers `drawn`. An action returns or raises, and what it did to
-- the world up to there stays: so closing the session, not raising, drops what is uncommitted,
-- and the disk has no rollback. `begin_nested` restores the view when its block raises. A table is
-- the list of its rows, in the order they were added; a query is a filter and a stable sort by the
-- keys of its `order_by`, and an update replaces the row of an id. What follows a commit and cannot
-- raise, `refresh` and the copying of a row into a response, is left out of the endpoints that change
-- state; the responses of the snapshot endpoints, which read a date, are not.
--
-- Parameters. `Platform` stands for the operating system and the standard library: identifiers of
-- `uuid4`, the environment, the file operations, each a function of an abstract disk, archives, JSON,
-- pathlib's texts and ISO dates. Two theorems have hypotheses on
-- them: that what a snapshot wrote is read back, with pathlib's suffixes of its archive's name, and
-- that a date in ISO's form is read back. `Client` stands for docker's client over the state of
-- its daemon, `Inventory` for what docker documents of it, by the lists of containers and networks; it
-- may refuse to remove a network.
-- `ProbeHost` stands for what the probe asks the host. `describe` is `str(exc)` where an exception is
-- stored as a text. `App` has the policy's profiles, the storage root and the settings.
--
-- Numbers and time. An instant is a number of microseconds, and a request reads the clock once, as
-- its argument `now`; the code reads it again for each row. Integers of the code are natural
-- numbers; the ones that a request can make negative are rejected by validation before they are
-- used, and a JSON integer among overrides keeps its sign. Only the digits of a number are made on
-- fuel, one more than the number; every other recursion is on a list.
--
-- Not modelled. The columns `updated_at`; foreign keys; an event's payload as JSON text;
-- the parsing of HTTP requests, except for the validation of scheduler jobs and of the lease's
-- `ttl_minutes`; JSON fractions among overrides. Paths of the host are lists of components, so
-- symbolic links are what `resolve` of the platform says. The endpoints of health and of the built-in
-- profiles, the command line (labos/cli), the settings and the migrations are not modelled.
pub mod Prelude
pub mod Core
pub mod Policy
pub mod Db
pub mod Storage
pub mod Security
pub mod Runtimes
pub mod Workers
pub mod Api
pub mod System
mod Tests
