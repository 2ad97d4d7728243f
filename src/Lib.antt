-- ===== src/Lib.antt =====
-- A verification library for OpenDeploy, a control panel for servers. Core (cmd/core, internal/core)
-- serves the HTTP interface, keeps users, modules and sites in a database, and drives Agents on its own
-- host and on remote ones; a remote Agent dials in and holds a stream over which Core sends commands.
-- The command line (cmd/cli) updates an installation.
--
-- Common: numbers, lists, results, byte strings, maps, and a state monad with errors.
-- Apperrors: internal/platform/apperrors/errors.go. `Defs` has the error values, the constructors and
-- WriteHTTP (`write_http`); `GoError` is a chain of wrapped errors with its AppErrors in it. The random
-- ErrorID of an AppError is left out.
-- Archive: internal/agent/archive/manager.go, one entry after the other. Sums of sizes are residues modulo
-- 2 ^ 64, as int64 has them; filepath.Clean, Join and Dir, EvalSymlinks and what else the operating system
-- answers are parameters, the same throughout an extraction.
-- Auth: internal/core/auth. `Roles` is domain.go, `Store` sqlite_repository.go, `Service` and `Users`
-- service.go and password.go, one function for each method, in snake case. The database is the two tables
-- users and sessions, and a list that tells of each call whether the driver fails; a call past the end
-- of the list succeeds. `Hoare` and `Rows` have the rules for such calls, and `Lockout`, `Tokens` and
-- `Rotation` the proofs.
-- ControlPlane: `Capabilities` is pkg/controlcapabilities/registry.go, `Model` and `Commands` are
-- internal/core/controlplane/manager.go. A session is a pointer into a heap, since a handler may hold
-- one that the table has replaced. What one lock or one select protects is one function; `Steps` lets
-- these sections of all threads run in any order, also between the two of Unregister, Disconnect,
-- Dispatch and Subscribe. `unregister` and `disconnect` are such a pair with nothing between.
-- `Registry`, `Dispatch`, `Reconnect`, `Online` and `Waiters` have the proofs.
-- Cron: internal/agent/cron. `Schedule` is ValidateExpression of validate.go, `Validate` its other checks,
-- `Manager` and `Operations` manager.go: the file of jobs and history and cron's table, each operation on
-- which may fail. What the host answers, fmt.Sscanf and strconv.Quote are parameters. `Requests`,
-- `Protected` and `Retention` have the proofs.
-- Events: internal/platform/events/bus.go. A handler is a function on a state of the program, and may
-- fail or panic; `subscribe` returns the id which the function that Subscribe returns removes.
-- Files: internal/agent/filesystem/path_resolver.go, on lists of names; filepath.Clean, os.Lstat and
-- filepath.EvalSymlinks are parameters. The loop towards the root recurs on the names that are left.
-- Firewall: modules/firewall/validation.go; package net and strconv.Atoi are parameters.
-- Http: `Tickets` is internal/core/dashboard/tickets.go and `Limiter` is
-- internal/core/server/middleware/ratelimit.go. The tokens of a bucket, float64 in the source, are exact
-- here: a token is 60 * 10 ^ 9 parts, one for each nanosecond of a minute. Maps are association lists.
-- Module: internal/core/module. `Jobs` is the job table of sqlite_repository.go, and CancelJob, DeleteJob
-- and RecoverInterruptedJobs of jobs.go; each statement may fail.
-- Nginx: the configuration files of sites, which `Host` keeps with the failures of the calls to come.
-- A copy, internal/agent/filesystem/manager.go, may stop half way. `Sites` is modules/nginx/sites.go
-- on the local host, `Managed` internal/agent/nginxsite/manager.go; the rendered template is an
-- argument. `Applied` and `Undo` have the proofs.
-- Site: internal/core/site. `Validation` is validation.go, where path.Clean is a parameter; `Records` is
-- domain.go, `Effects` repository.go, deploy_service.go and the calls that leave Core, `Create` and
-- `Update` service.go, `Lifecycle` lifecycle_service.go and reconcile.go. Each call or statement may fail,
-- and a call that succeeds is recorded; a health check looks at ten answers at most, as the source does.
-- The other modules of the tree hold the proofs.
-- Update: internal/update. `Patterns` and `Manifest` are manifest.go, `Disk`, `Engine`, `Gates` and
-- `History` are engine.go: copyFile and atomicCopy on three binaries, install, restore, snapshotLive,
-- what Apply does before and after the installation, Rollback, findHistory. Each operation on a file can
-- be refused, and a plain copy can stop half way; Go's random orders of the binaries are arguments. The
-- gates take the answers of the network, the verifier and the backup provider as given.
--
-- Every function recurs on its data; none needs fuel. The health check of a site recurs on the ten rounds
-- that the source gives it.
--
-- Not modelled: what other packages do (bcrypt, JWT signing, address parsing, SHA-256, random bytes, the
-- clock: arguments of the functions that use them), logging and audit entries, JSON and HTTP decoding,
-- generated code, the web interface, and calls of system programs. Nor are the life cycle of modules and
-- the start of their jobs, the reads and writes of the Agent's files, the firewall itself and
-- backups.
-- Byte strings stand for the texts that are taken apart; white space is that of Unicode in UTF-8, as
-- strings.Fields and strings.TrimSpace take it. Numbers of bytes and times are natural numbers,
-- which do not overflow at the sizes in use; in Archive, where the sizes come from the archive, they
-- do. Modes of files and the cancelling of contexts are left out.
mod Common
pub mod Apperrors
pub mod Archive
pub mod Auth
pub mod ControlPlane
pub mod Cron
pub mod Events
pub mod Files
pub mod Firewall
pub mod Http
pub mod Module
pub mod Nginx
pub mod Site
pub mod Update
