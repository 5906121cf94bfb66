-- ===== src/Lib.antt =====
-- The relay: a service that queues transfers, runs them with lftp on a NAS, and shows their progress.
--
-- A job is a row of the database (internal/db). The manager (internal/jobs/manager.go) picks waiting
-- rows, runs each in a goroutine, feeds the output of the transfer to a tracker (internal/jobs/
-- tracker.go) that flushes progress to the row, and ends the row in a status that the state machine
-- (internal/jobs/state.go) allows. Every change is published, as the view of the row (internal/jobs/
-- view.go), to the hub (internal/events/events.go), which fans it out to the clients.
--
-- Which file models what:
--   Base      shared types and lemmas: lists, texts as lists of code points, int64 arithmetic with its
--             wrap-around (Base/Int), strconv.Atoi and strings.TrimSpace (Base/Strconv), strconv.Itoa
--             (Base/Decimal), strings.Split, Cut, Trim and path.Join (Base/Splitting), sorting, errors.
--   Events    internal/events/events.go. `Hub` holds every channel that was ever handed out, closed
--             ones included, since a client still drains a closed channel. `publish`, `subscribe`,
--             `unsubscribe` and `receive` are the calls; Events/Trace interleaves them.
--   Db        internal/db/repo.go and the tables of internal/db/migrations/0001_init.sql: one function
--             per statement over tables that are lists of rows, newest first. Db/Writes lines the
--             statements up in sequences. Db/Migrations: `migrate` of internal/db/db.go.
--   Config    internal/config/config.go: the environment and the .env file that seeds it.
--   Jobs      State: internal/jobs/state.go. View: internal/jobs/view.go. Tracker: internal/jobs/
--             tracker.go, with its critical sections as steps. Manager: internal/jobs/manager.go, cut
--             into the parts between two waits: Manager/Run for the goroutine of a job, Schedule for
--             the scheduler, Commands for the calls of the API, and Steps to interleave them all;
--             Transfers is what it hands to the NAS client.
--   Nas       Path: internal/nas/path.go, with Base/Path for Go's package path. Unicode normalisation
--             and the resolver of symbolic links are parameters. Of internal/nas/nas.go: Client is
--             the session, which pins the key of the host and retries once, Destinations validates,
--             lists and makes directories, and Shell runs commands and finds the tools and the paths
--             as a shell of the NAS sees them. Of internal/nas/lftp.go: Lftp quotes, Workspace is
--             `render`, Upload writes the rendered files, Output cuts what lftp prints into lines, and
--             Transfer composes them all. Progress, with the expressions of Patterns: internal/nas/
--             progress.go, which reads a line.
--             Sizes: the bytes of a destination.
--   Sftp      internal/sftpclient/sftpclient.go: dialling, with what the network and the SSH library
--             answer as an argument, Sftp/Pool for the map of connections, one step per call, and
--             Sftp/Listing for listings, sizes and the connection test over it.
--   Api       internal/api/api.go and internal/api/jobs.go: a handler takes the decoded request and the
--             state of the manager to a new state and a reply. Api/Servers, Api/Jobs, Api/Settings
--             and Api/Browsing hold the handlers of each kind, Api/Access is the authentication before
--             them, and Api/Stream the event stream. The validator of destinations and the hash of
--             credentials are parameters.
--   Examples  a small relay on which the theorems are applied.
--
-- Maps are association lists, times are natural numbers of nanoseconds (seconds in the tables), and
-- the clock is an argument of each call that reads it. An int64 is an integer, and a product, a sum or
-- a quotient that the code computes wraps as in Go. Every recursion is on a list, but for two on fuel:
-- the walk up the ancestors of a path has as many steps as the path has characters, and the scanner of
-- a line one more than its buffer has. What another machine answers (the size of a remote path, a
-- request of an upload, the output of a command, the end of a transfer) is an argument of the step that
-- waits for it. The manager takes the parsed form of a line of output as its argument.
--
-- Not modelled: SQL and SSH themselves, contexts' timeouts, the logger, routing and JSON, the
-- limit of 64 KiB on one line of output or of the .env file, the opening of the database, start-up,
-- static files, and the web interface.
-- A database call fails only where a check, a key or a missing row makes it fail. ParseFloat with the
-- product that follows it, and whether an error means a broken connection (which is read from its text)
-- are parameters.
mod Base
pub mod Events
pub mod Db
pub mod Nas
pub mod Sftp
pub mod Config
pub mod Jobs
pub mod Api
pub mod Examples
