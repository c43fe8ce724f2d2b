-- ===== src/Lib.antt =====
-- Verification of ppz: pipes between agents, terminals and people, carried over NATS.
--
-- A pipe belongs to an account, sits in a manifold, may hang under a handle, and has a name. The server
-- decides who may use which pipe (internal/acl), compiles the decision into the permissions of a NATS user
-- (internal/server/acl_enforce.go), names the subjects and streams that the pipe rides on
-- (internal/natsubj), and publishes scheduled messages (internal/schedule, internal/server/scheduler.go).
-- On a user's machine the daemon (internal/daemon) holds the connection, remembers how far each session
-- has read each pipe, and reads pipes for the command line; a wrapper watches what runs in a terminal
-- (internal/harness) and cleans the terminal's input (internal/cli/terminal_filter.go).
--
-- Files and the code they are about:
-- - Acl.Perm, Acl.Selector, Acl.Model, Acl.Evaluate: internal/acl/acl.go and selector.go. `evaluate` is
--   `Evaluate`, statement by statement; a decision is a capability set with an explanation a capability.
-- - Acl.Compile: internal/acl/compile.go. `compile` is `Compile`; the NATS server, which is not in the
--   repository, is the record Acl.Compile.Nats.Nats, whose one law is the documented rule of subject
--   matching.
-- - Acl.Preview: internal/acl/preview.go. The maps by id and by handle are searched for the last entry.
-- - Natsubj.Names, Natsubj.Builders: internal/natsubj/subjects.go and presence.go. The package
--   github.com/google/uuid is the record Natsubj.Uuids.Uuids.
-- - Enforce: internal/server/acl_enforce.go, credential.go, role.go and the rows of internal/db/acl.go and
--   sources.go. A Store is what the database holds of one account; `nats_permissions_for` composes the
--   list of pipes, the evaluator and the compiler as natsPermissionsFor does.
-- - Schedule: internal/schedule/schedule.go. Cron expressions (github.com/robfig/cron) and the parsers of
--   durations and timestamps are the records Schedule.Crons and Schedule.Clocks.
-- - Scheduler: internal/server/scheduler.go with the statements of internal/db/schedules.go; one stored row
--   through a round of the firing loop. What the publish and the statements answer is an input.
-- - Harness: internal/harness/activity.go and detector.go. Each call under the lock is one step.
-- - Terminal: internal/cli/terminal_filter.go, and Terminal.Characters: terminal_utf8.go. The filter's
--   position in its loop is an argument of a structural recursion.
-- - Daemon.Cursors: internal/daemon/cursors.go and the unread count of list_snapshot.go; the directory of
--   cursor files is a function from sessions to files.
-- - Daemon.Read: the part of handleRead in internal/daemon/read.go that drains what the stream holds and
--   moves the cursor; it composes with Daemon.Cursors as the code does. The drain recurs on the list of
--   what the server answers to the fetches, which is its fuel; one answer for each expected message is
--   enough (Daemon.Read.Ends).
-- - Daemon.Watches: internal/daemon/watch_registry.go with swapNCLocked of daemon.go, each critical section
--   a step of a relation; a subscription dies when it is unsubscribed or its connection is closed.
-- - Daemon.Events: internal/daemon/nats_events.go, and Daemon.Events.Patterns: nats_event_patterns.go.
-- - Daemon.Heartbeats: internal/daemon/heartbeat_cache.go, heartbeat_status.go and heartbeat_owners.go. The
--   map by handle is a list of its entries, each under its own handle.
-- - OauthState: internal/server/oauth_state.go. Base64, JSON and HMAC are the record OauthState.Codec; each
--   reading of the clock and the random bytes are arguments.
-- - Daemon.Subs: internal/daemon/subs.go. The directory of files is a function from accounts and sessions to
--   files; what the file system answers to each call is an argument.
-- - Provision: internal/server/streams.go with the retention of account_pool.go. JetStream,
--   which is not in the repository, is the record Provision.JetStream; an error is `none`.
-- - Base: texts as lists of bytes, with the functions of Go's `strings` that the code calls, instants and
--   durations of Go's `time`, tests on numbers, and lemmas on lists. Each Tests module applies the
--   theorems of its parent to concrete input.
--
-- A Go string is the list of its bytes, so `utf8` gives the bytes of a literal. A UUID is its value as a
-- number. An instant counts nanoseconds from 2 ^ 63 before the zero time, so that adding a negative
-- duration does not leave the natural numbers; a duration is an int64 in two's complement, and products of
-- durations wrap. A map that is only read is a list of its rows or a function. Every loop of these
-- packages but the drain of a read runs over a slice and is structural recursion, without fuel;
-- `TrimSpace` recurs on the length of its text, of which each step takes at least a byte.
--
-- Not modelled: the server's HTTP handlers and SQL, the daemon's connections, sockets and refresh loop,
-- the command line, the web page, and the terminal emulator of a third party in internal/thirdparty/vt10x.
pub mod Acl
pub mod Base
pub mod Daemon
pub mod Enforce
pub mod Harness
pub mod Natsubj
pub mod OauthState
pub mod Provision
pub mod Schedule
pub mod Scheduler
pub mod Terminal
