-- ===== src/Daemon.antt =====
-- internal/daemon: the state that the daemon on a user's machine keeps.
pub mod Cursors
pub mod Read
pub mod Subs
pub mod Watches
pub mod Events
pub mod Heartbeats
