-- ===== src/Daemon.antt =====
-- src/daemonize.c: a process that becomes a daemon. The calls of the operating system are parameters.
mod Defs
mod Streams
mod Tests
