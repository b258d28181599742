-- ===== src/Server.antt =====
-- src/local_server.c, src/mntcps.h: the TCP server and the local server. Memory is always found.
mod Defs
mod Address
mod Release
mod Start
mod Balance
mod Accept
mod Leaks
mod SunPath
mod Tests
mod Runs
