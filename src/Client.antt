-- ===== src/Client.antt =====
-- src/mnhttpc.c, src/mnhttpc.h: the HTTP client. Strings, hashes and streams are those of mncommon,
-- threads, signals and sockets those of mnthr, and TLS that of OpenSSL: parameters of the models.
-- Memory is always found. Counts of references are in Release alone.
pub mod Request
pub mod Connection
pub mod Connect
pub mod New
mod Reuse
pub mod Finalize
mod Answer
mod Sent
mod Kept
mod Enqueued
pub mod Workers
mod Queue
mod Transport
mod Release
mod Collect
mod Up
mod Headers
pub mod Plain
mod Tests
mod Runs
