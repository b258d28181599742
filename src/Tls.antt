-- ===== src/Tls.antt =====
-- src/bytestream_ssl_helper.c: streams over a TLS connection. OpenSSL, the waits of mnthr and the
-- memory of a stream are parameters.
pub mod Defs
mod Ends
mod Receive
mod Send
mod Tests
