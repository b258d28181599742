-- ===== src/Client/Up.antt =====
-- What `mnhttpc_connection_ensure_connected` promises.
use mnapp.Client.Connect.{success, Left}
use mnapp.Client.Connection.{socket, tls, Connection, has_workers}
use mnapp.Shared.{◌≡◌, ◌≢◌, ◌⊎◌, true, false, none, some, if◌then◌else◌}

-- The stream's file is the TLS connection, or the socket, as the connection has a TLS context or not.
pub record IsWired {B T S R : Type 0} (conn : Connection B T S R) : Type 0 where
  pub file : conn.fp ≡ (if conn.sslctx then tls else socket conn.fd)
  pub tls_made : conn.ssl ≡ conn.sslctx

-- A connection with both workers has the right file.
abbrev pub IsSound : {B T S R : Type 0} → Connection B T S R → Type 0
IsSound conn = (has_workers conn ≡ false) ⊎ IsWired conn

-- A result of 0 comes with both workers, and any result with a sound connection.
abbrev pub LeftSound : {B T S R W : Type 0} → Left B T S R W → Type 0
LeftSound none = Unit
LeftSound (some (res, conn, w)) = IsSound conn × ((res ≢ success) ⊎ (has_workers conn ≡ true))
