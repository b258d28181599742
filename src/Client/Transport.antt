-- ===== src/Client/Transport.antt =====
-- The functions that a connection's streams read and write by.
use mnapp.Client.Connection.{
  mnthr_bytestream, ssl_bytestream, Connection, mnhttpc_connection_init, mnhttpc_connection_gc,
}
use mnapp.Shared.{◌≡◌, ◌↔◌, refl, true, false, if◌then◌else◌, arith}
use mnapp.Uri.Defs.{Scheme}

-- Both streams use TLS exactly where the connection has a TLS context.
pub record IsConsistent {B T S R : Type 0} (conn : Connection B T S R) : Type 0 where
  pub reads : conn.in_.transport ≡ (if conn.sslctx then ssl_bytestream else mnthr_bytestream)
  pub writes : conn.out.transport ≡ (if conn.sslctx then ssl_bytestream else mnthr_bytestream)

-- A new connection is consistent for every scheme, and mnhttpc_connection_gc, where it has the
-- semaphore, leaves exactly those connections consistent that have no TLS context.
pub mnhttpc_connection_gc-IsConsistent :
    {S : Type 0} (B T R : Type 0) (fresh : S) (scheme : Scheme) (conn : Connection B T S R)
    → IsConsistent {B = B} {T = T} {S = S} {R = R} (mnhttpc_connection_init fresh scheme)
      × (IsConsistent (mnhttpc_connection_gc fresh true conn).0 ↔ (conn.sslctx ≡ false))
unfolding mnhttpc_connection_init mnhttpc_connection_gc
mnhttpc_connection_gc-IsConsistent B T R fresh scheme conn = (
  record { reads = refl; writes = refl },
  (
    (λ c. ground (arith, c.reads)),
    λ e. record { reads = ground (arith, e); writes = ground (arith, e) },
  ),
)
