-- ===== src/Client/Kept.antt =====
-- Connecting leaves what is to be sent, and the queue, as they are.
use mnapp.Client.Connect.{
  Connected, success, ssl_error, connect_error, wait_error, Network, Left, handshake,
  after_handshake, mnhttpc_connection_ssl_init, start_workers, after_ssl_init, connect_to,
  connect_from, mnhttpc_connection_connect, mnhttpc_connection_ensure_connected,
}
use mnapp.Client.Connection.{
  socket, Connection, Channel, Calls, has_workers, mnhttpc_connection_close,
}
use mnapp.Shared.Int.{negsuc, eqb_ℤ}
use mnapp.Shared.{ℕ, ◌≡◌, refl, Option, none, some, List, if_elim}

module _ {B T S R W : Type 0} where
  abbrev pub LeftKept : Channel S → List R → Left B T S R W → Type 0
  LeftKept out requests none = Unit
  LeftKept out requests (some (res, conn, w)) = (conn.out ≡ out) × (conn.requests ≡ requests)

module _ {B T S R W : Type 0} (net : Network B T W) where
  after_ssl_init-LeftKept :
      (out : Channel S) (requests : List R) (l : Left B T S R W)
      → LeftKept out requests l
      → LeftKept out requests (after_ssl_init net l)
  unfolding after_ssl_init start_workers
  after_ssl_init-LeftKept out requests none h = tt
  after_ssl_init-LeftKept out requests (some (success, conn, w)) h = h
  after_ssl_init-LeftKept out requests (some (ssl_error, conn, w)) h = h
  after_ssl_init-LeftKept out requests (some (connect_error, conn, w)) h = h
  after_ssl_init-LeftKept out requests (some (wait_error n, conn, w)) h = h

  after_handshake-LeftKept :
      (conn : Connection B T S R) (shaken : Option (Connected × W))
      → LeftKept conn.out conn.requests (after_handshake conn shaken)
  unfolding after_handshake
  after_handshake-LeftKept conn none = tt
  after_handshake-LeftKept conn (some (res, w)) = (refl, refl)

  ssl_init-LeftKept :
      (fuel : ℕ) (conn : Connection B T S R) (w : W)
      → LeftKept conn.out conn.requests (mnhttpc_connection_ssl_init net fuel conn w)
  unfolding mnhttpc_connection_ssl_init
  ssl_init-LeftKept fuel conn w =
      if_elim (LeftKept {B = B} {T = T} {S = S} {R = R} {W = W} conn.out conn.requests) conn.sslctx
        _ _
        (λ e. after_handshake-LeftKept conn (handshake net fuel conn.fd (net.ssl_new conn.fd w)))
        (λ e. (refl, refl))

  connect_to-LeftKept :
      (fuel : ℕ) (conn : Connection B T S R) (peer_host peer_port : B) (w : W)
      → LeftKept conn.out conn.requests (connect_to net fuel conn peer_host peer_port w)
  unfolding connect_to
  connect_to-LeftKept fuel conn peer_host peer_port w =
      let (fd, w') = net.socket_connect peer_host peer_port w in
      let opened : Connection B T S R = record conn { fd = fd; fp = socket fd } in
      if_elim (LeftKept {B = B} {T = T} {S = S} {R = R} {W = W} conn.out conn.requests)
        (eqb_ℤ fd (negsuc 0)) _ _ (λ e. (refl, refl))
        (λ e.
          after_ssl_init-LeftKept conn.out conn.requests
            (mnhttpc_connection_ssl_init net fuel opened w') (ssl_init-LeftKept fuel opened w'))

  connect_from-LeftKept :
      (fuel : ℕ) (conn : Connection B T S R) (host port : Option B) (w : W)
      → LeftKept conn.out conn.requests (connect_from net fuel conn host port w)
  unfolding connect_from
  connect_from-LeftKept fuel conn (some host) (some port) w = connect_to-LeftKept fuel conn _ _ w
  connect_from-LeftKept fuel conn (some host) none w = tt
  connect_from-LeftKept fuel conn none (some port) w = tt
  connect_from-LeftKept fuel conn none none w = tt

  pub ensure_connected-LeftKept :
      (calls : Calls T W R) (fuel : ℕ) (conn : Connection B T S R) (w : W)
      → LeftKept conn.out conn.requests (mnhttpc_connection_ensure_connected net calls fuel conn w)
  unfolding mnhttpc_connection_ensure_connected mnhttpc_connection_connect mnhttpc_connection_close
  ensure_connected-LeftKept calls fuel conn w =
      let closed = mnhttpc_connection_close calls (conn, w) in
      if_elim (LeftKept {B = B} {T = T} {S = S} {R = R} {W = W} conn.out conn.requests)
        (has_workers conn) _ _ (λ e. (refl, refl))
        (λ e. connect_from-LeftKept fuel closed.0 closed.0.host closed.0.port closed.1)
