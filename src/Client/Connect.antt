-- ===== src/Client/Connect.antt =====
-- src/mnhttpc.c: `mnhttpc_connection_ssl_init`, `mnhttpc_connection_connect` and
-- `mnhttpc_connection_ensure_connected`. The thread of the handshake is joined at once, so it is
-- a call.
use mnapp.Client.Connection.{socket, tls, Connection, Calls, has_workers, mnhttpc_connection_close}
use mnapp.Shared.Int.{ℤ, pos, negsuc, eqb_ℤ}
use mnapp.Shared.{ℕ, zero, suc, true, Option, none, some, if◌then◌else◌}

-- What `SSL_connect`, and `SSL_get_error` after it, tell.
pub data Handshake : Type 0 where
  connected want_read want_write ssl_failed : Handshake

-- What the connecting functions return: 0, the error of a wait, MNHTTPC_CONNECTION_SSL_ERROR, or
-- MNHTTPC_CONNECTION_CONNECT + 1.
pub data Connected : Type 0 where
  success ssl_error connect_error : Connected
  wait_error : ℤ → Connected

-- What connecting calls of other libraries, on the world `W`.
pub record Network (B T W : Type 0) : Type 0 where
  -- `mnthr_socket_connect`: a descriptor, or -1
  pub socket_connect : B → B → W → ℤ × W
  -- `SSL_new` and `SSL_set_fd`
  pub ssl_new : ℤ → W → W
  pub ssl_connect : W → Handshake × W
  -- `mnthr_wait_for_read`, `mnthr_wait_for_write`
  pub wait_for_read : ℤ → W → ℤ × W
  pub wait_for_write : ℤ → W → ℤ × W
  -- `MNTHR_SPAWN` with the send worker, and with the receive worker
  pub spawn_send : W → T × W
  pub spawn_recv : W → T × W

module _ {B T W : Type 0} (net : Network B T W) where
  open net use {ssl_connect, wait_for_read, wait_for_write}

  -- The end of a round of the handshake that had to wait: `again` goes on if the wait returned 0.
  unfoldable pub after_wait : (W → Option (Connected × W)) → ℤ × W → Option (Connected × W)
  unfolding eqb_ℤ
  after_wait again (res, w) = if eqb_ℤ res (pos 0) then again w else some (wait_error res, w)

  -- The loop of the handshake on fuel; `none` means that the fuel ran out.
  unfoldable pub handshake : ℕ → ℤ → W → Option (Connected × W)
  unfolding after_wait
  handshake zero fd w = none
  handshake (suc fuel) fd w =
      let (step, w') = ssl_connect w in
      elim step [
        | connected ↦ some (success, w')
        | want_read ↦ after_wait (handshake fuel fd) (wait_for_read fd w')
        | want_write ↦ after_wait (handshake fuel fd) (wait_for_write fd w')
        | ssl_failed ↦ some (ssl_error, w')
      ]

-- What a function leaves: its result, the connection and the world. `none` means that an assertion
-- failed, or that the fuel of the handshake ran out.
abbrev pub Left : Type 0 → Type 0 → Type 0 → Type 0 → Type 0 → Type 0
Left B T S R W = Option (Connected × Connection B T S R × W)

module _ {B T S R W : Type 0} where
  -- The connection behind the handshake.
  unfoldable pub after_handshake : Connection B T S R → Option (Connected × W) → Left B T S R W
  after_handshake conn none = none
  after_handshake conn (some (res, w)) = some (res, record conn { ssl = true; fp = tls }, w)

module _ {B T S R W : Type 0} (net : Network B T W) where
  open net use {socket_connect, ssl_new, spawn_send, spawn_recv}

  unfoldable pub mnhttpc_connection_ssl_init : ℕ → Connection B T S R → W → Left B T S R W
  unfolding handshake after_handshake
  mnhttpc_connection_ssl_init fuel conn w =
      if conn.sslctx
      then after_handshake conn (handshake net fuel conn.fd (ssl_new conn.fd w))
      else some (success, conn, w)

  -- The start of the two workers.
  unfoldable pub start_workers : Connection B T S R → W → Left B T S R W
  start_workers conn w =
      let (send, w1) = spawn_send w in
      let (recv, w2) = spawn_recv w1 in
      some (success, record conn { send_thread = some send; recv_thread = some recv }, w2)

  unfoldable pub after_ssl_init : Left B T S R W → Left B T S R W
  unfolding start_workers
  after_ssl_init none = none
  after_ssl_init (some (success, conn, w)) = start_workers conn w
  after_ssl_init (some (res, conn, w)) = some (res, conn, w)

  -- The connection with a peer, whose address is the proxy's where there is one.
  unfoldable pub connect_to : ℕ → Connection B T S R → B → B → W → Left B T S R W
  unfolding mnhttpc_connection_ssl_init after_ssl_init eqb_ℤ
  connect_to fuel conn peer_host peer_port w =
      let (fd, w') = socket_connect peer_host peer_port w in
      let opened = record conn { fd = fd } in
      if eqb_ℤ fd (negsuc 0)
      then some (connect_error, opened, w')
      else after_ssl_init (mnhttpc_connection_ssl_init fuel (record opened { fp = socket fd }) w')

  -- `mnhttpc_connection_connect` with the host and the port, which it asserts not to be NULL.
  unfoldable pub connect_from : ℕ → Connection B T S R → Option B → Option B → W → Left B T S R W
  unfolding connect_to
  connect_from fuel conn (some host) (some port) w =
      let peer_host : B = elim conn.proxy_host [ none ↦ host | some p ↦ p ] in
      let peer_port : B = elim conn.proxy_port [ none ↦ port | some p ↦ p ] in
      connect_to fuel conn peer_host peer_port w
  connect_from fuel conn _ _ w = none

  unfoldable pub mnhttpc_connection_connect : ℕ → Connection B T S R → W → Left B T S R W
  unfolding connect_from
  mnhttpc_connection_connect fuel conn w = connect_from fuel conn conn.host conn.port w

  unfoldable pub mnhttpc_connection_ensure_connected :
      Calls T W R → ℕ → Connection B T S R → W → Left B T S R W
  unfolding has_workers mnhttpc_connection_connect
  mnhttpc_connection_ensure_connected calls fuel conn w =
      let (closed, w') = mnhttpc_connection_close calls (conn, w) in
      if has_workers conn
      then some (success, conn, w)
      else mnhttpc_connection_connect fuel closed w'
