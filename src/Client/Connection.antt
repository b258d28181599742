-- ===== src/Client/Connection.antt =====
-- src/mnhttpc.c: `mnhttpc_connection_hash` to `mnhttpc_connection_new`, and
-- `mnhttpc_connection_gc`. src/mnhttpc.h: `mnhttpc_connection_t`.
use mnapp.Shared.Int.{ℤ, pos, negsuc, eqb_ℤ}
use mnapp.Shared.MnBytes.{MnBytes}
use mnapp.Shared.{ℕ, Bool, true, false, Option, none, some, List, [], ◌∷◌, ltb, if◌then◌else◌, ◌==◌}
use mnapp.Uri.Defs.{Scheme, https, is_scheme}

-- `conn->fp`: the descriptor, as a pointer, or the TLS connection, or NULL.
pub data Fp : Type 0 where
  socket : ℤ → Fp
  tls null : Fp

-- The functions that a stream reads and writes by: those of mnthr, or those of the TLS helper.
pub data Transport : Type 0 where
  mnthr_bytestream ssl_bytestream : Transport

-- A stream with its function, `read_more` or `write`.
pub record Channel (S : Type 0) : Type 0 where
  pub transport : Transport
  pub stream : S

-- `mnhttpc_connection_t`. `T` stands for threads, `S` for streams, and `R` for requests, in the order
-- of the queue. `sslctx` and `ssl` tell whether the pointers are not NULL. The condition `recv_cond`
-- is not used by the code.
pub record Connection (B T S R : Type 0) : Type 0 where
  pub hash : ℕ
  pub proxy_host : Option B
  pub proxy_port : Option B
  pub host : Option B
  pub port : Option B
  pub fd : ℤ
  pub fp : Fp
  pub sslctx : Bool
  pub ssl : Bool
  pub send_thread : Option T
  pub recv_thread : Option T
  pub in_ : Channel S
  pub out : Channel S
  pub requests : List R

-- The hash functions of mncommon, on 64 bits: `bytes_hash`, and `fasthash` with the eight bytes of a
-- number.
pub record HashFunctions (B : Type 0) : Type 0 where
  pub bytes_hash : B → ℕ
  pub fasthash : ℕ → ℕ → ℕ

-- What the connection calls of other libraries, on the world `W`.
pub record Calls (T W R : Type 0) : Type 0 where
  -- `mnthr_set_interrupt_and_join`
  pub join : T → W → W
  -- `SSL_shutdown` and `SSL_free`, `SSL_CTX_free`, `close`
  pub ssl_free : W → W
  pub sslctx_free : W → W
  pub close : ℤ → W → W
  -- `mnhttpc_request_destroy` on a request of the queue
  pub destroy : R → W → W

module _ {B : Type 0} (fns : HashFunctions B) where
  open fns use {bytes_hash, fasthash}

  -- The hash so far with that of one more string, if it is not NULL.
  unfoldable pub mix : ℕ → Option B → ℕ
  mix h none = h
  mix h (some b) = fasthash h (bytes_hash b)

  -- The hash of the four strings.
  unfoldable pub address_hash : Option B → Option B → Option B → Option B → ℕ
  unfolding mix
  address_hash proxy_host proxy_port host port =
      let start : ℕ = elim proxy_host [ none ↦ 0 | some b ↦ bytes_hash b ] in
      mix (mix (mix start proxy_port) host) port

-- A copy of a string that may be NULL.
unfoldable pub copy : {B : Type 0} → MnBytes B → Option B → Option B
copy strings none = none
copy strings (some b) = some (strings.from_bytes b)

module _ {T W R : Type 0} (calls : Calls T W R) where
  open calls use {join, destroy}

  unfoldable pub stop_thread : Option T → W → W
  stop_thread none w = w
  stop_thread (some t) w = join t w

  -- The loop that empties the queue.
  unfoldable pub destroy_all : List R → W → W
  destroy_all [] w = w
  destroy_all (r ∷ rs) w = destroy_all rs (destroy r w)

module _ {B T S R : Type 0} where
  module _ (fns : HashFunctions B) where
    -- The hash, and the connection with it.
    unfoldable pub mnhttpc_connection_hash : Connection B T S R → ℕ × Connection B T S R
    unfolding address_hash
    mnhttpc_connection_hash conn =
        let h = address_hash fns conn.proxy_host conn.proxy_port conn.host conn.port in
        if conn.hash == 0 then (h, record conn { hash = h }) else (conn.hash, conn)

    -- Less than 0, 0 or more, as `MNCMP` compares numbers.
    unfoldable pub mnhttpc_connection_cmp : Connection B T S R → Connection B T S R → ℤ
    unfolding mnhttpc_connection_hash
    mnhttpc_connection_cmp a b =
        let ha = (mnhttpc_connection_hash a).0 in
        let hb = (mnhttpc_connection_hash b).0 in
        if ltb ha hb then negsuc 0 else if ltb hb ha then pos 1 else pos 0

  -- `bytestream_init` with a block size of 4096 makes `fresh`.
  unfoldable pub mnhttpc_connection_init : S → Scheme → Connection B T S R
  mnhttpc_connection_init fresh scheme =
      let is_tls = is_scheme scheme https in
      let transport = if is_tls then ssl_bytestream else mnthr_bytestream in
      record {
        hash = 0;
        proxy_host = none;
        proxy_port = none;
        host = none;
        port = none;
        fd = negsuc 0;
        fp = (if is_tls then null else socket (negsuc 0));
        sslctx = is_tls;
        ssl = false;
        send_thread = none;
        recv_thread = none;
        in_ = record { transport = transport; stream = fresh };
        out = record { transport = transport; stream = fresh };
        requests = [];
      }

  unfoldable pub mnhttpc_connection_new :
      MnBytes B → S → Option B → Option B → B → B → Scheme → Connection B T S R
  unfolding mnhttpc_connection_init copy
  mnhttpc_connection_new strings fresh proxy_host proxy_port host port scheme =
      record (mnhttpc_connection_init fresh scheme) {
        proxy_host = copy strings proxy_host;
        proxy_port = copy strings proxy_port;
        host = some (strings.from_bytes host);
        port = some (strings.from_bytes port);
      }

  -- The test of `mnhttpc_connection_ensure_connected`.
  unfoldable pub has_workers : Connection B T S R → Bool
  has_workers conn = elim conn.send_thread [
    | none ↦ false
    | some _ ↦ elim conn.recv_thread [ none ↦ false | some _ ↦ true ]
  ]

  -- `acquired` tells whether the semaphore could be had. The result is whether it returns 0.
  unfoldable pub mnhttpc_connection_gc : S → Bool → Connection B T S R → Connection B T S R × Bool
  mnhttpc_connection_gc fresh acquired conn =
      let channel : Channel S = record { transport = mnthr_bytestream; stream = fresh } in
      if acquired then (record conn { in_ = channel; out = channel }, true) else (conn, false)

  module _ {W : Type 0} (calls : Calls T W R) where
    open calls use {ssl_free, sslctx_free, close}

    unfoldable pub mnhttpc_connection_close : Connection B T S R × W → Connection B T S R × W
    unfolding stop_thread eqb_ℤ
    mnhttpc_connection_close (conn, w) =
        let w1 = stop_thread calls conn.recv_thread (stop_thread calls conn.send_thread w) in
        let w2 = if conn.ssl then ssl_free w1 else w1 in
        (
          record conn {
            send_thread = none;
            recv_thread = none;
            ssl = false;
            fd = negsuc 0;
            fp = socket (negsuc 0);
          },
          if eqb_ℤ conn.fd (negsuc 0) then w2 else close conn.fd w2,
        )

    -- The semaphore and the streams are released too.
    unfoldable pub mnhttpc_connection_fini : Connection B T S R × W → Connection B T S R × W
    unfolding mnhttpc_connection_close destroy_all
    mnhttpc_connection_fini (conn, w) =
        let emptied = record conn {
          hash = 0;
          proxy_host = none;
          proxy_port = none;
          host = none;
          port = none;
          requests = [];
        } in
        let (closed, w1) = mnhttpc_connection_close (emptied, destroy_all calls conn.requests w) in
        (record closed { sslctx = false }, if closed.sslctx then sslctx_free w1 else w1)
