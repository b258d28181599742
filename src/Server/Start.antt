-- ===== src/Server/Start.antt =====
-- src/local_server.c: `mnapp_tcp_server_start`, `mnapp_tcp_server_serve`.
use mnapp.Server.Defs.{Family, pf_inet, pf_local, Server}
use mnapp.Shared.Int.{ℤ, pos, negsuc, ltb_ℤ}
use mnapp.Shared.{
  ℕ, ◌+◌, ◌-◌, Bool, true, false, Option, none, some, [], ◌∷◌, ◌++◌, ltb, min, if◌then◌else◌, Bytes,
  length, take, replicate,
}

-- The calls of the operating system and of mnthr, on the world `W`. A Boolean tells that a call did
-- not fail.
pub record Sockets (T W : Type 0) : Type 0 where
  -- `mnthr_socket_bind` with the names of the server
  pub socket_bind : Option Bytes → Option Bytes → W → ℤ × W
  -- whether `stat` finds a socket at the path
  pub is_socket : Bytes → W → Bool
  pub unlink : Bytes → W → W
  -- `socket` for local streams
  pub socket : W → ℤ × W
  -- `fcntl` with O_NONBLOCK
  pub set_nonblocking : ℤ → W → Bool × W
  -- `bind` to the path in `sun_path`
  pub bind : ℤ → Bytes → W → Bool × W
  pub listen : ℤ → ℤ → W → Bool × W
  pub close : ℤ → W → W
  -- `MNTHR_SPAWN` with the worker
  pub spawn : W → T × W
  pub join : T → W → ℤ × W
  -- `sizeof(sa.sun_path)`
  pub path_size : ℕ

-- What is left: 0 or the number that is added to MNAPP_TCP_SERVER_START, and the server. Otherwise a
-- NULL was read, or a byte was written behind `sun_path`.
pub data Started (T F D W : Type 0) : Type 0 where
  returns : ℕ → Server T F D → W → Started T F D W
  undefined : Started T F D W

-- `sun_path`, cleared, with the path and a NUL at `sz`. `none` means that the NUL stands behind it.
unfoldable pub sun_path : ℕ → Bytes → Option Bytes
sun_path size path =
    let sz = min (length path + 1) size in
    if ltb sz size then some (take sz (path ++ 0 ∷ []) ++ replicate (size - sz) 0) else none

module _ {T W : Type 0} (lib : Sockets T W) where
  open lib use {
    socket_bind, is_socket, unlink, socket, set_nonblocking, bind, listen, close, spawn, join,
    path_size,
  }

  -- The old socket at the path, if there is one, is removed.
  unfoldable pub remove_socket : Bytes → W → W
  remove_socket path w = if is_socket path w then unlink path w else w

  module _ {F D : Type 0} where
    -- The end of a step that failed with the descriptor open.
    unfoldable pub give_up : ℕ → Server T F D → W → Started T F D W
    give_up code srv w = returns code (record srv { fd = negsuc 0 }) (close srv.fd w)

    unfoldable pub start_thread : Server T F D → W → Started T F D W
    start_thread srv w = let (t, w') = spawn w in returns 0 (record srv { thread = some t }) w'

    -- From `listen` on.
    unfoldable pub after_listen : Server T F D → Bool × W → Started T F D W
    unfolding give_up start_thread
    after_listen srv (true, w) = start_thread srv w
    after_listen srv (false, w) = give_up 5 srv w

    unfoldable pub start_listen : Server T F D → W → Started T F D W
    unfolding after_listen
    start_listen srv w = after_listen srv (listen srv.fd srv.listen_backlog w)

    unfoldable pub after_bind : Server T F D → Bool × W → Started T F D W
    unfolding give_up start_listen
    after_bind srv (true, w) = start_listen srv w
    after_bind srv (false, w) = give_up 4 srv w

    unfoldable pub after_nonblocking : Server T F D → Bytes → Bool × W → Started T F D W
    unfolding give_up after_bind
    after_nonblocking srv address (true, w) = after_bind srv (bind srv.fd address w)
    after_nonblocking srv address (false, w) = give_up 3 srv w

    -- With the address of a local socket.
    unfoldable pub start_local : Server T F D → Option Bytes → W → Started T F D W
    unfolding after_nonblocking
    start_local srv none w = undefined
    start_local srv (some address) w =
        let (fd, w') = socket w in
        let opened = record srv { fd = fd } in
        if ltb_ℤ fd (pos 0)
        then returns 2 opened w'
        else after_nonblocking opened address (set_nonblocking fd w')

    unfoldable pub start_path : Server T F D → Option Bytes → W → Started T F D W
    unfolding start_local sun_path remove_socket
    start_path srv none w = undefined
    start_path srv (some path) w = start_local srv (sun_path path_size path) (remove_socket path w)

    unfoldable pub start_inet : Server T F D → W → Started T F D W
    unfolding start_listen
    start_inet srv w =
        let (fd, w') = socket_bind srv.hostname srv.servname w in
        let opened = record srv { fd = fd } in
        if ltb_ℤ fd (pos 0) then returns 1 opened w' else start_listen opened w'

    unfoldable pub start_family : Family → Server T F D → W → Started T F D W
    unfolding start_inet start_path
    start_family pf_inet srv w = start_inet srv w
    start_family pf_local srv w = start_path srv srv.hostname w

    unfoldable pub mnapp_tcp_server_start : Server T F D → W → Started T F D W
    unfolding start_family
    mnapp_tcp_server_start srv w = start_family srv.family srv w

    -- It returns what the worker did; a failed assertion is `none`.
    unfoldable pub mnapp_tcp_server_serve : Server T F D → W → Option (ℤ × W)
    mnapp_tcp_server_serve srv w = elim srv.thread [ none ↦ none | some t ↦ some (join t w) ]
