-- ===== src/Server/Accept.antt =====
-- src/local_server.c: `mnapp_tcp_server_worker`, `local_server`.
use mnapp.Server.Defs.{Server}
use mnapp.Server.Start.{Sockets, sun_path, remove_socket}
use mnapp.Shared.Int.{ℤ, pos, ltb_ℤ, eqb_ℤ}
use mnapp.Shared.{
  ℕ, zero, suc, Bool, true, false, Option, none, some, List, [], ◌∷◌, if◌then◌else◌, Bytes,
}

-- What the loops call. `shutting_down` reads the flag that other threads set.
pub record Acceptor (S F D T W : Type 0) : Type 0 where
  pub shutting_down : W → Bool
  -- `mnthr_accept_all2`, `mnthr_accept_all`, with the sockets
  pub accept_all : ℤ → W → ℤ × List S × W
  pub call : F → S → D → W → ℤ × W
  -- `MNTHR_SPAWN` with the callback
  pub spawn_call : F → S → D → W → W

module _ {S F D T W : Type 0} (lib : Acceptor S F D T W) where
  open lib use {shutting_down, accept_all, call, spawn_call}

  -- The sockets of a round, up to one whose callback fails. The result is that of the last call.
  unfoldable pub call_all : F → D → List S → ℤ × W → ℤ × W
  unfolding eqb_ℤ
  call_all cb udata [] (res, w) = (res, w)
  call_all cb udata (s ∷ ss) (res, w) =
      let (r, w') = call cb s udata w in
      let rest = call_all cb udata ss (r, w') in if eqb_ℤ r (pos 0) then rest else (r, w')

  -- The end of a round; `again` is the rest of the loop.
  unfoldable pub after_accept : (ℤ × W → Option (ℤ × W)) → F → D → ℤ × List S × W → Option (ℤ × W)
  unfolding call_all eqb_ℤ
  after_accept again cb udata (res, sockets, w) =
      if eqb_ℤ res (pos 0) then again (call_all cb udata sockets (res, w)) else some (res, w)

  -- The loop on fuel; `none` means that it ran out.
  unfoldable pub worker_loop : ℕ → F → D → ℤ → ℤ × W → Option (ℤ × W)
  unfolding after_accept
  worker_loop zero cb udata fd r = none
  worker_loop (suc fuel) cb udata fd (res, w) = elim (shutting_down w) [
    | true ↦ some (res, w)
    | false ↦ after_accept (worker_loop fuel cb udata fd) cb udata (accept_all fd w)
  ]

  unfoldable pub mnapp_tcp_server_worker : ℕ → Server T F D → W → Option (ℤ × W)
  unfolding worker_loop
  mnapp_tcp_server_worker fuel srv w = worker_loop fuel srv.cb srv.udata srv.fd (pos 0, w)

  unfoldable pub spawn_all : F → D → List S → W → W
  spawn_all cb udata [] w = w
  spawn_all cb udata (s ∷ ss) w = spawn_all cb udata ss (spawn_call cb s udata w)

  unfoldable pub after_accept_local : (W → Option W) → F → D → ℤ × List S × W → Option W
  unfolding spawn_all eqb_ℤ
  after_accept_local again cb udata (res, sockets, w) =
      if eqb_ℤ res (pos 0) then again (spawn_all cb udata sockets w) else some w

  unfoldable pub local_loop : ℕ → F → D → ℤ → W → Option W
  unfolding after_accept_local
  local_loop zero cb udata fd w = none
  local_loop (suc fuel) cb udata fd w = elim (shutting_down w) [
    | true ↦ some w
    | false ↦ after_accept_local (local_loop fuel cb udata fd) cb udata (accept_all fd w)
  ]

  module _ (sockets : Sockets T W) where
    open sockets use {socket, bind, listen, close, unlink, path_size}

    -- The end of `local_server`.
    unfoldable pub close_local : ℤ → Bytes → Option W → Option W
    close_local fd path none = none
    close_local fd path (some w) = some (unlink path (close fd w))

    unfoldable pub listen_local : ℕ → ℤ → Bytes → F → D → ℤ → Bool × W → Option W
    unfolding local_loop close_local
    listen_local fuel backlog path cb udata fd (false, w) = none
    listen_local fuel backlog path cb udata fd (true, w) =
        let (ok, w') = listen fd backlog w in
        if ok then close_local fd path (local_loop fuel cb udata fd w') else none

    unfoldable pub bind_local : ℕ → ℤ → Bytes → F → D → Option Bytes → W → Option W
    unfolding listen_local
    bind_local fuel backlog path cb udata none w = none
    bind_local fuel backlog path cb udata (some address) w =
        let (fd, w') = socket w in
        if ltb_ℤ fd (pos 0)
        then none
        else listen_local fuel backlog path cb udata fd (bind fd address w')

    -- The world when it returns; `none` means that a call of it failed with FAIL, that a byte was written
    -- behind `sun_path`, or that the fuel ran out.
    unfoldable pub local_server : ℕ → ℤ → Bytes → F → D → W → Option W
    unfolding bind_local sun_path remove_socket
    local_server fuel listen_backlog path cb udata w =
        let backlog = if ltb_ℤ (pos 0) listen_backlog then listen_backlog else pos 1 in
        bind_local fuel backlog path cb udata (sun_path path_size path)
          (remove_socket sockets path w)
