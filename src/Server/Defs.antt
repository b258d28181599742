-- ===== src/Server/Defs.antt =====
-- src/local_server.c: `mnapp_tcp_server_init`, `mnapp_tcp_server_stop`, `mnapp_tcp_server_fini`.
use mnapp.Shared.Int.{ℤ, negsuc}
use mnapp.Shared.{ℕ, ◌+◌, Bool, true, false, Option, none, some, Bytes, take, drop}
use mnapp.Uri.Defs.{strchr}

pub data Family : Type 0 where
  pf_inet pf_local : Family

-- `mnapp_tcp_server_t`, with `T` for threads, `F` for the callback and `D` for its data. The type of
-- its sockets is always SOCK_STREAM.
pub record Server (T F D : Type 0) : Type 0 where
  pub thread : Option T
  pub cb : F
  pub udata : D
  pub hostname : Option Bytes
  pub servname : Option Bytes
  pub listen_backlog : ℤ
  pub family : Family
  pub fd : ℤ
  pub shutting_down : Bool

-- What the code calls: `mnthr_set_interrupt_and_join` of mnthr, and `free`. `W` is the world.
pub record Calls (T W : Type 0) : Type 0 where
  pub join : T → W → W
  pub free : Bytes → W → W

module _ {T F D : Type 0} where
  -- The server that `mnapp_tcp_server_init` makes, where the first colon of `addr` is at `colon`.
  unfoldable pub init_at : Option ℕ → ℤ → Bytes → F → D → Server T F D
  init_at colon listen_backlog addr cb udata =
      let made : Option Bytes → Option Bytes → Family → Server T F D = λ hostname servname family.
        record {
          thread = none;
          cb = cb;
          udata = udata;
          hostname = hostname;
          servname = servname;
          listen_backlog = listen_backlog;
          family = family;
          fd = negsuc 0;
          shutting_down = false;
        } in
      elim colon [
        | some sz ↦ made (some (take sz addr)) (some (drop (sz + 1) addr)) pf_inet
        | none ↦ made (some addr) none pf_local
      ]

  unfoldable pub mnapp_tcp_server_init : ℤ → Bytes → F → D → Server T F D
  unfolding strchr init_at
  mnapp_tcp_server_init listen_backlog addr cb udata =
      init_at (strchr b':' addr) listen_backlog addr cb udata

module _ {T W : Type 0} (lib : Calls T W) where
  open lib use {join, free}

  -- The interrupt and join of the thread, where there is one.
  unfoldable pub join_thread : Option T → W → W
  join_thread none w = w
  join_thread (some t) w = join t w

  unfoldable pub free_name : Option Bytes → W → W
  free_name none w = w
  free_name (some s) w = free s w

  unfoldable pub mnapp_tcp_server_stop : {F D : Type 0} → Server T F D × W → Server T F D × W
  unfolding join_thread
  mnapp_tcp_server_stop (srv, w) =
      (record srv { thread = none; shutting_down = true }, join_thread srv.thread w)

  unfoldable pub mnapp_tcp_server_fini : {F D : Type 0} → Server T F D × W → Server T F D × W
  unfolding join_thread free_name
  mnapp_tcp_server_fini (srv, w) = (
    record srv {
      thread = none;
      hostname = none;
      servname = none;
      fd = negsuc 0;
      shutting_down = true;
    },
    free_name srv.servname (free_name srv.hostname (join_thread srv.thread w)),
  )
