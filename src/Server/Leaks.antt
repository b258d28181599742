-- ===== src/Server/Leaks.antt =====
-- The descriptor of a server that is released.
use mathlib.Core.Path.{subst}
use mnapp.Server.Balance.{Opens, Balanced, eqb_ℤ-self, mnapp_tcp_server_start-Balanced}
use mnapp.Server.Defs.{Server, Calls, join_thread, free_name, mnapp_tcp_server_fini}
use mnapp.Server.Start.{Sockets, returns, mnapp_tcp_server_start}
use mnapp.Shared.Int.{ℤ, negsuc}
use mnapp.Shared.{◌≡◌, refl, ◌∙◌, Bool, true, false, Option, none, some, arith, Bytes}

-- The join of the worker and `free` do not close the descriptor.
pub record Keeps {T W : Type 0} (is_open : W → ℤ → Bool) (calls : Calls T W) (fd : ℤ) : Type 0 where
  pub is_open-join : (t : T) (w : W) → is_open w fd ≡ true → is_open (calls.join t w) fd ≡ true
  pub is_open-free : (s : Bytes) (w : W) → is_open w fd ≡ true → is_open (calls.free s w) fd ≡ true

module _ {T W : Type 0} (is_open : W → ℤ → Bool) (calls : Calls T W) (fd : ℤ)
    (keeps : Keeps is_open calls fd) where
  is_open-join_thread :
      (t : Option T) (w : W) → is_open w fd ≡ true → is_open (join_thread calls t w) fd ≡ true
  unfolding join_thread
  is_open-join_thread none w h = h
  is_open-join_thread (some t) w h = keeps.is_open-join t w h

  is_open-free_name :
      (s : Option Bytes) (w : W) → is_open w fd ≡ true → is_open (free_name calls s w) fd ≡ true
  unfolding free_name
  is_open-free_name none w h = h
  is_open-free_name (some s) w h = keeps.is_open-free s w h

module _ {T F D W : Type 0} (lib : Sockets T W) (is_open : W → ℤ → Bool) (opens : Opens lib is_open)
    (calls : Calls T W) where
  -- A server that was started, and whose worker does not close its descriptor, forgets it when it is
  -- released: it was not open before the start, and stays open.
  pub mnapp_tcp_server_fini-leaks :
      (srv srv' : Server T F D) (w w' : W)
      → Keeps is_open calls srv'.fd
      → mnapp_tcp_server_start lib srv w ≡ returns 0 srv' w'
      → (is_open w srv'.fd ≡ false)
        × (is_open (mnapp_tcp_server_fini calls (srv', w')).1 srv'.fd ≡ true)
        × ((mnapp_tcp_server_fini calls (srv', w')).0.fd ≡ negsuc 0)
  unfolding mnapp_tcp_server_fini
  mnapp_tcp_server_fini-leaks srv srv' w w' keeps e =
      let (threaded, fresh, new) =
        subst (Balanced lib is_open opens srv w) e
          (mnapp_tcp_server_start-Balanced lib is_open opens srv w) in
      let started : is_open w' srv'.fd ≡ true = new srv'.fd ∙ ground (arith, eqb_ℤ-self srv'.fd) in
      (
        fresh,
        is_open-free_name is_open calls srv'.fd keeps srv'.servname _ (
            is_open-free_name is_open calls srv'.fd keeps srv'.hostname _
              (is_open-join_thread is_open calls srv'.fd keeps srv'.thread w' started)),
        refl,
      )
