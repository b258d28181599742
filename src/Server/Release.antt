-- ===== src/Server/Release.antt =====
-- A server releases what it has, once.
use mnapp.Server.Defs.{Calls, Server, mnapp_tcp_server_stop, mnapp_tcp_server_fini}
use mnapp.Shared.{◌≡◌, refl, Option, none, some, List, [], ◌∷◌, ◌++◌, Bytes}

-- What a server has to join, and what it has to free.
pub data Held (T : Type 0) : Type 0 where
  to_join : T → Held T
  to_free : Bytes → Held T

abbrev pub held_thread : {T : Type 0} → Option T → List (Held T)
held_thread none = []
held_thread (some t) = to_join t ∷ []

abbrev pub held_name : {T : Type 0} → Option Bytes → List (Held T)
held_name none = []
held_name (some s) = to_free s ∷ []

-- The thread, and the two names.
abbrev pub held : {T F D : Type 0} → Server T F D → List (Held T)
held srv = held_thread srv.thread ++ (held_name srv.hostname ++ held_name srv.servname)

module _ {T W : Type 0} (lib : Calls T W) where
  -- Each of it joined or freed, in order.
  unfoldable pub let_go : List (Held T) → W → W
  let_go [] w = w
  let_go (to_join t ∷ hs) w = let_go hs (lib.join t w)
  let_go (to_free s ∷ hs) w = let_go hs (lib.free s w)

  by_fields :
      {F D : Type 0} (srv : Server T F D) (w : W) (thread : Option T)
      (hostname servname : Option Bytes)
      → let s : Server T F D = record srv {
        thread = thread;
        hostname = hostname;
        servname = servname;
      } in
        ((mnapp_tcp_server_fini lib (s, w)).1 ≡ let_go (held s) w)
        × ((mnapp_tcp_server_stop lib (s, w)).1 ≡ let_go (held_thread thread) w)
  unfolding mnapp_tcp_server_fini mnapp_tcp_server_stop let_go
  by_fields srv w none none none = (refl, refl)
  by_fields srv w none none (some s) = (refl, refl)
  by_fields srv w none (some h) none = (refl, refl)
  by_fields srv w none (some h) (some s) = (refl, refl)
  by_fields srv w (some t) none none = (refl, refl)
  by_fields srv w (some t) none (some s) = (refl, refl)
  by_fields srv w (some t) (some h) none = (refl, refl)
  by_fields srv w (some t) (some h) (some s) = (refl, refl)

  -- mnapp_tcp_server_fini joins the thread, if there is one, and frees the names that there are,
  -- and leaves a server that has none of them; mnapp_tcp_server_stop joins the thread. A server that
  -- was stopped or released before is released as it would have been: nothing is joined or freed twice.
  pub mnapp_tcp_server_fini-once :
      {F D : Type 0} (srv : Server T F D) (w : W)
      → ((mnapp_tcp_server_fini lib (srv, w)).1 ≡ let_go (held srv) w)
        × (held (mnapp_tcp_server_fini lib (srv, w)).0 ≡ [])
        × ((mnapp_tcp_server_stop lib (srv, w)).1 ≡ let_go (held_thread srv.thread) w)
        × (mnapp_tcp_server_fini lib (mnapp_tcp_server_stop lib (srv, w))
            ≡ mnapp_tcp_server_fini lib (srv, w))
        × (mnapp_tcp_server_fini lib (mnapp_tcp_server_fini lib (srv, w))
            ≡ mnapp_tcp_server_fini lib (srv, w))
  unfolding mnapp_tcp_server_fini mnapp_tcp_server_stop
  mnapp_tcp_server_fini-once srv w =
      let (freed, joined) = by_fields srv w srv.thread srv.hostname srv.servname in
      (freed, refl, joined, refl, refl)
