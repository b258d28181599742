-- ===== src/Server/Tests.antt =====
-- The life of a server on concrete addresses. The world is the list of the calls made, the newest
-- first.
use mnapp.Server.Address.{spells, mnapp_tcp_server_init-spells}
use mnapp.Server.Defs.{
  Calls, Server, mnapp_tcp_server_init, mnapp_tcp_server_stop, mnapp_tcp_server_fini,
}
use mnapp.Server.Release.{held, held_thread, let_go, mnapp_tcp_server_fini-once}
use mnapp.Shared.Int.{pos}
use mnapp.Shared.{ℕ, ◌≡◌, refl, some, List, [], ◌∷◌, Bytes, codes}

abbrev calls : Calls ℕ (List Bytes)
calls = record { join = λ t w. codes "join" ∷ w; free = λ s w. s ∷ w }

abbrev server : Server ℕ ℕ ℕ
server = mnapp_tcp_server_init (pos 10) (codes "host:80") 0 0

server_servname : server.servname ≡ some (codes "80")
unfolding mnapp_tcp_server_init
server_servname = refl

released :
    (mnapp_tcp_server_fini calls
      (mnapp_tcp_server_stop calls (record server { thread = some 1 }, []))).1
    ≡ codes "80" ∷ codes "host" ∷ codes "join" ∷ []
unfolding mnapp_tcp_server_fini mnapp_tcp_server_stop mnapp_tcp_server_init
released = refl

mnapp_tcp_server_init-spells_example :
    spells server.family server.hostname server.servname ≡ some (codes "host:80")
mnapp_tcp_server_init-spells_example = mnapp_tcp_server_init-spells ℕ (pos 10) (codes "host:80") 0 0

mnapp_tcp_server_fini-once_example :
    ((mnapp_tcp_server_fini calls (server, [])).1 ≡ let_go calls (held server) [])
    × (held (mnapp_tcp_server_fini calls (server, [])).0 ≡ [])
    × ((mnapp_tcp_server_stop calls (server, [])).1 ≡ let_go calls (held_thread server.thread) [])
    × (mnapp_tcp_server_fini calls (mnapp_tcp_server_stop calls (server, []))
        ≡ mnapp_tcp_server_fini calls (server, []))
    × (mnapp_tcp_server_fini calls (mnapp_tcp_server_fini calls (server, []))
        ≡ mnapp_tcp_server_fini calls (server, []))
mnapp_tcp_server_fini-once_example = mnapp_tcp_server_fini-once calls server []
