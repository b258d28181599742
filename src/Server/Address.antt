-- ===== src/Server/Address.antt =====
-- The address of a server and its parts.
use mnapp.Server.Defs.{Family, pf_inet, pf_local, Server, init_at, mnapp_tcp_server_init}
use mnapp.Shared.Int.{ℤ}
use mnapp.Shared.{ℕ, ◌+◌, ◌≡◌, refl, ap, Option, none, some, ◌∷◌, ◌++◌, Bytes, take, drop}
use mnapp.Uri.Cut.{strchr-cut}
use mnapp.Uri.Defs.{strchr}

-- The address that a server's names spell: host and port of the internet, or a local path.
unfoldable pub spells : Family → Option Bytes → Option Bytes → Option Bytes
spells pf_inet (some h) (some s) = some (h ++ (b':' ∷ s))
spells pf_local (some h) none = some h
spells _ _ _ = none

init_at-spells :
    (T : Type 0) {F D : Type 0} (colon : Option ℕ) (backlog : ℤ) (addr : Bytes) (cb : F) (udata : D)
    → ((k : ℕ) → colon ≡ some k → take k addr ++ (b':' ∷ drop (k + 1) addr) ≡ addr)
    → let srv : Server T F D = init_at colon backlog addr cb udata in
      spells srv.family srv.hostname srv.servname ≡ some addr
unfolding init_at spells
init_at-spells T none backlog addr cb udata cut = refl
init_at-spells T (some k) backlog addr cb udata cut = ap some (cut k refl)

-- The names that mnapp_tcp_server_init stores spell the address by the family that it stores, on
-- every address.
pub mnapp_tcp_server_init-spells :
    (T : Type 0) {F D : Type 0} (backlog : ℤ) (addr : Bytes) (cb : F) (udata : D)
    → let srv : Server T F D = mnapp_tcp_server_init backlog addr cb udata in
      spells srv.family srv.hostname srv.servname ≡ some addr
unfolding mnapp_tcp_server_init
mnapp_tcp_server_init-spells T backlog addr cb udata =
    init_at-spells T (strchr b':' addr) backlog addr cb udata (strchr-cut b':' addr)
