-- ===== src/Server/Balance.antt =====
-- The descriptors of a server.
use mnapp.Server.Defs.{Family, pf_inet, pf_local, Server}
use mnapp.Server.Start.{
  Sockets, Started, returns, undefined, sun_path, remove_socket, give_up, start_thread,
  after_listen, start_listen, after_bind, after_nonblocking, start_local, start_path, start_inet,
  start_family, mnapp_tcp_server_start,
}
use mnapp.Shared.Int.{ℤ, pos, negsuc, ltb_ℤ, eqb_ℤ}
use mnapp.Shared.{
  ℕ, zero, suc, ◌+◌, ◌≤◌, ◌≡◌, ◌≢◌, refl, sym, ◌∙◌, Bool, true, false, Option, none, some,
  if◌then◌else◌, if_elim, arith, Bytes, length,
}

-- Which descriptors are open, and what the calls do to them: a new one was not open, `close` closes one, and
-- the others leave them.
pub record Opens {T W : Type 0} (lib : Sockets T W) (is_open : W → ℤ → Bool) : Type 0 where
  pub socket_bind-fails :
      (h s : Option Bytes) (w : W) (j : ℤ)
      → ltb_ℤ (lib.socket_bind h s w).0 (pos 0) ≡ true
      → is_open (lib.socket_bind h s w).1 j ≡ is_open w j
  pub socket_bind-new :
      (h s : Option Bytes) (w : W)
      → ltb_ℤ (lib.socket_bind h s w).0 (pos 0) ≡ false
      → (is_open w (lib.socket_bind h s w).0 ≡ false)
        × ((j : ℤ)
            → is_open (lib.socket_bind h s w).1 j
              ≡ (if eqb_ℤ j (lib.socket_bind h s w).0 then true else is_open w j))
  pub socket-fails :
      (w : W) (j : ℤ)
      → ltb_ℤ (lib.socket w).0 (pos 0) ≡ true
      → is_open (lib.socket w).1 j ≡ is_open w j
  pub socket-new :
      (w : W)
      → ltb_ℤ (lib.socket w).0 (pos 0) ≡ false
      → (is_open w (lib.socket w).0 ≡ false)
        × ((j : ℤ)
            → is_open (lib.socket w).1 j ≡ (if eqb_ℤ j (lib.socket w).0 then true else is_open w j))
  pub is_open-close :
      (fd : ℤ) (w : W) (j : ℤ)
      → is_open (lib.close fd w) j ≡ (if eqb_ℤ j fd then false else is_open w j)
  pub is_open-unlink : (p : Bytes) (w : W) (j : ℤ) → is_open (lib.unlink p w) j ≡ is_open w j
  pub is_open-set_nonblocking :
      (fd : ℤ) (w : W) (j : ℤ) → is_open (lib.set_nonblocking fd w).1 j ≡ is_open w j
  pub is_open-bind :
      (fd : ℤ) (p : Bytes) (w : W) (j : ℤ) → is_open (lib.bind fd p w).1 j ≡ is_open w j
  pub is_open-listen : (fd n : ℤ) (w : W) (j : ℤ) → is_open (lib.listen fd n w).1 j ≡ is_open w j
  pub is_open-spawn : (w : W) (j : ℤ) → is_open (lib.spawn w).1 j ≡ is_open w j

eqb_ℤ→eq : (a b : ℤ) → eqb_ℤ a b ≡ true → a ≡ b
unfolding eqb_ℤ
eqb_ℤ→eq (pos a) (pos b) h = ground arith
eqb_ℤ→eq (negsuc a) (negsuc b) h = ground arith
eqb_ℤ→eq (pos a) (negsuc b) h = cc
eqb_ℤ→eq (negsuc a) (pos b) h = cc

pub eqb_ℤ-self : (a : ℤ) → eqb_ℤ a a ≡ true
unfolding eqb_ℤ
eqb_ℤ-self (pos a) = ground arith
eqb_ℤ-self (negsuc a) = ground arith

module _ {T F D W : Type 0} (lib : Sockets T W) (is_open : W → ℤ → Bool) (opens : Opens lib is_open)
    (srv : Server T F D) (w : W) where
  -- A start that returns 0 left a thread and one more descriptor open, its own. One that returns an
  -- error left no thread of its own and the descriptors as they were.
  abbrev pub Balanced : Started T F D W → Type 0
  Balanced (returns zero srv' w') =
      (srv'.thread ≢ none)
      × (is_open w srv'.fd ≡ false)
      × ((j : ℤ) → is_open w' j ≡ (if eqb_ℤ j srv'.fd then true else is_open w j))
  Balanced (returns (suc n) srv' w') =
      (srv'.thread ≡ srv.thread)
      × (ltb_ℤ srv'.fd (pos 0) ≡ true)
      × ((j : ℤ) → is_open w' j ≡ is_open w j)
  Balanced undefined =
      (srv.family ≡ pf_local)
      × ((path : Bytes) → srv.hostname ≡ some path → lib.path_size ≤ length path + 1)

  -- A server with a new descriptor, and a world in which that is open.
  record HasNew (s : Server T F D) (v : W) : Type 0 where
    thread_same : s.thread ≡ srv.thread
    fresh : is_open w s.fd ≡ false
    new : (j : ℤ) → is_open v j ≡ (if eqb_ℤ j s.fd then true else is_open w j)

  HasNew-later :
      (s : Server T F D) (v v' : W)
      → HasNew s v
      → ((j : ℤ) → is_open v' j ≡ is_open v j)
      → HasNew s v'
  HasNew-later s v v' h same = record {
    thread_same = h.thread_same;
    fresh = h.fresh;
    new = λ j. same j ∙ h.new j;
  }

  give_up-Balanced :
      (n : ℕ) (s : Server T F D) (v : W) → HasNew s v → Balanced (give_up lib (suc n) s v)
  unfolding give_up
  give_up-Balanced n s v h = (
    h.thread_same,
    refl,
    λ j. ground (arith, opens.is_open-close s.fd v j, h.new j, h.fresh, eqb_ℤ→eq j s.fd),
  )

  after_listen-Balanced :
      (s : Server T F D) (r : Bool × W) → HasNew s r.1 → Balanced (after_listen lib s r)
  unfolding after_listen start_thread
  after_listen-Balanced s (true, v) h = (cc, h.fresh, λ j. opens.is_open-spawn v j ∙ h.new j)
  after_listen-Balanced s (false, v) h = give_up-Balanced 4 s v h

  start_listen-Balanced : (s : Server T F D) (v : W) → HasNew s v → Balanced (start_listen lib s v)
  unfolding start_listen
  start_listen-Balanced s v h =
      let r = lib.listen s.fd s.listen_backlog v in
      after_listen-Balanced s r
        (HasNew-later s v r.1 h (opens.is_open-listen s.fd s.listen_backlog v))

  after_bind-Balanced :
      (s : Server T F D) (r : Bool × W) → HasNew s r.1 → Balanced (after_bind lib s r)
  unfolding after_bind
  after_bind-Balanced s (true, v) h = start_listen-Balanced s v h
  after_bind-Balanced s (false, v) h = give_up-Balanced 3 s v h

  after_nonblocking-Balanced :
      (s : Server T F D) (address : Bytes) (r : Bool × W)
      → HasNew s r.1
      → Balanced (after_nonblocking lib s address r)
  unfolding after_nonblocking
  after_nonblocking-Balanced s address (true, v) h =
      let r = lib.bind s.fd address v in
      after_bind-Balanced s r (HasNew-later s v r.1 h (opens.is_open-bind s.fd address v))
  after_nonblocking-Balanced s address (false, v) h = give_up-Balanced 2 s v h

  remove_socket-same : (path : Bytes) (j : ℤ) → is_open (remove_socket lib path w) j ≡ is_open w j
  unfolding remove_socket
  remove_socket-same path j =
      if_elim (λ (v : W). is_open v j ≡ is_open w j) (lib.is_socket path w) _ _
        (λ e. opens.is_open-unlink path w j) (λ e. refl)

  start_local-Balanced :
      (address : Bytes) (v : W)
      → ((j : ℤ) → is_open v j ≡ is_open w j)
      → Balanced (start_local lib srv (some address) v)
  unfolding start_local
  start_local-Balanced address v same =
      let (fd, v') = lib.socket v in
      let opened : Server T F D = record srv { fd = fd } in
      if_elim Balanced (ltb_ℤ fd (pos 0)) _ _
        (λ e. (refl, e, λ j. opens.socket-fails v j e ∙ same j))
        (λ e.
          let (fresh, new) = opens.socket-new v e in
          let r = lib.set_nonblocking fd v' in
          let made : HasNew opened v' = record {
            thread_same = refl;
            fresh = sym (same fd) ∙ fresh;
            new = λ j. ground (arith, new j, same j);
          } in
          after_nonblocking-Balanced opened address r
            (HasNew-later opened v' r.1 made (opens.is_open-set_nonblocking fd v')))

  sun_path-Balanced :
      (path : Bytes) (address : Option Bytes)
      → srv.family ≡ pf_local
      → srv.hostname ≡ some path
      → sun_path lib.path_size path ≡ address
      → Balanced (start_local lib srv address (remove_socket lib path w))
  unfolding sun_path start_local
  sun_path-Balanced path (some address) local named e =
      start_local-Balanced address (remove_socket lib path w) (remove_socket-same path)
  sun_path-Balanced path none local named e =
      (local, λ p h. let same : p ≡ path = cc in rw (same) (ground arith))

  start_path-Balanced :
      (hostname : Option Bytes)
      → srv.family ≡ pf_local
      → srv.hostname ≡ hostname
      → Balanced (start_path lib srv hostname w)
  unfolding start_path
  start_path-Balanced none local named = (local, λ p h. absurd (cc))
  start_path-Balanced (some path) local named =
      sun_path-Balanced path (sun_path lib.path_size path) local named refl

  start_inet-Balanced : Balanced (start_inet lib srv w)
  unfolding start_inet
  start_inet-Balanced =
      let (fd, v) = lib.socket_bind srv.hostname srv.servname w in
      let opened : Server T F D = record srv { fd = fd } in
      if_elim Balanced (ltb_ℤ fd (pos 0)) _ _
        (λ e. (refl, e, λ j. opens.socket_bind-fails srv.hostname srv.servname w j e))
        (λ e.
          let (fresh, new) = opens.socket_bind-new srv.hostname srv.servname w e in
          start_listen-Balanced opened v (record { thread_same = refl; fresh = fresh; new = new }))

  start_family-Balanced :
      (family : Family) → srv.family ≡ family → Balanced (start_family lib family srv w)
  unfolding start_family
  start_family-Balanced pf_inet e = start_inet-Balanced
  start_family-Balanced pf_local e = start_path-Balanced srv.hostname e refl

-- mnapp_tcp_server_start returns 0 with a thread and one descriptor more open, the server's, or an error
-- with the descriptors and the thread as they were. Otherwise the server is local and has no path,
-- or one that does not fit sun_path with its NUL and a byte more.
pub mnapp_tcp_server_start-Balanced :
    {T F D W : Type 0} (lib : Sockets T W) (is_open : W → ℤ → Bool) (opens : Opens lib is_open)
    (srv : Server T F D) (w : W)
    → Balanced lib is_open opens srv w (mnapp_tcp_server_start lib srv w)
unfolding mnapp_tcp_server_start
mnapp_tcp_server_start-Balanced lib is_open opens srv w =
    start_family-Balanced lib is_open opens srv w srv.family refl
