-- ===== src/Server/Runs.antt =====
-- An operating system in memory, and the theorems on started servers at concrete inputs.
use mnapp.Server.Accept.{Acceptor, mnapp_tcp_server_worker}
use mnapp.Server.Balance.{Opens, Balanced, mnapp_tcp_server_start-Balanced}
use mnapp.Server.Defs.{Calls, Server, mnapp_tcp_server_init, mnapp_tcp_server_fini}
use mnapp.Server.Leaks.{Keeps, mnapp_tcp_server_fini-leaks}
use mnapp.Server.Start.{Sockets, returns, sun_path, mnapp_tcp_server_start}
use mnapp.Server.SunPath.{sun_path-cstr}
use mnapp.Http.Message.{cstr}
use mnapp.Shared.Int.{ℤ, pos, negsuc, ltb_ℤ, eqb_ℤ}
use mnapp.Shared.{
  ℕ, suc, ◌+◌, ◌<◌, ◌≤◌, ◌≡◌, refl, Bool, true, false, ◌&&◌, none, some, List, [], ◌∷◌, ◌==◌, ltb,
  if◌then◌else◌, arith, Bytes, codes, length,
}

-- The next descriptor, and whether those before it are still open.
abbrev World : Type 0
World = ℕ × (ℤ → Bool)

below : ℕ → ℤ → Bool
below n (pos k) = ltb k n
below n (negsuc k) = false

is_open : World → ℤ → Bool
is_open w j = below w.0 j && w.1 j

next : World → ℤ × World
next (n, open_) = (pos n, (suc n, λ j. if eqb_ℤ j (pos n) then true else open_ j))

close : ℤ → World → World
close fd (n, open_) = (n, λ j. if eqb_ℤ j fd then false else open_ j)

abbrev sockets : Sockets ℕ World
sockets = record {
  socket_bind = λ h s w. next w;
  is_socket = λ p w. true;
  unlink = λ p w. w;
  socket = next;
  set_nonblocking = λ fd w. (true, w);
  bind = λ fd p w. (true, w);
  listen = λ fd n w. (true, w);
  close = close;
  spawn = λ w. (1, w);
  join = λ t w. (pos 0, w);
  path_size = 16;
}

next-is_open :
    (n : ℕ) (open_ : ℤ → Bool) (j : ℤ)
    → is_open (next (n, open_)).1 j ≡ (if eqb_ℤ j (pos n) then true else is_open (n, open_) j)
unfolding is_open next below eqb_ℤ
next-is_open n open_ (pos k) = ground arith
next-is_open n open_ (negsuc k) = refl

next-new :
    (w : World)
    → (is_open w (next w).0 ≡ false)
      × ((j : ℤ) → is_open (next w).1 j ≡ (if eqb_ℤ j (next w).0 then true else is_open w j))
unfolding is_open next below eqb_ℤ
next-new (n, open_) = (ground arith, next-is_open n open_)

next_works :
    (w : World) → ltb_ℤ (next w).0 (pos 0) ≡ true → (j : ℤ) → is_open (next w).1 j ≡ is_open w j
unfolding next
next_works (n, open_) h j = ground arith

is_open-close :
    (fd : ℤ) (w : World) (j : ℤ)
    → is_open (close fd w) j ≡ (if eqb_ℤ j fd then false else is_open w j)
unfolding is_open close
is_open-close fd (n, open_) j = ground arith

abbrev opens : Opens sockets is_open
opens = record {
  socket_bind-fails = λ h s w j e. next_works w e j;
  socket_bind-new = λ h s w e. next-new w;
  socket-fails = λ w j e. next_works w e j;
  socket-new = λ w e. next-new w;
  is_open-close = is_open-close;
  is_open-unlink = λ p w j. refl;
  is_open-set_nonblocking = λ fd w j. refl;
  is_open-bind = λ fd p w j. refl;
  is_open-listen = λ fd n w j. refl;
  is_open-spawn = λ w j. refl;
}

abbrev server : Server ℕ ℕ ℕ
server = mnapp_tcp_server_init (pos 10) (codes "/tmp/s") 0 0

abbrev start : World
start = (3, λ j. true)

mnapp_tcp_server_start-Balanced_example :
    Balanced sockets is_open opens server start (mnapp_tcp_server_start sockets server start)
mnapp_tcp_server_start-Balanced_example =
    mnapp_tcp_server_start-Balanced sockets is_open opens server start

abbrev calls : Calls ℕ World
calls = record { join = λ t w. w; free = λ s w. w }

abbrev served : Server ℕ ℕ ℕ
served = record server { thread = some 1; fd = pos 3 }

server_started : mnapp_tcp_server_start sockets server start ≡ returns 0 served (next start).1
unfolding mnapp_tcp_server_start mnapp_tcp_server_init next
server_started = refl

keeps : Keeps is_open calls (pos 3)
keeps = record { is_open-join = λ t w h. h; is_open-free = λ s w h. h }

mnapp_tcp_server_fini-leaks_example :
    (is_open start served.fd ≡ false)
    × (is_open (mnapp_tcp_server_fini calls (served, (next start).1)).1 served.fd ≡ true)
    × ((mnapp_tcp_server_fini calls (served, (next start).1)).0.fd ≡ negsuc 0)
mnapp_tcp_server_fini-leaks_example =
    mnapp_tcp_server_fini-leaks sockets is_open opens calls server served start (next start).1 keeps
      server_started

sun_path-cstr_example :
    (length (codes "/tmp/s") + 1 < 16
      → (m : Bytes) × (sun_path 16 (codes "/tmp/s") ≡ some m)
        × (cstr m ≡ codes "/tmp/s")
        × (length m ≡ 16))
    × (16 ≤ length (codes "/tmp/s") + 1 → sun_path 16 (codes "/tmp/s") ≡ none)
sun_path-cstr_example = sun_path-cstr 16 (codes "/tmp/s") (omega arith)

-- The callback fails at the second of three sockets, and the third is not served; the worker goes on to
-- the next round.
abbrev acceptor : Acceptor ℕ ℕ ℕ ℕ (List ℕ)
acceptor = record {
  shutting_down = λ w. false;
  accept_all = λ fd w. elim w [ [] ↦ (pos 0, 1 ∷ 2 ∷ 3 ∷ [], []) | more ↦ (negsuc 0, [], more) ];
  call = λ f s d w. (if s == 2 then negsuc 0 else pos 0, s ∷ w);
  spawn_call = λ f s d w. w;
}

worker_run : mnapp_tcp_server_worker acceptor 5 served [] ≡ some (negsuc 0, 2 ∷ 1 ∷ [])
unfolding mnapp_tcp_server_worker mnapp_tcp_server_init
worker_run = refl
