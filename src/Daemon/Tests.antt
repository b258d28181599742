-- ===== src/Daemon/Tests.antt =====
-- An operating system in memory, and the theorems on the daemon at concrete inputs.
use mnapp.Daemon.Defs.{child, Mode, read_write, limit, System, aborts, daemonize}
use mnapp.Daemon.Streams.{Opened, IsPosix, Succeeds, daemonize-limit_aborts}
use mnapp.Shared.Int.{pos}
use mnapp.Shared.{
  ℕ, zero, suc, ◌^◌, ◌<◌, ◌≡◌, ◌≢◌, refl, true, Option, none, some, List, [], ◌∷◌, ◌==◌,
  if◌then◌else◌, arith, Bytes, codes, get_or,
}

abbrev Table : Type 0
Table = List (Option Opened)

fds : Table → ℕ → Option Opened
fds w j = get_or w j none

put : ℕ → Option Opened → Table → Table
put zero o [] = o ∷ []
put zero o (x ∷ w) = o ∷ w
put (suc k) o [] = none ∷ put k o []
put (suc k) o (x ∷ w) = x ∷ put k o w

lowest_free : Table → ℕ
lowest_free [] = 0
lowest_free (none ∷ w) = 0
lowest_free (some o ∷ w) = suc (lowest_free w)

fds-put :
    (k : ℕ) (o : Option Opened) (w : Table) (j : ℕ)
    → fds (put k o w) j ≡ (if j == k then o else fds w j)
unfolding fds put
fds-put zero o [] zero = refl
fds-put zero o [] (suc j) = ground arith
fds-put zero o (x ∷ w) zero = refl
fds-put zero o (x ∷ w) (suc j) = ground arith
fds-put (suc k) o [] zero = ground arith
fds-put (suc k) o [] (suc j) = ground (arith, fds-put k o [] j)
fds-put (suc k) o (x ∷ w) zero = ground arith
fds-put (suc k) o (x ∷ w) (suc j) = ground (arith, fds-put k o w j)

fds-lowest_free : (w : Table) → fds w (lowest_free w) ≡ none
unfolding fds lowest_free
fds-lowest_free [] = refl
fds-lowest_free (none ∷ w) = refl
fds-lowest_free (some o ∷ w) = fds-lowest_free w

below-lowest_free : (w : Table) (k : ℕ) → k < lowest_free w → fds w k ≢ none
unfolding fds lowest_free
below-lowest_free [] k h = absurd (omega (arith, h))
below-lowest_free (none ∷ w) k h = absurd (omega (arith, h))
below-lowest_free (some o ∷ w) zero h = cc
below-lowest_free (some o ∷ w) (suc k) h = below-lowest_free w k (omega arith)

open_file : Bytes → Mode → Table → Option ℕ × Table
open_file file mode w = (some (lowest_free w), put (lowest_free w) (some (file, mode)) w)

abbrev system : ℕ → System Table
system n = record {
  fork = λ w. (child, w);
  umask = λ m w. (0, w);
  setsid = λ w. (true, w);
  getrlimit = some (limit n);
  close = λ i w. put i none w;
  open_file = open_file;
  dup2 = λ i k w. put k (fds w i) w;
  flock = λ fd w. (true, w);
  lseek = λ fd w. (true, w);
  getpid = λ w. pos 1;
  write = λ fd t w. (pos 1, w);
  fsync = λ fd w. (true, w);
  chdir = λ p w. (true, w);
}

lowest :
    (file : Bytes) (mode : Mode) (w w' : Table) (fd : ℕ)
    → open_file file mode w ≡ (some fd, w')
    → (fds w fd ≡ none) × ((k : ℕ) → k < fd → fds w k ≢ none)
unfolding open_file
lowest file mode w w' fd e =
    let here : lowest_free w ≡ fd = cc in rw (← here) (fds-lowest_free w, below-lowest_free w)

fds-open_file :
    (file : Bytes) (mode : Mode) (w w' : Table) (fd : ℕ)
    → open_file file mode w ≡ (some fd, w')
    → (j : ℕ) → fds w' j ≡ (if j == fd then some (file, mode) else fds w j)
unfolding open_file
fds-open_file file mode w w' fd e j =
    let here : lowest_free w ≡ fd = cc in
    let after : put (lowest_free w) (some (file, mode)) w ≡ w' = cc in
    rw (← here, ← after) (fds-put (lowest_free w) (some (file, mode)) w j)

abbrev posix : (n : ℕ) → IsPosix (system n) fds
posix n = record {
  fds-close = λ i w j. fds-put i none w j;
  lowest = lowest;
  fds-open_file = fds-open_file;
  fds-dup2 = λ i k w used j. fds-put k (fds w i) w j;
  fds-fork = λ w j. refl;
  fds-umask = λ m w j. refl;
  fds-setsid = λ w j. refl;
}

opens : (file : Bytes) (mode : Mode) (w : Table) → (open_file file mode w).0 ≢ none
unfolding open_file
opens file mode w = cc

abbrev succeeds : (n : ℕ) → Succeeds (system n)
succeeds n = record { forked = λ w. refl; has_session = λ w. refl; opens = opens }

-- A terminal as the standard input, and a file.
abbrev shell : Table
shell = some (codes "/dev/tty", read_write) ∷ some (codes "/tmp/x", read_write) ∷ []

stdin_open : fds shell 0 ≢ none
unfolding fds
stdin_open = cc

daemonize-limit_aborts_example : daemonize (system (2 ^ 31)) none none none shell ≡ aborts
daemonize-limit_aborts_example =
    daemonize-limit_aborts (system (2 ^ 31)) fds (posix (2 ^ 31)) (succeeds (2 ^ 31)) none none none
      shell (2 ^ 31) refl (omega arith) (omega arith) stdin_open
