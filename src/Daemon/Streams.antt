-- ===== src/Daemon/Streams.antt =====
-- The descriptors that a daemon has.
use mnapp.Daemon.Defs.{
  child, Mode, read_write, append, limit, System, goes, aborts, dev_null, after_fork, or_abort,
  expect, count_files, file_or_null, myfork, close_below, open_streams, pid_file, daemonize, ◌>>=◌,
}
use mnapp.Shared.Int.{pos, pos_part, int32}
use mnapp.Shared.Plain.{same}
use mnapp.Shared.{
  ℕ, zero, suc, ◌^◌, ◌<◌, ◌≤◌, ◌==◌, ◌≡◌, ◌≢◌, refl, sym, ◌∙◌, true, Option, none, some,
  if◌then◌else◌, arith, Bytes,
}

-- What is open on a descriptor.
abbrev pub Opened : Type 0
Opened = Bytes × Mode

-- What POSIX says of the table of descriptors: a file gets the lowest that is free, and the other calls
-- leave the table.
pub record IsPosix {W : Type 0} (sys : System W) (fds : W → ℕ → Option Opened) : Type 0 where
  pub fds-close :
      (i : ℕ) (w : W) (j : ℕ) → fds (sys.close i w) j ≡ (if j == i then none else fds w j)
  pub lowest :
      (file : Bytes) (mode : Mode) (w w' : W) (fd : ℕ)
      → sys.open_file file mode w ≡ (some fd, w')
      → (fds w fd ≡ none) × ((k : ℕ) → k < fd → fds w k ≢ none)
  pub fds-open_file :
      (file : Bytes) (mode : Mode) (w w' : W) (fd : ℕ)
      → sys.open_file file mode w ≡ (some fd, w')
      → (j : ℕ) → fds w' j ≡ (if j == fd then some (file, mode) else fds w j)
  pub fds-dup2 :
      (i k : ℕ) (w : W)
      → fds w i ≢ none
      → (j : ℕ) → fds (sys.dup2 i k w) j ≡ (if j == k then fds w i else fds w j)
  pub fds-fork : (w : W) (j : ℕ) → fds (sys.fork w).1 j ≡ fds w j
  pub fds-umask : (m : ℕ) (w : W) (j : ℕ) → fds (sys.umask m w).1 j ≡ fds w j
  pub fds-setsid : (w : W) (j : ℕ) → fds (sys.setsid w).1 j ≡ fds w j

-- No call fails, and the process is the child of both forks.
pub record Succeeds {W : Type 0} (sys : System W) : Type 0 where
  pub forked : (w : W) → (sys.fork w).0 ≡ child
  pub has_session : (w : W) → (sys.setsid w).0 ≡ true
  pub opens : (file : Bytes) (mode : Mode) (w : W) → (sys.open_file file mode w).0 ≢ none

-- A daemon's three streams, and nothing else open.
pub record HasStreams (table : ℕ → Option Opened) (stdoutfile stderrfile : Bytes) : Type 0 where
  pub stdin : table 0 ≡ some (dev_null, read_write)
  pub stdout : table 1 ≡ (
      if same stdoutfile dev_null then some (dev_null, read_write) else some (stdoutfile, append))
  pub stderr : table 2 ≡ (if same stderrfile stdoutfile then table 1 else some (stderrfile, append))
  pub closed : (j : ℕ) → 3 ≤ j → table j ≡ none

module _ {W : Type 0} (sys : System W) (fds : W → ℕ → Option Opened) (posix : IsPosix sys fds) where
  open posix use {fds-close, lowest, fds-open_file, fds-dup2, fds-fork, fds-umask, fds-setsid}

  -- The first `n` descriptors are in use and no other.
  record IsFilled (n : ℕ) (w : W) : Type 0 where
    used : (k : ℕ) → k < n → fds w k ≢ none
    free : (j : ℕ) → n ≤ j → fds w j ≡ none

  -- The next descriptor has that, and the others are as they were.
  record Adds (n : ℕ) (o : Option Opened) (w : W) (w' : W) : Type 0 where
    filled : IsFilled (suc n) w'
    added : fds w' n ≡ o
    others : (j : ℕ) → j ≢ n → fds w' j ≡ fds w j

  module _ (calls : Succeeds sys) where
    open calls use {opens}

    myfork-goes : (w : W) → myfork sys w ≡ goes (sys.fork w).1
    unfolding myfork after_fork
    myfork-goes w = rw (calls.forked w, after_fork) refl

    has_session-goes : (w : W) → or_abort (sys.setsid w) ≡ goes (sys.setsid w).1
    unfolding or_abort
    has_session-goes w = rw (calls.has_session w, or_abort) refl

    -- The world after both forks, where the descriptors are closed.
    forked_twice : W → W
    forked_twice w = (sys.fork (sys.setsid (sys.umask 0 (sys.fork w).1).1).1).1

    fds-forked_twice : (w : W) (j : ℕ) → fds (forked_twice w) j ≡ fds w j
    unfolding forked_twice
    fds-forked_twice w j =
        let w1 = (sys.fork w).1 in
        let w2 = (sys.umask 0 w1).1 in
        let w3 = (sys.setsid w2).1 in
        fds-fork w3 j ∙ fds-setsid w2 j ∙ fds-umask 0 w1 j ∙ fds-fork w j

    daemonize-forked :
        (pidfile stdoutfile stderrfile : Option Bytes) (w : W)
        → daemonize sys pidfile stdoutfile stderrfile w ≡ (
            open_streams sys
              (file_or_null stdoutfile)
              (file_or_null stderrfile)
              (close_below sys (pos_part (count_files sys.getrlimit)) (forked_twice w))
            >>= λ v. pid_file sys pidfile (sys.umask (sys.umask 0 (sys.fork w).1).0 v).1)
    unfolding daemonize forked_twice
    daemonize-forked pidfile stdoutfile stderrfile w =
        let w1 = (sys.fork w).1 in
        let w2 = (sys.umask 0 w1).1 in
        let w3 = (sys.setsid w2).1 in
        rw (myfork-goes w) (rw (has_session-goes w2) (rw (myfork-goes w3) refl))

    expect-taken :
        (file : Bytes) (mode : Mode) (v v' : W) (o : Option ℕ)
        → sys.open_file file mode v ≡ (o, v')
        → fds v 0 ≢ none
        → expect 0 (o, v') ≡ aborts
    unfolding expect
    expect-taken file mode v v' none e taken = refl
    expect-taken file mode v v' (some zero) e taken = absurd (taken (lowest file mode v v' 0 e).0)
    expect-taken file mode v v' (some (suc fd)) e taken = ground arith

    -- Where no call fails and the limit is from 2 ^ 31 up to 2 ^ 32, daemonize aborts if a standard
    -- input was open before.
    pub daemonize-limit_aborts :
        (pidfile stdoutfile stderrfile : Option Bytes) (w : W) (n : ℕ)
        → sys.getrlimit ≡ some (limit n)
        → 2 ^ 31 ≤ n
        → n < 2 ^ 32
        → fds w 0 ≢ none
        → daemonize sys pidfile stdoutfile stderrfile w ≡ aborts
    unfolding count_files int32 close_below open_streams
    daemonize-limit_aborts pidfile stdoutfile stderrfile w n limited low high taken =
        let v = forked_twice w in
        let closes : pos_part (int32 (pos n)) ≡ 0 = ground arith in
        let (o, v') = sys.open_file dev_null read_write v in
        let still : fds v 0 ≢ none = λ z. taken (sym (fds-forked_twice w 0) ∙ z) in
        daemonize-forked pidfile stdoutfile stderrfile w
        ∙ rw (limited) (rw (closes) (rw (expect-taken dev_null read_write v v' o refl still) refl))
