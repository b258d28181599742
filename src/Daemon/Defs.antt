-- ===== src/Daemon/Defs.antt =====
-- src/daemonize.c: `myfork`, `daemonize`, as it is compiled where there is no O_EXLOCK.
use mnapp.Shared.Int.{ℤ, pos, pos_part, int32, ltb_ℤ}
use mnapp.Shared.Plain.{same}
use mnapp.Shared.{
  ℕ, zero, suc, ◌==◌, Bool, true, false, Option, none, some, if◌then◌else◌, Bytes, codes,
}
use mnapp.Writer.Message.{format_d}

-- What `fork` returns: -1, the child's number, or 0.
pub data Fork : Type 0 where
  failed parent child : Fork

-- How a file is opened: with O_RDWR, with O_WRONLY, O_CREAT and O_APPEND, or for the number of the
-- process.
pub data Mode : Type 0 where
  read_write append pid : Mode

-- `rlim_cur`, which may be RLIM_INFINITY.
pub data Limit : Type 0 where
  infinite : Limit
  limit : ℕ → Limit

-- The calls of the operating system, on the world `W`. A Boolean tells that a call did not fail.
pub record System (W : Type 0) : Type 0 where
  pub fork : W → Fork × W
  pub umask : ℕ → W → ℕ × W
  pub setsid : W → Bool × W
  -- `getrlimit(RLIMIT_NOFILE, ...)`, none if it fails; no call here changes it
  pub getrlimit : Option Limit
  pub close : ℕ → W → W
  pub open_file : Bytes → Mode → W → Option ℕ × W
  pub dup2 : ℕ → ℕ → W → W
  -- `flock` with LOCK_EX and LOCK_NB, `lseek` to the end
  pub flock : ℕ → W → Bool × W
  pub lseek : ℕ → W → Bool × W
  pub getpid : W → ℤ
  pub write : ℕ → Bytes → W → ℤ × W
  pub fsync : ℕ → W → Bool × W
  pub chdir : Bytes → W → Bool × W

-- The code goes on, or exits with a status, or FAIL or an assertion aborts it.
pub data Run (W : Type 0) : Type 0 where
  goes : W → Run W
  exits : ℕ → Run W
  aborts : Run W

infixl 5 ◌>>=◌
abbrev pub ◌>>=◌ : {W : Type 0} → Run W → (W → Run W) → Run W
goes w >>= f = f w
exits n >>= f = exits n
aborts >>= f = aborts

abbrev pub dev_null : Bytes
dev_null = codes "/dev/null"

-- What follows a call that may fail.
unfoldable pub or_abort : {W : Type 0} → Bool × W → Run W
or_abort (true, w) = goes w
or_abort (false, w) = aborts

unfoldable pub or_exit : {W : Type 0} → Bool × W → Run W
or_exit (true, w) = goes w
or_exit (false, w) = exits 1

unfoldable pub after_fork : {W : Type 0} → Fork × W → Run W
after_fork (failed, w) = aborts
after_fork (parent, w) = exits 0
after_fork (child, w) = goes w

-- The assertion that a file got a descriptor.
unfoldable pub expect : {W : Type 0} → ℕ → Option ℕ × W → Run W
expect i (none, w) = aborts
expect i (some fd, w) = if fd == i then goes w else aborts

-- `nfiles`, an `int`.
unfoldable pub count_files : Option Limit → ℤ
count_files none = pos 1024
count_files (some infinite) = pos 1024
count_files (some (limit n)) = int32 (pos n)

unfoldable pub file_or_null : Option Bytes → Bytes
file_or_null none = dev_null
file_or_null (some file) = file

module _ {W : Type 0} (sys : System W) where
  open sys use {
    fork, umask, setsid, getrlimit, close, open_file, dup2, flock, lseek, getpid, write, fsync,
    chdir,
  }

  unfoldable pub myfork : W → Run W
  unfolding after_fork
  myfork w = after_fork (fork w)

  -- The loop that closes the first `n` descriptors.
  unfoldable pub close_below : ℕ → W → W
  close_below zero w = w
  close_below (suc n) w = close n (close_below n w)

  -- Descriptor `i` becomes a copy of that before it, or the file.
  unfoldable pub redirect : Bool → ℕ → Bytes → W → Run W
  unfolding expect
  redirect as_before i file w =
      if as_before then goes (dup2 i (suc i) w) else expect (suc i) (open_file file append w)

  -- The three streams, once all files are closed.
  unfoldable pub open_streams : Bytes → Bytes → W → Run W
  unfolding redirect expect
  open_streams stdoutfile stderrfile w = do
    w1 ← expect 0 (open_file dev_null read_write w)
    w2 ← redirect (same stdoutfile dev_null) 0 stdoutfile w1
    redirect (same stderrfile stdoutfile) 1 stderrfile w2

  -- The number of the process, in the file at `fd`.
  unfoldable pub write_pid : Option ℕ × W → Run W
  unfolding or_abort or_exit
  write_pid (none, w) = exits 1
  write_pid (some fd, w) = do
    w1 ← or_exit (flock fd w)
    w2 ← or_exit (lseek fd w1)
    let (n, w3) = write fd (format_d (getpid w2)) w2
    w4 ← if ltb_ℤ (pos 0) n then goes w3 else aborts
    w5 ← or_abort (fsync fd w4)
    or_abort (chdir (codes "/") w5)

  unfoldable pub pid_file : Option Bytes → W → Run W
  unfolding write_pid
  pid_file none w = goes w
  pid_file (some file) w = write_pid (open_file file pid w)

  unfoldable pub daemonize : Option Bytes → Option Bytes → Option Bytes → W → Run W
  unfolding myfork count_files close_below open_streams pid_file file_or_null or_abort
  daemonize pidfile stdoutfile stderrfile w = do
    w1 ← myfork w
    let (old_umask, w2) = umask 0 w1
    w3 ← or_abort (setsid w2)
    w4 ← myfork w3
    let w5 = close_below (pos_part (count_files getrlimit)) w4
    w6 ← open_streams (file_or_null stdoutfile) (file_or_null stderrfile) w5
    pid_file pidfile (umask old_umask w6).1
