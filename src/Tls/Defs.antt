-- ===== src/Tls/Defs.antt =====
-- src/bytestream_ssl_helper.c: `bytestream_ssl_recv_more`, `bytestream_ssl_send`.
use mnapp.Http.Ctx.{Stream}
use mnapp.Shared.Int.{ℤ, pos, negsuc, int32, eqb_ℤ}
use mnapp.Shared.{
  ℕ, zero, suc, ◌+◌, ◌-◌, Bool, true, false, Option, none, some, ◌++◌, ltb, if◌then◌else◌, Bytes,
  length, take, drop,
}

-- A stream with `buf.sz`, the size of its memory.
pub record Buffer : Type 0 where
  pub size : ℕ
  pub stream : Stream

-- What `SSL_get_error` tells of a call that moved nothing: SSL_ERROR_WANT_READ, SSL_ERROR_WANT_WRITE,
-- or any other.
pub data Want : Type 0 where
  want_read want_write other : Want

-- A call of `SSL_read` gets bytes, one of `SSL_write` takes a number of them.
pub data Turn (A : Type 0) : Type 0 where
  moved : A → Turn A
  stuck : Want → Turn A

-- The calls of other libraries, on the world `W`. The size is the argument of the call.
pub record Peer (W : Type 0) : Type 0 where
  pub ssl_read : ℤ → W → Turn Bytes × W
  pub ssl_write : Bytes → ℤ → W → Turn ℕ × W
  -- `mnthr_wait_for_read`, `mnthr_wait_for_write` on the descriptor of the TLS object
  pub wait_for_read : W → ℤ × W
  pub wait_for_write : W → ℤ × W

unfoldable pub succeeded : {W : Type 0} → ℤ × W → Bool × W
unfolding eqb_ℤ
succeeded (res, w) = (eqb_ℤ res (pos 0), w)

-- The rest of a round that moved nothing: `again` is the next round. `none` in the result is -1.
unfoldable pub after_wait :
    {A W : Type 0} → (W → Option (Option A × W)) → Bool × W → Option (Option A × W)
after_wait again (true, w) = again w
after_wait again (false, w) = some (none, w)

module _ {W : Type 0} (peer : Peer W) where
  open peer use {wait_for_read, wait_for_write}

  -- Whether the wait succeeds. There is none for other errors.
  unfoldable pub wait : Want → W → Bool × W
  unfolding succeeded
  wait want_read w = succeeded (wait_for_read w)
  wait want_write w = succeeded (wait_for_write w)
  wait other w = (false, w)

  -- The end of a round, by what the call did.
  unfoldable pub turn :
      {A : Type 0} → (W → Option (Option A × W)) → Turn A × W → Option (Option A × W)
  unfolding after_wait wait
  turn again (moved a, w) = some (some a, w)
  turn again (stuck want, w) = after_wait again (wait want w)

  -- The loop around a call, on fuel; `none` means that it ran out.
  unfoldable pub loop : {A : Type 0} → ℕ → (W → Turn A × W) → W → Option (Option A × W)
  unfolding turn
  loop zero call w = none
  loop (suc fuel) call w = turn (loop fuel call) (call w)

-- The bytes read, put at the end of the data, and the number returned.
unfoldable pub received :
    {W : Type 0} → Buffer → Option (Option Bytes × W) → Option (ℤ × Buffer × W)
received b none = none
received b (some (none, w)) = some (negsuc 0, b, w)
received b (some (some bytes, w)) =
    let s = b.stream in
    let n = length bytes in
    some (
      pos n,
      record b {
        stream = record s {
          buffer = take s.eod s.buffer ++ (bytes ++ drop (s.eod + n) s.buffer);
          eod = s.eod + n;
        };
      },
      w,
    )

unfoldable pub sent : {W : Type 0} → Buffer → Option (Option ℕ × W) → Option (ℤ × Buffer × W)
sent b none = none
sent b (some (none, w)) = some (negsuc 0, b, w)
sent b (some (some n, w)) =
    some (pos n, record b { stream = record b.stream { at = b.stream.at + n } }, w)

-- With the memory asked for, if there is any, the bytes are read.
unfoldable pub received_in :
    {W : Type 0} → Option (Option Bytes × W) → W → Buffer → Option Buffer → Option (ℤ × Buffer × W)
unfolding received
received_in read w b none = some (negsuc 0, b, w)
received_in read w b (some b') = received b' read

-- What is asked of `bytestream_grow`: a block at least.
unfoldable pub ask : ℕ → ℕ
ask need = if ltb need 4096 then 4096 else need

module _ {W : Type 0} (peer : Peer W) where
  -- `grow` is `bytestream_grow`, `none` for its error.
  unfoldable pub bytestream_ssl_recv_more :
      (Buffer → ℕ → Option Buffer) → ℕ → Buffer → ℕ → W → Option (ℤ × Buffer × W)
  unfolding received_in ask loop
  bytestream_ssl_recv_more grow fuel b sz w =
      let need = b.stream.eod + sz - b.size in
      let read = loop peer fuel (peer.ssl_read (int32 (pos sz))) w in
      if ltb 0 need then received_in read w b (grow b (ask need)) else received b read

  unfoldable pub bytestream_ssl_send : ℕ → Buffer → ℕ → W → Option (ℤ × Buffer × W)
  unfolding sent loop
  bytestream_ssl_send fuel b sz w =
      let s = b.stream in
      if ltb s.eod (s.at + sz)
      then some (negsuc 0, b, w)
      else sent b (loop peer fuel (peer.ssl_write (drop s.at s.buffer) (int32 (pos sz))) w)
