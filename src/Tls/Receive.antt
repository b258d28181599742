-- ===== src/Tls/Receive.antt =====
-- What `bytestream_ssl_recv_more` adds to the stream is what it read.
use mnapp.Http.Ctx.{Stream}
use mnapp.Shared.Int.{ℤ, pos, negsuc, int32_small}
use mnapp.Shared.{
  ℕ, ◌+◌, ◌-◌, ◌^◌, ◌<◌, ◌≤◌, ◌≡◌, refl, sym, ap, ◌∙◌, Bool, true, false, Bool-cases, inl, inr,
  Option, none, some, [], ◌++◌, arith, ltb, Bytes, length, take, drop, append_assoc, append-nil,
  if◌then◌else◌, length-append, length-take, length-drop, take-append,
}
use mnapp.Tls.Defs.{Peer, moved, Buffer, received, received_in, ask, bytestream_ssl_recv_more}
use mnapp.Tls.Ends.{Ends, moves, fails, waits, loop-Ends}

-- The positions are in order and in the memory of the stream.
pub record IsWithin (b : Buffer) : Type 0 where
  pub at_eod : b.stream.at ≤ b.stream.eod
  pub eod_size : b.stream.eod ≤ b.size
  pub filled : length b.stream.buffer ≡ b.size

-- The data of a stream.
unfoldable pub data_of : Stream → Bytes
data_of s = take s.eod s.buffer

-- What OpenSSL documents of SSL_read: it gets no more than it is asked for.
pub record ReadLaws {W : Type 0} (peer : Peer W) : Type 0 where
  pub ssl_read-moved :
      (n : ℕ) (w w' : W) (bytes : Bytes)
      → peer.ssl_read (pos n) w ≡ (moved bytes, w')
      → length bytes ≤ n

-- What `bytestream_grow` does: there is so much more memory, and the data stay.
pub record GrowLaws (grow : Buffer → ℕ → Option Buffer) : Type 0 where
  pub grow-size : (b b' : Buffer) (n : ℕ) → grow b n ≡ some b' → b.size + n ≤ b'.size
  pub grow-IsWithin : (b b' : Buffer) (n : ℕ) → grow b n ≡ some b' → IsWithin b → IsWithin b'
  pub grow-eod : (b b' : Buffer) (n : ℕ) → grow b n ≡ some b' → b'.stream.eod ≡ b.stream.eod
  pub grow-data_of :
      (b b' : Buffer) (n : ℕ)
      → grow b n ≡ some b'
      → IsWithin b
      → data_of b'.stream ≡ data_of b.stream

-- What is returned, and what stands behind the data, by what SSL_read came to: where it got
-- nothing, or there is no memory, -1 and nothing, else the number of the bytes that it got, and those.
abbrev pub Outcome : Option Bytes → Bool → ℤ → Bytes → Type 0
Outcome (some read) true res bytes = (res ≡ pos (length read)) × (bytes ≡ read)
Outcome _ _ res bytes = (res ≡ negsuc 0) × (bytes ≡ [])

abbrev pub is_some : Option Buffer → Bool
is_some none = false
is_some (some b) = true

-- Whether `bytestream_grow` gives the memory that `sz` more bytes need, if they need any.
abbrev pub has_memory : (Buffer → ℕ → Option Buffer) → Buffer → ℕ → Bool
has_memory grow b sz =
    let need = b.stream.eod + sz - b.size in
    if ltb 0 need then is_some (grow b (ask need)) else true

-- The result of reading, and the stream with what was read behind its data.
pub record Extends {W : Type 0} (b : Buffer) (read : Option Bytes) (memory : Bool)
    (result : Option (ℤ × Buffer × W)) : Type 0 where
  pub res : ℤ
  pub after : Buffer
  pub world : W
  pub bytes : Bytes
  pub returned : result ≡ some (res, after, world)
  pub within : IsWithin after
  pub data_is : data_of after.stream ≡ data_of b.stream ++ bytes
  pub counted : Outcome read memory res bytes

-- What a run reads is no more than was asked for.
Fits : ℕ → Option Bytes → Type 0
Fits n none = Unit
Fits n (some bytes) = length bytes ≤ n

module _ {W : Type 0} where
  module _ (peer : Peer W) (laws : ReadLaws peer) (n : ℕ) where
    Ends-Fits :
        {k : ℕ} {w w' : W} {r : Option Bytes}
        → Ends peer (peer.ssl_read (pos n)) k w r w'
        → Fits n r
    unfolding Fits
    Ends-Fits (moves e) = laws.ssl_read-moved n _ _ _ e
    Ends-Fits (fails e f) = tt
    Ends-Fits (waits e f ends) = Ends-Fits ends

  failed-Extends :
      (b : Buffer) (r : Option Bytes) (memory : Bool) (w : W)
      → Outcome r memory (negsuc 0) []
      → IsWithin b
      → Extends b r memory (some (negsuc 0, b, w))
  failed-Extends b r memory w outcome within = record {
    res = negsuc 0;
    after = b;
    world = w;
    bytes = [];
    returned = refl;
    within = within;
    data_is = sym (append-nil (data_of b.stream));
    counted = outcome;
  }

  received-Extends :
      (b : Buffer) (n : ℕ) (r : Option Bytes) (w : W)
      → IsWithin b
      → b.stream.eod + n ≤ b.size
      → Fits n r
      → Extends b r true (received b (some (r, w)))
  unfolding received data_of Fits
  received-Extends b n none w within room fits = failed-Extends b none true w (refl, refl) within
  received-Extends b n (some bytes) w within room fits =
      let s = b.stream in
      let front = take s.eod s.buffer in
      let rest = drop (s.eod + length bytes) s.buffer in
      let new = front ++ (bytes ++ rest) in
      let front_length = length-take s.eod s.buffer in
      let all_length = length-append front (bytes ++ rest) in
      let rest_length = length-drop (s.eod + length bytes) s.buffer in
      let inner_length = length-append bytes rest in
      let read_length = length-append front bytes in
      record {
        res = pos (length bytes);
        after = record b { stream = record s { buffer = new; eod = s.eod + length bytes } };
        world = w;
        bytes = bytes;
        returned = refl;
        within = record {
          at_eod = omega (arith, within.at_eod);
          eod_size = omega (arith, room, fits);
          filled = omega (
            arith, within.filled, within.eod_size, room, fits, front_length, all_length,
            rest_length, inner_length,
          );
        };
        data_is =
            ap (take (s.eod + length bytes)) (sym (append_assoc front bytes rest))
            ∙ take-append (front ++ bytes) rest _
                (omega (arith, within.filled, within.eod_size, front_length, read_length));
        counted = (refl, refl);
      }

  -- A result in a stream with the same data.
  Extends-from :
      (b b' : Buffer) (r : Option Bytes) (memory : Bool) (result : Option (ℤ × Buffer × W))
      → data_of b'.stream ≡ data_of b.stream
      → Extends b' r memory result
      → Extends b r memory result
  Extends-from b b' r memory result same e = record {
    res = e.res;
    after = e.after;
    world = e.world;
    bytes = e.bytes;
    returned = e.returned;
    within = e.within;
    data_is = e.data_is ∙ ap (λ t. t ++ e.bytes) same;
    counted = e.counted;
  }

need_ask : (need : ℕ) → need ≤ ask need
unfolding ask
need_ask need = ground arith

module _ {W : Type 0} (peer : Peer W) (laws : ReadLaws peer) (grow : Buffer → ℕ → Option Buffer)
    (grows : GrowLaws grow) where
  open grows use {grow-size, grow-IsWithin, grow-eod, grow-data_of}

  received_in-Extends :
      (b : Buffer) (sz : ℕ) (r : Option Bytes) (w w' : W) (grown : Option Buffer)
      → grow b (ask (b.stream.eod + sz - b.size)) ≡ grown
      → IsWithin b
      → Fits sz r
      → Extends b r (is_some grown) (received_in (some (r, w')) w b grown)
  unfolding received_in
  received_in-Extends b sz none w w' none made within fits =
      failed-Extends b none false w (refl, refl) within
  received_in-Extends b sz (some bytes) w w' none made within fits =
      failed-Extends b (some bytes) false w (refl, refl) within
  received_in-Extends b sz r w w' (some b') made within fits =
      let more = grow-size b b' _ made in
      let least = need_ask (b.stream.eod + sz - b.size) in
      Extends-from b b' r true (received b' (some (r, w'))) (grow-data_of b b' _ made within) (
        received-Extends b' sz r w' (grow-IsWithin b b' _ made within)
          (omega (arith, more, least, grow-eod b b' _ made)) fits)

  -- For a size below 2 ^ 31 and a stream with its positions in order and in its memory, where SSL_read
  -- gets no more than it is asked for, and it and the waits come to an end after k waits, bytestream_ssl_recv_more returns with more
  -- fuel than that: where SSL_read got nothing, or there is no memory, -1 with the data as they were,
  -- else the number of the bytes that SSL_read got, which stand behind the data. The positions stay
  -- within the memory of the stream.
  pub bytestream_ssl_recv_more-Extends :
      (b : Buffer) (sz fuel k : ℕ) (w w' : W) (r : Option Bytes)
      → IsWithin b
      → sz < 2 ^ 31
      → Ends peer (peer.ssl_read (pos sz)) k w r w'
      → k < fuel
      → Extends b r (has_memory grow b sz) (bytestream_ssl_recv_more peer grow fuel b sz w)
  unfolding bytestream_ssl_recv_more
  bytestream_ssl_recv_more-Extends b sz fuel k w w' r within small ends enough =
      let fits = Ends-Fits peer laws sz ends in
      let runs = loop-Ends peer (peer.ssl_read (pos sz)) fuel ends enough in
      rw (int32_small sz small, runs)
        (elim (Bool-cases (ltb 0 (b.stream.eod + sz - b.size))) [
          | inl e ↦ rw (e) (received_in-Extends b sz r w w' _ refl within fits)
          | inr e ↦ rw (e) (received-Extends b sz r w' within (ground (arith, e)) fits)
        ])
