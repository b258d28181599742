-- ===== src/Tls/Tests.antt =====
-- A TLS peer in memory, and the theorems at concrete inputs.
use mnapp.Shared.Int.{ℤ, pos, pos_part}
use mnapp.Shared.{
  ℕ, zero, suc, ◌+◌, ◌≤◌, ◌≡◌, refl, ap, Bool, Option, some, [], ◌∷◌, ◌++◌, arith, Bytes, codes,
  length, take, min, replicate, length-take, length-append,
}
use mnapp.Tls.Defs.{
  Peer, Turn, moved, stuck, Want, want_read, want_write, other, wait, succeeded, Buffer,
  bytestream_ssl_recv_more, bytestream_ssl_send,
}
use mnapp.Tls.Ends.{Ends, moves, waits}
use mnapp.Tls.Receive.{
  IsWithin, data_of, ReadLaws, GrowLaws, Extends, has_memory, bytestream_ssl_recv_more-Extends,
}
use mnapp.Tls.Send.{WriteLaws, to_send, bytestream_ssl_send-keeps}

-- The world: how many calls are still stuck, and all that was sent.
abbrev World : Type 0
World = ℕ × Bytes

read : ℤ → World → Turn Bytes × World
read n (zero, out) = (moved (take (pos_part n) (codes "abc")), (zero, out))
read n (suc k, out) = (stuck want_read, (k, out))

write : Bytes → ℤ → World → Turn ℕ × World
write s n (zero, out) = (moved (min 2 (pos_part n)), (zero, out ++ take (min 2 (pos_part n)) s))
write s n (suc k, out) = (stuck want_write, (k, out))

abbrev peer : Peer World
peer = record {
  ssl_read = read;
  ssl_write = write;
  wait_for_read = λ w. (pos 0, w);
  wait_for_write = λ w. (pos 0, w);
}

abbrev out : World → Bytes
out w = w.1

read-moved :
    (n : ℕ) (w w' : World) (bytes : Bytes) → read (pos n) w ≡ (moved bytes, w') → length bytes ≤ n
unfolding read
read-moved n (zero, o) w' bytes e =
    let same : take n (codes "abc") ≡ bytes = cc in
    rw (← same) (omega (arith, length-take n (codes "abc")))
read-moved n (suc k, o) w' bytes e = absurd (cc)

write-moved :
    (s : Bytes) (n : ℕ) (w w' : World) (k : ℕ)
    → write s (pos n) w ≡ (moved k, w')
    → (k ≤ n) × (out w' ≡ out w ++ take k s)
unfolding write
write-moved s n (zero, o) w' k e =
    let same : min 2 n ≡ k = cc in
    let world : w' ≡ (zero, o ++ take (min 2 n) s) = cc in rw (← same, world) (omega arith, refl)
write-moved s n (suc j, o) w' k e = absurd (cc)

write-stuck :
    (s : Bytes) (n : ℕ) (w w' : World) (want : Want)
    → write s (pos n) w ≡ (stuck want, w')
    → out w' ≡ out w
unfolding write
write-stuck s n (zero, o) w' want e = absurd (cc)
write-stuck s n (suc j, o) w' want e = cc

wait-out : (want : Want) (w w' : World) (ok : Bool) → wait peer want w ≡ (ok, w') → out w' ≡ out w
unfolding wait succeeded
wait-out want_read w w' ok e = cc
wait-out want_write w w' ok e = cc
wait-out other w w' ok e = cc

abbrev write_laws : WriteLaws peer out
write_laws = record {
  ssl_write-moved = write-moved;
  ssl_write-stuck = write-stuck;
  wait-all_sent = wait-out;
}

abbrev read_laws : ReadLaws peer
read_laws = record { ssl_read-moved = read-moved }

-- A stream with one byte sent of four, and no memory left.
abbrev buffer : Buffer
buffer = record { size = 4; stream = record { buffer = codes "wxyz"; at = 1; eod = 4 } }

within : IsWithin buffer
within = record { at_eod = omega arith; eod_size = omega arith; filled = refl }

writes :
    Ends peer (peer.ssl_write (to_send buffer.stream) (pos 3)) 1 (1, []) (some 2) (0, codes "xy")
unfolding write wait succeeded to_send
writes = waits {want = want_write} refl refl (moves refl)

bytestream_ssl_send-keeps_example :
    (res : ℤ) × (b' : Buffer) × (bytestream_ssl_send peer 2 buffer 3 (1, [])
      ≡ some (res, b', (0, codes "xy")))
    × (out (0, codes "xy") ++ to_send b'.stream ≡ out (1, []) ++ to_send buffer.stream)
    × (b'.stream.at ≤ b'.stream.eod)
bytestream_ssl_send-keeps_example =
    bytestream_ssl_send-keeps peer out write_laws buffer 3 2 1 (1, []) (0, codes "xy") (some 2)
      (omega arith) (omega arith) writes (omega arith)

-- The memory that is asked for, as zeros at the end.
enlarged : Buffer → ℕ → Buffer
enlarged b n = record {
  size = b.size + n;
  stream = record b.stream { buffer = b.stream.buffer ++ replicate n 0 };
}

enlarge : Buffer → ℕ → Option Buffer
enlarge b n = some (enlarged b n)

length-replicate : (n : ℕ) → length {A = ℕ} (replicate n 0) ≡ n
length-replicate zero = omega arith
length-replicate (suc n) = omega (arith, length-replicate n)

take-front : (n : ℕ) (xs ys : Bytes) → n ≤ length xs → take n (xs ++ ys) ≡ take n xs
take-front zero xs ys h = refl
take-front (suc n) [] ys h = absurd (omega (arith, h))
take-front (suc n) (x ∷ xs) ys h = ap (λ r. x ∷ r) (take-front n xs ys (omega (arith, h)))

enlarged-IsWithin : (b : Buffer) (n : ℕ) → IsWithin b → IsWithin (enlarged b n)
unfolding enlarged
enlarged-IsWithin b n h = record {
  at_eod = h.at_eod;
  eod_size = omega (arith, h.eod_size);
  filled =
      omega (arith, h.filled, length-append b.stream.buffer (replicate n 0), length-replicate n);
}

enlarge-size : (b b' : Buffer) (n : ℕ) → enlarge b n ≡ some b' → b.size + n ≤ b'.size
unfolding enlarge enlarged
enlarge-size b b' n e = let same : enlarged b n ≡ b' = cc in rw (← same) (omega arith)

enlarge-IsWithin : (b b' : Buffer) (n : ℕ) → enlarge b n ≡ some b' → IsWithin b → IsWithin b'
unfolding enlarge
enlarge-IsWithin b b' n e h =
    let same : enlarged b n ≡ b' = cc in rw (← same) (enlarged-IsWithin b n h)

enlarge-eod : (b b' : Buffer) (n : ℕ) → enlarge b n ≡ some b' → b'.stream.eod ≡ b.stream.eod
unfolding enlarge enlarged
enlarge-eod b b' n e = let same : enlarged b n ≡ b' = cc in rw (← same) refl

enlarge-data_of :
    (b b' : Buffer) (n : ℕ)
    → enlarge b n ≡ some b'
    → IsWithin b
    → data_of b'.stream ≡ data_of b.stream
unfolding enlarge enlarged data_of
enlarge-data_of b b' n e h =
    let same : enlarged b n ≡ b' = cc in
    rw (← same) (
      take-front b.stream.eod b.stream.buffer (replicate n 0) (omega (arith, h.eod_size, h.filled)))

abbrev grow_laws : GrowLaws enlarge
grow_laws = record {
  grow-size = enlarge-size;
  grow-IsWithin = enlarge-IsWithin;
  grow-eod = enlarge-eod;
  grow-data_of = enlarge-data_of;
}

reads : Ends peer (peer.ssl_read (pos 2)) 1 (1, []) (some (codes "ab")) (0, [])
unfolding read wait succeeded
reads = waits {want = want_read} refl refl (moves refl)

bytestream_ssl_recv_more-Extends_example :
    Extends buffer
      (some (codes "ab"))
      (has_memory enlarge buffer 2)
      (bytestream_ssl_recv_more peer enlarge 2 buffer 2 (1, []))
bytestream_ssl_recv_more-Extends_example =
    bytestream_ssl_recv_more-Extends peer read_laws enlarge grow_laws buffer 2 2 1 (1, []) (0, [])
      (some (codes "ab")) within (omega arith) reads (omega arith)
