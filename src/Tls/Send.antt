-- ===== src/Tls/Send.antt =====
-- What `bytestream_ssl_send` takes from the stream is what it sends.
use mnapp.Http.Ctx.{Stream}
use mnapp.Shared.Int.{ℤ, pos, negsuc, int32_small}
use mnapp.Shared.{
  ℕ, ◌+◌, ◌^◌, ◌<◌, ◌≤◌, ◌≡◌, refl, ap, ◌∙◌, Bool, false, Option, none, some, ◌++◌, arith, ltb,
  Bytes, take, drop, append_assoc, take-drop-drop,
}
use mnapp.Tls.Defs.{Peer, moved, stuck, Want, wait, Buffer, sent, bytestream_ssl_send}
use mnapp.Tls.Ends.{Ends, moves, fails, waits, loop-Ends}

-- What OpenSSL documents of SSL_write, in terms of all bytes that were sent: it sends a part from the
-- front of what it is given, of the size that it returns, and nothing where it fails.
pub record WriteLaws {W : Type 0} (peer : Peer W) (all_sent : W → Bytes) : Type 0 where
  pub ssl_write-moved :
      (s : Bytes) (n : ℕ) (w w' : W) (k : ℕ)
      → peer.ssl_write s (pos n) w ≡ (moved k, w')
      → (k ≤ n) × (all_sent w' ≡ all_sent w ++ take k s)
  pub ssl_write-stuck :
      (s : Bytes) (n : ℕ) (w w' : W) (want : Want)
      → peer.ssl_write s (pos n) w ≡ (stuck want, w')
      → all_sent w' ≡ all_sent w
  pub wait-all_sent :
      (want : Want) (w w' : W) (ok : Bool) → wait peer want w ≡ (ok, w') → all_sent w' ≡ all_sent w

module _ {W : Type 0} (peer : Peer W) (all_sent : W → Bytes) (laws : WriteLaws peer all_sent)
    (s : Bytes) (n : ℕ) where
  open laws use {ssl_write-moved, ssl_write-stuck, wait-all_sent}

  -- What a run sends.
  Sends : Option ℕ → W → W → Type 0
  Sends none w w' = all_sent w' ≡ all_sent w
  Sends (some k) w w' = (k ≤ n) × (all_sent w' ≡ all_sent w ++ take k s)

  Sends-from : (r : Option ℕ) (w v w' : W) → all_sent v ≡ all_sent w → Sends r v w' → Sends r w w'
  unfolding Sends
  Sends-from none w v w' e h = h ∙ e
  Sends-from (some k) w v w' e (le, h) = (le, h ∙ ap (λ t. t ++ take k s) e)

  Ends-Sends :
      {k : ℕ} {w w' : W} {r : Option ℕ}
      → Ends peer (peer.ssl_write s (pos n)) k w r w'
      → Sends r w w'
  unfolding Sends
  Ends-Sends (moves e) = ssl_write-moved s n _ _ _ e
  Ends-Sends (fails e f) = wait-all_sent _ _ _ _ f ∙ ssl_write-stuck s n _ _ _ e
  Ends-Sends (waits {w = w} {r = r} e f ends) =
      Sends-from r w _ _ (wait-all_sent _ _ _ _ f ∙ ssl_write-stuck s n _ _ _ e) (Ends-Sends ends)

-- What a stream has still to send.
unfoldable pub to_send : Stream → Bytes
to_send s = drop s.at s.buffer

module _ {W : Type 0} (peer : Peer W) (all_sent : W → Bytes) (laws : WriteLaws peer all_sent)
    (b : Buffer) (sz : ℕ) where
  open b use {stream}

  -- The stream behind a run: what was sent and what is still to be sent make the same bytes.
  sent-keeps :
      (r : Option ℕ) (w w' : W)
      → Sends peer all_sent laws (to_send stream) sz r w w'
      → stream.at + sz ≤ stream.eod
      → (res : ℤ) × (b' : Buffer) × (sent b (some (r, w')) ≡ some (res, b', w'))
        × (all_sent w' ++ to_send b'.stream ≡ all_sent w ++ to_send stream)
        × (b'.stream.at ≤ b'.stream.eod)
  unfolding sent to_send Sends
  sent-keeps none w w' same h =
      (negsuc 0, b, refl, ap (λ t. t ++ to_send stream) same, omega (arith, h))
  sent-keeps (some k) w w' (le, same) h = (
    pos k,
    record b { stream = record stream { at = stream.at + k } },
    refl,
    ap (λ t. t ++ drop (stream.at + k) stream.buffer) same
        ∙ append_assoc (all_sent w) (take k (to_send stream)) _
        ∙ ap (λ t. all_sent w ++ t) (take-drop-drop stream.at k _ stream.buffer refl),
    omega (arith, h, le),
  )

module _ {W : Type 0} (peer : Peer W) (all_sent : W → Bytes) (laws : WriteLaws peer all_sent) where
  -- Where the TLS library comes to an end after k waits, bytestream_ssl_send returns with more fuel
  -- than that, and what was sent and what the stream has still to send make the same bytes as before.
  pub bytestream_ssl_send-keeps :
      (b : Buffer) (sz fuel k : ℕ) (w w' : W) (r : Option ℕ)
      → b.stream.at + sz ≤ b.stream.eod
      → sz < 2 ^ 31
      → Ends peer (peer.ssl_write (to_send b.stream) (pos sz)) k w r w'
      → k < fuel
      → (res : ℤ) × (b' : Buffer) × (bytestream_ssl_send peer fuel b sz w ≡ some (res, b', w'))
        × (all_sent w' ++ to_send b'.stream ≡ all_sent w ++ to_send b.stream)
        × (b'.stream.at ≤ b'.stream.eod)
  unfolding bytestream_ssl_send to_send
  bytestream_ssl_send-keeps b sz fuel k w w' r room small ends enough =
      let fits : ltb b.stream.eod (b.stream.at + sz) ≡ false = ground (arith, room) in
      let runs = loop-Ends peer (peer.ssl_write (to_send b.stream) (pos sz)) fuel ends enough in
      let (res, b', done, keeps, inside) =
        sent-keeps peer all_sent laws b sz r w w'
          (Ends-Sends peer all_sent laws (to_send b.stream) sz ends) room in
      (res, b', rw (fits, int32_small sz small, runs) done, keeps, inside)
