-- ===== src/Tls/Ends.antt =====
-- The runs of the loop around a call of the TLS library, as a relation.
use mnapp.Shared.{ℕ, zero, suc, ◌<◌, ◌≡◌, refl, true, false, Option, none, some, arith}
use mnapp.Tls.Defs.{Peer, Turn, moved, stuck, Want, wait, turn, after_wait, loop}

-- From the world `w`, after that many waits, the loop comes to a result in another world: to what a
-- call moved, or to none, where an error was no wait or a wait failed.
pub data Ends {A W : Type 0} (peer : Peer W) (call : W → Turn A × W)
    : ℕ → W → Option A → W → Type 0 where
  moves : {w w1 : W} {a : A} → call w ≡ (moved a, w1) → Ends peer call 0 w (some a) w1
  fails :
      {w w1 w2 : W} {want : Want}
      → call w ≡ (stuck want, w1)
      → wait peer want w1 ≡ (false, w2)
      → Ends peer call 0 w none w2
  waits :
      {w w1 w2 w3 : W} {want : Want} {k : ℕ} {r : Option A}
      → call w ≡ (stuck want, w1)
      → wait peer want w1 ≡ (true, w2)
      → Ends peer call k w2 r w3
      → Ends peer call (suc k) w r w3

module _ {A W : Type 0} (peer : Peer W) (call : W → Turn A × W) where
  -- With more fuel than there are waits, the loop comes to the result of the run.
  pub loop-Ends :
      (fuel : ℕ) {k : ℕ} {w w' : W} {r : Option A}
      → Ends peer call k w r w'
      → k < fuel
      → loop peer fuel call w ≡ some (r, w')
  unfolding loop turn after_wait
  loop-Ends zero ends h = absurd (omega arith)
  loop-Ends (suc fuel) (moves e) h = rw (e) refl
  loop-Ends (suc fuel) (fails e f) h = rw (e, turn) (rw (f) refl)
  loop-Ends (suc fuel) (waits e f ends) h =
      rw (e, turn) (rw (f) (loop-Ends fuel ends (omega arith)))
