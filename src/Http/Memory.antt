-- ===== src/Http/Memory.antt =====
-- A stream that keeps all its data, for runs of the models.
use mnapp.Http.Ctx.{Stream, Bytestream}
use mnapp.Http.Message.{Lres, Consumed}
use mnapp.Http.Strtol.{Errno}
use mnapp.Shared.Int.{move}
use mnapp.Shared.{
  ℕ, ◌+◌, ◌-◌, ◌≤◌, ◌≡◌, refl, false, List, [], ◌∷◌, ◌++◌, arith, leb, Bytes, length,
}

pub minus_zero : (n : ℕ) → n ≡ n - 0
minus_zero n = omega arith

pub zero_le : (n : ℕ) → 0 ≤ n
zero_le n = omega arith

-- A stream that keeps all its data.
abbrev pub in_memory : Bytestream
in_memory = record {
  is_needmore = λ s. leb s.eod s.at;
  advance = λ s n. record s { at = move s.at n };
  advance_lem = λ s n. refl;
  recycle = λ s start. record { count = 0; stream = s };
  recycle-count = λ s start. zero_le start;
  recycle-pos = λ s start. minus_zero s.at;
  recycle-eod = λ s start. minus_zero s.eod;
  recycle-data = λ s start. refl;
}

-- The world is the list of the pieces that are still to arrive.
unfoldable pub consume : List Bytes → Stream → Consumed (List Bytes)
consume [] s = record { lres = Lres.at_eof; in_ = s; world = [] }
consume (piece ∷ more) s = record {
  lres = Lres.ok;
  in_ = record s { buffer = s.buffer ++ piece; eod = s.eod + length piece };
  world = more;
}

-- No error was there before, and none is set where there are no digits.
abbrev pub errno_clear : Errno
errno_clear = record { before = false; einval = false }
