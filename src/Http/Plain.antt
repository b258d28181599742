-- ===== src/Http/Plain.antt =====
-- A body that is not chunked: what `process_body` takes from the stream.
use mnapp.Http.Body.{
  Callback, Step, size_of, recycle_stream_buffer, with_body_cb, read_body, process_plain_body,
  process_body,
}
use mnapp.Http.Ctx.{Ctx, done, need_more, process_body_error, Stream, Bytestream}
use mnapp.Shared.Int.{pos, ◌-ℤ◌, sub_ℕ, ltb_ℤ, min_ℤ}
use mnapp.Shared.{
  ℕ, ◌+◌, ◌-◌, ◌≤◌, min, ◌≡◌, ap, ◌∙◌, false, inl, inr, Option, none, some, refl, arith, ltb,
  if◌then◌else◌, Bool-cases,
}

-- The context and the stream when `k` more bytes of the body were read.
abbrev pub read_ctx : Ctx → ℕ → Ctx
read_ctx c k = record c {
  body = record { start = c.body.start; end = c.body.end + k };
  current_chunk = record { start = c.current_chunk.start; end = c.body.end + k };
}

abbrev pub read_stream : Stream → ℕ → Stream
read_stream s k = record s { at = s.at + k }

-- The context and the stream when the parse of a message is done: the ranges are empty, and the
-- bytes in front of the current chunk may be dropped.
abbrev pub cleaned : {U : Type 0} → Bytestream → Ctx → Stream → U → Step U
cleaned lib c s u =
    let dropped = lib.recycle s c.current_chunk.start in
    record {
      res = done;
      ctx = record c {
        first_line = record { start = 0; end = 0 };
        current_header_name = record { start = 0; end = 0 };
        current_header_value = record { start = 0; end = 0 };
        body = record { start = 0; end = 0 };
        current_chunk = record {
          start = c.current_chunk.start - dropped.count;
          end = c.current_chunk.end - dropped.count;
        };
      };
      in_ = dropped.stream;
      udata = u;
    }

-- What follows the last byte of the body: the callback, if there is one, is called, and its error
-- ends the parse; else the buffer is cleaned.
abbrev pub finish_body : {U : Type 0} → Bytestream → Option (Callback U) → Ctx → Stream → U → Step U
finish_body lib none c s u = cleaned lib c s u
finish_body lib (some cb) c s u =
    if (cb c s u).failed
    then record { res = process_body_error 3; ctx = c; in_ = s; udata = (cb c s u).udata }
    else cleaned lib c s (cb c s u).udata

finish_body_lem :
    {U : Type 0} (lib : Bytestream) (cb : Option (Callback U)) (c : Ctx) (s : Stream) (u : U)
    → with_body_cb lib cb 3 c s u (recycle_stream_buffer lib done c s) ≡ finish_body lib cb c s u
unfolding with_body_cb recycle_stream_buffer
finish_body_lem lib none c s u = refl
finish_body_lem lib (some cb) c s u = refl

process_body_plain :
    {U : Type 0} (lib : Bytestream) (cb : Option (Callback U)) (c : Ctx) (s : Stream) (u : U)
    → c.chunked ≡ false
    → process_body lib cb c s u ≡ process_plain_body lib cb c s u
unfolding process_body
process_body_plain lib cb c s u plain = rw plain

read_body_lem :
    {U : Type 0} (lib : Bytestream) (cb : Option (Callback U)) (c : Ctx) (s : Stream) (u : U)
    (i : ℕ)
    → read_body lib cb c s u (pos i) ≡ (
        if ltb_ℤ (sub_ℕ (c.body.end + i) c.body.start) c.bodysz
        then record { res = need_more; ctx = read_ctx c i; in_ = read_stream s i; udata = u }
        else finish_body lib cb (read_ctx c i) (read_stream s i) u)
unfolding read_body
read_body_lem lib cb c s u i =
    let moved : (k : ℕ) → k + i - 0 ≡ k + i = λ k. omega arith in
    rw (lib.advance_lem s (pos i), moved c.body.end, moved s.at)
      (rw (finish_body_lem lib cb (read_ctx c i) (read_stream s i) u) refl)

-- With `n` bytes declared, of which `a` were read, and `v` bytes in the buffer.
module _ (c : Ctx) (s : Stream) (n a v : ℕ) (declared : c.bodysz ≡ pos n)
    (accumulated : c.body.end ≡ c.body.start + a) (room : a ≤ n) (there : s.eod ≡ s.at + v) where
  needed_lem : c.bodysz -ℤ size_of c.body ≡ pos (n - a)
  unfolding ◌-ℤ◌
  needed_lem = rw (declared, accumulated) (ground arith)

  navail_lem : sub_ℕ s.eod s.at ≡ pos v
  navail_lem = ground arith

  incr_lem : min_ℤ (sub_ℕ s.eod s.at) (c.bodysz -ℤ size_of c.body) ≡ pos (min v (n - a))
  incr_lem = rw (needed_lem, navail_lem) (ground arith)

  test_lem : (i : ℕ) → ltb_ℤ (sub_ℕ (c.body.end + i) c.body.start) c.bodysz ≡ ltb (a + i) n
  test_lem i =
      let e : sub_ℕ (c.body.end + i) c.body.start ≡ pos (a + i) = rw accumulated (ground arith) in
      rw (e, declared) (ground arith)

-- A body of `n` declared bytes, `a` of them read and `v` in the buffer. `process_body` reads what
-- is there, but no byte behind the body. If bytes are missing it asks for more; else it calls the
-- callback, if there is one, with the context in which the body has all `n` bytes. An error of the
-- callback ends the parse; else the ranges are emptied, the buffer is recycled, and the result is 0.
pub process_body-declared :
    {U : Type 0} (lib : Bytestream) (cb : Option (Callback U)) (c : Ctx) (s : Stream) (u : U)
    (n a v : ℕ)
    → c.chunked ≡ false
    → c.bodysz ≡ pos n
    → c.body.end ≡ c.body.start + a
    → a ≤ n
    → s.eod ≡ s.at + v
    → process_body lib cb c s u ≡ (
        if ltb (a + v) n
        then record { res = need_more; ctx = read_ctx c v; in_ = read_stream s v; udata = u }
        else finish_body lib cb (read_ctx c (n - a)) (read_stream s (n - a)) u)
unfolding process_plain_body
process_body-declared lib cb c s u n a v plain declared accumulated room there =
    process_body_plain lib cb c s u plain
    ∙ ap (read_body lib cb c s u) (incr_lem c s n a v declared accumulated room there)
    ∙ read_body_lem lib cb c s u (min v (n - a))
    ∙ elim (Bool-cases (ltb (a + v) n)) [
      | inl short ↦
          let m : min v (n - a) ≡ v = ground arith in
          rw m (rw (test_lem c s n a v declared accumulated room there v) (rw short))
      | inr full ↦
          let m : min v (n - a) ≡ n - a = ground arith in
          let all : ltb (a + (n - a)) n ≡ false = ground arith in
          rw m (rw (test_lem c s n a v declared accumulated room there (n - a), all, full))
    ]
