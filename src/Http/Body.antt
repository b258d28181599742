-- ===== src/Http/Body.antt =====
-- src/mnhttp.c: `recycle_stream_buffer` and `process_body`.
use mnapp.Http.Ctx.{
  ChunkState, no_chunk, chunk_size, chunk_data, Range, range_zero, Ctx, Res, done, need_more,
  process_body_error, Stream, Bytestream,
}
use mnapp.Http.Scan.{findcrlf}
use mnapp.Http.Strtol.{strtol}
use mnapp.Shared.Int.{ℤ, pos, ◌+ℤ◌, ◌-ℤ◌, sub_ℕ, ltb_ℤ, min_ℤ, move, int32, int32_small, pos_part}
use mnapp.Shared.{
  ℕ, ◌+◌, ◌-◌, ◌^◌, ◌<◌, ◌≤◌, ◌≡◌, refl, arith, Bool, not, ◌||◌, Option, none, some, ◌==◌,
  if◌then◌else◌, Bytes, take, drop,
}

-- A callback that reads the context and the stream and works on the user's data, as those of the
-- client do. It returns whether its result is not 0. The type `mnhttp_cb_t` also lets a callback write
-- to the context and the stream: such callbacks are not modelled.
pub record Called (U : Type 0) : Type 0 where
  pub failed : Bool
  pub udata : U

abbrev pub Callback : Type 0 → Type 0
Callback U = Ctx → Stream → U → Called U

-- What a step leaves: its result, and the objects that it works on.
pub record Step (U : Type 0) : Type 0 where
  pub res : Res
  pub ctx : Ctx
  pub in_ : Stream
  pub udata : U

-- The bytes from an offset up to the end of the data, as `findcrlf` gets them: its size is an `int`.
unfoldable pub available : Stream → ℕ → Bytes
unfolding int32
available s start = take (pos_part (int32 (sub_ℕ s.eod start))) (drop start s.buffer)

pub available_small :
    (s : Stream) (start : ℕ)
    → start ≤ s.eod
    → s.eod < 2 ^ 31
    → available s start ≡ take (s.eod - start) (drop start s.buffer)
unfolding available
available_small s start le small =
    let size : sub_ℕ s.eod start ≡ pos (s.eod - start) = ground (arith, le) in
    rw (size) (rw (int32_small (s.eod - start) (omega (arith, small))) refl)

abbrev pub size_of : Range → ℤ
size_of r = sub_ℕ r.end r.start

module _ {U : Type 0} (lib : Bytestream) where
  open lib use {advance, recycle}

  unfoldable pub recycle_stream_buffer : Res → Ctx → Stream → U → Step U
  recycle_stream_buffer res c s u =
      let r = recycle s c.current_chunk.start in
      record {
        res = res;
        ctx = record c {
          first_line = range_zero;
          current_header_name = range_zero;
          current_header_value = range_zero;
          body = range_zero;
          current_chunk = record {
            start = c.current_chunk.start - r.count;
            end = c.current_chunk.end - r.count;
          };
        };
        in_ = r.stream;
        udata = u;
      }

  -- A call of `body_cb`, if there is one, with what follows if it returns 0.
  unfoldable pub with_body_cb : Option (Callback U) → ℕ → Ctx → Stream → U → (U → Step U) → Step U
  with_body_cb none code c s u next = next u
  with_body_cb (some cb) code c s u next =
      let r = cb c s u in
      if r.failed
      then record { res = process_body_error code; ctx = c; in_ = s; udata = r.udata }
      else next r.udata

  -- A line with the size of a chunk.
  unfoldable pub process_chunk_size : Ctx → Stream → U → Step U
  unfolding int32 available
  process_chunk_size c s u = elim (findcrlf (available s c.current_chunk.start)) [
    | none ↦ record { res = need_more; ctx = c; in_ = advance s (sub_ℕ s.eod s.at); udata = u }
    | some k ↦
        let line = c.current_chunk.start in
        let end = line + k in
        let number = strtol 16 (drop line s.buffer) in
        let size = int32 number.value in
        let sized = record c { current_chunk_size = size; bodysz = int32 (c.bodysz +ℤ size) } in
        let s' = advance s (sub_ℕ end s.at +ℤ pos 2) in
        if not (line + number.end == end) || ltb_ℤ size (pos 0)
        then record { res = process_body_error 1; ctx = sized; in_ = s; udata = u }
        else record {
          res = need_more;
          ctx = record sized {
            current_chunk = record { start = s'.at; end = s'.at };
            chunk_parser_state = chunk_data;
          };
          in_ = s';
          udata = u;
        }
  ]

  -- The bytes of a chunk.
  unfoldable pub process_chunk_data : Option (Callback U) → Ctx → Stream → U → Step U
  process_chunk_data body_cb c s u =
      let needed = int32 (c.current_chunk_size -ℤ size_of c.current_chunk) in
      let navail = int32 (sub_ℕ s.eod s.at) in
      let incr = min_ℤ needed navail in
      let s' = advance s (pos 2) in
      let next = record c {
        chunk_parser_state = chunk_size;
        current_chunk = record { start = s'.at; end = s'.at };
      } in
      if ltb_ℤ (pos 0) needed
      then record {
        res = need_more;
        ctx = record c {
          current_chunk = record {
            start = c.current_chunk.start;
            end = move c.current_chunk.end incr;
          };
        };
        in_ = advance s incr;
        udata = u;
      }
      else with_body_cb body_cb 2 c s u (
          recycle_stream_buffer (if ltb_ℤ (pos 0) c.current_chunk_size then need_more else done)
            next s')

  -- `incr` more bytes of a body that is not chunked.
  unfoldable pub read_body : Option (Callback U) → Ctx → Stream → U → ℤ → Step U
  read_body body_cb c s u incr =
      let end = move c.body.end incr in
      let read = record c {
        body = record { start = c.body.start; end = end };
        current_chunk = record { start = c.current_chunk.start; end = end };
      } in
      let s' = advance s incr in
      if ltb_ℤ (sub_ℕ end c.body.start) c.bodysz
      then record { res = need_more; ctx = read; in_ = s'; udata = u }
      else with_body_cb body_cb 3 read s' u (recycle_stream_buffer done read s')

  -- A body whose size is known, or not given.
  unfoldable pub process_plain_body : Option (Callback U) → Ctx → Stream → U → Step U
  process_plain_body body_cb c s u =
      let navail = sub_ℕ s.eod s.at in
      let needed = c.bodysz -ℤ size_of c.body in read_body body_cb c s u (min_ℤ navail needed)

  process_chunk : ChunkState → Option (Callback U) → Ctx → Stream → U → Step U
  process_chunk chunk_size body_cb c s u = process_chunk_size c s u
  process_chunk chunk_data body_cb c s u = process_chunk_data body_cb c s u
  process_chunk no_chunk body_cb c s u = record {
    res = process_body_error 4;
    ctx = c;
    in_ = s;
    udata = u;
  }

  unfoldable pub process_body : Option (Callback U) → Ctx → Stream → U → Step U
  unfolding process_chunk
  process_body body_cb c s u =
      if c.chunked
      then process_chunk c.chunk_parser_state body_cb c s u
      else process_plain_body body_cb c s u
