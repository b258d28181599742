-- ===== src/Http/Message.antt =====
-- src/mnhttp.c: `process_header`, `_http_parse_message` and its two entries.
use mnapp.Http.Body.{Callback, Step, available, process_body}
use mnapp.Http.Ctx.{
  ParserState, ps_start, ps_line, ps_header_field_in, ps_header_field_out, ps_body_in, ps_body,
  chunk_size, Range, Ctx, Res, done, need_more, empty, consume_data_error, http_parse_message_error,
  Stream, Bytestream,
}
use mnapp.Http.Line.{lower, LineStep, parse_request_line, parse_status_line}
use mnapp.Http.Scan.{findcrlf, findnosp, after}
use mnapp.Http.Strtol.{Errno, strtol}
use mnapp.Shared.Int.{pos, ◌+ℤ◌, sub_ℕ, int32}
use mnapp.Shared.{
  ℕ, zero, suc, ◌+◌, ◌-◌, Bool, true, false, Option, none, some, [], ◌∷◌, ◌==◌, if◌then◌else◌, ◌&&◌,
  Bytes, codes, map, take, drop, set,
}

-- The C string at the front of the memory.
unfoldable pub cstr : Bytes → Bytes
cstr [] = []
cstr (c ∷ s) = if c == 0 then [] else c ∷ cstr s

unfoldable pub bytes_eq : Bytes → Bytes → Bool
bytes_eq [] [] = true
bytes_eq (c ∷ s) (d ∷ t) = c == d && bytes_eq s t
bytes_eq _ _ = false

-- `strcasecmp(s, t) == 0`
abbrev pub strcasecmp_eq : Bytes → Bytes → Bool
strcasecmp_eq s t = bytes_eq (map lower s) (map lower t)

-- `memchr` for a byte, as an offset.
unfoldable pub memchr : ℕ → Bytes → Option ℕ
memchr c [] = none
memchr c (x ∷ s) = let rest = after (memchr c s) in if x == c then some 0 else rest

unfoldable pub process_header : Ctx → Stream → Ctx
unfolding cstr bytes_eq
process_header c s =
    let name = cstr (drop c.current_header_name.start s.buffer) in
    let value = drop c.current_header_value.start s.buffer in
    if strcasecmp_eq name (codes "content-length")
    then record c { bodysz = int32 (strtol 10 value).value }
    else if strcasecmp_eq name (codes "transfer-encoding")
    then if bytes_eq (cstr value) (codes "chunked")
      then record c { chunked = true; chunk_parser_state = chunk_size; bodysz = pos 0 }
      else c
    else c

-- The objects of a run. `W` is the state of the world behind `fd`.
pub record State (U W : Type 0) : Type 0 where
  pub ctx : Ctx
  pub in_ : Stream
  pub udata : U
  pub world : W

-- One round of the loop goes on, returns, or computes with a NULL pointer, which is undefined.
pub data Next (U W : Type 0) : Type 0 where
  continue_ : State U W → Next U W
  return_ : Res → State U W → Next U W
  undefined : Next U W

-- What follows a round.
abbrev pub resume : {U W : Type 0} → (State U W → Next U W) → Next U W → Next U W
resume go (continue_ m) = go m
resume go (return_ res m) = return_ res m
resume go undefined = undefined

-- `bytestream_consume_data`: 0, `MNHTTP_PARSE_EOF`, or another result.
pub data Lres : Type 0 where
  ok at_eof failed : Lres

pub record Consumed (W : Type 0) : Type 0 where
  pub lres : Lres
  pub in_ : Stream
  pub world : W

-- The arguments of `_http_parse_message`. `parse_line_cb` is one of the two line parsers.
pub record Args (U W : Type 0) : Type 0 where
  pub lib : Bytestream
  pub consume : W → Stream → Consumed W
  pub parse_line_cb : Ctx → Stream → LineStep
  pub line_cb : Option (Callback U)
  pub header_cb : Option (Callback U)
  pub body_cb : Option (Callback U)

module _ {U W : Type 0} (a : Args U W) where
  open a use {lib, consume, parse_line_cb, line_cb, header_cb, body_cb}

  -- A call of `line_cb` or `header_cb`, if there is one.
  abbrev pub call_cb : Option (Callback U) → ℕ → State U W → State U W → Next U W
  call_cb none code m next = continue_ next
  call_cb (some cb) code m next =
      let r = cb m.ctx m.in_ m.udata in
      if r.failed
      then return_ (http_parse_message_error code) (record m { udata = r.udata })
      else continue_ (record next { udata = r.udata })

  unfoldable pub parse_first_line : State U W → Next U W
  parse_first_line m =
      let r = parse_line_cb m.ctx m.in_ in
      let m' = record m { ctx = r.ctx; in_ = r.in_ } in
      elim r.res [
        | need_more ↦ continue_ m'
        | done ↦ call_cb line_cb 8 m' m'
        | other ↦ return_ other m'
      ]

  -- The result of `process_body`, in `PS_BODY_IN` and `PS_BODY`.
  abbrev pub after_body : ℕ → ParserState → State U W → Step U → Next U W
  after_body code state m r =
      let m' = record m { ctx = r.ctx; in_ = r.in_; udata = r.udata } in
      let entered = record m' { ctx = record r.ctx { parser_state = state } } in
      elim r.res [
        | done ↦ return_ done entered
        | need_more ↦ continue_ entered
        | other ↦ return_ (http_parse_message_error code) m'
      ]

  -- The empty line behind the header fields; the body follows at once.
  unfoldable pub end_of_header : State U W → Next U W
  end_of_header m =
      let at = m.in_.at + 2 in
      let here : Range = record { start = at; end = at } in
      let s = record m.in_ { at = at } in
      let c = record m.ctx { body = here; current_chunk = here; parser_state = ps_body_in } in
      after_body 12 ps_body m (process_body lib body_cb c s m.udata)

  -- A header field, in the line of `n` bytes at `start`.
  unfoldable pub parse_header : State U W → ℕ → ℕ → Next U W
  unfolding process_header memchr
  parse_header m start n =
      let end = start + n in
      let c = record m.ctx {
        current_header_value = record { start = m.ctx.current_header_value.start; end = end };
      } in
      elim (memchr b':' (take n (drop start m.in_.buffer))) [
        | none ↦ return_ (http_parse_message_error 9) (record m { ctx = c })
        | some colon ↦
            let name_end = start + colon in
            let named = set m.in_.buffer name_end 0 in
            elim (findnosp (take (end - (name_end + 1)) (drop (name_end + 1) named))) [
              | none ↦ undefined
              | some skip ↦
                  let s = record m.in_ { buffer = set named end 0 } in
                  let c' =
                    process_header
                      (record c {
                        current_header_name = record { start = start; end = name_end };
                        current_header_value = record { start = name_end + 1 + skip; end = end };
                      })
                      s in
                  let read = record m { ctx = c'; in_ = s } in
                  call_cb header_cb 11 read (record m {
                    ctx = record c' { parser_state = ps_header_field_in };
                    in_ = lib.advance s (sub_ℕ end s.at +ℤ pos 2);
                  })
            ]
      ]

  unfoldable pub parse_header_line : State U W → Next U W
  unfolding available
  parse_header_line m =
      let start = m.ctx.current_header_name.start in
      elim (findcrlf (available m.in_ start)) [
        | none ↦ continue_ (record m { in_ = lib.advance m.in_ (sub_ℕ m.in_.eod m.in_.at) })
        | some n ↦ if n == 0 then end_of_header m else parse_header m start n
      ]

  -- One round, when there is data.
  unfoldable pub dispatch : ParserState → State U W → Next U W
  dispatch ps_start m =
      let line : Range = record { start = m.in_.at; end = m.ctx.first_line.end } in
      continue_ (record m { ctx = record m.ctx { first_line = line; parser_state = ps_line } })
  dispatch ps_line m = parse_first_line m
  dispatch ps_header_field_in m =
      let name : Range = record { start = m.in_.at; end = m.ctx.current_header_name.end } in
      continue_ (record m {
        ctx = record m.ctx { current_header_name = name; parser_state = ps_header_field_out };
      })
  dispatch ps_header_field_out m = parse_header_line m
  dispatch ps_body_in m = after_body 12 ps_body m (process_body lib body_cb m.ctx m.in_ m.udata)
  dispatch ps_body m = after_body 13 ps_body m (process_body lib body_cb m.ctx m.in_ m.udata)

  -- Where no data could be had.
  abbrev pub at_end : Lres → ParserState → Res
  at_end at_eof ps_start = empty
  at_end _ _ = consume_data_error

  unfoldable pub round : State U W → Next U W
  round m =
      let got = consume m.world m.in_ in
      let fed = record m { in_ = got.in_; world = got.world } in
      if lib.is_needmore m.in_
      then elim got.lres [
        | ok ↦ dispatch fed.ctx.parser_state fed
        | at_eof ↦ return_ (at_end at_eof m.ctx.parser_state) fed
        | failed ↦ return_ (at_end failed m.ctx.parser_state) fed
      ]
      else dispatch m.ctx.parser_state m

  -- The loop on fuel. `continue_` means that the fuel ran out.
  unfoldable pub http_parse_message : ℕ → State U W → Next U W
  http_parse_message zero m = continue_ m
  http_parse_message (suc fuel) m = resume (http_parse_message fuel) (round m)

-- The two entries. `errno` says whether `errno` is `EINVAL` or `ERANGE` at each call of the line
-- parser.
module _ {U W : Type 0} (lib : Bytestream) (errno : Errno) where
  abbrev pub request_args : Args U W → Args U W
  request_args a = record a { lib = lib; parse_line_cb = parse_request_line lib errno }

  abbrev pub response_args : Args U W → Args U W
  response_args a = record a { lib = lib; parse_line_cb = parse_status_line lib errno }

  unfoldable pub http_parse_request : Args U W → ℕ → State U W → Next U W
  http_parse_request a = http_parse_message (request_args a)

  unfoldable pub http_parse_response : Args U W → ℕ → State U W → Next U W
  http_parse_response a = http_parse_message (response_args a)
