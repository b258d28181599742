-- ===== src/Http/Tests.antt =====
-- Runs of the message parser over a stream in memory, and its theorems at concrete inputs.
use mnapp.Http.Body.{
  Callback, process_body, process_plain_body, read_body, with_body_cb, recycle_stream_buffer,
  process_chunk_size, process_chunk_data,
}
use mnapp.Http.Method.{parse_method_bounds}
use mnapp.Http.Order.{Ordered, round-Ordered, http_parse_request-done}
use mnapp.Http.Memory.{in_memory, consume, errno_clear}
use mnapp.Http.Plain.{read_ctx, read_stream, process_body-declared}
use mnapp.Http.Scanned.{FirstCrlf, findcrlf-First}
use mnapp.Http.Ctx.{
  ps_header_field_out, ps_body, Ctx, http_ctx_init, Res, done, need_more, empty, Stream,
}
use mnapp.Http.Line.{parse_request_line, strncasecmp_eq, parse_method}
use mnapp.Http.Message.{
  State, Next, continue_, return_, undefined, Args, request_args, response_args, http_parse_request,
  http_parse_message, round, dispatch, parse_first_line, parse_header_line, end_of_header,
  parse_header,
}
use mnapp.Http.Scan.{findcrlf, findsp, findnosp}
use mnapp.Http.Strtol.{strtol}
use mnapp.Shared.Int.{pos, ◌≤ℤ◌, ◌+ℤ◌, ◌-ℤ◌, int32}
use mnapp.Shared.{
  ◌-◌, ◌≡◌, refl, false, Option, none, some, List, [], ◌∷◌, ◌++◌, arith, Bytes, codes, take, drop,
}

-- Collects the bodies that the callback is shown.
abbrev collect : Callback Bytes
collect c s seen = record {
  failed = false;
  udata =
      seen
      ++ take (c.current_chunk.end - c.current_chunk.start) (drop c.current_chunk.start s.buffer);
}

abbrev args : Args Bytes (List Bytes)
args = record {
  lib = in_memory;
  consume = consume;
  parse_line_cb = parse_request_line in_memory errno_clear;
  line_cb = none;
  header_cb = none;
  body_cb = some collect;
}

abbrev start : List Bytes → State Bytes (List Bytes)
start pieces = record {
  ctx = http_ctx_init;
  in_ = record { buffer = []; at = 0; eod = 0 };
  udata = [];
  world = pieces;
}

abbrev result : Next Bytes (List Bytes) → Option (Res × Bytes)
result (continue_ m) = none
result (return_ res m) = some (res, m.udata)
result undefined = none

abbrev head : Bytes
head = codes "PUT /a HTTP/1.1\r\nContent-Length: 3\r\n"

run : List Bytes → Option (Res × Bytes)
unfolding http_parse_request http_parse_message round dispatch parse_first_line parse_header_line
    end_of_header parse_header parse_request_line strncasecmp_eq parse_method findcrlf findsp
    findnosp strtol process_body process_plain_body read_body with_body_cb recycle_stream_buffer
    process_chunk_size process_chunk_data consume ◌+ℤ◌ ◌-ℤ◌ int32
run pieces = result (http_parse_request in_memory errno_clear args 40 (start pieces))

request_runs : run ((head ++ codes "\r\nxyz") ∷ []) ≡ some (done, codes "xyz")
unfolding run
request_runs = refl

-- The same bytes in three pieces.
pieces_run : run ((head ++ codes "\r\n") ∷ codes "x" ∷ codes "yz" ∷ []) ≡ some (done, codes "xyz")
unfolding run
pieces_run = refl

-- A piece that ends inside the empty line makes the parser lose a byte of the body.
split_run : run ((head ++ codes "\r") ∷ codes "\nxyz!" ∷ []) ≡ some (done, codes "yz!")
unfolding run
split_run = refl

chunks_run :
    run (
      codes "PUT /a HTTP/1.1\r\nTransfer-Encoding: chunked\r\n\r\n3\r\nabc\r\n2\r\nde\r\n0\r\n\r\n"
      ∷ [])
    ≡ some (done, codes "abcde")
unfolding run
chunks_run = refl

-- One letter, or none before the space, is taken for GET.
methods : (parse_method (codes "G /") 1 ≡ pos 2) × (parse_method (codes " /") 0 ≡ pos 2)
unfolding parse_method strncasecmp_eq
methods = (refl, refl)

no_data : run [] ≡ some (empty, [])
unfolding run
no_data = refl

-- A field with an empty value makes the parser compute with a NULL pointer.
abbrev header_state : State Bytes (List Bytes)
header_state = record (start []) {
  ctx = record http_ctx_init { parser_state = ps_header_field_out };
  in_ = record { buffer = codes "A:\r\n"; at = 0; eod = 4 };
}

empty_value : round args header_state ≡ undefined
unfolding round dispatch parse_header_line parse_header findcrlf findnosp
empty_value = refl

findcrlf-First_example : FirstCrlf (codes "ab\r\n") (findcrlf (codes "ab\r\n"))
findcrlf-First_example = findcrlf-First (codes "ab\r\n")

parse_method_bounds_example :
    (pos 1 ≤ℤ parse_method (codes "PATCH") 5) × (parse_method (codes "PATCH") 5 ≤ℤ pos 10)
parse_method_bounds_example = parse_method_bounds (codes "PATCH") 5

-- Five bytes of body declared, two read, two more there.
abbrev body_ctx : Ctx
body_ctx = record http_ctx_init {
  parser_state = ps_body;
  bodysz = pos 5;
  body = record { start = 10; end = 12 };
}

abbrev body_stream : Stream
body_stream = record { buffer = []; at = 12; eod = 14 }

process_body-declared_example :
    process_body in_memory (some collect) body_ctx body_stream [] ≡ record {
      res = need_more;
      ctx = read_ctx body_ctx 2;
      in_ = read_stream body_stream 2;
      udata = [];
    }
process_body-declared_example =
    process_body-declared in_memory (some collect) body_ctx body_stream [] 5 2 2 refl refl refl
      (omega arith) refl

abbrev bare_ctx : Ctx
bare_ctx = record http_ctx_init { parser_state = ps_body; body = record { start = 12; end = 12 } }

round-Ordered_example :
    Ordered ps_header_field_out (round (request_args in_memory errno_clear args) header_state)
    × Ordered ps_header_field_out (round (response_args in_memory errno_clear args) header_state)
round-Ordered_example = round-Ordered in_memory errno_clear args header_state

-- The state in which a body of no bytes is read, and the state after it.
abbrev last_state : State Bytes (List Bytes)
last_state = record (start []) {
  ctx = record http_ctx_init {
    parser_state = ps_body;
    bodysz = pos 0;
    body = record { start = 1; end = 1 };
  };
  in_ = record { buffer = codes "ab"; at = 1; eod = 2 };
}

abbrev final_state : State Bytes (List Bytes)
final_state = record last_state {
  ctx = record last_state.ctx {
    body = record { start = 0; end = 0 };
    current_chunk = record { start = 0; end = 1 };
  };
  udata = codes "a";
}

last_round : http_parse_request in_memory errno_clear args 1 last_state ≡ return_ done final_state
unfolding run
last_round = refl

http_parse_request-done_example : final_state.ctx.parser_state ≡ ps_body
http_parse_request-done_example =
    http_parse_request-done in_memory errno_clear args 1 last_state {m' = final_state} last_round
