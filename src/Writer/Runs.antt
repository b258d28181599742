-- ===== src/Writer/Runs.antt =====
-- A printed header field that the parser reads, at a concrete input.
use mnapp.Http.Ctx.{http_ctx_init}
use mnapp.Http.Field.{IsField}
use mnapp.Http.Line.{parse_request_line}
use mnapp.Http.Memory.{in_memory, consume, errno_clear}
use mnapp.Http.Message.{Args, State}
use mnapp.Http.Parsed.{IsRead}
use mnapp.Shared.{ℕ, ◌≡◌, refl, none, List, [], ◌++◌, arith, Bytes, codes, drop}
use mnapp.Writer.Message.{crlf, http_add_header_field}
use mnapp.Writer.Output.{success}
use mnapp.Writer.Plain.{printed, stream}
use mnapp.Writer.RoundTrip.{printed_field, http_add_header_field-IsRead}

abbrev args : Args ℕ (List Bytes)
args = record {
  lib = in_memory;
  consume = consume;
  parse_line_cb = parse_request_line in_memory errno_clear;
  line_cb = none;
  header_cb = none;
  body_cb = none;
}

abbrev at_header : State ℕ (List Bytes)
at_header = record {
  ctx = http_ctx_init;
  in_ = record { buffer = codes "Host: ab\r\n\r\n"; at = 0; eod = 12 };
  udata = 0;
  world = [];
}

host-IsField : IsField (codes "Host") b'a' (codes "b")
host-IsField = record {
  not_empty = omega arith;
  no_colon = omega arith;
  name_text = omega arith;
  name_line = omega arith;
  no_space = refl;
  value_text = omega arith;
  value_line = omega arith;
}

host_printed :
    (http_add_header_field stream (codes "...") (codes "Host") (codes "ab")).ret ≡ success
unfolding http_add_header_field printed
host_printed = refl

host_here :
    drop at_header.ctx.current_header_name.start at_header.in_.buffer
    ≡ printed_field stream (codes "...") (codes "Host") (codes "ab") ++ crlf
unfolding printed_field http_add_header_field printed
host_here = refl

http_add_header_field-IsRead_example : IsRead args at_header (codes "Host") (codes "ab") crlf
http_add_header_field-IsRead_example =
    http_add_header_field-IsRead stream args (codes "...") at_header (codes "Host") b'a' (codes "b")
      crlf host-IsField host_printed host_here (omega arith) (omega arith)
