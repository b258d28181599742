-- ===== src/Http/Ctx.antt =====
-- src/mnhttp.h: the parser's context, and `http_ctx_init`. src/mnhttp.c: the results.
use mnapp.Shared.Int.{ℤ, pos, negsuc}
use mnapp.Shared.{ℕ, ◌≡◌, Bool, false, Option, none, Bytes, drop, ◌-◌, ◌≤◌}
use mnapp.Shared.Int.{move}

-- `PS_START` to `PS_BODY`, in order
pub data ParserState : Type 0 where
  ps_start ps_line ps_header_field_in ps_header_field_out ps_body_in ps_body : ParserState

-- `PS_CHUNK_SIZE`, `PS_CHUNK_DATA`, and the initial 0
pub data ChunkState : Type 0 where
  no_chunk chunk_size chunk_data : ChunkState

-- `byterange_t` of mncommon, as the code uses it
pub record Range : Type 0 where
  pub start : ℕ
  pub end : ℕ

abbrev pub range_zero : Range
range_zero = record { start = 0; end = 0 }

-- `code` is the union of `status` and `method`, `chunked` is the bit `PS_FLAG_CHUNKED` of `flags`.
pub record Ctx : Type 0 where
  pub parser_state : ParserState
  pub chunk_parser_state : ChunkState
  pub first_line : Range
  pub version_major : ℤ
  pub version_minor : ℤ
  pub code : ℤ
  pub request_uri : Option Bytes
  pub bodysz : ℤ
  pub current_header_name : Range
  pub current_header_value : Range
  pub chunked : Bool
  pub body : Range
  pub current_chunk_size : ℤ
  pub current_chunk : Range

abbrev pub http_ctx_init : Ctx
http_ctx_init = record {
  parser_state = ps_start;
  chunk_parser_state = no_chunk;
  first_line = range_zero;
  version_major = pos 0;
  version_minor = pos 0;
  code = pos 0;
  request_uri = none;
  bodysz = negsuc 0;
  current_header_name = range_zero;
  current_header_value = range_zero;
  chunked = false;
  body = range_zero;
  current_chunk_size = pos 0;
  current_chunk = range_zero;
}

-- What the parser's functions return: 0, the codes of mnhttp.h, and the two diagnostic codes with
-- the number that is added to them.
pub data Res : Type 0 where
  done need_more eof empty consume_data_error : Res
  process_body_error http_parse_message_error : ℕ → Res

-- `mnbytestream_t`: the contents of the buffer, the read position and the end of the data.
pub record Stream : Type 0 where
  pub buffer : Bytes
  pub at : ℕ
  pub eod : ℕ

pub record Recycled : Type 0 where
  pub count : ℕ
  pub stream : Stream

-- The operations of mncommon on streams that the parser uses.
pub record Bytestream : Type 0 where
  -- `SNEEDMORE`
  pub is_needmore : Stream → Bool
  -- `SADVANCEPOS`
  pub advance : Stream → ℤ → Stream
  pub advance_lem : (s : Stream) (n : ℤ) → advance s n ≡ record s { at = move s.at n }
  -- `bytestream_recycle(in, 512, start)`: drops bytes in front of `start`
  pub recycle : Stream → ℕ → Recycled
  pub recycle-count : (s : Stream) (start : ℕ) → (recycle s start).count ≤ start
  pub recycle-pos :
      (s : Stream) (start : ℕ) → (recycle s start).stream.at ≡ s.at - (recycle s start).count
  pub recycle-eod :
      (s : Stream) (start : ℕ) → (recycle s start).stream.eod ≡ s.eod - (recycle s start).count
  pub recycle-data :
      (s : Stream) (start : ℕ)
      → (recycle s start).stream.buffer ≡ drop (recycle s start).count s.buffer
