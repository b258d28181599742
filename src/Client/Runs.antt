-- ===== src/Client/Runs.antt =====
-- A connection that both workers serve, and the client's theorems on it at concrete inputs.
use mnapp.Client.Answer.{IsAnswered, told, http_parse_response-IsAnswered}
use mnapp.Client.Connect.{Network, connected, mnhttpc_connection_ensure_connected}
use mnapp.Client.Connection.{
  Connection, Calls, has_workers, mnhttpc_connection_init, mnhttpc_connection_new,
}
use mnapp.Client.Enqueued.{IsPrintable, request_text, finalize_begin-waits}
use mnapp.Client.Finalize.{Printer, waits, finalize_begin}
use mnapp.Client.Plain.{Pairs, hash, laws}
use mnapp.Client.Queue.{AnsweredBy, recv_round-AnsweredBy}
use mnapp.Client.Request.{Request, mnhttpc_request_init}
use mnapp.Client.Workers.{Receiver, Line, recv_round, Peer, present, parse_args}
use mnapp.Http.Ctx.{Stream, http_ctx_init, ps_header_field_in}
use mnapp.Http.Field.{IsField}
use mnapp.Http.Headers.{Field, StandsAt}
use mnapp.Http.Memory.{in_memory, consume, errno_clear}
use mnapp.Http.Message.{State, response_args}
use mnapp.Shared.Int.{pos}
use mnapp.Shared.Plain.{plain}
use mnapp.Shared.{
  ℕ, suc, ◌+◌, ◌<◌, ◌≡◌, refl, true, false, none, some, List, [], ◌∷◌, ◌++◌, arith, Bytes, codes,
  length, drop,
}
use mnapp.Uri.Defs.{http, mnhttp_uri_init}
use mnapp.Writer.Message.{
  http_add_header_field, http_end_of_header, http_field_addf, http_field_addt,
}
use mnapp.Writer.Plain.{stream, printed, stream-IsReliable, terms}
use mnapp.Writer.RoundTrip.{print_fields}
use mnapp.Writer.Uri.{mnhttp_uri_start_request}

-- The world counts what was called.
abbrev net : Network Bytes ℕ ℕ
net = record {
  socket_connect = λ h p w. (pos 5, w + 1);
  ssl_new = λ fd w. w + 1;
  ssl_connect = λ w. (connected, w + 1);
  wait_for_read = λ fd w. (pos 0, w + 1);
  wait_for_write = λ fd w. (pos 0, w + 1);
  spawn_send = λ w. (1, w + 1);
  spawn_recv = λ w. (2, w + 1);
}

abbrev calls : Calls ℕ ℕ ℕ
calls = record {
  join = λ t w. w + 1;
  ssl_free = λ w. w + 1;
  sslctx_free = λ w. w + 1;
  close = λ fd w. w + 1;
  destroy = λ r w. w + 1;
}

abbrev fresh : Connection Bytes ℕ Bytes ℕ
fresh = mnhttpc_connection_new plain [] none none (codes "h") (codes "80") http

abbrev printer : Printer Bytes Pairs Bytes
printer = record {
  strings = plain;
  hash = hash;
  terms = terms;
  lib = stream;
  date = λ t. codes "now";
  program = codes "mnapp";
  version = codes "0";
}

-- A connection with both workers, and something that is still to be sent.
abbrev busy : Connection Bytes ℕ Bytes ℕ
busy = record fresh {
  send_thread = some 1;
  recv_thread = some 2;
  out = record fresh.out { stream = codes "..." };
}

abbrev req : Request Bytes Pairs Bytes ℕ ℕ
req = record (mnhttpc_request_init hash) {
  request = record ((mnhttpc_request_init hash {W = Bytes} {F = ℕ} {D = ℕ}).request) {
    method = some (codes "GET");
    uri = record (mnhttp_uri_init []) {
      relative = some (codes "/a");
      host = some (codes "h");
      port = some (codes "80");
    };
  };
}

printable : IsPrintable req (codes "GET") (codes "/a") (codes "h") (codes "80")
unfolding mnhttpc_request_init
printable = record {
  method_is = refl;
  relative_is = refl;
  host_is = refl;
  port_is = refl;
  no_body = refl;
}

abbrev text : Bytes
text = codes "GET /a HTTP/1.1\r\nDate: now\r\nHost: h:80\r\nUser-Agent: mnapp/0\r\n\r\n"

abbrev queue : List ℕ
queue = 7 ∷ []

abbrev served : Connection Bytes ℕ Bytes ℕ
served = record busy { out = record busy.out { stream = codes "..." ++ text }; requests = queue }

request_begun : finalize_begin printer suc net calls 3 true req 7 (pos 0) busy 0 ≡ waits served 1
unfolding finalize_begin mnhttpc_connection_ensure_connected has_workers mnhttpc_connection_new
    mnhttpc_connection_init mnhttpc_request_init printed mnhttp_uri_start_request http_end_of_header
    http_field_addf http_field_addt
request_begun = refl

room : (b : Bytes) → length b < length b + 1
room b = omega arith

finalize_begin-waits_example :
    (codes "..." ++ text
      ≡ codes "..."
        ++ request_text printer stream-IsReliable req
            (codes "GET")
            (codes "/a")
            (codes "h")
            (codes "80")
            (pos 0))
    × (queue ≡ [] ++ queue)
unfolding mnhttpc_connection_new
finalize_begin-waits_example =
    finalize_begin-waits printer stream-IsReliable suc req 7 (pos 0) (codes "GET") (codes "/a")
      (codes "h") (codes "80") printable room net calls 3 true busy served 0 1 request_begun

-- The world is the list of the pieces of the response that are still to arrive.
abbrev receiver : Receiver Bytes Pairs Stream ℕ ℕ (List Bytes)
receiver = record {
  strings = plain;
  hash = hash;
  set_lower = λ b. b;
  lib = in_memory;
  consume = consume;
  errno = errno_clear;
  call = λ f ctx bs r. record { failed = false; udata = r };
  wait_for_read = λ fd w. (pos 0, w);
  recv_signal = λ id w. w;
  fuel = 40;
}

abbrev line : Line Bytes Pairs ℕ ℕ ℕ (List Bytes)
line = record {
  conn = record (mnhttpc_connection_init (record { buffer = []; at = 0; eod = 0 }) http) {
    requests = 7 ∷ 8 ∷ [];
  };
  requests = λ i. mnhttpc_request_init hash;
  world = codes "HTTP/1.1 200 OK\r\nContent-Length: 1\r\n\r\nx" ∷ [];
}

two_wait : line.conn.requests ≡ 7 ∷ 8 ∷ []
unfolding mnhttpc_connection_init
two_wait = refl

recv_round-AnsweredBy_example : AnsweredBy receiver line 7 (8 ∷ []) (recv_round receiver line)
recv_round-AnsweredBy_example = recv_round-AnsweredBy receiver line 7 (8 ∷ []) two_wait

abbrev fields : List Field
fields =
    record { name = codes "ETag"; first = b'1'; tail = [] }
    ∷ record { name = codes "Server"; first = b'x'; tail = codes "y" }
    ∷ []

etag-IsField : IsField (codes "ETag") b'1' []
etag-IsField = record {
  not_empty = omega arith;
  no_colon = omega arith;
  name_text = omega arith;
  name_line = omega arith;
  no_space = refl;
  value_text = omega arith;
  value_line = omega arith;
}

server-IsField : IsField (codes "Server") b'x' (codes "y")
server-IsField = record {
  not_empty = omega arith;
  no_colon = omega arith;
  name_text = omega arith;
  name_line = omega arith;
  no_space = refl;
  value_text = omega arith;
  value_line = omega arith;
}

-- The parser behind the status line, and the request that waits for the response.
abbrev answering : State (Peer (Request Bytes Pairs Stream ℕ ℕ)) (List Bytes)
answering = record {
  ctx = record http_ctx_init { parser_state = ps_header_field_in };
  in_ = record { buffer = codes "ETag: 1\r\nServer: xy\r\n\r\n"; at = 0; eod = 23 };
  udata = present (mnhttpc_request_init hash);
  world = [];
}

more_there : (s : Stream) → s.at < s.eod → in_memory.is_needmore s ≡ false
more_there s h = ground (arith, h)

answering-StandsAt :
    StandsAt
      (response_args in_memory errno_clear (parse_args receiver none))
      (told receiver laws more_there stream stream-IsReliable)
      (drop (length (codes "...")) (print_fields stream (codes "...") fields ++ codes "\r\n"))
      answering
unfolding print_fields http_add_header_field printed
answering-StandsAt = record {
  state_is = refl;
  holds = refl;
  within = omega arith;
  small = omega arith;
}

http_parse_response-IsAnswered_example :
    IsAnswered receiver laws more_there stream stream-IsReliable none fields
      (codes "\r\n")
      (mnhttpc_request_init hash)
      answering
http_parse_response-IsAnswered_example =
    http_parse_response-IsAnswered receiver laws more_there stream stream-IsReliable none fields
      (codes "...") (codes "\r\n") (mnhttpc_request_init hash) answering
      (etag-IsField, (server-IsField, tt)) refl answering-StandsAt
