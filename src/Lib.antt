-- ===== src/Lib.antt =====
-- mnapp: utilities for applications on the libraries mncommon, mnthr and mndiag.
--
-- The program has an HTTP part (src/mnhttp.c, src/mnhttp.h), a client on it (src/mnhttpc.c), a
-- parser of command lines (src/mncommand.c), servers (src/local_server.c), a TLS helper and a
-- daemon helper. The client parses the text of a URI to a mnhttp_uri_t, prints a request, and
-- parses the answer from a bytestream with an mnhttp_ctx_t; callbacks take the first line, the
-- header and the body. A server parses requests with the same code. Query strings and form bodies
-- go through the key-value parser and the percent coding.
--
-- Modules and the code that they model:
--   Url      src/mnhttp.c: charflags, http_urlencode_reserved, http_urldecode. Table is the table,
--            Encode the encoder on its malloc block, Decode the decoder in place, Spec the percent
--            code as a function on lists; InPlace, Written and RoundTrip hold the proofs.
--   Uri      src/mnhttp.c: mnhttp_uri_init, mnhttp_uri_parse, mnhttp_uri_fini; src/mnhttp.h:
--            mnhttp_uri_t. Defs has the parser part by part, where a failed assertion is none, and
--            Release the end. Cut, Text, Authority, Query, Rebuild and Default hold the proofs.
--   Http     src/mnhttp.c: findcrlf to http_parse_response, the functions of contexts; src/mnhttp.h:
--            mnhttp_ctx_t. Scan has the searches, Ctx the context and the results, Body process_body,
--            Line the first line, Message the header and the loop, Strtol the strtol of the C
--            library, Release the end of a context. Scanned, Plain, Order and Method hold proofs, and
--            so do Field, Parsed and Headers, on header fields.
--   Kvp      src/mnhttp.c: mnhttp_parse_qterms, mnhttp_parse_kvpbd, by their common macros. Spec cuts
--            the text by recursion on lists; Parse has the proof.
--   Command  src/mncommand.c, src/mncommand.h: the context, mncommand_ctx_add_cmd,
--            mncommand_ctx_find_cmd, the help spec (Defs), the values of options (Values), the cut of
--            help lines (Wrap), mncommand_ctx_getopt (Getopt), mncommand_ctx_format_help (Help),
--            mncommand_ctx_fini (Release). Add has the proofs on added commands, Rows those on the
--            lines of the help.
--   Server   src/local_server.c, src/mntcps.h: mnapp_tcp_server_init, mnapp_tcp_server_stop and
--            mnapp_tcp_server_fini (Defs), mnapp_tcp_server_start and mnapp_tcp_server_serve (Start),
--            the worker and local_server (Accept). Address, Release, Balance, SunPath and Leaks hold
--            the proofs.
--   Writer   src/mnhttp.c: http_start_request to http_add_body, mnhttp_uri_start_request and
--            mnhttp_uri_add_qterm. Output is the interface to the streams that are printed to,
--            Message has the parts of a message, Uri the request line with its query terms. Printed,
--            Query, Terms and RoundTrip, on printed fields that are parsed, hold the proofs, Plain a
--            stream in memory.
--   Client   src/mnhttpc.c, src/mnhttpc.h: requests and their header (Request), connections
--            (Connection), their handshake and start (Connect), mnhttpc_new (New),
--            mnhttpc_request_finalize (Finalize) and the loops of the workers (Workers), the end of
--            requests (Release), mnhttpc_gc, mnhttpc_fini and the end of connections (Collect).
--            Headers, Answer, Reuse, Up, Kept, Sent, Enqueued, Queue and Transport hold the proofs.
--   Tls      src/bytestream_ssl_helper.c (Defs). Ends is the relation of the runs of their loop,
--            which Receive and Send use in the proofs on the two functions.
--   Daemon   src/daemonize.c (Defs), with the proofs on the descriptors in Streams.
--   Shared   tests, lists, integers, the do notation on Option, and the interface MnBytes to the
--            strings of mncommon, with Plain, which fills it in by lists of bytes. Owned has what
--            objects hold and the functions that release it.
-- Each part has runs of its definitions and its theorems at concrete inputs in its modules Tests
-- and Runs.
--
-- How the code is read: bytes are natural numbers below 256, pointers into a buffer are offsets
-- from its start, and NULL is none. An unsigned int wraps at 2 ^ 32 and a size_t at 2 ^ 64 where
-- the code can reach that, an int by int32. Types of mncommon (mnbytes_t, mnbytestream_t, mnhash_t,
-- mnarray_t) are not part of the repository. Strings are the interface MnBytes, with the laws that
-- the code relies on; the hash and the bytestream are records of the functions that are called; an
-- array is a list, and whether it can grow is a parameter. The laws are filled in by plain lists in
-- the tests. The counts of references are left out but in the functions that release objects (the
-- modules Release of Uri, Http, Client and Command), which are over the release of a string, as
-- nothing else reads them. Callbacks are functions that leave the context and the stream as they
-- are, as those of the client do: one that writes to them is not modelled. Assertions fail as none,
-- and so does the comparison of a NULL port.
--
-- Fuel: http_urldecode has one round more than its memory has bytes, which is enough as each round
-- moves on by a byte or more. The loop of the help lines has one round more than the description
-- has bytes. The loop of _http_parse_message reads from a stream that may never end, so its fuel is
-- an argument, and a run that it ends keeps its state (continue_). The loops of the handshake and
-- of the TLS streams wait as often as the peer likes, and that of mncommand_ctx_getopt runs until
-- getopt_long ends, those of the servers until they are shut down, so they have fuel as an argument
-- too, and a run that it ends is none; one round more than there are waits is enough for the
-- streams, as a round ends the loop or waits once. A worker is modelled by the round of its loop.
-- All other loops are by recursion on their data.
--
-- Not modelled: http_ctx_dump, which prints a trace line, and the interleaving of the client's
-- callers and workers: each step is a function on the state that it finds. src/foo.c is an example,
-- and src/mnapp.c is empty.
pub mod Shared
pub mod Url
pub mod Uri
pub mod Http
pub mod Command
pub mod Kvp
pub mod Server
pub mod Writer
pub mod Client
pub mod Tls
pub mod Daemon
