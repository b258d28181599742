-- ===== src/Client/Enqueued.antt =====
-- A request that waits for its response was printed whole and stands at the end of the queue.
use mnapp.Client.Connect.{
  success, ssl_error, connect_error, wait_error, Network, Left, mnhttpc_connection_ensure_connected,
}
use mnapp.Client.Connection.{Connection, Calls, Channel}
use mnapp.Client.Finalize.{
  Printer, Begun, returns, waits, undefined, print_line, enqueue_at, enqueue_sent, enqueue,
  after_connected, finalize_begin,
}
use mnapp.Client.Kept.{LeftKept, ensure_connected-LeftKept}
use mnapp.Client.Request.{Request}
use mnapp.Client.Sent.{rest_text, print_rest-contents}
use mnapp.Shared.Int.{ℤ}
use mnapp.Shared.{
  ℕ, ◌<◌, ◌≡◌, refl, ap, ◌∙◌, Bool, true, false, Option, none, some, List, [], ◌∷◌, ◌++◌, Bytes,
  codes, length, append_assoc,
}
use mathlib.Core.Path.{subst}
use mnapp.Writer.Message.{crlf}
use mnapp.Writer.Output
use mnapp.Writer.Output.{Output, Wrote, Sent}
use mnapp.Writer.Printed.{IsReliable}
use mnapp.Writer.Query.{query_text, mnhttp_uri_start_request-contents}

-- A request with what it takes to be printed, and no body.
pub record IsPrintable {B H S F D : Type 0} (req : Request B H S F D) (method : Bytes)
    (relative host port : B) : Type 0 where
  pub method_is : req.request.method ≡ some method
  pub relative_is : req.request.uri.relative ≡ some relative
  pub host_is : req.request.uri.host ≡ some host
  pub port_is : req.request.uri.port ≡ some port
  pub no_body : req.out_body_cb ≡ none

module _ {B H S F D : Type 0} (pr : Printer B H S) where
  open pr use {strings, terms, lib}

  -- The first line.
  unfoldable pub line_text : Request B H S F D → Bytes → B → Bytes
  line_text req method relative =
      method
      ++ (codes " "
          ++ (strings.cdata relative
              ++ (query_text strings terms lib req.request.uri relative
                    (terms.items req.request.uri.qterms)
                  ++ (codes " HTTP/1.1" ++ crlf))))

module _ {B H S F D : Type 0} (pr : Printer B H S) (reliable : IsReliable pr.lib) where
  open pr use {strings, terms, lib}

  -- The whole request, from the method to the empty line.
  unfoldable pub request_text : Request B H S F D → Bytes → B → B → B → ℤ → Bytes
  unfolding rest_text line_text
  request_text req method relative host port now =
      line_text pr req method relative ++ rest_text pr reliable req host port now

module _ {B H S F D : Type 0} (pr : Printer B H S) (reliable : IsReliable pr.lib)
    (req : Request B H S F D) (method : Bytes) (relative host port : B)
    (printable : IsPrintable req method relative host port)
    (bsz_lem : (b : B) → length (pr.strings.cdata b) < pr.terms.bsz b) where
  open pr use {strings, terms, lib}

  line-contents :
      (out : S) (sent : Sent S)
      → print_line pr req out ≡ some sent
      → sent.ret ≡ Output.success
      → lib.contents sent.out ≡ lib.contents out ++ line_text pr req method relative
  unfolding print_line line_text
  line-contents out sent made h =
      mnhttp_uri_start_request-contents strings terms lib bsz_lem req.request.uri relative method
        out sent printable.relative_is (rw (printable.method_is, print_line) at made) h

module _ {B H T S F D W : Type 0} (pr : Printer B H S) (reliable : IsReliable pr.lib)
    (signal_send : W → W) (req : Request B H S F D) (id : ℕ) (now : ℤ) (method : Bytes)
    (relative host port : B) (printable : IsPrintable req method relative host port)
    (bsz_lem : (b : B) → length (pr.strings.cdata b) < pr.terms.bsz b) where
  open pr use {strings, terms, lib}

  -- Where the call waits, the connection has the request.
  Enqueued : Channel S → List ℕ → Begun B T S W → Type 0
  Enqueued out requests (waits conn w) =
      (lib.contents conn.out.stream
        ≡ lib.contents out.stream ++ request_text pr reliable req method relative host port now)
      × (conn.requests ≡ requests ++ id ∷ [])
  Enqueued out requests (returns n conn w) = Unit
  Enqueued out requests undefined = Unit

  enqueue_at-Enqueued :
      (conn : Connection B T S ℕ) (w : W) (out : S)
      → lib.contents out ≡ lib.contents conn.out.stream ++ line_text pr req method relative
      → Enqueued conn.out conn.requests
          (enqueue_at pr signal_send req id now conn w out (some host) (some port))
  unfolding enqueue_at Enqueued request_text
  enqueue_at-Enqueued conn w out line = (
    print_rest-contents pr reliable req host port now out printable.no_body
        ∙ ap (λ t. t ++ rest_text pr reliable req host port now) line
        ∙ append_assoc (lib.contents conn.out.stream) (line_text pr req method relative) _,
    refl,
  )

  enqueue_sent-Enqueued :
      (conn : Connection B T S ℕ) (w : W) (r : Wrote) (out : S)
      → (r ≡ Output.success
          → lib.contents out ≡ lib.contents conn.out.stream ++ line_text pr req method relative)
      → Enqueued conn.out conn.requests (enqueue_sent pr signal_send req id now conn w r out)
  unfolding enqueue_sent Enqueued
  enqueue_sent-Enqueued conn w Output.success out line =
      rw (printable.host_is, printable.port_is) (enqueue_at-Enqueued conn w out (line refl))
  enqueue_sent-Enqueued conn w (Output.start_request n) out line = tt
  enqueue_sent-Enqueued conn w (Output.start_response n) out line = tt
  enqueue_sent-Enqueued conn w (Output.add_header_field n) out line = tt
  enqueue_sent-Enqueued conn w (Output.end_of_header n) out line = tt
  enqueue_sent-Enqueued conn w (Output.add_body n) out line = tt

  enqueue-Enqueued :
      (conn : Connection B T S ℕ) (w : W) (sent : Option (Sent S))
      → print_line pr req conn.out.stream ≡ sent
      → Enqueued conn.out conn.requests (enqueue pr signal_send req id now conn w sent)
  unfolding enqueue Enqueued
  enqueue-Enqueued conn w none made = tt
  enqueue-Enqueued conn w (some sent) made = enqueue_sent-Enqueued conn w sent.ret sent.out (λ h.
      line-contents pr reliable req method relative host port printable bsz_lem conn.out.stream sent
        made h)

  after_connected-Enqueued :
      (conn : Connection B T S ℕ) (l : Left B T S ℕ W)
      → LeftKept conn.out conn.requests l
      → Enqueued conn.out conn.requests (after_connected pr signal_send req id now l)
  unfolding after_connected Enqueued
  after_connected-Enqueued conn none kept = tt
  after_connected-Enqueued conn (some (success, conn', w)) (out, queue) =
      rw (← out, ← queue) (enqueue-Enqueued conn' w (print_line pr req conn'.out.stream) refl)
  after_connected-Enqueued conn (some (ssl_error, conn', w)) kept = tt
  after_connected-Enqueued conn (some (connect_error, conn', w)) kept = tt
  after_connected-Enqueued conn (some (wait_error n, conn', w)) kept = tt

  finalize_begin-Enqueued :
      (net : Network B T W) (calls : Calls T W ℕ) (fuel : ℕ) (acquired : Bool)
      (conn : Connection B T S ℕ) (w : W)
      → Enqueued conn.out conn.requests
          (finalize_begin pr signal_send net calls fuel acquired req id now conn w)
  unfolding finalize_begin Enqueued
  finalize_begin-Enqueued net calls fuel true conn w =
      after_connected-Enqueued conn (mnhttpc_connection_ensure_connected net calls fuel conn w)
        (ensure_connected-LeftKept net calls fuel conn w)
  finalize_begin-Enqueued net calls fuel false conn w = tt

  -- Where mnhttpc_request_finalize waits for the response to a request with no body, it has printed
  -- the request whole behind what there was, and put it at the end of the queue.
  pub finalize_begin-waits :
      (net : Network B T W) (calls : Calls T W ℕ) (fuel : ℕ) (acquired : Bool)
      (conn conn' : Connection B T S ℕ) (w w' : W)
      → finalize_begin pr signal_send net calls fuel acquired req id now conn w ≡ waits conn' w'
      → (lib.contents conn'.out.stream
          ≡ lib.contents conn.out.stream
            ++ request_text pr reliable req method relative host port now)
        × (conn'.requests ≡ conn.requests ++ id ∷ [])
  unfolding Enqueued
  finalize_begin-waits net calls fuel acquired conn conn' w w' e =
      subst (Enqueued conn.out conn.requests) e
        (finalize_begin-Enqueued net calls fuel acquired conn w)
