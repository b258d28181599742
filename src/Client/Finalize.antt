-- ===== src/Client/Finalize.antt =====
-- src/mnhttpc.c: `mnhttpc_request_finalize`, up to the wait for the response and behind it.
use mnapp.Client.Connect.{success, Network, Left, mnhttpc_connection_ensure_connected}
use mnapp.Client.Connection.{Connection, Calls}
use mnapp.Client.Request.{Hash, Request}
use mnapp.Shared.Int.{ℤ}
use mnapp.Shared.MnBytes.{MnBytes}
use mnapp.Shared.{
  ℕ, Bool, Option, none, some, List, [], ◌∷◌, ◌++◌, if◌then◌else◌, ◌>>=◌, Bytes, codes,
}
use mnapp.Writer.Message.{http_field_addt, http_field_addf, http_field_addb, http_end_of_header}
use mnapp.Writer.Output
use mnapp.Writer.Output.{Output, Wrote, Sent}
use mnapp.Writer.Uri.{QueryTerms, mnhttp_uri_start_request}

-- The libraries that printing uses, the texts PACKAGE and VERSION (`program`, `version`) of the generated config.h, the
-- time and the text of a date.
pub record Printer (B H S : Type 0) : Type 0 where
  pub strings : MnBytes B
  pub hash : Hash B H
  pub terms : QueryTerms B H
  pub lib : Output S
  pub date : ℤ → Bytes
  pub program : Bytes
  pub version : Bytes

-- What the call comes to before it waits: it returns MNHTTPC_REQUEST_FINALIZE and a number, with
-- the semaphore released unless it was not had, or it waits for `recv_signal`. A failed assertion, a
-- NULL that is read, or a handshake with no fuel left is `undefined`.
pub data Begun (B T S W : Type 0) : Type 0 where
  returns : ℕ → Connection B T S ℕ → W → Begun B T S W
  waits : Connection B T S ℕ → W → Begun B T S W
  undefined : Begun B T S W

module _ {B H S : Type 0} (pr : Printer B H S) where
  open pr use {strings, lib}

  -- The loop over the header of the request.
  unfoldable pub add_fields : List (B × B) → S → S
  add_fields [] out = out
  add_fields ((name, value) ∷ fields) out =
      add_fields fields (http_field_addb lib strings out name value).out

module _ {B H S F D : Type 0} (pr : Printer B H S) where
  open pr use {strings, hash, terms, lib, date, program, version}

  -- The header and the body, behind the first line. Results of the printing functions are dropped.
  unfoldable pub print_rest : Request B H S F D → B → B → ℤ → S → S
  unfolding add_fields
  print_rest req host port now out =
      let name : Bytes → B = strings.from_str in
      let o1 = (http_field_addt lib strings date out (name (codes "Date")) now).out in
      let address = strings.cdata host ++ (codes ":" ++ strings.cdata port) in
      let o2 = (http_field_addf lib strings o1 (name (codes "Host")) address).out in
      let agent = program ++ (codes "/" ++ version) in
      let o3 = (http_field_addf lib strings o2 (name (codes "User-Agent")) agent).out in
      let o4 = add_fields pr (hash.items req.request.headers) o3 in
      let o5 = (http_end_of_header lib o4).out in
      elim req.out_body_cb [ none ↦ o5 | some cb ↦ cb o5 req.out_body_cb_udata ]

  -- The first line, from the method and the URI.
  unfoldable pub print_line : Request B H S F D → S → Option (Sent S)
  print_line req out = do
    method ← req.request.method
    mnhttp_uri_start_request strings terms lib req.request.uri out method

module _ {B H T S F D W : Type 0} (pr : Printer B H S) (signal_send : W → W) where
  open pr use {lib}

  -- Behind the first line, which left `out`: the rest of the request, and its place `id` at the end
  -- of the queue.
  unfoldable pub enqueue_at :
      Request B H S F D → ℕ → ℤ → Connection B T S ℕ → W → S → Option B → Option B → Begun B T S W
  unfolding print_rest
  enqueue_at req id now conn w out (some host) (some port) =
      waits
        (record conn {
          out = record conn.out { stream = print_rest pr req host port now out };
          requests = conn.requests ++ id ∷ [];
        })
        (signal_send w)
  enqueue_at req id now conn w out _ _ = undefined

  unfoldable pub enqueue_sent :
      Request B H S F D → ℕ → ℤ → Connection B T S ℕ → W → Wrote → S → Begun B T S W
  unfolding enqueue_at
  enqueue_sent req id now conn w Output.success out =
      enqueue_at req id now conn w out req.request.uri.host req.request.uri.port
  enqueue_sent req id now conn w _ out =
      returns 3 (record conn { out = record conn.out { stream = out } }) w

  unfoldable pub enqueue :
      Request B H S F D → ℕ → ℤ → Connection B T S ℕ → W → Option (Sent S) → Begun B T S W
  unfolding enqueue_sent
  enqueue req id now conn w none = undefined
  enqueue req id now conn w (some sent) = enqueue_sent req id now conn w sent.ret sent.out

  -- Behind `mnhttpc_connection_ensure_connected`.
  unfoldable pub after_connected : Request B H S F D → ℕ → ℤ → Left B T S ℕ W → Begun B T S W
  unfolding enqueue print_line
  after_connected req id now none = undefined
  after_connected req id now (some (success, conn, w)) =
      enqueue req id now conn w (print_line pr req conn.out.stream)
  after_connected req id now (some (_, conn, w)) = returns 2 conn w

  -- `acquired` tells whether the semaphore was had.
  unfoldable pub finalize_begin :
      Network B T W
      → Calls T W ℕ
      → ℕ
      → Bool
      → Request B H S F D
      → ℕ
      → ℤ
      → Connection B T S ℕ
      → W
      → Begun B T S W
  unfolding after_connected
  finalize_begin net calls fuel acquired req id now conn w =
      if acquired
      then after_connected req id now (mnhttpc_connection_ensure_connected net calls fuel conn w)
      else returns 1 conn w
