-- ===== src/Client/Workers.antt =====
-- src/mnhttpc.c: the bodies of the loops of `mnhttpc_connection_send_worker` and
-- `mnhttpc_connection_recv_worker`, and the end of `mnhttpc_request_finalize`.
use mnapp.Client.Connection.{Connection}
use mnapp.Client.Request.{Hash, Request, mnhttpc_response_line_cb, mnhttpc_response_header_cb}
use mnapp.Http.Body.{Callback}
use mnapp.Http.Ctx.{Ctx, http_ctx_init, Res, done, Stream, Bytestream}
use mnapp.Http.Message.{
  Args, Consumed, State, Next, continue_, return_, undefined, http_parse_response,
}
use mnapp.Http.Strtol.{Errno}
use mnapp.Shared.Int.{ℤ, pos, eqb_ℤ}
use mnapp.Shared.MnBytes.{MnBytes}
use mnapp.Shared.{ℕ, Bool, false, Option, none, some, List, [], ◌∷◌, if◌then◌else◌, ◌==◌}

-- A worker goes on, or ends and clears its thread in the connection, or the behaviour is undefined,
-- or the parser ran out of fuel.
pub data Worked (A : Type 0) : Type 0 where
  goes_on ends : A → Worked A
  crashes no_fuel : Worked A

-- `bytestream_produce_data` and `bytestream_rewind` of mncommon, and whether the worker could wait
-- for `send_signal`.
pub record Sender (S W : Type 0) : Type 0 where
  pub produce : S → W → Bool × S × W
  pub rewind : S → S
  pub subscribe : W → Bool × W

unfoldable pub send_round :
    {B T S R W : Type 0} → Sender S W → Connection B T S R × W → Worked (Connection B T S R × W)
send_round sender (conn, w) =
    let (written, s, w1) = sender.produce conn.out.stream w in
    let (woken, w2) = sender.subscribe w1 in
    let wrote = record conn { out = record conn.out { stream = s } } in
    let rewound = record conn { out = record conn.out { stream = sender.rewind s } } in
    if written
    then if woken then goes_on (rewound, w2) else ends (record rewound { send_thread = none }, w2)
    else ends (record wrote { send_thread = none }, w1)

-- The user data of the callbacks: a request, or NULL. A callback that reads a request through NULL
-- makes it `crashed`.
pub data Peer (A : Type 0) : Type 0 where
  absent crashed : Peer A
  present : A → Peer A

-- A callback on a request, as one on the user data.
unfoldable pub on_peer : {A : Type 0} → Callback A → Callback (Peer A)
on_peer cb ctx bs absent = record { failed = false; udata = crashed }
on_peer cb ctx bs crashed = record { failed = false; udata = crashed }
on_peer cb ctx bs (present req) =
    let r = cb ctx bs req in record { failed = r.failed; udata = present r.udata }

-- What the receive worker uses. `call` runs a body callback of the user's, and `fuel` is that of the
-- parser's loop.
pub record Receiver (B H S F D W : Type 0) : Type 0 where
  pub strings : MnBytes B
  pub hash : Hash B H
  pub set_lower : B → B
  pub lib : Bytestream
  pub consume : W → Stream → Consumed W
  pub errno : Errno
  pub call : F → Callback (Request B H S F D)
  -- `mnthr_wait_for_read`
  pub wait_for_read : ℤ → W → ℤ × W
  -- `mnthr_signal_send` on `recv_signal` of the request with that place
  pub recv_signal : ℕ → W → W
  pub fuel : ℕ

module _ {B H S F D W : Type 0} (r : Receiver B H S F D W) where
  open r use {strings, hash, set_lower, lib, consume, errno, call, fuel}

  -- The callbacks of the client.
  unfoldable pub parse_args : Option F → Args (Peer (Request B H S F D)) W
  unfolding on_peer mnhttpc_response_line_cb mnhttpc_response_header_cb
  parse_args in_body_cb = record {
    lib = lib;
    consume = consume;
    parse_line_cb = λ c s. record { res = done; ctx = c; in_ = s };
    line_cb = some (mnhttpc_response_line_cb);
    header_cb = some (on_peer (mnhttpc_response_header_cb hash strings set_lower));
    body_cb = elim in_body_cb [ none ↦ none | some f ↦ some (on_peer (call f)) ];
  }

  -- `http_parse_response` with them.
  unfoldable pub parse_response :
      Option F → Ctx → Stream → Peer (Request B H S F D) → W → Next (Peer (Request B H S F D)) W
  unfolding parse_args http_parse_response
  parse_response in_body_cb ctx bs req w =
      http_parse_response lib errno (parse_args in_body_cb) fuel
        (record { ctx = ctx; in_ = bs; udata = req; world = w })

-- A connection, the requests in memory by their places, and the world.
pub record Line (B H T F D W : Type 0) : Type 0 where
  pub conn : Connection B T Stream ℕ
  pub requests : ℕ → Request B H Stream F D
  pub world : W

-- The memory with another request at a place.
abbrev pub update : {A : Type 0} → (ℕ → A) → ℕ → A → ℕ → A
update f i a j = if j == i then a else f j

module _ {B H T F D W : Type 0} (r : Receiver B H Stream F D W) where
  open r use {wait_for_read, recv_signal}

  -- The end of a round: it goes on after a result of 0.
  unfoldable pub recv_end : Res → Line B H T F D W → Worked (Line B H T F D W)
  recv_end done l = goes_on l
  recv_end _ l = ends (record l { conn = record l.conn { recv_thread = none } })

  -- The stream and the world behind the parser.
  abbrev pub with_parsed :
      Line B H T F D W → State (Peer (Request B H Stream F D)) W → Line B H T F D W
  with_parsed l m = record l {
    conn = record l.conn { in_ = record l.conn.in_ { stream = m.in_ } };
    world = m.world;
  }

  -- A response that no request waits for.
  unfoldable pub recv_absent :
      Line B H T F D W → Next (Peer (Request B H Stream F D)) W → Worked (Line B H T F D W)
  unfolding recv_end
  recv_absent l (continue_ m) = no_fuel
  recv_absent l undefined = crashes
  recv_absent l (return_ res m) = elim m.udata [
    | absent ↦ recv_end res (with_parsed l m)
    | _ ↦ crashes
  ]

  -- The response to the request at `id`; its context is the one that was parsed to.
  unfoldable pub recv_present :
      ℕ → Line B H T F D W → Next (Peer (Request B H Stream F D)) W → Worked (Line B H T F D W)
  unfolding recv_end
  recv_present id l (continue_ m) = no_fuel
  recv_present id l undefined = crashes
  recv_present id l (return_ res m) = elim m.udata [
    | present req ↦
        let answered = record req { response = record req.response { ctx = m.ctx } } in
        let l' = with_parsed l m in
        recv_end res
          (record l' { requests = update l.requests id answered; world = recv_signal id l'.world })
    | _ ↦ crashes
  ]

  -- The round once there is something to read, by the queue.
  unfoldable pub recv_ready : List ℕ → Line B H T F D W → Worked (Line B H T F D W)
  unfolding recv_absent recv_present parse_response
  recv_ready [] l =
      recv_absent l (parse_response r none http_ctx_init l.conn.in_.stream absent l.world)
  recv_ready (id ∷ rest) l =
      let req = l.requests id in
      recv_present id (record l { conn = record l.conn { requests = rest } })
        (parse_response r req.in_body_cb req.response.ctx l.conn.in_.stream (present req) l.world)

  unfoldable pub recv_round : Line B H T F D W → Worked (Line B H T F D W)
  unfolding recv_ready eqb_ℤ
  recv_round l =
      let (res, w) = wait_for_read l.conn.fd l.world in
      let ready = record l { world = w } in
      if eqb_ℤ res (pos 0)
      then recv_ready l.conn.requests ready
      else ends (record ready { conn = record l.conn { recv_thread = none } })

-- The end of `mnhttpc_request_finalize`: the semaphore is released, and what the wait for
-- `recv_signal` returned is the result.
unfoldable pub finalize_end : {W : Type 0} → (W → W) → ℤ → W → ℤ × W
finalize_end sema_release res w = (res, sema_release w)
