-- ===== src/Http/Order.antt =====
-- The states of the message parser follow one another in the order of a message.
use mnapp.Http.Body.{Step, available}
use mnapp.Http.Scan.{findcrlf}
use mnapp.Http.Ctx.{
  ParserState, ps_start, ps_line, ps_header_field_in, ps_header_field_out, ps_body_in, ps_body, Ctx,
  Res, done, need_more, Stream, Bytestream,
}
use mnapp.Http.Line.{LineStep, parse_request_line, parse_status_line}
use mnapp.Http.Strtol.{Errno}
use mnapp.Http.Message.{
  State, Next, resume, request_args, response_args, http_parse_request, continue_, return_,
  undefined, Args, parse_first_line, after_body, end_of_header, parse_header, parse_header_line,
  dispatch, round, http_parse_message,
}
use mnapp.Shared.Int.{move, sub_ℕ}
use mnapp.Shared.{
  ◌||◌, ◌&&◌, ◌==◌, ℕ, zero, suc, ◌≡◌, refl, Bool, true, false, inl, inr, arith, Option-cases,
}

-- The state that may come after a round.
abbrev pub may_follow : ParserState → ParserState → Bool
may_follow ps_start ps_line = true
may_follow ps_line ps_header_field_in = true
may_follow ps_header_field_in ps_header_field_out = true
may_follow ps_header_field_out ps_header_field_in = true
may_follow ps_header_field_out ps_body = true
may_follow ps_body_in ps_body = true
may_follow ps_body ps_body = true
may_follow _ _ = false

-- The states that wait for a whole line.
abbrev pub waits : ParserState → ParserState → Bool
waits ps_line ps_line = true
waits ps_header_field_out ps_header_field_out = true
waits _ _ = false

-- What a round leaves: where it goes on, the next state, or that of a line that is not whole, with
-- all the data read; and `ps_body` where the message is done.
abbrev pub Ordered : {U W : Type 0} → ParserState → Next U W → Type 0
Ordered ps (continue_ m) =
    (may_follow ps m.ctx.parser_state || (waits ps m.ctx.parser_state && m.in_.at == m.in_.eod))
    ≡ true
Ordered ps (return_ done m) = m.ctx.parser_state ≡ ps_body
Ordered ps _ = Unit

-- What a line parser leaves.
abbrev pub LineOrder : Res → ParserState → ParserState → Stream → Type 0
LineOrder need_more before after s = (after ≡ before) × (s.at ≡ s.eod)
LineOrder done before after s = after ≡ ps_header_field_in
LineOrder _ before after s = Unit

abbrev pub LineOrdered : ParserState → LineStep → Type 0
LineOrdered before r = LineOrder r.res before r.ctx.parser_state r.in_

move-sub_ℕ : (n m : ℕ) → move n (sub_ℕ m n) ≡ m
move-sub_ℕ n m = ground arith

-- The advance by all that is there.
all_read :
    (lib : Bytestream) (s : Stream)
    → (lib.advance s (sub_ℕ s.eod s.at)).at ≡ (lib.advance s (sub_ℕ s.eod s.at)).eod
all_read lib s = rw (lib.advance_lem s (sub_ℕ s.eod s.at)) (move-sub_ℕ s.at s.eod)

parse_request_line-LineOrdered :
    (lib : Bytestream) (errno : Errno) (c : Ctx) (s : Stream)
    → LineOrdered c.parser_state (parse_request_line lib errno c s)
unfolding parse_request_line
parse_request_line-LineOrdered lib errno c s = ground (arith, all_read lib s)

parse_status_line-LineOrdered :
    (lib : Bytestream) (errno : Errno) (c : Ctx) (s : Stream)
    → LineOrdered c.parser_state (parse_status_line lib errno c s)
unfolding parse_status_line
parse_status_line-LineOrdered lib errno c s = ground (arith, all_read lib s)

resume-done :
    {U W : Type 0} (ps : ParserState) (go : State U W → Next U W) (n : Next U W) {m' : State U W}
    → Ordered ps n
    → ((m : State U W) → go m ≡ return_ done m' → m'.ctx.parser_state ≡ ps_body)
    → resume go n ≡ return_ done m'
    → m'.ctx.parser_state ≡ ps_body
resume-done ps go (continue_ m) o later h = later m h
resume-done ps go (return_ res m) o later h = ground arith
resume-done ps go undefined o later h = cc

module _ {U W : Type 0} (a : Args U W)
    (lines : (c : Ctx) (s : Stream) → LineOrdered c.parser_state (a.parse_line_cb c s)) where
  parse_first_line-Ordered :
      (m : State U W) → m.ctx.parser_state ≡ ps_line → Ordered ps_line (parse_first_line a m)
  unfolding parse_first_line
  parse_first_line-Ordered m at = ground (arith, lines m.ctx m.in_)

  after_body-Ordered :
      (ps : ParserState) (code : ℕ) (m : State U W) (r : Step U)
      → may_follow ps ps_body ≡ true
      → Ordered ps (after_body a code ps_body m r)
  after_body-Ordered ps code m r h = ground arith

  parse_header-Ordered :
      (m : State U W) (start n : ℕ) → Ordered ps_header_field_out (parse_header a m start n)
  unfolding parse_header
  parse_header-Ordered m start n = ground arith

  end_of_header-Ordered : (m : State U W) → Ordered ps_header_field_out (end_of_header a m)
  unfolding end_of_header
  end_of_header-Ordered m = after_body-Ordered ps_header_field_out 12 m _ refl

  parse_header_line-Ordered :
      (m : State U W)
      → m.ctx.parser_state ≡ ps_header_field_out
      → Ordered ps_header_field_out (parse_header_line a m)
  unfolding parse_header_line
  parse_header_line-Ordered m at =
      let start = m.ctx.current_header_name.start in
      elim (Option-cases (findcrlf (available m.in_ start))) [
        | inl missing ↦ rw (missing, parse_header_line) (ground (arith, at, all_read a.lib m.in_))
        | inr (n, found) ↦
            rw (found, parse_header_line)
              (ground (arith, end_of_header-Ordered m, parse_header-Ordered m start n))
      ]

  dispatch-Ordered :
      (ps : ParserState) (m : State U W) → m.ctx.parser_state ≡ ps → Ordered ps (dispatch a ps m)
  unfolding dispatch
  dispatch-Ordered ps_start m at = refl
  dispatch-Ordered ps_line m at = parse_first_line-Ordered m at
  dispatch-Ordered ps_header_field_in m at = refl
  dispatch-Ordered ps_header_field_out m at = parse_header_line-Ordered m at
  dispatch-Ordered ps_body_in m at = after_body-Ordered ps_body_in 12 m _ refl
  dispatch-Ordered ps_body m at = after_body-Ordered ps_body 13 m _ refl

  round_any-Ordered : (m : State U W) → Ordered m.ctx.parser_state (round a m)
  unfolding round
  round_any-Ordered m =
      let got = a.consume m.world m.in_ in
      ground (
        arith,
        dispatch-Ordered m.ctx.parser_state m refl,
        dispatch-Ordered m.ctx.parser_state (record m { in_ = got.in_; world = got.world }) refl,
      )

  http_parse_message-done :
      (fuel : ℕ) (m : State U W) {m' : State U W}
      → http_parse_message a fuel m ≡ return_ done m'
      → m'.ctx.parser_state ≡ ps_body
  unfolding http_parse_message
  http_parse_message-done zero m h = cc
  http_parse_message-done (suc fuel) m h =
      resume-done m.ctx.parser_state (http_parse_message a fuel) (round a m) (round_any-Ordered m)
        (λ m'' e. http_parse_message-done fuel m'' e) h

module _ {U W : Type 0} (lib : Bytestream) (errno : Errno) (a : Args U W) where
  -- A round of either parser goes on to the state that comes next in a message, or it stays in that
  -- of a line, with all the data read; it returns 0 only in the body. The callbacks are functions
  -- that leave the context and the stream as they are.
  pub round-Ordered :
      (m : State U W)
      → Ordered m.ctx.parser_state (round (request_args lib errno a) m)
        × Ordered m.ctx.parser_state (round (response_args lib errno a) m)
  round-Ordered m = (
    round_any-Ordered (request_args lib errno a) (parse_request_line-LineOrdered lib errno) m,
    round_any-Ordered (response_args lib errno a) (parse_status_line-LineOrdered lib errno) m,
  )

  -- A request for which the parser returns 0 was parsed up to its body.
  pub http_parse_request-done :
      (fuel : ℕ) (m : State U W) {m' : State U W}
      → http_parse_request lib errno a fuel m ≡ return_ done m'
      → m'.ctx.parser_state ≡ ps_body
  unfolding http_parse_request
  http_parse_request-done =
      http_parse_message-done (request_args lib errno a) (parse_request_line-LineOrdered lib errno)
