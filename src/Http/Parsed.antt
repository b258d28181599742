-- ===== src/Http/Parsed.antt =====
-- A header field in the stream is read as its name and its value.
use mnapp.Http.Body.{available, available_small}
use mnapp.Http.Ctx.{ps_header_field_in, Ctx, Stream}
use mnapp.Http.Field.{
  IsField, written_field, ended_field, value, line, length-line, findcrlf-available, memchr-line,
  set-name, set-line, findnosp-value, cstr-name, cstr-value, drop-ended, drop-set, drop-add,
}
use mnapp.Http.Message.{
  cstr, memchr, process_header, State, Args, call_cb, parse_header, parse_header_line,
}
use mnapp.Http.Scan.{findcrlf, findnosp}
use mnapp.Shared.Int.{move, pos, ◌+ℤ◌, sub_ℕ}
use mnapp.Shared.{
  ℕ, suc, ◌+◌, ◌-◌, ◌≤◌, ◌<◌, ◌^◌, ◌==◌, ◌≡◌, refl, ap, ◌∙◌, false, some, ◌∷◌, arith, Bytes, length,
  take, drop, set,
}

process_header-name :
    (c : Ctx) (s : Stream) → (process_header c s).current_header_name ≡ c.current_header_name
unfolding process_header
process_header-name c s = ground arith

process_header-value :
    (c : Ctx) (s : Stream) → (process_header c s).current_header_value ≡ c.current_header_value
unfolding process_header
process_header-value c s = ground arith

move-end : (at end : ℕ) → move at (sub_ℕ end at +ℤ pos 2) ≡ end + 2
unfolding ◌+ℤ◌
move-end at end = ground arith

module _ {U W : Type 0} (a : Args U W) (m : State U W) (name : Bytes) (first : ℕ)
    (tail rest : Bytes) (field : IsField name first tail) where
  start : ℕ
  start = m.ctx.current_header_name.start

  size : ℕ
  size = length (line name first tail rest field)

  -- The stream with both NULs.
  ended : Stream
  unfolding start size
  ended = record m.in_ { buffer = set (set m.in_.buffer (start + length name) 0) (start + size) 0 }

  -- The context that the callback sees.
  marked : Ctx
  unfolding start size ended
  marked =
      process_header
        (record m.ctx {
          current_header_name = record { start = start; end = start + length name };
          current_header_value = record { start = start + length name + 1 + 1; end = start + size };
        })
        ended

  -- What the callback is called on, and where the parser goes on.
  called : State U W
  unfolding marked ended
  called = record m { ctx = marked; in_ = ended }

  goes_on : State U W
  unfolding marked ended start size
  goes_on = record m {
    ctx = record marked { parser_state = ps_header_field_in };
    in_ = a.lib.advance ended (sub_ℕ (start + size) ended.at +ℤ pos 2);
  }

  module _
      (here : drop start m.in_.buffer
        ≡ written_field name (value name first tail rest field) rest) where
    drop-ended_stream :
        drop start ended.buffer ≡ ended_field name (value name first tail rest field) rest
    unfolding ended size
    drop-ended_stream =
        drop-set start size (start + size) (set m.in_.buffer (start + length name) 0) 0 refl
        ∙ ap (λ t. set t size 0)
            (drop-set start (length name) (start + length name) m.in_.buffer 0 refl
              ∙ ap (λ t. set t (length name) 0) here
              ∙ set-name name first tail rest field)
        ∙ set-line name first tail rest field

    scanned :
        findnosp (
          take
            (start + size - (start + length name + 1))
            (drop (start + length name + 1) (set m.in_.buffer (start + length name) 0)))
        ≡ some 1
    unfolding size
    scanned =
        let long : start + size - (start + length name + 1)
            ≡ 1 + length (value name first tail rest field) =
          omega (arith, length-line name first tail rest field) in
        rw (long) (
          ap (λ t. findnosp (take (1 + length (value name first tail rest field)) t))
            (drop-add start (length name + 1) (start + length name + 1)
                (set m.in_.buffer (start + length name) 0) (omega arith)
              ∙ ap (drop (length name + 1)) (
                  drop-set start (length name) (start + length name) m.in_.buffer 0 refl
                  ∙ ap (λ t. set t (length name) 0) here
                  ∙ set-name name first tail rest field))
          ∙ findnosp-value name first tail rest field)

    parse_header-call : parse_header a m start size ≡ call_cb a a.header_cb 11 called goes_on
    unfolding parse_header called goes_on marked ended
    parse_header-call =
        let found : memchr b':' (take size (drop start m.in_.buffer)) ≡ some (length name) =
          ap (λ t. memchr b':' (take size t)) here ∙ memchr-line name first tail rest field in
        rw (found, parse_header) (rw (scanned, parse_header) refl)

    parse_header_line-call :
        start + size + 2 ≤ m.in_.eod
        → m.in_.eod < 2 ^ 31
        → parse_header_line a m ≡ call_cb a a.header_cb 11 called goes_on
    unfolding parse_header_line start size
    parse_header_line-call whole small =
        let found : findcrlf (available m.in_ start) ≡ some size =
          ap findcrlf (available_small m.in_ start (omega (arith, whole)) small)
          ∙ ap (λ t. findcrlf (take (m.in_.eod - start) t)) here
          ∙ findcrlf-available name first tail rest field (m.in_.eod - start) (omega arith) in
        let some_line : (size == 0) ≡ false =
          ground (arith, length-line name first tail rest field) in
        rw (found, parse_header_line) (rw (some_line) parse_header-call)

    called-name : cstr (drop called.ctx.current_header_name.start called.in_.buffer) ≡ name
    unfolding called marked
    called-name =
        rw
          (process_header-name
            (record m.ctx {
              current_header_name = record { start = start; end = start + length name };
              current_header_value = record {
                start = start + length name + 1 + 1;
                end = start + size;
              };
            })
            ended)
          (ap cstr drop-ended_stream ∙ cstr-name name first tail rest field)

    called-value :
        cstr (drop called.ctx.current_header_value.start called.in_.buffer)
        ≡ value name first tail rest field
    unfolding called marked
    called-value =
        rw
          (process_header-value
            (record m.ctx {
              current_header_name = record { start = start; end = start + length name };
              current_header_value = record {
                start = start + length name + 1 + 1;
                end = start + size;
              };
            })
            ended)
          (ap cstr (
              drop-add start (length name + 2) (start + length name + 1 + 1) ended.buffer
                (omega arith)
              ∙ ap (drop (length name + 2)) drop-ended_stream)
            ∙ cstr-value name first tail rest field)

    goes_on-rest : drop goes_on.in_.at goes_on.in_.buffer ≡ rest
    unfolding goes_on size
    goes_on-rest =
        let moved = move-end ended.at (start + size) in
        let advanced = a.lib.advance_lem ended (sub_ℕ (start + size) ended.at +ℤ pos 2) in
        ap (λ (s : Stream). drop s.at s.buffer) advanced
        ∙ ap (λ i. drop i ended.buffer) moved
        ∙ drop-add start (size + 2) (start + size + 2) ended.buffer (omega arith)
        ∙ ap (drop (size + 2)) drop-ended_stream
        ∙ drop-ended name first tail rest field

    goes_on-at : goes_on.in_.at ≡ start + length name + suc (length tail) + 4
    unfolding goes_on size value
    goes_on-at =
        let advanced = a.lib.advance_lem ended (sub_ℕ (start + size) ended.at +ℤ pos 2) in
        ap (λ (s : Stream). s.at) advanced
        ∙ move-end ended.at (start + size)
        ∙ omega (arith, length-line name first tail rest field)

    goes_on-eod : goes_on.in_.eod ≡ m.in_.eod
    unfolding goes_on ended
    goes_on-eod =
        ap (λ (s : Stream). s.eod)
          (a.lib.advance_lem ended (sub_ℕ (start + size) ended.at +ℤ pos 2))

-- What a header field that is read makes: the call of `header_cb` with the name and the value, and the
-- parser at what follows.
pub record IsRead {U W : Type 0} (a : Args U W) (m : State U W) (name val rest : Bytes)
    : Type 0 where
  pub seen : State U W
  pub next : State U W
  pub result : parse_header_line a m ≡ call_cb a a.header_cb 11 seen next
  pub name_is : cstr (drop seen.ctx.current_header_name.start seen.in_.buffer) ≡ name
  pub value_is : cstr (drop seen.ctx.current_header_value.start seen.in_.buffer) ≡ val
  pub state_is : next.ctx.parser_state ≡ ps_header_field_in
  pub at_rest : drop next.in_.at next.in_.buffer ≡ rest
  pub seen_udata : seen.udata ≡ m.udata
  pub next_at : next.in_.at ≡ m.ctx.current_header_name.start + length name + length val + 4
  pub next_eod : next.in_.eod ≡ m.in_.eod

pub parse_header_line-IsRead :
    {U W : Type 0} (a : Args U W) (m : State U W) (name : Bytes) (first : ℕ) (tail rest : Bytes)
    → IsField name first tail
    → drop m.ctx.current_header_name.start m.in_.buffer ≡ written_field name (first ∷ tail) rest
    → m.ctx.current_header_name.start + length name + length tail + 5 ≤ m.in_.eod
    → m.in_.eod < 2 ^ 31
    → IsRead a m name (first ∷ tail) rest
unfolding start size value goes_on called
parse_header_line-IsRead a m name first tail rest field here whole small =
    let long = length-line name first tail rest field in
    record {
      seen = called a m name first tail rest field;
      next = goes_on a m name first tail rest field;
      result =
          parse_header_line-call a m name first tail rest field here (omega (arith, whole, long))
            small;
      name_is = called-name a m name first tail rest field here;
      value_is = called-value a m name first tail rest field here;
      state_is = refl;
      at_rest = goes_on-rest a m name first tail rest field here;
      seen_udata = refl;
      next_at = goes_on-at a m name first tail rest field here;
      next_eod = goes_on-eod a m name first tail rest field here;
    }
