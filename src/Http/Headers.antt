-- ===== src/Http/Headers.antt =====
-- A header in the stream is read field by field.
use mnapp.Http.Body.{Callback}
use mnapp.Http.Ctx.{ps_header_field_in, ps_header_field_out, Ctx, Stream}
use mnapp.Http.Field.{IsField, written_field}
use mnapp.Http.Message.{
  cstr, State, continue_, resume, Args, call_cb, parse_header_line, dispatch, round,
  http_parse_message,
}
use mnapp.Http.Parsed.{parse_header_line-IsRead}
use mnapp.Shared.{
  ℕ, suc, ◌+◌, ◌*◌, ◌^◌, ◌<◌, ◌≤◌, ◌≡◌, refl, ap, ◌∙◌, false, Option, some, List, [], ◌∷◌, ◌++◌,
  map, arith, Bytes, All, length, length-append, drop,
}

-- A name, and a value that is not empty.
pub record Field : Type 0 where
  pub name : Bytes
  pub first : ℕ
  pub tail : Bytes

abbrev pub pair : Field → Bytes × Bytes
pair f = (f.name, f.first ∷ f.tail)

-- The fields as they are written, with what follows.
abbrev pub header_text : List Field → Bytes → Bytes
header_text [] rest = rest
header_text (f ∷ fs) rest = written_field f.name (f.first ∷ f.tail) (header_text fs rest)

-- The name and the value that a callback sees.
unfoldable pub seen_pair : Ctx × Stream → Bytes × Bytes
seen_pair (c, s) = (
  cstr (drop c.current_header_name.start s.buffer),
  cstr (drop c.current_header_value.start s.buffer),
)

-- The callback, called for one field after the other.
abbrev pub run_cb : {U : Type 0} → Callback U → List (Ctx × Stream) → U → U
run_cb cb [] u = u
run_cb cb ((c, s) ∷ seen) u = run_cb cb seen (cb c s u).udata

length-written_field :
    (name val rest : Bytes)
    → length (written_field name val rest) ≡ length name + length val + 4 + length rest
unfolding written_field
length-written_field name val rest = omega (
  arith,
  length-append name (b':' ∷ b' ' ∷ (val ++ (b'\r' ∷ b'\n' ∷ rest))),
  length-append val (b'\r' ∷ b'\n' ∷ rest),
)

zero-rounds : (fuel : ℕ) → 2 * 0 + fuel ≡ fuel
zero-rounds fuel = omega arith

suc-rounds : (n fuel : ℕ) → 2 * suc n + fuel ≡ suc (suc (2 * n + fuel))
suc-rounds n fuel = omega arith

module _ {U W : Type 0} (a : Args U W) (cb : Callback U) where
  -- The callback never fails, and the stream needs no more data while there is some.
  pub record IsReady : Type 0 where
    pub called : a.header_cb ≡ some cb
    pub cb_works : (c : Ctx) (s : Stream) (u : U) → (cb c s u).failed ≡ false
    pub has_data : (s : Stream) → s.at < s.eod → a.lib.is_needmore s ≡ false

  -- The parser at a header line that holds `text`.
  pub record StandsAt (text : Bytes) (m : State U W) : Type 0 where
    pub state_is : m.ctx.parser_state ≡ ps_header_field_in
    pub holds : drop m.in_.at m.in_.buffer ≡ text
    pub within : m.in_.at + length text ≤ m.in_.eod
    pub small : m.in_.eod < 2 ^ 31

  module _ (ready : IsReady) where
    open ready use {called, cb_works, has_data}

    call_cb-works :
        (o : Option (Callback U)) (seen next : State U W)
        → o ≡ some cb
        → call_cb a o 11 seen next
          ≡ continue_ (record next { udata = (cb seen.ctx seen.in_ seen.udata).udata })
    call_cb-works o seen next e = rw (e) (rw (cb_works seen.ctx seen.in_ seen.udata) refl)

    -- The first of two rounds marks the start of the line.
    at_line : State U W → State U W
    at_line m = record m {
      ctx = record m.ctx {
        current_header_name = record { start = m.in_.at; end = m.ctx.current_header_name.end };
        parser_state = ps_header_field_out;
      };
    }

    round-at_line :
        (m : State U W)
        → m.ctx.parser_state ≡ ps_header_field_in
        → m.in_.at < m.in_.eod
        → round a m ≡ continue_ (at_line m)
    unfolding round dispatch at_line
    round-at_line m e h = rw (has_data m.in_ h) (rw (e) refl)

    round-line :
        (m : State U W)
        → m.in_.at < m.in_.eod
        → round a (at_line m) ≡ parse_header_line a (at_line m)
    unfolding round dispatch at_line
    round-line m h = rw (has_data m.in_ h) refl

    -- Two rounds read a field.
    record ReadsField (f : Field) (rest : Bytes) (m : State U W) : Type 0 where
      seen : Ctx × Stream
      after : State U W
      pair_is : seen_pair seen ≡ pair f
      udata_is : after.udata ≡ (cb seen.0 seen.1 m.udata).udata
      stands : StandsAt rest after
      two_rounds :
          (fuel : ℕ) → http_parse_message a (suc (suc fuel)) m ≡ http_parse_message a fuel after

    reads_field :
        (f : Field) (rest : Bytes) (m : State U W)
        → IsField f.name f.first f.tail
        → StandsAt (written_field f.name (f.first ∷ f.tail) rest) m
        → ReadsField f rest m
    unfolding at_line seen_pair http_parse_message
    reads_field f rest m field at =
        let long = length-written_field f.name (f.first ∷ f.tail) rest in
        let more : m.in_.at < m.in_.eod = omega (arith, at.within, long, field.not_empty) in
        let read =
          parse_header_line-IsRead a (at_line m) f.name f.first f.tail rest field at.holds
            (omega (arith, at.within, long)) at.small in
        let told = cb read.seen.ctx read.seen.in_ read.seen.udata in
        record {
          seen = (read.seen.ctx, read.seen.in_);
          after = record read.next { udata = told.udata };
          pair_is = λ i. (read.name_is i, read.value_is i);
          udata_is = ap (λ u. (cb read.seen.ctx read.seen.in_ u).udata) read.seen_udata;
          stands = record {
            state_is = read.state_is;
            holds = read.at_rest;
            within = omega (arith, at.within, long, read.next_at, read.next_eod);
            small = omega (arith, at.small, read.next_eod);
          };
          two_rounds = λ fuel.
              ap (resume (http_parse_message a (suc fuel))) (round-at_line m at.state_is more)
              ∙ ap (resume (http_parse_message a fuel)) (
                  round-line m more
                  ∙ read.result
                  ∙ call_cb-works a.header_cb read.seen read.next called);
        }

    -- Two rounds for each field read the header.
    pub record ReadsHeader (fs : List Field) (rest : Bytes) (m : State U W) : Type 0 where
      pub seen : List (Ctx × Stream)
      pub after : State U W
      pub pairs_are : map seen_pair seen ≡ map pair fs
      pub udata_is : after.udata ≡ run_cb cb seen m.udata
      pub stands : StandsAt rest after
      pub rounds :
          (fuel : ℕ)
          → http_parse_message a (2 * length fs + fuel) m ≡ http_parse_message a fuel after

    pub reads_header :
        (fs : List Field) (rest : Bytes) (m : State U W)
        → All (λ (f : Field). IsField f.name f.first f.tail) fs
        → StandsAt (header_text fs rest) m
        → ReadsHeader fs rest m
    reads_header [] rest m fields at = record {
      seen = [];
      after = m;
      pairs_are = refl;
      udata_is = refl;
      stands = at;
      rounds = λ fuel. rw (zero-rounds fuel) refl;
    }
    reads_header (f ∷ fs) rest m (field, fields) at =
        let one = reads_field f (header_text fs rest) m field at in
        let more = reads_header fs rest one.after fields one.stands in
        record {
          seen = one.seen ∷ more.seen;
          after = more.after;
          pairs_are = λ i. one.pair_is i ∷ more.pairs_are i;
          udata_is = more.udata_is ∙ ap (run_cb cb more.seen) one.udata_is;
          stands = more.stands;
          rounds = λ fuel.
              rw (suc-rounds (length fs) fuel)
                (one.two_rounds (2 * length fs + fuel) ∙ more.rounds fuel);
        }
