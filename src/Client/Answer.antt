-- ===== src/Client/Answer.antt =====
-- The header of a response, from the server's printing to the client's request.
use mnapp.Client.Headers.{HashLaws, first_value, name_of, value_of, call_all, call_all-or_else}
use mnapp.Client.Request.{Hash, Request, mnhttpc_request_in_header, mnhttpc_response_header_cb}
use mnapp.Client.Workers.{Peer, present, absent, crashed, on_peer, Receiver, parse_args}
use mnapp.Http.Body.{Callback}
use mnapp.Http.Ctx.{Ctx, Stream}
use mnapp.Http.Field.{IsField}
use mnapp.Http.Headers.{
  Field, pair, header_text, seen_pair, run_cb, IsReady, StandsAt, reads_header,
}
use mnapp.Http.Message.{Args, State, response_args, http_parse_response}
use mathlib.Core.Path.{subst}
use mnapp.Shared.MnBytes.{MnBytes}
use mnapp.Shared.{
  ℕ, ◌+◌, ◌*◌, ◌<◌, ◌≡◌, refl, ap, ◌∙◌, false, Option, none, some, List, [], ◌∷◌, ◌++◌, map,
  if◌then◌else◌, arith, Bytes, All, length, drop, drop-append, or_else,
}
use mnapp.Writer.Output.{Output}
use mnapp.Writer.Printed.{IsReliable}
use mnapp.Writer.RoundTrip.{print_fields, print_fields-contents}

module _ {B : Type 0} (strings : MnBytes B) (set_lower : B → B) where
  open strings use {from_str, cmp_eq}

  -- The value of the first field whose name in lower case is `k`.
  unfoldable pub first_field : B → List (Bytes × Bytes) → Option B
  first_field k [] = none
  first_field k ((name, value) ∷ fields) =
      if cmp_eq (some (set_lower (from_str name))) k
      then some (from_str value)
      else first_field k fields

  first_value-seen :
      (k : B) (seen : List (Ctx × Stream))
      → first_value strings set_lower k seen ≡ first_field k (map seen_pair seen)
  unfolding first_value name_of value_of first_field seen_pair
  first_value-seen k [] = refl
  first_value-seen k ((c, s) ∷ seen) = rw (first_value-seen k seen) refl

module _ {B H F D : Type 0} (hash : Hash B H) (strings : MnBytes B) (laws : HashLaws strings hash)
    (set_lower : B → B) where
  header_cb_works :
      (c : Ctx) (s : Stream) (req : Request B H Stream F D)
      → (mnhttpc_response_header_cb hash strings set_lower c s req).failed ≡ false
  unfolding mnhttpc_response_header_cb
  header_cb_works c s req = ground arith

  on_peer_works :
      (c : Ctx) (s : Stream) (u : Peer (Request B H Stream F D))
      → (on_peer (mnhttpc_response_header_cb hash strings set_lower) c s u).failed ≡ false
  unfolding on_peer
  on_peer_works c s absent = refl
  on_peer_works c s crashed = refl
  on_peer_works c s (present req) = header_cb_works c s req

  run_cb-present :
      (seen : List (Ctx × Stream)) (req : Request B H Stream F D)
      → run_cb (on_peer (mnhttpc_response_header_cb hash strings set_lower)) seen (present req)
        ≡ present (call_all strings hash laws set_lower seen req)
  unfolding on_peer call_all
  run_cb-present [] req = refl
  run_cb-present ((c, s) ∷ seen) req =
      run_cb-present seen (mnhttpc_response_header_cb hash strings set_lower c s req).udata

module _ {B H F D W S : Type 0} (r : Receiver B H Stream F D W) (laws : HashLaws r.strings r.hash)
    (has_data : (s : Stream) → s.at < s.eod → r.lib.is_needmore s ≡ false) (lib : Output S)
    (reliable : IsReliable lib) where
  open r use {strings, hash, set_lower}

  -- The parser behind the header, and the request that it has answered.
  pub record IsAnswered (in_body_cb : Option F) (fs : List Field) (rest : Bytes)
      (req : Request B H Stream F D) (m : State (Peer (Request B H Stream F D)) W) : Type 0 where
    pub after : State (Peer (Request B H Stream F D)) W
    pub answered : Request B H Stream F D
    pub rounds :
        (fuel : ℕ)
        → http_parse_response r.lib r.errno (parse_args r in_body_cb) (2 * length fs + fuel) m
          ≡ http_parse_response r.lib r.errno (parse_args r in_body_cb) fuel after
    pub behind : drop after.in_.at after.in_.buffer ≡ rest
    pub udata_is : after.udata ≡ present answered
    pub fields :
        (k : B)
        → mnhttpc_request_in_header hash answered k
          ≡ or_else
              (mnhttpc_request_in_header hash req k)
              (first_field strings set_lower k (map pair fs))

  -- The arguments of the parser, and its callback on a header field.
  abbrev args_of : Option F → Args (Peer (Request B H Stream F D)) W
  args_of in_body_cb = response_args r.lib r.errno (parse_args r in_body_cb)

  abbrev pub told : Callback (Peer (Request B H Stream F D))
  told = on_peer (mnhttpc_response_header_cb hash strings set_lower)

  args_of-IsReady : (in_body_cb : Option F) → IsReady (args_of in_body_cb) told
  unfolding parse_args
  args_of-IsReady in_body_cb = record {
    called = refl;
    cb_works = on_peer_works hash strings laws set_lower;
    has_data = has_data;
  }

  printed_header :
      (fs : List Field) (out : S) (rest : Bytes)
      → drop (length (lib.contents out)) (lib.contents (print_fields lib out fs) ++ rest)
        ≡ header_text fs rest
  printed_header fs out rest =
      ap (drop (length (lib.contents out))) (print_fields-contents lib reliable fs out rest)
      ∙ drop-append (lib.contents out) (header_text fs rest) (length (lib.contents out)) refl

  -- The stream that is printed to takes all that fits its size, the stream of the parser asks for no
  -- more data while it has some, and the hash compares keys by their bytes.
  -- The fields have names and values that are not empty and hold no NUL and no CR; no name holds a
  -- colon, and no value starts with a space or a tab. Where the parser of responses stands, in a stream
  -- of less than 2 ^ 31 bytes, at such fields that http_add_header_field printed, two rounds for each
  -- bring it behind them, and the request of the parse has then, for every key, the value it had, or
  -- else that of the first field of which the name in lower case is the key.
  pub http_parse_response-IsAnswered :
      (in_body_cb : Option F) (fs : List Field) (out : S) (rest : Bytes)
      (req : Request B H Stream F D) (m : State (Peer (Request B H Stream F D)) W)
      → All (λ (f : Field). IsField f.name f.first f.tail) fs
      → m.udata ≡ present req
      → StandsAt
          (response_args r.lib r.errno (parse_args r in_body_cb))
          told
          (drop (length (lib.contents out)) (lib.contents (print_fields lib out fs) ++ rest))
          m
      → IsAnswered in_body_cb fs rest req m
  unfolding http_parse_response mnhttpc_request_in_header
  http_parse_response-IsAnswered in_body_cb fs out rest req m good given at =
      let here =
        subst (λ t. StandsAt (args_of in_body_cb) told t m) (printed_header fs out rest) at in
      let read =
        reads_header (args_of in_body_cb) told (args_of-IsReady in_body_cb) fs rest m good here in
      let answered = call_all strings hash laws set_lower read.seen req in
      record {
        after = read.after;
        answered = answered;
        rounds = read.rounds;
        behind = read.stands.holds;
        udata_is =
            read.udata_is
            ∙ ap (run_cb told read.seen) given
            ∙ run_cb-present hash strings laws set_lower read.seen req;
        fields = λ k.
            call_all-or_else strings hash laws set_lower k read.seen req
            ∙ ap (or_else (hash.hash_get_item k req.response.headers)) (
                first_value-seen strings set_lower k read.seen
                ∙ ap (first_field strings set_lower k) read.pairs_are);
      }
