-- ===== src/Writer/Message.antt =====
-- src/mnhttp.c: `http_start_request` to `http_add_body`.
use mnapp.Shared.Int.{ℤ, pos, negsuc}
use mnapp.Shared.MnBytes.{MnBytes}
use mnapp.Shared.{
  ℕ, zero, suc, ◌+◌, ◌-◌, ◌/◌, ◌%◌, [], ◌∷◌, ◌++◌, if◌then◌else◌, ltb, Bytes, codes, length,
}
use mnapp.Writer.Output.{
  Output, Sent, start_request, start_response, add_header_field, end_of_header, add_body, or_code,
}

-- The digits of a number in base 10, at most as many as the first argument says.
unfoldable pub decimal : ℕ → ℕ → Bytes
decimal zero n = []
decimal (suc k) n =
    let rest = decimal k (n / 10) ++ (b'0' + n % 10) ∷ [] in
    if ltb n 10 then (b'0' + n) ∷ [] else rest

-- `%d` of an `int`, which has ten digits at most
unfoldable pub format_d : ℤ → Bytes
unfolding decimal
format_d (pos n) = decimal 10 n
format_d (negsuc n) = b'-' ∷ decimal 10 (suc n)

abbrev pub crlf : Bytes
crlf = 13 ∷ 10 ∷ []

module _ {W : Type 0} (lib : Output W) where
  open lib use {nprintf, cat}

  unfoldable pub http_start_request : W → Bytes → Bytes → Sent W
  http_start_request out method uri =
      let sz = length method + length uri + 16 in
      or_code (nprintf out sz (method ++ (codes " " ++ (uri ++ (codes " HTTP/1.1" ++ crlf)))))
        (start_request 1)

  unfoldable pub http_start_response : W → ℤ → Bytes → Sent W
  unfolding format_d
  http_start_response out reason phrase =
      let sz = length phrase + 32 in
      or_code
        (nprintf out sz (codes "HTTP/1.1 " ++ (format_d reason ++ (codes " " ++ (phrase ++ crlf)))))
        (start_response 1)

  unfoldable pub http_add_header_field : W → Bytes → Bytes → Sent W
  http_add_header_field out name value =
      let sz = length name + length value + 4 in
      or_code (nprintf out (sz + (4096 - sz % 4096)) (name ++ (codes ": " ++ (value ++ crlf))))
        (add_header_field 1)

  unfoldable pub http_end_of_header : W → Sent W
  http_end_of_header out = or_code (cat out crlf) (end_of_header 1)

  -- `body` is the `sz` bytes at the pointer.
  unfoldable pub http_add_body : W → Bytes → Sent W
  http_add_body out body = or_code (cat out body) (add_body 1)

  module _ {B : Type 0} (strings : MnBytes B) where
    open strings use {from_str, from_str_len, cdata}

    -- `text` is what `fmt` makes of the arguments, of which `bytes_vprintf` makes a string.
    unfoldable pub http_field_addf : W → B → Bytes → Sent W
    unfolding http_add_header_field
    http_field_addf out name text = http_add_header_field out (cdata name) (cdata (from_str text))

    unfoldable pub http_field_addb : W → B → B → Sent W
    unfolding http_add_header_field
    http_field_addb out name value = http_add_header_field out (cdata name) (cdata value)

    -- `date` stands for `gmtime` and `strftime` with the format of the code: the text in `buf`.
    unfoldable pub http_field_addt : (ℤ → Bytes) → W → B → ℤ → Sent W
    unfolding http_add_header_field
    http_field_addt date out name t =
        let buf = date t in
        http_add_header_field out (cdata name) (cdata (from_str_len buf (length buf)))
