-- ===== src/Writer/RoundTrip.antt =====
-- Header fields that are printed are read back by the parser.
use mnapp.Http.Field.{IsField, written_field}
use mnapp.Http.Headers.{Field, header_text}
use mnapp.Http.Message.{Args, State}
use mnapp.Http.Parsed.{IsRead, parse_header_line-IsRead}
use mnapp.Shared.{
  ℕ, ◌+◌, ◌<◌, ◌^◌, ◌≤◌, ◌≡◌, refl, ap, ◌∙◌, List, [], ◌∷◌, ◌++◌, Bytes, codes, length, drop,
  drop-append, append_assoc,
}
use mnapp.Writer.Message.{crlf, http_add_header_field}
use mnapp.Writer.Output.{Output, success}
use mnapp.Writer.Printed.{IsReliable, field_text, field-contents, http_add_header_field-contents}

pub field_text-written :
    (name value rest : Bytes) → field_text name value ++ rest ≡ written_field name value rest
unfolding field_text written_field
field_text-written name value rest =
    append_assoc name (codes ": " ++ (value ++ crlf)) rest
    ∙ ap (λ t. name ++ (codes ": " ++ t)) (append_assoc value crlf rest)

-- What http_add_header_field prints.
unfoldable pub printed_field : {S : Type 0} → Output S → S → Bytes → Bytes → Bytes
printed_field lib out name value =
    drop (length (lib.contents out)) (lib.contents (http_add_header_field lib out name value).out)

module _ {U W S : Type 0} (lib : Output S) (a : Args U W) where
  open lib use {contents}

  -- The field has a name and a value that are not empty and hold no NUL and no CR; the name holds no
  -- colon, and the value does not start with a space or a tab. Where the stream of the parser, which is
  -- at the start of a header line and has less than 2 ^ 31 bytes, holds such a field that
  -- http_add_header_field printed without an error, the parser calls header_cb with the name and the
  -- value that were printed, and goes on with what follows the field.
  pub http_add_header_field-IsRead :
      (out : S) (m : State U W) (name : Bytes) (first : ℕ) (tail rest : Bytes)
      → IsField name first tail
      → (http_add_header_field lib out name (first ∷ tail)).ret ≡ success
      → drop m.ctx.current_header_name.start m.in_.buffer
        ≡ printed_field lib out name (first ∷ tail) ++ rest
      → m.ctx.current_header_name.start + length name + length tail + 5 ≤ m.in_.eod
      → m.in_.eod < 2 ^ 31
      → IsRead a m name (first ∷ tail) rest
  unfolding printed_field
  http_add_header_field-IsRead out m name first tail rest field ok here whole small =
      let text = field_text name (first ∷ tail) in
      let printed = http_add_header_field-contents lib out name (first ∷ tail) ok in
      parse_header_line-IsRead a m name first tail rest field
        (here
          ∙ ap (λ t. drop (length (contents out)) t ++ rest) printed
          ∙ ap (λ t. t ++ rest) (drop-append (contents out) text (length (contents out)) refl)
          ∙ field_text-written name (first ∷ tail) rest)
        whole small

-- The fields, printed one behind the other.
unfoldable pub print_fields : {S : Type 0} → Output S → S → List Field → S
print_fields lib out [] = out
print_fields lib out (f ∷ fs) =
    print_fields lib (http_add_header_field lib out f.name (f.first ∷ f.tail)).out fs

pub print_fields-contents :
    {S : Type 0} (lib : Output S) (reliable : IsReliable lib) (fs : List Field) (out : S)
    (rest : Bytes)
    → lib.contents (print_fields lib out fs) ++ rest ≡ lib.contents out ++ header_text fs rest
unfolding print_fields
print_fields-contents lib reliable [] out rest = refl
print_fields-contents lib reliable (f ∷ fs) out rest =
    let val = f.first ∷ f.tail in
    let next = (http_add_header_field lib out f.name val).out in
    print_fields-contents lib reliable fs next rest
    ∙ ap (λ t. t ++ header_text fs rest) (field-contents lib reliable out f.name val)
    ∙ append_assoc (lib.contents out) (field_text f.name val) (header_text fs rest)
    ∙ ap (λ t. lib.contents out ++ t) (field_text-written f.name val (header_text fs rest))
