-- ===== src/Writer/Printed.antt =====
-- The sizes that are passed on have room for what is printed.
use mnapp.Shared.Int.{ℤ, pos, negsuc}
use mnapp.Shared.{
  ℕ, zero, suc, ◌+◌, ◌/◌, ◌%◌, ◌≤◌, ◌<◌, ◌≡◌, ◌≢◌, refl, ◌-◌, Bool, true, [], ◌∷◌, ◌++◌, arith,
  Bytes, if◌then◌else◌, codes, length, length-append,
}
use mnapp.Writer.Message.{
  decimal, format_d, crlf, http_start_request, http_start_response, http_add_header_field,
  http_end_of_header,
}
use mnapp.Writer.Output.{Output, Wrote, success}

-- A function that returns 0 has not failed, unless its code for that is 0.
pub or_code-written :
    (written : Bool) (code : Wrote)
    → code ≢ success
    → (if written then success else code) ≡ success
    → written ≡ true
or_code-written written code ne h = ground arith

length-decimal : (k n : ℕ) → length (decimal k n) ≤ k
unfolding decimal
length-decimal zero n = omega arith
length-decimal (suc k) n =
    let rest = length-append (decimal k (n / 10)) ((b'0' + n % 10) ∷ []) in
    ground (arith, length-decimal k (n / 10), rest)

length-format_d : (n : ℤ) → length (format_d n) ≤ 11
unfolding format_d
length-format_d (pos n) = omega (arith, length-decimal 10 n)
length-format_d (negsuc n) = omega (arith, length-decimal 10 (suc n))

-- A header field as it is printed.
unfoldable pub field_text : Bytes → Bytes → Bytes
field_text name value = name ++ (codes ": " ++ (value ++ crlf))

field_fits :
    (name value : Bytes) (sz : ℕ)
    → sz ≡ length name + length value + 4
    → length (field_text name value) < sz + (4096 - sz % 4096)
unfolding field_text
field_fits name value sz e =
    omega (arith, length-append name (codes ": " ++ (value ++ crlf)), length-append value crlf)

module _ {W : Type 0} (lib : Output W) where
  open lib use {contents, nprintf-contents}

  -- A header field that is added without an error is printed whole.
  pub http_add_header_field-contents :
      (out : W) (name value : Bytes)
      → (http_add_header_field lib out name value).ret ≡ success
      → contents (http_add_header_field lib out name value).out
        ≡ contents out ++ field_text name value
  unfolding http_add_header_field field_text
  http_add_header_field-contents out name value h =
      nprintf-contents out _ _ (field_fits name value _ refl) (or_code-written _ _ (cc) h)

  -- The first line of a request or a response that is printed without an error is printed whole.
  pub http_start_request-contents :
      (out : W) (method uri : Bytes)
      → (http_start_request lib out method uri).ret ≡ success
      → contents (http_start_request lib out method uri).out
        ≡ contents out ++ (method ++ (codes " " ++ (uri ++ (codes " HTTP/1.1" ++ crlf))))
  unfolding http_start_request
  http_start_request-contents out method uri h =
      nprintf-contents out _ _
        (omega (
          arith,
          length-append method (codes " " ++ (uri ++ (codes " HTTP/1.1" ++ crlf))),
          length-append uri (codes " HTTP/1.1" ++ crlf),
        ))
        (or_code-written _ _ (cc) h)

  pub http_start_response-contents :
      (out : W) (reason : ℤ) (phrase : Bytes)
      → (http_start_response lib out reason phrase).ret ≡ success
      → contents (http_start_response lib out reason phrase).out
        ≡ contents out
          ++ (codes "HTTP/1.1 " ++ (format_d reason ++ (codes " " ++ (phrase ++ crlf))))
  unfolding http_start_response
  http_start_response-contents out reason phrase h =
      nprintf-contents out _ _
        (omega (
          arith,
          length-format_d reason,
          length-append (format_d reason) (codes " " ++ (phrase ++ crlf)),
          length-append phrase crlf,
        ))
        (or_code-written _ _ (cc) h)

-- A stream that always has memory.
pub record IsReliable {W : Type 0} (lib : Output W) : Type 0 where
  pub nprintf-written :
      (w : W) (sz : ℕ) (t : Bytes) → length t < sz → (lib.nprintf w sz t).written ≡ true
  pub cat-written : (w : W) (t : Bytes) → (lib.cat w t).written ≡ true

module _ {W : Type 0} (lib : Output W) (reliable : IsReliable lib) where
  open lib use {contents, cat-contents}
  open reliable use {nprintf-written, cat-written}

  pub field-contents :
      (out : W) (name value : Bytes)
      → contents (http_add_header_field lib out name value).out
        ≡ contents out ++ field_text name value
  unfolding http_add_header_field field_text
  field-contents out name value =
      lib.nprintf-contents out _ _ (field_fits name value _ refl)
        (nprintf-written out _ _ (field_fits name value _ refl))

  pub http_end_of_header-contents :
      (out : W) → contents (http_end_of_header lib out).out ≡ contents out ++ crlf
  unfolding http_end_of_header
  http_end_of_header-contents out = cat-contents out crlf (cat-written out crlf)
