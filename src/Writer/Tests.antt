-- ===== src/Writer/Tests.antt =====
-- Printed messages over plain byte strings, and the theorems at concrete inputs.
use mnapp.Shared.Int.{pos}
use mnapp.Shared.Plain.{plain}
use mnapp.Shared.{
  ◌+◌, ◌<◌, ◌≡◌, refl, some, [], ◌∷◌, ◌++◌, arith, All, All-append, Bytes, codes, length,
}
use mnapp.Uri.Defs.{Uri, mnhttp_uri_init}
use mnapp.Writer.Message.{format_d, crlf, http_start_response, http_add_header_field}
use mnapp.Writer.Output.{success}
use mnapp.Writer.Plain.{Pairs, printed, stream, terms}
use mnapp.Writer.Printed.{field_text, http_add_header_field-contents, http_start_response-contents}
use mnapp.Writer.Query.{query_text, mnhttp_uri_start_request-contents}
use mnapp.Writer.Terms.{EncodeLaws, IsRoomy, coded_query, mnhttp_uri_add_qterm-IsRoomy}
use mnapp.Writer.Uri.{mnhttp_uri_start_request, mnhttp_uri_add_qterm}

set_item-All :
    (P : Bytes → Type 0) (k v : Bytes) (h : Pairs)
    → All (λ (p : Bytes × Bytes). P p.0 × P p.1) h
    → P k
    → P v
    → All (λ (p : Bytes × Bytes). P p.0 × P p.1) (h ++ (k, v) ∷ [])
set_item-All P k v h all pk pv =
    All-append (λ (p : Bytes × Bytes). P p.0 × P p.1) h ((k, v) ∷ []) all ((pk, pv), tt)

abbrev uri : Uri Bytes Pairs
uri = record (mnhttp_uri_init []) { relative = some (codes "/a?x=1"); qstring = some (codes "x=1") }

-- With a query string of its own, the first term is printed right behind it.
abbrev asked : Uri Bytes Pairs
asked =
    mnhttp_uri_add_qterm terms (mnhttp_uri_add_qterm terms uri (codes "b") (codes "2")) (codes "c")
      (codes "3")

request_printed :
    mnhttp_uri_start_request plain terms stream asked [] (codes "GET")
    ≡ some (record { ret = success; out = codes "GET /a?x=1b=2&c=3 HTTP/1.1" ++ crlf })
unfolding mnhttp_uri_start_request printed mnhttp_uri_add_qterm
request_printed = refl

response_printed :
    (http_start_response stream [] (pos 404) (codes "Not Found")).out
    ≡ codes "HTTP/1.1 404 Not Found" ++ crlf
unfolding http_start_response printed
response_printed = refl

field_success : (http_add_header_field stream [] (codes "Host") (codes "a:80")).ret ≡ success
unfolding http_add_header_field printed
field_success = refl

http_add_header_field-contents_example :
    (http_add_header_field stream [] (codes "Host") (codes "a:80")).out
    ≡ [] ++ field_text (codes "Host") (codes "a:80")
http_add_header_field-contents_example =
    http_add_header_field-contents stream [] (codes "Host") (codes "a:80") field_success

response_success : (http_start_response stream [] (pos 404) (codes "Not Found")).ret ≡ success
unfolding http_start_response printed
response_success = refl

http_start_response-contents_example :
    (http_start_response stream [] (pos 404) (codes "Not Found")).out
    ≡ []
      ++ (codes "HTTP/1.1 " ++ (format_d (pos 404) ++ (codes " " ++ (codes "Not Found" ++ crlf))))
http_start_response-contents_example =
    http_start_response-contents stream [] (pos 404) (codes "Not Found") response_success

asked_relative : asked.relative ≡ some (codes "/a?x=1")
unfolding mnhttp_uri_add_qterm
asked_relative = refl

bsz_lem : (b : Bytes) → length b < length b + 1
bsz_lem b = omega arith

mnhttp_uri_start_request-contents_example :
    codes "GET /a?x=1b=2&c=3 HTTP/1.1" ++ crlf
    ≡ []
      ++ (codes "GET"
          ++ (codes " "
              ++ (codes "/a?x=1"
                  ++ (query_text plain terms stream asked
                        (codes "/a?x=1")
                        (terms.items asked.qterms)
                      ++ (codes " HTTP/1.1" ++ crlf)))))
mnhttp_uri_start_request-contents_example =
    mnhttp_uri_start_request-contents plain terms stream bsz_lem asked (codes "/a?x=1")
      (codes "GET") [] (record { ret = success; out = codes "GET /a?x=1b=2&c=3 HTTP/1.1" ++ crlf })
      asked_relative request_printed refl

abbrev encode_laws : EncodeLaws plain terms
encode_laws = record {
  percent = λ b. b;
  urlencode2-percent = λ n b h. refl;
  bsz_lem = bsz_lem;
  set_item-All = set_item-All;
}

abbrev one_term : Uri Bytes Pairs
one_term = record uri { qterms = (codes "b", codes "2") ∷ []; qtermsz = 4 }

one_term-IsRoomy : IsRoomy plain terms encode_laws one_term
one_term-IsRoomy = ((omega arith, omega arith), tt)

two_printed :
    mnhttp_uri_start_request plain terms stream
      (mnhttp_uri_add_qterm terms one_term (codes "c") (codes "3"))
      []
      (codes "GET")
    ≡ some (record { ret = success; out = codes "GET /a?x=1b=2&c=3 HTTP/1.1" ++ crlf })
unfolding mnhttp_uri_start_request printed mnhttp_uri_add_qterm
two_printed = refl

mnhttp_uri_add_qterm-IsRoomy_example :
    IsRoomy plain terms encode_laws (mnhttp_uri_add_qterm terms one_term (codes "c") (codes "3"))
    × (codes "GET /a?x=1b=2&c=3 HTTP/1.1" ++ crlf
        ≡ []
          ++ (codes "GET"
              ++ (codes " "
                  ++ (codes "/a?x=1"
                      ++ (coded_query plain terms encode_laws stream one_term.qstring
                            (codes "/a?x=1")
                            (terms.items
                              (terms.hash_set_item (codes "c") (codes "3") one_term.qterms))
                          ++ (codes " HTTP/1.1" ++ crlf))))))
mnhttp_uri_add_qterm-IsRoomy_example =
    mnhttp_uri_add_qterm-IsRoomy plain terms encode_laws stream one_term (codes "c") (codes "3")
      (codes "/a?x=1") (codes "GET") []
      (record { ret = success; out = codes "GET /a?x=1b=2&c=3 HTTP/1.1" ++ crlf }) one_term-IsRoomy
      refl two_printed refl
