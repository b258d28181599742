-- ===== src/Url/Tests.antt =====
-- Runs of the percent coding, and its theorems at concrete inputs.
use mnapp.Shared.{◌+◌, ◌≡◌, refl, some, none, [], ◌∷◌, ◌++◌, arith, Bytes, codes, length, replicate}
use mnapp.Url.Decode.{http_urldecode}
use mnapp.Url.Encode.{http_urlencode_reserved}
use mnapp.Url.RoundTrip.{urldecode-urlencode}
use mnapp.Url.Spec.{encoded}
use mnapp.Url.Table.{is_unreserved, is_copied, is_unreserved-is_copied}
use mnapp.Url.Written.{http_urlencode_reserved-encoded}

abbrev block : Bytes
block = replicate 10 7

-- A digit is coded too.
encode_runs : http_urlencode_reserved block (codes "a 1") ≡ codes "a%20%31" ++ (0 ∷ 7 ∷ 7 ∷ [])
unfolding http_urlencode_reserved
encode_runs = refl

decode_runs :
    http_urldecode (codes "a%2fb" ++ (0 ∷ []))
    ≡ record { memory = codes "a/bfb" ++ (0 ∷ []); end = some 3 }
unfolding http_urldecode
decode_runs = refl

decode_fails : (http_urldecode (codes "a%2" ++ (0 ∷ []))).end ≡ none
unfolding http_urldecode
decode_fails = refl

urldecode-urlencode_example :
    (rest : Bytes) × ((http_urldecode (http_urlencode_reserved block (codes "a 1"))).memory
      ≡ codes "a 1" ++ rest)
    × ((http_urldecode (http_urlencode_reserved block (codes "a 1"))).end ≡ some 3)
urldecode-urlencode_example =
    urldecode-urlencode block (codes "a 1") (omega arith) (omega arith) (omega arith)

http_urlencode_reserved-encoded_example :
    (rest : Bytes) × (http_urlencode_reserved block (codes "a 1")
      ≡ encoded (codes "a 1") ++ (0 ∷ rest))
    × (length (encoded (codes "a 1")) + length rest ≡ 9)
http_urlencode_reserved-encoded_example =
    http_urlencode_reserved-encoded block (codes "a 1") (omega arith) (omega arith) (omega arith)

is_unreserved-is_copied_example : is_unreserved b'7' ≡ is_copied b'7'
is_unreserved-is_copied_example = is_unreserved-is_copied b'7' (omega arith)
