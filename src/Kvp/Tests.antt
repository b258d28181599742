-- ===== src/Kvp/Tests.antt =====
-- Runs of the key-value parsers with strings as lists of bytes and the hash as a list of the pairs
-- set, the newest first.
use mnapp.Kvp.Defs.{MnHash, parse_kvp_body}
use mnapp.Kvp.Parse.{parse_kvp_body-pieces}
use mnapp.Kvp.Spec.{pieces, store_pieces}
use mnapp.Shared.{
  ◌≡◌, refl, sym, ◌∙◌, List, [], ◌∷◌, ◌++◌, Bytes, codes, length, take, take-append, take-length,
  arith,
}

abbrev Hash : Type 0
Hash = List (Bytes × Bytes)

abbrev plain : MnHash Bytes Hash
plain = record {
  new_from_str_len = λ t n. take n t;
  new_empty = [];
  hash_set_item = λ k v h. (k, v) ∷ h;
}

abbrev as_is : Bytes → Bytes
as_is b = b

abbrev query : Bytes
query = codes "a=1&b&=c&d=x=y"

query_pairs :
    parse_kvp_body plain as_is as_is b'=' b'&' (query ++ 0 ∷ []) []
    ≡ (codes "d", codes "x=y") ∷ (codes "b", []) ∷ (codes "a", codes "1") ∷ []
unfolding parse_kvp_body
query_pairs = refl

plain_prefix : (t u : Bytes) → take (length t) (t ++ u) ≡ take (length t) t
plain_prefix t u = take-append t u (length t) refl ∙ sym (take-length t)

parse_kvp_body-pieces_example :
    parse_kvp_body plain as_is as_is b'=' b'&' (query ++ 0 ∷ []) []
    ≡ store_pieces plain as_is as_is b'=' (pieces b'&' query) []
parse_kvp_body-pieces_example =
    parse_kvp_body-pieces plain as_is as_is b'=' b'&' plain_prefix refl query [] (omega arith)
