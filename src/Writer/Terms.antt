-- ===== src/Writer/Terms.antt =====
-- The query terms of a URI are printed with their whole percent code.
use mnapp.Shared.MnBytes.{MnBytes}
use mnapp.Shared.{
  ℕ, ◌+◌, ◌*◌, ◌<◌, ◌≤◌, ◌≡◌, refl, ap, ◌∙◌, Option, some, [], ◌∷◌, ◌++◌, List, arith, All, Bytes,
  codes, length,
}
use mnapp.Uri.Defs.{Uri}
use mnapp.Writer.Message.{crlf}
use mnapp.Writer.Output.{Output, Sent, success}
use mnapp.Writer.Query.{
  mark_text, pair_text, pairs_text, query_text, mnhttp_uri_start_request-contents,
}
use mnapp.Writer.Uri.{QueryTerms, mnhttp_uri_add_qterm, mnhttp_uri_start_request}

-- What bytes_str_urlencode2 writes for a string is its percent code, where there is room for three
-- bytes for one and a NUL.
pub record EncodeLaws {B H : Type 0} (strings : MnBytes B) (terms : QueryTerms B H) : Type 1 where
  pub percent : B → Bytes
  pub urlencode2-percent :
      (n : ℕ) (b : B) → terms.bsz b * 3 + 1 ≤ n → strings.cdata (terms.urlencode2 n b) ≡ percent b
  pub bsz_lem : (b : B) → length (strings.cdata b) < terms.bsz b
  -- The items behind hash_set_item are the new one and some of those before.
  pub set_item-All :
      (P : B → Type 0) (k v : B) (h : H)
      → All (λ (p : B × B). P p.0 × P p.1) (terms.items h)
      → P k
      → P v
      → All (λ (p : B × B). P p.0 × P p.1) (terms.items (terms.hash_set_item k v h))

module _ {B H : Type 0} (strings : MnBytes B) (terms : QueryTerms B H)
    (laws : EncodeLaws strings terms) where
  open strings use {cdata}
  open terms use {bsz, items}
  open laws use {percent, urlencode2-percent, bsz_lem, set_item-All}

  -- `qtermsz` is at least the size of every string of the terms.
  abbrev pub IsRoomy : Uri B H → Type 0
  IsRoomy uri =
      All (λ (p : B × B). (bsz p.0 ≤ uri.qtermsz) × (bsz p.1 ≤ uri.qtermsz)) (items uri.qterms)

  -- The pairs in their percent code, and the query that they make.
  unfoldable pub coded_pair : B × B → Bytes
  coded_pair (key, value) = percent key ++ (codes "=" ++ percent value)

  unfoldable pub coded_pairs : List (B × B) → Bytes
  unfolding coded_pair
  coded_pairs [] = []
  coded_pairs (p ∷ ps) = codes "&" ++ (coded_pair p ++ coded_pairs ps)

  unfoldable pub coded_query : {W : Type 0} → Output W → Option B → B → List (B × B) → Bytes
  unfolding coded_pairs mark_text
  coded_query lib qstring relative [] = []
  coded_query lib qstring relative (p ∷ ps) =
      mark_text strings terms lib qstring relative ++ (coded_pair p ++ coded_pairs ps)

  all_mono :
      (n m : ℕ) (ps : List (B × B))
      → n ≤ m
      → All (λ (p : B × B). (bsz p.0 ≤ n) × (bsz p.1 ≤ n)) ps
      → All (λ (p : B × B). (bsz p.0 ≤ m) × (bsz p.1 ≤ m)) ps
  all_mono n m [] le h = h
  all_mono n m (p ∷ ps) le ((k, v), h) = ((omega arith, omega arith), all_mono n m ps le h)

  add_qterm-IsRoomy :
      (uri : Uri B H) (key value : B)
      → IsRoomy uri
      → IsRoomy (mnhttp_uri_add_qterm terms uri key value)
  unfolding mnhttp_uri_add_qterm
  add_qterm-IsRoomy uri key value h =
      let m = uri.qtermsz + bsz key + bsz value in
      set_item-All (λ b. bsz b ≤ m) key value uri.qterms
        (all_mono uri.qtermsz m (items uri.qterms) (omega arith) h) (omega arith) (omega arith)

  module _ {W : Type 0} (lib : Output W) (n : ℕ) where
    pair_text-coded_pair :
        (p : B × B)
        → (bsz p.0 ≤ n) × (bsz p.1 ≤ n)
        → pair_text strings terms lib (n * 3 + 1) p ≡ coded_pair p
    unfolding pair_text coded_pair
    pair_text-coded_pair (key, value) (k, v) =
        rw
          (
            urlencode2-percent (n * 3 + 1) key (omega (arith, k)),
            urlencode2-percent (n * 3 + 1) value (omega (arith, v)),
          )
          refl

    pairs_text-coded_pairs :
        (ps : List (B × B))
        → All (λ (p : B × B). (bsz p.0 ≤ n) × (bsz p.1 ≤ n)) ps
        → pairs_text strings terms lib (n * 3 + 1) ps ≡ coded_pairs ps
    unfolding pairs_text coded_pairs
    pairs_text-coded_pairs [] h = refl
    pairs_text-coded_pairs (p ∷ ps) (one, h) =
        rw (pair_text-coded_pair p one, pairs_text-coded_pairs ps h) refl

  query_text-coded_query :
      {W : Type 0} (lib : Output W) (uri : Uri B H) (relative : B) (ps : List (B × B))
      → All (λ (p : B × B). (bsz p.0 ≤ uri.qtermsz) × (bsz p.1 ≤ uri.qtermsz)) ps
      → query_text strings terms lib uri relative ps ≡ coded_query lib uri.qstring relative ps
  unfolding query_text coded_query
  query_text-coded_query lib uri relative [] h = refl
  query_text-coded_query lib uri relative (p ∷ ps) (one, h) =
      rw (pair_text-coded_pair lib uri.qtermsz p one, pairs_text-coded_pairs lib uri.qtermsz ps h)
        refl

  -- Where bytes_str_urlencode2 writes the whole percent code into room for three bytes for one, and bsz
  -- counts more than the characters of a string: if qtermsz is at least the size of every string of
  -- the query terms, it is so behind mnhttp_uri_add_qterm too, and for a URI with a relative part a
  -- request line that mnhttp_uri_start_request then prints without an error has the whole percent
  -- code of every key and every value, also of the new ones.
  pub mnhttp_uri_add_qterm-IsRoomy :
      {W : Type 0} (lib : Output W) (uri : Uri B H) (key value relative : B) (method : Bytes)
      (out : W) (sent : Sent W)
      → IsRoomy uri
      → uri.relative ≡ some relative
      → mnhttp_uri_start_request strings terms lib
          (mnhttp_uri_add_qterm terms uri key value)
          out
          method
        ≡ some sent
      → sent.ret ≡ success
      → IsRoomy (mnhttp_uri_add_qterm terms uri key value)
        × (lib.contents sent.out
            ≡ lib.contents out
              ++ (method
                  ++ (codes " "
                      ++ (cdata relative
                          ++ (coded_query lib uri.qstring relative
                                (items (terms.hash_set_item key value uri.qterms))
                              ++ (codes " HTTP/1.1" ++ crlf))))))
  unfolding mnhttp_uri_add_qterm
  mnhttp_uri_add_qterm-IsRoomy lib uri key value relative method out sent roomy is_relative made
        fine =
      let next = mnhttp_uri_add_qterm terms uri key value in
      let roomy' = add_qterm-IsRoomy uri key value roomy in
      (
        roomy',
        mnhttp_uri_start_request-contents strings terms lib bsz_lem next relative method out sent
              is_relative made fine
            ∙ ap
                (λ q.
                  lib.contents out
                  ++ (method
                      ++ (codes " " ++ (cdata relative ++ (q ++ (codes " HTTP/1.1" ++ crlf))))))
                (query_text-coded_query lib next relative (items next.qterms) roomy'),
      )
