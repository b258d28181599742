-- ===== src/Writer/Query.antt =====
-- What `mnhttp_uri_start_request` prints.
use mnapp.Shared.MnBytes.{MnBytes}
use mnapp.Shared.{
  ℕ, ◌+◌, ◌*◌, ◌<◌, ◌≤◌, ◌≡◌, refl, Option, none, some, List, [], ◌∷◌, ◌++◌, if◌then◌else◌, ◌==◌,
  arith, Bytes, codes, length, length-append, append-nil, append_assoc, Bool-cases, inl, inr, ap,
  sym, ◌∙◌,
}
use mnapp.Uri.Defs.{Uri}
use mnapp.Writer.Message.{crlf}
use mnapp.Writer.Output.{
  Output, Wrote, Sent, success, start_request, start_response, add_header_field, end_of_header,
  add_body, or_code, after_success, ◌>>=◌,
}
use mnapp.Writer.Printed.{or_code-written}
use mnapp.Writer.Uri.{
  QueryTerms, add_mark, add_pair, add_pairs, add_query, request_line, mnhttp_uri_start_request,
}

-- A chain that succeeds succeeds at its first step, and goes on.
after_success-success :
    {W : Type 0} (r : Wrote) (w : W) (f : W → Sent W)
    → (after_success r w f).ret ≡ success
    → (r ≡ success) × (after_success r w f ≡ f w)
after_success-success success w f h = (refl, refl)
after_success-success (start_request n) w f h = cc
after_success-success (start_response n) w f h = cc
after_success-success (add_header_field n) w f h = cc
after_success-success (end_of_header n) w f h = cc
after_success-success (add_body n) w f h = cc

module _ {B H W : Type 0} (strings : MnBytes B) (terms : QueryTerms B H) (lib : Output W) where
  open strings use {cdata}
  open terms use {bsz, last_byte, items, urlencode2}
  open lib use {contents, nprintf-contents, cat-contents}

  -- A pair of the query, percent-coded.
  unfoldable pub pair_text : ℕ → B × B → Bytes
  pair_text encsz (key, value) =
      cdata (urlencode2 encsz key) ++ (codes "=" ++ cdata (urlencode2 encsz value))

  unfoldable pub pairs_text : ℕ → List (B × B) → Bytes
  pairs_text encsz [] = []
  pairs_text encsz (p ∷ ps) = codes "&" ++ (pair_text encsz p ++ pairs_text encsz ps)

  unfoldable pub mark_text : Option B → B → Bytes
  mark_text (some qstring) relative = []
  mark_text none relative = if last_byte relative == b'?' then [] else codes "?"

  -- The text behind `relative`: a `?` unless there is a query string, and the pairs with `&` between
  -- them.
  unfoldable pub query_text : Uri B H → B → List (B × B) → Bytes
  unfolding mark_text pair_text pairs_text
  query_text uri relative [] = []
  query_text uri relative (p ∷ ps) =
      let encsz = uri.qtermsz * 3 + 1 in
      mark_text uri.qstring relative ++ (pair_text encsz p ++ pairs_text encsz ps)

  module _ (bsz_lem : (b : B) → length (cdata b) < bsz b) where
    add_pair-contents :
        (encsz : ℕ) (sep : Bytes) (code : ℕ) (out : W) (p : B × B)
        → length sep ≤ 1
        → (add_pair strings terms lib encsz sep code out p).ret ≡ success
        → contents (add_pair strings terms lib encsz sep code out p).out
          ≡ contents out ++ (sep ++ pair_text encsz p)
    unfolding add_pair pair_text
    add_pair-contents encsz sep code out (key, value) short h =
        let k = cdata (urlencode2 encsz key) in
        let v = cdata (urlencode2 encsz value) in
        nprintf-contents out _ _
          (omega (
            arith,
            length-append sep (k ++ (codes "=" ++ v)),
            length-append k (codes "=" ++ v),
            bsz_lem (urlencode2 encsz key),
            bsz_lem (urlencode2 encsz value),
          ))
          (or_code-written _ _ (cc) h)

    add_pairs-contents :
        (encsz : ℕ) (ps : List (B × B)) (out : W)
        → (add_pairs strings terms lib encsz ps out).ret ≡ success
        → contents (add_pairs strings terms lib encsz ps out).out
          ≡ contents out ++ pairs_text encsz ps
    unfolding add_pairs pairs_text
    add_pairs-contents encsz [] out h = sym (append-nil (contents out))
    add_pairs-contents encsz (p ∷ ps) out h =
        let one = add_pair strings terms lib encsz (codes "&") 3 out p in
        let (fine, goes_on) =
          after_success-success one.ret one.out (add_pairs strings terms lib encsz ps) h in
        let first = add_pair-contents encsz (codes "&") 3 out p (omega arith) fine in
        rw goes_on (
          add_pairs-contents encsz ps one.out (ap (λ (s : Sent W). s.ret) (sym goes_on) ∙ h)
          ∙ ap (λ t. t ++ pairs_text encsz ps) first
          ∙ simp append_assoc)

    add_mark-contents :
        (qstring : Option B) (relative : B) (out : W)
        → (add_mark strings terms lib qstring relative out).ret ≡ success
        → contents (add_mark strings terms lib qstring relative out).out
          ≡ contents out ++ mark_text qstring relative
    unfolding add_mark mark_text
    add_mark-contents (some qstring) relative out h = sym (append-nil (contents out))
    add_mark-contents none relative out h = elim (Bool-cases (last_byte relative == b'?')) [
      | inl e ↦ rw (e) (sym (append-nil (contents out)))
      | inr e ↦
          rw (e)
            (cat-contents out (codes "?") (or_code-written _ (start_request 1) (cc) (rw (e) at h)))
    ]

    add_query-contents :
        (uri : Uri B H) (relative : B) (pairs : List (B × B)) (out : W)
        → (add_query strings terms lib uri relative pairs out).ret ≡ success
        → contents (add_query strings terms lib uri relative pairs out).out
          ≡ contents out ++ query_text uri relative pairs
    unfolding add_query query_text
    add_query-contents uri relative [] out h = sym (append-nil (contents out))
    add_query-contents uri relative (p ∷ ps) out h =
        let encsz = uri.qtermsz * 3 + 1 in
        let mark = add_mark strings terms lib uri.qstring relative out in
        let one = add_pair strings terms lib encsz [] 2 mark.out p in
        let rest = add_pairs strings terms lib encsz ps in
        let (marked, e1) =
          after_success-success mark.ret mark.out
            (λ out. add_pair strings terms lib encsz [] 2 out p >>= rest) h in
        let h1 = ap (λ (s : Sent W). s.ret) (sym e1) ∙ h in
        let (first, e2) = after_success-success one.ret one.out rest h1 in
        let h2 = ap (λ (s : Sent W). s.ret) (sym e2) ∙ h1 in
        rw (e1, e2)
          (add_pairs-contents encsz ps one.out h2
            ∙ ap (λ t. t ++ pairs_text encsz ps)
                (add_pair-contents encsz [] 2 mark.out p (omega arith) first
                  ∙ ap (λ t. t ++ pair_text encsz p)
                      (add_mark-contents uri.qstring relative out marked))
            ∙ simp append_assoc)

    request_line-contents :
        (uri : Uri B H) (relative : B) (method : Bytes) (out : W)
        → (request_line strings terms lib uri relative out method).ret ≡ success
        → contents (request_line strings terms lib uri relative out method).out
          ≡ contents out
            ++ (method
                ++ (codes " "
                    ++ (cdata relative
                        ++ (query_text uri relative (items uri.qterms)
                            ++ (codes " HTTP/1.1" ++ crlf)))))
    unfolding request_line
    request_line-contents uri relative method out h =
        let sz = length method + bsz relative + 16 in
        let start_text = method ++ (codes " " ++ cdata relative) in
        let start = or_code (lib.nprintf out sz start_text) (start_request 1) in
        let query = add_query strings terms lib uri relative (items uri.qterms) start.out in
        let end = λ (w : W). or_code (lib.cat w (codes " HTTP/1.1" ++ crlf)) (start_request 4) in
        let (started, e1) =
          after_success-success start.ret start.out
            (λ w. add_query strings terms lib uri relative (items uri.qterms) w >>= end) h in
        let h1 = ap (λ (s : Sent W). s.ret) (sym e1) ∙ h in
        let (asked, e2) = after_success-success query.ret query.out end h1 in
        let h2 = ap (λ (s : Sent W). s.ret) (sym e2) ∙ h1 in
        let first =
          nprintf-contents out sz start_text
            (omega (arith, length-append method (codes " " ++ cdata relative), bsz_lem relative))
            (or_code-written _ (start_request 1) (cc) started) in
        rw (e1, e2)
          (cat-contents query.out (codes " HTTP/1.1" ++ crlf)
              (or_code-written _ (start_request 4) (cc) h2)
            ∙ ap (λ t. t ++ (codes " HTTP/1.1" ++ crlf))
                (add_query-contents uri relative (items uri.qterms) start.out asked
                  ∙ ap (λ t. t ++ query_text uri relative (items uri.qterms)) first)
            ∙ simp append_assoc)

    -- A request line that is printed without an error is the method, the relative part, the query
    -- terms and the version, whole.
    pub mnhttp_uri_start_request-contents :
        (uri : Uri B H) (relative : B) (method : Bytes) (out : W) (sent : Sent W)
        → uri.relative ≡ some relative
        → mnhttp_uri_start_request strings terms lib uri out method ≡ some sent
        → sent.ret ≡ success
        → contents sent.out
          ≡ contents out
            ++ (method
                ++ (codes " "
                    ++ (cdata relative
                        ++ (query_text uri relative (items uri.qterms)
                            ++ (codes " HTTP/1.1" ++ crlf)))))
    unfolding mnhttp_uri_start_request
    mnhttp_uri_start_request-contents uri relative method out sent e made h =
        let same : request_line strings terms lib uri relative out method ≡ sent = ground arith in
        ap (λ (s : Sent W). contents s.out) (sym same)
        ∙ request_line-contents uri relative method out (ap (λ (s : Sent W). s.ret) same ∙ h)
