-- ===== src/Writer/Uri.antt =====
-- src/mnhttp.c: `mnhttp_uri_add_qterm`, `mnhttp_uri_start_request`.
use mnapp.Shared.MnBytes.{MnBytes}
use mnapp.Shared.{
  ℕ, ◌+◌, ◌*◌, Option, none, some, List, [], ◌∷◌, ◌++◌, if◌then◌else◌, ◌==◌, Bytes, codes, length,
}
use mnapp.Uri.Defs.{Uri}
use mnapp.Writer.Message.{crlf}
use mnapp.Writer.Output.{Output, Sent, success, start_request, or_code, ◌>>=◌}

-- What the query terms need of mncommon. `H` stands for the hash.
pub record QueryTerms (B H : Type 0) : Type 0 where
  -- `BSZ`, which counts the NUL
  pub bsz : B → ℕ
  -- `BDATA(b)[BSZ(b) - 1]`
  pub last_byte : B → ℕ
  -- the items in the order of `hash_first` and `hash_next`
  pub items : H → List (B × B)
  pub hash_set_item : B → B → H → H
  -- the string that `bytes_str_urlencode2` leaves in a destination with room for so many bytes
  pub urlencode2 : ℕ → B → B

module _ {B H W : Type 0} (strings : MnBytes B) (terms : QueryTerms B H) (lib : Output W) where
  open strings use {cdata}
  open terms use {bsz, last_byte, items, urlencode2}
  open lib use {nprintf, cat}

  -- One pair of the query, behind `sep`.
  unfoldable pub add_pair : ℕ → Bytes → ℕ → W → B × B → Sent W
  add_pair encsz sep code out (key, value) =
      let keyenc = urlencode2 encsz key in
      let valueenc = urlencode2 encsz value in
      let sz = bsz keyenc + bsz valueenc + 8 in
      or_code (nprintf out sz (sep ++ (cdata keyenc ++ (codes "=" ++ cdata valueenc))))
        (start_request code)

  -- The loop over the pairs behind the first.
  unfoldable pub add_pairs : ℕ → List (B × B) → W → Sent W
  unfolding add_pair
  add_pairs encsz [] out = record { ret = success; out = out }
  add_pairs encsz (p ∷ ps) out = add_pair encsz (codes "&") 3 out p >>= add_pairs encsz ps

  -- The `?`, unless there is a query string, or a `?` at the end.
  unfoldable pub add_mark : Option B → B → W → Sent W
  add_mark (some qstring) relative out = record { ret = success; out = out }
  add_mark none relative out =
      if last_byte relative == b'?'
      then record { ret = success; out = out }
      else or_code (cat out (codes "?")) (start_request 1)

  -- The query of the terms, for the hash's items.
  unfoldable pub add_query : Uri B H → B → List (B × B) → W → Sent W
  unfolding add_mark add_pair add_pairs
  add_query uri relative [] out = record { ret = success; out = out }
  add_query uri relative (p ∷ ps) out = do
    let encsz = uri.qtermsz * 3 + 1
    out ← add_mark uri.qstring relative out
    out ← add_pair encsz [] 2 out p
    add_pairs encsz ps out

  unfoldable pub request_line : Uri B H → B → W → Bytes → Sent W
  unfolding add_query
  request_line uri relative out method = do
    let sz = length method + bsz relative + 16
    out ← or_code (nprintf out sz (method ++ (codes " " ++ cdata relative))) (start_request 1)
    out ← add_query uri relative (items uri.qterms) out
    or_code (cat out (codes " HTTP/1.1" ++ crlf)) (start_request 4)

  -- `none` where `relative` is NULL, which is undefined.
  unfoldable pub mnhttp_uri_start_request : Uri B H → W → Bytes → Option (Sent W)
  unfolding request_line
  mnhttp_uri_start_request uri out method = elim uri.relative [
    | none ↦ none
    | some relative ↦ some (request_line uri relative out method)
  ]

-- `size_t` does not wrap for strings in memory.
unfoldable pub mnhttp_uri_add_qterm : {B H : Type 0} → QueryTerms B H → Uri B H → B → B → Uri B H
mnhttp_uri_add_qterm terms uri key value = record uri {
  qterms = terms.hash_set_item key value uri.qterms;
  qtermsz = uri.qtermsz + terms.bsz key + terms.bsz value;
}
