-- ===== src/Client/Sent.antt =====
-- The request as the client prints it.
use mnapp.Client.Finalize.{Printer, add_fields, print_rest}
use mnapp.Client.Request.{Request}
use mnapp.Shared.Int.{ℤ}
use mnapp.Shared.{
  ◌≡◌, refl, sym, ap, ◌∙◌, none, List, [], ◌∷◌, ◌++◌, Bytes, codes, length, append-nil,
  append_assoc, take-length, arith,
}
use mnapp.Writer.Message.{crlf, http_field_addt, http_field_addf, http_field_addb}
use mnapp.Writer.Printed.{field_text, IsReliable, field-contents, http_end_of_header-contents}

module _ {B H S : Type 0} (pr : Printer B H S) (reliable : IsReliable pr.lib) where
  open pr use {strings, lib, date}

  unfoldable pub fields_text : List (B × B) → Bytes
  fields_text [] = []
  fields_text ((name, value) ∷ fields) =
      field_text (strings.cdata name) (strings.cdata value) ++ fields_text fields

  add_fields-contents :
      (fields : List (B × B)) (out : S)
      → lib.contents (add_fields pr fields out) ≡ lib.contents out ++ fields_text fields
  unfolding add_fields fields_text http_field_addb
  add_fields-contents [] out = sym (append-nil (lib.contents out))
  add_fields-contents ((name, value) ∷ fields) out =
      let one = field-contents lib reliable out (strings.cdata name) (strings.cdata value) in
      add_fields-contents fields (http_field_addb lib strings out name value).out
      ∙ ap (λ t. t ++ fields_text fields) one
      ∙ append_assoc (lib.contents out) _ (fields_text fields)

  addf-contents :
      (out : S) (name text : Bytes)
      → lib.contents (http_field_addf lib strings out (strings.from_str name) text).out
        ≡ lib.contents out ++ field_text name text
  unfolding http_field_addf
  addf-contents out name text =
      field-contents lib reliable out _ _
      ∙ rw (strings.cdata-from_str name, strings.cdata-from_str text) refl

  addt-contents :
      (out : S) (name : Bytes) (now : ℤ)
      → lib.contents (http_field_addt lib strings date out (strings.from_str name) now).out
        ≡ lib.contents out ++ field_text name (date now)
  unfolding http_field_addt
  addt-contents out name now =
      field-contents lib reliable out _ _
      ∙ rw
          (
            strings.cdata-from_str name,
            strings.cdata-from_str_len (date now) (length (date now)) (omega arith),
            take-length (date now),
          )
          refl

module _ {B H S F D : Type 0} (pr : Printer B H S) (reliable : IsReliable pr.lib) where
  open pr use {strings, hash, lib, date, program, version}

  -- What follows the first line of a request with no body.
  unfoldable pub rest_text : Request B H S F D → B → B → ℤ → Bytes
  rest_text req host port now =
      field_text (codes "Date") (date now)
      ++ (field_text (codes "Host") (strings.cdata host ++ (codes ":" ++ strings.cdata port))
          ++ (field_text (codes "User-Agent") (program ++ (codes "/" ++ version))
              ++ (fields_text pr reliable (hash.items req.request.headers) ++ crlf)))

  pub print_rest-contents :
      (req : Request B H S F D) (host port : B) (now : ℤ) (out : S)
      → req.out_body_cb ≡ none
      → lib.contents (print_rest pr req host port now out)
        ≡ lib.contents out ++ rest_text req host port now
  unfolding print_rest rest_text
  print_rest-contents req host port now out none_out =
      let name : Bytes → B = strings.from_str in
      let address = strings.cdata host ++ (codes ":" ++ strings.cdata port) in
      let agent = program ++ (codes "/" ++ version) in
      let headers = hash.items req.request.headers in
      let o1 = (http_field_addt lib strings date out (name (codes "Date")) now).out in
      let o2 = (http_field_addf lib strings o1 (name (codes "Host")) address).out in
      let o3 = (http_field_addf lib strings o2 (name (codes "User-Agent")) agent).out in
      let o4 = add_fields pr headers o3 in
      rw (none_out, print_rest)
        (http_end_of_header-contents lib reliable o4
          ∙ ap (λ t. t ++ crlf)
              (add_fields-contents pr reliable headers o3
                ∙ ap (λ t. t ++ fields_text pr reliable headers)
                    (addf-contents pr reliable o2 (codes "User-Agent") agent
                      ∙ ap (λ t. t ++ field_text (codes "User-Agent") agent)
                          (addf-contents pr reliable o1 (codes "Host") address
                            ∙ ap (λ t. t ++ field_text (codes "Host") address)
                                (addt-contents pr reliable out (codes "Date") now))))
          ∙ simp append_assoc)
