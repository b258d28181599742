-- ===== src/Uri/Query.antt =====
-- The path, the query and the fragment spell the text from the first `/` on.
use mnapp.Shared.MnBytes.{MnBytes}
use mnapp.Shared.{
  ℕ, ◌+◌, ◌-◌, ◌≡◌, ap, ◌∙◌, ◌>>=◌, inl, inr, Option, none, some, ◌∷◌, ◌++◌, arith, Bytes,
  Bool-cases, Option-cases, take, drop, take-append-drop,
}
use mnapp.Uri.Cut.{strchr-lt, strchr-cut}
use mnapp.Uri.Defs.{serial, is_scheme, Uri, strchr, parse_query, parse_path, set_path}
use mnapp.Uri.Text.{tail_text, path_text}

-- The fields that `parse_path` writes, empty.
abbrev pub no_path : {B H : Type 0} → Uri B H → Uri B H
no_path u = record u { relative = none; path = none; qstring = none; fragment = none }

module _ {B H : Type 0} (lib : MnBytes B) where
  open lib use {from_str, from_str_len, cdata, cdata-from_str, cdata-from_str_len}

  parse_query_lem :
      (query : Bytes) (u : Uri B H)
      → (q f : Option B) × (parse_query lib query (record u { qstring = none; fragment = none })
          ≡ some (record u { qstring = q; fragment = f }))
        × ((p : B) → path_text lib (some p) q f ≡ cdata p ++ (b'?' ∷ query))
  unfolding parse_query
  parse_query_lem query u = elim (Option-cases (strchr b'#' query)) [
    | inl no_hash ↦
        (some (from_str query), none, rw (no_hash, parse_query), λ p. rw (cdata-from_str query))
    | inr (hash, found) ↦ (
      some (from_str_len query hash),
      some (from_str (drop hash query)),
      rw (found, parse_query),
      λ p.
          rw
            (
              cdata-from_str (drop hash query),
              cdata-from_str_len query hash (omega (arith, strchr-lt b'#' query hash found)),
            )
            (ap (λ (t : Bytes). cdata p ++ (b'?' ∷ t)) (take-append-drop hash query)),
    )
  ]

  -- What `parse_path` promises: the parts spell the text. Except for a serial device `relative`
  -- is the text, and the path, the query and the fragment spell it too.
  abbrev pub PathParts : Uri B H → Option (Uri B H) → Bytes → Type 0
  PathParts u result text =
      (r p q f : Option B) × (result
        ≡ some (record u { relative = r; path = p; qstring = q; fragment = f }))
      × (tail_text lib r p ≡ text)
      × (path_text lib p q f ≡ text)

  pub parse_path_lem :
      (text : Bytes) (u : Uri B H) → PathParts u (parse_path lib text (no_path u)) text
  unfolding parse_path
  parse_path_lem text u = elim (Bool-cases (is_scheme u.scheme serial)) [
    | inl device ↦ (
      none,
      some (from_str text),
      none,
      none,
      rw device,
      cdata-from_str text,
      cdata-from_str text,
    )
    | inr other ↦ elim (Option-cases (strchr b'?' text)) [
      | inr (mark, found) ↦
          let (q, f, run, spelled) =
            parse_query_lem (drop (mark + 1) text)
              (record u { relative = some (from_str text); path = none }) in
          let path = from_str_len text (mark + 1 - 1) in
          (
            some (from_str text),
            some path,
            q,
            f,
            rw (other, parse_path)
                (rw found (ap (λ (r : Option (Uri B H)). r >>= set_path path) run)),
            cdata-from_str text,
            spelled path
                ∙ ap (λ (t : Bytes). t ++ (b'?' ∷ drop (mark + 1) text))
                    (cdata-from_str_len text (mark + 1 - 1)
                        (omega (arith, strchr-lt b'?' text mark found))
                      ∙ ap (λ (n : ℕ). take n text)
                          (let e : mark + 1 - 1 ≡ mark = omega arith in e))
                ∙ strchr-cut b'?' text mark found,
          )
      | inl no_mark ↦ elim (Option-cases (strchr b'#' text)) [
        | inr (hash, found) ↦ (
          some (from_str text),
          some (from_str_len text hash),
          none,
          some (from_str (drop hash text)),
          rw (other, parse_path) (rw (no_mark, parse_path) (rw found)),
          cdata-from_str text,
          rw
              (
                cdata-from_str (drop hash text),
                cdata-from_str_len text hash (omega (arith, strchr-lt b'#' text hash found)),
              )
              (take-append-drop hash text),
        )
        | inl no_hash ↦ (
          some (from_str text),
          some (from_str text),
          none,
          none,
          rw (other, parse_path) (rw (no_mark, parse_path) (rw no_hash)),
          cdata-from_str text,
          cdata-from_str text,
        )
      ]
    ]
  ]
