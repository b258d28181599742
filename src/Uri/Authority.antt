-- ===== src/Uri/Authority.antt =====
-- The parts of the authority that the parser stores spell its text, and no assertion fails there.
use mnapp.Shared.MnBytes.{MnBytes}
use mnapp.Shared.{
  ℕ, ◌+◌, ◌-◌, ◌≤◌, ◌<◌, ◌≡◌, sym, ap, ◌∙◌, ◌>>=◌, true, inl, inr, Option, none, some, [], ◌∷◌,
  ◌++◌, append_assoc, arith, ltb, Bytes, Bool-cases, Option-cases, length, length-drop, take, drop,
}
use mathlib.Core.Path.{ap₂}
use mnapp.Uri.Cut.{strchr-lt, strchr-cut, strchr-cut_before}
use mnapp.Uri.Text.{user_text, host_text}
use mnapp.Uri.Defs.{
  Uri, strchr, parse_user, parse_host_before, parse_host, parse_authority_before, parse_authority,
}

-- The fields that the authority parsers write, empty.
abbrev pub blank : {B H : Type 0} → Uri B H → Uri B H
blank u = record u { user = none; password = none; host = none; port = none }

ltb→lt : (a b : ℕ) → ltb a b ≡ true → a < b
ltb→lt a b h = ground arith

module _ {B : Type 0} (lib : MnBytes B) where
  open lib use {from_str_len, cdata, cdata-from_str_len}

  -- Two parts of a text, around the character that `strchr` found in front of offset `end`.
  parts_before :
      (c : ℕ) (text : Bytes) (k end : ℕ)
      → strchr c text ≡ some k
      → k < end
      → end ≤ length text
      → cdata (from_str_len text k)
          ++ (c ∷ cdata (from_str_len (drop (k + 1) text) (end - (k + 1))))
        ≡ take end text
  parts_before c text k end found lt le =
      rw
        (
          cdata-from_str_len text k (omega arith),
          cdata-from_str_len (drop (k + 1) text) (end - (k + 1))
              (omega (arith, length-drop (k + 1) text)),
        )
        (strchr-cut_before c text k end found lt)

module _ {B H : Type 0} (lib : MnBytes B) where
  open lib use {from_str, from_str_len, cdata, cdata-from_str, cdata-from_str_len}

  parse_user_lem :
      (text : Bytes) (at : ℕ) (u : Uri B H)
      → at < length text
      → (name word : Option B) × (parse_user lib text at (record u { user = none; password = none })
          ≡ some (record u { user = name; password = word }))
        × (user_text lib name word ≡ take at text ++ (b'@' ∷ []))
  unfolding parse_user
  parse_user_lem text at u lt = elim (Option-cases (strchr b':' text)) [
    | inl no_colon ↦ (
      some (from_str_len text at),
      none,
      rw (no_colon, parse_user),
      rw (cdata-from_str_len text at (omega arith)),
    )
    | inr (colon, found) ↦ elim (Bool-cases (ltb colon at)) [
      | inl before ↦ (
        some (from_str_len text colon),
        some (from_str_len (drop (colon + 1) text) (at - (colon + 1))),
        rw (found, parse_user) (rw before),
        sym (append_assoc (cdata (from_str_len text colon)) _ (b'@' ∷ []))
            ∙ ap (λ (t : Bytes). t ++ (b'@' ∷ []))
                (parts_before lib b':' text colon at found (ltb→lt _ _ before) (omega arith)),
      )
      | inr behind ↦ (
        some (from_str_len text at),
        none,
        rw (found, parse_user) (rw behind),
        rw (cdata-from_str_len text at (omega arith)),
      )
    ]
  ]

  parse_host_before_lem :
      (text : Bytes) (end : ℕ) (u : Uri B H)
      → end ≤ length text
      → (name port : Option B) × (parse_host_before lib text end
            (record u { host = none; port = none })
          ≡ some (record u { host = name; port = port }))
        × (host_text lib name port ≡ take end text)
  unfolding parse_host_before
  parse_host_before_lem text end u le = elim (Option-cases (strchr b':' text)) [
    | inl no_colon ↦ (
      some (from_str_len text end),
      none,
      rw (no_colon, parse_host_before),
      cdata-from_str_len text end le,
    )
    | inr (colon, found) ↦ elim (Bool-cases (ltb colon end)) [
      | inl before ↦ (
        some (from_str_len text colon),
        some (from_str_len (drop (colon + 1) text) (end - (colon + 1))),
        rw (found, parse_host_before) (rw before),
        parts_before lib b':' text colon end found (ltb→lt _ _ before) le,
      )
      | inr behind ↦ (
        some (from_str_len text end),
        none,
        rw (found, parse_host_before) (rw behind),
        cdata-from_str_len text end le,
      )
    ]
  ]

  parse_host_lem :
      (text : Bytes) (u : Uri B H)
      → (name port : Option B) × (parse_host lib text (record u { host = none; port = none })
          ≡ some (record u { host = name; port = port }))
        × (host_text lib name port ≡ text)
  unfolding parse_host
  parse_host_lem text u = elim (Option-cases (strchr b':' text)) [
    | inl no_colon ↦ (some (from_str text), none, rw (no_colon, parse_host), cdata-from_str text)
    | inr (colon, found) ↦ (
      some (from_str_len text colon),
      some (from_str (drop (colon + 1) text)),
      rw (found, parse_host),
      rw
          (
            cdata-from_str_len text colon (omega (arith, strchr-lt b':' text colon found)),
            cdata-from_str (drop (colon + 1) text),
          )
          (strchr-cut b':' text colon found),
    )
  ]

  -- What the two authority parsers promise of the part `text` of the input.
  abbrev pub Authority : Uri B H → Option (Uri B H) → Bytes → Type 0
  Authority u result text =
      (name word host port : Option B) × (result
        ≡ some (record u { user = name; password = word; host = host; port = port }))
      × (user_text lib name word ++ host_text lib host port ≡ text)

  abbrev no_user : Uri B H → Uri B H
  no_user u = record u { user = none; password = none }

  abbrev no_host : Uri B H → Uri B H
  no_host u = record u { host = none; port = none }

  pub parse_authority_before_lem :
      (text : Bytes) (end : ℕ) (u : Uri B H)
      → end ≤ length text
      → Authority u (parse_authority_before lib text end (blank u)) (take end text)
  unfolding parse_authority_before
  parse_authority_before_lem text end u le = elim (Option-cases (strchr b'@' text)) [
    | inl no_at ↦
        let (host, port, run, spelled) = parse_host_before_lem text end (no_user u) le in
        (none, none, host, port, rw (no_at, parse_authority_before) run, spelled)
    | inr (at, found) ↦ elim (Bool-cases (ltb at end)) [
      | inl before ↦
          let (name, word, named, user) =
            parse_user_lem text at (no_host u) (strchr-lt b'@' text at found) in
          let (host, port, run, spelled) =
            parse_host_before_lem (drop (at + 1) text) (end - (at + 1))
              (record u { user = name; password = word })
              (omega (arith, length-drop (at + 1) text)) in
          (
            name,
            word,
            host,
            port,
            rw (found, parse_authority_before)
                (rw before (
                  ap
                    (λ (r : Option (Uri B H)).
                      r >>= parse_host_before lib (drop (at + 1) text) (end - (at + 1)))
                    named
                  ∙ run)),
            ap₂ ◌++◌ user spelled
                ∙ append_assoc (take at text) (b'@' ∷ []) _
                ∙ strchr-cut_before b'@' text at end found (ltb→lt _ _ before),
          )
      | inr behind ↦
          let (host, port, run, spelled) = parse_host_before_lem text end (no_user u) le in
          (none, none, host, port, rw (found, parse_authority_before) (rw behind run), spelled)
    ]
  ]

  pub parse_authority_lem :
      (text : Bytes) (u : Uri B H) → Authority u (parse_authority lib text (blank u)) text
  unfolding parse_authority
  parse_authority_lem text u = elim (Option-cases (strchr b'@' text)) [
    | inl no_at ↦
        let (host, port, run, spelled) = parse_host_lem text (no_user u) in
        (none, none, host, port, rw (no_at, parse_authority) run, spelled)
    | inr (at, found) ↦
        let (name, word, named, user) =
          parse_user_lem text at (no_host u) (strchr-lt b'@' text at found) in
        let (host, port, run, spelled) =
          parse_host_lem (drop (at + 1) text) (record u { user = name; password = word }) in
        (
          name,
          word,
          host,
          port,
          rw (found, parse_authority)
              (ap (λ (r : Option (Uri B H)). r >>= parse_host lib (drop (at + 1) text)) named
                ∙ run),
          ap₂ ◌++◌ user spelled
              ∙ append_assoc (take at text) (b'@' ∷ []) _
              ∙ strchr-cut b'@' text at found,
        )
  ]
