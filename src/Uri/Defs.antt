-- ===== src/Uri/Defs.antt =====
-- The parser of URIs, part by part in the order of the source.
use mnapp.Shared.MnBytes.{MnBytes}
use mnapp.Shared.{
  ℕ, suc, ◌+◌, ◌-◌, ◌>>=◌, Bool, true, false, ◌&&◌, ◌||◌, Option, none, some, [], ◌∷◌, ltb, ◌==◌,
  if◌then◌else◌, Bytes, codes, drop, length,
}

pub data Scheme : Type 0 where
  undef http https ws wss tcp udp serial : Scheme

abbrev pub is_scheme : Scheme → Scheme → Bool
is_scheme undef undef = true
is_scheme http http = true
is_scheme https https = true
is_scheme ws ws = true
is_scheme wss wss = true
is_scheme tcp tcp = true
is_scheme udp udp = true
is_scheme serial serial = true
is_scheme _ _ = false

-- `H` is the type of the hash of query terms.
pub record Uri (B H : Type 0) : Type 0 where
  pub scheme : Scheme
  pub user : Option B
  pub password : Option B
  pub host : Option B
  pub port : Option B
  pub relative : Option B
  pub path : Option B
  pub qstring : Option B
  pub fragment : Option B
  pub qterms : H
  pub qtermsz : ℕ

-- `hash` is what `hash_init` makes.
abbrev pub mnhttp_uri_init : {B H : Type 0} → H → Uri B H
mnhttp_uri_init hash = record {
  scheme = undef;
  user = none;
  password = none;
  host = none;
  port = none;
  relative = none;
  path = none;
  qstring = none;
  fragment = none;
  qterms = hash;
  qtermsz = 0;
}

-- `strchr(s, c)` for a character that is not NUL, as an offset.
unfoldable pub strchr : ℕ → Bytes → Option ℕ
strchr c [] = none
strchr c (x ∷ s) =
    let behind : Option ℕ = elim (strchr c s) [ none ↦ none | some k ↦ some (suc k) ] in
    if x == c then some 0 else behind

-- `strstr(s, t) == s`
unfoldable pub starts_with : Bytes → Bytes → Bool
starts_with [] s = true
starts_with (x ∷ t) [] = false
starts_with (x ∷ t) (y ∷ s) = x == y && starts_with t s

-- The text in front of the rest, for each scheme.
abbrev pub scheme_prefix : Scheme → Bytes
scheme_prefix undef = []
scheme_prefix http = codes "http://"
scheme_prefix https = codes "https://"
scheme_prefix ws = codes "ws://"
scheme_prefix wss = codes "wss://"
scheme_prefix tcp = codes "tcp://"
scheme_prefix udp = codes "udp://"
scheme_prefix serial = codes "serial://"

-- The scheme that the text names. The parser goes on behind its prefix.
unfoldable pub scheme_of : Bytes → Scheme
scheme_of s =
    if starts_with (scheme_prefix http) s
    then http
    else if starts_with (scheme_prefix https) s
    then https
    else if starts_with (scheme_prefix ws) s
    then ws
    else if starts_with (scheme_prefix wss) s
    then wss
    else if starts_with (scheme_prefix tcp) s
    then tcp
    else if starts_with (scheme_prefix udp) s
    then udp
    else if starts_with (scheme_prefix serial) s
    then serial
    else undef

-- The pairs `assert(uri->f == NULL); uri->f = b;`.
module _ {B H : Type 0} where
  abbrev pub unless_set : Option B → Uri B H → Option (Uri B H)
  unless_set none u = some u
  unless_set (some _) u = none

  abbrev pub set_user : B → Uri B H → Option (Uri B H)
  set_user b u = unless_set u.user (record u { user = some b })

  abbrev pub set_password : B → Uri B H → Option (Uri B H)
  set_password b u = unless_set u.password (record u { password = some b })

  abbrev pub set_host : B → Uri B H → Option (Uri B H)
  set_host b u = unless_set u.host (record u { host = some b })

  abbrev pub set_port : B → Uri B H → Option (Uri B H)
  set_port b u = unless_set u.port (record u { port = some b })

  abbrev pub set_relative : B → Uri B H → Option (Uri B H)
  set_relative b u = unless_set u.relative (record u { relative = some b })

  abbrev pub set_path : B → Uri B H → Option (Uri B H)
  set_path b u = unless_set u.path (record u { path = some b })

  abbrev pub set_qstring : B → Uri B H → Option (Uri B H)
  set_qstring b u = unless_set u.qstring (record u { qstring = some b })

  abbrev pub set_fragment : B → Uri B H → Option (Uri B H)
  set_fragment b u = unless_set u.fragment (record u { fragment = some b })

module _ {B H : Type 0} (lib : MnBytes B) where
  open lib use {from_str, from_str_len, is_null_or_empty, cmp_eq}

  -- Behind a `?`: the query string, and the fragment that starts at a `#` behind it.
  unfoldable pub parse_query : Bytes → Uri B H → Option (Uri B H)
  unfolding strchr
  parse_query query u = elim (strchr b'#' query) [
    | some f ↦ do u ← set_qstring (from_str_len query f) u; set_fragment (from_str (drop f query)) u
    | none ↦ set_qstring (from_str query) u
  ]

  -- From the first `/` on.
  unfoldable pub parse_path : Bytes → Uri B H → Option (Uri B H)
  unfolding parse_query
  parse_path text u =
      if is_scheme u.scheme serial then some (record u { path = some (from_str text) }) else do
        u ← set_relative (from_str text) u
        elim (strchr b'?' text) [
          | some q ↦ do
            u ← parse_query (drop (q + 1) text) u
            set_path (from_str_len text (q + 1 - 1)) u
          | none ↦ elim (strchr b'#' text) [
            | some f ↦ do
              u ← set_fragment (from_str (drop f text)) u
              set_path (from_str_len text f) u
            | none ↦ set_path (from_str text) u
          ]
        ]

  -- The part of `text` before the `@` at offset `at`.
  unfoldable pub parse_user : Bytes → ℕ → Uri B H → Option (Uri B H)
  unfolding strchr
  parse_user text at u =
      let whole = set_user (from_str_len text at) u in
      elim (strchr b':' text) [
        | none ↦ whole
        | some colon ↦
            if ltb colon at
            then set_user (from_str_len text colon) u
              >>= set_password (from_str_len (drop (colon + 1) text) (at - (colon + 1)))
            else whole
      ]

  -- Host and port, where `text` goes on with a path at offset `end`.
  unfoldable pub parse_host_before : Bytes → ℕ → Uri B H → Option (Uri B H)
  unfolding strchr
  parse_host_before text end u =
      let whole = set_host (from_str_len text end) u in
      elim (strchr b':' text) [
        | none ↦ whole
        | some colon ↦
            if ltb colon end
            then set_host (from_str_len text colon) u
              >>= set_port (from_str_len (drop (colon + 1) text) (end - (colon + 1)))
            else whole
      ]

  -- Host and port, where nothing stands behind them.
  unfoldable pub parse_host : Bytes → Uri B H → Option (Uri B H)
  unfolding strchr
  parse_host text u = elim (strchr b':' text) [
    | none ↦ set_host (from_str text) u
    | some colon ↦ do
      u ← set_host (from_str_len text colon) u
      set_port (from_str (drop (colon + 1) text)) u
  ]

  -- What stands between the scheme and the path at offset `end`.
  unfoldable pub parse_authority_before : Bytes → ℕ → Uri B H → Option (Uri B H)
  unfolding parse_user parse_host_before
  parse_authority_before text end u =
      let whole = parse_host_before text end u in
      elim (strchr b'@' text) [
        | none ↦ whole
        | some at ↦
            if ltb at end
            then parse_user text at u >>= parse_host_before (drop (at + 1) text) (end - (at + 1))
            else whole
      ]

  -- What stands behind the scheme, where there is no path.
  unfoldable pub parse_authority : Bytes → Uri B H → Option (Uri B H)
  unfolding parse_user parse_host
  parse_authority text u = elim (strchr b'@' text) [
    | none ↦ parse_host text u
    | some at ↦ do u ← parse_user text at u; parse_host (drop (at + 1) text) u
  ]

  -- All behind the scheme.
  unfoldable pub parse_rest : Bytes → Uri B H → Option (Uri B H)
  unfolding parse_path parse_authority_before parse_authority
  parse_rest text u = elim (strchr b'/' text) [
    | none ↦ parse_authority text u
    | some slash ↦ do u ← parse_path (drop slash text) u; parse_authority_before text slash u
  ]

  -- A missing or empty port is that of the scheme, if it has one.
  unfoldable pub default_port : Uri B H → Uri B H
  default_port u =
      if is_null_or_empty u.port
      then if is_scheme u.scheme https || is_scheme u.scheme wss
        then record u { port = some (from_str (codes "443")) }
        else if is_scheme u.scheme http || is_scheme u.scheme ws
        then record u { port = some (from_str (codes "80")) }
        else record u { port = none }
      else u

  -- Where the text names no scheme, the port decides. `none` where it is NULL: `bytes_cmp` is then
  -- called with NULL, of which nothing is documented.
  unfoldable pub default_scheme : Uri B H → Option (Uri B H)
  default_scheme u =
      let by_port : Option (Uri B H) = elim u.port [
        | none ↦ none
        | some port ↦
            if cmp_eq (some port) (from_str (codes "443"))
            then some (record u { scheme = https })
            else some (record u { scheme = http })
      ] in
      if is_scheme u.scheme undef then by_port else some u

  unfoldable pub mnhttp_uri_parse : Uri B H → Bytes → Option (Uri B H)
  mnhttp_uri_parse u s =
      let scheme = scheme_of s in
      let behind = drop (length (scheme_prefix scheme)) s in
      let found = if is_scheme scheme undef then u else record u { scheme = scheme } in
      do u ← parse_rest behind found; default_scheme (default_port u)
